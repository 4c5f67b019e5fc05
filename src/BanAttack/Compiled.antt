-- ===== src/BanAttack/Compiled.antt =====
-- src/ban_attack/compiled.rs: the checks that a configuration passes before the engine runs on it.
pub mod Paths
pub mod Nearest
pub mod Accepted
use router_hub.Common.{
  ℕ, String, ◌≡◌, Bool, true, false, not, ◌&&◌, ◌||◌, List, [], ◌∷◌, ◌++◌, map, Option, none, some,
  leb, ltb, nat_beq, if◌then◌else◌, length, Eq, ◌==◌, string_eq, Result, ok, err, has, any,
}
use Prim.Native.Char.{code}
use router_hub.BanAttack.Config.{AggregationConfig, Config, FileConfig, RuleConfig, IpSetConfig}
use Paths.{PathSystem, PathError, validate_log_path}

-- One constructor for each message of `validate`.
pub data ConfigError (FilePath : Type 0) : Type 0 where
  poll_interval_too_short zero_limits dfa_cache_too_small regex_limit_too_small :
      ConfigError FilePath
  zero_ip_failures zero_subnet_failures promote_after_too_small : ConfigError FilePath
  zero_repromote_offenses zero_durations durations_not_increasing : ConfigError FilePath
  zero_capacities bad_ipv4_prefix bad_ipv6_prefix blank_set_name : ConfigError FilePath
  zero_set_entries no_files : ConfigError FilePath
  bad_path : FilePath → PathError → ConfigError FilePath
  duplicate_path : FilePath → ConfigError FilePath
  no_rules : FilePath → ConfigError FilePath
  duplicate_rule : FilePath → String → ConfigError FilePath

-- A chain of `if bad { return Err(e) }`.
abbrev pub check_all : {E : Type 0} → List (Bool × E) → Result E (Unit {0})
check_all [] = ok tt
check_all ((bad, e) ∷ rest) = if bad then err e else check_all rest

-- `char::is_whitespace`.
unfoldable pub is_whitespace : ℕ → Bool
is_whitespace c =
    (leb 9 c && leb c 13)
    || nat_beq c 32
    || nat_beq c 0x85
    || nat_beq c 0xa0
    || nat_beq c 0x1680
    || (leb 0x2000 c && leb c 0x200a)
    || nat_beq c 0x2028
    || nat_beq c 0x2029
    || nat_beq c 0x202f
    || nat_beq c 0x205f
    || nat_beq c 0x3000

-- `s.trim().is_empty()`.
unfoldable pub is_blank : String → Bool
is_blank String.[] = true
is_blank (String.◌∷◌ c s) = is_whitespace (code c) && is_blank s

-- The checks of `config.aggregation`, in their order.
unfoldable pub aggregation_checks :
    (FilePath : Type 0) → AggregationConfig → List (Bool × ConfigError FilePath)
aggregation_checks FilePath a =
    (nat_beq a.ip_failures 0, zero_ip_failures)
    ∷ (nat_beq a.subnet_failures 0, zero_subnet_failures)
    ∷ (ltb a.promote_after_banned_ips 2, promote_after_too_small)
    ∷ (nat_beq a.reputation_repromote_after_offenses 0, zero_repromote_offenses)
    ∷ (
      nat_beq a.score_retention_seconds 0
          || nat_beq a.reputation_retention_seconds 0
          || nat_beq a.subnet_promotion_window_seconds 0
          || nat_beq a.subnet_ban_seconds 0,
      zero_durations,
    )
    ∷ (
      nat_beq a.first_ban_seconds 0
          || ltb a.second_ban_seconds a.first_ban_seconds
          || ltb a.third_ban_seconds a.second_ban_seconds
          || ltb a.max_ban_seconds a.third_ban_seconds,
      durations_not_increasing,
    )
    ∷ (
      nat_beq a.max_tracked_ips 0
          || nat_beq a.max_tracked_subnets 0
          || nat_beq a.max_reputation_entries 0
          || nat_beq a.max_active_bans 0,
      zero_capacities,
    )
    ∷ (not (leb 1 a.ipv4_prefix && leb a.ipv4_prefix 32), bad_ipv4_prefix)
    ∷ (not (leb 1 a.ipv6_prefix && leb a.ipv6_prefix 128), bad_ipv6_prefix)
    ∷ []

module _ {Net FilePath : Type 0} where
  unfoldable pub limit_checks : Config Net FilePath → List (Bool × ConfigError FilePath)
  limit_checks c =
      (ltb c.poll_interval_ms 10, poll_interval_too_short)
      ∷ (
        nat_beq c.persist_interval_seconds 0
            || nat_beq c.cleanup_interval_seconds 0
            || nat_beq c.max_status_entries 0
            || nat_beq c.command_queue_capacity 0
            || nat_beq c.command_timeout_seconds 0
            || nat_beq c.max_read_bytes_per_file_poll 0
            || nat_beq c.max_lines_per_file_poll 0
            || nat_beq c.max_line_bytes 0,
        zero_limits,
      )
      ∷ (ltb c.regex_dfa_cache_bytes 1024, dfa_cache_too_small)
      ∷ (ltb c.regex_size_limit_bytes 1024, regex_limit_too_small)
      ∷ []

  unfoldable pub set_checks : Config Net FilePath → List (Bool × ConfigError FilePath)
  set_checks c =
      (is_blank c.ipset.v4_set || is_blank c.ipset.v6_set, blank_set_name)
      ∷ (nat_beq c.ipset.max_entries 0, zero_set_entries)
      ∷ (nat_beq (length c.files) 0, no_files)
      ∷ []

-- The loop over the rules of a file, with the names seen so far.
unfoldable pub check_rules :
    {FilePath : Type 0}
    → FilePath
    → List String
    → List RuleConfig
    → Result (ConfigError FilePath) (Unit {0})
check_rules path names [] = ok tt
check_rules path names (rule ∷ rules) =
    let rest = check_rules path (rule.name ∷ names) rules in
    if has rule.name names then err (duplicate_rule path rule.name) else rest

module _ {FilePath : Type 0} ⦃e : Eq FilePath⦄ (fs : PathSystem FilePath) where
  -- The body of the loop over the files, with the paths seen so far.
  unfoldable pub check_file :
      List FilePath → List FilePath → FileConfig FilePath → Result (ConfigError FilePath) (Unit {0})
  check_file roots seen file = elim (validate_log_path fs file.path roots) [
    | err reason ↦ err (bad_path file.path reason)
    | ok _ ↦
        if has file.path seen
        then err (duplicate_path file.path)
        else if nat_beq (length file.rules) 0
        then err (no_rules file.path)
        else check_rules file.path [] file.rules
  ]

  unfoldable pub check_files :
      List FilePath
      → List FilePath
      → List (FileConfig FilePath)
      → Result (ConfigError FilePath) (Unit {0})
  check_files roots seen [] = ok tt
  check_files roots seen (file ∷ files) = elim (check_file roots seen file) [
    | err reason ↦ err reason
    | ok _ ↦ check_files roots (file.path ∷ seen) files
  ]

  unfoldable pub validate :
      {Net : Type 0} → Config Net FilePath → Result (ConfigError FilePath) (Unit {0})
  validate c =
      elim (check_all
        (limit_checks c ++ aggregation_checks FilePath c.aggregation ++ set_checks c)) [
          | err reason ↦ err reason
          | ok _ ↦ check_files c.log_dirs [] c.files
        ]
