-- ===== src/BanAttack/Compiled/Accepted.antt =====
-- src/ban_attack/compiled.rs: what `validate` accepts, stated without its order of tests.
use router_hub.Common.{
  String, ◌≡◌, ◌≤◌, ◌<◌, ◌↔◌, refl, Bool, false, List, [], ◌∷◌, ◌++◌, arith, length, Eq, string_eq,
  ok, has, Result-cases, inl, inr,
}
use router_hub.BanAttack.Config.{AggregationConfig, Config, FileConfig, RuleConfig}
use router_hub.BanAttack.Compiled.Paths.{PathSystem, validate_log_path}
use router_hub.BanAttack.Compiled.{
  ConfigError, check_all, aggregation_checks, limit_checks, set_checks, is_blank, check_rules,
  check_file, check_files, validate,
}

abbrev AllPass : {E : Type 0} → List (Bool × E) → Type 0
AllPass [] = Unit {0}
AllPass (x ∷ rest) = (x.0 ≡ false) × AllPass rest

check_all_iff : {E : Type 0} (l : List (Bool × E)) → (check_all l ≡ ok tt) ↔ AllPass l
check_all_iff [] = (λ _. tt, λ _. refl)
check_all_iff ((bad, e) ∷ rest) = ground (arith, check_all_iff rest)

AllPass-append :
    {E : Type 0} (xs ys : List (Bool × E)) → AllPass (xs ++ ys) ↔ (AllPass xs × AllPass ys)
AllPass-append [] ys = (λ h. (tt, h), λ h. h.1)
AllPass-append (x ∷ xs) ys =
    let ih = AllPass-append xs ys in
    (λ h. ((h.0, (ih.0 h.1).0), (ih.0 h.1).1), λ h. (h.0.0, ih.1 (h.0.1, h.1)))

-- The thresholds and capacities are positive, the ban durations grow, the prefixes are in range.
pub record IsValidAggregation (a : AggregationConfig) : Type 0 where
  pub ip_failures : 0 < a.ip_failures
  pub subnet_failures : 0 < a.subnet_failures
  pub promote_after : 2 ≤ a.promote_after_banned_ips
  pub repromote_after : 0 < a.reputation_repromote_after_offenses
  pub score_retention : 0 < a.score_retention_seconds
  pub reputation_retention : 0 < a.reputation_retention_seconds
  pub promotion_window : 0 < a.subnet_promotion_window_seconds
  pub subnet_ban : 0 < a.subnet_ban_seconds
  pub first_ban : 0 < a.first_ban_seconds
  pub second_ban : a.first_ban_seconds ≤ a.second_ban_seconds
  pub third_ban : a.second_ban_seconds ≤ a.third_ban_seconds
  pub max_ban : a.third_ban_seconds ≤ a.max_ban_seconds
  pub tracked_ips : 0 < a.max_tracked_ips
  pub tracked_subnets : 0 < a.max_tracked_subnets
  pub reputation_entries : 0 < a.max_reputation_entries
  pub active_bans : 0 < a.max_active_bans
  pub ipv4_prefix : (1 ≤ a.ipv4_prefix) × (a.ipv4_prefix ≤ 32)
  pub ipv6_prefix : (1 ≤ a.ipv6_prefix) × (a.ipv6_prefix ≤ 128)

aggregation_checks_sound :
    (FilePath : Type 0) (a : AggregationConfig)
    → AllPass (aggregation_checks FilePath a)
    → IsValidAggregation a
unfolding aggregation_checks
aggregation_checks_sound FilePath a h = ground arith

aggregation_checks_complete :
    (FilePath : Type 0) (a : AggregationConfig)
    → IsValidAggregation a
    → AllPass (aggregation_checks FilePath a)
unfolding aggregation_checks
aggregation_checks_complete FilePath a h = ground arith

-- The limits of the engine are positive, the regex limits at least 1024, and a poll 10 ms apart.
pub record IsValidLimits {Net FilePath : Type 0} (c : Config Net FilePath) : Type 0 where
  pub poll_interval : 10 ≤ c.poll_interval_ms
  pub persist_interval : 0 < c.persist_interval_seconds
  pub cleanup_interval : 0 < c.cleanup_interval_seconds
  pub status_entries : 0 < c.max_status_entries
  pub queue_capacity : 0 < c.command_queue_capacity
  pub command_timeout : 0 < c.command_timeout_seconds
  pub read_bytes : 0 < c.max_read_bytes_per_file_poll
  pub lines : 0 < c.max_lines_per_file_poll
  pub line_bytes : 0 < c.max_line_bytes
  pub dfa_cache : 1024 ≤ c.regex_dfa_cache_bytes
  pub regex_size : 1024 ≤ c.regex_size_limit_bytes
  pub v4_set : is_blank c.ipset.v4_set ≡ false
  pub v6_set : is_blank c.ipset.v6_set ≡ false
  pub set_entries : 0 < c.ipset.max_entries
  pub files : 0 < length c.files

module _ {Net FilePath : Type 0} (c : Config Net FilePath) where
  limits_sound : AllPass (limit_checks c) → AllPass (set_checks c) → IsValidLimits c
  unfolding limit_checks set_checks
  limits_sound h k = ground arith

  limits_complete : IsValidLimits c → AllPass (limit_checks c) × AllPass (set_checks c)
  unfolding limit_checks set_checks
  limits_complete h = ground arith

  abbrev all_checks : List (Bool × ConfigError FilePath)
  all_checks = limit_checks c ++ aggregation_checks FilePath c.aggregation ++ set_checks c

  all_checks_iff :
      (check_all all_checks ≡ ok tt) ↔ (IsValidLimits c × IsValidAggregation c.aggregation)
  all_checks_iff =
      let outer =
        AllPass-append (limit_checks c ++ aggregation_checks FilePath c.aggregation)
          (set_checks c) in
      let inner = AllPass-append (limit_checks c) (aggregation_checks FilePath c.aggregation) in
      (
        λ h.
            let parts = outer.0 ((check_all_iff all_checks).0 h) in
            let firsts = inner.0 parts.0 in
            (
              limits_sound firsts.0 parts.1,
              aggregation_checks_sound FilePath c.aggregation firsts.1,
            ),
        λ v.
            let limits = limits_complete v.0 in
            (check_all_iff all_checks).1 (
              outer.1 (
                inner.1 (limits.0, aggregation_checks_complete FilePath c.aggregation v.1),
                limits.1,
              )),
      )

-- No rule name is in the list or comes twice.
abbrev pub HasNewNames : List String → List RuleConfig → Type 0
HasNewNames names [] = Unit {0}
HasNewNames names (r ∷ rs) = (has r.name names ≡ false) × HasNewNames (r.name ∷ names) rs

check_rules_iff :
    {FilePath : Type 0} (path : FilePath) (names : List String) (rs : List RuleConfig)
    → (check_rules path names rs ≡ ok tt) ↔ HasNewNames names rs
unfolding check_rules
check_rules_iff path names [] = (λ _. tt, λ _. refl)
check_rules_iff path names (r ∷ rs) = ground (arith, check_rules_iff path (r.name ∷ names) rs)

module _ {FilePath : Type 0} ⦃e : Eq FilePath⦄ (fs : PathSystem FilePath)
    (roots : List FilePath) where
  -- Every file has an admissible path of its own, and rules of distinct names.
  abbrev pub AreValidFiles : List FilePath → List (FileConfig FilePath) → Type 0
  AreValidFiles seen [] = Unit {0}
  AreValidFiles seen (f ∷ fs') =
      (validate_log_path fs f.path roots ≡ ok tt)
      × (has f.path seen ≡ false)
      × (0 < length f.rules)
      × HasNewNames [] f.rules
      × AreValidFiles (f.path ∷ seen) fs'

  check_file_iff :
      (seen : List FilePath) (f : FileConfig FilePath)
      → (check_file fs roots seen f ≡ ok tt) ↔ (
          (validate_log_path fs f.path roots ≡ ok tt)
          × (has f.path seen ≡ false)
          × (0 < length f.rules)
          × HasNewNames [] f.rules)
  unfolding check_file
  check_file_iff seen f = ground (arith, check_rules_iff f.path [] f.rules)

  check_files_iff :
      (seen : List FilePath) (files : List (FileConfig FilePath))
      → (check_files fs roots seen files ≡ ok tt) ↔ AreValidFiles seen files
  unfolding check_files
  check_files_iff seen [] = (λ _. tt, λ _. refl)
  check_files_iff seen (f ∷ files) =
      ground (arith, check_file_iff seen f, check_files_iff (f.path ∷ seen) files)

-- `validate` accepts a configuration exactly when its limits are in range, its aggregation is valid
-- (positive thresholds and capacities, growing ban durations, prefixes in range), and every file
-- has an admissible path of its own with at least one rule and distinct rule names.
pub validate_iff :
    {Net FilePath : Type 0} ⦃e : Eq FilePath⦄ (fs : PathSystem FilePath) (c : Config Net FilePath)
    → (validate fs c ≡ ok tt) ↔ (
        IsValidLimits c × IsValidAggregation c.aggregation × AreValidFiles fs c.log_dirs [] c.files)
unfolding validate
validate_iff fs c =
    let checks = check_all (all_checks c) in
    let (sound, complete) = all_checks_iff c in
    let (files_sound, files_complete) = check_files_iff fs c.log_dirs [] c.files in
    (
      λ h. elim (Result-cases checks) [
        | inl (u, good) ↦
            let (limits, aggregation) = sound good in
            (limits, aggregation, files_sound (ground (arith, good)))
        | inr (reason, bad) ↦ absurd (ground (arith, bad))
      ],
      λ (limits, aggregation, files).
          rw (validate, complete (limits, aggregation)) (files_complete files),
    )
