-- ===== src/Firewall.antt =====
-- src/firewall.rs: the data of the firewall's policy (src/models.rs) and of its settings
-- (src/config.rs).
pub mod Policy
pub mod Settings
pub mod Calls
pub mod Manager
pub mod Committed
use router_hub.Common.{
  ℕ, ◌*◌, ◌/◌, ◌%◌, ◌^◌, String, Bool, true, false, not, ◌&&◌, ◌||◌, List, [], ◌∷◌, ◌++◌, map,
  Option, none, some, leb, ltb, nat_beq, nat_eq, string_eq, if◌then◌else◌, Eq, Result, ok, err, Map,
  get, insert, has, sort_by,
}
use Prim.Native.Char.{code}
use router_hub.BanAttack.Net.{IpAddr, v4, v6, Externs, is_ipv4}
use router_hub.BanAttack.Config.{Config, RuleConfig, FileConfig, at_end}
use router_hub.BanAttack.Compiled.{check_all, is_whitespace, is_blank}

pub record FirewallTuning : Type 0 where
  pub ip_failures : ℕ
  pub subnet_failures : ℕ
  pub promote_after_banned_ips : ℕ
  pub reputation_repromote_after_offenses : ℕ
  pub score_retention_days : ℕ
  pub reputation_retention_days : ℕ
  pub subnet_promotion_window_days : ℕ
  pub subnet_ban_days : ℕ
  pub first_ban_days : ℕ
  pub second_ban_days : ℕ
  pub third_ban_days : ℕ
  pub max_ban_days : ℕ

-- A rule of the policy, without `attempts` and `updated_at`, which src/firewall.rs does not read. A
-- `Uuid` is its 128 bits as a number.
pub record BanRule (FilePath : Type 0) : Type 0 where
  pub id : ℕ
  pub name : String
  pub enabled : Bool
  pub log_paths : List FilePath
  pub pattern : String
  pub ip_group : String
  pub group_values : Map String (List String)
  pub weight : ℕ

pub record FirewallPolicy (Net FilePath : Type 0) : Type 0 where
  pub enabled : Bool
  pub observe_only : Bool
  pub rules : List (BanRule FilePath)
  pub allowlist : List Net
  pub tuning : Option FirewallTuning

pub record FirewallRuntimeConfig (FilePath : Type 0) : Type 0 where
  pub poll_interval_ms : ℕ
  pub cleanup_interval_seconds : ℕ
  pub set_name_v4 : String
  pub set_name_v6 : String
  pub subnet_prefix_v4 : ℕ
  pub subnet_prefix_v6 : ℕ
  pub ip_failures : ℕ
  pub subnet_failures : ℕ
  pub promote_after_banned_ips : ℕ
  pub reputation_repromote_after_offenses : ℕ
  pub regex_dfa_cache_bytes : ℕ
  pub regex_size_limit_bytes : ℕ
  pub reverify_interval_seconds : ℕ
  pub protect_input : Bool
  pub protect_forward : Bool
  pub score_retention_days : ℕ
  pub reputation_retention_days : ℕ
  pub subnet_promotion_window_days : ℕ
  pub subnet_ban_days : ℕ
  pub first_ban_days : ℕ
  pub second_ban_days : ℕ
  pub third_ban_days : ℕ
  pub max_ban_days : ℕ
  pub max_tracked_ips : ℕ
  pub max_tracked_subnets : ℕ
  pub max_reputation_entries : ℕ
  pub max_active_bans : ℕ
  pub max_status_entries : ℕ
  pub persist_interval_seconds : ℕ
  pub command_timeout_seconds : ℕ
  pub log_dirs : List FilePath
  pub max_read_bytes_per_file_poll : ℕ
  pub max_lines_per_file_poll : ℕ
  pub max_line_bytes : ℕ

-- Of the hub's configuration, what the firewall reads: `state_file` is
-- `paths.data_dir.join("ban-attack-state.json")`, and the three commands are of `commands`.
pub record AppConfig (FilePath : Type 0) : Type 0 where
  pub test_mode : Bool
  pub state_file : FilePath
  pub ipset : FilePath
  pub iptables : FilePath
  pub ip6tables : FilePath
  pub firewall : FirewallRuntimeConfig FilePath

-- One constructor for each message.
pub data PolicyError (Net : Type 0) : Type 0 where
  zero_failures promote_too_small zero_offenses zero_days days_out_of_range : PolicyError Net
  days_not_increasing subnet_ban_too_long score_retention_too_short : PolicyError Net
  promotion_window_too_short reputation_retention_too_short nil_rule_id : PolicyError Net
  duplicate_rule_id : ℕ → PolicyError Net
  empty_rule_name : PolicyError Net
  duplicate_rule_name : String → PolicyError Net
  suspiciously_broad : Net → PolicyError Net

-- `?` on a result.
infixl 5 ◌>>?◌
abbrev pub ◌>>?◌ : {E A B : Type 0} → Result E A → (A → Result E B) → Result E B
r >>? f = elim r [ ok a ↦ f a | err e ↦ err e ]

abbrev pub seconds_per_day : ℕ
seconds_per_day = 86_400

-- `checked_mul` on `u64`.
unfoldable pub days_to_seconds : {Net : Type 0} → ℕ → Result (PolicyError Net) ℕ
days_to_seconds days =
    if ltb (days * seconds_per_day) (2 ^ 64)
    then ok (days * seconds_per_day)
    else err days_out_of_range
