-- ===== src/BanAttack/Config.antt =====
-- src/ban_attack/config.rs: the configuration of the engine. A path is of the type `FilePath` and a
-- network of the type `Net`, which stand for `PathBuf` and `IpNet`.
use router_hub.Common.{ℕ, String, Bool, List, Option, Map}

pub record AggregationConfig : Type 0 where
  pub ip_failures : ℕ
  pub subnet_failures : ℕ
  pub promote_after_banned_ips : ℕ
  pub reputation_repromote_after_offenses : ℕ
  pub ipv4_prefix : ℕ
  pub ipv6_prefix : ℕ
  pub score_retention_seconds : ℕ
  pub reputation_retention_seconds : ℕ
  pub subnet_promotion_window_seconds : ℕ
  pub subnet_ban_seconds : ℕ
  pub first_ban_seconds : ℕ
  pub second_ban_seconds : ℕ
  pub third_ban_seconds : ℕ
  pub max_ban_seconds : ℕ
  pub max_tracked_ips : ℕ
  pub max_tracked_subnets : ℕ
  pub max_reputation_entries : ℕ
  pub max_active_bans : ℕ

-- `impl Default for AggregationConfig`, with the `default_*` functions that it calls.
abbrev pub default_config : AggregationConfig
default_config = record {
  ip_failures = 4;
  subnet_failures = 8;
  promote_after_banned_ips = 2;
  reputation_repromote_after_offenses = 1;
  ipv4_prefix = 24;
  ipv6_prefix = 64;
  score_retention_seconds = 1_209_600;
  reputation_retention_seconds = 15_552_000;
  subnet_promotion_window_seconds = 1_209_600;
  subnet_ban_seconds = 604_800;
  first_ban_seconds = 86_400;
  second_ban_seconds = 604_800;
  third_ban_seconds = 2_592_000;
  max_ban_seconds = 7_776_000;
  max_tracked_ips = 10_000;
  max_tracked_subnets = 2_048;
  max_reputation_entries = 4_096;
  max_active_bans = 8_192;
}

pub record FirewallConfig (FilePath : Type 0) : Type 0 where
  pub enabled : Bool
  pub observe_only : Bool
  pub iptables_command : FilePath
  pub ip6tables_command : FilePath
  pub protect_input : Bool
  pub protect_forward : Bool
  pub reverify_interval_seconds : ℕ
  pub command_timeout_seconds : ℕ

pub record IpSetConfig (FilePath : Type 0) : Type 0 where
  pub command : FilePath
  pub v4_set : String
  pub v6_set : String
  pub max_entries : ℕ

pub data StartAt : Type 0 where
  beginning at_end : StartAt

pub record RuleConfig : Type 0 where
  pub name : String
  pub regex : String
  pub ip_group : String
  pub group_values : Map String (List String)
  pub weight : ℕ

pub record FileConfig (FilePath : Type 0) : Type 0 where
  pub path : FilePath
  pub start_at : StartAt
  pub rules : List RuleConfig

pub record Config (Net FilePath : Type 0) : Type 0 where
  pub poll_interval_ms : ℕ
  pub regex_dfa_cache_bytes : ℕ
  pub regex_size_limit_bytes : ℕ
  pub test_mode : Bool
  pub persistence_file : Option FilePath
  pub persist_interval_seconds : ℕ
  pub cleanup_interval_seconds : ℕ
  pub max_status_entries : ℕ
  pub command_queue_capacity : ℕ
  pub command_timeout_seconds : ℕ
  pub log_dirs : List FilePath
  pub max_read_bytes_per_file_poll : ℕ
  pub max_lines_per_file_poll : ℕ
  pub max_line_bytes : ℕ
  pub firewall : FirewallConfig FilePath
  pub aggregation : AggregationConfig
  pub ipset : IpSetConfig FilePath
  pub exceptions : List Net
  pub files : List (FileConfig FilePath)
