-- ===== src/Firewall/Settings.antt =====
-- src/firewall.rs: the configuration of the ban engine that a policy stands for.
use router_hub.Common.{
  Bool, List, [], ◌∷◌, ◌++◌, map, Option, none, some, nat_eq, string_eq, if◌then◌else◌, Eq, Result,
  ok, Map, get, insert, sort_by,
}
use router_hub.BanAttack.Config.{Config, RuleConfig, FileConfig, at_end}
use router_hub.Firewall.{
  FirewallTuning, BanRule, FirewallPolicy, AppConfig, PolicyError, ◌>>?◌, days_to_seconds,
}

abbrev pub ban_rule : {FilePath : Type 0} → BanRule FilePath → RuleConfig
ban_rule rule = record {
  name = rule.name;
  regex = rule.pattern;
  ip_group = rule.ip_group;
  group_values = rule.group_values;
  weight = rule.weight;
}

abbrev pub or_empty : Option (List RuleConfig) → List RuleConfig
or_empty none = []
or_empty (some rules) = rules

module _ {FilePath : Type 0} ⦃eq : Eq FilePath⦄ where
  -- `file_map.entry(path).or_default().push(rule)`, for each path.
  unfoldable pub add_to_files :
      RuleConfig → List FilePath → Map FilePath (List RuleConfig) → Map FilePath (List RuleConfig)
  add_to_files rule [] files = files
  add_to_files rule (path ∷ paths) files =
      add_to_files rule paths (insert path (or_empty (get path files) ++ rule ∷ []) files)

  unfoldable pub group_rules :
      List (BanRule FilePath) → Map FilePath (List RuleConfig) → Map FilePath (List RuleConfig)
  group_rules [] files = files
  group_rules (rule ∷ rules) files =
      group_rules rules
        (if rule.enabled then add_to_files (ban_rule rule) rule.log_paths files else files)

module _ {Net FilePath : Type 0} ⦃eq : Eq FilePath⦄ (path_lt : FilePath → FilePath → Bool)
    (config : AppConfig FilePath) where
  abbrev pub effective_tuning : FirewallPolicy Net FilePath → FirewallTuning
  effective_tuning policy = elim (policy.tuning) [
    | some tuning ↦ tuning
    | none ↦ record {
      ip_failures = config.firewall.ip_failures;
      subnet_failures = config.firewall.subnet_failures;
      promote_after_banned_ips = config.firewall.promote_after_banned_ips;
      reputation_repromote_after_offenses = config.firewall.reputation_repromote_after_offenses;
      score_retention_days = config.firewall.score_retention_days;
      reputation_retention_days = config.firewall.reputation_retention_days;
      subnet_promotion_window_days = config.firewall.subnet_promotion_window_days;
      subnet_ban_days = config.firewall.subnet_ban_days;
      first_ban_days = config.firewall.first_ban_days;
      second_ban_days = config.firewall.second_ban_days;
      third_ban_days = config.firewall.third_ban_days;
      max_ban_days = config.firewall.max_ban_days;
    }
  ]

  -- A `BTreeMap` is read in the order of its keys.
  unfoldable pub policy_files : FirewallPolicy Net FilePath → List (FileConfig FilePath)
  policy_files policy =
      map (λ entry. record { path = entry.0; start_at = at_end; rules = entry.1 })
        (sort_by (λ a b. path_lt a.0 b.0) (group_rules policy.rules []))

  unfoldable pub build_ban_attack_config :
      FirewallPolicy Net FilePath → Result (PolicyError Net) (Config Net FilePath)
  build_ban_attack_config policy =
      let tuning = effective_tuning policy in
      let runtime = config.firewall in
      days_to_seconds tuning.score_retention_days >>? λ score_retention.
      days_to_seconds tuning.reputation_retention_days >>? λ reputation_retention.
      days_to_seconds tuning.subnet_promotion_window_days >>? λ promotion_window.
      days_to_seconds tuning.subnet_ban_days >>? λ subnet_ban.
      days_to_seconds tuning.first_ban_days >>? λ first_ban.
      days_to_seconds tuning.second_ban_days >>? λ second_ban.
      days_to_seconds tuning.third_ban_days >>? λ third_ban.
      days_to_seconds tuning.max_ban_days >>? λ max_ban. ok (record {
        poll_interval_ms = runtime.poll_interval_ms;
        regex_dfa_cache_bytes = runtime.regex_dfa_cache_bytes;
        regex_size_limit_bytes = runtime.regex_size_limit_bytes;
        test_mode = config.test_mode;
        persistence_file = some config.state_file;
        persist_interval_seconds = runtime.persist_interval_seconds;
        cleanup_interval_seconds = runtime.cleanup_interval_seconds;
        max_status_entries = runtime.max_status_entries;
        command_queue_capacity = 128;
        command_timeout_seconds = runtime.command_timeout_seconds;
        log_dirs = runtime.log_dirs;
        max_read_bytes_per_file_poll = runtime.max_read_bytes_per_file_poll;
        max_lines_per_file_poll = runtime.max_lines_per_file_poll;
        max_line_bytes = runtime.max_line_bytes;
        firewall = record {
          enabled = policy.enabled;
          observe_only = policy.observe_only;
          iptables_command = config.iptables;
          ip6tables_command = config.ip6tables;
          protect_input = runtime.protect_input;
          protect_forward = runtime.protect_forward;
          reverify_interval_seconds = runtime.reverify_interval_seconds;
          command_timeout_seconds = runtime.command_timeout_seconds;
        };
        aggregation = record {
          ip_failures = tuning.ip_failures;
          subnet_failures = tuning.subnet_failures;
          promote_after_banned_ips = tuning.promote_after_banned_ips;
          reputation_repromote_after_offenses = tuning.reputation_repromote_after_offenses;
          ipv4_prefix = runtime.subnet_prefix_v4;
          ipv6_prefix = runtime.subnet_prefix_v6;
          score_retention_seconds = score_retention;
          reputation_retention_seconds = reputation_retention;
          subnet_promotion_window_seconds = promotion_window;
          subnet_ban_seconds = subnet_ban;
          first_ban_seconds = first_ban;
          second_ban_seconds = second_ban;
          third_ban_seconds = third_ban;
          max_ban_seconds = max_ban;
          max_tracked_ips = runtime.max_tracked_ips;
          max_tracked_subnets = runtime.max_tracked_subnets;
          max_reputation_entries = runtime.max_reputation_entries;
          max_active_bans = runtime.max_active_bans;
        };
        ipset = record {
          command = config.ipset;
          v4_set = runtime.set_name_v4;
          v6_set = runtime.set_name_v6;
          max_entries = 65536;
        };
        exceptions = policy.allowlist;
        files = policy_files policy;
      })
