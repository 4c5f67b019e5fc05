-- ===== src/Examples/Policies.antt =====
-- src/firewall.rs: the change of a policy at a concrete input.
use router_hub.Common.{
  ℕ, suc, String, ◌≡◌, refl, Bool, true, false, [], ◌∷◌, some, ok, err, M, Ends-ok, get, insert,
  has, sort_by, sort_insert, any, nat_eq, string_eq, Result, ltb,
}
use router_hub.BanAttack.Net.{net_eq}
use router_hub.BanAttack.Engine.{Error, engine_stopped}
use router_hub.BanAttack.CompiledConfig.{compile_rules, compile_files, compile_config}
use router_hub.BanAttack.Compiled.{
  is_blank, is_whitespace, validate, limit_checks, aggregation_checks, set_checks, check_files,
  check_file, check_rules,
}
use router_hub.BanAttack.Compiled.Paths.{
  validate_log_path, is_glob, check_parent, nearest_existing, nearest_from, is_below, check_target,
}
use router_hub.BanAttack.Rule.{compile, compile_groups, compile_filters, named_from, find_group}
use router_hub.Firewall.{FirewallPolicy, AppConfig, days_to_seconds}
use router_hub.Firewall.Policy.{
  trim_end, trim_start, check_days, validate_tuning, check_policy_rules, is_suspicious, is_private,
  is_loopback, check_allowlist, validate_policy,
}
use router_hub.Firewall.Settings.{add_to_files, group_rules, policy_files, build_ban_attack_config}
use router_hub.Firewall.Calls.{Engines, ManagerError, FirewallManager}
use router_hub.Firewall.Manager.{
  replace_engine, change_engine, update_policy, validate_config, commit, replace_policy,
}
use router_hub.Firewall.Committed.{IsCommitted, replace_policy-IsCommitted}
use router_hub.Examples.Fixtures.{Network, networks, attackers_net}
use router_hub.Examples.Logs.{disk, engine}

-- The settings of the defaults of src/config.rs, with one directory of logs.
abbrev settings : AppConfig ℕ
settings = record {
  test_mode = false;
  state_file = 10;
  ipset = 11;
  iptables = 12;
  ip6tables = 13;
  firewall = record {
    poll_interval_ms = 1_000;
    cleanup_interval_seconds = 60;
    set_name_v4 = "router_hub_bans4";
    set_name_v6 = "router_hub_bans6";
    subnet_prefix_v4 = 24;
    subnet_prefix_v6 = 64;
    ip_failures = 4;
    subnet_failures = 8;
    promote_after_banned_ips = 2;
    reputation_repromote_after_offenses = 1;
    regex_dfa_cache_bytes = 65_536;
    regex_size_limit_bytes = 1_048_576;
    reverify_interval_seconds = 60;
    protect_input = true;
    protect_forward = true;
    score_retention_days = 14;
    reputation_retention_days = 180;
    subnet_promotion_window_days = 14;
    subnet_ban_days = 7;
    first_ban_days = 1;
    second_ban_days = 7;
    third_ban_days = 30;
    max_ban_days = 90;
    max_tracked_ips = 10_000;
    max_tracked_subnets = 2_048;
    max_reputation_entries = 4_096;
    max_active_bans = 8_192;
    max_status_entries = 100;
    persist_interval_seconds = 30;
    command_timeout_seconds = 10;
    log_dirs = 1 ∷ [];
    max_read_bytes_per_file_poll = 4_096;
    max_lines_per_file_poll = 100;
    max_line_bytes = 1_024;
  };
}

abbrev policy_of : Bool → FirewallPolicy Network ℕ
policy_of enabled = record {
  enabled = enabled;
  observe_only = false;
  rules =
      record {
        id = 5;
        name = "ssh";
        enabled = true;
        log_paths = 2 ∷ [];
        pattern = "ip=(?P<ip>.*)";
        ip_group = "ip";
        group_values = ("result", "failed" ∷ []) ∷ [];
        weight = 1;
      }
      ∷ [];
  allowlist = attackers_net ∷ [];
  tuning = some (record {
    ip_failures = 4;
    subnet_failures = 8;
    promote_after_banned_ips = 2;
    reputation_repromote_after_offenses = 1;
    score_retention_days = 14;
    reputation_retention_days = 180;
    subnet_promotion_window_days = 14;
    subnet_ban_days = 7;
    first_ban_days = 1;
    second_ban_days = 7;
    third_ban_days = 30;
    max_ban_days = 90;
  });
}

-- Engines that count what they are asked for. A running one refuses every new configuration.
abbrev counted : {A : Type 0} → A → M (Error ℕ) ℕ A
counted a n = (ok a, suc n)

abbrev stubborn : Engines Network ℕ ℕ ℕ
stubborn = record {
  start = λ _ n. (ok n, suc n);
  drop = λ _ n. suc n;
  update_config = λ _ _ n. (err engine_stopped, suc n);
  disable = λ _. counted tt;
  flush = λ _. counted tt;
  reconcile = λ _. counted tt;
  reset_counts = λ _ _. counted tt;
  add_ban = λ _ _ _ _ n. (err engine_stopped, suc n);
}

abbrev saves : FirewallPolicy Network ℕ → M String ℕ (Unit {0})
saves policy n = (ok tt, suc n)

abbrev before : FirewallManager Network ℕ ℕ ℕ
before = record { inner = some 40; policy = policy_of false; world = 50 }

abbrev after : Result (ManagerError Network ℕ String) (Unit {0}) × FirewallManager Network ℕ ℕ ℕ
after = replace_policy ltb engine disk settings stubborn saves (policy_of true) before

applied : after.0 ≡ ok tt
unfolding replace_policy validate_policy validate_tuning check_days days_to_seconds
    check_policy_rules trim_end trim_start is_blank is_whitespace has check_allowlist is_suspicious
    is_private is_loopback build_ban_attack_config policy_files group_rules add_to_files get insert
    sort_by sort_insert validate_config update_policy change_engine replace_engine commit
    compile_config compile_files compile_rules compile compile_groups compile_filters named_from
    find_group validate limit_checks aggregation_checks set_checks check_files check_file
    check_rules validate_log_path any is_glob check_parent nearest_existing nearest_from is_below
    check_target
applied = refl

replace_policy-IsCommitted_example :
    IsCommitted ltb engine disk settings stubborn saves (policy_of true) after.1
replace_policy-IsCommitted_example =
    Ends-ok _ _ after
      (replace_policy-IsCommitted ltb engine disk settings stubborn saves (policy_of true) before)
      applied
