-- ===== src/Examples/Logs.antt =====
-- src/ban_attack/{tailer,compiled,rule}.rs and src/util.rs: the theorems at concrete inputs.
use router_hub.Common.{
  has, err, map, any, contains_key, All, zero, suc, leb, nat_eq, ℕ, ◌+◌, ◌≤◌, ◌≡◌, ◌↔◌, refl, true,
  false, List, [], ◌∷◌, ◌++◌, Option, none, some, arith, ok, length, string_eq,
}
use router_hub.BanAttack.Net.{v4}
use router_hub.BanAttack.Config.{Config, RuleConfig, at_end, default_config}
use router_hub.BanAttack.Tailer.{OpenFile, feed}
use router_hub.BanAttack.Tailer.Split.{scan, drop, feed-scan, feed_bounds}
use router_hub.BanAttack.Tailer.Lines.{
  HasNoNewline, text_of, IsAtLineStart, delivered, dropped_after, scan-text_of,
}
use router_hub.BanAttack.Compiled.{
  validate, is_blank, is_whitespace, limit_checks, aggregation_checks, set_checks, check_files,
  check_file, check_rules,
}
use router_hub.BanAttack.Compiled.Paths.{
  PathSystem, nearest_existing, nearest_from, validate_log_path, is_glob, check_parent, is_below,
  check_target,
}
use router_hub.BanAttack.Compiled.Accepted.{
  IsValidAggregation, IsValidLimits, AreValidFiles, validate_iff,
}
use router_hub.BanAttack.CompiledConfig.{
  CompiledConfig, with_files, compile_rules, compile_files, compile_config, compile_config-paths,
}
use router_hub.BanAttack.Tailer.Files.{FileSystem, not_found}
use router_hub.BanAttack.Tailer.Tailers.{no_state, sync, contains_key-sync}
use router_hub.BanAttack.Rule.{
  RegexEngine, CompiledRule, compile, compile_groups, compile_filters, named_from, find_group,
  match_line,
}
use router_hub.BanAttack.Rule.Named.{address_named, match_line-compile}
use router_hub.Util.{parse_mac}
use router_hub.Util.Mac.{print_mac, parse_mac-print_mac}

abbrev open_log : OpenFile
open_log = record {
  id = record { device = 1; inode = 2 };
  offset = 0;
  pending = [];
  anchor = [];
  last_len = 0;
  last_modified = none;
  idle_polls = 0;
  discarding_long_line = false;
  dropped_line_count = 0;
}

abbrev two_lines : List (List ℕ)
two_lines = (97 ∷ 98 ∷ []) ∷ (99 ∷ 100 ∷ 101 ∷ []) ∷ []

abbrev bytes : List ℕ
bytes = 97 ∷ 98 ∷ 10 ∷ 99 ∷ 10 ∷ []

feed-scan_example :
    let out = feed 1 8 bytes [] open_log in
    let later = scan 8 (drop out.2 bytes) out.1 in
    (out.0 ++ later.0 ≡ [] ++ (scan 8 bytes open_log).0) × (later.1 ≡ (scan 8 bytes open_log).1)
feed-scan_example = feed-scan 1 8 bytes [] open_log

feed_bounds_example :
    let out = feed 1 8 bytes [] open_log in
    (length out.0 ≤ 1) × (out.2 ≤ length bytes) × (out.1.offset ≡ 0 + out.2)
feed_bounds_example = feed_bounds 1 8 bytes [] open_log (omega arith) (omega arith)

no_newlines : All HasNoNewline two_lines
no_newlines = ground arith

scan-text_of_example :
    let out = scan 2 (text_of two_lines) open_log in
    (out.0 ≡ delivered 2 two_lines)
    × IsAtLineStart out.1
    × (out.1.dropped_line_count ≡ dropped_after 2 two_lines 0)
scan-text_of_example =
    scan-text_of 2 two_lines open_log no_newlines (record { pending = refl; keeping = refl })

parse_mac-print_mac_example :
    parse_mac (print_mac 45 (1 ∷ 2 ∷ 171 ∷ 4 ∷ 5 ∷ 255 ∷ []))
    ≡ some (1 ∷ 2 ∷ 171 ∷ 4 ∷ 5 ∷ 255 ∷ [])
parse_mac-print_mac_example =
    parse_mac-print_mac 45 (1 ∷ 2 ∷ 171 ∷ 4 ∷ 5 ∷ 255 ∷ []) refl (ground arith) (omega arith)

-- A chain of directories: 0 is the root, and the entry `n + 1` lies in `n`.
abbrev slashes : ℕ → List ℕ
slashes zero = []
slashes (suc n) = 47 ∷ slashes n

abbrev up_from : ℕ → Option ℕ
up_from zero = none
up_from (suc n) = some n

abbrev pub disk : PathSystem ℕ
disk = record {
  is_absolute = λ _. true;
  chars = slashes;
  components = λ _. [];
  parent = up_from;
  exists = λ p. leb p 1;
  canonicalize = λ p. some p;
  starts_with = λ p q. leb q p;
  symlink_metadata = λ _. none;
}

abbrev ssh_rule : RuleConfig
ssh_rule = record {
  name = "ssh";
  regex = "ip=(?P<ip>.*)";
  ip_group = "ip";
  group_values = ("result", "failed" ∷ []) ∷ [];
  weight = 1;
}

abbrev one_file : Config ℕ ℕ
one_file = record {
  poll_interval_ms = 250;
  regex_dfa_cache_bytes = 2_097_152;
  regex_size_limit_bytes = 2_097_152;
  test_mode = false;
  persistence_file = none;
  persist_interval_seconds = 30;
  cleanup_interval_seconds = 60;
  max_status_entries = 1_000;
  command_queue_capacity = 64;
  command_timeout_seconds = 5;
  log_dirs = 0 ∷ [];
  max_read_bytes_per_file_poll = 262_144;
  max_lines_per_file_poll = 1_000;
  max_line_bytes = 16_384;
  firewall = record {
    enabled = true;
    observe_only = false;
    iptables_command = 0;
    ip6tables_command = 0;
    protect_input = true;
    protect_forward = true;
    reverify_interval_seconds = 60;
    command_timeout_seconds = 5;
  };
  aggregation = default_config;
  ipset = record { command = 0; v4_set = "v4"; v6_set = "v6"; max_entries = 65_536 };
  exceptions = [];
  files = record { path = 2; start_at = at_end; rules = ssh_rule ∷ [] } ∷ [];
}

validate_iff_example : (validate disk one_file ≡ ok tt) ↔ (
    IsValidLimits one_file
    × IsValidAggregation default_config
    × AreValidFiles disk (0 ∷ []) [] one_file.files)
validate_iff_example = validate_iff disk one_file

-- An automaton that finds every line, and a pattern with the groups `result` and `ip` after the whole match.
abbrev pub engine : RegexEngine (Unit {0}) (Unit {0})
engine = record {
  build_dfa = λ _ _. ok tt;
  build_regex = λ _ _ _. ok tt;
  capture_names = λ _. none ∷ some "result" ∷ some "ip" ∷ [];
  try_search_fwd = λ _ _. ok (some 0);
  captures = λ _ line. some (some line ∷ some "failed" ∷ some "10.0.0.1" ∷ []);
  parse_ip = λ _. some (v4 167_772_161);
}

abbrev compiled_rule : CompiledRule (Unit {0}) (Unit {0})
compiled_rule = record {
  name = "ssh";
  weight = 1;
  fast = tt;
  regex = tt;
  ip_group_index = 2;
  filters = (1, "failed" ∷ []) ∷ [];
}

ssh_rule-compiles : compile engine ssh_rule 1_024 1_024 ≡ ok compiled_rule
unfolding compile compile_groups compile_filters named_from find_group is_blank is_whitespace
ssh_rule-compiles = refl

match_line-compile_example :
    match_line engine compiled_rule "ip=10.0.0.1"
    ≡ ok (
        address_named engine ssh_rule
          (none ∷ some "result" ∷ some "ip" ∷ [])
          (some "ip=10.0.0.1" ∷ some "failed" ∷ some "10.0.0.1" ∷ []))
match_line-compile_example =
    match_line-compile engine ssh_rule 1_024 1_024 "ip=10.0.0.1" ssh_rule-compiles refl refl

abbrev one_compiled : CompiledConfig ℕ ℕ (Unit {0}) (Unit {0})
one_compiled =
    with_files engine disk one_file
      (record { path = 2; start_at = at_end; rules = compiled_rule ∷ [] } ∷ [])

one_file-compiles : compile_config engine disk one_file ≡ ok one_compiled
unfolding compile_config compile_files compile_rules compile compile_groups compile_filters
    named_from find_group is_blank is_whitespace validate limit_checks aggregation_checks set_checks
    check_files check_file check_rules has validate_log_path any is_glob check_parent
    nearest_existing nearest_from is_below check_target
one_file-compiles = refl

compile_config-paths_example :
    (validate disk one_file ≡ ok tt)
    × (map (λ file. file.path) one_compiled.files ≡ map (λ file. file.path) one_file.files)
compile_config-paths_example = compile_config-paths engine disk one_file one_file-compiles

-- A disk on which no file can be looked at.
abbrev no_files : FileSystem ℕ
no_files = record {
  metadata = λ _. err not_found;
  symlink_metadata = λ _. err not_found;
  open_handle = λ _. err not_found;
  handle_metadata = λ _. err not_found;
  read = λ _ _ _. err not_found;
  seek = λ _ _. err not_found;
  read_exact = λ _ _ _. err not_found;
}

contains_key-sync_example :
    contains_key 2 (sync no_files one_compiled.files ((7, no_state) ∷ []))
    ≡ has 2 (map (λ file. file.path) one_compiled.files)
contains_key-sync_example = contains_key-sync no_files 2 one_compiled.files ((7, no_state) ∷ [])
