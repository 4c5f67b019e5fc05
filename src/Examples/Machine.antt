-- ===== src/Examples/Machine.antt =====
-- src/ban_attack/engine.rs: a machine for the examples, with a clock, a disk and a set of bans.
use router_hub.Common.{
  ℕ, suc, true, false, List, [], ◌∷◌, none, some, Map, get, insert, remove, nat_eq, Result, ok, err,
  set_insert, set_remove, length, if◌then◌else◌, nat_beq, string_eq,
}
use router_hub.BanAttack.Config.{default_config, beginning}
use router_hub.BanAttack.Backend.{BanTarget, target_eq, BanBackend, extend}
use router_hub.BanAttack.CompiledConfig.{CompiledConfig}
use router_hub.BanAttack.Rule.{RegexEngine}
use router_hub.BanAttack.Aggregate.State.{new}
use router_hub.BanAttack.Aggregate.Persist.{PersistentState}
use router_hub.BanAttack.Tailer.Files.{FileSystem, Metadata, not_found}
use router_hub.BanAttack.Engine.{Disk, Outside, Worker, StateError, system, running}
use router_hub.Examples.Fixtures.{Network, networks, attacker}

-- A path is a number, and the file beside the file `p` is `suc p`.
pub record Machine : Type 0 where
  pub clock : ℕ
  pub store : Map ℕ (List ℕ)
  pub set : List (BanTarget Network)

abbrev pub idle : Machine
idle = record { clock = 100; store = []; set = [] }

abbrev pub tick : Machine → ℕ × Machine
tick x = (x.clock, record x { clock = suc x.clock })

abbrev keep : Machine → Result StateError (Unit {0}) × Machine
keep x = (ok tt, x)

abbrev pub set_backend : BanBackend Network Machine
set_backend = record {
  ensure = λ x. (ok tt, x);
  add = λ t x. (ok tt, record x { set = set_insert t x.set });
  remove = λ t x. (ok tt, record x { set = set_remove t x.set });
  set_exceptions = λ _ x. (ok tt, x);
  reconcile = λ ts _ x. (
    ok (record { restored_entries = length ts; repaired = true }),
    record x { set = extend ts [] },
  );
  disable = λ x. (ok tt, x);
}

abbrev pub empty_state : PersistentState Network
empty_state = record {
  schema_version = 1;
  saved_at = some 7;
  active_bans = [];
  scores = [];
  reputation = [];
  subnet_offenders = [];
  rule_stats = [];
}

abbrev pub rename_file : ℕ → ℕ → Machine → Result StateError (Unit {0}) × Machine
rename_file q p x = elim (get q x.store) [
  | none ↦ (err (system "no such file"), x)
  | some bytes ↦ (ok tt, record x { store = insert p bytes (remove q x.store) })
]

abbrev pub plain_disk : Disk Network ℕ Machine
plain_disk = record {
  read = λ p x. elim (get p x.store) [ none ↦ (err not_found, x) | some bytes ↦ (ok bytes, x) ];
  parent = λ p. some 0;
  temp_path = λ d p name. suc p;
  new_v4 = λ x. ("fresh", x);
  create_dir_all = λ d x. keep x;
  create_new = λ q x. (ok tt, record x { store = insert q [] x.store });
  write_all = λ q bytes x. (ok tt, record x { store = insert q bytes x.store });
  sync_all = λ q x. keep x;
  rename = rename_file;
  sync_directory = λ d x. keep x;
  remove_file = λ q x. (ok tt, record x { store = remove q x.store });
  to_vec_pretty = λ state. ok (123 ∷ 125 ∷ []);
  from_slice = λ bytes. ok empty_state;
}

-- One log, with one line of one byte.
abbrev log_metadata : Metadata
log_metadata = record {
  id = record { device = 1; inode = 2 };
  len = 2;
  modified = none;
  is_file = true;
  is_symlink = false;
}

abbrev one_log : FileSystem ℕ
one_log = record {
  metadata = λ _. ok log_metadata;
  symlink_metadata = λ _. ok log_metadata;
  open_handle = λ _. ok log_metadata.id;
  handle_metadata = λ _. ok log_metadata;
  read = λ _ offset _. if nat_beq offset 0 then ok (97 ∷ 10 ∷ []) else ok [];
  seek = λ _ _. ok tt;
  read_exact = λ _ _ len. ok [];
}

abbrev pub machine : Outside Network ℕ Machine
machine = record {
  utc_now = tick;
  instant_now = tick;
  files = λ _. one_log;
  disk = plain_disk;
  spawn = λ x. (ok tt, x);
  from_utf8 = λ bytes. ok "a";
  text_of = λ _. system "no text";
  timed_out = λ _. false;
  target_lt = λ _ _. false;
  name_lt = λ _ _. false;
  millis = λ n. n;
}

-- Every line shows the attacker's address.
abbrev pub one_pattern : RegexEngine (Unit {0}) (Unit {0})
one_pattern = record {
  build_dfa = λ _ _. ok tt;
  build_regex = λ _ _ _. ok tt;
  capture_names = λ _. some "ip" ∷ [];
  try_search_fwd = λ _ _. ok (some 1);
  captures = λ _ _. some (some "attacker" ∷ []);
  parse_ip = λ _. some attacker;
}

abbrev pub watching : CompiledConfig Network ℕ (Unit {0}) (Unit {0})
watching = record {
  poll_interval = 5;
  persistence_file = some 10;
  persist_interval = 30;
  cleanup_interval = 60;
  max_status_entries = 10;
  max_read_bytes_per_file_poll = 100;
  max_lines_per_file_poll = 10;
  max_line_bytes = 80;
  firewall = record {
    enabled = true;
    observe_only = false;
    iptables_command = 1;
    ip6tables_command = 2;
    protect_input = true;
    protect_forward = true;
    reverify_interval_seconds = 0;
    command_timeout_seconds = 10;
  };
  aggregation = default_config;
  ipset = record { command = 3; v4_set = "four"; v6_set = "six"; max_entries = 100 };
  exceptions = [];
  files =
      record {
        path = 20;
        start_at = beginning;
        rules =
            record {
              name = "ssh";
              weight = 5;
              fast = tt;
              regex = tt;
              ip_group_index = 0;
              filters = [];
            }
            ∷ [];
      }
      ∷ [];
}

abbrev pub worker : Worker Network ℕ (Unit {0}) (Unit {0})
worker = record {
  config = watching;
  aggregator = new default_config;
  tailer = [];
  health = record {
    state = running;
    started_at = some 1;
    last_poll_at = none;
    last_match_at = none;
    last_reconcile_at = some 1;
    last_persist_at = none;
    last_error = none;
    error_count = 0;
    command_timeout_count = 0;
    dropped_line_count = 0;
    set_capacity = 100;
    set_entries = 0;
  };
  last_reverify = 50;
  last_poll = 50;
  dirty = false;
  last_persist = 50;
  last_cleanup = 50;
  invalid_line_count = 0;
}
