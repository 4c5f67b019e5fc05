-- ===== src/Lib.antt =====
-- router-hub: the ban engine (src/ban_attack), the policy of the firewall that it runs on
-- (src/firewall.rs), and the name and address checks of src/util.rs.
--
-- The program reads the logs of a router's services, matches their lines against rules, scores the
-- addresses that the matches name, and bans addresses and whole subnets in a firewall backend for a
-- time. A configuration is checked and compiled (compiled.rs, rule.rs); the tailer (tailer.rs) turns
-- what was appended to the logs into lines; a rule (rule.rs) turns a line into an address; the
-- aggregator (aggregate.rs) scores the address, decides on bans and promotions to subnets, and keeps
-- its tables and the backend (backend.rs) in step. The worker (engine.rs) is the thread that drives
-- them: it polls the logs, serves the commands of its callers, cleans up, and saves its state.
--
-- Files and what they model:
--   Common                       names of the library, tests, saturating words, maps and sets as
--                                lists, iterator helpers, methods with state and errors
--   BanAttack/Net                addresses, and the crates ipnet and chrono as the record `Externs`
--   BanAttack/Config             the records of src/ban_attack/config.rs
--   BanAttack/Backend            src/ban_attack/backend.rs: targets, the trait, the in-memory backend;
--                                src/ban_attack/error.rs
--   BanAttack/IpSet              the commands of CommandIpSet in src/ban_attack/backend.rs, with their
--                                arguments; IpSet/Backend: its methods as a `BanBackend`
--   BanAttack/Aggregate/State    the struct Aggregator of src/ban_attack/aggregate.rs, with new,
--                                subnet_for, targets_excluding and the exception tests
--   BanAttack/Aggregate/Counts   rebuild_subnet_counts, reconfigure, reset_counts, and what
--                                apply_exceptions and cleanup_expired forget
--   BanAttack/Aggregate/Evict    make_room_for_ip, make_room_for_subnet, record_subnet_offender,
--                                trim_reputation
--   BanAttack/Aggregate/Bans     add_timed, promote, add_manual, apply_exceptions, cleanup_expired,
--                                remove_covered_ip_bans
--   BanAttack/Aggregate/Record   record (`record_match`)
--   BanAttack/Aggregate/Persist  persistent_state, restore_persistent_state, active_targets
--   BanAttack/Aggregate/Snapshot snapshot_limited
--   BanAttack/Compiled           validate; Compiled/Paths: validate_log_path, nearest_existing
--   BanAttack/CompiledConfig     CompiledConfig::compile and is_exception (`excludes`)
--   BanAttack/Rule               CompiledRule::compile and match_line of src/ban_attack/rule.rs
--   BanAttack/Tailer             the bytes of a line in src/ban_attack/tailer.rs; Tailer/Files: one
--                                path with its files; Tailer/Tailers: all paths
--   BanAttack/Engine             the data of src/ban_attack/engine.rs, and emit
--   BanAttack/Engine/Storage     load_state, save_state, save_persistence_if_configured
--   BanAttack/Engine/Poll        Worker::poll and check_reverify, a helper for each of its loops
--   BanAttack/Engine/Commands    Worker::update and Worker::run, with one arm of `handle` for each
--                                command and `serve` for one round
--   BanAttack/Engine/Launch      Worker::new (`new_worker`), BanEngine::start_with_backend
--   BanAttack/Engine/Handle      EngineHandle and BanEngine::shutdown
--   Firewall                     the policy (src/models.rs) and its settings (src/config.rs);
--                                Firewall/Policy: the checks of src/firewall.rs;
--                                Firewall/Settings: build_ban_attack_config; Firewall/Calls: the
--                                state of FirewallManager; Firewall/Manager: start, replace_policy,
--                                update_policy, ban_manual, reconcile (`reconcile_now`), unban and
--                                reset_counts (`reset_counts_of`)
--   Util                         parse_mac and validate_simple_name of src/util.rs
--   Examples                     the theorems at concrete inputs
-- The other modules hold proofs: Aggregate/Frames, Mirror, Sound, Match, Sync, History, Threshold,
-- Manual, Promoted, Lifted, Stopped, Bounds, Spared and Restored, Engine/Kept, Sound, Started,
-- Shown, Stopped, Answers, Saved and Excepted, IpSet/Backend/Staged, Quiet, Exceptions, Excepted and
-- Enforced, Compiled/Accepted and Nearest, Rule/Named, Tailer/Split and Lines, Firewall/Committed, and Util/Mac.
--
-- How the state is modelled. A HashMap is an association list and a HashSet a list; their order
-- stands for the order of iteration, which the source leaves open. A method with `&mut self` takes
-- and answers the state; a method that can fail keeps the state as it stood where `?` left it. The
-- backend is a record of functions over a state of its own, and every theorem that does not name the
-- in-memory backend holds for any such record, failures included. `Utc::now()` is an argument, read
-- where the source reads it: `record` takes the time of its own reading and that of `promote`, and the
-- worker reads the clock for both before the call. A
-- time is a number of ticks; `u64` and `u32` counters saturate as in the source. Texts of errors are
-- constructors with the values that the texts show.
--
-- The worker and the world. The worker's functions take and answer the worker with the world `E`,
-- which is everything outside it in one state: the clocks, the disk and the firewall. The record
-- `Outside` holds the calls into it, and the backend is one over the same state, so that the order of
-- the calls is that of the source. The queue is a list of what `recv_timeout` returns; a reply is the
-- answer of `handle`. Log output is left out.
--
-- Sound tables: `banned_ips` and `banned_subnets` hold exactly the targets that are keys of
-- `active_bans`, no banned address lies in a banned subnet, and `active_bans` is within
-- `max_active_bans`. `reconfigure` can lower that limit under a table, so it is not among the calls
-- of Aggregate/History.
--
-- Fuel. The loops of make_room_for_ip and trim_reputation take an entry out in every round; their
-- fuel is one more than the entries of the table that they empty. The loop of nearest_existing goes
-- to the parent in every round; its fuel is one more than the length of the path.
--
-- Not modelled: the threads and channels of the standard library, the run of one program with its
-- pipes and its deadline (a parameter, `execute`), serde's formats, status of src/firewall.rs, the
-- saving of the policy in src/storage.rs (a parameter), and the rest of the hub (src/api, nginx, the
-- web pages). The manager of the firewall runs each method as one step, under the locks it takes.
pub mod Common
pub mod BanAttack
pub mod Firewall
pub mod Util
pub mod Examples
