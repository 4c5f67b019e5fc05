-- ===== src/BanAttack/Engine.antt =====
-- src/ban_attack/engine.rs: the worker of the ban engine: its state, its events and their effect on
-- its health. The children are its start, its poll, its commands and its callers.
pub mod Storage
pub mod Poll
pub mod Commands
pub mod Launch
pub mod Handle
pub mod Kept
pub mod Sound
pub mod Started
pub mod Shown
pub mod Stopped
pub mod Answers
pub mod Saved
pub mod Excepted
use router_hub.Common.{
  ℕ, String, Bool, true, false, ◌&&◌, List, Option, none, some, if◌then◌else◌, Map, sat_add64, Eq,
  ◌==◌, string_eq, nat_beq, Result,
}
use router_hub.BanAttack.Net.{IpAddr}
use router_hub.BanAttack.Config.{FirewallConfig, IpSetConfig}
use router_hub.BanAttack.Backend.{BanTarget, BackendError}
use router_hub.BanAttack.CompiledConfig.{CompiledConfig, CompileError}
use router_hub.BanAttack.Aggregate.State.{Aggregator, ActiveBan}
use router_hub.BanAttack.Aggregate.Bans.{CleanupError}
use router_hub.BanAttack.Aggregate.Persist.{PersistentState}
use router_hub.BanAttack.Aggregate.Snapshot.{Snapshot}
use router_hub.BanAttack.Tailer.Files.{FileSystem, PathState, IoError}

-- Why the state file could not be read or written; the texts are those of the system and of `serde`.
pub data StateError : Type 0 where
  system : String → StateError
  unsupported_version : ℕ → StateError
  no_parent : StateError

-- The text of an error event, one constructor for each `format!` that makes one.
pub data Message (Net : Type 0) : Type 0 where
  not_restored : BackendError → Message Net
  invalid_state : StateError → Message Net
  not_cleared : BackendError → Message Net
  not_saved_cleared : StateError → Message Net
  reverify_failed : BackendError → Message Net
  not_saved : StateError → Message Net
  reconcile_failed : BackendError → Message Net
  cleanup_failed : BackendError → Message Net
  not_read : IoError → Message Net
  not_utf8 : String → Message Net
  search_failed : String → String → Message Net
  not_recorded : BackendError → Message Net
  not_removed : CleanupError Net → Message Net

pub data EngineEvent (Net FilePath : Type 0) : Type 0 where
  match_found : EngineEvent Net FilePath
  banned : BanTarget Net → EngineEvent Net FilePath
  promoted : Net → List IpAddr → EngineEvent Net FilePath
  unbanned : BanTarget Net → EngineEvent Net FilePath
  counts_reset : BanTarget Net → EngineEvent Net FilePath
  config_updated : EngineEvent Net FilePath
  failed : Option FilePath → Message Net → EngineEvent Net FilePath

pub data EngineState : Type 0 where
  disabled observe running degraded stopped : EngineState

pub record EngineHealth (Net : Type 0) : Type 0 where
  pub state : EngineState
  pub started_at : Option ℕ
  pub last_poll_at : Option ℕ
  pub last_match_at : Option ℕ
  pub last_reconcile_at : Option ℕ
  pub last_persist_at : Option ℕ
  pub last_error : Option (Message Net)
  pub error_count : ℕ
  pub command_timeout_count : ℕ
  pub dropped_line_count : ℕ
  pub set_capacity : ℕ
  pub set_entries : ℕ

pub record EngineStatus (Net : Type 0) : Type 0 where
  pub snapshot : Snapshot Net
  pub health : EngineHealth Net

-- src/ban_attack/error.rs. The texts that the worker writes are constructors.
pub data Error (FilePath : Type 0) : Type 0 where
  not_compiled : CompileError FilePath → Error FilePath
  startup_only_ipset startup_only_firewall not_flushed : Error FilePath
  bad_duration : ℕ → Error FilePath
  io_error : String → Error FilePath
  backend_error : BackendError → Error FilePath
  engine_busy command_timeout engine_stopped : Error FilePath

-- An `Instant` is a number of ticks, as a time of the calendar is.
pub record Worker (Net FilePath Dfa Regex : Type 0) : Type 0 where
  pub config : CompiledConfig Net FilePath Dfa Regex
  pub aggregator : Aggregator Net
  pub tailer : Map FilePath PathState
  pub health : EngineHealth Net
  pub last_reverify : ℕ
  pub last_poll : ℕ
  pub dirty : Bool
  pub last_persist : ℕ
  pub last_cleanup : ℕ
  pub invalid_line_count : ℕ

-- The calls of `std::fs`, `serde_json` and `uuid` that keep the state file. `temp_path` is
-- `parent.join(format!(".{}-{}.tmp", …))` of the parent, the path and the fresh name.
pub record Disk (Net FilePath E : Type 0) : Type 0 where
  pub read : FilePath → E → Result IoError (List ℕ) × E
  pub parent : FilePath → Option FilePath
  pub temp_path : FilePath → FilePath → String → FilePath
  pub new_v4 : E → String × E
  pub create_dir_all : FilePath → E → Result StateError (Unit {0}) × E
  pub create_new : FilePath → E → Result StateError (Unit {0}) × E
  pub write_all : FilePath → List ℕ → E → Result StateError (Unit {0}) × E
  pub sync_all : FilePath → E → Result StateError (Unit {0}) × E
  pub rename : FilePath → FilePath → E → Result StateError (Unit {0}) × E
  pub sync_directory : FilePath → E → Result StateError (Unit {0}) × E
  pub remove_file : FilePath → E → Result StateError (Unit {0}) × E
  pub to_vec_pretty : PersistentState Net → Result StateError (List ℕ)
  pub from_slice : List ℕ → Result StateError (PersistentState Net)

-- All that the worker meets outside itself, in one state `E`: the clocks, the disk, and the firewall
-- behind its backend. `spawn` is the start of the thread. `text_of` is the text of an error of a file, `timed_out` is `contains("timed
-- out")` of the text of a message, and `millis` is `Duration::from_millis` in ticks.
pub record Outside (Net FilePath E : Type 0) : Type 0 where
  pub utc_now : E → ℕ × E
  pub instant_now : E → ℕ × E
  pub files : E → FileSystem FilePath
  pub disk : Disk Net FilePath E
  pub spawn : E → Result String (Unit {0}) × E
  pub from_utf8 : List ℕ → Result String String
  pub text_of : IoError → StateError
  pub timed_out : Message Net → Bool
  pub target_lt : BanTarget Net → BanTarget Net → Bool
  pub name_lt : String → String → Bool
  pub millis : ℕ → ℕ

-- `&mut self` of the worker, with the world around it.
abbrev pub Site : Type 0 → Type 0 → Type 0 → Type 0 → Type 0 → Type 0
Site Net FilePath Dfa Regex E = Worker Net FilePath Dfa Regex × E

abbrev bool_beq : Bool → Bool → Bool
bool_beq true b = b
bool_beq false true = false
bool_beq false false = true

module _ {FilePath : Type 0} ⦃e : Eq FilePath⦄ where
  -- `PartialEq` of `IpSetConfig`.
  unfoldable pub ipset_beq : IpSetConfig FilePath → IpSetConfig FilePath → Bool
  ipset_beq c d =
      c.command == d.command
      && c.v4_set == d.v4_set
      && c.v6_set == d.v6_set
      && nat_beq c.max_entries d.max_entries

  -- `PartialEq` of `FirewallConfig`.
  unfoldable pub firewall_beq : FirewallConfig FilePath → FirewallConfig FilePath → Bool
  firewall_beq c d =
      bool_beq c.enabled d.enabled
      && bool_beq c.observe_only d.observe_only
      && c.iptables_command == d.iptables_command
      && c.ip6tables_command == d.ip6tables_command
      && bool_beq c.protect_input d.protect_input
      && bool_beq c.protect_forward d.protect_forward
      && nat_beq c.reverify_interval_seconds d.reverify_interval_seconds
      && nat_beq c.command_timeout_seconds d.command_timeout_seconds

module _ {Net FilePath E : Type 0} (out : Outside Net FilePath E) where
  -- What an error event does to the health.
  unfoldable pub note_error : Message Net → EngineHealth Net → EngineHealth Net
  note_error message health = record health {
    state = degraded;
    error_count = sat_add64 health.error_count 1;
    command_timeout_count =
        if out.timed_out message
        then sat_add64 health.command_timeout_count 1
        else health.command_timeout_count;
    last_error = some message;
  }

  module _ {Dfa Regex : Type 0} where
    -- The log lines that `tracing` writes are no part of the model.
    unfoldable pub emit :
        EngineEvent Net FilePath → Site Net FilePath Dfa Regex E → Site Net FilePath Dfa Regex E
    emit match_found (w, e) =
        let (now, e1) = out.utc_now e in
        (record w { health = record w.health { last_match_at = some now } }, e1)
    emit (banned t) s = s
    emit (promoted n removed) s = s
    emit (unbanned t) s = s
    emit (counts_reset t) s = s
    emit config_updated s = s
    emit (failed file message) (w, e) = (record w { health = note_error message w.health }, e)
