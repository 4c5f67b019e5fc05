-- ===== src/BanAttack/Engine/Launch.antt =====
-- src/ban_attack/engine.rs: `Worker::new`, and the start of the engine.
use router_hub.Common.{
  ℕ, false, List, [], ◌∷◌, ◌++◌, Option, none, some, if◌then◌else◌, Eq, length, Result, ok, err, M,
  map_err, ◌>>=◌, ◌>>◌,
}
use router_hub.BanAttack.Net.{Externs}
use router_hub.BanAttack.Config.{Config}
use router_hub.BanAttack.Backend.{BanTarget, BanBackend, BackendError, ReconcileReport}
use router_hub.BanAttack.Compiled.Paths.{PathSystem}
use router_hub.BanAttack.CompiledConfig.{CompiledConfig, compile_config}
use router_hub.BanAttack.Rule.{RegexEngine}
use router_hub.BanAttack.Aggregate.State.{Aggregator, new, targets_excluding}
use router_hub.BanAttack.Aggregate.Counts.{is_nonempty}
use router_hub.BanAttack.Aggregate.Bans.{apply_exceptions}
use router_hub.BanAttack.Aggregate.Persist.{
  PersistentState, persistent_state, restore_persistent_state, active_targets,
}
use router_hub.BanAttack.Tailer.Tailers.{sync}
use router_hub.BanAttack.Engine.{
  Outside, Worker, StateError, Message, not_restored, invalid_state, not_cleared, not_saved_cleared,
  EngineState, observe, running, degraded, Error, not_compiled, io_error, backend_error,
}
use router_hub.BanAttack.Engine.Storage.{load_state, save_state}

-- `startup_errors.last().cloned()`.
abbrev last : {A : Type 0} → List A → Option A
last [] = none
last (x ∷ []) = some x
last (x ∷ y ∷ ys) = last (y ∷ ys)

module _ {Net FilePath E : Type 0} ⦃o : Externs Net⦄ ⦃e : Eq FilePath⦄
    (out : Outside Net FilePath E) (backend : BanBackend Net E) where
  -- The errors of the start so far, with the aggregator.
  abbrev pub Startup : Type 0
  Startup = (List (Message Net) × Aggregator Net) × E

  abbrev pub restore_error : Result BackendError (Unit {0}) → List (Message Net)
  restore_error (ok u) = []
  restore_error (err x) = not_restored x ∷ []

  unfoldable pub take_state :
      Result StateError (Option (PersistentState Net)) → Aggregator Net → E → Startup
  take_state (err x) g e = ((invalid_state x ∷ [], g), e)
  take_state (ok none) g e = (([], g), e)
  take_state (ok (some state)) g e =
      let (now, e1) = out.utc_now e in
      let (r, g') = restore_persistent_state now state g in ((restore_error r, g'), e1)

  abbrev pub note_save : Result StateError (Unit {0}) → Startup → Startup
  note_save (ok u) s = s
  note_save (err x) ((errors, g), e) = ((errors ++ not_saved_cleared x ∷ [], g), e)

  module _ {Dfa Regex : Type 0} (config : CompiledConfig Net FilePath Dfa Regex) where
    unfoldable pub load_saved : E → Startup
    load_saved e = elim config.persistence_file [
      | none ↦ (([], new config.aggregation), e)
      | some path ↦ let (r, e1) = load_state out path e in take_state r (new config.aggregation) e1
    ]

    unfoldable pub save_cleared : Startup → Startup
    save_cleared ((errors, g), e) = elim config.persistence_file [
      | none ↦ ((errors, g), e)
      | some path ↦
          let (now, e1) = out.utc_now e in
          let (r, e2) = save_state out path (persistent_state out.name_lt now g) e1 in
          note_save r ((errors, g), e2)
    ]

    abbrev pub finish_clear : Result BackendError (List (BanTarget Net)) → Startup → Startup
    finish_clear (err x) ((errors, g), e) = ((errors ++ not_cleared x ∷ [], g), e)
    finish_clear (ok removed) s = if is_nonempty config.exceptions then save_cleared s else s

    -- The exceptions are taken out of the restored history, and the result is saved.
    unfoldable pub clear_exceptions : Startup → Startup
    clear_exceptions ((errors, g), e) =
        let (r, v) = apply_exceptions backend config.exceptions (g, e) in
        finish_clear r ((errors, v.0), v.1)

    unfoldable pub first_state : List (Message Net) → EngineState
    first_state [] = if config.firewall.observe_only then observe else running
    first_state (x ∷ errors) = degraded

    -- The worker, with the four instants that the record literal reads.
    unfoldable pub make_worker : ℕ → Startup → Worker Net FilePath Dfa Regex × E
    make_worker started_at ((errors, g), e) =
        let (t1, e1) = out.instant_now e in
        let (t2, e2) = out.instant_now e1 in
        let (t3, e3) = out.instant_now e2 in
        let (t4, e4) = out.instant_now e3 in
        (
          record {
            config = config;
            aggregator = g;
            tailer = [];
            health = record {
              state = first_state errors;
              started_at = some started_at;
              last_poll_at = none;
              last_match_at = none;
              last_reconcile_at = some started_at;
              last_persist_at = none;
              last_error = last errors;
              error_count = length errors;
              command_timeout_count = 0;
              dropped_line_count = 0;
              set_capacity = config.ipset.max_entries;
              set_entries = length (active_targets out.target_lt g);
            };
            last_reverify = t1;
            last_poll = t2;
            dirty = false;
            last_persist = t3;
            last_cleanup = t4;
            invalid_line_count = 0;
          },
          e4,
        )

    -- `Worker::new` once the backend has been reconciled, or not.
    abbrev pub finish_start :
        ℕ
        → Result BackendError ReconcileReport
        → Startup
        → Result (Error FilePath) (Worker Net FilePath Dfa Regex) × E
    finish_start started_at (err x) (errors, e) = (err (backend_error x), e)
    finish_start started_at (ok report) s =
        let (w, e) = make_worker started_at (clear_exceptions s) in (ok w, e)

    -- `Worker::new`: only a backend that cannot be reconciled stops it.
    unfoldable pub new_worker : M (Error FilePath) E (Worker Net FilePath Dfa Regex)
    new_worker e =
        let (started_at, e1) = out.utc_now e in
        let ((errors, g), e2) = load_saved e1 in
        let (r, e3) =
          backend.reconcile (targets_excluding g config.exceptions) config.exceptions e2 in
        finish_start started_at r ((errors, g), e3)

    -- What the new thread does before the loop.
    unfoldable pub first_sync : Worker Net FilePath Dfa Regex → E → Worker Net FilePath Dfa Regex
    first_sync w e = record w { tailer = sync (out.files e) w.config.files w.tailer }

  -- `start_with_backend`, up to the loop of the thread.
  unfoldable pub start_with_backend :
      {Dfa Regex : Type 0}
      → RegexEngine Dfa Regex
      → PathSystem FilePath
      → Config Net FilePath
      → M (Error FilePath) E (Worker Net FilePath Dfa Regex)
  start_with_backend {Dfa = Dfa} {Regex = Regex} engine fs config e =
      elim (compile_config engine fs config) [
        | err x ↦ (err (not_compiled x), e)
        | ok compiled ↦
            let rest : M (Error FilePath) E (Worker Net FilePath Dfa Regex) = do
              map_err backend_error backend.ensure
              map_err io_error out.spawn
              w ← new_worker compiled
              λ e1. (ok (first_sync compiled w e1), e1)
            in rest e
      ]
