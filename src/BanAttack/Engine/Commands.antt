-- ===== src/BanAttack/Engine/Commands.antt =====
-- src/ban_attack/engine.rs: the commands of the worker, and its loop.
use router_hub.Common.{
  ℕ, String, ◌-◌, Bool, true, false, not, ◌||◌, List, [], ◌∷◌, map, Option, none, some, leb, ltb,
  if◌then◌else◌, Eq, sat_add64, length, Result, ok, err,
}
use router_hub.BanAttack.Net.{Externs}
use router_hub.BanAttack.Backend.{BanTarget, BanBackend, BackendError, ReconcileReport}
use router_hub.BanAttack.CompiledConfig.{CompiledConfig}
use router_hub.BanAttack.Rule.{RegexEngine}
use router_hub.BanAttack.Aggregate.State.{ActiveBan, targets_excluding}
use router_hub.BanAttack.Aggregate.Counts.{reconfigure, reset_counts}
use router_hub.BanAttack.Aggregate.Bans.{add_manual, apply_exceptions}
use router_hub.BanAttack.Aggregate.Persist.{active_targets}
use router_hub.BanAttack.Aggregate.Snapshot.{snapshot_limited}
use router_hub.BanAttack.Tailer.Tailers.{sync, dropped_line_count}
use router_hub.BanAttack.Engine.{
  Outside, Worker, Site, EngineStatus, stopped, Error, startup_only_ipset, startup_only_firewall,
  not_flushed, bad_duration, backend_error, banned, unbanned, counts_reset, config_updated, failed,
  reconcile_failed, ipset_beq, firewall_beq, emit,
}
use router_hub.BanAttack.Engine.Storage.{save_persistence_if_configured}
use router_hub.BanAttack.Engine.Poll.{emit_all, poll}

-- The reply channel of a command is no part of it: `handle` gives the reply.
pub data Command (Net FilePath Dfa Regex : Type 0) : Type 0 where
  change_config : CompiledConfig Net FilePath Dfa Regex → Command Net FilePath Dfa Regex
  forget_counts : BanTarget Net → Command Net FilePath Dfa Regex
  disable reconcile flush : Command Net FilePath Dfa Regex
  add_ban : BanTarget Net → ℕ → String → Command Net FilePath Dfa Regex
  status stop : Command Net FilePath Dfa Regex

-- What is sent on the reply channel. `None` in `ban_made` stands for the panic in `add_manual`.
pub data Reply (Net FilePath : Type 0) : Type 0 where
  done : Result (Error FilePath) (Unit {0}) → Reply Net FilePath
  ban_made : Result (Error FilePath) (Option (ActiveBan Net)) → Reply Net FilePath
  status_is : EngineStatus Net → Reply Net FilePath
  stopping : Reply Net FilePath

-- What `recv_timeout` returns.
pub data Received (Net FilePath Dfa Regex : Type 0) : Type 0 where
  received : Command Net FilePath Dfa Regex → Received Net FilePath Dfa Regex
  timed_out disconnected : Received Net FilePath Dfa Regex

-- `Result::map_err`, where the value of success is dropped.
abbrev pub as_backend :
    {FilePath A : Type 0} → Result BackendError A → Result (Error FilePath) (Unit {0})
as_backend (ok a) = ok tt
as_backend (err x) = err (backend_error x)

module _ {Net FilePath Dfa Regex E : Type 0} ⦃o : Externs Net⦄ ⦃e : Eq FilePath⦄
    (engine : RegexEngine Dfa Regex) (out : Outside Net FilePath E)
    (backend : BanBackend Net E) where
  abbrev Place : Type 0
  Place = Site Net FilePath Dfa Regex E

  abbrev Answer : Type 0 → Type 0
  Answer A = Result (Error FilePath) A × Place

  -- `update` once the exceptions are applied.
  unfoldable pub install :
      CompiledConfig Net FilePath Dfa Regex → List (BanTarget Net) → Place → Place
  install config removed s =
      let (w, e) = emit_all engine out backend (map unbanned removed) s in
      let g = reconfigure config.aggregation w.aggregator in
      let (w1, e1) =
        save_persistence_if_configured out true
          (record w { aggregator = g; config = config; dirty = true }, e) in
      emit out config_updated
        (record w1 { tailer = sync (out.files e1) w1.config.files w1.tailer }, e1)

  abbrev pub finish_adopt :
      CompiledConfig Net FilePath Dfa Regex
      → Result BackendError (List (BanTarget Net))
      → Place
      → Answer (Unit {0})
  finish_adopt config (err x) s = (err (backend_error x), s)
  finish_adopt config (ok removed) s = (ok tt, install config removed s)

  -- `update` once the backend is reconciled with the new exceptions.
  unfoldable pub adopt : CompiledConfig Net FilePath Dfa Regex → Place → Answer (Unit {0})
  adopt config (w, e) =
      let (r, v) = apply_exceptions backend config.exceptions (w.aggregator, e) in
      finish_adopt config r (record w { aggregator = v.0 }, v.1)

  -- `update` once the backend has answered.
  unfoldable pub finish_update :
      CompiledConfig Net FilePath Dfa Regex
      → Result BackendError ReconcileReport
      → Place
      → Answer (Unit {0})
  finish_update config (err x) s = (err (backend_error x), s)
  finish_update config (ok report) s = adopt config s

  unfoldable pub update : CompiledConfig Net FilePath Dfa Regex → Place → Answer (Unit {0})
  update config (w, e) =
      if not (ipset_beq config.ipset w.config.ipset)
      then (err startup_only_ipset, (w, e))
      else if not (firewall_beq config.firewall w.config.firewall)
      then (err startup_only_firewall, (w, e))
      else (let (r, e1) =
            backend.reconcile (targets_excluding w.aggregator config.exceptions) config.exceptions
              e in
          finish_update config r (w, e1))

  unfoldable pub reset_target : BanTarget Net → Place → Place
  reset_target target (w, e) =
      let (w1, e1) =
        emit out (counts_reset target)
          (record w { aggregator = reset_counts target w.aggregator }, e) in
      save_persistence_if_configured out true (record w1 { dirty = true }, e1)

  -- The arm of `Command::Reconcile` after the call of the backend.
  unfoldable pub finish_reconcile : Result BackendError ReconcileReport → Place → Place
  finish_reconcile (err x) s = emit out (failed none (reconcile_failed x)) s
  finish_reconcile (ok report) (w, e) =
      let (now, e1) = out.utc_now e in
      (record w { health = record w.health { last_reconcile_at = some now } }, e1)

  -- The arm of `Command::AddBan` after `add_manual`.
  unfoldable pub finish_ban :
      BanTarget Net
      → Result BackendError (Option (ActiveBan Net))
      → Place
      → Answer (Option (ActiveBan Net))
  finish_ban target (err x) s = (err (backend_error x), s)
  finish_ban target (ok made) (w, e) = (
    ok made,
    emit out (banned target)
        (save_persistence_if_configured out true (record w { dirty = true }, e)),
  )

  unfoldable pub make_ban : BanTarget Net → ℕ → String → Place → Answer (Option (ActiveBan Net))
  make_ban target seconds reason (w, e) =
      if ltb seconds 60 || ltb w.config.aggregation.max_ban_seconds seconds
      then (err (bad_duration w.config.aggregation.max_ban_seconds), (w, e))
      else (let (now, e1) = out.utc_now e in
          let (r, v) =
            add_manual backend target (o.seconds seconds) reason now (w.aggregator, e1) in
          finish_ban target r (record w { aggregator = v.0 }, v.1))

  -- The health that `Command::Status` reports.
  unfoldable pub count_for_status : Worker Net FilePath Dfa Regex → Worker Net FilePath Dfa Regex
  count_for_status w = record w {
    health = record w.health {
      dropped_line_count = sat_add64 (dropped_line_count w.tailer) w.invalid_line_count;
      set_entries = length (active_targets out.target_lt w.aggregator);
    };
  }

  abbrev status_of : Worker Net FilePath Dfa Regex → EngineStatus Net
  status_of w = record {
    snapshot = snapshot_limited out.name_lt w.config.max_status_entries w.aggregator;
    health = w.health;
  }

  unfoldable pub shut_down : Place → Place
  shut_down s =
      let (w, e) = save_persistence_if_configured out true s in
      (record w { health = record w.health { state = stopped } }, e)

  unfoldable pub handle : Command Net FilePath Dfa Regex → Place → Reply Net FilePath × Place
  handle (change_config config) s = let (r, s') = update config s in (done r, s')
  handle (forget_counts target) s = (done (ok tt), reset_target target s)
  handle disable (w, e) = let (r, e') = backend.disable e in (done (as_backend r), (w, e'))
  handle reconcile (w, e) =
      let (r, e') =
        backend.reconcile (active_targets out.target_lt w.aggregator) w.config.exceptions e in
      (done (as_backend r), finish_reconcile r (w, e'))
  handle flush s =
      let s' = save_persistence_if_configured out true s in
      (done (if s'.0.dirty then err not_flushed else ok tt), s')
  handle (add_ban target seconds reason) s =
      let (r, s') = make_ban target seconds reason s in (ban_made r, s')
  handle status (w, e) = let w' = count_for_status w in (status_is (status_of w'), (w', e))
  handle stop s = (stopping, shut_down s)

  -- The deadline that closes a round of the loop.
  unfoldable pub check_deadline : Place → Place
  check_deadline (w, e) =
      let (now, e1) = out.instant_now e in
      if leb (out.millis w.config.poll_interval) (now - w.last_poll)
      then poll engine out backend (w, e1)
      else (w, e1)

  abbrev pub ends_loop : Received Net FilePath Dfa Regex → Bool
  ends_loop (received stop) = true
  ends_loop disconnected = true
  ends_loop _ = false

  -- The `match` of a round.
  unfoldable pub serve :
      Received Net FilePath Dfa Regex → Place → Option (Reply Net FilePath) × Place
  serve (received c) s = let (r, s') = handle c s in (some r, s')
  serve timed_out s = (none, poll engine out backend s)
  serve disconnected s = (none, shut_down s)

  -- The loop, over what the receiver returns; it ends early where it breaks.
  unfoldable pub run :
      List (Received Net FilePath Dfa Regex) → Place → List (Option (Reply Net FilePath)) × Place
  run [] s = ([], s)
  run (m ∷ ms) s =
      let (reply, s1) = serve m s in
      elim (ends_loop m) [
        | true ↦ (reply ∷ [], s1)
        | false ↦ let (replies, s2) = run ms (check_deadline s1) in (reply ∷ replies, s2)
      ]
