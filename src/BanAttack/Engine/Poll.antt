-- ===== src/BanAttack/Engine/Poll.antt =====
-- src/ban_attack/engine.rs: `poll`, which reads the logs and records the matches.
use router_hub.Common.{
  ℕ, String, ◌-◌, Bool, true, false, ◌&&◌, List, ◌∷◌, [], map, none, some, leb, ltb, if◌then◌else◌,
  Eq, sat_add64, Result, ok, err,
}
use router_hub.BanAttack.Net.{IpAddr, Externs}
use router_hub.BanAttack.Backend.{BanTarget, BanBackend, BackendError, ReconcileReport}
use router_hub.BanAttack.CompiledConfig.{CompiledFile, excludes}
use router_hub.BanAttack.Rule.{RegexEngine, CompiledRule, match_line}
use router_hub.BanAttack.Aggregate.State.{BanTransition, banned, promoted}
use router_hub.BanAttack.Aggregate.Counts.{is_nonempty}
use router_hub.BanAttack.Aggregate.Bans.{cleanup_expired}
use router_hub.BanAttack.Aggregate.Record.{RecordResult, record_match}
use router_hub.BanAttack.Aggregate.Persist.{each, active_targets}
use router_hub.BanAttack.Tailer.Files.{IoError}
use router_hub.BanAttack.Tailer.Tailers.{read_path}
use router_hub.BanAttack.Engine.{
  Outside, Site, EngineEvent, match_found, unbanned, failed, reverify_failed, cleanup_failed,
  not_read, not_utf8, search_failed, not_recorded, not_removed, emit,
}
use router_hub.BanAttack.Engine.Storage.{save_persistence_if_configured}

-- The event of a transition.
abbrev pub transition_event : {Net FilePath : Type 0} → BanTransition Net → EngineEvent Net FilePath
transition_event (banned t) = EngineEvent.banned t
transition_event (promoted n removed) = EngineEvent.promoted n removed

module _ {Net FilePath Dfa Regex E : Type 0} ⦃o : Externs Net⦄ ⦃e : Eq FilePath⦄
    (engine : RegexEngine Dfa Regex) (out : Outside Net FilePath E)
    (backend : BanBackend Net E) where
  abbrev Place : Type 0
  Place = Site Net FilePath Dfa Regex E

  unfoldable pub emit_all : List (EngineEvent Net FilePath) → Place → Place
  emit_all events s = each (emit out) events s

  unfoldable pub note_reverify : Result BackendError ReconcileReport → Place → Place
  note_reverify (ok _) s = s
  note_reverify (err x) s = emit out (failed none (reverify_failed x)) s

  -- The clocks are read again after the reconciliation.
  unfoldable pub stamp_reverify : Place → Place
  stamp_reverify (w, e) =
      let (now, e1) = out.utc_now e in
      let (t, e2) = out.instant_now e1 in
      (
        record w { health = record w.health { last_reconcile_at = some now }; last_reverify = t },
        e2,
      )

  unfoldable pub reverify : Place → Place
  reverify (w, e) =
      let (r, e1) =
        backend.reconcile (active_targets out.target_lt w.aggregator) w.config.exceptions e in
      stamp_reverify (note_reverify r (w, e1))

  unfoldable pub check_reverify : Place → Place
  check_reverify (w, e) =
      let interval = w.config.firewall.reverify_interval_seconds in
      if w.config.firewall.enabled && ltb 0 interval
      then (let (now, e1) = out.instant_now e in
          if leb (o.seconds interval) (now - w.last_reverify) then reverify (w, e1) else (w, e1))
      else (w, e)

  -- The two arms after `cleanup_expired`.
  unfoldable pub finish_cleanup : Result BackendError (List (BanTarget Net)) → Place → Place
  finish_cleanup (err x) s = emit out (failed none (cleanup_failed x)) s
  finish_cleanup (ok expired) (w, e) =
      let dirty = if is_nonempty expired then true else w.dirty in
      save_persistence_if_configured out true
        (emit_all (map unbanned expired) (record w { dirty = dirty }, e))

  unfoldable pub clean_up : Place → Place
  clean_up (w, e) =
      let (now, e1) = out.utc_now e in
      let (r, v) = cleanup_expired backend now (w.aggregator, e1) in
      let (w', e') = finish_cleanup r (record w { aggregator = v.0 }, v.1) in
      let (t, e2) = out.instant_now e' in (record w' { last_cleanup = t }, e2)

  -- The clean-up, or else a save that has become due.
  unfoldable pub check_cleanup : Place → Place
  check_cleanup (w, e) =
      let (now, e1) = out.instant_now e in
      if leb (o.seconds w.config.cleanup_interval) (now - w.last_cleanup)
      then clean_up (w, e1)
      else save_persistence_if_configured out false (w, e1)

  -- The arm `Ok(result)` of `record`.
  unfoldable pub finish_match : FilePath → RecordResult Net → Place → Place
  finish_match path r (w, e) =
      let s = emit out match_found (record w { dirty = true }, e) in
      let saved = save_persistence_if_configured out (is_nonempty r.transitions) s in
      emit_all (map (λ x. failed (some path) (not_removed x)) r.cleanup_errors)
        (emit_all (map transition_event r.transitions) saved)

  -- The result says whether the hit ends the loop over the rules.
  unfoldable pub finish_hit :
      FilePath → Result BackendError (RecordResult Net) → Place → Bool × Place
  finish_hit path (ok found) s = (true, finish_match path found s)
  finish_hit path (err x) s = (false, emit out (failed (some path) (not_recorded x)) s)

  -- A hit of a rule. The two times are those that `record` may read.
  unfoldable pub record_hit : FilePath → CompiledRule Dfa Regex → IpAddr → Place → Bool × Place
  record_hit path rule a (w, e) =
      let (now, e1) = out.utc_now e in
      let (now', e2) = out.utc_now e1 in
      let (r, v) = record_match backend a rule.weight rule.name now now' (w.aggregator, e2) in
      finish_hit path r (record w { aggregator = v.0 }, v.1)

  -- One round of the loop over the rules.
  unfoldable pub try_rule : FilePath → String → CompiledRule Dfa Regex → Place → Bool × Place
  try_rule path line rule s = elim (match_line engine rule line) [
    | err x ↦ (false, emit out (failed (some path) (search_failed rule.name x)) s)
    | ok none ↦ (false, s)
    | ok (some a) ↦ if excludes s.0.config a then (false, s) else record_hit path rule a s
  ]

  unfoldable pub poll_rules : FilePath → String → List (CompiledRule Dfa Regex) → Place → Place
  poll_rules path line [] s = s
  poll_rules path line (rule ∷ rules) s =
      let tried = try_rule path line rule s in
      elim tried.0 [ true ↦ tried.1 | false ↦ poll_rules path line rules tried.1 ]

  unfoldable pub poll_line : FilePath → List (CompiledRule Dfa Regex) → List ℕ → Place → Place
  poll_line path rules bytes (w, e) = elim (out.from_utf8 bytes) [
    | ok line ↦ poll_rules path line rules (w, e)
    | err x ↦
        emit out (failed (some path) (not_utf8 x))
          (record w { invalid_line_count = sat_add64 w.invalid_line_count 1 }, e)
  ]

  unfoldable pub poll_lines :
      CompiledFile FilePath Dfa Regex → Result IoError (List (List ℕ)) → Place → Place
  poll_lines file (err x) s = emit out (failed (some file.path) (not_read x)) s
  poll_lines file (ok lines) s = each (poll_line file.path file.rules) lines s

  -- One round of the loop over the files.
  unfoldable pub poll_file : CompiledFile FilePath Dfa Regex → Place → Place
  poll_file file (w, e) =
      let (r, tailer) =
        read_path (out.files e) file.path file.start_at w.config.max_read_bytes_per_file_poll
          w.config.max_lines_per_file_poll w.config.max_line_bytes w.tailer in
      poll_lines file r (record w { tailer = tailer }, e)

  -- The two clocks that a poll reads first.
  unfoldable pub begin_poll : Place → Place
  begin_poll (w, e) =
      let (t, e1) = out.instant_now e in
      let (now, e2) = out.utc_now e1 in
      (record w { last_poll = t; health = record w.health { last_poll_at = some now } }, e2)

  unfoldable pub poll : Place → Place
  poll s =
      let s1 = check_cleanup (check_reverify (begin_poll s)) in each poll_file s1.0.config.files s1
