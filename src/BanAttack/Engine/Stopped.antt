-- ===== src/BanAttack/Engine/Stopped.antt =====
-- src/ban_attack/engine.rs: the end of the loop, and the forced save.
use router_hub.Common.{
  ◌≡◌, refl, ◌⊎◌, inl, inr, true, false, List, [], ◌∷◌, some, Eq, arith, ◌++◌, any, Bool-cases,
  Option-cases, Result, ok, err,
}
use router_hub.BanAttack.Net.{Externs}
use router_hub.BanAttack.Backend.{BanBackend}
use router_hub.BanAttack.Rule.{RegexEngine}
use router_hub.BanAttack.Engine.{
  Outside, Worker, Site, StateError, stopped, not_saved, emit, note_error,
}
use router_hub.BanAttack.Engine.Storage.{
  after_save, mark_saved, save_is_due, save_now, save_persistence_if_configured,
}
use router_hub.BanAttack.Engine.Commands.{
  Received, received, timed_out, disconnected, change_config, forget_counts, disable, reconcile,
  flush, add_ban, status, stop, shut_down, handle, check_deadline, ends_loop, serve, run,
}

module _ {Net FilePath Dfa Regex E : Type 0} ⦃o : Externs Net⦄ (out : Outside Net FilePath E) where
  -- The worker is clean, or it says that its last save has failed.
  abbrev pub IsAccounted : Worker Net FilePath Dfa Regex → Type 0
  IsAccounted w =
      (w.dirty ≡ false) ⊎ ((x : StateError) × (w.health.last_error ≡ some (not_saved x)))

  after_save-IsAccounted :
      (r : Result StateError (Unit {0})) (s : Site Net FilePath Dfa Regex E)
      → IsAccounted (after_save out r s).0
  unfolding mark_saved emit note_error
  after_save-IsAccounted (ok u) (w, e) = inl refl
  after_save-IsAccounted (err x) (w, e) = inr (x, refl)

  save_now-IsAccounted : (s : Site Net FilePath Dfa Regex E) → IsAccounted (save_now out s).0
  unfolding save_now
  save_now-IsAccounted (w, e) = elim (Option-cases w.config.persistence_file) [
    | inl none_set ↦ rw (none_set, save_now) (after_save-IsAccounted (ok tt) (w, e))
    | inr (path, set) ↦ rw (set, save_now) (after_save-IsAccounted _ (w, _))
  ]

  -- A forced save is left out only where the worker is clean.
  skips_clean :
      (w : Worker Net FilePath Dfa Regex) (e : E)
      → (save_is_due out true w e).0 ≡ false
      → w.dirty ≡ false
  unfolding save_is_due
  skips_clean w e h = ground (arith, h)

  pub save-IsAccounted :
      (s : Site Net FilePath Dfa Regex E)
      → IsAccounted (save_persistence_if_configured out true s).0
  unfolding save_persistence_if_configured
  save-IsAccounted (w, e) = elim (Bool-cases (save_is_due out true w e).0) [
    | inl due ↦ rw (due, save_persistence_if_configured) (save_now-IsAccounted (w, _))
    | inr skipped ↦ rw (skipped, save_persistence_if_configured) (inl (skips_clean w e skipped))
  ]

  module _ ⦃eq : Eq FilePath⦄ (engine : RegexEngine Dfa Regex) (backend : BanBackend Net E) where
    abbrev pub IsOver : Site Net FilePath Dfa Regex E → Type 0
    IsOver s = (s.0.health.state ≡ stopped) × IsAccounted s.0

    shut_down-IsOver : (s : Site Net FilePath Dfa Regex E) → IsOver (shut_down engine out backend s)
    unfolding shut_down
    shut_down-IsOver s = (refl, save-IsAccounted s)

    serve-IsOver :
        (m : Received Net FilePath Dfa Regex) (s : Site Net FilePath Dfa Regex E)
        → ends_loop engine out backend m ≡ true
        → IsOver (serve engine out backend m s).1
    unfolding serve handle
    serve-IsOver (received stop) s h = shut_down-IsOver s
    serve-IsOver (received (change_config c)) s h = absurd (ground arith)
    serve-IsOver (received (forget_counts t)) s h = absurd (ground arith)
    serve-IsOver (received disable) s h = absurd (ground arith)
    serve-IsOver (received reconcile) s h = absurd (ground arith)
    serve-IsOver (received flush) s h = absurd (ground arith)
    serve-IsOver (received (add_ban t seconds reason)) s h = absurd (ground arith)
    serve-IsOver (received status) s h = absurd (ground arith)
    serve-IsOver timed_out s h = absurd (ground arith)
    serve-IsOver disconnected s h = shut_down-IsOver s

    -- A loop that receives `Stop`, or that loses its last sender, ends: its state is `Stopped`, what
    -- comes later has no effect, and the worker is clean unless it says that its last save has
    -- failed.
    pub run-IsOver :
        (ms : List (Received Net FilePath Dfa Regex)) (s : Site Net FilePath Dfa Regex E)
        → any (ends_loop engine out backend) ms ≡ true
        → IsOver (run engine out backend ms s).1
          × ((rest : List (Received Net FilePath Dfa Regex))
              → run engine out backend (ms ++ rest) s ≡ run engine out backend ms s)
    unfolding run any
    run-IsOver [] s h = absurd (ground arith)
    run-IsOver (m ∷ ms) s h =
        let s1 = (serve engine out backend m s).1 in
        elim (Bool-cases (ends_loop engine out backend m)) [
          | inl ends ↦ (rw (ends, run) (serve-IsOver m s ends), λ rest. rw (ends, run) refl)
          | inr goes_on ↦
              let ih =
                run-IsOver ms (check_deadline engine out backend s1) (rw (goes_on, any) at h) in
              (rw (goes_on, run) ih.0, λ rest. rw (goes_on, run) (rw (ih.1 rest) refl))
        ]
