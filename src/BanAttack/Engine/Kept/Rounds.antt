-- ===== src/BanAttack/Engine/Kept/Rounds.antt =====
-- src/ban_attack/engine.rs: what the commands and the loop keep.
use router_hub.Common.{
  ℕ, String, ◌≡◌, refl, true, ◌||◌, List, [], ◌∷◌, map, Option, ltb, Eq, Bool-cases, Result-cases,
  inl, inr, Result, ok, err,
}
use router_hub.BanAttack.Net.{Externs}
use router_hub.BanAttack.Backend.{BanTarget, BanBackend, BackendError, ReconcileReport}
use router_hub.BanAttack.CompiledConfig.{CompiledConfig}
use router_hub.BanAttack.Rule.{RegexEngine}
use router_hub.BanAttack.Aggregate.State.{ActiveBan}
use router_hub.BanAttack.Aggregate.Bans.{apply_exceptions}
use router_hub.BanAttack.Aggregate.Persist.{each}
use router_hub.BanAttack.Engine.{Outside, Worker, Site, unbanned, ipset_beq, firewall_beq, emit}
use router_hub.BanAttack.Engine.Poll.{emit_all, begin_poll, poll}
use router_hub.BanAttack.Engine.Commands.{
  Command, change_config, forget_counts, disable, reconcile, flush, add_ban, status, stop, Received,
  received, timed_out, disconnected, install, adopt, finish_update, update, reset_target,
  finish_reconcile, finish_ban, make_ban, count_for_status, shut_down, handle, check_deadline,
  ends_loop, serve, run,
}
use router_hub.BanAttack.Engine.Kept.{IsKept, if_either, emit-Kept, save-Kept}
use router_hub.BanAttack.Engine.Kept.Polled.{poll-Kept}

module _ {Net FilePath Dfa Regex E : Type 0} ⦃o : Externs Net⦄ ⦃eq : Eq FilePath⦄
    (engine : RegexEngine Dfa Regex) (out : Outside Net FilePath E)
    (backend : BanBackend Net E) where
  -- Every command in the list meets the condition when the loop comes to it.
  unfoldable pub AllAllowed :
      (Received Net FilePath Dfa Regex → Worker Net FilePath Dfa Regex → Type 0)
      → List (Received Net FilePath Dfa Regex)
      → Site Net FilePath Dfa Regex E
      → Type 0
  AllAllowed Allows [] s = Unit {0}
  AllAllowed Allows (m ∷ ms) s =
      Allows m s.0
      × AllAllowed Allows ms (check_deadline engine out backend (serve engine out backend m s).1)

  -- The events of lifted bans leave the worker as it is.
  emit_unbanned :
      (ts : List (BanTarget Net)) (s : Site Net FilePath Dfa Regex E)
      → emit_all engine out backend (map unbanned ts) s ≡ s
  unfolding emit_all each emit
  emit_unbanned [] s = refl
  emit_unbanned (t ∷ ts) s = emit_unbanned ts s

  module _ {Allows : Received Net FilePath Dfa Regex → Worker Net FilePath Dfa Regex → Type 0}
      {P : Worker Net FilePath Dfa Regex → Type 0} (k : IsKept engine out backend Allows P) where
    abbrev Place : Type 0
    Place = Site Net FilePath Dfa Regex E

    abbrev On : Place → Type 0
    On s = P s.0

    poll_round-Kept : (s : Place) → On s → On (poll engine out backend s)
    unfolding begin_poll
    poll_round-Kept (w, x) p =
        poll-Kept engine out backend k.stable (w, x) (k.stable.calm.same _ _ refl (k.begun _ w p))

    adopt-Kept :
        (c : CompiledConfig Net FilePath Dfa Regex) (s : Place)
        → Allows (received (change_config c)) s.0
        → On s
        → On (adopt engine out backend c s).1
    unfolding adopt install
    adopt-Kept c (w, x) fits p =
        elim (Result-cases (apply_exceptions backend c.exceptions (w.aggregator, x)).0) [
          | inr (bad, e) ↦ rw (e, adopt) (k.excepted c.exceptions w x p)
          | inl (removed, e) ↦
              rw (e, adopt, emit_unbanned removed)
                (emit-Kept engine out backend k.stable.calm _ (_, _)
                  (k.stable.calm.same _ _ refl (
                    save-Kept engine out backend k.stable.calm true (_, _)
                      (k.stable.calm.same _ _ refl
                        (k.installed c w x {removed = removed} e fits p)))))
        ]

    finish_update-Kept :
        (c : CompiledConfig Net FilePath Dfa Regex) (r : Result BackendError ReconcileReport)
        (s : Place)
        → Allows (received (change_config c)) s.0
        → On s
        → On (finish_update engine out backend c r s).1
    unfolding finish_update
    finish_update-Kept c (err x) s fits p = p
    finish_update-Kept c (ok report) s fits p = adopt-Kept c s fits p

    update-Kept :
        (c : CompiledConfig Net FilePath Dfa Regex) (s : Place)
        → Allows (received (change_config c)) s.0
        → On s
        → On (update engine out backend c s).1
    unfolding update
    update-Kept c (w, x) fits p = elim (Bool-cases (ipset_beq c.ipset w.config.ipset)) [
      | inr other ↦ rw (other, update) p
      | inl same ↦ elim (Bool-cases (firewall_beq c.firewall w.config.firewall)) [
        | inr moved ↦ rw (same, moved, update) p
        | inl kept ↦ rw (same, kept, update) (finish_update-Kept c _ (w, _) fits p)
      ]
    ]

    reset_target-Kept :
        (t : BanTarget Net) (s : Place) → On s → On (reset_target engine out backend t s)
    unfolding reset_target
    reset_target-Kept t (w, x) p =
        save-Kept engine out backend k.stable.calm true (_, _)
          (k.stable.calm.same _ _ refl
            (emit-Kept engine out backend k.stable.calm _ (_, x) (k.reset t w p)))

    finish_reconcile-Kept :
        (r : Result BackendError ReconcileReport) (s : Place)
        → On s
        → On (finish_reconcile engine out backend r s)
    unfolding finish_reconcile
    finish_reconcile-Kept (err x) s p = emit-Kept engine out backend k.stable.calm _ s p
    finish_reconcile-Kept (ok report) (w, x) p = k.stable.calm.same w _ refl p

    finish_ban-Kept :
        (t : BanTarget Net) (r : Result BackendError (Option (ActiveBan Net))) (s : Place)
        → On s
        → On (finish_ban engine out backend t r s).1
    unfolding finish_ban
    finish_ban-Kept t (err x) s p = p
    finish_ban-Kept t (ok made) (w, x) p =
        emit-Kept engine out backend k.stable.calm _ _
          (save-Kept engine out backend k.stable.calm true (_, x) (k.stable.calm.same w _ refl p))

    make_ban-Kept :
        (t : BanTarget Net) (seconds : ℕ) (reason : String) (s : Place)
        → Allows (received (add_ban t seconds reason)) s.0
        → On s
        → On (make_ban engine out backend t seconds reason s).1
    unfolding make_ban
    make_ban-Kept t seconds reason (w, x) fits p =
        elim (Bool-cases (ltb seconds 60 || ltb w.config.aggregation.max_ban_seconds seconds)) [
          | inl refused ↦ rw (refused, make_ban) p
          | inr good ↦
              rw (good, make_ban)
                (finish_ban-Kept t _ (_, _) (k.by_hand t seconds reason _ w _ fits p))
        ]

    shut_down-Kept : (s : Place) → On s → On (shut_down engine out backend s)
    unfolding shut_down
    shut_down-Kept s p = k.halted _ (save-Kept engine out backend k.stable.calm true s p)

    handle-Kept :
        (c : Command Net FilePath Dfa Regex) (s : Place)
        → Allows (received c) s.0
        → On s
        → On (handle engine out backend c s).1
    unfolding handle count_for_status
    handle-Kept (change_config c) s fits p = update-Kept c s fits p
    handle-Kept (forget_counts t) s fits p = reset_target-Kept t s p
    handle-Kept disable (w, x) fits p = p
    handle-Kept reconcile (w, x) fits p = finish_reconcile-Kept _ (w, _) p
    handle-Kept flush s fits p = save-Kept engine out backend k.stable.calm true s p
    handle-Kept (add_ban t seconds reason) s fits p = make_ban-Kept t seconds reason s fits p
    handle-Kept status (w, x) fits p = k.stable.calm.same w _ refl p
    handle-Kept stop s fits p = shut_down-Kept s p

    pub serve-Kept :
        (m : Received Net FilePath Dfa Regex) (s : Place)
        → Allows m s.0
        → On s
        → On (serve engine out backend m s).1
    unfolding serve
    serve-Kept (received c) s fits p = handle-Kept c s fits p
    serve-Kept timed_out s fits p = poll_round-Kept s p
    serve-Kept disconnected s fits p = shut_down-Kept s p

    pub check_deadline-Kept : (s : Place) → On s → On (check_deadline engine out backend s)
    unfolding check_deadline
    check_deadline-Kept (w, x) p = if_either On _ (poll_round-Kept (w, _) p) p

    pub run-Kept :
        (ms : List (Received Net FilePath Dfa Regex)) (s : Place)
        → AllAllowed Allows ms s
        → On s
        → On (run engine out backend ms s).1
    unfolding run AllAllowed
    run-Kept [] s fits p = p
    run-Kept (m ∷ ms) s fits p =
        let s1 = (serve engine out backend m s).1 in
        let q = serve-Kept m s fits.0 p in
        elim (Bool-cases (ends_loop engine out backend m)) [
          | inl ends ↦ rw (ends, run) q
          | inr goes_on ↦
              rw (goes_on, run)
                (run-Kept ms (check_deadline engine out backend s1) fits.1
                  (check_deadline-Kept s1 q))
        ]
