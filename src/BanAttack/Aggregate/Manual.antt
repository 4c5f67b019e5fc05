-- ===== src/BanAttack/Aggregate/Manual.antt =====
-- src/ban_attack/aggregate.rs: what `add_manual` answers and writes.
use router_hub.Common.{
  ℕ, String, ◌+◌, ◌≡◌, refl, ap, ◌∙◌, List, [], ◌∷◌, Option, none, some, arith, get, get-insert,
  get-remove, filterb, Option-cases, inl, inr, ok, Ends, bind_rule, Ends-weaken, Ends-ok, ==_refl,
}
use router_hub.BanAttack.Net.{IpAddr, Externs, ip_eq, net_eq}
use router_hub.BanAttack.Backend.{BanTarget, ip, subnet, target_eq, BanBackend}
use router_hub.BanAttack.Aggregate.State.{Aggregator, ActiveBan}
use router_hub.BanAttack.Aggregate.Bans.{
  World, add_timed, enter_ban, timed_ban, drop_covered, drop_ban, settle_subnet, settle_ip,
  remove_covered_ip_bans, finish_manual, mark_banned, set_expiry, refused_address, add_manual,
}
use router_hub.BanAttack.Aggregate.Frames.{trim_reputation-SameBans}
use router_hub.BanAttack.Aggregate.Sound.{Holds}
use router_hub.BanAttack.Aggregate.Sound.Adding.{add_timed_rule}

module _ {Net : Type 0} ⦃o : Externs Net⦄ where
  pub get-enter_ban :
      (t : BanTarget Net) (source reason : String) (hits now : ℕ) (rule : Option String)
      (g : Aggregator Net)
      → get t (enter_ban t source reason hits now rule g).active_bans
        ≡ some (timed_ban g t source reason hits now rule)
  unfolding enter_ban
  get-enter_ban t source reason hits now rule g =
      let ban = timed_ban g t source reason hits now rule in
      rw ((trim_reputation-SameBans _).active, get-insert t t ban g.active_bans, ==_refl t) refl

  get-set_expiry :
      (t : BanTarget Net) (f : ℕ → ℕ) (g : Aggregator Net) (ban : ActiveBan Net)
      → get t g.active_bans ≡ some ban
      → get t (set_expiry t f g).active_bans ≡ some (record ban { expires_at = f ban.expires_at })
  unfolding set_expiry
  get-set_expiry t f g ban found =
      rw (found, set_expiry)
        (rw (get-insert t t (record ban { expires_at = f ban.expires_at }) g.active_bans, ==_refl t)
          refl)

  get-mark_banned :
      (s t : BanTarget Net) (g : Aggregator Net)
      → get t (mark_banned s g).active_bans ≡ get t g.active_bans
  unfolding mark_banned
  get-mark_banned (ip a) t g = refl
  get-mark_banned (subnet n) t g = refl

  module _ {B : Type 0} (backend : BanBackend Net B) where
    -- Lifting the bans of addresses leaves those of subnets.
    get-drop_covered :
        (n m : Net) (xs : List IpAddr) (g : Aggregator Net) (b : B)
        → get (subnet m) (drop_covered backend n xs (g, b)).1.0.active_bans
          ≡ get (subnet m) g.active_bans
    unfolding drop_covered drop_ban
    get-drop_covered n m [] g b = refl
    get-drop_covered n m (x ∷ xs) g b =
        get-drop_covered n m xs (drop_ban (ip x) g) (backend.remove (ip x) b).1
        ∙ get-remove (ip x) (subnet m) g.active_bans

    pub get-settle_subnet :
        (n : Net) (f : ℕ → ℕ) (g : Aggregator Net) (b : B) (ban : ActiveBan Net)
        → get (subnet n) g.active_bans ≡ some ban
        → get (subnet n) (settle_subnet backend n f (g, b)).1.0.active_bans
          ≡ some (record ban { expires_at = f ban.expires_at })
    unfolding settle_subnet remove_covered_ip_bans
    get-settle_subnet n f g b ban found =
        let h = set_expiry (subnet n) f g in
        let k = mark_banned (subnet n) h in
        get-drop_covered n n (filterb (λ a. o.contains n a) k.banned_ips) k b
        ∙ get-mark_banned (subnet n) (subnet n) h
        ∙ get-set_expiry (subnet n) f g ban found

    -- The answer is the ban that the table holds.
    finish_manual_rule :
        (t : BanTarget Net) (until : ℕ) (g : Aggregator Net) (b : B) (ban : ActiveBan Net)
        → get t g.active_bans ≡ some ban
        → let made = record ban { expires_at = until } in
          let out = finish_manual backend t until (g, b) in
          Ends
            (λ r (w : World Net B). (r ≡ some made) × (get t w.0.active_bans ≡ some made))
            (λ _. Unit {0})
            out
    unfolding finish_manual settle_ip
    finish_manual_rule (ip a) until g b ban found =
        let h = set_expiry (ip a) (λ _. until) g in
        let written =
          get-mark_banned (ip a) (ip a) h ∙ get-set_expiry (ip a) (λ _. until) g ban found in
        (written, written)
    finish_manual_rule (subnet n) until g b ban found =
        let written = get-settle_subnet n (λ _. until) g b ban found in (written, written)

    -- A manual ban that ends well never meets the panic of its last `expect`: it answers the ban that
    -- the table then holds for the target, with the reason it was given, one hit, the next offense
    -- of the network, and the end at `duration` after now in place of the configured one.
    pub add_manual-answers :
        (t : BanTarget Net) (duration : ℕ) (reason : String) (now : ℕ) (g : Aggregator Net) (b : B)
        {r : Option (ActiveBan Net)}
        → (add_manual backend t duration reason now (g, b)).0 ≡ ok r
        → let made = record (timed_ban g t "manual" reason 1 now none) {
          expires_at = now + duration;
        } in
          (r ≡ some made)
          × (get t (add_manual backend t duration reason now (g, b)).1.0.active_bans ≡ some made)
    unfolding add_manual
    add_manual-answers t duration reason now g b ends =
        elim (Option-cases (refused_address backend g t)) [
          | inr (a, hit) ↦ absurd (ground (arith, rw (hit, add_manual) at ends))
          | inl free ↦
              let ban = timed_ban g t "manual" reason 1 now none in
              let made = record ban { expires_at = now + duration } in
              let Entered : World Net B → Type 0 =
                Holds (λ h. h ≡ enter_ban t "manual" reason 1 now none g) in
              let Made : Option (ActiveBan Net) → World Net B → Type 0 =
                λ r w. (r ≡ some made) × (get t w.0.active_bans ≡ some made) in
              rw (free, add_manual)
                (Ends-ok Made (λ _. Unit {0}) _
                  (bind_rule (Holds (λ h. h ≡ g)) (λ _. Entered) Made (λ _. Unit {0})
                    (add_timed backend t "manual" reason 1 now none)
                    (λ _. finish_manual backend t (now + duration))
                    (λ w e.
                      Ends-weaken _ _ (λ _. Entered) (λ _. Unit {0}) _ (λ _ s x. x.0) (λ _ _. tt)
                        (add_timed_rule backend t "manual" reason 1 now none g w e))
                    (λ _ w e. finish_manual_rule t (now + duration) w.0 w.1 ban (
                      ap (λ (h : Aggregator Net). get t h.active_bans) e
                      ∙ get-enter_ban t "manual" reason 1 now none g))
                    (g, b) refl)
                  (rw (free, add_manual) at ends))
        ]
