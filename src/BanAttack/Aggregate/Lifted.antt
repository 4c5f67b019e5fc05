-- ===== src/BanAttack/Aggregate/Lifted.antt =====
-- src/ban_attack/aggregate.rs: which bans `cleanup_expired` and `apply_exceptions` lift.
use router_hub.Common.{
  ℕ, ◌≤◌, ◌<◌, ◌≡◌, refl, sym, ap, ◌∙◌, true, List, [], ◌∷◌, none, some, arith, leb, if◌then◌else◌,
  Map, get, remove, has, filter_map, Bool-cases, inl, inr, Triple, bind_rule, Ends-ok, leb→le, ok,
  ◌>>=◌, pure, ◌==◌, any, Bool, ◌&&◌, Eq, get-remove,
}
use router_hub.BanAttack.Net.{Externs, ip_eq, net_eq}
use router_hub.BanAttack.Backend.{BanTarget, ip, subnet, target_eq, BanBackend}
use router_hub.BanAttack.Aggregate.State.{Aggregator, ActiveBan}
use router_hub.BanAttack.Aggregate.Counts.{forget_expired}
use router_hub.BanAttack.Aggregate.Bans.{
  World, call, update, lift, lift_all, drop_ban, expired_targets, cleanup_expired,
}
use router_hub.BanAttack.Aggregate.Sound.{call_rule}
use router_hub.BanAttack.Aggregate.Frames.{SameBans, forget_expired-SameBans}

module _ {K V : Type 0} ⦃e : Eq K⦄ where
  remove_all : List K → Map K V → Map K V
  remove_all [] m = m
  remove_all (k ∷ ks) m = remove_all ks (remove k m)

  get-remove_all :
      (ks : List K) (j : K) (m : Map K V)
      → get j (remove_all ks m) ≡ (if has j ks then none else get j m)
  unfolding remove_all has
  get-remove_all [] j m = refl
  get-remove_all (k ∷ ks) j m = ground (arith, get-remove_all ks j (remove k m), get-remove k j m)

module _ {Net : Type 0} ⦃o : Externs Net⦄ where
  drop_ban-active :
      (t : BanTarget Net) (g : Aggregator Net) → (drop_ban t g).active_bans ≡ remove t g.active_bans
  unfolding drop_ban
  drop_ban-active (ip a) g = refl
  drop_ban-active (subnet n) g = refl

  module _ {B : Type 0} (backend : BanBackend Net B) where
    -- The table of active bans is `m`.
    abbrev HasTable : Map (BanTarget Net) (ActiveBan Net) → World Net B → Type 0
    HasTable m w = w.0.active_bans ≡ m

    abbrev Anything : World Net B → Type 0
    Anything w = Unit {0}

    lift_rule :
        (t : BanTarget Net) (m : Map (BanTarget Net) (ActiveBan Net))
        → Triple (HasTable m) (lift backend t) (λ _. HasTable (remove t m)) Anything
    unfolding lift
    lift_rule t m =
        bind_rule (HasTable m) (λ _. HasTable m) (λ _. HasTable (remove t m)) Anything
          (call (backend.remove t)) (λ _. update (drop_ban t))
          (call_rule (λ g. g.active_bans ≡ m) (λ _. Unit {0}) (λ _ _. tt) (backend.remove t))
          (λ _ w e. drop_ban-active t w.0 ∙ ap (remove t) e)

    lift_all_rule :
        (ts : List (BanTarget Net)) (m : Map (BanTarget Net) (ActiveBan Net))
        → Triple (HasTable m) (lift_all backend ts) (λ _. HasTable (remove_all ts m)) Anything
    unfolding lift_all remove_all
    lift_all_rule [] m = λ w e. e
    lift_all_rule (t ∷ ts) m =
        bind_rule (HasTable m) (λ _. HasTable (remove t m)) (λ _. HasTable (remove_all (t ∷ ts) m))
          Anything (lift backend t) (λ _. lift_all backend ts) (lift_rule t m)
          (λ _. lift_all_rule ts (remove t m))

    -- A run that ends well has lifted the targets that it returns, and nothing else.
    lift_then_rule :
        (ts : List (BanTarget Net)) (f : Aggregator Net → Aggregator Net)
        (m : Map (BanTarget Net) (ActiveBan Net))
        → ((g : Aggregator Net) → SameBans g (f g))
        → Triple
            (HasTable m)
            (lift_all backend ts >>= λ _. update f >>= λ _. pure ts)
            (λ out w. (out ≡ ts) × HasTable (remove_all ts m) w)
            Anything
    lift_then_rule ts f m same =
        bind_rule (HasTable m) (λ _. HasTable (remove_all ts m))
          (λ out w. (out ≡ ts) × HasTable (remove_all ts m) w) Anything (lift_all backend ts)
          (λ _. update f >>= λ _. pure ts) (lift_all_rule ts m)
          (λ _ w e. (refl, (same w.0).active ∙ e))

    cleanup_table :
        (now : ℕ) (g : Aggregator Net) (b : B) {expired : List (BanTarget Net)}
        → (cleanup_expired backend now (g, b)).0 ≡ ok expired
        → (expired ≡ expired_targets now g)
          × ((cleanup_expired backend now (g, b)).1.0.active_bans
              ≡ remove_all (expired_targets now g) g.active_bans)
    unfolding cleanup_expired
    cleanup_table now g b h =
        let ts = expired_targets now g in
        Ends-ok (λ out w. (out ≡ ts) × HasTable (remove_all ts g.active_bans) w) Anything _
          (lift_then_rule ts (forget_expired now) g.active_bans (forget_expired-SameBans now) (g, b)
            refl)
          h

  -- A ban that is over is on the list of expired targets.
  expired_targets-has :
      (now : ℕ) (m : Map (BanTarget Net) (ActiveBan Net)) (t : BanTarget Net) {ban : ActiveBan Net}
      → get t m ≡ some ban
      → ban.expires_at ≤ now
      → has t (filter_map (λ x. if leb x.1.expires_at now then some x.0 else none) m) ≡ true
  unfolding get filter_map has
  expired_targets-has now [] t h k = absurd (ground arith)
  expired_targets-has now (x ∷ m) t {ban} h k = elim (Bool-cases (x.0 == t)) [
    | inl hit ↦ let same : x.1 ≡ ban = ground (arith, hit) in ground (arith, hit, same)
    | inr miss ↦ ground (arith, miss, expired_targets-has now m t {ban = ban})
  ]

  still_runs :
      (now : ℕ) (g : Aggregator Net) (t : BanTarget Net) {ban : ActiveBan Net}
      → (if has t (expired_targets now g) then none else get t g.active_bans) ≡ some ban
      → now < ban.expires_at
  unfolding expired_targets
  still_runs now g t {ban} h = elim (Bool-cases (leb ban.expires_at now)) [
    | inr runs ↦ ground arith
    | inl over ↦
        let kept : get t g.active_bans ≡ some ban = ground arith in
        let listed = expired_targets-has now g.active_bans t {ban = ban} kept (leb→le _ _ over) in
        absurd (ground (arith, listed))
  ]

  -- An entry of the table for a target, whose ban is over.
  abbrev pub is_over_for : ℕ → BanTarget Net → BanTarget Net × ActiveBan Net → Bool
  is_over_for now t (target, ban) = target == t && leb ban.expires_at now

  has-expired_targets :
      (now : ℕ) (t : BanTarget Net) (m : Map (BanTarget Net) (ActiveBan Net))
      → has t (filter_map (λ x. if leb x.1.expires_at now then some x.0 else none) m)
        ≡ any (is_over_for now t) m
  unfolding filter_map has any
  has-expired_targets now t [] = refl
  has-expired_targets now t (x ∷ m) = ground (arith, has-expired_targets now t m)

  -- A clean-up that ends well answers the targets of the bans that were over at `now`, takes the bans
  -- of these targets out of the table, and leaves every other ban as it was.
  pub cleanup_expired-lifts :
      {B : Type 0} (backend : BanBackend Net B) (now : ℕ) (g : Aggregator Net) (b : B)
      (t : BanTarget Net) {expired : List (BanTarget Net)}
      → (cleanup_expired backend now (g, b)).0 ≡ ok expired
      → (has t expired ≡ any (is_over_for now t) g.active_bans)
        × (get t (cleanup_expired backend now (g, b)).1.0.active_bans
            ≡ (if any (is_over_for now t) g.active_bans then none else get t g.active_bans))
  unfolding expired_targets
  cleanup_expired-lifts backend now g b t {expired} h =
      let (listed, table) = cleanup_table backend now g b h in
      let over = has-expired_targets now t g.active_bans in
      (
        ap (has t) listed ∙ over,
        rw (table, ← over) (get-remove_all (expired_targets now g) t g.active_bans),
      )

  -- After a clean-up that ends well, every ban in the table ends after `now`.
  pub cleanup_expired-RunOn :
      {B : Type 0} (backend : BanBackend Net B) (now : ℕ) (g : Aggregator Net) (b : B)
      (t : BanTarget Net) (ban : ActiveBan Net) {expired : List (BanTarget Net)}
      → (cleanup_expired backend now (g, b)).0 ≡ ok expired
      → get t (cleanup_expired backend now (g, b)).1.0.active_bans ≡ some ban
      → now < ban.expires_at
  cleanup_expired-RunOn backend now g b t ban {expired} h found =
      let (listed, table) = cleanup_table backend now g b h in
      let law = get-remove_all (expired_targets now g) t g.active_bans in
      still_runs now g t (sym law ∙ ap (get t) (sym table) ∙ found)
