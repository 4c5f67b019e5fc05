-- ===== src/BanAttack/Aggregate/Sound.antt =====
-- src/ban_attack/aggregate.rs: the invariant of the ban tables, and the methods that lift bans.
use router_hub.Common.{
  ℕ, String, ◌+◌, ◌≡◌, refl, true, false, not, ◌&&◌, List, [], ◌∷◌, Option, none, arith, has,
  set_insert, filterb, max, has-set_remove, has-filterb, any-set_insert, ap, Option-cases, inl, inr,
  Result, ok, err, M, ◌>>=◌, pure, Ends, Triple, bind_rule, if-Ends, Ends-weaken, Ends-state,
  Ends-of_state,
}
use router_hub.BanAttack.Net.{IpAddr, Externs, ip_eq, net_eq}
use router_hub.BanAttack.Backend.{BanTarget, ip, subnet, target_eq, BanBackend, BackendError}
use router_hub.BanAttack.Aggregate.State.{Aggregator, is_covered_by_banned_subnet}
use router_hub.BanAttack.Aggregate.Counts.{count_of, forget_exceptions, forget_expired}
use router_hub.BanAttack.Aggregate.Bans.{
  World, Step, call, update, has_capacity_for, ensure_active_capacity_for, add_timed, lift,
  lift_all, apply_exceptions, cleanup_expired, drop_covered, remove_covered_ip_bans, promote,
  add_manual, settle_subnet, settle_ip, finish_promotion, finish_manual, refused_address, drop_ban,
  enter_ban, mark_banned, excepted_targets, expired_targets,
}
use router_hub.BanAttack.Aggregate.Frames.{
  SameBans, forget_exceptions-SameBans, forget_expired-SameBans,
}
use router_hub.BanAttack.Aggregate.Mirror.{
  IsMirrored, IsDisjoint, IsWithin, AddsBan, SameBans-IsMirrored, SameBans-IsDisjoint,
  drop_ban-IsMirrored, drop_ban-IsDisjoint, drop_ban-IsWithin, enter_ban-AddsBan,
  set_expiry-AddsBan, set_expiry-IsWithin, mark_banned-IsMirrored, mark_ip-IsDisjoint,
}
pub mod Adding

-- A state of the pair is judged by its aggregator.
abbrev pub Holds : {Net B : Type 0} → (Aggregator Net → Type 0) → World Net B → Type 0
Holds P w = P w.0

module _ {Net B A : Type 0} (P R : Aggregator Net → Type 0)
    (weak : (g : Aggregator Net) → P g → R g) where
  call-Ends :
      (g : Aggregator Net) (r : Result BackendError A × B)
      → P g
      → Ends {S = World Net B} (λ _. Holds P) (Holds R) (r.0, (g, r.1))
  call-Ends g (ok a, b) h = h
  call-Ends g (err e, b) h = weak g h

  -- Whatever the backend answers, the aggregator is the same.
  pub call_rule :
      (m : M BackendError B A)
      → Triple {S = World Net B} (Holds P) (call m) (λ _. Holds P) (Holds R)
  call_rule m (g, b) h = call-Ends g (m b) h

module _ {Net : Type 0} ⦃o : Externs Net⦄ where
  pub record IsSound (g : Aggregator Net) : Type 0 where
    pub mirrored : IsMirrored g
    pub disjoint : IsDisjoint g
    pub within : IsWithin g

  pub SameBans-IsSound : {g h : Aggregator Net} → SameBans g h → IsSound g → IsSound h
  SameBans-IsSound s v = record {
    mirrored = SameBans-IsMirrored s v.mirrored;
    disjoint = SameBans-IsDisjoint s v.disjoint;
    within = rw (s.active, s.config) v.within;
  }

  pub drop_ban-IsSound :
      (t : BanTarget Net) (g : Aggregator Net) → IsSound g → IsSound (drop_ban t g)
  drop_ban-IsSound t g v = record {
    mirrored = drop_ban-IsMirrored t g v.mirrored;
    disjoint = drop_ban-IsDisjoint t g v.disjoint;
    within = drop_ban-IsWithin t g v.within;
  }

  -- The table is within its capacity after a ban that the capacity check let through.
  pub AddsBan-IsWithin :
      (t : BanTarget Net) {g h : Aggregator Net}
      → AddsBan t g h
      → has_capacity_for g t ≡ true
      → IsWithin g
      → IsWithin h
  unfolding has_capacity_for
  AddsBan-IsWithin t s c w = ground (arith, s.size, s.config)

  module _ {B : Type 0} (backend : BanBackend Net B) where
    abbrev Keeps : {A : Type 0} → Step Net B A → Type 0
    Keeps m = Triple (Holds IsSound) m (λ _. Holds IsSound) (Holds IsSound)

    lift-Keeps : (t : BanTarget Net) → Keeps (lift backend t)
    unfolding lift
    lift-Keeps t =
        bind_rule (Holds IsSound) (λ _. Holds IsSound) (λ _. Holds IsSound) (Holds IsSound)
          (call (backend.remove t)) (λ _. update (drop_ban t))
          (call_rule IsSound IsSound (λ _ v. v) (backend.remove t)) (λ _ w. drop_ban-IsSound t w.0)

    lift_all-Keeps : (ts : List (BanTarget Net)) → Keeps (lift_all backend ts)
    unfolding lift_all
    lift_all-Keeps [] = λ w v. v
    lift_all-Keeps (t ∷ ts) =
        bind_rule (Holds IsSound) (λ _. Holds IsSound) (λ _. Holds IsSound) (Holds IsSound)
          (lift backend t) (λ _. lift_all backend ts) (lift-Keeps t) (λ _. lift_all-Keeps ts)

    -- `apply_exceptions` and `cleanup_expired` after the list of targets is drawn up.
    lift_then-Keeps :
        (ts : List (BanTarget Net)) (f : Aggregator Net → Aggregator Net)
        → ((g : Aggregator Net) → SameBans g (f g))
        → Keeps (lift_all backend ts >>= λ _. update f >>= λ _. pure ts)
    lift_then-Keeps ts f same =
        bind_rule (Holds IsSound) (λ _. Holds IsSound) (λ _. Holds IsSound) (Holds IsSound)
          (lift_all backend ts) (λ _. update f >>= λ _. pure ts) (lift_all-Keeps ts)
          (λ _ w. SameBans-IsSound (same w.0))

    apply_exceptions-Keeps : (xs : List Net) → Keeps (apply_exceptions backend xs)
    unfolding apply_exceptions
    apply_exceptions-Keeps xs (g, b) v =
        lift_then-Keeps (excepted_targets xs g) (forget_exceptions xs)
          (forget_exceptions-SameBans xs) (g, b) v

    cleanup_expired-Keeps : (now : ℕ) → Keeps (cleanup_expired backend now)
    unfolding cleanup_expired
    cleanup_expired-Keeps now (g, b) v =
        lift_then-Keeps (expired_targets now g) (forget_expired now) (forget_expired-SameBans now)
          (g, b) v

    -- Wherever `apply_exceptions` stops, and on every failure of the backend, the tables are sound
    -- if they were before.
    pub apply_exceptions-IsSound :
        (xs : List Net) (w : World Net B)
        → IsSound w.0
        → IsSound (apply_exceptions backend xs w).1.0
    apply_exceptions-IsSound xs w v = Ends-state (Holds IsSound) _ (apply_exceptions-Keeps xs w v)

    -- Wherever `cleanup_expired` stops, and on every failure of the backend, the tables are sound if
    -- they were before.
    pub cleanup_expired-IsSound :
        (now : ℕ) (w : World Net B) → IsSound w.0 → IsSound (cleanup_expired backend now w).1.0
    cleanup_expired-IsSound now w v = Ends-state (Holds IsSound) _ (cleanup_expired-Keeps now w v)
