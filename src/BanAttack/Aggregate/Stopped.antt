-- ===== src/BanAttack/Aggregate/Stopped.antt =====
-- src/ban_attack/aggregate.rs: the tables where `apply_exceptions` stops for an error.
use mathlib.Core.Path.{subst}
use router_hub.Common.{
  ◌≡◌, refl, ◌∙◌, true, false, List, [], ◌∷◌, some, arith, get, get-remove, has, remove, Map,
  Triple, bind_rule, Ends-weaken, Ends, ◌>>=◌, pure, ==_refl, ◌==◌, Bool-cases, inl, inr,
}
use router_hub.BanAttack.Net.{Externs, ip_eq, net_eq}
use router_hub.BanAttack.Backend.{BanTarget, ip, subnet, target_eq, target_beq_iff, BanBackend}
use router_hub.BanAttack.Aggregate.State.{Aggregator, ActiveBan}
use router_hub.BanAttack.Aggregate.Counts.{forget_exceptions}
use router_hub.BanAttack.Aggregate.Bans.{
  World, Step, call, update, lift, lift_all, drop_ban, excepted_targets, apply_exceptions,
}
use router_hub.BanAttack.Aggregate.Sound.{Holds, call_rule}

module _ {Net : Type 0} ⦃o : Externs Net⦄ where
  -- `h` is `g` without the bans of some of the targets.
  pub record OnlyLifts (ts : List (BanTarget Net)) (g h : Aggregator Net) : Type 0 where
    pub config : h.config ≡ g.config
    pub ip_counts : h.ip_counts ≡ g.ip_counts
    pub subnet_counts : h.subnet_counts ≡ g.subnet_counts
    pub reputation : h.reputation ≡ g.reputation
    pub offenders : h.subnet_offenders ≡ g.subnet_offenders
    pub others : (t : BanTarget Net) → has t ts ≡ false → get t h.active_bans ≡ get t g.active_bans
    pub same :
        (t : BanTarget Net) {ban : ActiveBan Net}
        → get t h.active_bans ≡ some ban
        → get t g.active_bans ≡ some ban

  pub nothing_lifted : (ts : List (BanTarget Net)) (g : Aggregator Net) → OnlyLifts ts g g
  nothing_lifted ts g = record {
    config = refl;
    ip_counts = refl;
    subnet_counts = refl;
    reputation = refl;
    offenders = refl;
    others = λ t h. refl;
    same = λ t h. h;
  }

  others_less :
      (all : List (BanTarget Net)) (t s : BanTarget Net) (m : Map (BanTarget Net) (ActiveBan Net))
      → has t all ≡ true
      → has s all ≡ false
      → get s (remove t m) ≡ get s m
  others_less all t s m listed out = elim (Bool-cases (t == s)) [
    | inl same ↦
        let found = subst (λ x. has x all ≡ true) ((target_beq_iff t s).0 same) listed in
        absurd (ground (arith, found, out))
    | inr other ↦ ground (arith, get-remove t s m, other)
  ]

  same_less :
      (t s : BanTarget Net) (m : Map (BanTarget Net) (ActiveBan Net)) {ban : ActiveBan Net}
      → get s (remove t m) ≡ some ban
      → get s m ≡ some ban
  same_less t s m found = elim (Bool-cases (t == s)) [
    | inl same ↦ absurd (ground (arith, get-remove t s m, same, found))
    | inr other ↦ ground (arith, get-remove t s m, other, found)
  ]

  drop_ban-OnlyLifts :
      (all : List (BanTarget Net)) (t : BanTarget Net) (g h : Aggregator Net)
      → has t all ≡ true
      → OnlyLifts all g h
      → OnlyLifts all g (drop_ban t h)
  unfolding drop_ban
  drop_ban-OnlyLifts all (ip a) g h listed p = record {
    config = p.config;
    ip_counts = p.ip_counts;
    subnet_counts = p.subnet_counts;
    reputation = p.reputation;
    offenders = p.offenders;
    others = λ s out. others_less all (ip a) s h.active_bans listed out ∙ p.others s out;
    same =
        λ s {ban} found. p.same s {ban = ban} (same_less (ip a) s h.active_bans {ban = ban} found);
  }
  drop_ban-OnlyLifts all (subnet n) g h listed p = record {
    config = p.config;
    ip_counts = p.ip_counts;
    subnet_counts = p.subnet_counts;
    reputation = p.reputation;
    offenders = p.offenders;
    others = λ s out. others_less all (subnet n) s h.active_bans listed out ∙ p.others s out;
    same = λ s {ban} found.
        p.same s {ban = ban} (same_less (subnet n) s h.active_bans {ban = ban} found);
  }

  module _ {B : Type 0} (backend : BanBackend Net B) (all : List (BanTarget Net))
      (g : Aggregator Net) where
    abbrev Lifted : World Net B → Type 0
    Lifted = Holds (OnlyLifts all g)

    lift_rule :
        (t : BanTarget Net) → has t all ≡ true → Triple Lifted (lift backend t) (λ _. Lifted) Lifted
    unfolding lift
    lift_rule t listed =
        bind_rule Lifted (λ _. Lifted) (λ _. Lifted) Lifted (call (backend.remove t))
          (λ _. update (drop_ban t))
          (call_rule (OnlyLifts all g) (OnlyLifts all g) (λ _ p. p) (backend.remove t))
          (λ _ w p. drop_ban-OnlyLifts all t g w.0 listed p)

    lift_all_rule :
        (ts : List (BanTarget Net))
        → ((t : BanTarget Net) → has t ts ≡ true → has t all ≡ true)
        → Triple Lifted (lift_all backend ts) (λ _. Lifted) Lifted
    unfolding lift_all has
    lift_all_rule [] within = λ w p. p
    lift_all_rule (t ∷ ts) within =
        bind_rule Lifted (λ _. Lifted) (λ _. Lifted) Lifted (lift backend t)
          (λ _. lift_all backend ts) (lift_rule t (within t (ground (arith, ==_refl t))))
          (λ _. lift_all_rule ts (λ s h. within s (ground (arith, h))))

  -- Where `apply_exceptions` stops for an error, it has only lifted bans of excepted targets.
  pub apply_exceptions-OnlyLifts :
      {B : Type 0} (backend : BanBackend Net B) (exceptions : List Net) (g : Aggregator Net) (b : B)
      → Ends
          (λ _ _. Unit {0})
          (λ (w : World Net B). OnlyLifts (excepted_targets exceptions g) g w.0)
          (apply_exceptions backend exceptions (g, b))
  unfolding apply_exceptions
  apply_exceptions-OnlyLifts {B} backend exceptions g b =
      let ts = excepted_targets exceptions g in
      let Anything : World Net B → Type 0 = λ _. Unit {0} in
      let rest : Step Net B (List (BanTarget Net)) =
        update (forget_exceptions exceptions) >>= λ _. pure ts in
      bind_rule (Lifted backend ts g) (λ _. Anything) (λ _. Anything) (Lifted backend ts g)
        (lift_all backend ts) (λ _. rest)
        (λ w p.
          Ends-weaken (λ _. Lifted backend ts g) (Lifted backend ts g) (λ _. Anything)
            (Lifted backend ts g) _ (λ _ _ _. tt) (λ _ x. x)
            (lift_all_rule backend ts g ts (λ t h. h) w p))
        (λ _ _ _. tt) (g, b) (nothing_lifted ts g)
