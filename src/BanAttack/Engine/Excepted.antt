-- ===== src/BanAttack/Engine/Excepted.antt =====
-- src/ban_attack/engine.rs: the addresses that the configuration excepts.
use mathlib.Core.Path.{subst}
use router_hub.Common.{
  ℕ, String, ◌++◌, ◌≡◌, refl, sym, ap, ◌∙◌, ◌⊎◌, inl, inr, true, false, List, [], ◌∷◌, map, Eq,
  arith, filterb, has, has-filterb, ok, ◌>>=◌, pure, Triple, bind_rule, Ends-ok, Bool-cases,
}
use router_hub.BanAttack.Net.{IpAddr, Externs, ip_beq, ip_beq_iff, ip_eq, net_eq}
use router_hub.BanAttack.Backend.{BanTarget, ip, subnet, target_eq, BanBackend}
use router_hub.BanAttack.CompiledConfig.{CompiledConfig, excludes}
use router_hub.BanAttack.Rule.{RegexEngine}
use router_hub.BanAttack.Aggregate.State.{Aggregator, is_exception, is_network_covered}
use router_hub.BanAttack.Aggregate.Counts.{reconfigure, rebuild_subnet_counts, forget_exceptions}
use router_hub.BanAttack.Aggregate.Bans.{
  World, call, update, lift, lift_all, drop_ban, excepted_targets, apply_exceptions,
}
use router_hub.BanAttack.Aggregate.Frames.{reset_counts-SameBans, forget_exceptions-SameBans}
use router_hub.BanAttack.Aggregate.Sound.{Holds, call_rule, IsSound}
use router_hub.BanAttack.Aggregate.Spared.{
  IsFree, IsOther, SameBans-IsFree, drop_ban_keys, apply_exceptions-IsFree, cleanup_expired-IsFree,
  add_manual-IsFree, record_match-IsFree,
}
use router_hub.BanAttack.Engine.{Outside, Worker, Site}
use router_hub.BanAttack.Engine.Commands.{Received, received, add_ban, run}
use router_hub.BanAttack.Engine.Kept.{IsKept}
use router_hub.BanAttack.Engine.Kept.Rounds.{AllAllowed, run-Kept}
use router_hub.BanAttack.Engine.Sound.{Fits, soundly}

module _ {Net : Type 0} ⦃o : Externs Net⦄ where
  has-targets :
      (b : IpAddr) (xs : List IpAddr) (ns : List Net)
      → has (ip b) (map ip xs ++ map subnet ns) ≡ has b xs
  unfolding has
  has-targets b [] [] = refl
  has-targets b [] (n ∷ ns) = has-targets b [] ns
  has-targets b (x ∷ xs) ns = ground (arith, has-targets b xs ns)

  module _ (b : IpAddr) {B : Type 0} (backend : BanBackend Net B) where
    -- The address is free, or its ban is about to be lifted.
    abbrev Pending : List (BanTarget Net) → World Net B → Type 0
    Pending ts w = (has (ip b) ts ≡ true) ⊎ IsFree b w.0

    abbrev FreeNow : World Net B → Type 0
    FreeNow = Holds (IsFree b)

    abbrev Any : World Net B → Type 0
    Any w = Unit {0}

    drop_ban_frees :
        (t : BanTarget Net) (ts : List (BanTarget Net)) (w : World Net B)
        → Pending (t ∷ ts) w
        → Pending ts (drop_ban t w.0, w.1)
    unfolding has
    drop_ban_frees t ts w p =
        let keys = drop_ban_keys b t w.0 in
        elim (Bool-cases (has (ip b) ts)) [
          | inl later ↦ inl later
          | inr last ↦ elim p [
            | inl listed ↦ inr (ground (arith, keys, last, listed))
            | inr free ↦ inr (ground (arith, keys, free))
          ]
        ]

    lift_all_frees :
        (ts : List (BanTarget Net)) → Triple (Pending ts) (lift_all backend ts) (λ _. FreeNow) Any
    unfolding lift_all lift has
    lift_all_frees [] = λ w p. elim p [ inl none ↦ absurd (ground arith) | inr free ↦ free ]
    lift_all_frees (t ∷ ts) =
        bind_rule (Pending (t ∷ ts)) (λ _. Pending ts) (λ _. FreeNow) Any (lift backend t)
          (λ _. lift_all backend ts)
          (bind_rule (Pending (t ∷ ts)) (λ _. Pending (t ∷ ts)) (λ _. Pending ts) Any
            (call (backend.remove t)) (λ _. update (drop_ban t))
            (call_rule (λ g. (has (ip b) (t ∷ ts) ≡ true) ⊎ IsFree b g) (λ _. Unit {0}) (λ _ _. tt)
              (backend.remove t))
            (λ _ w. drop_ban_frees t ts w))
          (λ _. lift_all_frees ts)

    -- Where `apply_exceptions` ends well, an excepted address has no ban of its own.
    pub apply_exceptions_frees :
        (xs : List Net) (g : Aggregator Net) (x : B) {removed : List (BanTarget Net)}
        → IsSound g
        → is_exception b xs ≡ true
        → (apply_exceptions backend xs (g, x)).0 ≡ ok removed
        → IsFree b (apply_exceptions backend xs (g, x)).1.0
    unfolding apply_exceptions excepted_targets
    apply_exceptions_frees xs g x v excepted h =
        let targets = excepted_targets xs g in
        let pending : Pending targets (g, x) = elim (Bool-cases (has b g.banned_ips)) [
          | inl banned ↦ inl (
              has-targets b (filterb (λ a. is_exception a xs) g.banned_ips)
                (filterb (λ n. is_network_covered n xs) g.banned_subnets)
              ∙ ground
                  (arith, has-filterb (λ a. is_exception a xs) b g.banned_ips, banned, excepted))
          | inr free ↦ inr (sym (v.mirrored.ips b) ∙ free)
        ] in
        Ends-ok (λ _. FreeNow) Any _
          (bind_rule (Pending targets) (λ _. FreeNow) (λ _. FreeNow) Any (lift_all backend targets)
            (λ _. update (forget_exceptions xs) >>= λ _. pure targets) (lift_all_frees targets)
            (λ _ w f. SameBans-IsFree b (forget_exceptions-SameBans xs w.0) f) (g, x) pending)
          h

  -- A change of the configuration has room for the bans in force, and a ban by hand is of a subnet
  -- or of an address that is not excepted.
  abbrev pub FitsAndSpares :
      {FilePath Dfa Regex : Type 0}
      → Received Net FilePath Dfa Regex
      → Worker Net FilePath Dfa Regex
      → Type 0
  FitsAndSpares (received (add_ban (ip a) seconds reason)) w = excludes w.config a ≡ false
  FitsAndSpares m w = Fits m w

  -- The tables are sound, and no excepted address has a ban of its own.
  pub record IsSparing {FilePath Dfa Regex : Type 0} (w : Worker Net FilePath Dfa Regex)
      : Type 0 where
    pub sound : IsSound w.aggregator
    pub spares : (b : IpAddr) → excludes w.config b ≡ true → IsFree b w.aggregator

  -- Two addresses of which one is excepted are not the same.
  differ :
      {FilePath Dfa Regex : Type 0} (c : CompiledConfig Net FilePath Dfa Regex) (a b : IpAddr)
      → excludes c a ≡ false
      → excludes c b ≡ true
      → IsOther {Net = Net} b (ip a)
  differ c a b p q = elim (Bool-cases (ip_beq a b)) [
    | inr other ↦ other
    | inl same ↦
        let e = (ip_beq_iff a b).0 same in absurd (ground (arith, p, q, ap (λ d. excludes c d) e))
  ]

  spares_target :
      {FilePath Dfa Regex : Type 0} (t : BanTarget Net) (seconds : ℕ) (reason : String)
      (w : Worker Net FilePath Dfa Regex) (b : IpAddr)
      → FitsAndSpares (received (add_ban t seconds reason)) w
      → excludes w.config b ≡ true
      → IsOther {Net = Net} b t
  spares_target (ip a) seconds reason w b allowed listed = differ w.config a b allowed listed
  spares_target (subnet n) seconds reason w b allowed listed = refl

  module _ {FilePath Dfa Regex E : Type 0} ⦃eq : Eq FilePath⦄ (engine : RegexEngine Dfa Regex)
      (out : Outside Net FilePath E) (backend : BanBackend Net E) where
    sparingly :
        IsKept engine out backend FitsAndSpares (λ (w : Worker Net FilePath Dfa Regex). IsSparing w)
    unfolding reconfigure rebuild_subnet_counts excludes is_exception
    sparingly =
        let k = soundly engine out backend in
        record {
          stable = record {
            calm = record {
              same = λ v w e p. record {
                sound = k.stable.calm.same v w e p.sound;
                spares =
                    λ b. subst (λ c. excludes c.1 b ≡ true → IsFree b c.0) (sym e) (p.spares b);
              };
              noted = λ m w p. record { sound = p.sound; spares = p.spares };
            };
            recorded = λ a weight rule now now' w x allowed p. record {
              sound = k.stable.recorded a weight rule now now' w x allowed p.sound;
              spares = λ b listed.
                  record_match-IsFree b backend a weight rule now now' (w.aggregator, x)
                    (differ w.config a b allowed listed) (p.spares b listed);
            };
            cleaned = λ now w x p. record {
              sound = k.stable.cleaned now w x p.sound;
              spares = λ b listed.
                  cleanup_expired-IsFree b backend now (w.aggregator, x) (p.spares b listed);
            };
          };
          begun = λ t w p. record { sound = p.sound; spares = p.spares };
          halted = λ w p. record { sound = p.sound; spares = p.spares };
          reset = λ t w p. record {
            sound = k.reset t w p.sound;
            spares = λ b listed.
                SameBans-IsFree b (reset_counts-SameBans t w.aggregator) (p.spares b listed);
          };
          by_hand = λ t seconds reason now w x allowed p. record {
            sound = k.by_hand t seconds reason now w x tt p.sound;
            spares = λ b listed.
                add_manual-IsFree b backend t (o.seconds seconds) reason now (w.aggregator, x)
                  (spares_target t seconds reason w b allowed listed) (p.spares b listed);
          };
          excepted = λ xs w x p. record {
            sound = k.excepted xs w x p.sound;
            spares = λ b listed.
                apply_exceptions-IsFree b backend xs (w.aggregator, x) (p.spares b listed);
          };
          installed = λ c w x {removed} e fits p. record {
            sound = k.installed c w x {removed = removed} e fits p.sound;
            spares = λ b listed.
                apply_exceptions_frees b backend c.exceptions w.aggregator x {removed = removed}
                  p.sound listed e;
          };
        }

    -- No match of a rule bans an address that the configuration excepts: whatever the worker receives
    -- and whatever fails, in every state of a loop that starts without a ban of an excepted address,
    -- an excepted address has no ban of its own, through every change of the exceptions too. The
    -- condition is on the commands alone: a ban by hand is not of an excepted address, and a new
    -- configuration has room for the bans in force.
    pub run-IsSparing :
        (ms : List (Received Net FilePath Dfa Regex)) (s : Site Net FilePath Dfa Regex E)
        → AllAllowed engine out backend FitsAndSpares ms s
        → IsSparing s.0
        → IsSparing (run engine out backend ms s).1.0
    run-IsSparing ms s allowed p = run-Kept engine out backend sparingly ms s allowed p
