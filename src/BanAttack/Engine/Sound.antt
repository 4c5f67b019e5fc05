-- ===== src/BanAttack/Engine/Sound.antt =====
-- src/ban_attack/engine.rs: the tables of bans over the life of the worker.
use mathlib.Core.Path.{subst}
use router_hub.Common.{
  ap, sym, ℕ, ◌≤◌, List, [], ◌∷◌, Eq, length, arith, ◌>>=◌, pure, bind_rule, Triple, Ends-state,
  length-remove-le,
}
use router_hub.BanAttack.Net.{Externs, ip_eq, net_eq}
use router_hub.BanAttack.Config.{AggregationConfig}
use router_hub.BanAttack.Backend.{BanTarget, ip, subnet, target_eq, BanBackend}
use router_hub.BanAttack.Rule.{RegexEngine}
use router_hub.BanAttack.Aggregate.State.{Aggregator, is_covered_by_banned_subnet}
use router_hub.BanAttack.Aggregate.Counts.{reconfigure, forget_exceptions}
use router_hub.BanAttack.Aggregate.Bans.{
  World, call, update, lift, lift_all, drop_ban, excepted_targets, apply_exceptions,
}
use router_hub.BanAttack.Aggregate.Frames.{
  reset_counts-SameBans, forget_exceptions-SameBans, rebuild-SameBans,
}
use router_hub.BanAttack.Aggregate.Sound.{
  Holds, call_rule, IsSound, SameBans-IsSound, apply_exceptions-IsSound, cleanup_expired-IsSound,
}
use router_hub.BanAttack.Aggregate.Sound.Adding.{add_manual-IsSound}
use router_hub.BanAttack.Aggregate.Match.{record_match-IsSound}
use router_hub.BanAttack.Engine.{Outside, Worker, Site}
use router_hub.BanAttack.Engine.Commands.{Received, received, change_config, run}
use router_hub.BanAttack.Engine.Kept.{IsKept}
use router_hub.BanAttack.Engine.Kept.Rounds.{AllAllowed, run-Kept}

module _ {Net : Type 0} ⦃o : Externs Net⦄ where
  abbrev HasAtMost : ℕ → Aggregator Net → Type 0
  HasAtMost n g = length g.active_bans ≤ n

  drop_ban-HasAtMost :
      (t : BanTarget Net) (n : ℕ) (g : Aggregator Net) → HasAtMost n g → HasAtMost n (drop_ban t g)
  unfolding drop_ban
  drop_ban-HasAtMost (ip a) n g h = let less = length-remove-le (ip a) g.active_bans in omega arith
  drop_ban-HasAtMost (subnet m) n g h =
      let less = length-remove-le (subnet m) g.active_bans in omega arith

  module _ {B : Type 0} (backend : BanBackend Net B) (n : ℕ) where
    abbrev Small : World Net B → Type 0
    Small = Holds (HasAtMost n)

    lift_all-HasAtMost :
        (ts : List (BanTarget Net)) → Triple Small (lift_all backend ts) (λ _. Small) Small
    unfolding lift_all lift
    lift_all-HasAtMost [] = λ w h. h
    lift_all-HasAtMost (t ∷ ts) =
        bind_rule Small (λ _. Small) (λ _. Small) Small (lift backend t) (λ _. lift_all backend ts)
          (bind_rule Small (λ _. Small) (λ _. Small) Small (call (backend.remove t))
            (λ _. update (drop_ban t))
            (call_rule (HasAtMost n) (HasAtMost n) (λ _ h. h) (backend.remove t))
            (λ _ w. drop_ban-HasAtMost t n w.0))
          (λ _. lift_all-HasAtMost ts)

    apply_exceptions-HasAtMost :
        (xs : List Net) (w : World Net B) → Small w → Small (apply_exceptions backend xs w).1
    unfolding apply_exceptions
    apply_exceptions-HasAtMost xs (g, b) h = Ends-state Small _ (
        bind_rule Small (λ _. Small) (λ _. Small) Small (lift_all backend (excepted_targets xs g))
          (λ _. update (forget_exceptions xs) >>= λ _. pure (excepted_targets xs g))
          (lift_all-HasAtMost (excepted_targets xs g))
          (λ _ v k. let same = forget_exceptions-SameBans xs v.0 in ground (arith, same.active, k))
          (g, b) h)

  reconfigure-IsSound :
      (c : AggregationConfig) (g : Aggregator Net)
      → length g.active_bans ≤ c.max_active_bans
      → IsSound g
      → IsSound (reconfigure c g)
  unfolding reconfigure is_covered_by_banned_subnet
  reconfigure-IsSound c g room v =
      SameBans-IsSound (rebuild-SameBans (record g { config = c })) (record {
        mirrored = record { ips = v.mirrored.ips; nets = v.mirrored.nets };
        disjoint = v.disjoint;
        within = room;
      })

  -- A change of the configuration leaves room for the bans in force.
  abbrev pub Fits :
      {FilePath Dfa Regex : Type 0}
      → Received Net FilePath Dfa Regex
      → Worker Net FilePath Dfa Regex
      → Type 0
  Fits (received (change_config c)) w =
      length w.aggregator.active_bans ≤ c.aggregation.max_active_bans
  Fits _ w = Unit {0}

  module _ {FilePath Dfa Regex E : Type 0} ⦃eq : Eq FilePath⦄ (engine : RegexEngine Dfa Regex)
      (out : Outside Net FilePath E) (backend : BanBackend Net E) where
    pub soundly :
        IsKept engine out backend Fits (λ (w : Worker Net FilePath Dfa Regex). IsSound w.aggregator)
    soundly = record {
      stable = record {
        calm = record {
          same = λ v w e p. subst (λ h. IsSound h) (ap (λ c. c.0) (sym e)) p;
          noted = λ m w p. p;
        };
        recorded = λ a weight rule now now' w x allowed p.
            record_match-IsSound backend a weight rule now now' (w.aggregator, x) p;
        cleaned = λ now w x p. cleanup_expired-IsSound backend now (w.aggregator, x) p;
      };
      begun = λ t w p. p;
      halted = λ w p. p;
      reset = λ t w p. SameBans-IsSound (reset_counts-SameBans t w.aggregator) p;
      by_hand = λ t seconds reason now w x allowed p.
          add_manual-IsSound backend t (o.seconds seconds) reason now (w.aggregator, x) p;
      excepted = λ xs w x p. apply_exceptions-IsSound backend xs (w.aggregator, x) p;
      installed = λ c w x {removed} e fits p.
          reconfigure-IsSound c.aggregation _
            (apply_exceptions-HasAtMost backend c.aggregation.max_active_bans c.exceptions
              (w.aggregator, x) fits)
            (apply_exceptions-IsSound backend c.exceptions (w.aggregator, x) p);
    }

    -- Whatever the worker receives, whatever the backend, the disk and the clocks answer, and
    -- wherever its calls fail, its tables of bans stay sound, on the condition that a new
    -- configuration, when it comes, has room for the bans in force: the two sets hold the targets
    -- that are keys of the table of bans, no banned address lies in a banned subnet, and the table is
    -- within `max_active_bans`.
    pub run-IsSound :
        (ms : List (Received Net FilePath Dfa Regex)) (s : Site Net FilePath Dfa Regex E)
        → AllAllowed engine out backend Fits ms s
        → IsSound s.0.aggregator
        → IsSound (run engine out backend ms s).1.0.aggregator
    run-IsSound ms s fits v = run-Kept engine out backend soundly ms s fits v
