-- ===== src/BanAttack/Engine/Answers.antt =====
-- src/ban_attack/engine.rs: what the worker answers to a new configuration and to a ban by hand.
use router_hub.Common.{
  ℕ, String, ◌+◌, ◌≤◌, ◌≡◌, refl, ap, ◌∙◌, ◌||◌, true, Option, none, some, Eq, arith, ltb, get,
  contains_key, has, map, Bool-cases, inl, inr, Result, ok, err,
}
use router_hub.BanAttack.Net.{Externs}
use router_hub.BanAttack.Backend.{BanTarget, target_eq, BanBackend, BackendError}
use router_hub.BanAttack.CompiledConfig.{CompiledConfig}
use router_hub.BanAttack.Rule.{RegexEngine}
use router_hub.BanAttack.Aggregate.State.{Aggregator, ActiveBan}
use router_hub.BanAttack.Aggregate.Bans.{add_manual, timed_ban, excepted_targets}
use router_hub.BanAttack.Aggregate.Stopped.{OnlyLifts}
use router_hub.BanAttack.Aggregate.Manual.{add_manual-answers}
use router_hub.BanAttack.Engine.{Outside, Worker, Site, Error, emit, ipset_beq, firewall_beq}
use router_hub.BanAttack.Engine.Commands.{finish_ban, make_ban}
use router_hub.BanAttack.Engine.Kept.{IsCalm, save-Kept}

module _ {Net FilePath Dfa Regex E : Type 0} ⦃o : Externs Net⦄ ⦃eq : Eq FilePath⦄
    (engine : RegexEngine Dfa Regex) (out : Outside Net FilePath E)
    (backend : BanBackend Net E) where
  tabled :
      (g : Aggregator Net)
      → IsCalm engine out backend (λ (w : Worker Net FilePath Dfa Regex). w.aggregator ≡ g)
  tabled g = record { same = λ v w e p. ap (λ x. x.0) e ∙ p; noted = λ m w p. p }

  -- The worker runs on the configuration `c`.
  pub record RunsOn (c : CompiledConfig Net FilePath Dfa Regex) (w : Worker Net FilePath Dfa Regex)
      : Type 0 where
    pub config : w.config ≡ c
    pub aggregation : w.aggregator.config ≡ c.aggregation
    pub watches :
        (path : FilePath) → contains_key path w.tailer ≡ has path (map (λ file. file.path) c.files)

  module _ (w : Worker Net FilePath Dfa Regex) (c : CompiledConfig Net FilePath Dfa Regex) where
    -- What an answer to a new configuration says of the worker. One that refuses keeps all but bans
    -- of the targets that the new configuration excepts; one that accepts runs on the new
    -- configuration, whose startup-only parts are those of the old one.
    pub data IsAnswered
        : Result (Error FilePath) (Unit {0}) → Worker Net FilePath Dfa Regex → Type 0 where
      refused :
          (bad : Error FilePath) (g : Aggregator Net)
          → OnlyLifts (excepted_targets c.exceptions w.aggregator) w.aggregator g
          → IsAnswered (err bad) (record w { aggregator = g })
      accepted :
          (v : Worker Net FilePath Dfa Regex)
          → RunsOn c v
          → ipset_beq c.ipset w.config.ipset ≡ true
          → firewall_beq c.firewall w.config.firewall ≡ true
          → IsAnswered (ok tt) v

  -- The ban that a command has made, at the time that it has read.
  pub record IsMade (t : BanTarget Net) (seconds now : ℕ) (reason : String)
      (w v : Worker Net FilePath Dfa Regex) (r : Option (ActiveBan Net)) : Type 0 where
    pub ban : ActiveBan Net
    pub answered : r ≡ some ban
    pub entered : get t v.aggregator.active_bans ≡ some ban
    pub ends_on_time : ban.expires_at ≡ now + o.seconds seconds
    pub has_reason : ban.reason ≡ reason
    pub long_enough : 60 ≤ seconds
    pub within : seconds ≤ w.config.aggregation.max_ban_seconds

  finish_ban-table :
      (t : BanTarget Net) (r : Result BackendError (Option (ActiveBan Net)))
      (s : Site Net FilePath Dfa Regex E)
      → (finish_ban engine out backend t r s).1.0.aggregator ≡ s.0.aggregator
  unfolding finish_ban emit
  finish_ban-table t (err y) s = refl
  finish_ban-table t (ok made) (w, x) =
      save-Kept engine out backend (tabled w.aggregator) true (_, x) refl

  finish_ban-ok :
      (t : BanTarget Net) (r : Result BackendError (Option (ActiveBan Net)))
      (s : Site Net FilePath Dfa Regex E) {made : Option (ActiveBan Net)}
      → (finish_ban engine out backend t r s).0 ≡ ok made
      → r ≡ ok made
  unfolding finish_ban
  finish_ban-ok t (err y) s h = absurd (ground arith)
  finish_ban-ok t (ok r) s h = ground arith

  -- A ban by hand that the worker accepts lasts between a minute and `max_ban_seconds`; the answer is
  -- never the panic of `add_manual` but the ban that the table then holds for the target, with the
  -- reason given, which ends that many seconds after the time the command read.
  pub make_ban-IsMade :
      (t : BanTarget Net) (seconds : ℕ) (reason : String) (w : Worker Net FilePath Dfa Regex)
      (x : E) {r : Option (ActiveBan Net)}
      → (make_ban engine out backend t seconds reason (w, x)).0 ≡ ok r
      → IsMade t seconds
          (out.utc_now x).0
          reason
          w
          (make_ban engine out backend t seconds reason (w, x)).1.0
          r
  unfolding make_ban timed_ban
  make_ban-IsMade t seconds reason w x {r} h =
      elim (Bool-cases (ltb seconds 60 || ltb w.config.aggregation.max_ban_seconds seconds)) [
        | inl bad ↦ absurd (ground (arith, rw (bad, make_ban) at h))
        | inr good ↦
            let (now, x1) = out.utc_now x in
            let made = add_manual backend t (o.seconds seconds) reason now (w.aggregator, x1) in
            let s : Site Net FilePath Dfa Regex E =
              (record w { aggregator = made.1.0 }, made.1.1) in
            let answers =
              add_manual-answers backend t (o.seconds seconds) reason now w.aggregator x1 {r = r}
                (finish_ban-ok t made.0 s (rw (good, make_ban) at h)) in
            let ban = record (timed_ban w.aggregator t "manual" reason 1 now none) {
              expires_at = now + o.seconds seconds;
            } in
            let table =
              ap (λ (g : Aggregator Net). get t g.active_bans) (finish_ban-table t made.0 s) in
            rw (good, make_ban)
              (record {
                ban = ban;
                answered = answers.0;
                entered = table ∙ answers.1;
                ends_on_time = refl;
                has_reason = refl;
                long_enough = ground (arith, good);
                within = ground (arith, good);
              })
      ]
