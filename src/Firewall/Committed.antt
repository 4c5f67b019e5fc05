-- ===== src/Firewall/Committed.antt =====
-- src/firewall.rs: proofs on the changes of the policy.
use router_hub.Common.{
  ◌≡◌, refl, Bool, true, false, not, ◌&&◌, Eq, Result, ok, err, M, ◌>>=◌, Ends, bind_rule, Triple,
  Option, none, some, Bool-cases, Result-cases, inl, inr, if-Ends, Ends-weaken, Ends-state,
}
use router_hub.BanAttack.Net.{Externs}
use router_hub.BanAttack.Config.{Config}
use router_hub.BanAttack.Compiled.Paths.{PathSystem}
use router_hub.BanAttack.CompiledConfig.{compile_config}
use router_hub.BanAttack.Rule.{RegexEngine}
use router_hub.BanAttack.Engine.{Error}
use router_hub.Firewall.{FirewallPolicy, AppConfig}
use router_hub.Firewall.Policy.{validate_policy}
use router_hub.Firewall.Settings.{build_ban_attack_config}
use router_hub.Firewall.Calls.{
  Engines, FirewallManager, ManagerError, engine_error, not_replaced, is_running, is_nil, Method,
  answer, on_world, wants_engine, with_inner, with_policy, with_world,
}
use router_hub.Firewall.Manager.{
  after_update, after_save, set_inner, replace_engine, change_engine, first_engine, update_policy,
  validate_config, commit, replace_policy, apply_config,
}

module _ {Net FilePath Dfa Regex H X E : Type 0} ⦃o : Externs Net⦄ ⦃eq : Eq FilePath⦄
    (path_lt : FilePath → FilePath → Bool) (regexes : RegexEngine Dfa Regex)
    (fs : PathSystem FilePath) (app : AppConfig FilePath) (engines : Engines Net FilePath H E)
    (save : FirewallPolicy Net FilePath → M X E (Unit {0})) where
  abbrev S : Type 0
  S = FirewallManager Net FilePath H E

  abbrev Policy : Type 0
  Policy = FirewallPolicy Net FilePath

  abbrev Holds : Policy → S → Type 0
  Holds p s = s.policy ≡ p

  -- The policy is kept, and an engine runs as `wanted` says.
  abbrev Runs : Policy → Bool → S → Type 0
  Runs p wanted s = (s.policy ≡ p) × (is_running s.inner ≡ wanted)

  module _ (p : Policy) (inner : Option H) where
    abbrev Same : S → Type 0
    Same s = (s.policy ≡ p) × (s.inner ≡ inner)

    answer-Ends :
        {Y A : Type 0} (f : Y → ManagerError Net FilePath X) (s : S) (r : Result Y A × E)
        → Same s
        → Ends (λ _. Same) Same (answer f s r)
    answer-Ends f s (ok a, e) h = h
    answer-Ends f s (err y, e) h = h

    on_world-Ends :
        {Y A : Type 0} (f : Y → ManagerError Net FilePath X) (m : M Y E A)
        → Triple Same (on_world f m) (λ _. Same) Same
    on_world-Ends f m s h = answer-Ends f s (m s.world) h

    -- A call that acts on the world, with what follows it.
    call_rule :
        {Y A B : Type 0} (Q : B → S → Type 0) (f : Y → ManagerError Net FilePath X) (m : M Y E A)
        (k : A → Method Net FilePath H X E B)
        → ((a : A) → Triple Same (k a) Q (Holds p))
        → Triple Same (on_world f m >>= k) Q (Holds p)
    call_rule Q f m k h =
        bind_rule Same (λ _. Same) Q (Holds p) (on_world f m) k
          (λ s x.
            Ends-weaken (λ _. Same) Same (λ _. Same) (Holds p) _ (λ _ _ y. y) (λ _ y. y.0)
              (on_world-Ends f m s x))
          h

  replace_engine-Runs :
      (p : Policy) (inner : Option H) (engine : H) (config : Config Net FilePath)
      (x : Error FilePath)
      → Triple
          (Same p inner)
          (replace_engine path_lt regexes fs app engines save engine config x)
          (λ _. Runs p true)
          (Holds p)
  unfolding replace_engine
  replace_engine-Runs p inner engine config x =
      call_rule p inner (λ _. Runs p true) engine_error (engines.flush engine) _
        (λ _.
          call_rule p inner (λ _. Runs p true) (not_replaced x) (engines.start config)
            (λ new. set_inner path_lt regexes fs app engines save (some new) engine)
            (λ new s h. (h.0, refl)))

  after_update-Runs :
      (engine : H) (config : Config Net FilePath) (s : S)
      (r : Result (Error FilePath) (Unit {0}) × E)
      → is_running s.inner ≡ true
      → Ends
          (λ _. Runs s.policy true)
          (Holds s.policy)
          (after_update path_lt regexes fs app engines save engine config s r)
  after_update-Runs engine config s (ok u, e) h = (refl, h)
  after_update-Runs engine config s (err x, e) h =
      replace_engine-Runs s.policy s.inner engine config x (with_world e s) (refl, refl)

  change_engine-Runs :
      (policy : Policy) (config : Config Net FilePath) (engine : H) (s : S)
      → is_running s.inner ≡ true
      → Ends
          (λ _. Runs s.policy (wants_engine policy config))
          (Holds s.policy)
          (change_engine path_lt regexes fs app engines save policy config engine s)
  unfolding change_engine
  change_engine-Runs policy config engine s h = elim (Bool-cases (wants_engine policy config)) [
    | inl wanted ↦
        rw (wanted, change_engine)
          (after_update-Runs engine config s (engines.update_config engine config s.world) h)
    | inr idle ↦
        rw (idle, change_engine)
          (call_rule s.policy s.inner (λ _. Runs s.policy false) engine_error
            (engines.disable engine)
            (λ _. set_inner path_lt regexes fs app engines save none engine) (λ _ k x. (x.0, refl))
            s (refl, refl))
  ]

  first_engine-Runs :
      (policy : Policy) (config : Config Net FilePath) (s : S)
      → is_running s.inner ≡ false
      → Ends
          (λ _. Runs s.policy (wants_engine policy config))
          (Holds s.policy)
          (first_engine path_lt regexes fs app engines save policy config s)
  unfolding first_engine
  first_engine-Runs policy config s h = elim (Bool-cases (wants_engine policy config)) [
    | inl wanted ↦
        rw (wanted, first_engine)
          (call_rule s.policy s.inner (λ _. Runs s.policy true) engine_error (engines.start config)
            (λ new k. (ok tt, with_inner (some new) k)) (λ new k x. (x.0, refl)) s (refl, refl))
    | inr idle ↦ rw (idle, first_engine) (refl, h)
  ]

  apply_config-Runs :
      (policy : Policy) (config : Config Net FilePath) (inner : Option H) (p : Policy) (e : E)
      → Ends
          (λ _. Runs p (wants_engine policy config))
          (Holds p)
          (apply_config path_lt regexes fs app engines save policy config
            (record { inner = inner; policy = p; world = e }))
  apply_config-Runs policy config none p e = first_engine-Runs policy config _ refl
  apply_config-Runs policy config (some engine) p e = change_engine-Runs policy config engine _ refl

  update_policy-Runs :
      (policy : Policy) (config : Config Net FilePath) (s : S)
      → build_ban_attack_config path_lt app policy ≡ ok config
      → Ends
          (λ _. Runs s.policy (wants_engine policy config))
          (Holds s.policy)
          (update_policy path_lt regexes fs app engines save policy s)
  unfolding update_policy
  update_policy-Runs policy config s h =
      rw (h, update_policy) (apply_config-Runs policy config s.inner s.policy s.world)

  -- Whatever update_policy comes to, the policy in force stays.
  update_policy-Holds :
      (policy : Policy) (s : S)
      → Holds s.policy (update_policy path_lt regexes fs app engines save policy s).1
  unfolding update_policy
  update_policy-Holds policy s = elim (Result-cases (build_ban_attack_config path_lt app policy)) [
    | inr (x, failed) ↦ rw (failed, update_policy) refl
    | inl (config, built) ↦
        let result = update_policy path_lt regexes fs app engines save policy s in
        Ends-state (Holds s.policy) result (
          Ends-weaken (λ _. Runs s.policy (wants_engine policy config)) (Holds s.policy)
            (λ _. Holds s.policy) (Holds s.policy) result (λ _ _ y. y.0) (λ _ y. y)
            (update_policy-Runs policy config s built))
  ]

  -- What a change of the policy has done: the policy is in force, checked and saved, and an engine
  -- runs if and only if the policy is enabled and has a file to watch.
  pub record IsCommitted (candidate : Policy) (s : S) : Type 0 where
    pub stored : s.policy ≡ candidate
    pub valid : validate_policy candidate ≡ ok tt
    pub config : Config Net FilePath
    pub built : build_ban_attack_config path_lt app candidate ≡ ok config
    pub running : is_running s.inner ≡ (candidate.enabled && not (is_nil config.files))
    pub before : E
    pub saved : save candidate before ≡ (ok tt, s.world)

  after_save-IsCommitted :
      (previous candidate : Policy) (config : Config Net FilePath) (s : S)
      (r : Result X (Unit {0}) × E)
      → validate_policy candidate ≡ ok tt
      → build_ban_attack_config path_lt app candidate ≡ ok config
      → is_running s.inner ≡ wants_engine candidate config
      → save candidate s.world ≡ r
      → Ends
          (λ _. IsCommitted candidate)
          (Holds previous)
          (after_save path_lt regexes fs app engines save previous (with_policy candidate s) r)
  after_save-IsCommitted previous candidate config s (ok u, e) good made runs saves = record {
    stored = refl;
    valid = good;
    config = config;
    built = made;
    running = runs;
    before = s.world;
    saved = saves;
  }
  after_save-IsCommitted previous candidate config s (err x, e) good made runs saves =
      update_policy-Holds previous (with_world e (with_policy previous s))

  commit_after :
      (candidate : Policy) (config : Config Net FilePath) (s : S)
      → validate_policy candidate ≡ ok tt
      → build_ban_attack_config path_lt app candidate ≡ ok config
      → Ends
          (λ _. IsCommitted candidate)
          (Holds s.policy)
          (◌>>=◌
            (update_policy path_lt regexes fs app engines save candidate)
            (λ _. commit path_lt regexes fs app engines save s.policy candidate)
            s)
  unfolding commit
  commit_after candidate config s good made =
      bind_rule (λ k. k ≡ s) (λ _. Runs s.policy (wants_engine candidate config))
        (λ _. IsCommitted candidate) (Holds s.policy)
        (update_policy path_lt regexes fs app engines save candidate)
        (λ _. commit path_lt regexes fs app engines save s.policy candidate)
        (λ k same. rw same (update_policy-Runs candidate config s made))
        (λ _ k h.
          after_save-IsCommitted s.policy candidate config k (save candidate k.world) good made h.1
            refl)
        s refl

  -- The check of a configuration changes nothing.
  validate_config-Ends :
      (config : Config Net FilePath) (s : S)
      → Ends
          (λ _ k. k ≡ s)
          (Holds s.policy)
          (validate_config path_lt regexes fs app engines save config s)
  unfolding validate_config
  validate_config-Ends config s =
      if-Ends (λ _ k. k ≡ s) (Holds s.policy) (is_nil config.files) _ _ (λ _. refl)
        (λ _. elim (Result-cases (compile_config regexes fs config)) [
          | inr (x, refused) ↦ rw refused refl
          | inl (compiled, accepted) ↦ rw accepted refl
        ])

  -- A change of the policy is all or nothing for the policy in force. Where replace_policy ends
  -- well, the policy in force is the candidate, which has passed the checks and has been saved, and
  -- an engine runs if and only if the candidate is enabled and has a file to watch. Where it ends
  -- in an error, of a check, of the engine or of the file, the policy in force is the one before.
  pub replace_policy-IsCommitted :
      (candidate : Policy) (s : S)
      → Ends
          (λ _. IsCommitted candidate)
          (Holds s.policy)
          (replace_policy path_lt regexes fs app engines save candidate s)
  unfolding replace_policy
  replace_policy-IsCommitted candidate s = elim (Result-cases (validate_policy candidate)) [
    | inr (x, bad) ↦ rw (bad, replace_policy) refl
    | inl (u, good) ↦ elim (Result-cases (build_ban_attack_config path_lt app candidate)) [
      | inr (x, failed) ↦ rw (good, failed, replace_policy) refl
      | inl (config, made) ↦
          rw (good, made, replace_policy)
            (bind_rule (λ k. k ≡ s) (λ _ k. k ≡ s) (λ _. IsCommitted candidate) (Holds s.policy)
              (validate_config path_lt regexes fs app engines save config)
              (λ _.
                ◌>>=◌ (update_policy path_lt regexes fs app engines save candidate)
                  (λ _. commit path_lt regexes fs app engines save s.policy candidate))
              (λ k same. rw same (validate_config-Ends config s))
              (λ _ k same. rw same (commit_after candidate config s good made)) s refl)
    ]
  ]
