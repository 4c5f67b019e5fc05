-- ===== src/Firewall/Manager.antt =====
-- src/firewall.rs: `FirewallManager`. Each method that changes something runs under the locks that
-- it takes, as one step.
use router_hub.Common.{
  ℕ, String, Bool, not, ◌||◌, [], ◌∷◌, ◌++◌, Option, none, some, nat_beq, if◌then◌else◌, Eq, Result,
  ok, err, M, ◌>>=◌, any,
}
use router_hub.BanAttack.Net.{Externs}
use router_hub.BanAttack.Config.{Config}
use router_hub.BanAttack.Backend.{BanTarget, ip, subnet}
use router_hub.BanAttack.Compiled.Paths.{PathSystem}
use router_hub.BanAttack.CompiledConfig.{compile_config}
use router_hub.BanAttack.Rule.{RegexEngine}
use router_hub.BanAttack.Aggregate.State.{ActiveBan}
use router_hub.BanAttack.Engine.{Error, not_compiled}
use router_hub.Firewall.{FirewallPolicy, AppConfig, PolicyError}
use router_hub.Firewall.Policy.{validate_policy, network_covers, networks_overlap}
use router_hub.Firewall.Settings.{build_ban_attack_config}
use router_hub.Firewall.Calls.{
  Engines, ManagerError, engine_error, not_replaced, not_saved, policy_is_disabled,
  overlaps_allowlist, not_running, FirewallManager, BanRecord, is_running, is_nil, Method,
  wants_engine, with_inner, with_policy, with_world, on_world, checked,
}

module _ {Net FilePath Dfa Regex H X E : Type 0} ⦃o : Externs Net⦄ ⦃eq : Eq FilePath⦄
    (path_lt : FilePath → FilePath → Bool) (regexes : RegexEngine Dfa Regex)
    (fs : PathSystem FilePath) (app : AppConfig FilePath) (engines : Engines Net FilePath H E)
    (save_firewall_policy : FirewallPolicy Net FilePath → M X E (Unit {0})) where
  -- `build_ban_attack_config`, of a policy.
  abbrev pub build : FirewallPolicy Net FilePath → Result (PolicyError Net) (Config Net FilePath)
  build policy = build_ban_attack_config path_lt app policy

  -- `*inner = …`, which drops the engine that was there.
  abbrev pub set_inner : Option H → H → Method Net FilePath H X E (Unit {0})
  set_inner inner old s = (ok tt, with_inner inner (with_world (engines.drop old s.world) s))

  abbrev pub after_start :
      FirewallManager Net FilePath H E
      → Result (Error FilePath) H × E
      → FirewallManager Net FilePath H E
  after_start s (ok engine, e) = with_inner (some engine) (with_world e s)
  after_start s (err x, e) = with_world e s

  -- Failures of `start` are only logged.
  unfoldable pub start : FirewallManager Net FilePath H E → FirewallManager Net FilePath H E
  start s =
      if is_running s.inner || not s.policy.enabled then s else elim (validate_policy s.policy) [
        | err e ↦ s
        | ok _ ↦ elim (build s.policy) [
          | err e ↦ s
          | ok config ↦
              if is_nil config.files then s else after_start s (engines.start config s.world)
        ]
      ]

  unfoldable pub replace_engine :
      H → Config Net FilePath → Error FilePath → Method Net FilePath H X E (Unit {0})
  replace_engine engine config update_error = on_world engine_error (engines.flush engine) >>= λ _.
      on_world (not_replaced update_error) (engines.start config) >>= λ new.
      set_inner (some new) engine

  -- An engine that refuses the new configuration is replaced.
  abbrev pub after_update :
      H
      → Config Net FilePath
      → FirewallManager Net FilePath H E
      → Result (Error FilePath) (Unit {0}) × E
      → Result (ManagerError Net FilePath X) (Unit {0}) × FirewallManager Net FilePath H E
  after_update engine config s (ok u, e) = (ok tt, with_world e s)
  after_update engine config s (err x, e) = replace_engine engine config x (with_world e s)

  unfoldable pub change_engine :
      FirewallPolicy Net FilePath → Config Net FilePath → H → Method Net FilePath H X E (Unit {0})
  change_engine policy config engine s =
      if wants_engine policy config
      then after_update engine config s (engines.update_config engine config s.world)
      else (on_world engine_error (engines.disable engine) >>= λ _. set_inner none engine) s

  unfoldable pub first_engine :
      FirewallPolicy Net FilePath → Config Net FilePath → Method Net FilePath H X E (Unit {0})
  first_engine policy config s =
      if wants_engine policy config
      then (on_world engine_error (engines.start config) >>= λ new k.
            (ok tt, with_inner (some new) k))
          s
      else (ok tt, s)

  abbrev pub apply_config :
      FirewallPolicy Net FilePath → Config Net FilePath → Method Net FilePath H X E (Unit {0})
  apply_config policy config s = elim (s.inner) [
    | some engine ↦ change_engine policy config engine s
    | none ↦ first_engine policy config s
  ]

  unfoldable pub update_policy : FirewallPolicy Net FilePath → Method Net FilePath H X E (Unit {0})
  update_policy policy = checked (build policy) >>= apply_config policy

  -- `crate::ban_attack::validate_config`, unless no file is watched.
  unfoldable pub validate_config : Config Net FilePath → Method Net FilePath H X E (Unit {0})
  validate_config config s =
      if is_nil config.files then (ok tt, s) else elim (compile_config regexes fs config) [
        | ok _ ↦ (ok tt, s)
        | err e ↦ (err (engine_error (not_compiled e)), s)
      ]

  -- The new policy is withdrawn where it cannot be saved.
  abbrev pub after_save :
      FirewallPolicy Net FilePath
      → FirewallManager Net FilePath H E
      → Result X (Unit {0}) × E
      → Result (ManagerError Net FilePath X) (Unit {0}) × FirewallManager Net FilePath H E
  after_save previous s (ok u, e) = (ok tt, with_world e s)
  after_save previous s (err x, e) =
      (err (not_saved x), (update_policy previous (with_world e (with_policy previous s))).1)

  -- The end of `replace_policy`: the new policy is stored, and then saved.
  unfoldable pub commit :
      FirewallPolicy Net FilePath
      → FirewallPolicy Net FilePath
      → Method Net FilePath H X E (Unit {0})
  commit previous candidate s =
      let stored = with_policy candidate s in
      after_save previous stored (save_firewall_policy stored.policy stored.world)

  unfoldable pub replace_policy : FirewallPolicy Net FilePath → Method Net FilePath H X E (Unit {0})
  replace_policy candidate s =
      (checked (validate_policy candidate) >>= λ _. checked (build candidate) >>= λ config.
      validate_config config >>= λ _. update_policy candidate >>= λ _. commit s.policy candidate)
        s

  -- `unban`: the network joins the allowlist, unless an entry covers it.
  unfoldable pub with_exception : Net → FirewallPolicy Net FilePath → FirewallPolicy Net FilePath
  with_exception network policy = record {
    enabled = policy.enabled;
    observe_only = policy.observe_only;
    rules = policy.rules;
    allowlist =
        if any (λ allowed. network_covers allowed network) policy.allowlist
        then policy.allowlist
        else policy.allowlist ++ network ∷ [];
    tuning = policy.tuning;
  }

  unfoldable pub unban : Net → Method Net FilePath H X E (Unit {0})
  unban network s = replace_policy (with_exception network s.policy) s

  -- The target of a call by hand.
  abbrev pub target_of : Net → BanTarget Net
  target_of network =
      if nat_beq (o.prefix_len network) 32 || nat_beq (o.prefix_len network) 128
      then ip (o.addr network)
      else subnet network

  abbrev pub on_engine : {A : Type 0} → (H → M (Error FilePath) E A) → Method Net FilePath H X E A
  on_engine call s = elim (s.inner) [
    | none ↦ (err not_running, s)
    | some engine ↦ on_world engine_error (call engine) s
  ]

  abbrev pub ban_record : ActiveBan Net → BanRecord Net
  ban_record ban = record {
    network = ban.network;
    reason = ban.reason;
    rule_id = none;
    created_at = ban.created_at;
    expires_at = ban.expires_at;
    hit_count = ban.hit_count;
    source = ban.source;
    offense_count = ban.offense_count;
    triggering_rule = ban.triggering_rule;
  }

  unfoldable pub ban_manual : Net → ℕ → String → Method Net FilePath H X E (BanRecord Net)
  ban_manual network seconds reason s =
      if not s.policy.enabled
      then (err policy_is_disabled, s)
      else if any (λ allowed. networks_overlap allowed network) s.policy.allowlist
      then (err overlaps_allowlist, s)
      else (on_engine (λ engine. engines.add_ban engine (target_of network) seconds reason)
            >>= λ ban k. (ok (ban_record ban), k))
          s

  -- `reconcile`.
  unfoldable pub reconcile_now : Method Net FilePath H X E (Unit {0})
  reconcile_now = on_engine engines.reconcile

  -- `reset_counts`.
  unfoldable pub reset_counts_of : Net → Method Net FilePath H X E (Unit {0})
  reset_counts_of network = on_engine (λ engine. engines.reset_counts engine (target_of network))
