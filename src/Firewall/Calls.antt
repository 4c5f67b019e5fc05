-- ===== src/Firewall/Calls.antt =====
-- src/firewall.rs: the state of `FirewallManager`, its errors, and its calls of an engine.
use router_hub.Common.{
  ℕ, String, Bool, true, false, not, ◌&&◌, List, [], ◌∷◌, Option, none, some, Result, ok, err, M,
}
use router_hub.BanAttack.Config.{Config}
use router_hub.BanAttack.Backend.{BanTarget}
use router_hub.BanAttack.Aggregate.State.{ActiveBan}
use router_hub.BanAttack.Engine.{Error}
use router_hub.Firewall.{FirewallPolicy, PolicyError}

-- What the manager asks of an engine `H`, which is a `BanEngine` with its `EngineHandle`.
pub record Engines (Net FilePath H E : Type 0) : Type 0 where
  pub start : Config Net FilePath → M (Error FilePath) E H
  pub drop : H → E → E
  pub update_config : H → Config Net FilePath → M (Error FilePath) E (Unit {0})
  pub disable : H → M (Error FilePath) E (Unit {0})
  pub flush : H → M (Error FilePath) E (Unit {0})
  pub reconcile : H → M (Error FilePath) E (Unit {0})
  pub reset_counts : H → BanTarget Net → M (Error FilePath) E (Unit {0})
  pub add_ban : H → BanTarget Net → ℕ → String → M (Error FilePath) E (ActiveBan Net)

pub data ManagerError (Net FilePath X : Type 0) : Type 0 where
  policy_error : PolicyError Net → ManagerError Net FilePath X
  engine_error : Error FilePath → ManagerError Net FilePath X
  not_replaced : Error FilePath → Error FilePath → ManagerError Net FilePath X
  not_saved : X → ManagerError Net FilePath X
  policy_is_disabled overlaps_allowlist not_running : ManagerError Net FilePath X

-- The engine, the policy in `stores`, and the world.
pub record FirewallManager (Net FilePath H E : Type 0) : Type 0 where
  pub inner : Option H
  pub policy : FirewallPolicy Net FilePath
  pub world : E

pub record BanRecord (Net : Type 0) : Type 0 where
  pub network : Net
  pub reason : String
  pub rule_id : Option ℕ
  pub created_at : ℕ
  pub expires_at : ℕ
  pub hit_count : ℕ
  pub source : String
  pub offense_count : ℕ
  pub triggering_rule : Option String

abbrev pub is_running : {H : Type 0} → Option H → Bool
is_running none = false
is_running (some engine) = true

abbrev pub is_nil : {A : Type 0} → List A → Bool
is_nil [] = true
is_nil (x ∷ xs) = false

-- The methods, over what they take and answer.
abbrev pub Method : Type 0 → Type 0 → Type 0 → Type 0 → Type 0 → Type 0 → Type 0
Method Net FilePath H X E A = M (ManagerError Net FilePath X) (FirewallManager Net FilePath H E) A

-- Whether a policy asks for an engine.
abbrev pub wants_engine :
    {Net FilePath : Type 0} → FirewallPolicy Net FilePath → Config Net FilePath → Bool
wants_engine policy config = policy.enabled && not (is_nil config.files)

module _ {Net FilePath H E : Type 0} where
  abbrev pub with_inner :
      Option H → FirewallManager Net FilePath H E → FirewallManager Net FilePath H E
  with_inner inner s = record { inner = inner; policy = s.policy; world = s.world }

  abbrev pub with_policy :
      FirewallPolicy Net FilePath
      → FirewallManager Net FilePath H E
      → FirewallManager Net FilePath H E
  with_policy policy s = record { inner = s.inner; policy = policy; world = s.world }

  abbrev pub with_world : E → FirewallManager Net FilePath H E → FirewallManager Net FilePath H E
  with_world e s = record { inner = s.inner; policy = s.policy; world = e }

module _ {Net FilePath H X E : Type 0} where
  abbrev pub answer :
      {Y A : Type 0}
      → (Y → ManagerError Net FilePath X)
      → FirewallManager Net FilePath H E
      → Result Y A × E
      → Result (ManagerError Net FilePath X) A × FirewallManager Net FilePath H E
  answer f s (ok a, e) = (ok a, with_world e s)
  answer f s (err y, e) = (err (f y), with_world e s)

  -- A call that acts on the world, its errors as errors of the manager's.
  abbrev pub on_world :
      {Y A : Type 0} → (Y → ManagerError Net FilePath X) → M Y E A → Method Net FilePath H X E A
  on_world f m s = answer f s (m s.world)

  abbrev pub checked : {A : Type 0} → Result (PolicyError Net) A → Method Net FilePath H X E A
  checked r s = elim r [ ok a ↦ (ok a, s) | err e ↦ (err (policy_error e), s) ]
