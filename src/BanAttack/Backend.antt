-- ===== src/BanAttack/Backend.antt =====
-- src/ban_attack/backend.rs: ban targets, the trait `BanBackend` and the in-memory backend; the
-- errors are those of src/ban_attack/error.rs.
use router_hub.Common.{
  ℕ, String, ◌≡◌, ◌↔◌, Bool, true, false, arith, List, [], ◌∷◌, length, Eq, ok, M, ◌>>◌, pure,
  set_insert, set_remove,
}
use router_hub.BanAttack.Net.{IpAddr, Externs, is_ipv4, ip_beq, ip_beq_iff, net_eq}

pub data BanTarget (Net : Type 0) : Type 0 where
  ip : IpAddr → BanTarget Net
  subnet : Net → BanTarget Net

-- The texts that the aggregator writes are constructors; `message` is a text of the backend's.
pub data BackendError : Type 0 where
  message : String → BackendError
  already_covered : IpAddr → BackendError
  capacity_reached : ℕ → BackendError
  unsupported_schema : ℕ → BackendError

pub record ReconcileReport : Type 0 where
  pub restored_entries : ℕ
  pub repaired : Bool

-- `dyn BanBackend` over the state `B` that its implementation keeps.
pub record BanBackend (Net B : Type 0) : Type 0 where
  pub ensure : M BackendError B (Unit {0})
  pub add : BanTarget Net → M BackendError B (Unit {0})
  pub remove : BanTarget Net → M BackendError B (Unit {0})
  pub set_exceptions : List Net → M BackendError B (Unit {0})
  pub reconcile : List (BanTarget Net) → List Net → M BackendError B ReconcileReport
  pub disable : M BackendError B (Unit {0})

module _ {Net : Type 0} ⦃o : Externs Net⦄ where
  abbrev pub target_beq : BanTarget Net → BanTarget Net → Bool
  target_beq (ip a) (ip b) = ip_beq a b
  target_beq (subnet m) (subnet n) = o.net_beq m n
  target_beq (ip a) (subnet n) = false
  target_beq (subnet m) (ip b) = false

  pub target_beq_iff : (s t : BanTarget Net) → (target_beq s t ≡ true) ↔ (s ≡ t)
  target_beq_iff (ip a) (ip b) = ground (arith, ip_beq_iff a b)
  target_beq_iff (subnet m) (subnet n) = ground (arith, o.net_beq_iff m n)
  target_beq_iff (ip a) (subnet n) = ground arith
  target_beq_iff (subnet m) (ip b) = ground arith

  instance abbrev pub target_eq : Eq (BanTarget Net)
  target_eq = record { beq = target_beq; beq_iff = target_beq_iff }

  unfoldable pub target_is_ipv4 : BanTarget Net → Bool
  target_is_ipv4 (ip a) = is_ipv4 a
  target_is_ipv4 (subnet n) = is_ipv4 (o.addr n)

module _ {Net B : Type 0} where
  unfoldable pub add_all :
      (BanTarget Net → M BackendError B (Unit {0}))
      → List (BanTarget Net)
      → M BackendError B (Unit {0})
  add_all add [] = pure tt
  add_all add (t ∷ ts) = do add t; add_all add ts

  -- The trait's own body of `reconcile`.
  unfoldable pub default_reconcile :
      M BackendError B (Unit {0})
      → (List Net → M BackendError B (Unit {0}))
      → (BanTarget Net → M BackendError B (Unit {0}))
      → List (BanTarget Net)
      → List Net
      → M BackendError B ReconcileReport
  unfolding add_all
  default_reconcile ensure set_exceptions add active exceptions = do
    ensure
    set_exceptions exceptions
    add_all add active
    pure (record { restored_entries = length active; repaired = true })

module _ {Net : Type 0} ⦃o : Externs Net⦄ where
  -- `HashSet::extend`.
  unfoldable pub extend : List (BanTarget Net) → List (BanTarget Net) → List (BanTarget Net)
  extend [] s = s
  extend (t ∷ ts) s = extend ts (set_insert t s)

  unfoldable pub memory_reconcile :
      List (BanTarget Net) → List Net → M BackendError (List (BanTarget Net)) ReconcileReport
  unfolding extend
  memory_reconcile active exceptions entries =
      (ok (record { restored_entries = length active; repaired = true }), extend active [])

  -- `MemoryBanBackend`. Its mutex is not poisoned, since no method panics while it holds it.
  abbrev pub memory_backend : BanBackend Net (List (BanTarget Net))
  memory_backend = record {
    ensure = pure tt;
    add = λ t s. (ok tt, set_insert t s);
    remove = λ t s. (ok tt, set_remove t s);
    set_exceptions = λ _. pure tt;
    reconcile = memory_reconcile;
    disable = pure tt;
  }
