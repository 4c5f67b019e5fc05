-- ===== src/BanAttack/IpSet/Backend.antt =====
-- src/ban_attack/backend.rs: `CommandIpSet` as a `BanBackend`. Its state is the set of exceptions that
-- its mutex guards, which no method poisons, with the kernel's.
pub mod Staged
pub mod Quiet
pub mod Exceptions
pub mod Excepted
pub mod Enforced
use router_hub.Common.{
  ℕ, ◌+◌, String, Bool, true, false, not, List, [], ◌∷◌, ◌++◌, map, some, none, if◌then◌else◌,
  filterb, length, has, set_insert, set_remove, ok, err, Result, M, ◌>>=◌, ◌>>◌, pure, modify,
}
use router_hub.BanAttack.Net.{Externs, is_ipv4, net_eq}
use router_hub.BanAttack.Backend.{
  BanTarget, subnet, BanBackend, BackendError, ReconcileReport, target_is_ipv4,
}
use router_hub.BanAttack.Aggregate.Persist.{each}
use router_hub.BanAttack.IpSet.{
  Tools, CommandIpSet, Output, Run, run_output, run_ipset, ensure_set, ensure_owned_chain,
  remove_hook, set_exception, remove_exception, create_args, set_for, restore_text, in_family,
  family_of, input_chain, forward_chain,
}

module _ {Net FilePath K : Type 0} ⦃o : Externs Net⦄ (tools : Tools Net FilePath K)
    (ipset : CommandIpSet FilePath) where
  -- What a restored set holds: an entry, and whether it is an exception.
  unfoldable pub restore_lines : Bool → List (BanTarget Net) → List Net → List (String × Bool)
  restore_lines v4 active exceptions =
      map (λ t. (tools.entry t, false)) (filterb (in_family tools ipset v4) active)
      ++ map (λ n. (tools.entry (subnet n), true))
          (filterb (λ n. in_family tools ipset v4 (subnet n)) exceptions)

  abbrev pub destroy : String → Run tools ipset Output
  destroy stage = run_output tools ipset ipset.config.command ("destroy" ∷ stage ∷ []) none

  -- The end of `restore_family`, once the stage is filled.
  unfoldable pub swap_in : String → String → ℕ → Run tools ipset ℕ
  swap_in live stage count = do
    run_ipset tools ipset ("swap" ∷ stage ∷ live ∷ [])
    run_ipset tools ipset ("destroy" ∷ stage ∷ [])
    pure count

  unfoldable pub check_restore : String → String → ℕ → Output → Run tools ipset ℕ
  check_restore live stage count output k =
      if output.success
      then swap_in live stage count k
      else (err (tools.restore_failed live output), (destroy stage k).1)

  abbrev pub restore_stage : String → List (String × Bool) → Run tools ipset Output
  restore_stage stage lines =
      run_output tools ipset ipset.config.command ("restore" ∷ "-exist" ∷ [])
        (some (restore_text tools ipset stage lines))

  unfoldable pub restore_set :
      String → String → Bool → List (BanTarget Net) → List Net → Run tools ipset ℕ
  restore_set live stage v4 active exceptions = destroy stage >>= λ _.
      run_ipset tools ipset (create_args tools ipset stage (family_of v4)) >>= λ _.
      restore_stage stage (restore_lines v4 active exceptions)
      >>= check_restore live stage (length (filterb (in_family tools ipset v4) active))

  unfoldable pub restore_family :
      String → String → Bool → List (BanTarget Net) → List Net → Run tools ipset ℕ
  restore_family live stage v4 active exceptions k =
      if ipset.test_mode
      then (ok (length (filterb (in_family tools ipset v4) active)), k)
      else restore_set live stage v4 active exceptions k

  -- The chains of one parent, installed or taken away.
  unfoldable pub place_hooks : Bool → String → String → Run tools ipset (Unit {0})
  place_hooks protect parent owned k =
      let install : Run tools ipset (Unit {0}) = do
        ensure_owned_chain tools ipset ipset.firewall.iptables_command parent owned
            ipset.config.v4_set
        ensure_owned_chain tools ipset ipset.firewall.ip6tables_command parent owned
            ipset.config.v6_set
      in let take_away : Run tools ipset (Unit {0}) = do
        remove_hook tools ipset ipset.firewall.iptables_command parent owned
        remove_hook tools ipset ipset.firewall.ip6tables_command parent owned
        in if protect then install k else take_away k

  unfoldable pub ensure_chains : Run tools ipset (Unit {0})
  ensure_chains k =
      let chains : Run tools ipset (Unit {0}) = do
        place_hooks ipset.firewall.protect_input "INPUT" input_chain
        place_hooks ipset.firewall.protect_forward "FORWARD" forward_chain
      in if ipset.firewall.enabled then chains k else (ok tt, k)

  unfoldable pub ensure_sets : Run tools ipset (Unit {0})
  ensure_sets = do
    ensure_set tools ipset ipset.config.v4_set "inet"
    ensure_set tools ipset ipset.config.v6_set "inet6"
    ensure_chains

  unfoldable pub ensure : Run tools ipset (Unit {0})
  ensure k = if ipset.firewall.observe_only then (ok tt, k) else ensure_sets k

  unfoldable pub change_entry : String → BanTarget Net → Run tools ipset (Unit {0})
  change_entry verb target k =
      if ipset.firewall.observe_only
      then (ok tt, k)
      else run_ipset tools ipset
          ("-exist" ∷ verb ∷ set_for tools ipset target ∷ tools.entry target ∷ []) k

  unfoldable pub disable : Run tools ipset (Unit {0})
  disable = do
    remove_hook tools ipset ipset.firewall.iptables_command "INPUT" input_chain
    remove_hook tools ipset ipset.firewall.ip6tables_command "INPUT" input_chain
    remove_hook tools ipset ipset.firewall.iptables_command "FORWARD" forward_chain
    remove_hook tools ipset ipset.firewall.ip6tables_command "FORWARD" forward_chain

  -- The set of exceptions with the kernel.
  abbrev pub Guarded : Type 0
  Guarded = List Net × K

  abbrev pub on_kernel : {A : Type 0} → Run tools ipset A → M BackendError Guarded A
  on_kernel m (current, k) = let (r, k1) = m k in (r, (current, k1))

  -- `iter().copied().collect::<HashSet<_>>()`.
  unfoldable pub collect : List Net → List Net
  collect networks = each set_insert networks []

  abbrev pub difference : List Net → List Net → List Net
  difference s t = filterb (λ n. not (has n t)) s

  unfoldable pub add_exceptions : List Net → M BackendError Guarded (Unit {0})
  add_exceptions [] = pure tt
  add_exceptions (n ∷ ns) = on_kernel (set_exception tools ipset n) >>= λ _.
      modify (λ s. (set_insert n s.0, s.1)) >>= λ _. add_exceptions ns

  unfoldable pub drop_exceptions : List Net → M BackendError Guarded (Unit {0})
  drop_exceptions [] = pure tt
  drop_exceptions (n ∷ ns) = on_kernel (remove_exception tools ipset n) >>= λ _.
      modify (λ s. (set_remove n s.0, s.1)) >>= λ _. drop_exceptions ns

  unfoldable pub change_exceptions : List Net → M BackendError Guarded (Unit {0})
  change_exceptions desired (current, k) =
      let rest : M BackendError Guarded (Unit {0}) = do
        add_exceptions (difference desired current)
        drop_exceptions (difference current desired)
      in rest (current, k)

  unfoldable pub set_exceptions : List Net → M BackendError Guarded (Unit {0})
  set_exceptions exceptions (current, k) =
      if ipset.firewall.observe_only
      then (ok tt, (collect exceptions, k))
      else change_exceptions (collect exceptions) (current, k)

  -- `reconcile` on a backend that enforces.
  unfoldable pub restore_all :
      List (BanTarget Net) → List Net → M BackendError Guarded ReconcileReport
  restore_all active exceptions = on_kernel ensure >>= λ _.
      on_kernel (restore_family ipset.config.v4_set "router_hub_stage4" true active exceptions)
      >>= λ v4.
          on_kernel (restore_family ipset.config.v6_set "router_hub_stage6" false active exceptions)
          >>= λ v6. modify (λ s. (collect exceptions, s.1)) >>= λ _.
              pure (record { restored_entries = v4 + v6; repaired = true })

  unfoldable pub reconcile :
      List (BanTarget Net) → List Net → M BackendError Guarded ReconcileReport
  reconcile active exceptions s =
      let observed : M BackendError Guarded ReconcileReport = on_kernel disable >>= λ _.
      pure (record { restored_entries = length active; repaired = false }) in
      if ipset.firewall.observe_only then observed s else restore_all active exceptions s

  unfoldable pub command_backend : BanBackend Net Guarded
  command_backend = record {
    ensure = on_kernel ensure;
    add = λ t. on_kernel (change_entry "add" t);
    remove = λ t. on_kernel (change_entry "del" t);
    set_exceptions = set_exceptions;
    reconcile = reconcile;
    disable = on_kernel disable;
  }
