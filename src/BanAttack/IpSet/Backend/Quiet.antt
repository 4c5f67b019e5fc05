-- ===== src/BanAttack/IpSet/Backend/Quiet.antt =====
-- src/ban_attack/backend.rs: the backend that only observes.
use router_hub.Common.{
  Result, String, ◌≡◌, Bool, true, false, not, List, ◌∷◌, none, string_eq, if◌then◌else◌, length,
  arith, ok, err, ◌>>=◌, pure, Ends, Triple, bind_rule, if-Ends, Ends-state, Ends-of_state,
}
use router_hub.BanAttack.Net.{Externs}
use router_hub.BanAttack.Backend.{BanTarget, BackendError, ReconcileReport}
use router_hub.BanAttack.IpSet.{
  Tools, CommandIpSet, Invocation, Run, simulated_output, is_too_long, check_exit, run_output,
  run_cmd, command_succeeds, run_if, remove_hook, hook_rule, input_chain, forward_chain,
}
use router_hub.BanAttack.IpSet.Backend.{
  Guarded, on_kernel, ensure, change_entry, disable, set_exceptions, reconcile, command_backend,
}

-- The run of one of the two programs that asks for the backend's own hook in one of the two parent
-- chains, or deletes it.
abbrev pub hook_call :
    {FilePath : Type 0} → CommandIpSet FilePath → Bool → Bool → Bool → Invocation FilePath
hook_call ipset delete v6 forward = record {
  program = if v6 then ipset.firewall.ip6tables_command else ipset.firewall.iptables_command;
  args =
      (if delete then "-D" else "-C")
      ∷ (if forward then "FORWARD" else "INPUT")
      ∷ hook_rule (if forward then forward_chain else input_chain);
  stdin = none;
}

if_observed :
    {A : Type 0} (Q : A → Type 0) (c : Bool) (x y : A) → c ≡ true → Q x → Q (if c then x else y)
if_observed Q true x y h q = q
if_observed Q false x y h q = absurd (ground arith)

module _ {Net FilePath K : Type 0} ⦃o : Externs Net⦄ (tools : Tools Net FilePath K)
    (ipset : CommandIpSet FilePath) (P : K → Type 0)
    (harmless : (delete v6 forward : Bool) (k : K)
      → P k
      → P (tools.execute (hook_call ipset delete v6 forward) k).1) where
  abbrev IsHarmless : FilePath → List String → Type 0
  IsHarmless program args =
      (k : K)
      → P k
      → P (tools.execute (record { program = program; args = args; stdin = none }) k).1

  abbrev Keeps : {A : Type 0} → Run tools ipset A → Type 0
  Keeps m = Triple P m (λ _. P) P

  run_output-Keeps :
      (program : FilePath) (args : List String)
      → IsHarmless program args
      → Keeps (run_output tools ipset program args none)
  unfolding run_output is_too_long
  run_output-Keeps program args quiet k p =
      let call = tools.execute (record { program = program; args = args; stdin = none }) k in
      if-Ends (λ _. P) P ipset.test_mode (ok simulated_output, k) call (λ _. p)
        (λ _. Ends-of_state P call (quiet k p))

  run_cmd-Keeps :
      (program : FilePath) (args : List String)
      → IsHarmless program args
      → Keeps (run_cmd tools ipset program args)
  unfolding run_cmd
  run_cmd-Keeps program args quiet k p =
      let ran : Run tools ipset (Unit {0}) =
        run_output tools ipset program args none >>= check_exit tools ipset program in
      if-Ends (λ _. P) P ipset.test_mode (ok tt, k) (ran k) (λ _. p)
        (λ _.
          bind_rule P (λ _. P) (λ _. P) P (run_output tools ipset program args none)
            (check_exit tools ipset program) (run_output-Keeps program args quiet)
            (λ out x q.
              if-Ends (λ _. P) P out.success (ok tt, x) (err (tools.exited program out), x) (λ _. q)
                (λ _. q))
            k p)

  run_if-Keeps :
      (wanted : Bool) (program : FilePath) (check args : List String)
      → IsHarmless program check
      → IsHarmless program args
      → Keeps (run_if tools ipset wanted program check args)
  unfolding run_if command_succeeds
  run_if-Keeps wanted program check args asks deletes =
      bind_rule P (λ _. P) (λ _. P) P (command_succeeds tools ipset program check) _
        (bind_rule P (λ _. P) (λ _. P) P (run_output tools ipset program check none)
          (λ out. pure out.success) (run_output-Keeps program check asks) (λ _ _ q. q))
        (λ found k q.
          if-Ends (λ _. P) P (if wanted then found else not found)
            (run_cmd tools ipset program args k) (ok tt, k)
            (λ _. run_cmd-Keeps program args deletes k q) (λ _. q))

  remove_hook-Keeps :
      (v6 forward : Bool)
      → Keeps (
          remove_hook tools ipset
            (if v6 then ipset.firewall.ip6tables_command else ipset.firewall.iptables_command)
            (if forward then "FORWARD" else "INPUT")
            (if forward then forward_chain else input_chain))
  unfolding remove_hook
  remove_hook-Keeps v6 forward k p =
      let check = hook_call ipset false v6 forward in
      let delete = hook_call ipset true v6 forward in
      if-Ends (λ _. P) P ipset.test_mode (ok tt, k)
        (run_if tools ipset true check.program check.args delete.args k) (λ _. p)
        (λ _.
          run_if-Keeps true check.program check.args delete.args (harmless false v6 forward)
            (harmless true v6 forward) k p)

  disable-Keeps : Keeps (disable tools ipset)
  unfolding disable
  disable-Keeps =
      let v4 = ipset.firewall.iptables_command in
      let v6 = ipset.firewall.ip6tables_command in
      bind_rule P (λ _. P) (λ _. P) P (remove_hook tools ipset v4 "INPUT" input_chain) _
        (remove_hook-Keeps false false)
        (λ _.
          bind_rule P (λ _. P) (λ _. P) P (remove_hook tools ipset v6 "INPUT" input_chain) _
            (remove_hook-Keeps true false)
            (λ _.
              bind_rule P (λ _. P) (λ _. P) P (remove_hook tools ipset v4 "FORWARD" forward_chain)
                (λ _. remove_hook tools ipset v6 "FORWARD" forward_chain)
                (remove_hook-Keeps false true) (λ _. remove_hook-Keeps true true)))

  abbrev Kept : Guarded tools ipset → Type 0
  Kept g = P g.1

  on_kernel-Ends :
      {A : Type 0} (current : List Net) (r : Result BackendError A × K)
      → Ends (λ _. P) P r
      → Ends (λ _. Kept) Kept (r.0, (current, r.1))
  on_kernel-Ends current (ok a, k) h = h
  on_kernel-Ends current (err x, k) h = h

  abbrev AfterRun : {A : Type 0} → Result BackendError A × K → Type 0
  AfterRun r = P r.1

  abbrev AfterCall : {A : Type 0} → Result BackendError A × Guarded tools ipset → Type 0
  AfterCall r = P r.1.1

  -- What holds of the kernel after every method of the backend.
  pub record HoldsAfter (s : List Net × K) : Type 0 where
    pub ensure : P ((command_backend tools ipset).ensure s).1.1
    pub add : (t : BanTarget Net) → P ((command_backend tools ipset).add t s).1.1
    pub remove : (t : BanTarget Net) → P ((command_backend tools ipset).remove t s).1.1
    pub set_exceptions : (xs : List Net) → P ((command_backend tools ipset).set_exceptions xs s).1.1
    pub reconcile :
        (ts : List (BanTarget Net)) (xs : List Net)
        → P ((command_backend tools ipset).reconcile ts xs s).1.1
    pub disable : P ((command_backend tools ipset).disable s).1.1

  -- In observe mode no method of the backend changes the firewall but by deleting its own two hooks:
  -- what holds of the kernel, and outlasts a question for these hooks and their deletion, by either
  -- program, holds after every method, failures included.
  pub command_backend-HoldsAfter :
      (s : List Net × K) → ipset.firewall.observe_only ≡ true → P s.1 → HoldsAfter s
  unfolding command_backend ensure change_entry set_exceptions reconcile
  command_backend-HoldsAfter (current, k) observes p = record {
    ensure = if_observed (AfterRun {A = Unit {0}}) _ _ _ observes p;
    add = λ t. if_observed (AfterRun {A = Unit {0}}) _ _ _ observes p;
    remove = λ t. if_observed (AfterRun {A = Unit {0}}) _ _ _ observes p;
    set_exceptions = λ xs. if_observed (AfterCall {A = Unit {0}}) _ _ _ observes p;
    reconcile = λ ts xs. if_observed (AfterCall {A = ReconcileReport}) _ _ _ observes (
        Ends-state Kept _ (
          bind_rule Kept (λ _. Kept) (λ _. Kept) Kept (on_kernel tools ipset (disable tools ipset))
            (λ _. pure (record { restored_entries = length ts; repaired = false }))
            (λ g q. on_kernel-Ends g.0 _ (disable-Keeps g.1 q)) (λ _ _ q. q) (current, k) p));
    disable = Ends-state P _ (disable-Keeps k p);
  }
