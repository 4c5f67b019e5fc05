-- ===== src/BanAttack/IpSet/Backend/Excepted.antt =====
-- src/ban_attack/backend.rs: what ipset documents of the commands on an exception, and the two methods
-- that run them.
use mathlib.Core.Path.{subst}
use router_hub.Common.{
  String, ◌≡◌, refl, sym, ◌∙◌, Bool, true, false, not, ◌&&◌, ◌||◌, List, [], ◌∷◌, none, arith,
  Result, ok, err, ◌>>=◌, Ends, bind_rule, if-Ends, Ends-of_reply, if◌then◌else◌, ◌==◌, ==_refl,
  Bool-cases, inl, inr,
}
use router_hub.BanAttack.Net.{Externs, net_eq}
use router_hub.BanAttack.Backend.{BackendError, subnet}
use router_hub.BanAttack.IpSet.{
  Tools, CommandIpSet, Invocation, Output, simulated_output, Run, run_output, run_cmd, run_ipset,
  check_exit, is_too_long, set_for, test_args, test_exception, delete_entry, set_exception,
  remove_exception,
}

module _ {Net K : Type 0} ⦃o : Externs Net⦄ (held : Net → K → Bool) where
  -- The kernel's exceptions after one of the steps, and where it stops.
  abbrev pub Gains : Net → K → K → Type 0
  Gains n k k1 = (m : Net) → held m k1 ≡ (n == m || held m k)

  abbrev pub Grows : K → K → Type 0
  Grows k k1 = (m : Net) → held m k ≡ true → held m k1 ≡ true

  abbrev pub Loses : Net → K → K → Type 0
  Loses n k k1 = (m : Net) → held m k1 ≡ (not (n == m) && held m k)

  abbrev pub Spares : Net → K → K → Type 0
  Spares n k k1 = (m : Net) → (n == m) ≡ false → held m k ≡ true → held m k1 ≡ true

module _ {Net FilePath K : Type 0} ⦃o : Externs Net⦄ (tools : Tools Net FilePath K)
    (ipset : CommandIpSet FilePath) (held : Net → K → Bool) where
  -- The three commands on an exception.
  abbrev pub ipset_call : List String → Invocation FilePath
  ipset_call args = record { program = ipset.config.command; args = args; stdin = none }

  abbrev pub add_call : Net → Invocation FilePath
  add_call n =
      ipset_call (
        "-exist" ∷ "add" ∷ set_for tools ipset (subnet n) ∷ tools.entry (subnet n) ∷ "nomatch" ∷ [])

  abbrev pub test_call : Net → Invocation FilePath
  test_call n = ipset_call (test_args tools ipset n)

  abbrev pub delete_call : Net → Invocation FilePath
  delete_call n =
      ipset_call ("-exist" ∷ "del" ∷ set_for tools ipset (subnet n) ∷ tools.entry (subnet n) ∷ [])

  -- What ipset documents of these commands. A command that fails or times out may have been carried
  -- out.
  pub record ExceptionLaws : Type 0 where
    pub test_keeps : (n m : Net) (k : K) → held m (tools.execute (test_call n) k).1 ≡ held m k
    pub tested :
        (n : Net) (k : K) {out : Output}
        → (tools.execute (test_call n) k).0 ≡ ok out
        → out.success ≡ held n k
    pub added :
        (n : Net) (k : K) {out : Output}
        → (tools.execute (add_call n) k).0 ≡ ok out
        → out.success ≡ true
        → held n (tools.execute (add_call n) k).1 ≡ true
    pub add_keeps :
        (n : Net) (k : K) → held n k ≡ true → held n (tools.execute (add_call n) k).1 ≡ true
    pub add_others :
        (n m : Net) (k : K) → (n == m) ≡ false → held m (tools.execute (add_call n) k).1 ≡ held m k
    pub deleted :
        (n : Net) (k : K) {out : Output}
        → (tools.execute (delete_call n) k).0 ≡ ok out
        → out.success ≡ true
        → held n (tools.execute (delete_call n) k).1 ≡ false
    pub delete_others :
        (n m : Net) (k : K)
        → (n == m) ≡ false
        → held m (tools.execute (delete_call n) k).1 ≡ held m k

  module _ (laws : ExceptionLaws) (real : ipset.test_mode ≡ false) where
    -- Out of the test mode.
    in_earnest :
        {A : Type 0} (Q : A → K → Type 0) (R : K → Type 0) (x y : Result BackendError A × K)
        → Ends Q R y
        → Ends Q R (if ipset.test_mode then x else y)
    in_earnest Q R x y h =
        if-Ends Q R ipset.test_mode x y (λ t. absurd (ground (arith, t, real))) (λ _. h)

    -- An end of a run of one of the commands.
    run_output-Ends :
        (args : List String) (k : K) (Q : Output → K → Type 0) (R : K → Type 0)
        → ((out : Output)
            → (tools.execute (ipset_call args) k).0 ≡ ok out
            → Q out (tools.execute (ipset_call args) k).1)
        → R (tools.execute (ipset_call args) k).1
        → Ends Q R (run_output tools ipset ipset.config.command args none k)
    unfolding run_output is_too_long
    run_output-Ends args k Q R good bad =
        in_earnest Q R (ok simulated_output, k) (tools.execute (ipset_call args) k)
          (Ends-of_reply Q R (tools.execute (ipset_call args) k) good (λ _ _. bad))

    run_ipset-Ends :
        (args : List String) (k : K) (Q R : K → Type 0)
        → ((out : Output)
            → (tools.execute (ipset_call args) k).0 ≡ ok out
            → out.success ≡ true
            → Q (tools.execute (ipset_call args) k).1)
        → R (tools.execute (ipset_call args) k).1
        → Ends (λ _. Q) R (run_ipset tools ipset args k)
    unfolding run_ipset run_cmd
    run_ipset-Ends args k Q R good bad =
        let Checked : Output → K → Type 0 = λ out k1. (out.success ≡ true → Q k1) × R k1 in
        let command = ipset.config.command in
        let ran : Run tools ipset (Unit {0}) =
          run_output tools ipset command args none >>= check_exit tools ipset command in
        in_earnest (λ _. Q) R (ok tt, k) (ran k)
          (bind_rule (λ x. x ≡ k) Checked (λ _. Q) R (run_output tools ipset command args none)
            (check_exit tools ipset command)
            (λ x e. rw e (run_output-Ends args k Checked R (λ out done. (good out done, bad)) bad))
            (λ out k1 c.
              if-Ends (λ _. Q) R out.success (ok tt, k1) (err (tools.exited command out), k1) c.0
                (λ _. c.1))
            k refl)

    -- What holds of a network holds of any other, or it is the same.
    by_net : (n m : Net) (P : Net → Type 0) → P n → ((n == m) ≡ false → P m) → P m
    by_net n m P here there = elim (Bool-cases (n == m)) [
      | inl same ↦ subst P ((o.net_beq_iff n m).0 same) here
      | inr other ↦ there other
    ]

    add-Gains :
        (n : Net) (k : K)
        → held n (tools.execute (add_call n) k).1 ≡ true
        → Gains held n k (tools.execute (add_call n) k).1
    add-Gains n k here m =
        by_net n m (λ x. held x (tools.execute (add_call n) k).1 ≡ (n == x || held x k))
          (ground (arith, here, ==_refl n))
          (λ other. ground (arith, other, laws.add_others n m k other))

    -- A network that has been added is tested, which changes nothing.
    tested_after :
        (n : Net) (k k1 : K)
        → Gains held n k k1
        → Ends (λ _. Gains held n k) (Grows held k) (test_exception tools ipset n k1)
    tested_after n k k1 gains =
        let k2 = (tools.execute (test_call n) k1).1 in
        let kept : Gains held n k k2 = λ m. laws.test_keeps n m k1 ∙ gains m in
        let grown : Grows held k k2 = λ m old. ground (arith, kept m, old) in
        bind_rule (λ x. x ≡ k1) (λ _ x. Gains held n k x × Grows held k x) (λ _. Gains held n k)
          (Grows held k)
          (run_output tools ipset ipset.config.command (test_args tools ipset n) none) _
          (λ x e. rw e (
            run_output-Ends (test_args tools ipset n) k1 (λ _ x. Gains held n k x × Grows held k x)
              (Grows held k) (λ _ _. (kept, grown)) grown))
          (λ out x q.
            if-Ends (λ _. Gains held n k) (Grows held k) out.success (ok tt, x)
              (err (tools.conflict n), x) (λ _. q.0) (λ _. q.1))
          k1 refl

    pub set_exception-Ends :
        (n : Net) (k : K)
        → Ends (λ _. Gains held n k) (Grows held k) (set_exception tools ipset n k)
    unfolding set_exception
    set_exception-Ends n k =
        let test : Run tools ipset (Unit {0}) =
          λ k1. if ipset.test_mode then (ok tt, k1) else test_exception tools ipset n k1 in
        let after = (tools.execute (add_call n) k).1 in
        bind_rule (λ x. x ≡ k) (λ _. Gains held n k) (λ _. Gains held n k) (Grows held k)
          (run_ipset tools ipset (add_call n).args) (λ _. test)
          (λ x e. rw e (
            run_ipset-Ends (add_call n).args k (Gains held n k) (Grows held k)
              (λ out done good. add-Gains n k (laws.added n k done good))
              (λ m old.
                by_net n m (λ x. held x k ≡ true → held x after ≡ true) (laws.add_keeps n k)
                  (λ other h. laws.add_others n m k other ∙ h) old)))
          (λ _ k1 gains.
            in_earnest (λ _. Gains held n k) (Grows held k) (ok tt, k1)
              (test_exception tools ipset n k1) (tested_after n k k1 gains))
          k refl

    -- What a test of a network has shown.
    abbrev Looked : Net → K → Output → K → Type 0
    Looked n k out k1 = (out.success ≡ held n k) × ((m : Net) → held m k1 ≡ held m k)

    delete_rule :
        (n : Net) (k k1 : K)
        → ((m : Net) → held m k1 ≡ held m k)
        → Ends
            (λ _. Loses held n k)
            (Spares held n k)
            (run_ipset tools ipset (delete_call n).args k1)
    delete_rule n k k1 same =
        let after = (tools.execute (delete_call n) k1).1 in
        run_ipset-Ends (delete_call n).args k1 (Loses held n k) (Spares held n k)
          (λ out done good m.
            by_net n m (λ x. held x after ≡ (not (n == x) && held x k))
              (ground (arith, laws.deleted n k1 done good, ==_refl n))
              (λ other. ground (arith, other, laws.delete_others n m k1 other, same m)))
          (λ m other old. laws.delete_others n m k1 other ∙ same m ∙ old)

    not_there :
        (n : Net) (k k1 : K)
        → ((m : Net) → held m k1 ≡ held m k)
        → held n k ≡ false
        → Loses held n k k1
    not_there n k k1 same absent m =
        by_net n m (λ x. held x k1 ≡ (not (n == x) && held x k))
          (ground (arith, same n, absent, ==_refl n)) (λ other. ground (arith, same m, other))

    pub remove_exception-Ends :
        (n : Net) (k : K)
        → Ends (λ _. Loses held n k) (Spares held n k) (remove_exception tools ipset n k)
    unfolding remove_exception
    remove_exception-Ends n k =
        in_earnest (λ _. Loses held n k) (Spares held n k) (ok tt, k) (delete_entry tools ipset n k)
          (bind_rule (λ x. x ≡ k) (Looked n k) (λ _. Loses held n k) (Spares held n k)
            (run_output tools ipset ipset.config.command (test_args tools ipset n) none) _
            (λ x e. rw e (
              run_output-Ends (test_args tools ipset n) k (Looked n k) (Spares held n k)
                (λ out done. (laws.tested n k done, λ m. laws.test_keeps n m k))
                (λ m other old. laws.test_keeps n m k ∙ old)))
            (λ out x q.
              if-Ends (λ _. Loses held n k) (Spares held n k) out.success
                (run_ipset tools ipset (delete_call n).args x) (ok tt, x)
                (λ _. delete_rule n k x q.1) (λ absent. not_there n k x q.1 (sym q.0 ∙ absent)))
            k refl)
