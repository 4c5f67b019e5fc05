-- ===== src/BanAttack/IpSet/Backend/Staged.antt =====
-- src/ban_attack/backend.rs: `restore_family`, which fills a stage and swaps it with the live set.
use router_hub.Common.{
  ℕ, String, ◌≡◌, refl, ◌∙◌, ◌⊎◌, inl, inr, Bool, true, false, List, [], ◌∷◌, Option, none, some,
  string_eq, filterb, length, arith, ok, err, pure, ◌>>=◌, if◌then◌else◌, Ends, Triple, bind_rule,
  if-Ends, Ends-state, Ends-of_reply, Ends-weaken,
}
use router_hub.BanAttack.Net.{Externs}
use router_hub.BanAttack.Backend.{BanTarget, message}
use router_hub.BanAttack.IpSet.{
  Tools, CommandIpSet, Invocation, Output, Run, simulated_output, is_too_long, check_exit,
  run_output, run_cmd, run_ipset, create_args, restore_text, in_family, family_of,
}
use router_hub.BanAttack.IpSet.Backend.{
  destroy, restore_stage, restore_lines, swap_in, check_restore, restore_set, restore_family,
}

module _ {Net FilePath K : Type 0} ⦃o : Externs Net⦄ (tools : Tools Net FilePath K)
    (ipset : CommandIpSet FilePath) where
  abbrev pub ipset_call : List String → Option String → Invocation FilePath
  ipset_call args stdin = record { program = ipset.config.command; args = args; stdin = stdin }

  abbrev call_destroy : String → Invocation FilePath
  call_destroy stage = ipset_call ("destroy" ∷ stage ∷ []) none

  abbrev call_create : String → Bool → Invocation FilePath
  call_create stage v4 = ipset_call (create_args tools ipset stage (family_of v4)) none

  abbrev call_restore : String → List (String × Bool) → Invocation FilePath
  call_restore stage lines =
      ipset_call ("restore" ∷ "-exist" ∷ []) (some (restore_text tools ipset stage lines))

  abbrev call_swap : String → String → Invocation FilePath
  call_swap stage live = ipset_call ("swap" ∷ stage ∷ live ∷ []) none

  -- What `ipset` does to the sets `stage` and `live`: `content` is what a set holds, and `filled` what
  -- a new set holds after the entries are added. A swap takes place at once or not at all, whatever is
  -- heard of it.
  pub record IpsetLaws {C : Type 0} (content : String → K → C) (filled : List (String × Bool) → C)
      (live stage : String) : Type 0 where
    pub destroy_keeps :
        (k : K) → content live (tools.execute (call_destroy stage) k).1 ≡ content live k
    pub create_keeps :
        (v4 : Bool) (k : K)
        → content live (tools.execute (call_create stage v4) k).1 ≡ content live k
    pub created :
        (v4 : Bool) (k : K) (out : Output)
        → (tools.execute (call_create stage v4) k).0 ≡ ok out
        → out.success ≡ true
        → content stage (tools.execute (call_create stage v4) k).1 ≡ filled []
    pub restore_keeps :
        (lines : List (String × Bool)) (k : K)
        → content live (tools.execute (call_restore stage lines) k).1 ≡ content live k
    pub restored :
        (lines : List (String × Bool)) (k : K) (out : Output)
        → content stage k ≡ filled []
        → (tools.execute (call_restore stage lines) k).0 ≡ ok out
        → out.success ≡ true
        → content stage (tools.execute (call_restore stage lines) k).1 ≡ filled lines
    pub swapped_or_not :
        (k : K)
        → (content live (tools.execute (call_swap stage live) k).1 ≡ content live k)
          ⊎ (content live (tools.execute (call_swap stage live) k).1 ≡ content stage k)
    pub swapped :
        (k : K) (out : Output)
        → (tools.execute (call_swap stage live) k).0 ≡ ok out
        → out.success ≡ true
        → content live (tools.execute (call_swap stage live) k).1 ≡ content stage k

  module _ (enforced : ipset.test_mode ≡ false) where
    -- A run of a program is judged by what the program does.
    run_output-Ends :
        (Q : Output → K → Type 0) (R : K → Type 0) (program : FilePath) (args : List String)
        (stdin : Option String) (k : K)
        → R k
        → Ends Q R (tools.execute (record { program = program; args = args; stdin = stdin }) k)
        → Ends Q R (run_output tools ipset program args stdin k)
    unfolding run_output
    run_output-Ends Q R program args stdin k weak h =
        let call = tools.execute (record { program = program; args = args; stdin = stdin }) k in
        if-Ends Q R ipset.test_mode (ok simulated_output, k)
          (if is_too_long tools ipset stdin
            then (err (message "bounded command stdin exceeded"), k)
            else call)
          (λ test. absurd (ground (arith, test, enforced)))
          (λ _.
            if-Ends Q R (is_too_long tools ipset stdin)
              (err (message "bounded command stdin exceeded"), k) call (λ _. weak) (λ _. h))

    -- So is a command that must succeed.
    run_ipset-Ends :
        (Q R : K → Type 0) (args : List String) (k : K)
        → R k
        → Ends
            (λ out k'. (out.success ≡ true → Q k') × R k')
            R
            (tools.execute (ipset_call args none) k)
        → Ends (λ _. Q) R (run_ipset tools ipset args k)
    unfolding run_ipset run_cmd
    run_ipset-Ends Q R args k weak h =
        let Ran : Output → K → Type 0 = λ out k'. (out.success ≡ true → Q k') × R k' in
        let program = ipset.config.command in
        let ran : Run tools ipset (Unit {0}) =
          run_output tools ipset program args none >>= check_exit tools ipset program in
        if-Ends (λ _. Q) R ipset.test_mode (ok tt, k) (ran k)
          (λ test. absurd (ground (arith, test, enforced)))
          (λ _.
            bind_rule (λ x. x ≡ k) Ran (λ _. Q) R (run_output tools ipset program args none)
              (check_exit tools ipset program)
              (λ x e. rw e (run_output-Ends Ran R program args none k weak h))
              (λ out x done.
                if-Ends (λ _. Q) R out.success (ok tt, x) (err (tools.exited program out), x)
                  (λ good. done.0 good) (λ _. done.1))
              k refl)

    module _ {C : Type 0} {content : String → K → C} {filled : List (String × Bool) → C}
        (live stage : String) (laws : IpsetLaws content filled live stage) (before : C)
        (lines : List (String × Bool)) where
      abbrev Old : K → Type 0
      Old k = content live k ≡ before

      abbrev New : K → Type 0
      New k = content live k ≡ filled lines

      abbrev Either : K → Type 0
      Either k = Old k ⊎ New k

      -- The live set is the old one, and the stage is as the lines say.
      abbrev StagedWith : List (String × Bool) → K → Type 0
      StagedWith ls k = Old k × (content stage k ≡ filled ls)

      destroy_rule : Triple Old (destroy tools ipset stage) (λ _. Old) Old
      destroy_rule k p =
          let keeps = laws.destroy_keeps k ∙ p in
          run_output-Ends (λ _. Old) Old _ _ none k p
            (Ends-of_reply (λ _. Old) Old _ (λ _ _. keeps) (λ _ _. keeps))

      create_rule :
          (v4 : Bool)
          → Triple Old
              (run_ipset tools ipset (create_args tools ipset stage (family_of v4)))
              (λ _. StagedWith [])
              Either
      create_rule v4 k p =
          let keeps = laws.create_keeps v4 k ∙ p in
          run_ipset-Ends (StagedWith []) Either _ k (inl p) (
            Ends-of_reply (λ out k'. (out.success ≡ true → StagedWith [] k') × Either k') Either _
              (λ out e. ((λ good. (keeps, laws.created v4 k out e good)), inl keeps))
              (λ _ _. inl keeps))

      -- What the restore has done, by its exit.
      abbrev Restored : Output → K → Type 0
      Restored out k = (out.success ≡ true → StagedWith lines k) × Old k

      restore_rule : Triple (StagedWith []) (restore_stage tools ipset stage lines) Restored Either
      restore_rule k p =
          let keeps = laws.restore_keeps lines k ∙ p.0 in
          run_output-Ends Restored Either _ _ _ k (inl p.0) (
            Ends-of_reply Restored Either _
              (λ out e. ((λ good. (keeps, laws.restored lines k out p.1 e good)), keeps))
              (λ _ _. inl keeps))

      swap_rule :
          Triple
            (StagedWith lines)
            (run_ipset tools ipset ("swap" ∷ stage ∷ live ∷ []))
            (λ _. New)
            Either
      swap_rule k p =
          let either : Either (tools.execute (call_swap stage live) k).1 =
            elim (laws.swapped_or_not k) [
              | inl kept ↦ inl (kept ∙ p.0)
              | inr moved ↦ inr (moved ∙ p.1)
            ] in
          run_ipset-Ends New Either _ k (inl p.0) (
            Ends-of_reply (λ out k'. (out.success ≡ true → New k') × Either k') Either _
              (λ out e. ((λ good. laws.swapped k out e good ∙ p.1), either)) (λ _ _. either))

      drop_rule : Triple New (run_ipset tools ipset ("destroy" ∷ stage ∷ [])) (λ _. New) Either
      drop_rule k p =
          let keeps = laws.destroy_keeps k ∙ p in
          run_ipset-Ends New Either _ k (inr p) (
            Ends-of_reply (λ out k'. (out.success ≡ true → New k') × Either k') Either _
              (λ _ _. ((λ _. keeps), inr keeps)) (λ _ _. inr keeps))

      -- The result counts the targets, and the live set holds the lines.
      abbrev Swapped : ℕ → ℕ → K → Type 0
      Swapped count n k = (n ≡ count) × New k

      swap_in_rule :
          (count : ℕ)
          → Triple (StagedWith lines) (swap_in tools ipset live stage count) (Swapped count) Either
      unfolding swap_in
      swap_in_rule count =
          bind_rule (StagedWith lines) (λ _. New) (Swapped count) Either
            (run_ipset tools ipset ("swap" ∷ stage ∷ live ∷ [])) _ swap_rule
            (λ _.
              bind_rule New (λ _. New) (Swapped count) Either
                (run_ipset tools ipset ("destroy" ∷ stage ∷ [])) (λ _. pure count) drop_rule
                (λ _ k p. (refl, p)))

      check_rule :
          (count : ℕ) (out : Output)
          → Triple
              (Restored out)
              (check_restore tools ipset live stage count out)
              (Swapped count)
              Either
      unfolding check_restore
      check_rule count out k p =
          if-Ends (Swapped count) Either out.success (swap_in tools ipset live stage count k)
            (err (tools.restore_failed live out), (destroy tools ipset stage k).1)
            (λ good. swap_in_rule count k (p.0 good))
            (λ _. inl (Ends-state Old _ (destroy_rule k p.1)))

    -- On a backend that runs its commands, wherever `restore_family` stops, and whatever its commands
    -- answer, time-outs included, the live set is whole: it holds what it held before, or exactly the
    -- entries of the family, bans and exceptions; where it ends well, it holds these entries, and the
    -- result is the number of the bans among them. The stage is another set, and `ipset` swaps two
    -- sets at once or not at all.
    pub restore_family-IsWhole :
        {C : Type 0} {content : String → K → C} {filled : List (String × Bool) → C}
        (live stage : String) (v4 : Bool) (active : List (BanTarget Net)) (exceptions : List Net)
        (k : K)
        → IpsetLaws content filled live stage
        → let lines = restore_lines tools ipset v4 active exceptions in
          Ends
            (λ n k'.
              (n ≡ length (filterb (in_family tools ipset v4) active))
              × (content live k' ≡ filled lines))
            (λ k'. (content live k' ≡ content live k) ⊎ (content live k' ≡ filled lines))
            (restore_family tools ipset live stage v4 active exceptions k)
    unfolding restore_family restore_set
    restore_family-IsWhole {C} {content} {filled} live stage v4 active exceptions k laws =
        let lines = restore_lines tools ipset v4 active exceptions in
        let count = length (filterb (in_family tools ipset v4) active) in
        let Old : K → Type 0 = λ k'. content live k' ≡ content live k in
        let Whole : K → Type 0 = λ k'. Old k' ⊎ (content live k' ≡ filled lines) in
        let Empty : K → Type 0 = λ k'. Old k' × (content stage k' ≡ filled []) in
        let Filled : Output → K → Type 0 =
          λ out k'. (out.success ≡ true → Old k' × (content stage k' ≡ filled lines)) × Old k' in
        let Done : ℕ → K → Type 0 = λ n k'. (n ≡ count) × (content live k' ≡ filled lines) in
        let create = run_ipset tools ipset (create_args tools ipset stage (family_of v4)) in
        let check = check_restore tools ipset live stage count in
        let fill = restore_stage tools ipset stage lines >>= check in
        if-Ends Done Whole ipset.test_mode (ok count, k)
          (restore_set tools ipset live stage v4 active exceptions k)
          (λ test. absurd (ground (arith, test, enforced)))
          (λ _.
            bind_rule Old (λ _. Old) Done Whole (destroy tools ipset stage)
              (λ _. create >>= λ _. fill)
              (λ x p.
                Ends-weaken (λ _. Old) Old (λ _. Old) Whole _ (λ _ _ q. q) (λ _ q. inl q)
                  (destroy_rule live stage laws (content live k) lines x p))
              (λ _.
                bind_rule Old (λ _. Empty) Done Whole create (λ _. fill)
                  (create_rule live stage laws (content live k) lines v4)
                  (λ _.
                    bind_rule Empty Filled Done Whole (restore_stage tools ipset stage lines) check
                      (restore_rule live stage laws (content live k) lines)
                      (check_rule live stage laws (content live k) lines count)))
              k refl)
