-- ===== src/BanAttack/IpSet/Backend/Exceptions.antt =====
-- src/ban_attack/backend.rs: the set of exceptions that the backend keeps.
use router_hub.Common.{
  ◌≡◌, refl, ap, if-Ends, true, not, ◌&&◌, ◌||◌, List, [], ◌∷◌, has, set_insert, set_remove, arith,
  has-set_insert, has-set_remove, has-filterb, Result, ok, err, ◌>>=◌, modify, Ends, Triple,
  bind_rule, Ends-weaken,
}
use router_hub.BanAttack.Net.{Externs, net_eq}
use router_hub.BanAttack.Backend.{BackendError}
use router_hub.BanAttack.Aggregate.Persist.{each}
use router_hub.BanAttack.IpSet.{Tools, CommandIpSet, Run, set_exception, remove_exception}
use router_hub.BanAttack.IpSet.Backend.{
  Guarded, on_kernel, collect, difference, add_exceptions, drop_exceptions, change_exceptions,
  set_exceptions,
}

module _ {Net FilePath K : Type 0} ⦃o : Externs Net⦄ (tools : Tools Net FilePath K)
    (ipset : CommandIpSet FilePath) where
  abbrev World : Type 0
  World = Guarded tools ipset

  has-each : (n : Net) (xs s : List Net) → has n (each set_insert xs s) ≡ (has n xs || has n s)
  unfolding each has
  has-each n [] s = refl
  has-each n (x ∷ xs) s = ground (arith, has-each n xs (set_insert x s), has-set_insert x n s)

  pub has-collect : (n : Net) (xs : List Net) → has n (collect tools ipset xs) ≡ has n xs
  unfolding collect has
  has-collect n xs = ground (arith, has-each n xs [])

  -- The set is `s`.
  abbrev Is : List Net → World → Type 0
  Is s w = w.0 ≡ s

  on_kernel-Ends :
      {A : Type 0} (s : List Net) (r : Result BackendError A × K)
      → Ends (λ _. Is s) (Is s) (r.0, (s, r.1))
  on_kernel-Ends s (ok a, k) = refl
  on_kernel-Ends s (err x, k) = refl

  kernel_rule :
      {A : Type 0} (s : List Net) (m : Run tools ipset A)
      → Triple (Is s) (on_kernel tools ipset m) (λ _. Is s) (Is s)
  kernel_rule s m (t, k) e = rw e (on_kernel-Ends s (m k))

  -- The set has the listed networks and those of `s`; or it is between the two.
  abbrev Added : List Net → List Net → World → Type 0
  Added ns s w = (n : Net) → has n w.0 ≡ (has n ns || has n s)

  record Adding (ns s : List Net) (w : World) : Type 0 where
    keeps : (n : Net) → has n s ≡ true → has n w.0 ≡ true
    within : (n : Net) → has n w.0 ≡ true → (has n ns || has n s) ≡ true

  add_exceptions_rule :
      (ns s : List Net)
      → Triple (Is s) (add_exceptions tools ipset ns) (λ _. Added ns s) (Adding ns s)
  unfolding add_exceptions has
  add_exceptions_rule [] s = λ w e n. rw e refl
  add_exceptions_rule (n ∷ ns) s =
      bind_rule (Is s) (λ _. Is s) (λ _. Added (n ∷ ns) s) (Adding (n ∷ ns) s)
        (on_kernel tools ipset (set_exception tools ipset n))
        (λ _. modify (λ v. (set_insert n v.0, v.1)) >>= λ _. add_exceptions tools ipset ns)
        (λ w e.
          Ends-weaken (λ _. Is s) (Is s) (λ _. Is s) (Adding (n ∷ ns) s) _ (λ _ _ q. q)
            (λ v q. record { keeps = λ m h. rw q h; within = λ m h. ground (arith, rw q at h) })
            (kernel_rule s (set_exception tools ipset n) w e))
        (λ _ w e.
          Ends-weaken (λ _. Added ns (set_insert n s)) (Adding ns (set_insert n s))
            (λ _. Added (n ∷ ns) s) (Adding (n ∷ ns) s) _
            (λ _ v q m. ground (arith, q m, has-set_insert n m s))
            (λ v q. record {
              keeps = λ m h. q.keeps m (ground (arith, has-set_insert n m s, h));
              within = λ m h. ground (arith, q.within m h, has-set_insert n m s);
            })
            (add_exceptions_rule ns (set_insert n s) (set_insert n w.0, w.1) (ap (set_insert n) e)))

  -- The set has those of `s` that are not listed; or it is between the two.
  abbrev Dropped : List Net → List Net → World → Type 0
  Dropped ns s w = (n : Net) → has n w.0 ≡ (not (has n ns) && has n s)

  record Dropping (ns s : List Net) (w : World) : Type 0 where
    keeps : (n : Net) → (not (has n ns) && has n s) ≡ true → has n w.0 ≡ true
    within : (n : Net) → has n w.0 ≡ true → has n s ≡ true

  drop_exceptions_rule :
      (ns s : List Net)
      → Triple (Is s) (drop_exceptions tools ipset ns) (λ _. Dropped ns s) (Dropping ns s)
  unfolding drop_exceptions has
  drop_exceptions_rule [] s = λ w e n. rw e (ground arith)
  drop_exceptions_rule (n ∷ ns) s =
      bind_rule (Is s) (λ _. Is s) (λ _. Dropped (n ∷ ns) s) (Dropping (n ∷ ns) s)
        (on_kernel tools ipset (remove_exception tools ipset n))
        (λ _. modify (λ v. (set_remove n v.0, v.1)) >>= λ _. drop_exceptions tools ipset ns)
        (λ w e.
          Ends-weaken (λ _. Is s) (Is s) (λ _. Is s) (Dropping (n ∷ ns) s) _ (λ _ _ q. q)
            (λ v q. record {
              keeps = λ m h. ground (arith, ap (has m) q);
              within = λ m h. rw q at h;
            })
            (kernel_rule s (remove_exception tools ipset n) w e))
        (λ _ w e.
          Ends-weaken (λ _. Dropped ns (set_remove n s)) (Dropping ns (set_remove n s))
            (λ _. Dropped (n ∷ ns) s) (Dropping (n ∷ ns) s) _
            (λ _ v q m. ground (arith, q m, has-set_remove n m s))
            (λ v q. record {
              keeps = λ m h. q.keeps m (ground (arith, has-set_remove n m s, h));
              within = λ m h. ground (arith, q.within m h, has-set_remove n m s);
            })
            (drop_exceptions_rule ns (set_remove n s) (set_remove n w.0, w.1)
              (ap (set_remove n) e)))

  -- After an error the set keeps what it had and was to keep, and has nothing that it neither had nor
  -- was to get.
  pub record IsBetween (before wanted : List Net) (w : World) : Type 0 where
    pub keeps : (n : Net) → (has n before && has n wanted) ≡ true → has n w.0 ≡ true
    pub within : (n : Net) → has n w.0 ≡ true → (has n before || has n wanted) ≡ true

  -- Where `set_exceptions` ends well, the backend's set of exceptions has exactly the networks that it
  -- was given; wherever it stops for an error, the set still has every network that it had and was to
  -- keep, and none that it neither had nor was given.
  pub set_exceptions-IsBetween :
      (xs current : List Net) (k : K)
      → Ends
          (λ _ w. (n : Net) → has n w.0 ≡ has n xs)
          (IsBetween current xs)
          (set_exceptions tools ipset xs (current, k))
  unfolding set_exceptions change_exceptions
  set_exceptions-IsBetween xs current k =
      let wanted = collect tools ipset xs in
      let new = difference tools ipset wanted current in
      let old = difference tools ipset current wanted in
      let Exact : World → Type 0 = λ w. (n : Net) → has n w.0 ≡ has n xs in
      let in_new = has-filterb (λ n. not (has n current)) in
      let in_old = has-filterb (λ n. not (has n wanted)) in
      if-Ends (λ _. Exact) (IsBetween current xs) ipset.firewall.observe_only (ok tt, (wanted, k))
        (change_exceptions tools ipset wanted (current, k)) (λ _ n. has-collect n xs)
        (λ _.
          bind_rule (Is current) (λ _. Added new current) (λ _. Exact) (IsBetween current xs)
            (add_exceptions tools ipset new) (λ _. drop_exceptions tools ipset old)
            (λ w e.
              Ends-weaken (λ _. Added new current) (Adding new current) (λ _. Added new current)
                (IsBetween current xs) _ (λ _ _ q. q)
                (λ v q. record {
                  keeps = λ n h. q.keeps n (ground (arith, h));
                  within = λ n h. ground (arith, q.within n h, in_new n wanted, has-collect n xs);
                })
                (add_exceptions_rule new current w e))
            (λ _ w added.
              Ends-weaken (λ _. Dropped old w.0) (Dropping old w.0) (λ _. Exact)
                (IsBetween current xs) _
                (λ _ v q n.
                  ground (arith, q n, added n, in_new n wanted, in_old n current, has-collect n xs))
                (λ v q. record {
                  keeps = λ n h.
                      q.keeps n (ground (arith, h, added n, in_old n current, has-collect n xs));
                  within = λ n h.
                      ground (arith, q.within n h, added n, in_new n wanted, has-collect n xs);
                })
                (drop_exceptions_rule old w.0 w refl))
            (current, k) refl)
