-- ===== src/BanAttack/Aggregate/Counts.antt =====
-- src/ban_attack/aggregate.rs: the scores of addresses and subnets, and the retention of both.
use router_hub.Common.{
  ℕ, ◌+◌, Bool, true, false, not, ◌&&◌, List, [], ◌∷◌, none, some, leb, ltb, if◌then◌else◌, Map,
  get, insert, remove, retain, sat_add64,
}
use router_hub.BanAttack.Net.{IpAddr, Externs, ip_eq, net_eq}
use router_hub.BanAttack.Config.{AggregationConfig}
use router_hub.BanAttack.Backend.{BanTarget, ip, subnet}
use router_hub.BanAttack.Aggregate.State.{Aggregator, subnet_for, is_exception, is_network_covered}
use router_hub.Common.{Eq}

-- `entry(k).and_modify(|c| *c = c.saturating_add(w)).or_insert(w)`.
unfoldable pub bump : {K : Type 0} ⦃e : Eq K⦄ → K → ℕ → Map K ℕ → Map K ℕ
bump k w m = elim (get k m) [ none ↦ insert k w m | some c ↦ insert k (sat_add64 c w) m ]

-- `get(k).copied().unwrap_or_default()`.
unfoldable pub count_of : {K : Type 0} ⦃e : Eq K⦄ → K → Map K ℕ → ℕ
count_of k m = elim (get k m) [ none ↦ 0 | some c ↦ c ]

-- `!offenders.is_empty()`.
abbrev pub is_nonempty {ℓ} : {A : Type ℓ} → List A → Bool
is_nonempty [] = false
is_nonempty (x ∷ xs) = true

-- `subnet_offenders.retain`, where the closure prunes each inner map before it tests it.
unfoldable pub retain_offenders :
    {Net : Type 0}
    → (Net → Bool)
    → (IpAddr → ℕ → Bool)
    → Map Net (Map IpAddr ℕ)
    → Map Net (Map IpAddr ℕ)
retain_offenders outer inner [] = []
retain_offenders outer inner ((n, m) ∷ rest) =
    let more = retain_offenders outer inner rest in
    let pruned = retain inner m in
    if outer n && is_nonempty pruned then (n, pruned) ∷ more else more

module _ {Net : Type 0} ⦃o : Externs Net⦄ where
  unfoldable pub add_counts : AggregationConfig → Map IpAddr ℕ → Map Net ℕ → Map Net ℕ
  add_counts c [] acc = acc
  add_counts c ((a, w) ∷ m) acc = add_counts c m (bump (subnet_for c a) w acc)

  unfoldable pub rebuild_subnet_counts : Aggregator Net → Aggregator Net
  rebuild_subnet_counts g = record g { subnet_counts = add_counts g.config g.ip_counts [] }

  unfoldable pub reconfigure : AggregationConfig → Aggregator Net → Aggregator Net
  reconfigure c g = rebuild_subnet_counts (record g { config = c })

  -- `last_seen + Duration::seconds(score_retention_seconds) <= now`.
  unfoldable pub is_stale : Aggregator Net → ℕ → ℕ → Bool
  is_stale g now seen = leb (seen + o.seconds g.config.score_retention_seconds) now

  unfoldable pub seen_is_fresh : Aggregator Net → ℕ → IpAddr → Bool
  seen_is_fresh g now a = elim (get a g.last_seen) [
    | none ↦ false
    | some seen ↦ not (is_stale g now seen)
  ]

  -- The part of `apply_exceptions` after the bans are lifted.
  unfoldable pub forget_exceptions : List Net → Aggregator Net → Aggregator Net
  forget_exceptions exceptions g = rebuild_subnet_counts (record g {
    ip_counts = retain (λ a _. not (is_exception a exceptions)) g.ip_counts;
    last_seen = retain (λ a _. not (is_exception a exceptions)) g.last_seen;
    reputation = retain (λ n _. not (is_network_covered n exceptions)) g.reputation;
    subnet_offenders =
        retain_offenders (λ n. not (is_network_covered n exceptions))
          (λ a _. not (is_exception a exceptions)) g.subnet_offenders;
  })

  -- The part of `cleanup_expired` after the bans are lifted. `crossed_at > now - window` is
  -- written with the window on the other side.
  unfoldable pub forget_expired : ℕ → Aggregator Net → Aggregator Net
  forget_expired now g = rebuild_subnet_counts (record g {
    ip_counts = retain (λ a _. seen_is_fresh g now a) g.ip_counts;
    last_seen = retain (λ _ seen. not (is_stale g now seen)) g.last_seen;
    reputation = retain (λ _ e. ltb now e.retain_until) g.reputation;
    subnet_offenders =
        retain_offenders (λ _. true)
          (λ _ t. ltb now (t + o.seconds g.config.subnet_promotion_window_seconds))
          g.subnet_offenders;
  })

  -- `for offenders in subnet_offenders.values_mut() { offenders.remove(ip) }`.
  unfoldable pub drop_offender : IpAddr → Map Net (Map IpAddr ℕ) → Map Net (Map IpAddr ℕ)
  drop_offender a [] = []
  drop_offender a ((n, m) ∷ rest) = (n, remove a m) ∷ drop_offender a rest

  unfoldable pub reset_counts : BanTarget Net → Aggregator Net → Aggregator Net
  reset_counts (ip a) g = rebuild_subnet_counts (record g {
    ip_counts = remove a g.ip_counts;
    last_seen = remove a g.last_seen;
    reputation = remove (o.from_ip a) g.reputation;
    subnet_offenders = drop_offender a g.subnet_offenders;
  })
  reset_counts (subnet n) g = rebuild_subnet_counts (record g {
    ip_counts = retain (λ a _. not (o.contains n a)) g.ip_counts;
    last_seen = retain (λ a _. not (o.contains n a)) g.last_seen;
    reputation = retain (λ m _. not (o.contains n (o.addr m))) g.reputation;
    subnet_offenders = retain (λ m _. not (o.contains n (o.addr m))) g.subnet_offenders;
  })
