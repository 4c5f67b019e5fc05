-- ===== src/BanAttack/Aggregate/Evict.antt =====
-- src/ban_attack/aggregate.rs: what makes room when a table is full.
use router_hub.Common.{
  ℕ, zero, suc, ◌+◌, Bool, true, false, List, [], ◌∷◌, ◌++◌, map, Option, none, some, leb, ltb,
  if◌then◌else◌, Map, get, contains_key, insert, remove, retain, filterb, keys, sat_add64, length,
  min_by, latest, opt_lt,
}
use router_hub.BanAttack.Net.{IpAddr, Externs, ip_eq, net_eq}
use router_hub.BanAttack.Aggregate.State.{Aggregator}
use router_hub.BanAttack.Aggregate.Counts.{is_nonempty}

abbrev pub seen_lt : IpAddr × ℕ → IpAddr × ℕ → Bool
seen_lt x y = ltb x.1 y.1

module _ {Net : Type 0} ⦃o : Externs Net⦄ where
  unfoldable pub evict_ip : IpAddr → Aggregator Net → Aggregator Net
  evict_ip a g = record g {
    ip_counts = remove a g.ip_counts;
    last_seen = remove a g.last_seen;
    eviction_count = sat_add64 g.eviction_count 1;
  }

  -- The loop of `make_room_for_ip`, with `evicted` as its accumulator. Each round that goes on
  -- takes an entry out of `last_seen`.
  unfoldable pub evict_oldest : ℕ → Bool → Aggregator Net → Aggregator Net × Bool
  evict_oldest zero evicted g = (g, evicted)
  evict_oldest (suc fuel) evicted g =
      if leb g.config.max_tracked_ips (length g.ip_counts)
      then elim (min_by seen_lt g.last_seen) [
        | none ↦ (g, evicted)
        | some oldest ↦ evict_oldest fuel true (evict_ip oldest.0 g)
      ]
      else (g, evicted)

  unfoldable pub make_room_for_ip : IpAddr → Aggregator Net → Aggregator Net × Bool
  make_room_for_ip a g =
      if contains_key a g.ip_counts
      then (g, false)
      else evict_oldest (suc (length g.last_seen)) false g

  -- The last time that an address of the subnet was seen.
  unfoldable pub subnet_seen : Map IpAddr ℕ → Net → Option ℕ
  subnet_seen last_seen n = latest (map (λ x. x.1) (filterb (λ x. o.contains n x.0) last_seen))

  unfoldable pub evict_ips : List IpAddr → Aggregator Net → Aggregator Net
  evict_ips [] g = g
  evict_ips (a ∷ rest) g = evict_ips rest (evict_ip a g)

  unfoldable pub evict_subnet : Net → Aggregator Net → Aggregator Net
  evict_subnet n g =
      let g' = evict_ips (filterb (λ a. o.contains n a) (keys g.ip_counts)) g in
      record g' {
        subnet_counts = remove n g'.subnet_counts;
        subnet_offenders = remove n g'.subnet_offenders;
      }

  unfoldable pub make_room_for_subnet : Net → Aggregator Net → Aggregator Net
  make_room_for_subnet n g =
      if contains_key n g.subnet_counts
      then g
      else if ltb (length g.subnet_counts) g.config.max_tracked_subnets
      then g
      else elim (min_by (λ x y. opt_lt (subnet_seen g.last_seen x) (subnet_seen g.last_seen y))
          (keys g.subnet_counts)) [ none ↦ g | some oldest ↦ evict_subnet oldest g ]

  -- `values().map(HashMap::len).sum()`.
  unfoldable pub offender_total : Map Net (Map IpAddr ℕ) → ℕ
  offender_total [] = 0
  offender_total ((n, m) ∷ rest) = length m + offender_total rest

  unfoldable pub offender_entries : Map Net (Map IpAddr ℕ) → List (Net × IpAddr × ℕ)
  offender_entries [] = []
  offender_entries ((n, m) ∷ rest) = map (λ x. (n, x.0, x.1)) m ++ offender_entries rest

  -- `get_mut(network)`, the removal, and the removal of a map that became empty.
  unfoldable pub remove_offender : Net → IpAddr → Map Net (Map IpAddr ℕ) → Map Net (Map IpAddr ℕ)
  remove_offender n a m = elim (get n m) [
    | none ↦ m
    | some offenders ↦
        let left = remove a offenders in if is_nonempty left then insert n left m else remove n m
  ]

  unfoldable pub evict_offender : Aggregator Net → Aggregator Net
  evict_offender g =
      if leb g.config.max_tracked_ips (offender_total g.subnet_offenders)
      then elim (min_by (λ x y. ltb x.2 y.2) (offender_entries g.subnet_offenders)) [
        | none ↦ g
        | some oldest ↦ record g {
          subnet_offenders = remove_offender oldest.0 oldest.1 g.subnet_offenders;
          eviction_count = sat_add64 g.eviction_count 1;
        }
      ]
      else g

  -- `get(subnet)`, or the map that `or_default` puts there.
  abbrev pub offenders_of : Net → Map Net (Map IpAddr ℕ) → Map IpAddr ℕ
  offenders_of n m = elim (get n m) [ none ↦ [] | some offenders ↦ offenders ]

  unfoldable pub record_subnet_offender : Net → IpAddr → ℕ → Aggregator Net → Aggregator Net
  record_subnet_offender n a now g =
      let already_tracked = contains_key a (offenders_of n g.subnet_offenders) in
      let g' = if already_tracked then g else evict_offender g in
      let window = o.seconds g.config.subnet_promotion_window_seconds in
      let recent = retain (λ _ t. ltb now (t + window)) (offenders_of n g'.subnet_offenders) in
      record g' { subnet_offenders = insert n (insert a now recent) g'.subnet_offenders }

  -- The loop of `trim_reputation`. Each round takes an entry out.
  unfoldable pub trim_oldest : ℕ → Aggregator Net → Aggregator Net
  trim_oldest zero g = g
  trim_oldest (suc fuel) g =
      if ltb g.config.max_reputation_entries (length g.reputation)
      then elim (min_by (λ x y. ltb x.1.last_banned_at y.1.last_banned_at) g.reputation) [
        | none ↦ g
        | some oldest ↦ trim_oldest fuel (record g {
          reputation = remove oldest.0 g.reputation;
          eviction_count = sat_add64 g.eviction_count 1;
        })
      ]
      else g

  unfoldable pub trim_reputation : Aggregator Net → Aggregator Net
  trim_reputation g = trim_oldest (suc (length g.reputation)) g
