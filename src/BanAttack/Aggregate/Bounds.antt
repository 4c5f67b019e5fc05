-- ===== src/BanAttack/Aggregate/Bounds.antt =====
-- src/ban_attack/aggregate.rs: the loops that evict, and the durations of bans.
use router_hub.Common.{
  ℕ, zero, suc, ◌≤◌, ◌<◌, ◌≡◌, refl, Bool, true, false, [], ◌∷◌, arith, leb, ltb, Map, contains_key,
  remove, length, min_by, min_by-In, min_by-eq-none, contains_key-In, sat_add64, ap, Bool-cases,
  Option-cases, inl, inr, length-remove-lt, contains_key-remove, ==_refl,
}
use router_hub.BanAttack.Net.{IpAddr, Externs, ip_eq, net_eq}
use router_hub.BanAttack.Aggregate.State.{Aggregator, ReputationEntry}
use router_hub.BanAttack.Aggregate.Evict.{
  seen_lt, evict_ip, evict_oldest, make_room_for_ip, trim_oldest, trim_reputation,
}

empty_of_keys :
    (m : Map IpAddr ℕ) (seen : Map IpAddr ℕ)
    → ((a : IpAddr) → contains_key a m ≡ true → contains_key a seen ≡ true)
    → seen ≡ []
    → length m ≡ 0
unfolding contains_key
empty_of_keys [] seen h e = refl
empty_of_keys (x ∷ m) seen h e =
    let here = h x.0 (ground (arith, ==_refl x.0)) in absurd (cc (rw e at here))

abbrev older : {Net : Type 0} → Net × ReputationEntry Net → Net × ReputationEntry Net → Bool
older x y = ltb x.1.last_banned_at y.1.last_banned_at

module _ {Net : Type 0} ⦃o : Externs Net⦄ where
  evicted_config :
      (a : IpAddr) (g : Aggregator Net)
      → 0 < g.config.max_tracked_ips
      → 0 < (evict_ip a g).config.max_tracked_ips
  unfolding evict_ip
  evicted_config a g p = p

  evicted_length :
      (a : IpAddr) (g : Aggregator Net) (fuel : ℕ)
      → length (remove a g.last_seen) < length g.last_seen
      → length g.last_seen < suc fuel
      → length (evict_ip a g).last_seen < fuel
  unfolding evict_ip
  evicted_length a g fuel less h = omega arith

  trim_oldest-le :
      (fuel : ℕ) (g : Aggregator Net)
      → length g.reputation < fuel
      → length (trim_oldest fuel g).reputation ≤ g.config.max_reputation_entries
  unfolding trim_oldest
  trim_oldest-le zero g h = absurd (omega arith)
  trim_oldest-le (suc fuel) g h =
      elim (Bool-cases (ltb g.config.max_reputation_entries (length g.reputation))) [
        | inr room ↦ rw (room, trim_oldest) (ground arith)
        | inl full ↦ elim (Option-cases (min_by older g.reputation)) [
          | inl empty ↦
              let bare = ap length (min_by-eq-none older g.reputation empty) in
              rw (full, empty, trim_oldest) (ground arith)
          | inr (x, found) ↦
              let less =
                length-remove-lt x.0 g.reputation
                  (contains_key-In g.reputation x (min_by-In older g.reputation found)) in
              rw (full, found, trim_oldest)
                (trim_oldest-le fuel
                  (record g {
                    reputation = remove x.0 g.reputation;
                    eviction_count = sat_add64 g.eviction_count 1;
                  })
                  (omega arith))
        ]
      ]

  -- The loop of `trim_reputation` ends with the table within `max_reputation_entries`; its fuel is
  -- enough for every table.
  pub trim_reputation-le :
      (g : Aggregator Net) → length (trim_reputation g).reputation ≤ g.config.max_reputation_entries
  unfolding trim_reputation
  trim_reputation-le g = trim_oldest-le (suc (length g.reputation)) g (omega arith)

  -- Every address with a score has been seen.
  abbrev pub IsSeen : Aggregator Net → Type 0
  IsSeen g = (a : IpAddr) → contains_key a g.ip_counts ≡ true → contains_key a g.last_seen ≡ true

  evict_ip-IsSeen : (a : IpAddr) (g : Aggregator Net) → IsSeen g → IsSeen (evict_ip a g)
  unfolding evict_ip
  evict_ip-IsSeen a g s b h =
      ground (arith, contains_key-remove a b g.ip_counts, contains_key-remove a b g.last_seen, s b)

  evict_oldest-lt :
      (fuel : ℕ) (evicted : Bool) (g : Aggregator Net)
      → IsSeen g
      → 0 < g.config.max_tracked_ips
      → length g.last_seen < fuel
      → length (evict_oldest fuel evicted g).0.ip_counts < g.config.max_tracked_ips
  unfolding evict_oldest evict_ip
  evict_oldest-lt zero evicted g s p h = absurd (omega arith)
  evict_oldest-lt (suc fuel) evicted g s p h =
      elim (Bool-cases (leb g.config.max_tracked_ips (length g.ip_counts))) [
        | inr room ↦ rw (room, evict_oldest) (ground arith)
        | inl full ↦ elim (Option-cases (min_by seen_lt g.last_seen)) [
          | inl empty ↦
              let bare = min_by-eq-none seen_lt g.last_seen empty in
              let gone = empty_of_keys g.ip_counts g.last_seen s bare in
              rw (full, empty, evict_oldest) (ground arith)
          | inr (x, found) ↦
              let less =
                length-remove-lt x.0 g.last_seen
                  (contains_key-In g.last_seen x (min_by-In seen_lt g.last_seen found)) in
              rw (full, found, evict_oldest)
                (evict_oldest-lt fuel true (evict_ip x.0 g) (evict_ip-IsSeen x.0 g s)
                  (evicted_config x.0 g p) (evicted_length x.0 g fuel less h))
        ]
      ]

  -- Where every scored address has been seen and `max_tracked_ips` is positive, `make_room_for_ip`
  -- leaves room for an address without a score: its loop ends by its test, and not for want of
  -- candidates or of fuel.
  pub make_room_for_ip-lt :
      (a : IpAddr) (g : Aggregator Net)
      → IsSeen g
      → 0 < g.config.max_tracked_ips
      → contains_key a g.ip_counts ≡ false
      → length (make_room_for_ip a g).0.ip_counts < g.config.max_tracked_ips
  unfolding make_room_for_ip
  make_room_for_ip-lt a g s p new =
      rw new (evict_oldest-lt (suc (length g.last_seen)) false g s p (omega arith))
