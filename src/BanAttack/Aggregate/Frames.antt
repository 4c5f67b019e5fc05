-- ===== src/BanAttack/Aggregate/Frames.antt =====
-- src/ban_attack/aggregate.rs: what scoring and eviction leave alone.
use router_hub.Common.{
  ℕ, zero, suc, String, ◌≡◌, refl, Bool, true, false, List, [], ◌∷◌, arith, leb, length, min_by,
  Bool-cases, Option-cases, inl, inr,
}
use router_hub.BanAttack.Net.{IpAddr, Externs, ip_eq, net_eq}
use router_hub.BanAttack.Backend.{BanTarget, ip, subnet}
use router_hub.BanAttack.Aggregate.State.{Aggregator, BanTransition}
use router_hub.BanAttack.Aggregate.Counts.{
  rebuild_subnet_counts, forget_exceptions, forget_expired, reset_counts,
}
use router_hub.BanAttack.Aggregate.Evict.{
  seen_lt, evict_ip, evict_oldest, make_room_for_ip, evict_ips, evict_subnet, make_room_for_subnet,
  evict_offender, record_subnet_offender, trim_oldest, trim_reputation,
}
use router_hub.BanAttack.Aggregate.Record.{
  count_match, forget_stale, admit_ip, add_score, prepare, count_bans, count_transitions,
}

-- The bans in force and the configuration are the same in both states.
pub record SameBans {Net : Type 0} (g h : Aggregator Net) : Type 0 where
  pub config : h.config ≡ g.config
  pub active : h.active_bans ≡ g.active_bans
  pub ips : h.banned_ips ≡ g.banned_ips
  pub nets : h.banned_subnets ≡ g.banned_subnets

pub SameBans-refl : {Net : Type 0} (g : Aggregator Net) → SameBans g g
SameBans-refl g = record { config = refl; active = refl; ips = refl; nets = refl }

pub SameBans-trans :
    {Net : Type 0} {g h k : Aggregator Net} → SameBans g h → SameBans h k → SameBans g k
SameBans-trans s t = ground arith

module _ {Net : Type 0} ⦃o : Externs Net⦄ where
  pub rebuild-SameBans : (g : Aggregator Net) → SameBans g (rebuild_subnet_counts g)
  unfolding rebuild_subnet_counts
  rebuild-SameBans g = ground arith

  evict_ip-SameBans : (a : IpAddr) (g : Aggregator Net) → SameBans g (evict_ip a g)
  unfolding evict_ip
  evict_ip-SameBans a g = ground arith

  evict_oldest-SameBans :
      (fuel : ℕ) (evicted : Bool) (g : Aggregator Net) → SameBans g (evict_oldest fuel evicted g).0
  unfolding evict_oldest
  evict_oldest-SameBans zero evicted g = SameBans-refl g
  evict_oldest-SameBans (suc fuel) evicted g =
      elim (Bool-cases (leb g.config.max_tracked_ips (length g.ip_counts))) [
        | inr room ↦ rw (room, evict_oldest) (SameBans-refl g)
        | inl full ↦ elim (Option-cases (min_by seen_lt g.last_seen)) [
          | inl empty ↦ rw (full, empty, evict_oldest) (SameBans-refl g)
          | inr (x, found) ↦
              rw (full, found, evict_oldest)
                (SameBans-trans (evict_ip-SameBans x.0 g)
                  (evict_oldest-SameBans fuel true (evict_ip x.0 g)))
        ]
      ]

  make_room_for_ip-SameBans :
      (a : IpAddr) (g : Aggregator Net) → SameBans g (make_room_for_ip a g).0
  unfolding make_room_for_ip
  make_room_for_ip-SameBans a g =
      ground (arith, evict_oldest-SameBans (suc (length g.last_seen)) false g)

  evict_ips-SameBans : (xs : List IpAddr) (g : Aggregator Net) → SameBans g (evict_ips xs g)
  unfolding evict_ips evict_ip
  evict_ips-SameBans [] g = SameBans-refl g
  evict_ips-SameBans (a ∷ rest) g = ground (arith, evict_ips-SameBans rest (evict_ip a g))

  make_room_for_subnet-SameBans :
      (n : Net) (g : Aggregator Net) → SameBans g (make_room_for_subnet n g)
  unfolding make_room_for_subnet evict_subnet
  make_room_for_subnet-SameBans n g = grind (arith, evict_ips-SameBans)

  pub record_subnet_offender-SameBans :
      (n : Net) (a : IpAddr) (now : ℕ) (g : Aggregator Net)
      → SameBans g (record_subnet_offender n a now g)
  unfolding record_subnet_offender evict_offender
  record_subnet_offender-SameBans n a now g = ground arith

  trim_oldest-SameBans : (fuel : ℕ) (g : Aggregator Net) → SameBans g (trim_oldest fuel g)
  unfolding trim_oldest
  trim_oldest-SameBans zero g = SameBans-refl g
  trim_oldest-SameBans (suc fuel) g = grind (arith, trim_oldest-SameBans fuel)

  pub trim_reputation-SameBans : (g : Aggregator Net) → SameBans g (trim_reputation g)
  unfolding trim_reputation
  trim_reputation-SameBans g = trim_oldest-SameBans (suc (length g.reputation)) g

  admit_ip-SameBans : (a : IpAddr) (now : ℕ) (g : Aggregator Net) → SameBans g (admit_ip a now g)
  unfolding admit_ip
  admit_ip-SameBans a now g =
      ground (arith, make_room_for_ip-SameBans a g, rebuild-SameBans (make_room_for_ip a g).0)

  forget_stale-SameBans :
      (a : IpAddr) (now : ℕ) (g : Aggregator Net) → SameBans g (forget_stale a now g)
  unfolding forget_stale rebuild_subnet_counts
  forget_stale-SameBans a now g = ground arith

  count_match-SameBans : (rule : String) (g : Aggregator Net) → SameBans g (count_match rule g)
  unfolding count_match
  count_match-SameBans rule g = ground arith

  pub prepare-SameBans :
      (a : IpAddr) (rule : String) (now : ℕ) (g : Aggregator Net)
      → SameBans g (prepare a rule now g)
  unfolding prepare
  prepare-SameBans a rule now g = SameBans-trans (count_match-SameBans rule g) (
      SameBans-trans (forget_stale-SameBans a now _)
        (SameBans-trans (admit_ip-SameBans a now _) (make_room_for_subnet-SameBans _ _)))

  pub add_score-SameBans :
      (a : IpAddr) (n : Net) (w : ℕ) (g : Aggregator Net) → SameBans g (add_score a n w g)
  unfolding add_score
  add_score-SameBans a n w g = ground arith

  pub count_transitions-SameBans :
      (rule : String) (ts : List (BanTransition Net)) (g : Aggregator Net)
      → SameBans g (count_transitions rule ts g)
  unfolding count_transitions count_bans
  count_transitions-SameBans rule ts g = ground arith

  pub forget_exceptions-SameBans :
      (xs : List Net) (g : Aggregator Net) → SameBans g (forget_exceptions xs g)
  unfolding forget_exceptions rebuild_subnet_counts
  forget_exceptions-SameBans xs g = ground arith

  pub forget_expired-SameBans : (now : ℕ) (g : Aggregator Net) → SameBans g (forget_expired now g)
  unfolding forget_expired rebuild_subnet_counts
  forget_expired-SameBans now g = ground arith

  pub reset_counts-SameBans :
      (t : BanTarget Net) (g : Aggregator Net) → SameBans g (reset_counts t g)
  unfolding reset_counts rebuild_subnet_counts
  reset_counts-SameBans (ip a) g = ground arith
  reset_counts-SameBans (subnet n) g = ground arith
