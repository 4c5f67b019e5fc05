-- ===== src/BanAttack/Aggregate/Restored.antt =====
-- src/ban_attack/aggregate.rs: what `restore_persistent_state` makes of a new aggregator.
use router_hub.Common.{
  ℕ, ◌≤◌, ◌<◌, ◌≡◌, refl, sym, ap, ◌∙◌, true, false, not, ◌&&◌, List, [], ◌∷◌, some, arith, nat_beq,
  get, insert, get-insert, contains_key-insert, length-insert, length, has, Bool-cases, inl, inr,
  ◌==◌, All, All-filterb,
}
use router_hub.BanAttack.Net.{Externs, ip_eq, net_eq}
use router_hub.BanAttack.Config.{AggregationConfig}
use router_hub.BanAttack.Backend.{BanTarget, ip, subnet, target_eq}
use router_hub.BanAttack.Aggregate.State.{
  Aggregator, ActiveBan, ReputationEntry, new, is_covered_by_banned_subnet, is_host_network,
}
use router_hub.BanAttack.Aggregate.Counts.{rebuild_subnet_counts}
use router_hub.BanAttack.Aggregate.Bans.{mark_banned}
use router_hub.BanAttack.Aggregate.Persist.{
  PersistentState, ScoreEntry, SubnetOffenderEntry, RuleStatsEntry, each, is_full, restore_subnet,
  restore_ip, restore_subnets, restore_ips, restore_score, restore_reputation, restore_offender,
  restore_stats, restore_bans, restore_history, restore_persistent_state, runs_on,
}
use router_hub.BanAttack.Aggregate.Frames.{SameBans, SameBans-refl, SameBans-trans}
use router_hub.BanAttack.Aggregate.Mirror.{AddsBan, mark_banned-IsMirrored, mark_ip-IsDisjoint}
use router_hub.BanAttack.Aggregate.Sound.{IsSound, SameBans-IsSound}
pub mod Revived

module _ {Net : Type 0} ⦃o : Externs Net⦄ where
  each-SameBans :
      {A : Type 0} (f : A → Aggregator Net → Aggregator Net) (xs : List A) (g : Aggregator Net)
      → ((x : A) (h : Aggregator Net) → SameBans h (f x h))
      → SameBans g (each f xs g)
  unfolding each
  each-SameBans f [] g same = SameBans-refl g
  each-SameBans f (x ∷ xs) g same = SameBans-trans (same x g) (each-SameBans f xs (f x g) same)

  restore_score-SameBans :
      (now : ℕ) (s : ScoreEntry) (g : Aggregator Net) → SameBans g (restore_score now s g)
  unfolding restore_score
  restore_score-SameBans now s g = ground arith

  restore_reputation-SameBans :
      (now : ℕ) (e : ReputationEntry Net) (g : Aggregator Net)
      → SameBans g (restore_reputation now e g)
  unfolding restore_reputation
  restore_reputation-SameBans now e g = ground arith

  restore_offender-SameBans :
      (now : ℕ) (e : SubnetOffenderEntry Net) (g : Aggregator Net)
      → SameBans g (restore_offender now e g)
  unfolding restore_offender
  restore_offender-SameBans now e g = ground arith

  restore_stats-SameBans :
      (e : RuleStatsEntry) (g : Aggregator Net) → SameBans g (restore_stats e g)
  unfolding restore_stats
  restore_stats-SameBans e g = ground arith

  -- The scores and the histories leave the bans alone.
  pub restore_history-SameBans :
      (now : ℕ) (state : PersistentState Net) (g : Aggregator Net)
      → SameBans g (restore_history now state g)
  unfolding restore_history rebuild_subnet_counts
  restore_history-SameBans now state g =
      let g1 = each (restore_score now) state.scores g in
      let g2 = each (restore_reputation now) state.reputation g1 in
      let g3 = each (restore_offender now) state.subnet_offenders g2 in
      let s1 = each-SameBans (restore_score now) state.scores g (restore_score-SameBans now) in
      let s2 =
        each-SameBans (restore_reputation now) state.reputation g1
          (restore_reputation-SameBans now) in
      let s3 =
        each-SameBans (restore_offender now) state.subnet_offenders g2
          (restore_offender-SameBans now) in
      let s4 = each-SameBans restore_stats state.rule_stats g3 restore_stats-SameBans in
      let all = SameBans-trans s1 (SameBans-trans s2 (SameBans-trans s3 s4)) in
      record { config = all.config; active = all.active; ips = all.ips; nets = all.nets }

  -- A ban that is written to the table directly.
  written-AddsBan :
      (t : BanTarget Net) (ban : ActiveBan Net) (g : Aggregator Net)
      → AddsBan t g (record g { active_bans = insert t ban g.active_bans })
  written-AddsBan t ban g = record {
    config = refl;
    keys = λ k. contains_key-insert t k ban g.active_bans;
    size = length-insert t ban g.active_bans;
    ips = refl;
    nets = refl;
  }

  written-IsWithin :
      (t : BanTarget Net) (ban : ActiveBan Net) (g : Aggregator Net)
      → is_full g ≡ false
      → length (insert t ban g.active_bans) ≤ g.config.max_active_bans
  unfolding is_full
  written-IsWithin t ban g room = ground (arith, length-insert t ban g.active_bans)

  restore_subnet-IsSound :
      (ban : ActiveBan Net) (g : Aggregator Net)
      → g.banned_ips ≡ []
      → is_full g ≡ false
      → IsSound g
      → IsSound (restore_subnet ban g)
  unfolding restore_subnet mark_banned has
  restore_subnet-IsSound ban g bare room v =
      let t : BanTarget Net = subnet ban.network in
      record {
        mirrored = mark_banned-IsMirrored t (written-AddsBan t ban g) v.mirrored;
        disjoint = λ a p. absurd (cc (rw bare at p));
        within = written-IsWithin t ban g room;
      }

  restore_ip-IsSound :
      (ban : ActiveBan Net) (g : Aggregator Net)
      → is_covered_by_banned_subnet g (o.addr ban.network) ≡ false
      → is_full g ≡ false
      → IsSound g
      → IsSound (restore_ip ban g)
  unfolding restore_ip mark_banned
  restore_ip-IsSound ban g free room v =
      let t : BanTarget Net = ip (o.addr ban.network) in
      let added = written-AddsBan t ban g in
      record {
        mirrored = mark_banned-IsMirrored t added v.mirrored;
        disjoint = mark_ip-IsDisjoint (o.addr ban.network) added free v.disjoint;
        within = written-IsWithin t ban g room;
      }

  evicted-IsSound :
      (g : Aggregator Net) (n : ℕ) → IsSound g → IsSound (record g { eviction_count = n })
  evicted-IsSound g n v =
      SameBans-IsSound (record { config = refl; active = refl; ips = refl; nets = refl }) v

  restore_subnets-IsSound :
      (bans : List (ActiveBan Net)) (g : Aggregator Net)
      → g.banned_ips ≡ []
      → IsSound g
      → IsSound (restore_subnets bans g)
  unfolding restore_subnets restore_subnet
  restore_subnets-IsSound [] g bare v = v
  restore_subnets-IsSound (ban ∷ bans) g bare v = elim (Bool-cases (is_full g)) [
    | inl full ↦ rw (full, restore_subnets) (evicted-IsSound g _ v)
    | inr room ↦
        rw (room, restore_subnets)
          (restore_subnets-IsSound bans (restore_subnet ban g) bare
            (restore_subnet-IsSound ban g bare room v))
  ]

  restore_ips-IsSound :
      (bans : List (ActiveBan Net)) (g : Aggregator Net) → IsSound g → IsSound (restore_ips bans g)
  unfolding restore_ips
  restore_ips-IsSound [] g v = v
  restore_ips-IsSound (ban ∷ bans) g v =
      elim (Bool-cases (is_covered_by_banned_subnet g (o.addr ban.network))) [
        | inl hit ↦ rw (hit, restore_ips) (restore_ips-IsSound bans g v)
        | inr free ↦ elim (Bool-cases (is_full g)) [
          | inl full ↦ rw (free, full, restore_ips) (evicted-IsSound g _ v)
          | inr room ↦
              rw (free, room, restore_ips)
                (restore_ips-IsSound bans (restore_ip ban g) (restore_ip-IsSound ban g free room v))
        ]
      ]

  -- Whatever a state file holds, what is restored from it into an aggregator without address bans
  -- that is sound is sound again: an address in a restored subnet is passed over, and the bans stop
  -- at `max_active_bans`.
  pub restore_persistent_state-IsSound :
      (now : ℕ) (state : PersistentState Net) (g : Aggregator Net)
      → g.banned_ips ≡ []
      → IsSound g
      → IsSound (restore_persistent_state now state g).1
  unfolding restore_persistent_state restore_bans
  restore_persistent_state-IsSound now state g bare v =
      elim (Bool-cases (nat_beq state.schema_version 1)) [
        | inr other ↦ rw (other, restore_persistent_state) v
        | inl current ↦
            rw (current, restore_persistent_state)
              (SameBans-IsSound (restore_history-SameBans now state _)
                (restore_ips-IsSound _ _ (restore_subnets-IsSound _ g bare v)))
      ]
