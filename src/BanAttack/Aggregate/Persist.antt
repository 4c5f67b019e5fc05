-- ===== src/BanAttack/Aggregate/Persist.antt =====
-- src/ban_attack/aggregate.rs: the state that is kept on disk and its
-- restoration. `now` is the time that a method reads. The lists that are sorted by the texts of
-- networks take the order of these texts from `Externs`.
use router_hub.Common.{
  ℕ, String, ◌+◌, Bool, not, ◌&&◌, ◌||◌, List, [], ◌∷◌, map, Option, none, some, leb, ltb, nat_beq,
  if◌then◌else◌, get, insert, keys, values, filterb, filter_map, length, set_insert, sort_by,
  sat_add64, Result, ok, err, string_eq,
}
use router_hub.BanAttack.Net.{IpAddr, Externs, ip_eq, net_eq, ip_lt}
use router_hub.BanAttack.Backend.{
  BanTarget, ip, subnet, target_eq, BackendError, unsupported_schema,
}
use router_hub.BanAttack.Aggregate.State.{
  Aggregator, ActiveBan, ReputationEntry, is_covered_by_banned_subnet, is_host_network,
}
use router_hub.BanAttack.Aggregate.Counts.{is_stale, rebuild_subnet_counts}
use router_hub.BanAttack.Aggregate.Evict.{offenders_of, offender_entries}
use router_hub.BanAttack.Aggregate.Record.{stats_of}

pub record RuleStatsEntry : Type 0 where
  pub name : String
  pub match_count : ℕ
  pub ban_count : ℕ

pub record ScoreEntry : Type 0 where
  pub ip : IpAddr
  pub score : ℕ
  pub last_seen : ℕ

pub record SubnetOffenderEntry (Net : Type 0) : Type 0 where
  pub subnet : Net
  pub ip : IpAddr
  pub crossed_at : ℕ

pub record PersistentState (Net : Type 0) : Type 0 where
  pub schema_version : ℕ
  pub saved_at : Option ℕ
  pub active_bans : List (ActiveBan Net)
  pub scores : List ScoreEntry
  pub reputation : List (ReputationEntry Net)
  pub subnet_offenders : List (SubnetOffenderEntry Net)
  pub rule_stats : List RuleStatsEntry

-- A `for` loop over a list whose body changes `self`.
unfoldable pub each : {A S : Type 0} → (A → S → S) → List A → S → S
each f [] s = s
each f (x ∷ xs) s = each f xs (f x s)

module _ {Net : Type 0} ⦃o : Externs Net⦄ where
  unfoldable pub scores_of : Aggregator Net → List ScoreEntry
  scores_of g =
      filter_map
        (λ x. elim (get x.0 g.last_seen) [
          | none ↦ none
          | some seen ↦ some (record { ip = x.0; score = x.1; last_seen = seen })
        ])
        g.ip_counts

  -- The order of `(subnet.to_string(), ip)`.
  abbrev offender_lt : SubnetOffenderEntry Net → SubnetOffenderEntry Net → Bool
  offender_lt x y =
      o.net_lt x.subnet y.subnet || (not (o.net_lt y.subnet x.subnet) && ip_lt x.ip y.ip)

  -- `text_lt` is the order of the names of the rules.
  unfoldable pub persistent_state :
      (String → String → Bool) → ℕ → Aggregator Net → PersistentState Net
  unfolding scores_of
  persistent_state text_lt now g = record {
    schema_version = 1;
    saved_at = some now;
    active_bans = sort_by (λ x y. o.net_lt x.network y.network) (values g.active_bans);
    scores = sort_by (λ x y. ip_lt x.ip y.ip) (scores_of g);
    reputation = sort_by (λ x y. o.net_lt x.network y.network) (values g.reputation);
    subnet_offenders = sort_by offender_lt (
        map (λ x. record { subnet = x.0; ip = x.1; crossed_at = x.2 })
          (offender_entries g.subnet_offenders));
    rule_stats =
        sort_by (λ x y. text_lt x.name y.name)
          (map
            (λ x. record { name = x.0; match_count = x.1.match_count; ban_count = x.1.ban_count })
            g.rule_stats);
  }

  -- `text_lt` is the order of the texts of the targets.
  unfoldable pub active_targets :
      (BanTarget Net → BanTarget Net → Bool) → Aggregator Net → List (BanTarget Net)
  active_targets text_lt g = sort_by text_lt (keys g.active_bans)

  unfoldable pub is_full : Aggregator Net → Bool
  is_full g = leb g.config.max_active_bans (length g.active_bans)

  abbrev count_eviction : Aggregator Net → Aggregator Net
  count_eviction g = record g { eviction_count = sat_add64 g.eviction_count 1 }

  unfoldable pub restore_subnet : ActiveBan Net → Aggregator Net → Aggregator Net
  restore_subnet ban g = record g {
    banned_subnets = set_insert ban.network g.banned_subnets;
    active_bans = insert (subnet ban.network) ban g.active_bans;
  }

  unfoldable pub restore_ip : ActiveBan Net → Aggregator Net → Aggregator Net
  restore_ip ban g = record g {
    banned_ips = set_insert (o.addr ban.network) g.banned_ips;
    active_bans = insert (ip (o.addr ban.network)) ban g.active_bans;
  }

  -- The first loop; at capacity it stops.
  unfoldable pub restore_subnets : List (ActiveBan Net) → Aggregator Net → Aggregator Net
  restore_subnets [] g = g
  restore_subnets (ban ∷ bans) g =
      let rest = restore_subnets bans (restore_subnet ban g) in
      if is_full g then count_eviction g else rest

  -- The second loop: an address that a restored subnet covers is passed over.
  unfoldable pub restore_ips : List (ActiveBan Net) → Aggregator Net → Aggregator Net
  restore_ips [] g = g
  restore_ips (ban ∷ bans) g =
      let covered = is_covered_by_banned_subnet g (o.addr ban.network) in
      let rest = restore_ips bans (if covered then g else restore_ip ban g) in
      if not covered && is_full g then count_eviction g else rest

  unfoldable pub restore_score : ℕ → ScoreEntry → Aggregator Net → Aggregator Net
  restore_score now s g =
      if not (is_stale g now s.last_seen) && ltb (length g.ip_counts) g.config.max_tracked_ips
      then record g {
        ip_counts = insert s.ip s.score g.ip_counts;
        last_seen = insert s.ip s.last_seen g.last_seen;
      }
      else g

  unfoldable pub restore_reputation : ℕ → ReputationEntry Net → Aggregator Net → Aggregator Net
  restore_reputation now entry g =
      if ltb now entry.retain_until && ltb (length g.reputation) g.config.max_reputation_entries
      then record g { reputation = insert entry.network entry g.reputation }
      else g

  unfoldable pub restore_offender : ℕ → SubnetOffenderEntry Net → Aggregator Net → Aggregator Net
  restore_offender now entry g =
      let offenders = offenders_of entry.subnet g.subnet_offenders in
      if ltb now (entry.crossed_at + o.seconds g.config.subnet_promotion_window_seconds)
      then record g {
        subnet_offenders =
            insert entry.subnet (insert entry.ip entry.crossed_at offenders) g.subnet_offenders;
      }
      else g

  unfoldable pub restore_stats : RuleStatsEntry → Aggregator Net → Aggregator Net
  restore_stats entry g =
      let stats = stats_of entry.name g.rule_stats in
      record g {
        rule_stats =
            insert entry.name
              (record {
                match_count = sat_add64 stats.match_count entry.match_count;
                ban_count = sat_add64 stats.ban_count entry.ban_count;
              })
              g.rule_stats;
      }

  abbrev pub runs_on : ℕ → ActiveBan Net → Bool
  runs_on now ban = ltb now ban.expires_at

  -- The two loops over the bans.
  unfoldable pub restore_bans : ℕ → List (ActiveBan Net) → Aggregator Net → Aggregator Net
  restore_bans now bans g =
      let subnets = filterb (λ ban. runs_on now ban && not (is_host_network ban.network)) bans in
      let ips = filterb (λ ban. runs_on now ban && is_host_network ban.network) bans in
      restore_ips ips (restore_subnets subnets g)

  -- The loops over the scores and the histories.
  unfoldable pub restore_history : ℕ → PersistentState Net → Aggregator Net → Aggregator Net
  restore_history now state g =
      let g1 = each (restore_score now) state.scores g in
      let g2 = each (restore_reputation now) state.reputation g1 in
      let g3 = each (restore_offender now) state.subnet_offenders g2 in
      rebuild_subnet_counts (each restore_stats state.rule_stats g3)

  unfoldable pub restore_persistent_state :
      ℕ → PersistentState Net → Aggregator Net → Result BackendError (Unit {0}) × Aggregator Net
  restore_persistent_state now state g =
      if nat_beq state.schema_version 1
      then (ok tt, restore_history now state (restore_bans now state.active_bans g))
      else (err (unsupported_schema state.schema_version), g)
