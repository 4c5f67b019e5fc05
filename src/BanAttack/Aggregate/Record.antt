-- ===== src/BanAttack/Aggregate/Record.antt =====
-- src/ban_attack/aggregate.rs: `record`, the method that scores one match of a rule. `now` is the
-- time that it reads, and `now'` the time that `promote` reads after it.
use router_hub.Common.{
  ℕ, String, Bool, false, not, ◌&&◌, ◌||◌, List, [], ◌∷◌, none, some, leb, ltb, if◌then◌else◌, Map,
  get, insert, remove, filterb, keys, sat_add64, length, min, has, ok, ◌>>=◌, ◌>>◌, string_eq,
}
use router_hub.BanAttack.Net.{IpAddr, Externs, ip_eq, net_eq}
use router_hub.BanAttack.Backend.{ip, target_eq, BanBackend}
use router_hub.BanAttack.Aggregate.State.{
  Aggregator, RuleStats, BanTransition, banned, is_covered_by_banned_subnet, subnet_for,
}
use router_hub.BanAttack.Aggregate.Counts.{
  bump, count_of, is_stale, rebuild_subnet_counts, is_nonempty,
}
use router_hub.BanAttack.Aggregate.Evict.{
  make_room_for_ip, make_room_for_subnet, record_subnet_offender, offenders_of,
}
use router_hub.BanAttack.Aggregate.Bans.{Step, CleanupError, add_timed, mark_banned, promote}

pub record RecordResult (Net : Type 0) : Type 0 where
  pub transitions : List (BanTransition Net)
  pub cleanup_errors : List (CleanupError Net)

-- `rule_stats.entry(rule).or_default()`.
abbrev pub stats_of : String → Map String RuleStats → RuleStats
stats_of rule m = elim (get rule m) [
  | none ↦ record { match_count = 0; ban_count = 0 }
  | some stats ↦ stats
]

unfoldable pub crossed_threshold : ℕ → ℕ → ℕ → Bool
crossed_threshold previous current failures = ltb previous failures && leb failures current

module _ {Net : Type 0} ⦃o : Externs Net⦄ where
  unfoldable pub count_match : String → Aggregator Net → Aggregator Net
  count_match rule g =
      let stats = stats_of rule g.rule_stats in
      record g {
        rule_stats =
            insert rule (record stats { match_count = sat_add64 stats.match_count 1 }) g.rule_stats;
      }

  unfoldable pub count_bans : String → ℕ → Aggregator Net → Aggregator Net
  count_bans rule n g =
      let stats = stats_of rule g.rule_stats in
      record g {
        rule_stats =
            insert rule (record stats { ban_count = sat_add64 stats.ban_count n }) g.rule_stats;
      }

  -- A score whose retention is over is forgotten before the match is counted.
  unfoldable pub forget_stale : IpAddr → ℕ → Aggregator Net → Aggregator Net
  forget_stale a now g = elim (get a g.last_seen) [
    | none ↦ g
    | some seen ↦
        if is_stale g now seen
        then rebuild_subnet_counts
            (record g { ip_counts = remove a g.ip_counts; last_seen = remove a g.last_seen })
        else g
  ]

  unfoldable pub admit_ip : IpAddr → ℕ → Aggregator Net → Aggregator Net
  admit_ip a now g =
      let (g', evicted) = make_room_for_ip a g in
      let room = if evicted then rebuild_subnet_counts g' else g' in
      record room { last_seen = insert a now room.last_seen }

  -- The two counters of the match.
  unfoldable pub add_score : IpAddr → Net → ℕ → Aggregator Net → Aggregator Net
  add_score a n weight g = record g {
    ip_counts = bump a weight g.ip_counts;
    subnet_counts = bump n weight g.subnet_counts;
  }

  -- All that `record` does before it counts.
  unfoldable pub prepare : IpAddr → String → ℕ → Aggregator Net → Aggregator Net
  prepare a rule now g =
      let g1 = admit_ip a now (forget_stale a now (count_match rule g)) in
      make_room_for_subnet (subnet_for g1.config a) g1

  -- An address whose score has just reached the threshold is an offender of its subnet.
  unfoldable pub note_offender : IpAddr → Net → ℕ → ℕ → Aggregator Net → Aggregator Net
  note_offender a n previous now g =
      if crossed_threshold previous (count_of a g.ip_counts) g.config.ip_failures
      then record_subnet_offender n a now g
      else g

  -- `keys().filter(…).take(k).count()`.
  unfoldable pub distributed_sources : Net → Aggregator Net → ℕ
  distributed_sources n g =
      if leb g.config.subnet_failures (count_of n g.subnet_counts)
      then min g.config.promote_after_banned_ips
          (length (filterb (λ a. o.contains n a) (keys g.ip_counts)))
      else 0

  unfoldable pub reputation_repromote : Net → ℕ → Aggregator Net → Bool
  reputation_repromote n ip_count g =
      leb g.config.ip_failures ip_count && elim (get n g.reputation) [
        | none ↦ false
        | some entry ↦ leb g.config.reputation_repromote_after_offenses entry.offense_count
      ]

  unfoldable pub should_promote : Net → ℕ → Aggregator Net → Bool
  should_promote n ip_count g =
      reputation_repromote n ip_count g
      || leb g.config.promote_after_banned_ips (length (offenders_of n g.subnet_offenders))
      || (leb g.config.subnet_failures (count_of n g.subnet_counts)
          && leb g.config.promote_after_banned_ips (distributed_sources n g))

  abbrev pub quiet : RecordResult Net
  quiet = record { transitions = []; cleanup_errors = [] }

  -- The counters of the rule, when there was a transition.
  unfoldable pub count_transitions :
      String → List (BanTransition Net) → Aggregator Net → Aggregator Net
  count_transitions rule ts g = if is_nonempty ts then count_bans rule (length ts) g else g

  module _ {B : Type 0} (backend : BanBackend Net B) where
    -- The counters of the rule, after the transitions.
    unfoldable pub finish_record : String → RecordResult Net → Step Net B (RecordResult Net)
    finish_record rule r (g, b) = (ok r, (count_transitions rule r.transitions g, b))

    unfoldable pub report_promotion :
        String → BanTransition Net × List (CleanupError Net) → Step Net B (RecordResult Net)
    report_promotion rule out =
        finish_record rule (record { transitions = out.0 ∷ []; cleanup_errors = out.1 })

    unfoldable pub report_ban : String → IpAddr → Step Net B (RecordResult Net)
    report_ban rule a (g, b) =
        finish_record rule (record { transitions = banned (ip a) ∷ []; cleanup_errors = [] })
          (mark_banned (ip a) g, b)

    -- The last third of `record`: promotion, a ban of the address, or neither.
    unfoldable pub react : IpAddr → Net → ℕ → String → ℕ → ℕ → Step Net B (RecordResult Net)
    react a n ip_count rule now now' (g, b) =
        if should_promote n ip_count g
        then (promote backend n (some rule) now' >>= report_promotion rule) (g, b)
        else if leb g.config.ip_failures ip_count && not (has a g.banned_ips)
        then (add_timed backend (ip a) "automatic" "threshold" ip_count now (some rule)
              >> report_ban rule a)
            (g, b)
        else (ok quiet, (g, b))

    unfoldable pub record_match : IpAddr → ℕ → String → ℕ → ℕ → Step Net B (RecordResult Net)
    record_match a weight rule now now' (g, b) =
        let g1 = prepare a rule now g in
        let n = subnet_for g1.config a in
        let g2 = add_score a n weight g1 in
        if is_covered_by_banned_subnet g2 a
        then (ok quiet, (g2, b))
        else react a n (count_of a g2.ip_counts) rule now now'
            (note_offender a n (count_of a g1.ip_counts) now g2, b)
