-- ===== src/Examples/Runs.antt =====
-- src/ban_attack/aggregate.rs: runs of the aggregator at concrete inputs, by computation.
use router_hub.Common.{
  ◌≤◌, ◌≡◌, refl, true, false, [], ◌∷◌, none, some, arith, ok, string_eq, u64_max, sat_add64, get,
  contains_key, insert, filterb, filter_map, any, has,
}
use router_hub.BanAttack.Net.{ip_eq, net_eq}
use router_hub.BanAttack.Config.{default_config}
use router_hub.BanAttack.Backend.{ip, subnet, target_eq, memory_backend}
use router_hub.BanAttack.Aggregate.State.{
  ActiveBan, banned, new, is_host_network, is_covered_by_banned_subnet, subnet_for,
}
use router_hub.BanAttack.Aggregate.Counts.{bump, count_of, rebuild_subnet_counts, forget_expired}
use router_hub.BanAttack.Aggregate.Evict.{
  make_room_for_ip, make_room_for_subnet, evict_oldest, offender_total, evict_offender,
  record_subnet_offender, trim_oldest, trim_reputation,
}
use router_hub.BanAttack.Aggregate.Bans.{
  next_offense, has_capacity_for, timed_ban, enter_ban, mark_banned, set_expiry, expired_targets,
  ensure_active_capacity_for, add_timed, lift, lift_all, cleanup_expired, drop_covered,
  remove_covered_ip_bans, settle_subnet, finish_manual, add_manual,
}
use router_hub.BanAttack.Aggregate.Record.{
  crossed_threshold, count_match, forget_stale, admit_ip, add_score, prepare, note_offender,
  distributed_sources, reputation_repromote, should_promote, finish_record, report_ban, react,
  record_match,
}
use router_hub.BanAttack.Aggregate.Persist.{
  PersistentState, each, is_full, restore_subnet, restore_subnets, restore_ips, restore_bans,
  restore_history, restore_persistent_state,
}
use router_hub.BanAttack.Aggregate.Bounds.{IsSeen}
use router_hub.Examples.Fixtures.{
  Network, networks, attacker, attackers_net, fresh, old_ban, with_ban,
}

pub cleaned_up_late :
    (cleanup_expired memory_backend 700 (with_ban, [])).0 ≡ ok (subnet attackers_net ∷ [])
unfolding cleanup_expired expired_targets lift_all lift filter_map
cleaned_up_late = refl

pub cleaned_up_early : (cleanup_expired memory_backend 300 (with_ban, [])).0 ≡ ok []
unfolding cleanup_expired expired_targets lift_all lift filter_map
cleaned_up_early = refl

pub still_banned :
    get (subnet attackers_net) (cleanup_expired memory_backend 300 (with_ban, [])).1.0.active_bans
    ≡ some old_ban
unfolding cleanup_expired expired_targets lift_all lift filter_map forget_expired
    rebuild_subnet_counts get
still_banned = refl

pub attacker_inside : networks.contains (subnet_for default_config attacker) attacker ≡ true
unfolding subnet_for
attacker_inside = refl

pub five_fits : 5 ≤ u64_max
five_fits = omega arith

pub reached_threshold :
    4 ≤ sat_add64 (count_of attacker (prepare attacker "ssh" 100 fresh).ip_counts) 5
unfolding sat_add64 count_of prepare admit_ip forget_stale count_match new make_room_for_ip
    evict_oldest make_room_for_subnet subnet_for get insert contains_key
reached_threshold = omega arith

pub recorded_well :
    (record_match memory_backend attacker 5 "ssh" 100 100 (fresh, [])).0
    ≡ ok (record { transitions = banned (ip attacker) ∷ []; cleanup_errors = [] })
unfolding record_match react prepare admit_ip forget_stale count_match new make_room_for_ip
    evict_oldest make_room_for_subnet subnet_for get insert contains_key add_score bump count_of
    sat_add64 is_covered_by_banned_subnet any should_promote reputation_repromote
    distributed_sources filterb note_offender crossed_threshold record_subnet_offender
    evict_offender offender_total has add_timed ensure_active_capacity_for has_capacity_for
    report_ban finish_record
recorded_well = refl

abbrev pub by_hand : ActiveBan Network
by_hand = record {
  network = attackers_net;
  source = "manual";
  reason = "by hand";
  created_at = 200;
  expires_at = 800;
  hit_count = 1;
  offense_count = 1;
  triggering_rule = none;
}

pub added_well :
    (add_manual memory_backend (subnet attackers_net) 600 "by hand" 200 (fresh, [])).0
    ≡ ok (some by_hand)
unfolding add_manual add_timed ensure_active_capacity_for has_capacity_for finish_manual
    settle_subnet remove_covered_ip_bans drop_covered filterb set_expiry enter_ban timed_ban
    next_offense trim_reputation trim_oldest mark_banned get insert contains_key new
added_well = refl

abbrev pub saved : PersistentState Network
saved = record {
  schema_version = 1;
  saved_at = some 90;
  active_bans = old_ban ∷ record old_ban { expires_at = 50 } ∷ [];
  scores = [];
  reputation = [];
  subnet_offenders = [];
  rule_stats = [];
}

pub restored_well :
    get (subnet attackers_net) (restore_persistent_state 100 saved fresh).1.active_bans
    ≡ some old_ban
unfolding restore_persistent_state restore_bans restore_history restore_subnets restore_ips
    restore_subnet rebuild_subnet_counts each is_full is_host_network filterb get insert new
restored_well = refl

pub fresh-bare : fresh.banned_ips ≡ []
unfolding new
fresh-bare = refl

pub fresh-IsSeen : IsSeen fresh
unfolding new contains_key
fresh-IsSeen a h = absurd (ground arith)

pub fresh-free : contains_key attacker fresh.ip_counts ≡ false
unfolding new contains_key
fresh-free = refl
