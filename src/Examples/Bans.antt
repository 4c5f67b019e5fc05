-- ===== src/Examples/Bans.antt =====
-- src/ban_attack/aggregate.rs: the theorems on the aggregator at concrete inputs.
use router_hub.Common.{
  ◌+◌, ◌≤◌, ◌<◌, ◌≡◌, refl, [], ◌∷◌, none, some, arith, if◌then◌else◌, has, get, length, any, Ends,
  List, contains_key, string_eq,
}
use router_hub.BanAttack.Net.{ip_eq, net_eq}
use router_hub.BanAttack.Config.{default_config}
use router_hub.BanAttack.Backend.{BanTarget, subnet, target_eq, memory_backend}
use router_hub.BanAttack.Aggregate.State.{new}
use router_hub.BanAttack.Aggregate.Evict.{make_room_for_ip, trim_reputation}
use router_hub.BanAttack.Aggregate.Bans.{
  World, promote, add_manual, apply_exceptions, cleanup_expired, timed_ban,
}
use router_hub.BanAttack.Aggregate.Record.{record_match}
use router_hub.BanAttack.Aggregate.Persist.{restore_persistent_state}
use router_hub.BanAttack.Aggregate.Sound.{IsSound, apply_exceptions-IsSound}
use router_hub.BanAttack.Aggregate.Sound.Adding.{add_manual-IsSound}
use router_hub.BanAttack.Aggregate.Promoted.{IsPromoted, promote-IsPromoted}
use router_hub.BanAttack.Aggregate.Match.{record_match-IsSound}
use router_hub.BanAttack.Aggregate.Sync.{InSync}
use router_hub.BanAttack.Aggregate.History.{
  at_once, then_call, after, launched, new-IsSound, reached-IsSound, reached-InSync,
}
use router_hub.BanAttack.Aggregate.Restored.{restore_persistent_state-IsSound}
use router_hub.BanAttack.Aggregate.Restored.Revived.{restore_persistent_state-RunOn}
use router_hub.BanAttack.Aggregate.Bounds.{make_room_for_ip-lt, trim_reputation-le}
use router_hub.BanAttack.Aggregate.Lifted.{
  is_over_for, cleanup_expired-lifts, cleanup_expired-RunOn,
}
use router_hub.BanAttack.Aggregate.Manual.{add_manual-answers}
use router_hub.BanAttack.Aggregate.Threshold.{IsCaught, record_match-IsCaught}
use router_hub.Examples.Runs.{
  cleaned_up_late, cleaned_up_early, still_banned, attacker_inside, five_fits, reached_threshold,
  recorded_well, added_well, by_hand, saved, restored_well, fresh-bare, fresh-IsSeen, fresh-free,
}
use router_hub.Examples.Fixtures.{
  Network, networks, attacker, attackers_net, fresh, attack, manual, old_ban, with_ban,
}

reached-IsSound_example :
    IsSound
      (after memory_backend manual
        (after memory_backend attack (launched 0 none default_config, []))).0
reached-IsSound_example =
    reached-IsSound memory_backend 0 none default_config [] _
      (then_call _ manual (then_call _ attack at_once))

reached-InSync_example :
    InSync (after memory_backend manual (after memory_backend attack (new default_config, [])))
reached-InSync_example =
    reached-InSync default_config _ (then_call _ manual (then_call _ attack at_once))

record_match-IsSound_example :
    IsSound (record_match memory_backend attacker 5 "ssh" 100 100 (fresh, [])).1.0
record_match-IsSound_example =
    record_match-IsSound memory_backend attacker 5 "ssh" 100 100 (fresh, [])
      (new-IsSound default_config)

add_manual-IsSound_example :
    IsSound (add_manual memory_backend (subnet attackers_net) 600 "by hand" 200 (fresh, [])).1.0
add_manual-IsSound_example =
    add_manual-IsSound memory_backend (subnet attackers_net) 600 "by hand" 200 (fresh, [])
      (new-IsSound default_config)

promote-IsPromoted_example :
    Ends
      (λ _ w. IsPromoted memory_backend attackers_net 100 fresh w.0)
      (λ (w : World Network (List (BanTarget Network))). w.0 ≡ fresh)
      (promote memory_backend attackers_net (some "ssh") 100 (fresh, []))
promote-IsPromoted_example =
    promote-IsPromoted memory_backend attackers_net (some "ssh") 100 fresh []
      (new-IsSound default_config)

with_ban-IsSound : IsSound with_ban
unfolding has contains_key
with_ban-IsSound = record {
  mirrored = record { ips = λ a. refl; nets = λ n. refl };
  disjoint = λ a p. absurd (ground arith);
  within = ground arith;
}

apply_exceptions-IsSound_example :
    IsSound
      (apply_exceptions memory_backend
        (attackers_net ∷ [])
        (with_ban, subnet attackers_net ∷ [])).1.0
apply_exceptions-IsSound_example =
    apply_exceptions-IsSound memory_backend (attackers_net ∷ [])
      (with_ban, subnet attackers_net ∷ []) with_ban-IsSound

trim_reputation-le_example : length (trim_reputation with_ban).reputation ≤ 4_096
trim_reputation-le_example = trim_reputation-le with_ban

cleanup_expired-lifts_example :
    (has (subnet attackers_net) (subnet attackers_net ∷ [])
      ≡ any (is_over_for 700 (subnet attackers_net)) with_ban.active_bans)
    × (get
          (subnet attackers_net)
          (cleanup_expired memory_backend 700 (with_ban, [])).1.0.active_bans
        ≡ (if any (is_over_for 700 (subnet attackers_net)) with_ban.active_bans
            then none
            else get (subnet attackers_net) with_ban.active_bans))
cleanup_expired-lifts_example =
    cleanup_expired-lifts memory_backend 700 with_ban [] (subnet attackers_net) cleaned_up_late

cleanup_expired-RunOn_example : 300 < 600
cleanup_expired-RunOn_example =
    cleanup_expired-RunOn memory_backend 300 with_ban [] (subnet attackers_net) old_ban
      cleaned_up_early still_banned

record_match-IsCaught_example :
    IsCaught attacker (record_match memory_backend attacker 5 "ssh" 100 100 (fresh, [])).1.0
unfolding new
record_match-IsCaught_example =
    record_match-IsCaught memory_backend attacker 5 "ssh" 100 100 fresh [] attacker_inside five_fits
      reached_threshold recorded_well

add_manual-answers_example :
    let made = record (timed_ban fresh (subnet attackers_net) "manual" "by hand" 1 200 none) {
      expires_at = 200 + 600;
    } in
    (some by_hand ≡ some made)
    × (get
          (subnet attackers_net)
          (add_manual memory_backend
            (subnet attackers_net)
            600
            "by hand"
            200
            (fresh, [])).1.0.active_bans
        ≡ some made)
add_manual-answers_example =
    add_manual-answers memory_backend (subnet attackers_net) 600 "by hand" 200 fresh [] added_well

restore_persistent_state-IsSound_example : IsSound (restore_persistent_state 100 saved fresh).1
restore_persistent_state-IsSound_example =
    restore_persistent_state-IsSound 100 saved fresh fresh-bare (new-IsSound default_config)

restore_persistent_state-RunOn_example : 100 < 600
restore_persistent_state-RunOn_example =
    restore_persistent_state-RunOn 100 saved default_config (subnet attackers_net) old_ban
      restored_well

make_room_for_ip-lt_example : length (make_room_for_ip attacker fresh).0.ip_counts < 10_000
unfolding new
make_room_for_ip-lt_example =
    make_room_for_ip-lt attacker fresh fresh-IsSeen (omega arith) fresh-free
