-- ===== src/Examples/Engines.antt =====
-- src/ban_attack/engine.rs: the theorems on the worker at concrete inputs.
use router_hub.Common.{
  ℕ, ◌≡◌, refl, true, List, [], ◌∷◌, ◌++◌, none, some, arith, get, insert, get-insert, get-remove,
  contains_key, any, filterb, filter_map, sort_by, remove, Option-cases, inl, inr, ok, err, Ends,
  nat_eq,
}
use router_hub.BanAttack.Net.{ip_eq, net_eq}
use router_hub.BanAttack.Config.{default_config}
use router_hub.BanAttack.Backend.{subnet, target_eq, BanBackend, message}
use router_hub.BanAttack.Aggregate.State.{new, ActiveBan}
use router_hub.BanAttack.Aggregate.Bans.{
  add_manual, add_timed, ensure_active_capacity_for, has_capacity_for, finish_manual, settle_subnet,
  remove_covered_ip_bans, drop_covered, set_expiry, enter_ban, timed_ban, next_offense, mark_banned,
}
use router_hub.BanAttack.Aggregate.Evict.{offender_entries, trim_reputation, trim_oldest}
use router_hub.BanAttack.Aggregate.Persist.{persistent_state}
use router_hub.BanAttack.Aggregate.Sound.{IsSound}
use router_hub.BanAttack.Aggregate.History.{new-IsSound}
use router_hub.BanAttack.Engine.{Worker, StateError}
use router_hub.BanAttack.Engine.Storage.{save_state, save_in, write_state, publish, load_state}
use router_hub.BanAttack.Engine.Commands.{
  Received, received, timed_out, reconcile, add_ban, stop, ends_loop, finish_ban, make_ban, run,
}
use router_hub.BanAttack.Engine.Kept.Rounds.{AllAllowed}
use router_hub.BanAttack.Engine.Sound.{Fits, run-IsSound}
use router_hub.BanAttack.Engine.Excepted.{FitsAndSpares, IsSparing, run-IsSparing}
use router_hub.BanAttack.Engine.Stopped.{IsOver, run-IsOver}
use router_hub.BanAttack.Engine.Answers.{IsMade, make_ban-IsMade}
use router_hub.BanAttack.Engine.Saved.{
  DiskLaws, IsWhole, IsSaved, save_state-IsWhole, load_state-save_state,
}
use router_hub.Examples.Fixtures.{Network, networks, attackers_net}
use router_hub.Examples.Machine.{
  Machine, idle, set_backend, plain_disk, rename_file, machine, one_pattern, worker, empty_state,
}

-- A poll that bans the attacker, a ban by hand, and the end.
abbrev session : List (Received Network ℕ (Unit {0}) (Unit {0}))
session = timed_out ∷ received (add_ban (subnet attackers_net) 600 "by hand") ∷ received stop ∷ []

session-Fits : AllAllowed one_pattern machine set_backend Fits session (worker, idle)
unfolding AllAllowed
session-Fits = (tt, (tt, (tt, tt)))

session-FitsAndSpares :
    AllAllowed one_pattern machine set_backend FitsAndSpares session (worker, idle)
unfolding AllAllowed
session-FitsAndSpares = (tt, (tt, (tt, tt)))

run-IsSound_example :
    IsSound (run one_pattern machine set_backend session (worker, idle)).1.0.aggregator
run-IsSound_example =
    run-IsSound one_pattern machine set_backend session (worker, idle) session-Fits
      (new-IsSound default_config)

worker-IsSparing : IsSparing worker
unfolding new contains_key
worker-IsSparing = record { sound = new-IsSound default_config; spares = λ b listed. refl }

run-IsSparing_example : IsSparing (run one_pattern machine set_backend session (worker, idle)).1.0
run-IsSparing_example =
    run-IsSparing one_pattern machine set_backend session (worker, idle) session-FitsAndSpares
      worker-IsSparing

-- A backend that no longer reconciles.
abbrev broken_backend : BanBackend Network Machine
broken_backend = record set_backend { reconcile = λ ts _ x. (err (message "no ipset"), x) }

-- What the start on an empty disk makes.
abbrev fresh_worker : Worker Network ℕ (Unit {0}) (Unit {0})
fresh_worker = record worker {
  health = record worker.health { started_at = some 100; last_reconcile_at = some 100 };
  last_reverify = 101;
  last_poll = 102;
  last_persist = 103;
  last_cleanup = 104;
}

session-ends : any (ends_loop one_pattern machine set_backend) session ≡ true
unfolding any
session-ends = refl

run-IsOver_example :
    IsOver machine one_pattern set_backend
      (run one_pattern machine set_backend session (worker, idle)).1
    × ((rest : List (Received Network ℕ (Unit {0}) (Unit {0})))
        → run one_pattern machine set_backend (session ++ rest) (worker, idle)
          ≡ run one_pattern machine set_backend session (worker, idle))
run-IsOver_example = run-IsOver machine one_pattern set_backend session (worker, idle) session-ends

abbrev made_by_hand : ActiveBan Network
made_by_hand = record {
  network = attackers_net;
  source = "manual";
  reason = "by hand";
  created_at = 100;
  expires_at = 700;
  hit_count = 1;
  offense_count = 1;
  triggering_rule = none;
}

made_well :
    (make_ban one_pattern machine set_backend (subnet attackers_net) 600 "by hand" (worker, idle)).0
    ≡ ok (some made_by_hand)
unfolding make_ban finish_ban add_manual add_timed ensure_active_capacity_for has_capacity_for
    finish_manual settle_subnet remove_covered_ip_bans drop_covered filterb set_expiry enter_ban
    timed_ban next_offense trim_reputation trim_oldest mark_banned get insert contains_key new
made_well = refl

make_ban-IsMade_example :
    IsMade one_pattern machine set_backend
      (subnet attackers_net)
      600
      100
      "by hand"
      worker
      (make_ban one_pattern machine set_backend
        (subnet attackers_net)
        600
        "by hand"
        (worker, idle)).1.0
      (some made_by_hand)
make_ban-IsMade_example =
    make_ban-IsMade one_pattern machine set_backend (subnet attackers_net) 600 "by hand" worker idle
      made_well

renamed :
    (q p : ℕ) (x : Machine)
    → (rename_file q p x).0 ≡ ok tt
    → get p (rename_file q p x).1.store ≡ get q x.store
renamed q p x h = elim (Option-cases (get q x.store)) [
  | inl none_there ↦ absurd (ground (arith, rw (none_there, rename_file) at h))
  | inr (bytes, there) ↦
      rw (there, rename_file) (ground (arith, get-insert p p bytes (remove q x.store)))
]

not_renamed :
    (q p : ℕ) (x : Machine) {y : StateError}
    → (rename_file q p x).0 ≡ err y
    → get p (rename_file q p x).1.store ≡ get p x.store
not_renamed q p x h = elim (Option-cases (get q x.store)) [
  | inl none_there ↦ rw (none_there, rename_file) refl
  | inr (bytes, there) ↦ absurd (ground (arith, rw (there, rename_file) at h))
]

plain_disk-DiskLaws : DiskLaws plain_disk (λ p x. get p x.store)
plain_disk-DiskLaws = record {
  temp_differs = λ d p name. ground arith;
  name_keeps = λ p x. refl;
  directories_keep = λ p d x. refl;
  create_keeps = λ p q x apart. ground (arith, get-insert q p [] x.store);
  write_keeps = λ p q bytes x apart. ground (arith, get-insert q p bytes x.store);
  written = λ q bytes x good. ground (arith, get-insert q q bytes x.store);
  sync_keeps = λ p q x. refl;
  renamed = renamed;
  not_renamed = λ q p x bad. not_renamed q p x bad;
  directory_sync_keeps = λ p d x. refl;
  remove_keeps = λ p q x apart. ground (arith, get-remove q p x.store);
  read_gives = λ p bytes x there. rw (there, plain_disk) refl;
}

save_state-IsWhole_example :
    Ends
      (λ _. IsSaved machine plain_disk-DiskLaws 10 empty_state)
      (IsWhole machine plain_disk-DiskLaws 10 empty_state none)
      (save_state machine 10 empty_state idle)
unfolding get
save_state-IsWhole_example =
    save_state-IsWhole machine plain_disk-DiskLaws 10 empty_state none idle refl

reads :
    (bytes : List ℕ)
    → machine.disk.to_vec_pretty (persistent_state machine.name_lt 7 (new default_config))
      ≡ ok bytes
    → machine.disk.from_slice bytes ≡ ok (persistent_state machine.name_lt 7 (new default_config))
unfolding persistent_state new sort_by filter_map offender_entries
reads bytes e = refl

saved_well :
    (save_state machine 10 (persistent_state machine.name_lt 7 (new default_config)) idle).0 ≡ ok tt
unfolding save_state save_in write_state publish get insert remove
saved_well = refl

load_state-save_state_example :
    (load_state machine 10
      (save_state machine 10 (persistent_state machine.name_lt 7 (new default_config)) idle).1).0
    ≡ ok (some (persistent_state machine.name_lt 7 (new default_config)))
load_state-save_state_example =
    load_state-save_state machine plain_disk-DiskLaws 10 7 (new default_config) idle reads
      saved_well
