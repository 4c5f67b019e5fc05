-- ===== src/BanAttack/Aggregate/Bans.antt =====
-- src/ban_attack/aggregate.rs: the methods that put bans in force and lift them. The state is the
-- aggregator with the state of the backend; a failing backend call leaves both as they stood.
use router_hub.Common.{
  ℕ, String, ◌+◌, Bool, ◌||◌, List, [], ◌∷◌, ◌++◌, map, Option, none, some, leb, ltb, if◌then◌else◌,
  get, contains_key, insert, remove, filterb, filter_map, sat_add32, length, max, set_insert,
  set_remove, sort_by, nat_beq, Result, ok, err, M, ◌>>◌, pure,
}
use router_hub.BanAttack.Net.{IpAddr, Externs, ip_eq, net_eq, ip_lt}
use router_hub.BanAttack.Config.{AggregationConfig}
use router_hub.BanAttack.Backend.{
  BanTarget, ip, subnet, target_eq, BanBackend, BackendError, already_covered, capacity_reached,
}
use router_hub.BanAttack.Aggregate.State.{
  Aggregator, ActiveBan, ReputationEntry, BanTransition, promoted, is_exception, is_network_covered,
  is_covered_by_banned_subnet,
}
use router_hub.BanAttack.Aggregate.Counts.{count_of, forget_exceptions, forget_expired}
use router_hub.BanAttack.Aggregate.Evict.{trim_reputation}

-- `&mut self` with the backend that the method is handed.
abbrev pub World : Type 0 → Type 0 → Type 0
World Net B = Aggregator Net × B

abbrev pub Step : Type 0 → Type 0 → Type 0 → Type 0
Step Net B A = M BackendError (World Net B) A

module _ {Net B : Type 0} where
  -- A call of the backend; the aggregator stays as it is.
  abbrev pub call : {A : Type 0} → M BackendError B A → Step Net B A
  call m (g, b) = ((m b).0, (g, (m b).1))

  abbrev pub update : (Aggregator Net → Aggregator Net) → Step Net B (Unit {0})
  update f (g, b) = (ok tt, (f g, b))

-- The text of a failed removal in `remove_covered_ip_bans`.
pub data CleanupError (Net : Type 0) : Type 0 where
  redundant_ban : Net → IpAddr → BackendError → CleanupError Net

abbrev pub seconds_for : AggregationConfig → ℕ → ℕ
seconds_for c offense_count =
    if nat_beq offense_count 1
    then c.first_ban_seconds
    else if nat_beq offense_count 2
    then c.second_ban_seconds
    else if nat_beq offense_count 3
    then c.third_ban_seconds
    else c.max_ban_seconds

module _ {Net : Type 0} ⦃o : Externs Net⦄ where
  abbrev pub network_of : BanTarget Net → Net
  network_of (ip a) = o.from_ip a
  network_of (subnet n) = n

  unfoldable pub next_offense : Aggregator Net → Net → ℕ
  next_offense g n = elim (get n g.reputation) [
    | none ↦ 1
    | some entry ↦ sat_add32 entry.offense_count 1
  ]

  unfoldable pub has_capacity_for : Aggregator Net → BanTarget Net → Bool
  has_capacity_for g t =
      contains_key t g.active_bans || ltb (length g.active_bans) g.config.max_active_bans

  -- The ban that `add_timed` writes. The durations are in the range of `Duration::seconds` on `i64`;
  -- outside it the source panics.
  unfoldable pub timed_ban :
      Aggregator Net → BanTarget Net → String → String → ℕ → ℕ → Option String → ActiveBan Net
  unfolding next_offense
  timed_ban g t source reason hit_count now triggering_rule = record {
    network = network_of t;
    source = source;
    reason = reason;
    created_at = now;
    expires_at = now + o.seconds (seconds_for g.config (next_offense g (network_of t)));
    hit_count = hit_count;
    offense_count = next_offense g (network_of t);
    triggering_rule = triggering_rule;
  }

  -- What `add_timed` does once the backend has accepted the ban.
  unfoldable pub enter_ban :
      BanTarget Net → String → String → ℕ → ℕ → Option String → Aggregator Net → Aggregator Net
  enter_ban t source reason hit_count now triggering_rule g =
      let n = network_of t in
      let ban = timed_ban g t source reason hit_count now triggering_rule in
      let entry : ReputationEntry Net = record {
        network = n;
        offense_count = next_offense g n;
        last_banned_at = now;
        retain_until = now + o.seconds g.config.reputation_retention_seconds;
      } in
      trim_reputation (record g {
        active_bans = insert t ban g.active_bans;
        reputation = insert n entry g.reputation;
      })

  unfoldable pub drop_ban : BanTarget Net → Aggregator Net → Aggregator Net
  drop_ban (ip a) g = record g {
    banned_ips = set_remove a g.banned_ips;
    active_bans = remove (ip a) g.active_bans;
  }
  drop_ban (subnet n) g = record g {
    banned_subnets = set_remove n g.banned_subnets;
    active_bans = remove (subnet n) g.active_bans;
  }

  -- `banned_ips.insert(ip)` and `banned_subnets.insert(subnet)`, which follow `add_timed`.
  unfoldable pub mark_banned : BanTarget Net → Aggregator Net → Aggregator Net
  mark_banned (ip a) g = record g { banned_ips = set_insert a g.banned_ips }
  mark_banned (subnet n) g = record g { banned_subnets = set_insert n g.banned_subnets }

  -- `active_bans.get_mut(target)` with a write to `expires_at`.
  unfoldable pub set_expiry : BanTarget Net → (ℕ → ℕ) → Aggregator Net → Aggregator Net
  set_expiry t f g = elim (get t g.active_bans) [
    | none ↦ g
    | some ban ↦ record g {
      active_bans = insert t (record ban { expires_at = f ban.expires_at }) g.active_bans;
    }
  ]

  unfoldable pub expired_targets : ℕ → Aggregator Net → List (BanTarget Net)
  expired_targets now g =
      filter_map (λ x. if leb x.1.expires_at now then some x.0 else none) g.active_bans

  unfoldable pub excepted_targets : List Net → Aggregator Net → List (BanTarget Net)
  excepted_targets exceptions g =
      map ip (filterb (λ a. is_exception a exceptions) g.banned_ips)
      ++ map subnet (filterb (λ n. is_network_covered n exceptions) g.banned_subnets)

  module _ {B : Type 0} (backend : BanBackend Net B) where
    unfoldable pub ensure_active_capacity_for : BanTarget Net → Step Net B (Unit {0})
    ensure_active_capacity_for t (g, b) =
        if has_capacity_for g t
        then (ok tt, (g, b))
        else (err (capacity_reached g.config.max_active_bans), (g, b))

    unfoldable pub add_timed :
        BanTarget Net → String → String → ℕ → ℕ → Option String → Step Net B (Unit {0})
    add_timed t source reason hit_count now triggering_rule = do
      ensure_active_capacity_for t
      call (backend.add t)
      update (enter_ban t source reason hit_count now triggering_rule)

    -- One round of the loops of `apply_exceptions` and `cleanup_expired`.
    unfoldable pub lift : BanTarget Net → Step Net B (Unit {0})
    lift t = do call (backend.remove t); update (drop_ban t)

    unfoldable pub lift_all : List (BanTarget Net) → Step Net B (Unit {0})
    lift_all [] = pure tt
    lift_all (t ∷ ts) = do lift t; lift_all ts

    unfoldable pub apply_exceptions : List Net → Step Net B (List (BanTarget Net))
    apply_exceptions exceptions (g, b) =
        let targets = excepted_targets exceptions g in
        let rest : Step Net B (List (BanTarget Net)) = do
          lift_all targets
          update (forget_exceptions exceptions)
          pure targets
        in rest (g, b)

    unfoldable pub cleanup_expired : ℕ → Step Net B (List (BanTarget Net))
    cleanup_expired now (g, b) =
        let expired = expired_targets now g in
        let rest : Step Net B (List (BanTarget Net)) = do
          lift_all expired
          update (forget_expired now)
          pure expired
        in rest (g, b)

    -- `if let Err(error) = … { cleanup_errors.push(…) }`.
    abbrev note_failure :
        Net
        → IpAddr
        → Result BackendError (Unit {0})
        → List (CleanupError Net)
        → List (CleanupError Net)
    note_failure n a (ok _) errors = errors
    note_failure n a (err e) errors = redundant_ban n a e ∷ errors

    -- The loop of `remove_covered_ip_bans`: the addresses removed, in order, and the failures.
    unfoldable pub drop_covered :
        Net → List IpAddr → World Net B → (List IpAddr × List (CleanupError Net)) × World Net B
    drop_covered n [] w = (([], []), w)
    drop_covered n (a ∷ rest) (g, b) =
        let reply = backend.remove (ip a) b in
        let (out, w) = drop_covered n rest (drop_ban (ip a) g, reply.1) in
        ((a ∷ out.0, note_failure n a reply.0 out.1), w)

    unfoldable pub remove_covered_ip_bans :
        Net → World Net B → (List IpAddr × List (CleanupError Net)) × World Net B
    remove_covered_ip_bans n (g, b) =
        let (out, w) = drop_covered n (filterb (λ a. o.contains n a) g.banned_ips) (g, b) in
        ((sort_by ip_lt out.0, out.1), w)

    -- What `promote` and `add_manual` do to a subnet after `add_timed`.
    unfoldable pub settle_subnet :
        Net → (ℕ → ℕ) → World Net B → (List IpAddr × List (CleanupError Net)) × World Net B
    settle_subnet n f (g, b) =
        remove_covered_ip_bans n (mark_banned (subnet n) (set_expiry (subnet n) f g), b)

    -- The end of `promote`.
    unfoldable pub finish_promotion :
        Net → ℕ → Step Net B (BanTransition Net × List (CleanupError Net))
    finish_promotion n until w =
        let (out, w') = settle_subnet n (λ t. max t until) w in (ok (promoted n out.0, out.1), w')

    unfoldable pub promote :
        Net → Option String → ℕ → Step Net B (BanTransition Net × List (CleanupError Net))
    promote n triggering_rule now (g, b) =
        let hits = count_of n g.subnet_counts in
        let until = now + o.seconds g.config.subnet_ban_seconds in
        (add_timed (subnet n) "automatic" "subnet promotion" hits now triggering_rule
            >> finish_promotion n until)
          (g, b)

    -- What `add_manual` does to an address after `add_timed`.
    unfoldable pub settle_ip : IpAddr → (ℕ → ℕ) → World Net B → World Net B
    settle_ip a f (g, b) = (mark_banned (ip a) (set_expiry (ip a) f g), b)

    -- The end of `add_manual`. `None` stands for the panic of its last `expect`.
    unfoldable pub finish_manual : BanTarget Net → ℕ → Step Net B (Option (ActiveBan Net))
    finish_manual (ip a) until w =
        let w' = settle_ip a (λ _. until) w in (ok (get (ip a) w'.0.active_bans), w')
    finish_manual (subnet n) until w =
        let (out, w') = settle_subnet n (λ _. until) w in (ok (get (subnet n) w'.0.active_bans), w')

    -- The guard of `add_manual`, which applies to addresses only.
    abbrev pub refused_address : Aggregator Net → BanTarget Net → Option IpAddr
    refused_address g (ip a) = if is_covered_by_banned_subnet g a then some a else none
    refused_address g (subnet n) = none

    unfoldable pub add_manual : BanTarget Net → ℕ → String → ℕ → Step Net B (Option (ActiveBan Net))
    add_manual t duration reason now (g, b) = elim (refused_address g t) [
      | some a ↦ (err (already_covered a), (g, b))
      | none ↦ (add_timed t "manual" reason 1 now none >> finish_manual t (now + duration)) (g, b)
    ]
