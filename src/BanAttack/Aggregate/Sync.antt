-- ===== src/BanAttack/Aggregate/Sync.antt =====
-- src/ban_attack/aggregate.rs: the entries of the in-memory backend against the table of active
-- bans.
use router_hub.Common.{
  ℕ, String, ◌+◌, ◌≡◌, refl, sym, ap, ◌∙◌, Bool, true, false, not, ◌&&◌, ◌||◌, List, [], ◌∷◌, ◌++◌,
  Option, none, some, arith, leb, if◌then◌else◌, get, contains_key, remove, has, set_insert,
  set_remove, filterb, max, has-set_insert, has-set_remove, contains_key-remove, Bool-cases,
  Option-cases, inl, inr, Result, ok, err, M, ◌>>=◌, pure, ◌==◌, length,
}
use router_hub.BanAttack.Net.{IpAddr, Externs, ip_eq, net_eq}
use router_hub.BanAttack.Backend.{
  BanTarget, ip, subnet, target_eq, BanBackend, BackendError, capacity_reached, memory_backend,
}
use router_hub.BanAttack.Aggregate.State.{Aggregator, subnet_for, is_covered_by_banned_subnet}
use router_hub.BanAttack.Aggregate.Counts.{count_of, forget_expired, forget_exceptions}
use router_hub.BanAttack.Aggregate.Bans.{
  World, Step, call, update, lift, lift_all, drop_ban, has_capacity_for, ensure_active_capacity_for,
  add_timed, enter_ban, mark_banned, set_expiry, drop_covered, remove_covered_ip_bans,
  settle_subnet, settle_ip, finish_promotion, finish_manual, promote, add_manual, refused_address,
  apply_exceptions, cleanup_expired,
}
use router_hub.BanAttack.Aggregate.Record.{
  RecordResult, prepare, add_score, note_offender, should_promote, count_transitions, finish_record,
  report_promotion, report_ban, react, record_match,
}
use router_hub.BanAttack.Aggregate.Frames.{
  SameBans, forget_expired-SameBans, forget_exceptions-SameBans, count_transitions-SameBans,
}
use router_hub.BanAttack.Aggregate.Mirror.{AddsBan, enter_ban-AddsBan, set_expiry_keys}
pub mod Methods

abbrev pub Memory : Type 0 → Type 0
Memory Net = World Net (List (BanTarget Net))

module _ {Net : Type 0} ⦃o : Externs Net⦄ where
  -- The backend holds exactly the targets that the aggregator believes to be banned.
  abbrev pub InSync : Memory Net → Type 0
  InSync w = (t : BanTarget Net) → has t w.1 ≡ contains_key t w.0.active_bans

  pub SameBans-InSync :
      {g h : Aggregator Net} (s : List (BanTarget Net))
      → SameBans g h
      → InSync (g, s)
      → InSync (h, s)
  SameBans-InSync s same i t = rw same.active (i t)

  drop-InSync :
      (t : BanTarget Net) (g : Aggregator Net) (s : List (BanTarget Net))
      → InSync (g, s)
      → InSync (drop_ban t g, set_remove t s)
  unfolding drop_ban
  drop-InSync (ip a) g s i k =
      rw (has-set_remove (ip a) k s, contains_key-remove (ip a) k g.active_bans, i k)
  drop-InSync (subnet n) g s i k =
      rw (has-set_remove (subnet n) k s, contains_key-remove (subnet n) k g.active_bans, i k)

  pub lift_all-InSync :
      (ts : List (BanTarget Net)) (w : Memory Net)
      → InSync w
      → InSync (lift_all memory_backend ts w).1
  unfolding lift_all lift
  lift_all-InSync [] w i = i
  lift_all-InSync (t ∷ ts) (g, s) i =
      lift_all-InSync ts (drop_ban t g, set_remove t s) (drop-InSync t g s i)

  drop_covered-InSync :
      (n : Net) (xs : List IpAddr) (w : Memory Net)
      → InSync w
      → InSync (drop_covered memory_backend n xs w).1
  unfolding drop_covered
  drop_covered-InSync n [] w i = i
  drop_covered-InSync n (a ∷ xs) (g, s) i =
      drop_covered-InSync n xs (drop_ban (ip a) g, set_remove (ip a) s) (drop-InSync (ip a) g s i)

  -- A ban enters the table and the backend together.
  add_timed-InSync :
      (t : BanTarget Net) (source reason : String) (hits now : ℕ) (rule : Option String)
      (g : Aggregator Net) (s : List (BanTarget Net))
      → InSync (g, s)
      → InSync (enter_ban t source reason hits now rule g, set_insert t s)
  add_timed-InSync t source reason hits now rule g s i u =
      let added = enter_ban-AddsBan t source reason hits now rule g in
      has-set_insert t u s ∙ rw (i u) (sym (added.keys u))

  pub add_then-InSync :
      {A : Type 0} (t : BanTarget Net) (source reason : String) (hits now : ℕ)
      (rule : Option String) (k : Step Net (List (BanTarget Net)) A) (w : Memory Net)
      → InSync w
      → ((h : Memory Net) → InSync h → InSync (k h).1)
      → InSync ((add_timed memory_backend t source reason hits now rule >>= λ _. k) w).1
  unfolding add_timed ensure_active_capacity_for
  add_then-InSync t source reason hits now rule k (g, s) i next =
      elim (has_capacity_for g t)
        as (λ c.
          InSync
            ((((λ (w : Memory Net).
                    if c
                    then (ok tt, (g, s))
                    else (err (capacity_reached g.config.max_active_bans), (g, s)))
                  >>= λ _. call (memory_backend.add t) >>= λ _.
                      update (enter_ban t source reason hits now rule))
                >>= λ _. k)
              (g, s)).1) [
                | false ↦ i
                | true ↦
                    next (enter_ban t source reason hits now rule g, set_insert t s)
                      (add_timed-InSync t source reason hits now rule g s i)
              ]

  pub mark-InSync :
      (t : BanTarget Net) (g : Aggregator Net) (s : List (BanTarget Net))
      → InSync (g, s)
      → InSync (mark_banned t g, s)
  unfolding mark_banned
  mark-InSync (ip a) g s i u = i u
  mark-InSync (subnet n) g s i u = i u

  settle-InSync :
      (t : BanTarget Net) (f : ℕ → ℕ) (g : Aggregator Net) (s : List (BanTarget Net))
      → InSync (g, s)
      → InSync (mark_banned t (set_expiry t f g), s)
  unfolding mark_banned
  settle-InSync (ip a) f g s i u = i u ∙ sym (set_expiry_keys (ip a) f g u)
  settle-InSync (subnet n) f g s i u = i u ∙ sym (set_expiry_keys (subnet n) f g u)

  settle_subnet-InSync :
      (n : Net) (f : ℕ → ℕ) (w : Memory Net)
      → InSync w
      → InSync (settle_subnet memory_backend n f w).1
  unfolding settle_subnet remove_covered_ip_bans
  settle_subnet-InSync n f (g, s) i =
      let h = mark_banned (subnet n) (set_expiry (subnet n) f g) in
      drop_covered-InSync n (filterb (λ a. o.contains n a) h.banned_ips) (h, s)
        (settle-InSync (subnet n) f g s i)

  pub promote-InSync :
      (n : Net) (rule : Option String) (now : ℕ) (w : Memory Net)
      → InSync w
      → InSync (promote memory_backend n rule now w).1
  unfolding promote finish_promotion
  promote-InSync n rule now (g, s) i =
      let until = now + o.seconds g.config.subnet_ban_seconds in
      add_then-InSync (subnet n) "automatic" "subnet promotion" (count_of n g.subnet_counts) now
        rule (finish_promotion memory_backend n until) (g, s) i
        (settle_subnet-InSync n (λ t. max t until))

  finish_manual-InSync :
      (t : BanTarget Net) (until : ℕ) (w : Memory Net)
      → InSync w
      → InSync (finish_manual memory_backend t until w).1
  unfolding finish_manual settle_ip
  finish_manual-InSync (ip a) until (g, s) i = settle-InSync (ip a) (λ _. until) g s i
  finish_manual-InSync (subnet n) until w i = settle_subnet-InSync n (λ _. until) w i

  pub add_manual-InSync :
      (t : BanTarget Net) (duration : ℕ) (reason : String) (now : ℕ) (w : Memory Net)
      → InSync w
      → InSync (add_manual memory_backend t duration reason now w).1
  unfolding add_manual
  add_manual-InSync t duration reason now (g, s) i =
      elim (Option-cases (refused_address memory_backend g t)) [
        | inr (a, hit) ↦ rw (hit, add_manual) i
        | inl free ↦
            rw (free, add_manual)
              (add_then-InSync t "manual" reason 1 now none
                (finish_manual memory_backend t (now + duration)) (g, s) i
                (finish_manual-InSync t (now + duration)))
      ]
