-- ===== src/BanAttack/Aggregate/Spared.antt =====
-- src/ban_attack/aggregate.rs: an address that the methods are not handed stays free of a ban of its
-- own.
use router_hub.Common.{
  ℕ, String, ◌+◌, ◌≡◌, refl, ◌∙◌, false, not, ◌&&◌, List, [], ◌∷◌, Option, none, some, arith, has,
  leb, contains_key, filterb, max, contains_key-remove, Bool-cases, Option-cases, inl, inr, ◌>>=◌,
  pure, Triple, bind_rule, Ends-weaken, Ends-state, Ends-of_state, ◌==◌,
}
use router_hub.BanAttack.Net.{IpAddr, Externs, ip_eq, net_eq}
use router_hub.BanAttack.Backend.{BanTarget, ip, subnet, target_eq, BanBackend}
use router_hub.BanAttack.Aggregate.State.{Aggregator, subnet_for, is_covered_by_banned_subnet}
use router_hub.BanAttack.Aggregate.Counts.{count_of, forget_exceptions, forget_expired}
use router_hub.BanAttack.Aggregate.Bans.{
  World, Step, call, update, add_timed, lift, lift_all, apply_exceptions, cleanup_expired,
  drop_covered, promote, add_manual, settle_subnet, settle_ip, remove_covered_ip_bans,
  finish_promotion, finish_manual, refused_address, drop_ban, mark_banned, set_expiry,
  excepted_targets, expired_targets,
}
use router_hub.BanAttack.Aggregate.Record.{
  RecordResult, prepare, add_score, note_offender, should_promote, finish_record, report_promotion,
  report_ban, react, record_match,
}
use router_hub.BanAttack.Aggregate.Frames.{
  SameBans, forget_exceptions-SameBans, forget_expired-SameBans, count_transitions-SameBans,
}
use router_hub.BanAttack.Aggregate.Mirror.{enter_ban-AddsBan, set_expiry_keys}
use router_hub.BanAttack.Aggregate.Match.{scored-SameBans, note_offender-SameBans}
use router_hub.BanAttack.Aggregate.Sound.{Holds, call_rule}
use router_hub.BanAttack.Aggregate.Sound.Adding.{add_timed_rule}

module _ {Net : Type 0} ⦃o : Externs Net⦄ (b : IpAddr) where
  -- The address has no ban of its own.
  abbrev pub IsFree : Aggregator Net → Type 0
  IsFree g = contains_key (ip b) g.active_bans ≡ false

  pub SameBans-IsFree : {g h : Aggregator Net} → SameBans g h → IsFree g → IsFree h
  SameBans-IsFree s f = rw s.active f

  -- The target is another one.
  abbrev pub IsOther : BanTarget Net → Type 0
  IsOther t = (t == ip b) ≡ false

  pub drop_ban_keys :
      (t : BanTarget Net) (g : Aggregator Net)
      → contains_key (ip b) (drop_ban t g).active_bans
        ≡ (not (t == ip b) && contains_key (ip b) g.active_bans)
  unfolding drop_ban
  drop_ban_keys (ip a) g = contains_key-remove (ip a) (ip b) g.active_bans
  drop_ban_keys (subnet n) g = contains_key-remove (subnet n) (ip b) g.active_bans

  drop_ban-IsFree : (t : BanTarget Net) (g : Aggregator Net) → IsFree g → IsFree (drop_ban t g)
  drop_ban-IsFree t g f = ground (arith, drop_ban_keys t g)

  mark-IsFree :
      (t : BanTarget Net) (f : ℕ → ℕ) (g : Aggregator Net)
      → IsFree g
      → IsFree (mark_banned t (set_expiry t f g))
  unfolding mark_banned
  mark-IsFree (ip a) f g free = set_expiry_keys (ip a) f g (ip b) ∙ free
  mark-IsFree (subnet n) f g free = set_expiry_keys (subnet n) f g (ip b) ∙ free

  module _ {B : Type 0} (backend : BanBackend Net B) where
    abbrev Free : World Net B → Type 0
    Free = Holds IsFree

    abbrev KeepsFree : {A : Type 0} → Step Net B A → Type 0
    KeepsFree m = Triple Free m (λ _. Free) Free

    lift-KeepsFree : (t : BanTarget Net) → KeepsFree (lift backend t)
    unfolding lift
    lift-KeepsFree t =
        bind_rule Free (λ _. Free) (λ _. Free) Free (call (backend.remove t))
          (λ _. update (drop_ban t)) (call_rule IsFree IsFree (λ _ f. f) (backend.remove t))
          (λ _ w. drop_ban-IsFree t w.0)

    lift_all-KeepsFree : (ts : List (BanTarget Net)) → KeepsFree (lift_all backend ts)
    unfolding lift_all
    lift_all-KeepsFree [] = λ w f. f
    lift_all-KeepsFree (t ∷ ts) =
        bind_rule Free (λ _. Free) (λ _. Free) Free (lift backend t) (λ _. lift_all backend ts)
          (lift-KeepsFree t) (λ _. lift_all-KeepsFree ts)

    lift_then-KeepsFree :
        (ts : List (BanTarget Net)) (f : Aggregator Net → Aggregator Net)
        → ((g : Aggregator Net) → SameBans g (f g))
        → KeepsFree (lift_all backend ts >>= λ _. update f >>= λ _. pure ts)
    lift_then-KeepsFree ts f same =
        bind_rule Free (λ _. Free) (λ _. Free) Free (lift_all backend ts)
          (λ _. update f >>= λ _. pure ts) (lift_all-KeepsFree ts)
          (λ _ w. SameBans-IsFree (same w.0))

    pub apply_exceptions-IsFree :
        (xs : List Net) (w : World Net B) → Free w → Free (apply_exceptions backend xs w).1
    unfolding apply_exceptions
    apply_exceptions-IsFree xs (g, x) f = Ends-state Free _ (
        lift_then-KeepsFree (excepted_targets xs g) (forget_exceptions xs)
          (forget_exceptions-SameBans xs) (g, x) f)

    pub cleanup_expired-IsFree :
        (now : ℕ) (w : World Net B) → Free w → Free (cleanup_expired backend now w).1
    unfolding cleanup_expired
    cleanup_expired-IsFree now (g, x) f = Ends-state Free _ (
        lift_then-KeepsFree (expired_targets now g) (forget_expired now)
          (forget_expired-SameBans now) (g, x) f)

    -- Another target enters the table.
    add_then-KeepsFree :
        {A : Type 0} (t : BanTarget Net) (source reason : String) (hits now : ℕ)
        (rule : Option String) (k : Unit {0} → Step Net B A) (w : World Net B)
        → IsOther t
        → ((v : World Net B) → Free v → Free (k tt v).1)
        → Free w
        → Free ((add_timed backend t source reason hits now rule >>= k) w).1
    add_then-KeepsFree t source reason hits now rule k (g, x) other next free =
        let added = enter_ban-AddsBan t source reason hits now rule g in
        Ends-state Free _ (
          bind_rule (Holds (λ h. h ≡ g)) (λ _. Free) (λ _. Free) Free
            (add_timed backend t source reason hits now rule) k
            (λ w e.
              Ends-weaken _ _ (λ _. Free) Free _
                (λ _ s y. rw y.0 (ground (arith, added.keys (ip b), other))) (λ s y. rw y free)
                (add_timed_rule backend t source reason hits now rule g w e))
            (λ _ v f. Ends-of_state Free (k tt v) (next v f)) (g, x) refl)

    drop_covered-IsFree :
        (n : Net) (xs : List IpAddr) (w : World Net B)
        → Free w
        → Free (drop_covered backend n xs w).1
    unfolding drop_covered
    drop_covered-IsFree n [] w f = f
    drop_covered-IsFree n (a ∷ xs) (g, x) f =
        drop_covered-IsFree n xs (drop_ban (ip a) g, (backend.remove (ip a) x).1)
          (drop_ban-IsFree (ip a) g f)

    settle_subnet-IsFree :
        (n : Net) (f : ℕ → ℕ) (w : World Net B) → Free w → Free (settle_subnet backend n f w).1
    unfolding settle_subnet remove_covered_ip_bans
    settle_subnet-IsFree n f (g, x) free =
        let h = mark_banned (subnet n) (set_expiry (subnet n) f g) in
        drop_covered-IsFree n (filterb (λ a. o.contains n a) h.banned_ips) (h, x)
          (mark-IsFree (subnet n) f g free)

    promote-IsFree :
        (n : Net) (rule : Option String) (now : ℕ) (w : World Net B)
        → Free w
        → Free (promote backend n rule now w).1
    unfolding promote finish_promotion
    promote-IsFree n rule now (g, x) f =
        let until = now + o.seconds g.config.subnet_ban_seconds in
        add_then-KeepsFree (subnet n) "automatic" "subnet promotion" (count_of n g.subnet_counts)
          now rule (λ _. finish_promotion backend n until) (g, x) refl
          (settle_subnet-IsFree n (λ t. max t until)) f

    finish_manual-IsFree :
        (t : BanTarget Net) (until : ℕ) (w : World Net B)
        → Free w
        → Free (finish_manual backend t until w).1
    unfolding finish_manual settle_ip
    finish_manual-IsFree (ip a) until (g, x) f = mark-IsFree (ip a) (λ _. until) g f
    finish_manual-IsFree (subnet n) until w f = settle_subnet-IsFree n (λ _. until) w f

    pub add_manual-IsFree :
        (t : BanTarget Net) (duration : ℕ) (reason : String) (now : ℕ) (w : World Net B)
        → IsOther t
        → Free w
        → Free (add_manual backend t duration reason now w).1
    unfolding add_manual
    add_manual-IsFree t duration reason now (g, x) other f =
        elim (Option-cases (refused_address backend g t)) [
          | inr (a, hit) ↦ rw (hit, add_manual) f
          | inl fine ↦
              rw (fine, add_manual)
                (add_then-KeepsFree t "manual" reason 1 now none
                  (λ _. finish_manual backend t (now + duration)) (g, x) other
                  (finish_manual-IsFree t (now + duration)) f)
        ]

    finish_record-IsFree :
        (rule : String) (r : RecordResult Net) (w : World Net B)
        → Free w
        → Free (finish_record backend rule r w).1
    unfolding finish_record
    finish_record-IsFree rule r (g, x) f =
        SameBans-IsFree (count_transitions-SameBans rule r.transitions g) f

    react-IsFree :
        (a : IpAddr) (n : Net) (count : ℕ) (rule : String) (now now' : ℕ) (w : World Net B)
        → IsOther (ip a)
        → Free w
        → Free (react backend a n count rule now now' w).1
    unfolding react report_promotion report_ban mark_banned
    react-IsFree a n count rule now now' (g, x) other f =
        elim (Bool-cases (should_promote n count g)) [
          | inl up ↦
              rw (up, react)
                (Ends-state Free _ (
                  bind_rule Free (λ _. Free) (λ _. Free) Free (promote backend n (some rule) now')
                    (report_promotion backend rule)
                    (λ w u. Ends-of_state Free _ (promote-IsFree n (some rule) now' w u))
                    (λ made w u. Ends-of_state Free _ (finish_record-IsFree rule _ w u)) (g, x) f))
          | inr keep ↦
              elim (Bool-cases (leb g.config.ip_failures count && not (has a g.banned_ips))) [
                | inl ban ↦
                    rw (keep, ban, react)
                      (add_then-KeepsFree (ip a) "automatic" "threshold" count now (some rule)
                        (λ _. report_ban backend rule a) (g, x) other
                        (λ v u. finish_record-IsFree rule _ (_, v.1) u) f)
                | inr idle ↦ rw (keep, idle, react) f
              ]
        ]

    -- A match of another address gives this one no ban of its own.
    pub record_match-IsFree :
        (a : IpAddr) (weight : ℕ) (rule : String) (now now' : ℕ) (w : World Net B)
        → IsOther (ip a)
        → Free w
        → Free (record_match backend a weight rule now now' w).1
    unfolding record_match
    record_match-IsFree a weight rule now now' (g, x) other f =
        let g1 = prepare a rule now g in
        let n = subnet_for g1.config a in
        let g2 = add_score a n weight g1 in
        let f2 = SameBans-IsFree (scored-SameBans a weight rule now g) f in
        let noted = note_offender-SameBans a n (count_of a g1.ip_counts) now g2 in
        elim (Bool-cases (is_covered_by_banned_subnet g2 a)) [
          | inl hit ↦ rw (hit, record_match) f2
          | inr free ↦
              rw (free, record_match)
                (react-IsFree a n (count_of a g2.ip_counts) rule now now'
                  (note_offender a n (count_of a g1.ip_counts) now g2, x) other
                  (SameBans-IsFree noted f2))
        ]
