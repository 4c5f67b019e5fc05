-- ===== src/BanAttack/Aggregate/Sound/Adding.antt =====
-- src/ban_attack/aggregate.rs: `add_timed`, `promote`, `add_manual` and the ban tables.
use router_hub.Common.{
  ℕ, String, ◌+◌, ◌≡◌, refl, true, false, not, ◌&&◌, List, [], ◌∷◌, Option, none, arith, has,
  set_insert, filterb, max, has-set_remove, has-filterb, any-set_insert, ap, Option-cases, inl, inr,
  ◌>>=◌, Triple, bind_rule, if-Ends, Ends-weaken, Ends-state, Ends-of_state,
}
use router_hub.BanAttack.Net.{IpAddr, Externs, ip_eq, net_eq}
use router_hub.BanAttack.Backend.{BanTarget, ip, subnet, target_eq, BanBackend}
use router_hub.BanAttack.Aggregate.State.{Aggregator, is_covered_by_banned_subnet}
use router_hub.BanAttack.Aggregate.Counts.{count_of}
use router_hub.BanAttack.Aggregate.Bans.{
  World, Step, call, update, has_capacity_for, ensure_active_capacity_for, add_timed, drop_covered,
  remove_covered_ip_bans, promote, add_manual, settle_subnet, settle_ip, finish_promotion,
  finish_manual, refused_address, drop_ban, enter_ban, mark_banned,
}
use router_hub.BanAttack.Aggregate.Mirror.{
  IsMirrored, IsWithin, AddsBan, drop_ban-IsMirrored, drop_ban-IsWithin, enter_ban-AddsBan,
  set_expiry-AddsBan, set_expiry-IsWithin, mark_banned-IsMirrored, mark_ip-IsDisjoint,
}
use router_hub.BanAttack.Aggregate.Sound.{Holds, IsSound, call_rule, AddsBan-IsWithin}

module _ {Net : Type 0} ⦃o : Externs Net⦄ where
  module _ {B : Type 0} (backend : BanBackend Net B) where
    capacity_rule :
        (t : BanTarget Net) (g : Aggregator Net)
        → Triple
            (Holds (λ h. h ≡ g))
            (ensure_active_capacity_for backend t)
            (λ _. Holds (λ h. (h ≡ g) × (has_capacity_for g t ≡ true)))
            (Holds (λ h. h ≡ g))
    unfolding ensure_active_capacity_for
    capacity_rule t g (h, b) e =
        if-Ends _ _ (has_capacity_for h t) _ _ (λ c. (e, rw (← e) c)) (λ _. e)

    -- On success the ban is in the table, and there was room for it; else nothing has changed.
    pub add_timed_rule :
        (t : BanTarget Net) (source reason : String) (hits now : ℕ) (rule : Option String)
        (g : Aggregator Net)
        → Triple
            (Holds (λ h. h ≡ g))
            (add_timed backend t source reason hits now rule)
            (λ _. Holds (λ h.
              (h ≡ enter_ban t source reason hits now rule g) × (has_capacity_for g t ≡ true)))
            (Holds (λ h. h ≡ g))
    unfolding add_timed
    add_timed_rule t source reason hits now rule g =
        let P : World Net B → Type 0 = Holds (λ h. h ≡ g) in
        let Q : World Net B → Type 0 = Holds (λ h. (h ≡ g) × (has_capacity_for g t ≡ true)) in
        let Entered : World Net B → Type 0 =
          Holds (λ h.
            (h ≡ enter_ban t source reason hits now rule g) × (has_capacity_for g t ≡ true)) in
        let enter : Step Net B (Unit {0}) = update (enter_ban t source reason hits now rule) in
        bind_rule P (λ _. Q) (λ _. Entered) P (ensure_active_capacity_for backend t)
          (λ _. call (backend.add t) >>= λ _. enter) (capacity_rule t g)
          (λ _.
            bind_rule Q (λ _. Q) (λ _. Entered) P (call (backend.add t)) (λ _. enter)
              (call_rule (λ h. (h ≡ g) × (has_capacity_for g t ≡ true)) (λ h. h ≡ g) (λ _ x. x.0)
                (backend.add t))
              (λ _ w q. (ap (enter_ban t source reason hits now rule) q.0, q.1)))

    -- The loop of `remove_covered_ip_bans` lifts the bans of the list and nothing else.
    record Lifts (xs : List IpAddr) (g h : Aggregator Net) : Type 0 where
      mirrored : IsMirrored h
      within : IsWithin h
      ips : (a : IpAddr) → has a h.banned_ips ≡ (not (has a xs) && has a g.banned_ips)
      nets : h.banned_subnets ≡ g.banned_subnets

    drop_covered-Lifts :
        (n : Net) (xs : List IpAddr) (g : Aggregator Net) (b : B)
        → IsMirrored g
        → IsWithin g
        → Lifts xs g (drop_covered backend n xs (g, b)).1.0
    unfolding drop_covered drop_ban has
    drop_covered-Lifts n [] g b m w = record {
      mirrored = m;
      within = w;
      ips = λ a. refl;
      nets = refl;
    }
    drop_covered-Lifts n (x ∷ xs) g b m w =
        let g' = drop_ban (ip x) g in
        let rest =
          drop_covered-Lifts n xs g' (backend.remove (ip x) b).1 (drop_ban-IsMirrored (ip x) g m)
            (drop_ban-IsWithin (ip x) g w) in
        record {
          mirrored = rest.mirrored;
          within = rest.within;
          ips = λ a. ground (arith, rest.ips a, has-set_remove x a g.banned_ips);
          nets = rest.nets;
        }

    -- After a subnet is marked, lifting the bans of its addresses restores the invariant.
    pub remove_covered-IsSound :
        (n : Net) {g h : Aggregator Net} (b : B)
        → IsSound g
        → IsMirrored h
        → IsWithin h
        → h.banned_ips ≡ g.banned_ips
        → h.banned_subnets ≡ set_insert n g.banned_subnets
        → IsSound (remove_covered_ip_bans backend n (h, b)).1.0
    unfolding remove_covered_ip_bans is_covered_by_banned_subnet
    remove_covered-IsSound n {g} {h} b v m w ips nets =
        let xs = filterb (λ a. o.contains n a) h.banned_ips in
        let out = drop_covered-Lifts n xs h b m w in
        record {
          mirrored = out.mirrored;
          within = out.within;
          disjoint = λ a p.
              let old : has a g.banned_ips ≡ true = ground (arith, out.ips a, ips) in
              let apart : o.contains n a ≡ false =
                ground (arith, out.ips a, has-filterb (λ k. o.contains n k) a h.banned_ips) in
              rw (out.nets, nets, any-set_insert (λ k. o.contains k a) n g.banned_subnets, apart)
                (v.disjoint a old);
        }

    -- What follows `add_timed` finds the ban in the table, and the table within its capacity.
    pub add_then-IsSound :
        {A : Type 0} (t : BanTarget Net) (source reason : String) (hits now : ℕ)
        (rule : Option String) (k : Unit {0} → Step Net B A) (g : Aggregator Net) (b : B)
        → IsSound g
        → ((h : Aggregator Net) (b' : B) → AddsBan t g h → IsWithin h → IsSound (k tt (h, b')).1.0)
        → IsSound ((add_timed backend t source reason hits now rule >>= k) (g, b)).1.0
    add_then-IsSound {A} t source reason hits now rule k g b v next =
        let Added : World Net B → Type 0 = Holds (λ h. AddsBan t g h × IsWithin h) in
        let added = enter_ban-AddsBan t source reason hits now rule g in
        Ends-state (Holds IsSound) _ (
          bind_rule (Holds (λ h. h ≡ g)) (λ _. Added) (λ _. Holds IsSound) (Holds IsSound)
            (add_timed backend t source reason hits now rule) k
            (λ w e.
              Ends-weaken
                (λ _. Holds (λ h.
                  (h ≡ enter_ban t source reason hits now rule g) × (has_capacity_for g t ≡ true)))
                (Holds (λ h. h ≡ g)) (λ _. Added) (Holds IsSound)
                (add_timed backend t source reason hits now rule w)
                (λ _ s x. rw x.0 (added, AddsBan-IsWithin t added x.1 v.within)) (λ s x. rw x v)
                (add_timed_rule t source reason hits now rule g w e))
            (λ _ w x. Ends-of_state (Holds IsSound) (k tt w) (next w.0 w.1 x.0 x.1)) (g, b) refl)

    settle_subnet-IsSound :
        (n : Net) (f : ℕ → ℕ) {g h : Aggregator Net} (b : B)
        → IsSound g
        → AddsBan (subnet n) g h
        → IsWithin h
        → IsSound (settle_subnet backend n f (h, b)).1.0
    unfolding settle_subnet mark_banned
    settle_subnet-IsSound n f {h} b v s w =
        let s' = set_expiry-AddsBan (subnet n) f s in
        remove_covered-IsSound n b v (mark_banned-IsMirrored (subnet n) s' v.mirrored)
          (set_expiry-IsWithin (subnet n) f h w) s'.ips (ap (set_insert n) s'.nets)

    settle_ip-IsSound :
        (a : IpAddr) (f : ℕ → ℕ) {g h : Aggregator Net} (b : B)
        → IsSound g
        → is_covered_by_banned_subnet g a ≡ false
        → AddsBan (ip a) g h
        → IsWithin h
        → IsSound (settle_ip backend a f (h, b)).0
    unfolding settle_ip mark_banned
    settle_ip-IsSound a f {h} b v free s w =
        let s' = set_expiry-AddsBan (ip a) f s in
        record {
          mirrored = mark_banned-IsMirrored (ip a) s' v.mirrored;
          disjoint = mark_ip-IsDisjoint a s' free v.disjoint;
          within = set_expiry-IsWithin (ip a) f h w;
        }

    -- Promotion of a subnet leaves sound tables sound, whatever the backend answers: on success the
    -- bans of the addresses in the subnet are gone, even where the backend could not lift them.
    pub promote-IsSound :
        (n : Net) (rule : Option String) (now : ℕ) (w : World Net B)
        → IsSound w.0
        → IsSound (promote backend n rule now w).1.0
    unfolding promote finish_promotion
    promote-IsSound n rule now (g, b) v =
        let until = now + o.seconds g.config.subnet_ban_seconds in
        add_then-IsSound (subnet n) "automatic" "subnet promotion" (count_of n g.subnet_counts) now
          rule (λ _. finish_promotion backend n until) g b v
          (λ h b' s w. settle_subnet-IsSound n (λ t. max t until) b' v s w)

    finish_manual-IsSound :
        (t : BanTarget Net) (until : ℕ) {g h : Aggregator Net} (b : B)
        → IsSound g
        → refused_address backend g t ≡ none
        → AddsBan t g h
        → IsWithin h
        → IsSound (finish_manual backend t until (h, b)).1.0
    unfolding finish_manual
    finish_manual-IsSound (ip a) until b v free s w =
        settle_ip-IsSound a (λ _. until) b v (ground arith) s w
    finish_manual-IsSound (subnet n) until b v free s w =
        settle_subnet-IsSound n (λ _. until) b v s w

    -- Whatever the target and whatever the backend answers, `add_manual` leaves sound tables sound, be
    -- it accepted or refused.
    pub add_manual-IsSound :
        (t : BanTarget Net) (duration : ℕ) (reason : String) (now : ℕ) (w : World Net B)
        → IsSound w.0
        → IsSound (add_manual backend t duration reason now w).1.0
    unfolding add_manual
    add_manual-IsSound t duration reason now (g, b) v =
        elim (Option-cases (refused_address backend g t)) [
          | inr (a, hit) ↦ rw (hit, add_manual) v
          | inl free ↦
              rw (free, add_manual)
                (add_then-IsSound t "manual" reason 1 now none
                  (λ _. finish_manual backend t (now + duration)) g b v
                  (λ h b' s w. finish_manual-IsSound t (now + duration) b' v free s w))
        ]
