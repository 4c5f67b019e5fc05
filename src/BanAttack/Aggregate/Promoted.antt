-- ===== src/BanAttack/Aggregate/Promoted.antt =====
-- src/ban_attack/aggregate.rs: what `promote` comes to.
use router_hub.Common.{
  ℕ, String, ◌+◌, ◌≤◌, ◌≡◌, refl, ap, ◌∙◌, true, false, List, [], ◌∷◌, Option, some, arith, get,
  filterb, has, max, ok, err, Result, Ends, bind_rule, Ends-weaken, ==_refl, has-set_insert,
  any_of_has, Bool-cases, inl, inr,
}
use router_hub.BanAttack.Net.{IpAddr, Externs, ip_eq, net_eq}
use router_hub.BanAttack.Backend.{ip, subnet, target_eq, BanBackend}
use router_hub.BanAttack.Aggregate.State.{Aggregator, ActiveBan, is_covered_by_banned_subnet}
use router_hub.BanAttack.Aggregate.Counts.{count_of}
use router_hub.BanAttack.Aggregate.Bans.{
  World, add_timed, enter_ban, timed_ban, drop_covered, drop_ban, settle_subnet,
  remove_covered_ip_bans, mark_banned, set_expiry, promote, finish_promotion,
}
use router_hub.BanAttack.Aggregate.Manual.{get-enter_ban, get-settle_subnet}
use router_hub.BanAttack.Aggregate.Sound.{Holds, IsSound}
use router_hub.BanAttack.Aggregate.Sound.Adding.{add_timed_rule, promote-IsSound}

module _ {Net : Type 0} ⦃o : Externs Net⦄ {B : Type 0} (backend : BanBackend Net B) where
  drop_covered-nets :
      (n : Net) (xs : List IpAddr) (g : Aggregator Net) (b : B)
      → (drop_covered backend n xs (g, b)).1.0.banned_subnets ≡ g.banned_subnets
  unfolding drop_covered drop_ban
  drop_covered-nets n [] g b = refl
  drop_covered-nets n (x ∷ xs) g b =
      drop_covered-nets n xs (drop_ban (ip x) g) (backend.remove (ip x) b).1

  settle_subnet-banned :
      (n : Net) (f : ℕ → ℕ) (g : Aggregator Net) (b : B)
      → has n (settle_subnet backend n f (g, b)).1.0.banned_subnets ≡ true
  unfolding settle_subnet remove_covered_ip_bans mark_banned
  settle_subnet-banned n f g b =
      let h = set_expiry (subnet n) f g in
      let k = mark_banned (subnet n) h in
      ap (has n) (drop_covered-nets n (filterb (λ a. o.contains n a) k.banned_ips) k b)
      ∙ ground (arith, has-set_insert n n h.banned_subnets, ==_refl n)

  -- What a promotion at `now` leaves, from the tables `g`.
  pub record IsPromoted (n : Net) (now : ℕ) (g h : Aggregator Net) : Type 0 where
    pub sound : IsSound h
    pub banned : has n h.banned_subnets ≡ true
    pub ban : ActiveBan Net
    pub entered : get (subnet n) h.active_bans ≡ some ban
    pub lasts : now + o.seconds g.config.subnet_ban_seconds ≤ ban.expires_at
    pub freed : (a : IpAddr) → o.contains n a ≡ true → has a h.banned_ips ≡ false

  freed_under :
      (n : Net) (h : Aggregator Net) (a : IpAddr)
      → IsSound h
      → has n h.banned_subnets ≡ true
      → o.contains n a ≡ true
      → has a h.banned_ips ≡ false
  unfolding is_covered_by_banned_subnet
  freed_under n h a v banned inside = elim (Bool-cases (has a h.banned_ips)) [
    | inr free ↦ free
    | inl still ↦
        let apart = v.disjoint a still in
        let covered = any_of_has (λ k. o.contains k a) n h.banned_subnets banned inside in
        absurd (ground (arith, apart, covered))
  ]

  -- What `promote` has written once `add_timed` has ended well.
  abbrev Settled : Net → ℕ → World Net B → Type 0
  Settled n until w =
      (has n w.0.banned_subnets ≡ true)
      × ((ban : ActiveBan Net) × (get (subnet n) w.0.active_bans ≡ some ban)
          × (until ≤ ban.expires_at))

  with_state :
      {X A : Type 0} (n : Net) (now : ℕ) (g : Aggregator Net) (r : Result X A × World Net B)
      → IsSound r.1.0
      → Ends (λ _. Settled n (now + o.seconds g.config.subnet_ban_seconds)) (λ w. w.0 ≡ g) r
      → Ends (λ _ w. IsPromoted n now g w.0) (λ w. w.0 ≡ g) r
  with_state n now g (err x, w) v e = e
  with_state n now g (ok a, w) v (banned, (ban, found, late)) = record {
    sound = v;
    banned = banned;
    ban = ban;
    entered = found;
    lasts = late;
    freed = λ k inside. freed_under n w.0 k v banned inside;
  }

  -- A promotion that ends well leaves sound tables in which the subnet is banned, until
  -- `subnet_ban_seconds` after `now` at least, and no address of the subnet is banned on its own,
  -- whatever the backend has answered to the removals. One that ends in an error leaves the tables
  -- as they were.
  pub promote-IsPromoted :
      (n : Net) (rule : Option String) (now : ℕ) (g : Aggregator Net) (b : B)
      → IsSound g
      → Ends
          (λ _ w. IsPromoted n now g w.0)
          (λ (w : World Net B). w.0 ≡ g)
          (promote backend n rule now (g, b))
  unfolding promote finish_promotion
  promote-IsPromoted n rule now g b v =
      let until = now + o.seconds g.config.subnet_ban_seconds in
      let hits = count_of n g.subnet_counts in
      let entered_as = enter_ban (subnet n) "automatic" "subnet promotion" hits now rule g in
      let first = timed_ban g (subnet n) "automatic" "subnet promotion" hits now rule in
      with_state n now g _ (promote-IsSound backend n rule now (g, b) v) (
        bind_rule (Holds (λ h. h ≡ g)) (λ _. Holds (λ h. h ≡ entered_as)) (λ _. Settled n until)
          (Holds (λ h. h ≡ g))
          (add_timed backend (subnet n) "automatic" "subnet promotion" hits now rule)
          (λ _. finish_promotion backend n until)
          (λ w e.
            Ends-weaken _ _ (λ _. Holds (λ h. h ≡ entered_as)) (Holds (λ h. h ≡ g)) _ (λ _ s x. x.0)
              (λ _ x. x)
              (add_timed_rule backend (subnet n) "automatic" "subnet promotion" hits now rule g w
                e))
          (λ _ w e. (
            settle_subnet-banned n (λ t. max t until) w.0 w.1,
            (
              record first { expires_at = max first.expires_at until },
              get-settle_subnet backend n (λ t. max t until) w.0 w.1 first
                  (ap (λ (h : Aggregator Net). get (subnet n) h.active_bans) e
                    ∙ get-enter_ban (subnet n) "automatic" "subnet promotion" hits now rule g),
              omega arith,
            ),
          ))
          (g, b) refl)
