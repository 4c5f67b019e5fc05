-- ===== src/BanAttack/Aggregate/Mirror.antt =====
-- src/ban_attack/aggregate.rs: `banned_ips` and `banned_subnets` against the table of active bans,
-- and the bans of single addresses against those of subnets.
use router_hub.Common.{
  ℕ, String, ◌≡◌, refl, true, false, not, ◌||◌, Option, arith, if◌then◌else◌, get, contains_key,
  has, set_remove, has-set_insert, has-set_remove, contains_key-insert, contains_key-remove,
  contains_key_of_get, length, length-insert, length-remove-le, suc, ◌≤◌, ==_refl, any-false_mono,
  and_right, ◌==◌, Bool-cases, Option-cases, inl, inr,
}
use router_hub.BanAttack.Net.{IpAddr, Externs, ip_eq, net_eq, ip_beq, ip_beq_iff}
use router_hub.BanAttack.Backend.{BanTarget, ip, subnet, target_eq, target_beq_iff}
use router_hub.BanAttack.Aggregate.State.{Aggregator, is_covered_by_banned_subnet}
use router_hub.BanAttack.Aggregate.Bans.{drop_ban, enter_ban, mark_banned, set_expiry}
use router_hub.BanAttack.Aggregate.Frames.{SameBans, trim_reputation-SameBans}

module _ {Net : Type 0} ⦃o : Externs Net⦄ where
  -- The two sets hold exactly the targets that are keys of the table.
  pub record IsMirrored (g : Aggregator Net) : Type 0 where
    pub ips : (a : IpAddr) → has a g.banned_ips ≡ contains_key (ip a) g.active_bans
    pub nets : (n : Net) → has n g.banned_subnets ≡ contains_key (subnet n) g.active_bans

  -- No banned address lies in a banned subnet.
  abbrev pub IsDisjoint : Aggregator Net → Type 0
  IsDisjoint g = (a : IpAddr) → has a g.banned_ips ≡ true → is_covered_by_banned_subnet g a ≡ false

  pub SameBans-IsMirrored : {g h : Aggregator Net} → SameBans g h → IsMirrored g → IsMirrored h
  SameBans-IsMirrored s m = record {
    ips = λ a. rw (s.ips, s.active) (m.ips a);
    nets = λ n. rw (s.nets, s.active) (m.nets n);
  }

  pub SameBans-IsDisjoint : {g h : Aggregator Net} → SameBans g h → IsDisjoint g → IsDisjoint h
  unfolding is_covered_by_banned_subnet
  SameBans-IsDisjoint s d a p = rw s.nets (d a (rw s.ips at p))

  pub drop_ban-IsMirrored :
      (t : BanTarget Net) (g : Aggregator Net) → IsMirrored g → IsMirrored (drop_ban t g)
  unfolding drop_ban
  drop_ban-IsMirrored (ip a) g m = record {
    ips = λ b.
        rw (
          has-set_remove a b g.banned_ips,
          contains_key-remove (ip a) (ip b) g.active_bans,
          m.ips b,
        );
    nets = λ n. rw (contains_key-remove (ip a) (subnet n) g.active_bans) (m.nets n);
  }
  drop_ban-IsMirrored (subnet n) g m = record {
    ips = λ b. rw (contains_key-remove (subnet n) (ip b) g.active_bans) (m.ips b);
    nets = λ k. rw (
      has-set_remove n k g.banned_subnets,
      contains_key-remove (subnet n) (subnet k) g.active_bans,
      m.nets k,
    );
  }

  -- `h` is `g` with one more ban in the table, and the sets as they were.
  pub record AddsBan (t : BanTarget Net) (g h : Aggregator Net) : Type 0 where
    pub config : h.config ≡ g.config
    pub keys :
        (s : BanTarget Net)
        → contains_key s h.active_bans ≡ (t == s || contains_key s g.active_bans)
    pub size : length h.active_bans ≡ (
        if contains_key t g.active_bans then length g.active_bans else suc (length g.active_bans))
    pub ips : h.banned_ips ≡ g.banned_ips
    pub nets : h.banned_subnets ≡ g.banned_subnets

  pub enter_ban-AddsBan :
      (t : BanTarget Net) (source reason : String) (hits now : ℕ) (rule : Option String)
      (g : Aggregator Net)
      → AddsBan t g (enter_ban t source reason hits now rule g)
  unfolding enter_ban
  enter_ban-AddsBan t source reason hits now rule g =
      let s = trim_reputation-SameBans _ in
      record {
        config = s.config;
        keys = λ k. rw s.active (contains_key-insert t k _ g.active_bans);
        size = rw s.active (length-insert t _ g.active_bans);
        ips = s.ips;
        nets = s.nets;
      }

  pub set_expiry-AddsBan :
      (t : BanTarget Net) (f : ℕ → ℕ) {g h : Aggregator Net}
      → AddsBan t g h
      → AddsBan t g (set_expiry t f h)
  unfolding set_expiry
  set_expiry-AddsBan t f {g} {h} s = record {
    config = ground (arith, s.config);
    keys = λ k. elim (Option-cases (get t h.active_bans)) [
      | inl e ↦ rw (e, set_expiry) (s.keys k)
      | inr (ban, e) ↦
          rw (e, set_expiry)
            (ground (
              arith,
              contains_key-insert t k (record ban { expires_at = f ban.expires_at }) h.active_bans,
              s.keys k,
            ))
    ];
    size = elim (Option-cases (get t h.active_bans)) [
      | inl e ↦ rw (e, set_expiry) s.size
      | inr (ban, e) ↦
          rw (e, set_expiry)
            (ground (
              arith,
              length-insert t (record ban { expires_at = f ban.expires_at }) h.active_bans,
              s.size,
              s.keys t,
              contains_key_of_get t h.active_bans,
              ==_refl t,
            ))
    ];
    ips = ground (arith, s.ips);
    nets = ground (arith, s.nets);
  }

  -- A new expiry leaves the keys of the table as they are.
  pub set_expiry_keys :
      (t : BanTarget Net) (f : ℕ → ℕ) (g : Aggregator Net) (k : BanTarget Net)
      → contains_key k (set_expiry t f g).active_bans ≡ contains_key k g.active_bans
  unfolding set_expiry
  set_expiry_keys t f g k = elim (Option-cases (get t g.active_bans)) [
    | inl e ↦ rw (e, set_expiry) refl
    | inr (ban, e) ↦
        rw (e, set_expiry)
          (ground (
            arith,
            contains_key-insert t k (record ban { expires_at = f ban.expires_at }) g.active_bans,
            contains_key_of_get t g.active_bans {v = ban},
            target_beq_iff t k,
          ))
  ]

  pub mark_banned-IsMirrored :
      (t : BanTarget Net) {g h : Aggregator Net}
      → AddsBan t g h
      → IsMirrored g
      → IsMirrored (mark_banned t h)
  unfolding mark_banned
  mark_banned-IsMirrored (ip a) {h} s m = record {
    ips = λ b. rw (has-set_insert a b h.banned_ips, s.ips, s.keys (ip b), m.ips b);
    nets = λ n. rw (s.nets, s.keys (subnet n)) (m.nets n);
  }
  mark_banned-IsMirrored (subnet n) {h} s m = record {
    ips = λ b. rw (s.ips, s.keys (ip b)) (m.ips b);
    nets = λ k. rw (has-set_insert n k h.banned_subnets, s.nets, s.keys (subnet k), m.nets k);
  }

  pub drop_ban-IsDisjoint :
      (t : BanTarget Net) (g : Aggregator Net) → IsDisjoint g → IsDisjoint (drop_ban t g)
  unfolding drop_ban is_covered_by_banned_subnet
  drop_ban-IsDisjoint (ip a) g d b p =
      d b (and_right (not (ip_beq a b)) (rw (has-set_remove a b g.banned_ips) at p))
  drop_ban-IsDisjoint (subnet n) g d b p =
      any-false_mono _ (set_remove n g.banned_subnets) g.banned_subnets
        (λ k h. and_right (not (n == k)) (rw (has-set_remove n k g.banned_subnets) at h)) (d b p)

  -- The new ban of an address that no banned subnet covers keeps the two kinds apart.
  pub mark_ip-IsDisjoint :
      (a : IpAddr) {g h : Aggregator Net}
      → AddsBan (ip a) g h
      → is_covered_by_banned_subnet g a ≡ false
      → IsDisjoint g
      → IsDisjoint (mark_banned (ip a) h)
  unfolding mark_banned is_covered_by_banned_subnet
  mark_ip-IsDisjoint a {g} {h} s free d b p = rw s.nets (elim (Bool-cases (ip_beq a b)) [
    | inl same ↦ rw (← (ip_beq_iff a b).0 same) free
    | inr other ↦ d b (ground (arith, has-set_insert a b h.banned_ips, s.ips))
  ])

  -- The table holds no more bans than the configuration allows.
  abbrev pub IsWithin : Aggregator Net → Type 0
  IsWithin g = length g.active_bans ≤ g.config.max_active_bans

  pub drop_ban-IsWithin :
      (t : BanTarget Net) (g : Aggregator Net) → IsWithin g → IsWithin (drop_ban t g)
  unfolding drop_ban
  drop_ban-IsWithin (ip a) g h = omega (arith, length-remove-le (ip a) g.active_bans)
  drop_ban-IsWithin (subnet n) g h = omega (arith, length-remove-le (subnet n) g.active_bans)

  pub set_expiry-IsWithin :
      (t : BanTarget Net) (f : ℕ → ℕ) (g : Aggregator Net)
      → IsWithin g
      → IsWithin (set_expiry t f g)
  unfolding set_expiry
  set_expiry-IsWithin t f g w = elim (Option-cases (get t g.active_bans)) [
    | inl e ↦ rw (e, set_expiry) w
    | inr (ban, e) ↦
        rw (e, set_expiry)
          (ground (
            arith,
            length-insert t (record ban { expires_at = f ban.expires_at }) g.active_bans,
            contains_key_of_get t g.active_bans {v = ban},
          ))
  ]
