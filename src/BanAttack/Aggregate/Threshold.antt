-- ===== src/BanAttack/Aggregate/Threshold.antt =====
-- src/ban_attack/aggregate.rs: `record` once a score has reached `ip_failures`.
use router_hub.Common.{
  ℕ, String, ◌+◌, ◌≤◌, ◌≡◌, refl, true, ◌||◌, List, [], ◌∷◌, Option, some, arith, leb, get,
  get-insert, has, filterb, max, sat_add64, u64_max, has-set_insert, any_of_has, Bool-cases,
  Option-cases, inl, inr, ok, Ends, Triple, bind_rule, Ends-of_state, Ends-ok, ==_refl, Eq, Map,
}
use router_hub.BanAttack.Net.{IpAddr, Externs, ip_eq, net_eq}
use router_hub.BanAttack.Backend.{ip, subnet, target_eq, BanBackend}
use router_hub.BanAttack.Aggregate.State.{Aggregator, subnet_for, is_covered_by_banned_subnet}
use router_hub.BanAttack.Aggregate.Counts.{bump, count_of}
use router_hub.BanAttack.Aggregate.Bans.{
  World, Step, promote, add_timed, drop_covered, drop_ban, settle_subnet, remove_covered_ip_bans,
  finish_promotion, mark_banned, set_expiry,
}
use router_hub.BanAttack.Aggregate.Record.{
  RecordResult, prepare, add_score, note_offender, should_promote, finish_record, report_promotion,
  report_ban, react, record_match,
}
use router_hub.BanAttack.Aggregate.Frames.{SameBans, count_transitions-SameBans, prepare-SameBans}
use router_hub.BanAttack.Aggregate.Match.{note_offender-SameBans}

count_of-bump :
    {K : Type 0} ⦃e : Eq K⦄ (k : K) (w : ℕ) (m : Map K ℕ)
    → w ≤ u64_max
    → count_of k (bump k w m) ≡ sat_add64 (count_of k m) w
unfolding count_of bump sat_add64
count_of-bump k w m small = elim (Option-cases (get k m)) [
  | inl new ↦ rw (new, bump, count_of) (rw (get-insert k k w m, ==_refl k) (ground arith))
  | inr (c, old) ↦
      rw (old, bump, count_of) (rw (get-insert k k (sat_add64 c w) m, ==_refl k) (ground arith))
]

module _ {Net : Type 0} ⦃o : Externs Net⦄ where
  -- The address is banned itself, or a banned subnet covers it.
  abbrev pub IsCaught : IpAddr → Aggregator Net → Type 0
  IsCaught a g = (has a g.banned_ips || is_covered_by_banned_subnet g a) ≡ true

  SameBans-IsCaught :
      (a : IpAddr) {g h : Aggregator Net} → SameBans g h → IsCaught a g → IsCaught a h
  unfolding is_covered_by_banned_subnet
  SameBans-IsCaught a s c = rw (s.ips, s.nets) c

  module _ {B : Type 0} (backend : BanBackend Net B) where
    abbrev Anything : World Net B → Type 0
    Anything w = Unit {0}

    anything : {A : Type 0} (m : Step Net B A) → Triple Anything m (λ _. Anything) Anything
    anything m w h = Ends-of_state Anything (m w) tt

    drop_covered-nets :
        (n : Net) (xs : List IpAddr) (g : Aggregator Net) (b : B)
        → (drop_covered backend n xs (g, b)).1.0.banned_subnets ≡ g.banned_subnets
    unfolding drop_covered drop_ban
    drop_covered-nets n [] g b = refl
    drop_covered-nets n (x ∷ xs) g b =
        drop_covered-nets n xs (drop_ban (ip x) g) (backend.remove (ip x) b).1

    settle_subnet-has :
        (n : Net) (f : ℕ → ℕ) (g : Aggregator Net) (b : B)
        → has n (settle_subnet backend n f (g, b)).1.0.banned_subnets ≡ true
    unfolding settle_subnet remove_covered_ip_bans mark_banned
    settle_subnet-has n f g b =
        let h = mark_banned (subnet n) (set_expiry (subnet n) f g) in
        rw
          (
            drop_covered-nets n (filterb (λ a. o.contains n a) h.banned_ips) h b,
            has-set_insert n n (set_expiry (subnet n) f g).banned_subnets,
            ==_refl n,
          )
          refl

    has-IsCaught :
        (n : Net) (a : IpAddr) (g : Aggregator Net)
        → o.contains n a ≡ true
        → has n g.banned_subnets ≡ true
        → IsCaught a g
    unfolding is_covered_by_banned_subnet
    has-IsCaught n a g inside h =
        ground (arith, any_of_has (λ k. o.contains k a) n g.banned_subnets h inside)

    -- A promotion that ends well covers the addresses of the subnet.
    promote_rule :
        (n : Net) (a : IpAddr) (rule : Option String) (now : ℕ)
        → o.contains n a ≡ true
        → Triple Anything (promote backend n rule now) (λ _ w. IsCaught a w.0) Anything
    unfolding promote finish_promotion
    promote_rule n a rule now inside (g, b) h =
        let until = now + o.seconds g.config.subnet_ban_seconds in
        bind_rule Anything (λ _. Anything) (λ _ w. IsCaught a w.0) Anything
          (add_timed backend (subnet n) "automatic" "subnet promotion" (count_of n g.subnet_counts)
            now rule)
          (λ _. finish_promotion backend n until) (anything _)
          (λ _ w _.
            has-IsCaught n a (settle_subnet backend n (λ t. max t until) w).1.0 inside
              (settle_subnet-has n (λ t. max t until) w.0 w.1))
          (g, b) tt

    finish_rule :
        (a : IpAddr) (rule : String) (r : RecordResult Net)
        → Triple
            (λ w. IsCaught a w.0)
            (finish_record backend rule r)
            (λ _ w. IsCaught a w.0)
            Anything
    unfolding finish_record
    finish_rule a rule r (g, b) c =
        SameBans-IsCaught a (count_transitions-SameBans rule r.transitions g) c

    marked-IsCaught : (a : IpAddr) (g : Aggregator Net) → IsCaught a (mark_banned (ip a) g)
    unfolding mark_banned
    marked-IsCaught a g = ground (arith, has-set_insert a a g.banned_ips, ==_refl a)

    react_rule :
        (a : IpAddr) (n : Net) (count : ℕ) (rule : String) (now now' : ℕ) (g : Aggregator Net)
        (b : B)
        → o.contains n a ≡ true
        → leb g.config.ip_failures count ≡ true
        → Ends (λ _ w. IsCaught a w.0) Anything (react backend a n count rule now now' (g, b))
    unfolding react report_promotion report_ban
    react_rule a n count rule now now' g b inside reached =
        elim (Bool-cases (should_promote n count g)) [
          | inl up ↦
              rw (up, react)
                (bind_rule Anything (λ _ w. IsCaught a w.0) (λ _ w. IsCaught a w.0) Anything
                  (promote backend n (some rule) now') (report_promotion backend rule)
                  (promote_rule n a (some rule) now' inside) (λ out. finish_rule a rule _) (g, b)
                  tt)
          | inr keep ↦ elim (Bool-cases (has a g.banned_ips)) [
            | inl old ↦ rw (keep, reached, old, react) (ground (arith, old))
            | inr new ↦
                rw (keep, reached, new, react)
                  (bind_rule Anything (λ _. Anything) (λ _ w. IsCaught a w.0) Anything
                    (add_timed backend (ip a) "automatic" "threshold" count now (some rule))
                    (λ _. report_ban backend rule a) (anything _)
                    (λ _ w _.
                      finish_rule a rule _ (mark_banned (ip a) w.0, w.1) (marked-IsCaught a w.0))
                    (g, b) tt)
          ]
        ]

    -- Once the score of an address, with the weight of this match, has reached `ip_failures`, a call
    -- of `record` that ends well leaves the address banned or covered by a banned subnet, where the
    -- subnet that is drawn up for the address contains it and the weight fits 64 bits.
    pub record_match-IsCaught :
        (a : IpAddr) (weight : ℕ) (rule : String) (now now' : ℕ) (g : Aggregator Net) (b : B)
        {r : RecordResult Net}
        → o.contains (subnet_for g.config a) a ≡ true
        → weight ≤ u64_max
        → g.config.ip_failures ≤ sat_add64 (count_of a (prepare a rule now g).ip_counts) weight
        → (record_match backend a weight rule now now' (g, b)).0 ≡ ok r
        → IsCaught a (record_match backend a weight rule now now' (g, b)).1.0
    unfolding record_match add_score
    record_match-IsCaught a weight rule now now' g b inside small reached ends =
        let g1 = prepare a rule now g in
        let n = subnet_for g1.config a in
        let g2 = add_score a n weight g1 in
        let same = prepare-SameBans a rule now g in
        let noted = note_offender-SameBans a n (count_of a g1.ip_counts) now g2 in
        let score = count_of-bump a weight g1.ip_counts small in
        elim (Bool-cases (is_covered_by_banned_subnet g2 a)) [
          | inl hit ↦ rw (hit, record_match) (ground (arith, hit))
          | inr free ↦
              rw (free, record_match)
                (Ends-ok (λ _ w. IsCaught a w.0) Anything _
                  (react_rule a n (count_of a g2.ip_counts) rule now now'
                    (note_offender a n (count_of a g1.ip_counts) now g2) b (rw same.config inside)
                    (ground (arith, score, noted.config, same.config)))
                  (rw (free, record_match) at ends))
        ]
