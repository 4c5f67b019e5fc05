-- ===== src/BanAttack/Aggregate/Snapshot.antt =====
-- src/ban_attack/aggregate.rs: the snapshot for the status page.
use router_hub.Common.{
  ℕ, zero, suc, String, Bool, ◌&&◌, ◌||◌, List, [], ◌∷◌, ltb, nat_beq, values, length, sort_by,
}
use router_hub.BanAttack.Net.{IpAddr, Externs, ip_eq, ip_lt, net_eq}
use router_hub.BanAttack.Aggregate.State.{Aggregator, ActiveBan, RuleStats}

-- `Vec::truncate`.
unfoldable pub truncate : {A : Type 0} → ℕ → List A → List A
truncate zero xs = []
truncate (suc n) [] = []
truncate (suc n) (x ∷ xs) = x ∷ truncate n xs

pub record Snapshot (Net : Type 0) : Type 0 where
  pub ip_counts : List (IpAddr × ℕ)
  pub subnet_counts : List (Net × ℕ)
  pub banned_ips : List IpAddr
  pub banned_subnets : List Net
  pub active_bans : List (ActiveBan Net)
  pub tracked_ip_count : ℕ
  pub tracked_subnet_count : ℕ
  pub active_ban_count : ℕ
  pub eviction_count : ℕ
  pub rule_stats : List (String × RuleStats)

-- The order of `(Reverse(score), key)`.
abbrev by_score : {K : Type 0} → (K → K → Bool) → K × ℕ → K × ℕ → Bool
by_score lt x y = ltb y.1 x.1 || (nat_beq x.1 y.1 && lt x.0 y.0)

module _ {Net : Type 0} ⦃o : Externs Net⦄ where
  -- `text_lt` is the order of the names of the rules.
  unfoldable pub snapshot_limited : (String → String → Bool) → ℕ → Aggregator Net → Snapshot Net
  snapshot_limited text_lt limit g = record {
    ip_counts = truncate limit (sort_by (by_score ip_lt) g.ip_counts);
    subnet_counts = truncate limit (sort_by (by_score o.net_lt) g.subnet_counts);
    banned_ips = sort_by ip_lt g.banned_ips;
    banned_subnets = sort_by o.net_lt g.banned_subnets;
    active_bans =
        truncate limit (sort_by (λ x y. o.net_lt x.network y.network) (values g.active_bans));
    tracked_ip_count = length g.ip_counts;
    tracked_subnet_count = length g.subnet_counts;
    active_ban_count = length g.active_bans;
    eviction_count = g.eviction_count;
    rule_stats = sort_by (λ x y. text_lt x.0 y.0) g.rule_stats;
  }
