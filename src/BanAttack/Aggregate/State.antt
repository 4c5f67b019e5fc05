-- ===== src/BanAttack/Aggregate/State.antt =====
-- src/ban_attack/aggregate.rs: the state of the aggregator, and the functions that only read it.
use router_hub.Common.{
  ℕ, String, Bool, true, false, not, ◌&&◌, List, [], Option, leb, nat_beq, if◌then◌else◌, any, Map,
  keys, filterb,
}
use router_hub.BanAttack.Net.{IpAddr, Externs, is_ipv4, net_eq}
use router_hub.BanAttack.Config.{AggregationConfig}
use router_hub.BanAttack.Backend.{BanTarget, ip, subnet}

pub record RuleStats : Type 0 where
  pub match_count : ℕ
  pub ban_count : ℕ

pub record ActiveBan (Net : Type 0) : Type 0 where
  pub network : Net
  pub source : String
  pub reason : String
  pub created_at : ℕ
  pub expires_at : ℕ
  pub hit_count : ℕ
  pub offense_count : ℕ
  pub triggering_rule : Option String

pub record ReputationEntry (Net : Type 0) : Type 0 where
  pub network : Net
  pub offense_count : ℕ
  pub last_banned_at : ℕ
  pub retain_until : ℕ

pub record Aggregator (Net : Type 0) : Type 0 where
  pub config : AggregationConfig
  pub ip_counts : Map IpAddr ℕ
  pub subnet_counts : Map Net ℕ
  pub banned_ips : List IpAddr
  pub banned_subnets : List Net
  pub active_bans : Map (BanTarget Net) (ActiveBan Net)
  pub last_seen : Map IpAddr ℕ
  pub reputation : Map Net (ReputationEntry Net)
  pub subnet_offenders : Map Net (Map IpAddr ℕ)
  pub eviction_count : ℕ
  pub rule_stats : Map String RuleStats

pub data BanTransition (Net : Type 0) : Type 0 where
  banned : BanTarget Net → BanTransition Net
  promoted : Net → List IpAddr → BanTransition Net

unfoldable pub new : {Net : Type 0} → AggregationConfig → Aggregator Net
new config = record {
  config = config;
  ip_counts = [];
  subnet_counts = [];
  banned_ips = [];
  banned_subnets = [];
  active_bans = [];
  last_seen = [];
  reputation = [];
  subnet_offenders = [];
  eviction_count = 0;
  rule_stats = [];
}

abbrev same_family : Bool → Bool → Bool
same_family true b = b
same_family false true = false
same_family false false = true

module _ {Net : Type 0} ⦃o : Externs Net⦄ where
  unfoldable pub is_exception : IpAddr → List Net → Bool
  is_exception a exceptions = any (λ n. o.contains n a) exceptions

  unfoldable pub is_host_network : Net → Bool
  is_host_network n = nat_beq (o.prefix_len n) (if is_ipv4 (o.addr n) then 32 else 128)

  unfoldable pub is_network_covered : Net → List Net → Bool
  is_network_covered n exceptions =
      any
        (λ e.
          same_family (is_ipv4 (o.addr e)) (is_ipv4 (o.addr n))
          && leb (o.prefix_len e) (o.prefix_len n)
          && o.contains e (o.addr n))
        exceptions

  unfoldable pub is_covered_by_banned_subnet : Aggregator Net → IpAddr → Bool
  is_covered_by_banned_subnet g a = any (λ n. o.contains n a) g.banned_subnets

  unfoldable pub subnet_for : AggregationConfig → IpAddr → Net
  subnet_for c a = o.trunc (o.new a (if is_ipv4 a then c.ipv4_prefix else c.ipv6_prefix))

  abbrev is_kept : List Net → BanTarget Net → Bool
  is_kept exceptions (ip a) = not (is_exception a exceptions)
  is_kept exceptions (subnet n) = not (is_network_covered n exceptions)

  unfoldable pub targets_excluding : Aggregator Net → List Net → List (BanTarget Net)
  targets_excluding g exceptions = filterb (is_kept exceptions) (keys g.active_bans)
