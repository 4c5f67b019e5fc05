-- ===== src/Examples/Fixtures.antt =====
-- src/ban_attack: networks, configurations and states for the examples.
use router_hub.Common.{
  ℕ, ◌*◌, ◌-◌, ◌/◌, ◌^◌, ◌≡◌, ◌↔◌, Bool, true, false, ◌&&◌, ◌||◌, [], ◌∷◌, none, arith, nat_beq,
  ltb, if◌then◌else◌,
}
use router_hub.BanAttack.Net.{IpAddr, v4, v6, ip_beq, ip_beq_iff, ip_lt, Externs, is_ipv4}
use router_hub.BanAttack.Config.{default_config}
use router_hub.BanAttack.Backend.{subnet, target_eq}
use router_hub.BanAttack.Aggregate.State.{Aggregator, ActiveBan, new}
use router_hub.BanAttack.Aggregate.History.{Call, recorded, banned_by_hand}

-- A network by an address in it and the length of its prefix.
pub record Network : Type 0 where
  pub addr : IpAddr
  pub prefix_len : ℕ

abbrev block : ℕ → ℕ → ℕ
block width a = a / 2 ^ width

abbrev network_contains : Network → IpAddr → Bool
network_contains n a = elim (n.addr) [
  | v4 m ↦ elim a [
    | v4 b ↦ nat_beq (block (32 - n.prefix_len) m) (block (32 - n.prefix_len) b)
    | v6 b ↦ false
  ]
  | v6 m ↦ elim a [
    | v4 b ↦ false
    | v6 b ↦ nat_beq (block (128 - n.prefix_len) m) (block (128 - n.prefix_len) b)
  ]
]

abbrev cut : ℕ → ℕ → ℕ
cut width a = block width a * 2 ^ width

abbrev network_trunc : Network → Network
network_trunc n = elim (n.addr) [
  | v4 m ↦ record { addr = v4 (cut (32 - n.prefix_len) m); prefix_len = n.prefix_len }
  | v6 m ↦ record { addr = v6 (cut (128 - n.prefix_len) m); prefix_len = n.prefix_len }
]

abbrev network_beq : Network → Network → Bool
network_beq m n = ip_beq m.addr n.addr && nat_beq m.prefix_len n.prefix_len

pub network_beq_iff : (m n : Network) → (network_beq m n ≡ true) ↔ (m ≡ n)
network_beq_iff m n = ground (arith, ip_beq_iff m.addr n.addr)

instance abbrev pub networks : Externs Network
networks = record {
  contains = network_contains;
  addr = λ n. n.addr;
  prefix_len = λ n. n.prefix_len;
  new = λ a p. record { addr = a; prefix_len = p };
  trunc = network_trunc;
  from_ip = λ a. record { addr = a; prefix_len = if is_ipv4 a then 32 else 128 };
  net_beq = network_beq;
  net_beq_iff = network_beq_iff;
  net_lt = λ m n. ip_lt m.addr n.addr || (ip_beq m.addr n.addr && ltb m.prefix_len n.prefix_len);
  seconds = λ n. n;
}

abbrev pub attacker : IpAddr
attacker = v4 3221225994

abbrev pub attackers_net : Network
attackers_net = record { addr = v4 3221225984; prefix_len = 24 }

abbrev pub fresh : Aggregator Network
fresh = new default_config

abbrev pub attack : Call Network
attack = recorded attacker 5 "ssh" 100 100

abbrev pub manual : Call Network
manual = banned_by_hand (subnet attackers_net) 600 "by hand" 200

abbrev pub old_ban : ActiveBan Network
old_ban = record {
  network = attackers_net;
  source = "manual";
  reason = "by hand";
  created_at = 0;
  expires_at = 600;
  hit_count = 1;
  offense_count = 1;
  triggering_rule = none;
}

-- An aggregator with one ban of a subnet.
abbrev pub with_ban : Aggregator Network
with_ban = record {
  config = default_config;
  ip_counts = (attacker, 3) ∷ [];
  subnet_counts = (attackers_net, 3) ∷ [];
  banned_ips = [];
  banned_subnets = attackers_net ∷ [];
  active_bans = (subnet attackers_net, old_ban) ∷ [];
  last_seen = (attacker, 50) ∷ [];
  reputation = [];
  subnet_offenders = [];
  eviction_count = 0;
  rule_stats = [];
}
