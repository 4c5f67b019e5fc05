-- ===== src/BanAttack/Net.antt =====
-- Addresses, and what the ban engine takes from the crates `ipnet` and `chrono`.
use router_hub.Common.{ℕ, ◌≡◌, ◌↔◌, Bool, true, false, arith, Eq, nat_beq, ltb}

-- `std::net::IpAddr`: the address as a number.
pub data IpAddr : Type 0 where
  v4 : ℕ → IpAddr
  v6 : ℕ → IpAddr

abbrev pub is_ipv4 : IpAddr → Bool
is_ipv4 (v4 a) = true
is_ipv4 (v6 a) = false

abbrev pub ip_beq : IpAddr → IpAddr → Bool
ip_beq (v4 a) (v4 b) = nat_beq a b
ip_beq (v6 a) (v6 b) = nat_beq a b
ip_beq (v4 a) (v6 b) = false
ip_beq (v6 a) (v4 b) = false

pub ip_beq_iff : (a b : IpAddr) → (ip_beq a b ≡ true) ↔ (a ≡ b)
ip_beq_iff (v4 a) (v4 b) = ground arith
ip_beq_iff (v6 a) (v6 b) = ground arith
ip_beq_iff (v4 a) (v6 b) = ground arith
ip_beq_iff (v6 a) (v4 b) = ground arith

instance abbrev pub ip_eq : Eq IpAddr
ip_eq = record { beq = ip_beq; beq_iff = ip_beq_iff }

-- `Ord` of `IpAddr`: every IPv4 address is below every IPv6 address.
abbrev pub ip_lt : IpAddr → IpAddr → Bool
ip_lt (v4 a) (v4 b) = ltb a b
ip_lt (v6 a) (v6 b) = ltb a b
ip_lt (v4 a) (v6 b) = true
ip_lt (v6 a) (v4 b) = false

-- `ipnet::IpNet` and `chrono`, which are not part of the repository. `new` is
-- `IpNet::new(ip, prefix)` at a prefix length that is valid for the address (the source calls
-- `expect` on it, and `validate` admits no other length); `from_ip` is `IpNet::from`; `net_lt` is
-- the order of the texts of two networks. A time is a
-- number of ticks since a fixed origin, and `seconds` is `Duration::seconds` in ticks.
pub record Externs (Net : Type 0) : Type 0 where
  pub contains : Net → IpAddr → Bool
  pub addr : Net → IpAddr
  pub prefix_len : Net → ℕ
  pub new : IpAddr → ℕ → Net
  pub trunc : Net → Net
  pub from_ip : IpAddr → Net
  pub net_beq : Net → Net → Bool
  pub net_beq_iff : (a b : Net) → (net_beq a b ≡ true) ↔ (a ≡ b)
  pub net_lt : Net → Net → Bool
  pub seconds : ℕ → ℕ

instance abbrev pub net_eq : {Net : Type 0} ⦃o : Externs Net⦄ → Eq Net
net_eq ⦃o⦄ = record { beq = o.net_beq; beq_iff = o.net_beq_iff }
