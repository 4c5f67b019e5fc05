-- ===== src/Examples/Halves.antt =====
-- src/ban_attack/backend.rs: the exceptions of the kernel at a concrete input.
use router_hub.Common.{
  ℕ, String, ◌≡◌, ◌↔◌, Bool, true, false, List, ◌∷◌, arith, ltb, if◌then◌else◌, ◌==◌, string_eq, ok,
}
use router_hub.BanAttack.Net.{IpAddr, v4, v6, ip_lt, Externs, net_eq}
use router_hub.BanAttack.Backend.{BanTarget, ip, subnet, message}
use router_hub.BanAttack.IpSet.{Tools, Output}

-- The two halves of the IPv4 addresses.
data Half : Type 0 where
  lower upper : Half

abbrev half_beq : Half → Half → Bool
half_beq lower lower = true
half_beq upper upper = true
half_beq lower upper = false
half_beq upper lower = false

half_beq_iff : (a b : Half) → (half_beq a b ≡ true) ↔ (a ≡ b)
half_beq_iff lower lower = ground arith
half_beq_iff upper upper = ground arith
half_beq_iff lower upper = ground arith
half_beq_iff upper lower = ground arith

abbrev half_of : IpAddr → Half
half_of (v4 a) = if ltb a 2_147_483_648 then lower else upper
half_of (v6 a) = upper

abbrev half_addr : Half → IpAddr
half_addr lower = v4 0
half_addr upper = v4 2_147_483_648

instance abbrev halves : Externs Half
halves = record {
  contains = λ n a. half_beq n (half_of a);
  addr = half_addr;
  prefix_len = λ _. 1;
  new = λ a _. half_of a;
  trunc = λ n. n;
  from_ip = half_of;
  net_beq = half_beq;
  net_beq_iff = half_beq_iff;
  net_lt = λ m n. ip_lt (half_addr m) (half_addr n);
  seconds = λ n. n;
}

-- Which halves a kernel excepts.
record Exceptions : Type 0 where
  low : Bool
  high : Bool

abbrev is_excepted : Half → Exceptions → Bool
is_excepted lower k = k.low
is_excepted upper k = k.high

abbrev half_entry : BanTarget Half → String
half_entry (ip a) = "an address"
half_entry (subnet lower) = "0.0.0.0/1"
half_entry (subnet upper) = "128.0.0.0/1"

abbrev write_entry : String → Bool → Exceptions → Exceptions
write_entry entry b k = if entry == "0.0.0.0/1" then record k { low = b } else record k { high = b }

abbrev read_entry : String → Exceptions → Bool
read_entry entry k = if entry == "0.0.0.0/1" then k.low else k.high

abbrev answer : Bool → Output
answer b = record { success = b; stdout = ""; stderr = "" }

abbrev obey : List String → Exceptions → Output × Exceptions
obey (first ∷ second ∷ third ∷ fourth ∷ rest) k =
    if first == "test"
    then (answer (read_entry third k), k)
    else (answer true, write_entry fourth (second == "add") k)
obey args k = (answer false, k)

abbrev excepting : Tools Half ℕ Exceptions
excepting = record {
  execute = λ call k. let (out, k1) = obey call.args k in (ok out, k1);
  exited = λ _ _. message "exited";
  incompatible = λ _. message "incompatible";
  conflict = λ _. message "conflict";
  restore_failed = λ _ _. message "restore failed";
  entry = half_entry;
  show = λ _. "100";
  contains = λ _ _. true;
  byte_len = λ _. 10;
}
