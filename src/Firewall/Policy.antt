-- ===== src/Firewall/Policy.antt =====
-- src/firewall.rs: the checks of a policy, and the comparisons of networks.
use router_hub.Common.{
  ℕ, ◌*◌, ◌/◌, ◌%◌, ◌^◌, String, Bool, true, false, not, ◌&&◌, ◌||◌, List, [], ◌∷◌, Option, none,
  some, leb, ltb, nat_beq, nat_eq, string_eq, if◌then◌else◌, ◌==◌, Result, ok, err, has,
}
use Prim.Native.Char.{code}
use router_hub.BanAttack.Net.{IpAddr, v4, v6, Externs, is_ipv4}
use router_hub.BanAttack.Compiled.{check_all, is_whitespace, is_blank}
use router_hub.Firewall.{
  FirewallTuning, BanRule, FirewallPolicy, PolicyError, zero_failures, promote_too_small,
  zero_offenses, zero_days, days_not_increasing, subnet_ban_too_long, score_retention_too_short,
  promotion_window_too_short, reputation_retention_too_short, nil_rule_id, duplicate_rule_id,
  empty_rule_name, duplicate_rule_name, suspiciously_broad, ◌>>?◌, days_to_seconds,
}

-- `str::trim`.
unfoldable pub trim_end : String → String
trim_end String.[] = String.[]
trim_end (String.◌∷◌ c s) =
    let rest = trim_end s in if is_blank (String.◌∷◌ c s) then String.[] else String.◌∷◌ c rest

unfoldable pub trim_start : String → String
trim_start String.[] = String.[]
trim_start (String.◌∷◌ c s) =
    let rest = trim_start s in if is_whitespace (code c) then rest else String.◌∷◌ c s

-- `Ipv4Addr::is_private`, and `is_loopback` of both kinds of address.
unfoldable pub is_private : ℕ → Bool
is_private a = nat_beq (a / 2 ^ 24) 10 || nat_beq (a / 2 ^ 20) 0xac1 || nat_beq (a / 2 ^ 16) 0xc0a8

unfoldable pub is_loopback : IpAddr → Bool
is_loopback (v4 a) = nat_beq (a / 2 ^ 24) 127
is_loopback (v6 a) = nat_beq a 1

-- `segments()[0] & 0xfe00 == 0xfc00`: the upper seven bits of the first segment.
unfoldable pub is_unique_local : ℕ → Bool
is_unique_local a = nat_beq (a / 2 ^ 112 / 2 ^ 9 % 2 ^ 7 * 2 ^ 9) 0xfc00

abbrev pub same_kind : Bool → Bool → Bool
same_kind true b = b
same_kind false b = not b

-- The test on an entry of the allowlist, by its address and the length of its prefix.
unfoldable pub is_suspicious : IpAddr → ℕ → Bool
is_suspicious (v4 a) prefix = not (is_private a) && not (is_loopback (v4 a)) && ltb prefix 16
is_suspicious (v6 a) prefix = not (is_loopback (v6 a)) && not (is_unique_local a) && ltb prefix 48

abbrev pub tuning_days : FirewallTuning → List ℕ
tuning_days t =
    t.score_retention_days ∷ t.reputation_retention_days ∷ t.subnet_promotion_window_days
    ∷ t.subnet_ban_days ∷ t.first_ban_days ∷ t.second_ban_days ∷ t.third_ban_days ∷ t.max_ban_days
    ∷ []

module _ {Net : Type 0} where
  unfoldable pub check_days : List ℕ → Result (PolicyError Net) (Unit {0})
  check_days [] = ok tt
  check_days (days ∷ rest) =
      let others = check_days rest in
      if nat_beq days 0 then err zero_days else days_to_seconds days >>? λ _. others

  unfoldable pub validate_tuning : FirewallTuning → Result (PolicyError Net) (Unit {0})
  validate_tuning t =
      check_all (
        (nat_beq t.ip_failures 0 || nat_beq t.subnet_failures 0, zero_failures)
        ∷ (ltb t.promote_after_banned_ips 2, promote_too_small)
        ∷ (nat_beq t.reputation_repromote_after_offenses 0, zero_offenses)
        ∷ [])
      >>? λ _. check_days (tuning_days t) >>? λ _. check_all (
          (
            ltb t.second_ban_days t.first_ban_days
                || ltb t.third_ban_days t.second_ban_days
                || ltb t.max_ban_days t.third_ban_days,
            days_not_increasing,
          )
          ∷ (ltb t.max_ban_days t.subnet_ban_days, subnet_ban_too_long)
          ∷ (leb t.score_retention_days t.subnet_ban_days, score_retention_too_short)
          ∷ (leb t.subnet_promotion_window_days t.subnet_ban_days, promotion_window_too_short)
          ∷ (leb t.reputation_retention_days t.max_ban_days, reputation_retention_too_short)
          ∷ [])

  -- The loop over the rules, with the ids and the names seen so far.
  unfoldable pub check_policy_rules :
      {FilePath : Type 0}
      → List ℕ
      → List String
      → List (BanRule FilePath)
      → Result (PolicyError Net) (Unit {0})
  check_policy_rules ids names [] = ok tt
  check_policy_rules ids names (rule ∷ rules) =
      let name = trim_end (trim_start rule.name) in
      let rest = check_policy_rules (rule.id ∷ ids) (name ∷ names) rules in
      if nat_beq rule.id 0
      then err nil_rule_id
      else if has rule.id ids
      then err (duplicate_rule_id rule.id)
      else if name == ""
      then err empty_rule_name
      else if has name names
      then err (duplicate_rule_name name)
      else rest

module _ {Net : Type 0} ⦃o : Externs Net⦄ where
  unfoldable pub networks_overlap : Net → Net → Bool
  networks_overlap left right = o.contains left (o.addr right) || o.contains right (o.addr left)

  unfoldable pub network_covers : Net → Net → Bool
  network_covers outer inner =
      same_kind (is_ipv4 (o.addr outer)) (is_ipv4 (o.addr inner))
      && leb (o.prefix_len outer) (o.prefix_len inner)
      && o.contains outer (o.addr inner)

  unfoldable pub check_allowlist : List Net → Result (PolicyError Net) (Unit {0})
  check_allowlist [] = ok tt
  check_allowlist (n ∷ rest) =
      let others = check_allowlist rest in
      if is_suspicious (o.addr n) (o.prefix_len n) then err (suspiciously_broad n) else others

  abbrev pub check_tuning : Option FirewallTuning → Result (PolicyError Net) (Unit {0})
  check_tuning none = ok tt
  check_tuning (some tuning) = validate_tuning tuning

  unfoldable pub validate_policy :
      {FilePath : Type 0} → FirewallPolicy Net FilePath → Result (PolicyError Net) (Unit {0})
  validate_policy policy = check_tuning policy.tuning >>? λ _.
      check_policy_rules [] [] policy.rules >>? λ _. check_allowlist policy.allowlist
