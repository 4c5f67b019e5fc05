-- ===== src/BanAttack/Aggregate/Restored/Revived.antt =====
-- src/ban_attack/aggregate.rs: `restore_persistent_state` and the time of the bans.
use router_hub.Common.{
  ℕ, ◌<◌, ◌≡◌, sym, ap, ◌∙◌, true, not, ◌&&◌, List, [], ◌∷◌, some, arith, nat_beq, get, insert,
  get-insert, Bool-cases, inl, inr, ◌==◌, All, All-filterb,
}
use router_hub.BanAttack.Net.{Externs, ip_eq, net_eq}
use router_hub.BanAttack.Config.{AggregationConfig}
use router_hub.BanAttack.Backend.{BanTarget, ip, subnet, target_eq}
use router_hub.BanAttack.Aggregate.State.{
  Aggregator, ActiveBan, new, is_covered_by_banned_subnet, is_host_network,
}
use router_hub.BanAttack.Aggregate.Persist.{
  PersistentState, is_full, restore_subnet, restore_ip, restore_subnets, restore_ips, restore_bans,
  restore_persistent_state, runs_on,
}
use router_hub.BanAttack.Aggregate.Restored.{restore_history-SameBans}

module _ {Net : Type 0} ⦃o : Externs Net⦄ where
  -- Every ban in the table ends after `now`.
  abbrev RunOn : ℕ → Aggregator Net → Type 0
  RunOn now g =
      (t : BanTarget Net) (ban : ActiveBan Net)
      → get t g.active_bans ≡ some ban
      → now < ban.expires_at

  written-RunOn :
      (now : ℕ) (s : BanTarget Net) (new_ban : ActiveBan Net) (g : Aggregator Net)
      → runs_on now new_ban ≡ true
      → RunOn now g
      → (t : BanTarget Net) (ban : ActiveBan Net)
      → get t (insert s new_ban g.active_bans) ≡ some ban
      → now < ban.expires_at
  written-RunOn now s new_ban g fresh h t ban found = elim (Bool-cases (s == t)) [
    | inr other ↦ h t ban (ground (arith, get-insert s t new_ban g.active_bans))
    | inl here ↦
        let same : new_ban ≡ ban = ground (arith, get-insert s t new_ban g.active_bans) in
        let late : now < new_ban.expires_at = ground (arith, fresh) in rw same at late
  ]

  restore_subnets-RunOn :
      (now : ℕ) (bans : List (ActiveBan Net)) (g : Aggregator Net)
      → All (λ ban. runs_on now ban ≡ true) bans
      → RunOn now g
      → RunOn now (restore_subnets bans g)
  unfolding restore_subnets restore_subnet
  restore_subnets-RunOn now [] g fresh h = h
  restore_subnets-RunOn now (ban ∷ bans) g fresh h = elim (Bool-cases (is_full g)) [
    | inl full ↦ rw (full, restore_subnets) h
    | inr room ↦
        rw (room, restore_subnets)
          (restore_subnets-RunOn now bans (restore_subnet ban g) fresh.1
            (written-RunOn now (subnet ban.network) ban g fresh.0 h))
  ]

  restore_ips-RunOn :
      (now : ℕ) (bans : List (ActiveBan Net)) (g : Aggregator Net)
      → All (λ ban. runs_on now ban ≡ true) bans
      → RunOn now g
      → RunOn now (restore_ips bans g)
  unfolding restore_ips restore_ip
  restore_ips-RunOn now [] g fresh h = h
  restore_ips-RunOn now (ban ∷ bans) g fresh h =
      elim (Bool-cases (is_covered_by_banned_subnet g (o.addr ban.network))) [
        | inl hit ↦ rw (hit, restore_ips) (restore_ips-RunOn now bans g fresh.1 h)
        | inr free ↦ elim (Bool-cases (is_full g)) [
          | inl full ↦ rw (free, full, restore_ips) h
          | inr room ↦
              rw (free, room, restore_ips)
                (restore_ips-RunOn now bans (restore_ip ban g) fresh.1
                  (written-RunOn now (ip (o.addr ban.network)) ban g fresh.0 h))
        ]
      ]

  -- Restoration into a new aggregator revives no ban that is over: whatever the state file holds,
  -- every ban in the table ends after the time of the restoration.
  pub restore_persistent_state-RunOn :
      (now : ℕ) (state : PersistentState Net) (c : AggregationConfig) (t : BanTarget Net)
      (ban : ActiveBan Net)
      → get t (restore_persistent_state now state (new c)).1.active_bans ≡ some ban
      → now < ban.expires_at
  unfolding restore_persistent_state restore_bans new get
  restore_persistent_state-RunOn now state c t ban found =
      let bare : RunOn now (new c) = λ s b h. absurd (ground arith) in
      elim (Bool-cases (nat_beq state.schema_version 1)) [
        | inr other ↦ bare t ban (rw (other, restore_persistent_state) at found)
        | inl current ↦
            let run = λ (ban : ActiveBan Net). runs_on now ban in
            let subnets =
              All-filterb (λ b. runs_on now b && not (is_host_network b.network)) run
                state.active_bans (λ b h. ground (arith, h)) in
            let ips =
              All-filterb (λ b. runs_on now b && is_host_network b.network) run state.active_bans
                (λ b h. ground (arith, h)) in
            restore_ips-RunOn now _ _ ips (restore_subnets-RunOn now _ (new c) subnets bare) t ban (
              sym (ap (get t) (restore_history-SameBans now state _).active)
              ∙ (rw (current, restore_persistent_state) at found))
      ]
