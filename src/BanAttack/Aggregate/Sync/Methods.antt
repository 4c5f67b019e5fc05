-- ===== src/BanAttack/Aggregate/Sync/Methods.antt =====
-- src/ban_attack/aggregate.rs: `record`, `apply_exceptions` and `cleanup_expired` over the in-memory
-- backend.
use router_hub.Common.{
  ℕ, String, not, ◌&&◌, List, some, leb, has, Bool-cases, inl, inr, ◌>>=◌, pure, bind_rule,
  Ends-state, Ends-of_state,
}
use router_hub.BanAttack.Net.{IpAddr, Externs, ip_eq, net_eq}
use router_hub.BanAttack.Backend.{BanTarget, ip, target_eq, memory_backend}
use router_hub.BanAttack.Aggregate.State.{Aggregator, subnet_for, is_covered_by_banned_subnet}
use router_hub.BanAttack.Aggregate.Counts.{count_of, forget_expired, forget_exceptions}
use router_hub.BanAttack.Aggregate.Bans.{
  update, lift_all, promote, apply_exceptions, cleanup_expired, excepted_targets, expired_targets,
}
use router_hub.BanAttack.Aggregate.Record.{
  RecordResult, prepare, should_promote, finish_record, report_promotion, add_score, note_offender,
  report_ban, react, record_match,
}
use router_hub.BanAttack.Aggregate.Frames.{
  SameBans, forget_expired-SameBans, forget_exceptions-SameBans, count_transitions-SameBans,
}
use router_hub.BanAttack.Aggregate.Match.{scored-SameBans, note_offender-SameBans}
use router_hub.BanAttack.Aggregate.Sync.{
  Memory, InSync, SameBans-InSync, lift_all-InSync, add_then-InSync, promote-InSync, mark-InSync,
}

module _ {Net : Type 0} ⦃o : Externs Net⦄ where
  lift_then-InSync :
      (ts : List (BanTarget Net)) (f : Aggregator Net → Aggregator Net)
      → ((g : Aggregator Net) → SameBans g (f g))
      → (w : Memory Net) → InSync w
      → InSync ((lift_all memory_backend ts >>= λ _. update f >>= λ _. pure ts) w).1
  lift_then-InSync ts f same w i = Ends-state InSync _ (
      bind_rule InSync (λ _. InSync) (λ _. InSync) InSync (lift_all memory_backend ts)
        (λ _. update f >>= λ _. pure ts) (λ v j. Ends-of_state InSync _ (lift_all-InSync ts v j))
        (λ _ v j. SameBans-InSync v.1 (same v.0) j) w i)

  -- The exceptions are lifted in the table and in the backend alike.
  pub apply_exceptions-InSync :
      (xs : List Net) (w : Memory Net) → InSync w → InSync (apply_exceptions memory_backend xs w).1
  unfolding apply_exceptions
  apply_exceptions-InSync xs (g, s) i =
      lift_then-InSync (excepted_targets xs g) (forget_exceptions xs)
        (forget_exceptions-SameBans xs) (g, s) i

  -- So are the bans that are over.
  pub cleanup_expired-InSync :
      (now : ℕ) (w : Memory Net) → InSync w → InSync (cleanup_expired memory_backend now w).1
  unfolding cleanup_expired
  cleanup_expired-InSync now (g, s) i =
      lift_then-InSync (expired_targets now g) (forget_expired now) (forget_expired-SameBans now)
        (g, s) i

  finish_record-InSync :
      (rule : String) (r : RecordResult Net) (w : Memory Net)
      → InSync w
      → InSync (finish_record memory_backend rule r w).1
  unfolding finish_record
  finish_record-InSync rule r (g, s) i =
      SameBans-InSync s (count_transitions-SameBans rule r.transitions g) i

  report_ban-InSync :
      (rule : String) (a : IpAddr) (w : Memory Net)
      → InSync w
      → InSync (report_ban memory_backend rule a w).1
  unfolding report_ban
  report_ban-InSync rule a (g, s) i = finish_record-InSync rule _ (_, s) (mark-InSync (ip a) g s i)

  react-InSync :
      (a : IpAddr) (n : Net) (count : ℕ) (rule : String) (now now' : ℕ) (w : Memory Net)
      → InSync w
      → InSync (react memory_backend a n count rule now now' w).1
  unfolding react report_promotion
  react-InSync a n count rule now now' (g, s) i = elim (Bool-cases (should_promote n count g)) [
    | inl up ↦
        rw (up, react)
          (Ends-state InSync _ (
            bind_rule InSync (λ _. InSync) (λ _. InSync) InSync
              (promote memory_backend n (some rule) now') (report_promotion memory_backend rule)
              (λ w j. Ends-of_state InSync _ (promote-InSync n (some rule) now' w j))
              (λ out w j. Ends-of_state InSync _ (finish_record-InSync rule _ w j)) (g, s) i))
    | inr keep ↦ elim (Bool-cases (leb g.config.ip_failures count && not (has a g.banned_ips))) [
      | inl ban ↦
          rw (keep, ban, react)
            (add_then-InSync (ip a) "automatic" "threshold" count now (some rule)
              (report_ban memory_backend rule a) (g, s) i (report_ban-InSync rule a))
      | inr idle ↦ rw (keep, idle, react) i
    ]
  ]

  -- A recorded match puts the same bans in the table and in the backend.
  pub record_match-InSync :
      (a : IpAddr) (weight : ℕ) (rule : String) (now now' : ℕ) (w : Memory Net)
      → InSync w
      → InSync (record_match memory_backend a weight rule now now' w).1
  unfolding record_match
  record_match-InSync a weight rule now now' (g, s) i =
      let g1 = prepare a rule now g in
      let n = subnet_for g1.config a in
      let g2 = add_score a n weight g1 in
      let i2 = SameBans-InSync s (scored-SameBans a weight rule now g) i in
      let noted = note_offender-SameBans a n (count_of a g1.ip_counts) now g2 in
      elim (Bool-cases (is_covered_by_banned_subnet g2 a)) [
        | inl hit ↦ rw (hit, record_match) i2
        | inr free ↦
            rw (free, record_match)
              (react-InSync a n (count_of a g2.ip_counts) rule now now'
                (note_offender a n (count_of a g1.ip_counts) now g2, s)
                (SameBans-InSync s noted i2))
      ]
