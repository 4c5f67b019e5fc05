-- ===== src/BanAttack/Aggregate/Match.antt =====
-- src/ban_attack/aggregate.rs: `record` and the ban tables.
use router_hub.Common.{
  ℕ, String, ◌≡◌, false, not, ◌&&◌, some, arith, has, leb, Bool-cases, inl, inr, bind_rule,
  Ends-state, Ends-of_state,
}
use router_hub.BanAttack.Net.{IpAddr, Externs, ip_eq, net_eq}
use router_hub.BanAttack.Backend.{ip, target_eq, BanBackend}
use router_hub.BanAttack.Aggregate.State.{Aggregator, is_covered_by_banned_subnet, subnet_for}
use router_hub.BanAttack.Aggregate.Counts.{count_of}
use router_hub.BanAttack.Aggregate.Bans.{World, promote, mark_banned}
use router_hub.BanAttack.Aggregate.Record.{
  RecordResult, prepare, add_score, note_offender, should_promote, finish_record, report_promotion,
  report_ban, react, record_match,
}
use router_hub.BanAttack.Aggregate.Frames.{
  SameBans, SameBans-trans, prepare-SameBans, add_score-SameBans, record_subnet_offender-SameBans,
  count_transitions-SameBans,
}
use router_hub.BanAttack.Aggregate.Mirror.{
  AddsBan, IsWithin, mark_banned-IsMirrored, mark_ip-IsDisjoint,
}
use router_hub.BanAttack.Aggregate.Sound.{Holds, IsSound, SameBans-IsSound}
use router_hub.BanAttack.Aggregate.Sound.Adding.{add_then-IsSound, promote-IsSound}

module _ {Net : Type 0} ⦃o : Externs Net⦄ where
  pub note_offender-SameBans :
      (a : IpAddr) (n : Net) (previous now : ℕ) (g : Aggregator Net)
      → SameBans g (note_offender a n previous now g)
  unfolding note_offender
  note_offender-SameBans a n previous now g =
      ground (arith, record_subnet_offender-SameBans n a now g)

  SameBans-covered :
      {g h : Aggregator Net}
      → SameBans g h
      → (a : IpAddr) → is_covered_by_banned_subnet g a ≡ false
      → is_covered_by_banned_subnet h a ≡ false
  unfolding is_covered_by_banned_subnet
  SameBans-covered s a free = rw s.nets free

  pub scored-SameBans :
      (a : IpAddr) (weight : ℕ) (rule : String) (now : ℕ) (g : Aggregator Net)
      → let g1 = prepare a rule now g in SameBans g (add_score a (subnet_for g1.config a) weight g1)
  scored-SameBans a weight rule now g =
      SameBans-trans (prepare-SameBans a rule now g) (add_score-SameBans a _ weight _)

  module _ {B : Type 0} (backend : BanBackend Net B) where
    finish_record-IsSound :
        (rule : String) (r : RecordResult Net) (w : World Net B)
        → IsSound w.0
        → IsSound (finish_record backend rule r w).1.0
    unfolding finish_record
    finish_record-IsSound rule r (g, b) v =
        SameBans-IsSound (count_transitions-SameBans rule r.transitions g) v

    report_ban-IsSound :
        (rule : String) (a : IpAddr) {g h : Aggregator Net} (b : B)
        → IsSound g
        → is_covered_by_banned_subnet g a ≡ false
        → AddsBan (ip a) g h
        → IsWithin h
        → IsSound (report_ban backend rule a (h, b)).1.0
    unfolding report_ban mark_banned
    report_ban-IsSound rule a b v free s w =
        finish_record-IsSound rule _ (_, b)
          (record {
            mirrored = mark_banned-IsMirrored (ip a) s v.mirrored;
            disjoint = mark_ip-IsDisjoint a s free v.disjoint;
            within = w;
          })

    react-IsSound :
        (a : IpAddr) (n : Net) (count : ℕ) (rule : String) (now now' : ℕ) (g : Aggregator Net)
        (b : B)
        → IsSound g
        → is_covered_by_banned_subnet g a ≡ false
        → IsSound (react backend a n count rule now now' (g, b)).1.0
    unfolding react report_promotion
    react-IsSound a n count rule now now' g b v free =
        elim (Bool-cases (should_promote n count g)) [
          | inl up ↦
              rw (up, react)
                (Ends-state (Holds IsSound) _ (
                  bind_rule (Holds IsSound) (λ _. Holds IsSound) (λ _. Holds IsSound)
                    (Holds IsSound) (promote backend n (some rule) now')
                    (report_promotion backend rule)
                    (λ w u.
                      Ends-of_state (Holds IsSound) _
                        (promote-IsSound backend n (some rule) now' w u))
                    (λ out w u. Ends-of_state (Holds IsSound) _ (finish_record-IsSound rule _ w u))
                    (g, b) v))
          | inr keep ↦
              elim (Bool-cases (leb g.config.ip_failures count && not (has a g.banned_ips))) [
                | inl ban ↦
                    rw (keep, ban, react)
                      (add_then-IsSound backend (ip a) "automatic" "threshold" count now (some rule)
                        (λ _. report_ban backend rule a) g b v
                        (λ h b' s w. report_ban-IsSound rule a b' v free s w))
                | inr idle ↦ rw (keep, idle, react) v
              ]
        ]

    -- Whatever is matched and whatever the backend answers, `record` leaves sound tables sound.
    pub record_match-IsSound :
        (a : IpAddr) (weight : ℕ) (rule : String) (now now' : ℕ) (w : World Net B)
        → IsSound w.0
        → IsSound (record_match backend a weight rule now now' w).1.0
    unfolding record_match
    record_match-IsSound a weight rule now now' (g, b) v =
        let g1 = prepare a rule now g in
        let n = subnet_for g1.config a in
        let g2 = add_score a n weight g1 in
        let v2 = SameBans-IsSound (scored-SameBans a weight rule now g) v in
        let noted = note_offender-SameBans a n (count_of a g1.ip_counts) now g2 in
        elim (Bool-cases (is_covered_by_banned_subnet g2 a)) [
          | inl hit ↦ rw (hit, record_match) v2
          | inr free ↦
              rw (free, record_match)
                (react-IsSound a n (count_of a g2.ip_counts) rule now now'
                  (note_offender a n (count_of a g1.ip_counts) now g2) b (SameBans-IsSound noted v2)
                  (SameBans-covered noted a free))
        ]
