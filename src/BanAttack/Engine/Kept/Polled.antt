-- ===== src/BanAttack/Engine/Kept/Polled.antt =====
-- src/ban_attack/engine.rs: what `poll` keeps.
use router_hub.Common.{
  ℕ, String, ◌≡◌, refl, true, false, List, [], ◌∷◌, Eq, Bool-cases, Option-cases, Result-cases, inl,
  inr, Result, ok, err,
}
use router_hub.BanAttack.Net.{IpAddr, Externs}
use router_hub.BanAttack.Backend.{BanTarget, BanBackend, BackendError, ReconcileReport}
use router_hub.BanAttack.CompiledConfig.{CompiledFile, excludes}
use router_hub.BanAttack.Rule.{RegexEngine, CompiledRule, match_line}
use router_hub.BanAttack.Aggregate.Record.{RecordResult}
use router_hub.BanAttack.Tailer.Files.{IoError}
use router_hub.BanAttack.Engine.{Outside, Worker, Site}
use router_hub.BanAttack.Engine.Poll.{
  note_reverify, stamp_reverify, reverify, check_reverify, finish_cleanup, clean_up, check_cleanup,
  finish_match, finish_hit, record_hit, try_rule, poll_rules, poll_line, poll_lines, poll_file,
  begin_poll, poll,
}
use router_hub.BanAttack.Engine.Kept.{
  IsStable, if_either, emit-Kept, emit_all-Kept, each-Kept, save-Kept,
}

module _ {Net FilePath Dfa Regex E : Type 0} ⦃o : Externs Net⦄ ⦃eq : Eq FilePath⦄
    (engine : RegexEngine Dfa Regex) (out : Outside Net FilePath E) (backend : BanBackend Net E)
    {P : Worker Net FilePath Dfa Regex → Type 0} (k : IsStable engine out backend P) where
  abbrev Place : Type 0
  Place = Site Net FilePath Dfa Regex E

  abbrev On : Place → Type 0
  On s = P s.0

  note_reverify-Kept :
      (r : Result BackendError ReconcileReport) (s : Place)
      → On s
      → On (note_reverify engine out backend r s)
  unfolding note_reverify
  note_reverify-Kept (ok report) s p = p
  note_reverify-Kept (err x) s p = emit-Kept engine out backend k.calm _ s p

  reverify-Kept : (s : Place) → On s → On (reverify engine out backend s)
  unfolding reverify stamp_reverify
  reverify-Kept (w, x) p = k.calm.same _ _ refl (note_reverify-Kept _ (w, _) p)

  check_reverify-Kept : (s : Place) → On s → On (check_reverify engine out backend s)
  unfolding check_reverify
  check_reverify-Kept (w, x) p = if_either On _ (if_either On _ (reverify-Kept (w, _) p) p) p

  finish_cleanup-Kept :
      (r : Result BackendError (List (BanTarget Net))) (s : Place)
      → On s
      → On (finish_cleanup engine out backend r s)
  unfolding finish_cleanup
  finish_cleanup-Kept (err x) s p = emit-Kept engine out backend k.calm _ s p
  finish_cleanup-Kept (ok expired) (w, x) p =
      save-Kept engine out backend k.calm true _
        (emit_all-Kept engine out backend k.calm _ _ (k.calm.same w _ refl p))

  clean_up-Kept : (s : Place) → On s → On (clean_up engine out backend s)
  unfolding clean_up
  clean_up-Kept (w, x) p = k.calm.same _ _ refl (finish_cleanup-Kept _ (_, _) (k.cleaned _ w _ p))

  check_cleanup-Kept : (s : Place) → On s → On (check_cleanup engine out backend s)
  unfolding check_cleanup
  check_cleanup-Kept (w, x) p =
      if_either On _ (clean_up-Kept (w, _) p) (save-Kept engine out backend k.calm false (w, _) p)

  finish_match-Kept :
      (path : FilePath) (r : RecordResult Net) (s : Place)
      → On s
      → On (finish_match engine out backend path r s)
  unfolding finish_match
  finish_match-Kept path r (w, x) p = emit_all-Kept engine out backend k.calm _ _ (
      emit_all-Kept engine out backend k.calm _ _ (
        save-Kept engine out backend k.calm _ _
          (emit-Kept engine out backend k.calm _ _ (k.calm.same w _ refl p))))

  finish_hit-Kept :
      (path : FilePath) (r : Result BackendError (RecordResult Net)) (s : Place)
      → On s
      → On (finish_hit engine out backend path r s).1
  unfolding finish_hit
  finish_hit-Kept path (ok r) s p = finish_match-Kept path r s p
  finish_hit-Kept path (err x) s p = emit-Kept engine out backend k.calm _ s p

  record_hit-Kept :
      (path : FilePath) (rule : CompiledRule Dfa Regex) (a : IpAddr) (s : Place)
      → excludes s.0.config a ≡ false
      → On s
      → On (record_hit engine out backend path rule a s).1
  unfolding record_hit
  record_hit-Kept path rule a (w, x) allowed p =
      finish_hit-Kept path _ (_, _) (k.recorded a rule.weight rule.name _ _ w _ allowed p)

  try_rule-Kept :
      (path : FilePath) (line : String) (rule : CompiledRule Dfa Regex) (s : Place)
      → On s
      → On (try_rule engine out backend path line rule s).1
  unfolding try_rule
  try_rule-Kept path line rule s p = elim (Result-cases (match_line engine rule line)) [
    | inr (x, e) ↦ rw (e, try_rule) (emit-Kept engine out backend k.calm _ s p)
    | inl (hit, e) ↦ elim (Option-cases hit) [
      | inl miss ↦ rw (e, miss, try_rule) p
      | inr (a, found) ↦ elim (Bool-cases (excludes s.0.config a)) [
        | inl excepted ↦ rw (e, found, excepted, try_rule) p
        | inr allowed ↦ rw (e, found, allowed, try_rule) (record_hit-Kept path rule a s allowed p)
      ]
    ]
  ]

  poll_rules-Kept :
      (path : FilePath) (line : String) (rules : List (CompiledRule Dfa Regex)) (s : Place)
      → On s
      → On (poll_rules engine out backend path line rules s)
  unfolding poll_rules
  poll_rules-Kept path line [] s p = p
  poll_rules-Kept path line (rule ∷ rules) s p =
      let tried = try_rule engine out backend path line rule s in
      let q = try_rule-Kept path line rule s p in
      elim (Bool-cases tried.0) [
        | inl ends ↦ rw (ends, poll_rules) q
        | inr goes_on ↦ rw (goes_on, poll_rules) (poll_rules-Kept path line rules tried.1 q)
      ]

  poll_line-Kept :
      (path : FilePath) (rules : List (CompiledRule Dfa Regex)) (bytes : List ℕ) (s : Place)
      → On s
      → On (poll_line engine out backend path rules bytes s)
  unfolding poll_line
  poll_line-Kept path rules bytes (w, x) p = elim (Result-cases (out.from_utf8 bytes)) [
    | inl (line, e) ↦ rw (e, poll_line) (poll_rules-Kept path line rules (w, x) p)
    | inr (bad, e) ↦
        rw (e, poll_line) (emit-Kept engine out backend k.calm _ (_, _) (k.calm.same w _ refl p))
  ]

  poll_lines-Kept :
      (file : CompiledFile FilePath Dfa Regex) (r : Result IoError (List (List ℕ))) (s : Place)
      → On s
      → On (poll_lines engine out backend file r s)
  unfolding poll_lines
  poll_lines-Kept file (err x) s p = emit-Kept engine out backend k.calm _ s p
  poll_lines-Kept file (ok lines) s p =
      each-Kept engine out backend k.calm _ (poll_line-Kept file.path file.rules) lines s p

  poll_file-Kept :
      (file : CompiledFile FilePath Dfa Regex) (s : Place)
      → On s
      → On (poll_file engine out backend file s)
  unfolding poll_file
  poll_file-Kept file (w, x) p = poll_lines-Kept file _ (_, _) (k.calm.same w _ refl p)

  -- A poll keeps what its beginning has established.
  pub poll-Kept :
      (s : Place) → On (begin_poll engine out backend s) → On (poll engine out backend s)
  unfolding poll
  poll-Kept s p =
      each-Kept engine out backend k.calm _ poll_file-Kept _ _
        (check_cleanup-Kept _ (check_reverify-Kept _ p))
