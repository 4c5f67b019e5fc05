-- ===== src/BanAttack/Engine/Kept.antt =====
-- src/ban_attack/engine.rs: what every change of the worker's state keeps, the loop over.
pub mod Polled
pub mod Rounds
use router_hub.Common.{
  ℕ, String, ◌-◌, ◌≤◌, ◌≡◌, refl, Bool, true, false, ◌&&◌, List, [], ◌∷◌, map, Option, none, some,
  ltb, leb, if◌then◌else◌, Eq, length, arith, Option-cases, inl, inr, Result, ok, err,
}
use router_hub.BanAttack.Net.{IpAddr, Externs}
use router_hub.BanAttack.Backend.{BanTarget, ip, subnet, BanBackend, BackendError, ReconcileReport}
use router_hub.BanAttack.CompiledConfig.{CompiledConfig, CompiledFile, excludes}
use router_hub.BanAttack.Rule.{RegexEngine, CompiledRule, match_line}
use router_hub.BanAttack.Aggregate.State.{Aggregator}
use router_hub.BanAttack.Aggregate.Counts.{is_nonempty, reconfigure, reset_counts}
use router_hub.BanAttack.Aggregate.Bans.{cleanup_expired, add_manual, apply_exceptions}
use router_hub.BanAttack.Aggregate.Record.{RecordResult, record_match}
use router_hub.BanAttack.Aggregate.Persist.{each, active_targets, persistent_state}
use router_hub.BanAttack.Tailer.Files.{IoError}
use router_hub.BanAttack.Tailer.Tailers.{read_path}
use router_hub.BanAttack.Engine.{
  Outside, Worker, Site, StateError, EngineEvent, match_found, banned, promoted, unbanned,
  counts_reset, config_updated, failed, Message, EngineState, stopped, note_error, emit,
}
use router_hub.BanAttack.Engine.Storage.{
  after_save, save_is_due, mark_saved, save_now, save_persistence_if_configured,
}
use router_hub.BanAttack.Engine.Commands.{Received, received, change_config, add_ban}
use router_hub.BanAttack.Engine.Poll.{
  emit_all, note_reverify, stamp_reverify, reverify, check_reverify, finish_cleanup, clean_up,
  check_cleanup, finish_match, finish_hit, record_hit, try_rule, poll_rules, poll_line, poll_lines,
  poll_file, begin_poll, poll, transition_event,
}

-- The tables, the configuration, the count of errors and the last poll of a worker.
abbrev pub core :
    {Net FilePath Dfa Regex : Type 0}
    → Worker Net FilePath Dfa Regex
    → Aggregator Net × CompiledConfig Net FilePath Dfa Regex × EngineState × ℕ × ℕ × ℕ
core w = (
  w.aggregator, w.config, w.health.state, w.health.error_count, w.health.command_timeout_count,
  w.last_poll,
)

pub if_either :
    {A : Type 0} (P : A → Type 0) (c : Bool) {x y : A} → P x → P y → P (if c then x else y)
if_either P true p q = p
if_either P false p q = q

module _ {Net FilePath Dfa Regex E : Type 0} ⦃o : Externs Net⦄ ⦃eq : Eq FilePath⦄
    (engine : RegexEngine Dfa Regex) (out : Outside Net FilePath E)
    (backend : BanBackend Net E) where
  -- What a property of the worker needs to outlast events and saves.
  pub record IsCalm (P : Worker Net FilePath Dfa Regex → Type 0) : Type 0 where
    pub same : (v w : Worker Net FilePath Dfa Regex) → core w ≡ core v → P v → P w
    pub noted :
        (m : Message Net) (w : Worker Net FilePath Dfa Regex)
        → P w
        → P (record w { health = note_error out m w.health })

  -- What it needs to outlast a poll that has begun: one field for each change that the poll makes to
  -- the core of the worker.
  pub record IsStable (P : Worker Net FilePath Dfa Regex → Type 0) : Type 0 where
    pub calm : IsCalm P
    pub recorded :
        (a : IpAddr) (weight : ℕ) (rule : String) (now now' : ℕ) (w : Worker Net FilePath Dfa Regex)
        (x : E)
        → excludes w.config a ≡ false
        → P w
        → P (record w {
          aggregator = (record_match backend a weight rule now now' (w.aggregator, x)).1.0;
        })
    pub cleaned :
        (now : ℕ) (w : Worker Net FilePath Dfa Regex) (x : E)
        → P w
        → P (record w { aggregator = (cleanup_expired backend now (w.aggregator, x)).1.0 })

  -- What it needs to be an invariant of the loop. `Allows` says of which commands it is claimed.
  pub record IsKept
      (Allows : Received Net FilePath Dfa Regex → Worker Net FilePath Dfa Regex → Type 0)
      (P : Worker Net FilePath Dfa Regex → Type 0) : Type 0 where
    pub stable : IsStable P
    pub begun : (t : ℕ) (w : Worker Net FilePath Dfa Regex) → P w → P (record w { last_poll = t })
    pub halted :
        (w : Worker Net FilePath Dfa Regex)
        → P w
        → P (record w { health = record w.health { state = stopped } })
    pub reset :
        (t : BanTarget Net) (w : Worker Net FilePath Dfa Regex)
        → P w
        → P (record w { aggregator = reset_counts t w.aggregator })
    pub by_hand :
        (t : BanTarget Net) (seconds : ℕ) (reason : String) (now : ℕ)
        (w : Worker Net FilePath Dfa Regex) (x : E)
        → Allows (received (add_ban t seconds reason)) w
        → P w
        → P (record w {
          aggregator = (add_manual backend t (o.seconds seconds) reason now (w.aggregator, x)).1.0;
        })
    pub excepted :
        (xs : List Net) (w : Worker Net FilePath Dfa Regex) (x : E)
        → P w
        → P (record w { aggregator = (apply_exceptions backend xs (w.aggregator, x)).1.0 })
    pub installed :
        (c : CompiledConfig Net FilePath Dfa Regex) (w : Worker Net FilePath Dfa Regex) (x : E)
        {removed : List (BanTarget Net)}
        → (apply_exceptions backend c.exceptions (w.aggregator, x)).0 ≡ ok removed
        → Allows (received (change_config c)) w
        → P w
        → P (record w {
          aggregator =
              reconfigure c.aggregation
                (apply_exceptions backend c.exceptions (w.aggregator, x)).1.0;
          config = c;
        })

  module _ {P : Worker Net FilePath Dfa Regex → Type 0} (k : IsCalm P) where
    abbrev pub At : Site Net FilePath Dfa Regex E → Type 0
    At s = P s.0

    pub emit-Kept :
        (ev : EngineEvent Net FilePath) (s : Site Net FilePath Dfa Regex E)
        → At s
        → At (emit out ev s)
    unfolding emit
    emit-Kept match_found (w, x) p = k.same w _ refl p
    emit-Kept (banned t) s p = p
    emit-Kept (promoted n xs) s p = p
    emit-Kept (unbanned t) s p = p
    emit-Kept (counts_reset t) s p = p
    emit-Kept config_updated s p = p
    emit-Kept (failed file m) (w, x) p = k.noted m w p

    pub each-Kept :
        {A : Type 0} (f : A → Site Net FilePath Dfa Regex E → Site Net FilePath Dfa Regex E)
        → ((a : A) (s : Site Net FilePath Dfa Regex E) → At s → At (f a s))
        → (xs : List A) (s : Site Net FilePath Dfa Regex E) → At s
        → At (each f xs s)
    unfolding each
    each-Kept f h [] s p = p
    each-Kept f h (x ∷ xs) s p = each-Kept f h xs (f x s) (h x s p)

    pub emit_all-Kept :
        (events : List (EngineEvent Net FilePath)) (s : Site Net FilePath Dfa Regex E)
        → At s
        → At (emit_all engine out backend events s)
    unfolding emit_all
    emit_all-Kept events s p = each-Kept (emit out) emit-Kept events s p

    after_save-Kept :
        (r : Result StateError (Unit {0})) (s : Site Net FilePath Dfa Regex E)
        → At s
        → At (after_save out r s)
    unfolding mark_saved
    after_save-Kept (ok u) (w, x) p = k.same w _ refl p
    after_save-Kept (err m) s p = emit-Kept _ s p

    save_now-Kept : (s : Site Net FilePath Dfa Regex E) → At s → At (save_now out s)
    unfolding save_now
    save_now-Kept (w, x) p = elim (Option-cases w.config.persistence_file) [
      | inl e ↦ rw (e, save_now) (after_save-Kept (ok tt) (w, x) p)
      | inr (path, e) ↦ rw (e, save_now) (after_save-Kept _ (w, _) p)
    ]

    pub save-Kept :
        (force : Bool) (s : Site Net FilePath Dfa Regex E)
        → At s
        → At (save_persistence_if_configured out force s)
    unfolding save_persistence_if_configured
    save-Kept force (w, x) p = if_either At (save_is_due out force w x).0 (save_now-Kept (w, _) p) p
