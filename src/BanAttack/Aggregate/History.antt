-- ===== src/BanAttack/Aggregate/History.antt =====
-- src/ban_attack/aggregate.rs: an aggregator over its life, from `new` through any calls of its
-- methods, in any order and with any replies of the backend.
use router_hub.Common.{
  ℕ, String, ◌≡◌, refl, List, [], ◌∷◌, Bool, false, ◌||◌, arith, contains_key, has, any, Option,
  none, some, ◌∙◌, keys, sort_by, has-sort_by, has-keys, set_insert, has-set_insert,
}
use router_hub.BanAttack.Net.{IpAddr, Externs}
use router_hub.BanAttack.Config.{AggregationConfig}
use router_hub.BanAttack.Backend.{
  BanTarget, target_eq, BanBackend, memory_backend, extend, memory_reconcile,
}
use router_hub.BanAttack.Aggregate.State.{Aggregator, new, is_covered_by_banned_subnet}
use router_hub.BanAttack.Aggregate.Counts.{reset_counts}
use router_hub.BanAttack.Aggregate.Bans.{World, add_manual, apply_exceptions, cleanup_expired}
use router_hub.BanAttack.Aggregate.Record.{record_match}
use router_hub.BanAttack.Aggregate.Persist.{
  PersistentState, active_targets, restore_persistent_state,
}
use router_hub.BanAttack.Aggregate.Restored.{restore_persistent_state-IsSound}
use router_hub.BanAttack.Aggregate.Frames.{reset_counts-SameBans}
use router_hub.BanAttack.Aggregate.Sound.{
  IsSound, SameBans-IsSound, apply_exceptions-IsSound, cleanup_expired-IsSound,
}
use router_hub.BanAttack.Aggregate.Sound.Adding.{add_manual-IsSound}
use router_hub.BanAttack.Aggregate.Match.{record_match-IsSound}
use router_hub.BanAttack.Aggregate.Sync.{InSync, SameBans-InSync, add_manual-InSync}
use router_hub.BanAttack.Aggregate.Sync.Methods.{
  apply_exceptions-InSync, cleanup_expired-InSync, record_match-InSync,
}

-- A call of a method, with its arguments and the times that it reads from the clock.
pub data Call (Net : Type 0) : Type 0 where
  recorded : IpAddr → ℕ → String → ℕ → ℕ → Call Net
  banned_by_hand : BanTarget Net → ℕ → String → ℕ → Call Net
  excepted : List Net → Call Net
  cleaned_up : ℕ → Call Net
  counts_reset : BanTarget Net → Call Net
  reconciled : (BanTarget Net → BanTarget Net → Bool) → List Net → Call Net

or_false : (b : Bool) → (b || false) ≡ b
or_false b = ground arith

module _ {Net : Type 0} ⦃o : Externs Net⦄ where
  -- The state that a call leaves, whether it ends well or not.
  abbrev pub after : {B : Type 0} → BanBackend Net B → Call Net → World Net B → World Net B
  after backend (recorded a weight rule now now') w =
      (record_match backend a weight rule now now' w).1
  after backend (banned_by_hand t duration reason now) w =
      (add_manual backend t duration reason now w).1
  after backend (excepted xs) w = (apply_exceptions backend xs w).1
  after backend (cleaned_up now) w = (cleanup_expired backend now w).1
  after backend (counts_reset t) w = (reset_counts t w.0, w.1)
  after backend (reconciled text_lt xs) w =
      (w.0, (backend.reconcile (active_targets text_lt w.0) xs w.1).1)

  -- The state `v` is reached from `w` by calls.
  pub data Reaches {B : Type 0} (backend : BanBackend Net B) (w : World Net B)
      : World Net B → Type 0 where
    at_once : Reaches backend w w
    then_call :
        (v : World Net B) (c : Call Net)
        → Reaches backend w v
        → Reaches backend w (after backend c v)

  -- The aggregator that the worker starts with, from the state file that it found, if any.
  abbrev pub launched : ℕ → Option (PersistentState Net) → AggregationConfig → Aggregator Net
  launched now none c = new c
  launched now (some state) c = (restore_persistent_state now state (new c)).1

  pub new-IsSound : (c : AggregationConfig) → IsSound (new {Net = Net} c)
  unfolding new is_covered_by_banned_subnet contains_key has any
  new-IsSound c = record {
    mirrored = record { ips = λ a. refl; nets = λ n. refl };
    disjoint = λ a p. refl;
    within = ground arith;
  }

  launched-IsSound :
      (now : ℕ) (saved : Option (PersistentState Net)) (c : AggregationConfig)
      → IsSound (launched now saved c)
  unfolding new
  launched-IsSound now none c = new-IsSound c
  launched-IsSound now (some state) c =
      restore_persistent_state-IsSound now state (new c) refl (new-IsSound c)

  after-IsSound :
      {B : Type 0} (backend : BanBackend Net B) (c : Call Net) (w : World Net B)
      → IsSound w.0
      → IsSound (after backend c w).0
  after-IsSound backend (recorded a weight rule now now') w v =
      record_match-IsSound backend a weight rule now now' w v
  after-IsSound backend (banned_by_hand t duration reason now) w v =
      add_manual-IsSound backend t duration reason now w v
  after-IsSound backend (excepted xs) w v = apply_exceptions-IsSound backend xs w v
  after-IsSound backend (cleaned_up now) w v = cleanup_expired-IsSound backend now w v
  after-IsSound backend (counts_reset t) w v = SameBans-IsSound (reset_counts-SameBans t w.0) v
  after-IsSound backend (reconciled text_lt xs) w v = v

  -- Extending a set by a list adds the elements of the list.
  has-extend :
      (t : BanTarget Net) (ts s : List (BanTarget Net))
      → has t (extend ts s) ≡ (has t ts || has t s)
  unfolding extend has
  has-extend t [] s = refl
  has-extend t (u ∷ ts) s = ground (arith, has-extend t ts (set_insert u s), has-set_insert u t s)

  after-InSync :
      (c : Call Net) (w : World Net (List (BanTarget Net)))
      → InSync w
      → InSync (after memory_backend c w)
  unfolding active_targets memory_reconcile has
  after-InSync (recorded a weight rule now now') w i =
      record_match-InSync a weight rule now now' w i
  after-InSync (banned_by_hand t duration reason now) w i =
      add_manual-InSync t duration reason now w i
  after-InSync (excepted xs) w i = apply_exceptions-InSync xs w i
  after-InSync (cleaned_up now) w i = cleanup_expired-InSync now w i
  after-InSync (counts_reset t) (g, s) i = SameBans-InSync s (reset_counts-SameBans t g) i
  after-InSync (reconciled text_lt xs) (g, s) i = λ t.
      has-extend t (sort_by text_lt (keys g.active_bans)) []
      ∙ rw (has-sort_by text_lt t (keys g.active_bans), has-keys t g.active_bans) (or_false _)

  -- Every state that is reached from a new aggregator, or from one that was restored from any state
  -- file, by `record`, `add_manual`, `apply_exceptions`, `cleanup_expired`, `reset_counts` and
  -- reconciliation, in any order and whatever the backend answers, is sound: the two sets hold the
  -- targets that are keys of the table of bans, no banned address lies in a banned subnet, and the
  -- table is within `max_active_bans`.
  pub reached-IsSound :
      {B : Type 0} (backend : BanBackend Net B) (now : ℕ) (saved : Option (PersistentState Net))
      (c : AggregationConfig) (b : B) (w : World Net B)
      → Reaches backend (launched now saved c, b) w
      → IsSound w.0
  reached-IsSound backend now saved c b w at_once = launched-IsSound now saved c
  reached-IsSound backend now saved c b w (then_call v call r) =
      after-IsSound backend call v (reached-IsSound backend now saved c b v r)

  -- Over the in-memory backend, which starts empty, the entries of the backend are the targets that
  -- are keys of the table of bans in every state that is reached from a new aggregator by those
  -- methods.
  pub reached-InSync :
      (c : AggregationConfig) (w : World Net (List (BanTarget Net)))
      → Reaches memory_backend (new c, []) w
      → InSync w
  unfolding new contains_key has
  reached-InSync c w at_once = λ t. refl
  reached-InSync c w (then_call v call r) = after-InSync call v (reached-InSync c v r)
