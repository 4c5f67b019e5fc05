-- ===== src/BanAttack/Engine/Started.antt =====
-- src/ban_attack/engine.rs: the worker that a start makes.
use router_hub.Common.{◌≡◌, ◌≢◌, Bool, true, false, List, [], some, Eq, ok, err}
use router_hub.BanAttack.Net.{Externs}
use router_hub.BanAttack.Backend.{BanTarget, BanBackend}
use router_hub.BanAttack.CompiledConfig.{CompiledConfig}
use router_hub.BanAttack.Aggregate.State.{Aggregator, new, targets_excluding}
use router_hub.BanAttack.Aggregate.Counts.{is_nonempty}
use router_hub.BanAttack.Aggregate.Persist.{
  PersistentState, persistent_state, restore_persistent_state,
}
use router_hub.BanAttack.Aggregate.Sound.{IsSound}
use router_hub.BanAttack.Aggregate.Bans.{apply_exceptions}
use router_hub.BanAttack.Engine.Storage.{load_state, save_state}
use router_hub.BanAttack.Engine.{
  Outside, Worker, StateError, EngineState, disabled, observe, running, degraded, stopped,
}
use router_hub.BanAttack.Engine.Launch.{Startup, load_saved, clear_exceptions}

abbrev pub is_up : EngineState → Bool
is_up observe = true
is_up running = true
is_up disabled = false
is_up degraded = false
is_up stopped = false

module _ {Net FilePath E : Type 0} ⦃o : Externs Net⦄ ⦃eq : Eq FilePath⦄
    (out : Outside Net FilePath E) (backend : BanBackend Net E) where
  module _ {Dfa Regex : Type 0} (config : CompiledConfig Net FilePath Dfa Regex) where
    -- The state file was read, and what it held was taken over.
    pub record IsLoaded (x : E) : Type 0 where
      pub read :
          (path : FilePath) {y : StateError}
          → config.persistence_file ≡ some path
          → (load_state out path x).0 ≢ err y
      pub restored :
          (path : FilePath) {state : PersistentState Net}
          → config.persistence_file ≡ some path
          → (load_state out path x).0 ≡ ok (some state)
          → (restore_persistent_state
              (out.utc_now (load_state out path x).1).0
              state
              (new config.aggregation)).0
            ≡ ok tt

    -- The exceptions were taken out of the tables, and the result was saved where there is any.
    pub record IsCleared (g : Aggregator Net) (x : E) : Type 0 where
      pub removed : List (BanTarget Net)
      pub cleared : (apply_exceptions backend config.exceptions (g, x)).0 ≡ ok removed
      pub saved :
          (path : FilePath)
          → config.persistence_file ≡ some path
          → is_nonempty config.exceptions ≡ true
          → let (h, y) = (apply_exceptions backend config.exceptions (g, x)).1 in
            let (now, z) = out.utc_now y in
            (save_state out path (persistent_state out.name_lt now h) z).0 ≡ ok tt

    -- What a worker is when its loop begins, from a start whose errors were those of `s`.
    record BeginsFrom (s : Startup out backend) (w : Worker Net FilePath Dfa Regex) : Type 0 where
      sound : IsSound w.aggregator
      config_is : w.config ≡ config
      quiet : is_up w.health.state ≡ true → (clear_exceptions out backend config s).0.0 ≡ []

    -- A worker as it must be when its loop begins.
    pub record IsReady (x : E) (w : Worker Net FilePath Dfa Regex) : Type 0 where
      pub sound : IsSound w.aggregator
      pub config_is : w.config ≡ config
      pub loaded : is_up w.health.state ≡ true → IsLoaded (out.utc_now x).1
      pub cleared :
          is_up w.health.state ≡ true
          → let ((errors, g), x2) = load_saved out backend config (out.utc_now x).1 in
            IsCleared g
              (backend.reconcile (targets_excluding g config.exceptions) config.exceptions x2).1
