-- ===== src/BanAttack/Engine/Shown.antt =====
-- src/ban_attack/engine.rs: the failures that the health of the worker shows.
use router_hub.Common.{◌≡◌, true, Eq, err, some}
use router_hub.BanAttack.Net.{IpAddr, Externs}
use router_hub.BanAttack.Backend.{BanBackend, BackendError}
use router_hub.BanAttack.Rule.{RegexEngine, CompiledRule}
use router_hub.BanAttack.Aggregate.Bans.{cleanup_expired}
use router_hub.BanAttack.Aggregate.Persist.{active_targets, persistent_state}
use router_hub.BanAttack.Aggregate.Record.{record_match}
use router_hub.BanAttack.Engine.{Outside, Worker, Site, StateError}
use router_hub.BanAttack.Engine.Storage.{save_state, save_persistence_if_configured}
use router_hub.BanAttack.Engine.Poll.{reverify, clean_up, record_hit}
use router_hub.BanAttack.Engine.Commands.{Received, reconcile, handle}

module _ {Net FilePath Dfa Regex E : Type 0} ⦃o : Externs Net⦄ ⦃eq : Eq FilePath⦄
    (engine : RegexEngine Dfa Regex) (out : Outside Net FilePath E)
    (backend : BanBackend Net E) where
  -- A step of the worker in which a call fails, with the worker that it leaves.
  pub data Fails : Site Net FilePath Dfa Regex E → Site Net FilePath Dfa Regex E → Type 0 where
    unreconciled :
        (w : Worker Net FilePath Dfa Regex) (x : E) {y : BackendError}
        → (backend.reconcile (active_targets out.target_lt w.aggregator) w.config.exceptions x).0
          ≡ err y
        → Fails (w, x) (handle engine out backend reconcile (w, x)).1
    unverified :
        (w : Worker Net FilePath Dfa Regex) (x : E) {y : BackendError}
        → (backend.reconcile (active_targets out.target_lt w.aggregator) w.config.exceptions x).0
          ≡ err y
        → Fails (w, x) (reverify engine out backend (w, x))
    uncleaned :
        (w : Worker Net FilePath Dfa Regex) (x : E) {y : BackendError}
        → (cleanup_expired backend (out.utc_now x).0 (w.aggregator, (out.utc_now x).1)).0 ≡ err y
        → Fails (w, x) (clean_up engine out backend (w, x))
    unrecorded :
        (path : FilePath) (rule : CompiledRule Dfa Regex) (a : IpAddr)
        (w : Worker Net FilePath Dfa Regex) (x : E) {y : BackendError}
        → (record_match backend a rule.weight rule.name
            (out.utc_now x).0
            (out.utc_now (out.utc_now x).1).0
            (w.aggregator, (out.utc_now (out.utc_now x).1).1)).0
          ≡ err y
        → Fails (w, x) (record_hit engine out backend path rule a (w, x)).1
    unsaved :
        (path : FilePath) (w : Worker Net FilePath Dfa Regex) (x : E) {y : StateError}
        → w.dirty ≡ true
        → w.config.persistence_file ≡ some path
        → (save_state out path
            (persistent_state out.name_lt (out.utc_now x).0 w.aggregator)
            (out.utc_now x).1).0
          ≡ err y
        → Fails (w, x) (save_persistence_if_configured out true (w, x))

  abbrev Anything : Received Net FilePath Dfa Regex → Worker Net FilePath Dfa Regex → Type 0
  Anything m w = Unit {0}
