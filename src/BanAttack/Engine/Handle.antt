-- ===== src/BanAttack/Engine/Handle.antt =====
-- src/ban_attack/engine.rs: `EngineHandle` and `BanEngine::shutdown`, the callers of the worker. The
-- bounded channel of `std::sync::mpsc` is the record `Channel`.
use router_hub.Common.{ℕ, String, Eq, Option, Result, ok, err, M, map_err, ◌>>=◌, ◌>>◌}
use router_hub.BanAttack.Config.{Config}
use router_hub.BanAttack.Backend.{BanTarget}
use router_hub.BanAttack.Compiled.Paths.{PathSystem}
use router_hub.BanAttack.CompiledConfig.{compile_config}
use router_hub.BanAttack.Rule.{RegexEngine}
use router_hub.BanAttack.Aggregate.State.{ActiveBan}
use router_hub.BanAttack.Aggregate.Snapshot.{Snapshot}
use router_hub.BanAttack.Engine.{
  EngineStatus, Error, not_compiled, engine_busy, command_timeout, engine_stopped,
}
use router_hub.BanAttack.Engine.Commands.{
  Command, change_config, forget_counts, disable, reconcile, flush, add_ban, status, stop,
}

pub data TrySendError : Type 0 where
  full no_receiver : TrySendError

pub data RecvTimeoutError : Type 0 where
  waited no_sender : RecvTimeoutError

-- The sender of the command channel, and the waits on the reply channel of each type. The reply
-- channel is new for each command; `join` waits for the thread.
pub record Channel (Net FilePath Dfa Regex E : Type 0) : Type 0 where
  pub try_send : Command Net FilePath Dfa Regex → E → Result TrySendError (Unit {0}) × E
  pub recv_done : ℕ → E → Result RecvTimeoutError (Result (Error FilePath) (Unit {0})) × E
  pub recv_ban :
      ℕ → E → Result RecvTimeoutError (Result (Error FilePath) (Option (ActiveBan Net))) × E
  pub recv_status : ℕ → E → Result RecvTimeoutError (EngineStatus Net) × E
  pub recv_stop : ℕ → E → Result RecvTimeoutError (Unit {0}) × E
  pub join : E → Result (Unit {0}) (Unit {0}) × E

abbrev map_try_error : {FilePath : Type 0} → TrySendError → Error FilePath
map_try_error full = engine_busy
map_try_error no_receiver = engine_stopped

abbrev map_reply_error : {FilePath : Type 0} → RecvTimeoutError → Error FilePath
map_reply_error waited = command_timeout
map_reply_error no_sender = engine_stopped

-- The second `?` of `recv_timeout(…).map_err(…)?`.
abbrev flat : {X E A : Type 0} → M X E (Result X A) → M X E A
flat m = m >>= λ r e. (r, e)

module _ {Net FilePath Dfa Regex E : Type 0} (channel : Channel Net FilePath Dfa Regex E)
    (timeout : ℕ) where
  abbrev Call : Type 0 → Type 0
  Call A = M (Error FilePath) E A

  unfoldable pub enqueue : Command Net FilePath Dfa Regex → Call (Unit {0})
  enqueue c = map_err map_try_error (channel.try_send c)

  unfoldable pub request : Command Net FilePath Dfa Regex → Call (Unit {0})
  request c = do enqueue c; flat (map_err map_reply_error (channel.recv_done timeout))

  unfoldable pub update_config :
      ⦃eq : Eq FilePath⦄
      → RegexEngine Dfa Regex
      → PathSystem FilePath
      → Config Net FilePath
      → Call (Unit {0})
  update_config engine fs config e = elim (compile_config engine fs config) [
    | err x ↦ (err (not_compiled x), e)
    | ok compiled ↦ request (change_config compiled) e
  ]

  unfoldable pub request_reset : BanTarget Net → Call (Unit {0})
  request_reset target = request (forget_counts target)

  unfoldable pub request_disable : Call (Unit {0})
  request_disable = request disable

  unfoldable pub request_reconcile : Call (Unit {0})
  request_reconcile = request reconcile

  unfoldable pub request_flush : Call (Unit {0})
  request_flush = request flush

  unfoldable pub request_ban : BanTarget Net → ℕ → String → Call (Option (ActiveBan Net))
  request_ban target seconds reason = do
    enqueue (add_ban target seconds reason)
    flat (map_err map_reply_error (channel.recv_ban timeout))

  unfoldable pub request_status : Call (EngineStatus Net)
  request_status = do enqueue status; map_err map_reply_error (channel.recv_status timeout)

  unfoldable pub request_snapshot : Call (Snapshot Net)
  request_snapshot = request_status >>= λ s e. (ok s.snapshot, e)

  -- `BanEngine::shutdown`.
  unfoldable pub shutdown : Call (Unit {0})
  shutdown = do
    enqueue stop
    map_err map_reply_error (channel.recv_stop timeout)
    map_err (λ _. engine_stopped) channel.join
