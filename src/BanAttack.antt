-- ===== src/BanAttack.antt =====
-- src/ban_attack: the engine that reads logs and bans addresses.
pub mod Net
pub mod Config
pub mod Backend
pub mod Aggregate
pub mod Rule
pub mod CompiledConfig
pub mod Tailer
pub mod Compiled
pub mod Engine
pub mod IpSet
