-- ===== src/BanAttack/Aggregate.antt =====
-- src/ban_attack/aggregate.rs: the aggregator, its state here and its methods in the children.
pub mod State
pub mod Counts
pub mod Evict
pub mod Bans
pub mod Record
pub mod Frames
pub mod Mirror
pub mod Sound
pub mod Match
pub mod Bounds
pub mod Lifted
pub mod Stopped
pub mod Sync
pub mod History
pub mod Threshold
pub mod Manual
pub mod Promoted
pub mod Persist
pub mod Restored
pub mod Snapshot
pub mod Spared
