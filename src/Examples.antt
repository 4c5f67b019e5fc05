-- ===== src/Examples.antt =====
-- The theorems applied to concrete inputs of src/ban_attack and src/util.rs.
mod Fixtures
mod Runs
mod Bans
mod Logs
mod Machine
mod Engines
mod Kernels
mod Halves
mod Policies
