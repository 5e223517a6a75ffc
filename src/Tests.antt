-- ===== src/Tests.antt =====
-- Runs of the definitions at concrete inputs, and the theorems at inputs that meet their hypotheses.
mod Wire
mod Tools
mod SnapshotAuth
mod Gate
mod Pool
mod Fetch
mod Limits
mod Seccomp
mod Output
mod Workers
mod Agent
