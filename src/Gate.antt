-- ===== src/Gate.antt =====
-- python/pydeno/_gate.py: a host-side check of the source that a sandbox is about to run.
pub mod Verdict
pub mod Check
pub mod Combine
pub mod Threads
