-- ===== src/Pool.antt =====
-- python/pydeno/_pool.py: `SessionPool` and its store.
pub mod Numbers
pub mod Ids
pub mod Store
pub mod Session
pub mod Room
