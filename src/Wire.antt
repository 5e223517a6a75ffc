-- ===== src/Wire.antt =====
-- python/pydeno/_wire.py: the framing of messages between a parent and its worker.
pub mod Codec
pub mod Reader
pub mod Writer
pub mod Transport
