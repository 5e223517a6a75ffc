-- ===== src/Output.antt =====
-- python/pydeno/_result.py: the outcome of running guest code. A text is the list of its code points.
pub mod Utf8
pub mod Console
pub mod Capture
pub mod Jsonable
pub mod Failure
