-- ===== src/Tools.antt =====
-- python/pydeno/_tools.py: `ToolBridge`, a set of host functions installed into a sandbox.
pub mod Names
pub mod Bridge
pub mod Budget
pub mod Runtime
pub mod Attach
