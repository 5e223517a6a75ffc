-- ===== src/Fetch.antt =====
-- python/pydeno/tools/http_fetch.py: the HTTP tool and its allowlist.
pub mod Target
pub mod Path
pub mod Headers
pub mod Loop
pub mod Vet
pub mod Parse
pub mod Address
