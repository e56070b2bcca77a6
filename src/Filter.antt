-- ===== src/Filter.antt =====
-- pkg/filter: the filters that a host can put around its handlers.
pub mod BasicAuth
pub mod Header
mod Tests
