-- ===== src/Config.antt =====
-- pkg/config: reading configurations, and editing, completing and checking them.
pub mod Load
pub mod Size
pub mod Edit
pub mod Server
pub mod Settings
pub mod Samples
mod Tests
