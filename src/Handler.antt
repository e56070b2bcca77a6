-- ===== src/Handler.antt =====
-- pkg/handler: the handlers of requests and the server that routes requests to them.
pub mod ErrorPages
pub mod Server
pub mod Content
pub mod Proxy
pub mod Samples
pub mod Setup
