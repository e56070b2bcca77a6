-- ===== src/AccessLog.antt =====
-- pkg/logger/accesslog: the lines of the access log, and the writer behind them.
pub mod Context
pub mod Json
pub mod Ltsv
pub mod Ncsa
pub mod Writer
pub mod Open
pub mod Samples
mod Tests
