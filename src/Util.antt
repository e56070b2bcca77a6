-- ===== src/Util.antt =====
-- pkg/util: request URIs, padded decimals, string sets, the cache and its keys.
pub mod Http
pub mod Padding
pub mod StringSet
pub mod Cache
pub mod CacheKey
pub mod Strftime
mod Tests
