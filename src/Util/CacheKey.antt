-- ===== src/Util/CacheKey.antt =====
-- pkg/util/cache.go: the builder of cache keys. The state of `maphash.Hash` is the bytes written
-- to it, and its sum of 64 bits under the process-wide seed is the parameter `sum64`.
pub mod Laws
use fasthttpd.Base.{
  ℕ, ◌+◌, ◌-◌, ◌/◌, ◌%◌, ◌^◌, ap, [], ◌∷◌, ◌++◌, map, if◌then◌else◌, length, Bytes,
}

-- `binary.LittleEndian.PutUint32` of `uint32(n)`
unfoldable pub le_uint32 : ℕ → Bytes
le_uint32 n =
    let u = n % 2 ^ 32 in
    (u % 256) ∷ (u / 256 % 256) ∷ (u / 65536 % 256) ∷ (u / 16777216 % 256) ∷ []

pub record CacheKeyBuilder : Type 0 where
  pub h : Bytes

-- The pool's builders keep the seed; an acquired one has an empty hash state.
unfoldable pub acquire_cache_key_builder : CacheKeyBuilder
acquire_cache_key_builder = record { h = [] }

-- `Write`, and `WriteString`, which writes the same bytes.
unfoldable pub write : Bytes → CacheKeyBuilder → CacheKeyBuilder
write p b = record { h = (b.h ++ le_uint32 (length p)) ++ p }

unfoldable pub sum : (Bytes → ℕ) → CacheKeyBuilder → ℕ
sum sum64 b = sum64 b.h

unfoldable pub cache_key_of : (Bytes → ℕ) → Bytes → ℕ
cache_key_of sum64 p = sum64 (le_uint32 (length p) ++ p)
