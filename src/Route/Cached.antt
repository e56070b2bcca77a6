-- ===== src/Route/Cached.antt =====
-- pkg/route/route.go: routing through the cache of results.
use fasthttpd.Base.{ℕ, ◌≡◌, Option, none, some, Bytes}
use fasthttpd.Util.Cache.{get, set_value}
use fasthttpd.Util.CacheKey.{le_uint32, acquire_cache_key_builder, write, sum}
use fasthttpd.Route.{Regexp, route}
use fasthttpd.Route.Results.{Result, Pool, acquire_result, copy_to}
use fasthttpd.Route.Setup.{ResultCache, Routes}

unfoldable pub route_key : (Bytes → ℕ) → Bytes → Bytes → ℕ → ℕ
route_key sum64 method path off =
    sum sum64 (write path (write method (write (le_uint32 off) acquire_cache_key_builder)))

module _ {P : Type 0} (re : Regexp P) where
  -- Behind `Get`, with what it found and the cache that it left.
  unfoldable pub answer :
      ℕ
      → ℕ
      → Routes P
      → Bytes
      → Bytes
      → ℕ
      → Pool
      → Option Result
      → ResultCache
      → Result × Routes P × Pool
  answer key later rs method path off pool (some result) c =
      let (dst, rest) = acquire_result pool in
      (copy_to result dst, record rs { cache = some c }, rest)
  answer key later rs method path off pool none c =
      let (result, rest) = route re rs.routes method path off pool in
      let (dst, rest') = acquire_result rest in
      (copy_to result dst, record rs { cache = some (set_value key result later c) }, rest')

  -- `CachedRoute`; `now` and `later` are the times that `Get` and `Set` read.
  unfoldable pub cached_route :
      (Bytes → ℕ) → ℕ → ℕ → Routes P → Bytes → Bytes → ℕ → Pool → Result × Routes P × Pool
  unfolding answer
  cached_route sum64 now later rs method path off pool = elim rs.cache [
    | none ↦ let (result, rest) = route re rs.routes method path off pool in (result, rs, rest)
    | some c ↦
        let key = route_key sum64 method path off in
        let (hit, c') = get key now c in answer key later rs method path off pool hit c'
  ]

pub cached_route-none :
    {P : Type 0} (re : Regexp P) (sum64 : Bytes → ℕ) (now later : ℕ) (rs : Routes P)
    (method path : Bytes) (off : ℕ) (pool : Pool)
    → rs.cache ≡ none
    → cached_route re sum64 now later rs method path off pool
      ≡ (let (result, rest) = route re rs.routes method path off pool in (result, rs, rest))
unfolding cached_route
cached_route-none re sum64 now later rs method path off pool e = simp (e, cached_route)
