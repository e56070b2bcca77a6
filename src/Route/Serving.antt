-- ===== src/Route/Serving.antt =====
-- pkg/route/route.go: a table at work. Requests come one after another, results go back to the
-- pool, and the evictions that the cache has started run in between.
use fasthttpd.Base.{
  ℕ, ◌≡◌, refl, sym, inl, inr, none, some, List, [], ◌∷◌, map, arith, Option-cases, eq_of_some, All,
  Bytes,
}
use fasthttpd.Util.Cache.{evict, new_cache, set_on_release, is_expired}
use fasthttpd.Util.Cache.Store.{All-keep}
use fasthttpd.Route.{Regexp, Route}
use fasthttpd.Route.Results.{Result, Pool, release, reset}
use fasthttpd.Route.Search.{IsClean, reset-empty}
use fasthttpd.Route.Setup.{
  Routes, ResultCache, RoutesConfig, ok, bind-eq-ok, new_route_list, new_routes,
}
use fasthttpd.Route.Cached.{cached_route}
use fasthttpd.Route.Coherence.{
  Request, IsShort, key_bytes, routed, IsCoherent, IsRouted, cached_route_lem,
}

pub data Event : Type 0 where
  request : Request → ℕ → ℕ → Event
  eviction : ℕ → Event
  released : Result → Event

-- The requests among the events.
unfoldable pub requests : List Event → List Request
requests [] = []
requests (request r now later ∷ es) = r ∷ requests es
requests (eviction now ∷ es) = requests es
requests (released r ∷ es) = requests es

module _ {P : Type 0} where
  unfoldable pub evict_in : ℕ → Routes P → Routes P
  evict_in now rs = elim rs.cache [ none ↦ rs | some c ↦ record rs { cache = some (evict now c) } ]

module _ {P : Type 0} (re : Regexp P) (sum64 : Bytes → ℕ) where
  -- The results that the requests get.
  unfoldable pub serve : List Event → Routes P → Pool → List Result
  serve [] rs pool = []
  serve (request r now later ∷ es) rs pool =
      let (result, rs', pool') = cached_route re sum64 now later rs r.method r.path r.off pool in
      result ∷ serve es rs' pool'
  serve (eviction now ∷ es) rs pool = serve es (evict_in now rs) pool
  serve (released r ∷ es) rs pool = serve es rs (release r pool)

  module _ (routes : List (Route P)) (InPlay : Request → Type 0)
      (short : (r : Request) → InPlay r → IsShort r)
      (no_collision : (a b : Request)
        → InPlay a
        → InPlay b
        → sum64 (key_bytes a) ≡ sum64 (key_bytes b)
        → key_bytes a ≡ key_bytes b) where
    abbrev Coherent : Routes P → Type 0
    Coherent = IsCoherent re sum64 routes InPlay short no_collision

    evict_in-Coherent : (now : ℕ) (rs : Routes P) → Coherent rs → Coherent (evict_in now rs)
    unfolding evict_in evict
    evict_in-Coherent now rs h = elim (Option-cases rs.cache) [
      | inl e ↦ rw (e, evict_in) h
      | inr (c, e) ↦
          rw (e, evict_in)
            (record {
              same = h.same;
              entries = λ d k. rw (sym (eq_of_some k)) (
                  All-keep (IsRouted re sum64 routes InPlay short no_collision)
                    (is_expired now c.expire) c.store (h.entries c e));
            })
    ]

    serve-Coherent :
        (es : List Event) (rs : Routes P) (pool : Pool)
        → All InPlay (requests es)
        → Coherent rs
        → IsClean pool
        → serve es rs pool ≡ map (routed re sum64 routes) (requests es)
    unfolding serve requests release
    serve-Coherent [] rs pool p h c = refl
    serve-Coherent (request r now later ∷ es) rs pool p h c =
        let (same, coherent, clean) =
          cached_route_lem re sum64 routes InPlay short no_collision r now later rs pool p.0 h c in
        let ih = serve-Coherent es _ _ p.1 coherent clean in cc
    serve-Coherent (eviction now ∷ es) rs pool p h c =
        serve-Coherent es (evict_in now rs) pool p (evict_in-Coherent now rs h) c
    serve-Coherent (released r ∷ es) rs pool p h c =
        serve-Coherent es rs (reset r ∷ pool) p h (reset-empty r, c)

new_routes_store :
    {P : Type 0} (re : Regexp P) (cfg : RoutesConfig) (start : ℕ) (rs : Routes P)
    → new_routes re cfg start ≡ ok rs
    → (c : ResultCache) → rs.cache ≡ some c
    → c.store ≡ []
unfolding new_routes new_cache set_on_release
new_routes_store re cfg start rs e c k =
    let (list, _, same) = bind-eq-ok (new_route_list re cfg.filters cfg.handlers cfg.routes) _ e in
    ground arith

-- From a new table on, whether it has a cache or not, every request gets the result that the
-- search gives, in whatever order requests, evictions and releases come and at whatever times;
-- provided that the requests are short and that the hash does not collide on the bytes that it
-- reads for them.
pub serve-routed :
    {P : Type 0} (re : Regexp P) (sum64 : Bytes → ℕ) (InPlay : Request → Type 0)
    (short : (r : Request) → InPlay r → IsShort r)
    (no_collision : (a b : Request)
      → InPlay a
      → InPlay b
      → sum64 (key_bytes a) ≡ sum64 (key_bytes b)
      → key_bytes a ≡ key_bytes b)
    (cfg : RoutesConfig) (start : ℕ) (rs : Routes P) (es : List Event)
    → new_routes re cfg start ≡ ok rs
    → All InPlay (requests es)
    → serve re sum64 es rs [] ≡ map (routed re sum64 rs.routes) (requests es)
serve-routed re sum64 InPlay short no_collision cfg start rs es e p =
    serve-Coherent re sum64 rs.routes InPlay short no_collision es rs [] p
      (record { same = refl; entries = λ c k. rw (new_routes_store re cfg start rs e c k) tt }) tt
