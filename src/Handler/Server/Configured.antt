-- ===== src/Handler/Server/Configured.antt =====
-- pkg/handler/server.go: a server whose routes are built from its configuration does not panic.
use fasthttpd.Base.{ℕ, zero, suc, ◌+◌, ◌*◌, ◌≡◌, ◌≢◌, inl, inr, none, some, Bool-cases, Bytes}
use fasthttpd.FastHttp.{FastHttp}
use fasthttpd.Route.{Regexp, route}
use fasthttpd.Route.Results.{Result, Pool}
use fasthttpd.Route.Setup.{RoutesConfig, ok, new_routes}
use fasthttpd.Route.Known.{AreKnown, route-AreKnown}
use fasthttpd.Route.Search.{IsClean, route-IsClean, release-IsClean}
use fasthttpd.Route.Cached.{cached_route-none}
use fasthttpd.Handler.Server.Total.{keys, handle_route_result-total}
use fasthttpd.Handler.Server.{
  HostHandler, Handled, Outcome, done, panic, out_of_fuel, goes_on, Turn, ends, turns, next_turn,
  turn, handle_loop, handle,
}

-- The tables of filters and handlers are those of the configuration that the routes are built
-- from, and there is no cache of results.
pub record IsConfigured {Ctx P : Type 0} (re : Regexp P) (cfg : RoutesConfig) (now : ℕ)
    (h : HostHandler Ctx P) : Type 0 where
  pub built : new_routes re cfg now ≡ ok h.routes
  pub uncached : h.routes.cache ≡ none
  pub same_filters : keys h.filters ≡ cfg.filters
  pub same_handlers : keys h.handlers ≡ cfg.handlers

ends-ne-panic :
    {Ctx P : Type 0} (h : HostHandler Ctx P) (pool : Pool) (ctx : Ctx) → done h pool ctx ≢ panic
ends-ne-panic h pool ctx = λ e. cc

fuel-ne-panic : {Ctx P : Type 0} → ◌≢◌ {A = Outcome Ctx P} out_of_fuel panic
fuel-ne-panic = λ e. cc

module _ {Ctx P : Type 0} (http : FastHttp Ctx) (re : Regexp P) (sum64 : Bytes → ℕ) (clock : ℕ → ℕ)
    (cfg : RoutesConfig) (now : ℕ) where
  routed-known :
      (h : HostHandler Ctx P) (method path : Bytes) (off : ℕ) (pool : Pool)
      → IsConfigured re cfg now h
      → IsClean pool
      → AreKnown
          (keys h.filters)
          (keys h.handlers)
          (route re h.routes.routes method path off pool).0.filters
          (route re h.routes.routes method path off pool).0.handler
  routed-known h method path off pool k c =
      rw (k.same_filters, k.same_handlers)
        (route-AreKnown re cfg now h.routes method path off pool k.built c)

  -- A turn that ends without a panic, or goes on with a configured handler and a clean pool.
  IsFine : Turn Ctx P → Type 0
  IsFine (ends o) = o ≢ panic
  IsFine (turns h pool ctx off) = IsConfigured re cfg now h × IsClean pool

  next_turn-IsFine :
      (h : HostHandler Ctx P) (result : Result) (pool : Pool) (x : Handled Ctx)
      → IsConfigured re cfg now h
      → IsClean pool
      → IsFine (next_turn http h result h.routes pool (some x))
  unfolding next_turn IsFine
  next_turn-IsFine h result pool (ctx, pages) k c =
      let k' : IsConfigured re cfg now (record h { error_pages = pages }) = record {
        built = k.built;
        uncached = k.uncached;
        same_filters = k.same_filters;
        same_handlers = k.same_handlers;
      } in
      elim (Bool-cases (goes_on http h.routes result ctx)) [
        | inl e ↦ rw e (k', release-IsClean result pool c)
        | inr e ↦ rw e (ends-ne-panic _ _ _)
      ]

  turn-IsFine :
      (n : ℕ) (h : HostHandler Ctx P) (pool : Pool) (ctx : Ctx) (off : ℕ)
      → IsConfigured re cfg now h
      → IsClean pool
      → IsFine (turn http re sum64 clock n h pool ctx off)
  unfolding turn
  turn-IsFine n h pool ctx off k c =
      let (x, e) =
        handle_route_result-total http h ctx
          (route re h.routes.routes (http.method ctx) (http.path ctx) off pool).0
          (routed-known h (http.method ctx) (http.path ctx) off pool k c) in
      rw
        (
          cached_route-none re sum64 (clock (2 * n)) (clock (2 * n + 1)) h.routes (http.method ctx)
              (http.path ctx) off pool k.uncached,
          e,
        )
        (next_turn-IsFine h _ _ x k (route-IsClean re _ _ _ off pool c))

  loop_ne_panic :
      (fuel n : ℕ) (h : HostHandler Ctx P) (pool : Pool) (ctx : Ctx) (off : ℕ)
      → IsConfigured re cfg now h
      → IsClean pool
      → handle_loop http re sum64 clock fuel n h pool ctx off ≢ panic
  unfolding handle_loop IsFine
  loop_ne_panic zero n h pool ctx off k c = fuel-ne-panic
  loop_ne_panic (suc fuel) n h pool ctx off k c =
      elim (turn http re sum64 clock n h pool ctx off)
          as (λ t.
            IsFine t
            → (elim t [
              | ends o ↦ o
              | turns h' pool' ctx' off' ↦
                  handle_loop http re sum64 clock fuel (suc n) h' pool' ctx' off'
            ])
              ≢ panic) [
                | ends o ↦ λ f. f
                | turns h' pool' ctx' off' ↦
                    λ f. loop_ne_panic fuel (suc n) h' pool' ctx' off' f.0 f.1
              ]
        (turn-IsFine n h pool ctx off k c)

  -- Where the routes are built from the configuration that also gives the filters and the handlers,
  -- results are not cached and the pool holds empty results, the handling of a request never meets
  -- a nil filter or handler, however many rounds it makes.
  pub handle-ne-panic :
      (fuel : ℕ) (h : HostHandler Ctx P) (pool : Pool) (ctx : Ctx)
      → IsConfigured re cfg now h
      → IsClean pool
      → handle http re sum64 clock fuel h pool ctx ≢ panic
  unfolding handle
  handle-ne-panic fuel h pool ctx k c = loop_ne_panic fuel 0 h pool _ 0 k c
