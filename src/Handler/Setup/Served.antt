-- ===== src/Handler/Setup/Served.antt =====
-- pkg/handler/server.go: the handlers that are made serve without a panic, and their logs share
-- rotators.
use fasthttpd.Base.{
  ℕ, ◌≡◌, refl, ap, ◌≢◌, inl, inr, false, Option, none, List, [], ◌∷◌, Option-cases, Bytes, ℤ,
}
use mathlib.Core.Path.{subst}
use fasthttpd.Config.Settings
use fasthttpd.Config.Settings.{Settings}
use fasthttpd.Rotator.{Shared}
use fasthttpd.Logger.{Logger, new_logger}
use fasthttpd.AccessLog.Ncsa.Format.{Hostname}
use fasthttpd.AccessLog.Open.{Opened, new_access_log}
use fasthttpd.Logger.Outputs.{Client}
use fasthttpd.FastHttp.{FastHttp}
use fasthttpd.Route.{Regexp}
use fasthttpd.Route.Results.{Pool}
use fasthttpd.Route.Setup
use fasthttpd.Route.Setup.{Routes, RoutesConfig, Fallible, bind-eq-ok, new_routes, new_route_list}
use fasthttpd.Route.Search.{IsClean}
use fasthttpd.Handler.Server.{Filter, HostHandler, panic, handle}
use fasthttpd.Handler.Server.Total.{keys}
use fasthttpd.Handler.Server.Configured.{IsConfigured, handle-ne-panic}
use fasthttpd.Handler.Setup.{
  ◌>>=◌, Makers, Made, made, failed, or_fail, from_routes, new_filter, new_handler, init_filters,
  init_handlers, routes_config, init_behind_logs, new_host_handler,
}

eq_of_made : {A : Type 0} {a b : A} → made a ≡ made b → a ≡ b
eq_of_made h = cc

bind-made :
    {A B : Type 0} (m : Made A) (f : A → Made B) {b : B}
    → (m >>= f) ≡ made b
    → (a : A) × (m ≡ made a) × (f a ≡ made b)
bind-made (made a) f h = (a, refl, h)
bind-made (failed e) f h = cc

from_routes-ok : {A : Type 0} (m : Fallible A) {a : A} → from_routes m ≡ made a → m ≡ Setup.ok a
from_routes-ok (Setup.ok a) h = ap Setup.ok (eq_of_made h)
from_routes-ok (Setup.err e) h = cc

module _ {Ctx Map : Type 0} (makers : Makers Ctx Map) where
  init_filters-keys :
      (cfgs : List (Bytes × Map)) (fs : List (Bytes × Filter Ctx))
      → init_filters makers cfgs ≡ made fs
      → keys fs ≡ Settings.keys cfgs
  unfolding init_filters Settings.keys
  init_filters-keys [] fs h = rw (← eq_of_made h) refl
  init_filters-keys ((name, cfg) ∷ cfgs) fs h =
      let (f, _, h1) = bind-made (or_fail (new_filter makers cfg) _) _ h in
      let (rest, e, h2) = bind-made (init_filters makers cfgs) _ h1 in
      rw (← eq_of_made h2) (ap (λ ks. name ∷ ks) (init_filters-keys cfgs rest e))

  init_handlers-keys :
      (root : Bytes) (l : Logger) (cfgs : List (Bytes × Map)) (hs : List (Bytes × (Ctx → Ctx)))
      → init_handlers makers root l cfgs ≡ made hs
      → keys hs ≡ Settings.keys cfgs
  unfolding init_handlers Settings.keys
  init_handlers-keys root l [] hs h = rw (← eq_of_made h) refl
  init_handlers-keys root l ((name, cfg) ∷ cfgs) hs h =
      let (f, _, h1) = bind-made (or_fail (new_handler makers _ l) _) _ h in
      let (rest, e, h2) = bind-made (init_handlers makers root l cfgs) _ h1 in
      rw (← eq_of_made h2) (ap (λ ks. name ∷ ks) (init_handlers-keys root l cfgs rest e))

  module _ {P : Type 0} (re : Regexp P) (append_uint : Bytes → ℤ → Option Bytes)
      (hostname : Hostname) where
    new_routes-uncached :
        (cfg : RoutesConfig) (now : ℕ) (rs : Routes P)
        → new_routes re cfg now ≡ Setup.ok rs
        → cfg.routes_cache.enable ≡ false
        → rs.cache ≡ none
    unfolding new_routes
    new_routes-uncached cfg now rs h off =
        let (list, _, h1) =
          bind-eq-ok (new_route_list re cfg.filters cfg.handlers cfg.routes) _ h in
        cc (rw off at h1)

    init_behind_logs-IsConfigured :
        (cfg : Settings Map) (now : ℕ) (l : Logger) (al : Opened) (h : HostHandler Ctx P)
        → init_behind_logs makers re append_uint hostname cfg now l al ≡ made h
        → cfg.routes_cache.enable ≡ false
        → IsConfigured re (routes_config makers re append_uint hostname cfg) now h
    unfolding init_behind_logs
    init_behind_logs-IsConfigured cfg now l al h e off =
        let (fs, e1, h1) = bind-made (init_filters makers cfg.filters) _ e in
        let (hs, e2, h2) = bind-made (init_handlers makers cfg.root l cfg.handlers) _ h1 in
        let (rs, e3, h3) =
          bind-made
            (from_routes (new_routes re (routes_config makers re append_uint hostname cfg) now)) _
            h2 in
        let built =
          from_routes-ok (new_routes re (routes_config makers re append_uint hostname cfg) now)
            e3 in
        subst (IsConfigured re (routes_config makers re append_uint hostname cfg) now)
          (eq_of_made h3)
          (record {
            built = built;
            uncached =
                new_routes-uncached (routes_config makers re append_uint hostname cfg) now rs built
                  off;
            same_filters = init_filters-keys cfg.filters fs e1;
            same_handlers = init_handlers-keys cfg.root l cfg.handlers hs e2;
          })

    -- What was made came from `init` behind the logs.
    new_host_handler-init :
        (cfg : Settings Map) (now : ℕ) (cs : List Client) (s : Shared) (h : HostHandler Ctx P)
        → (new_host_handler makers re append_uint hostname cfg now (cs, s)).0 ≡ made h
        → (l : Logger) × (al : Opened) × (init_behind_logs makers re append_uint hostname cfg now l
              al
            ≡ made h)
    unfolding new_host_handler
    new_host_handler-init cfg now cs s h e =
        elim (Option-cases (new_logger cfg.log.output cfg.log.flags s).0) [
          | inl n ↦ cc (rw (n, new_host_handler) at e)
          | inr (l, n) ↦
              elim (Option-cases
                (new_access_log append_uint cfg.host hostname cfg.access_log.output
                  cfg.access_log.format (new_logger cfg.log.output cfg.log.flags s).1).0) [
                    | inl k ↦ cc (rw (n, k, new_host_handler) at e)
                    | inr (al, k) ↦ (l, al, rw (n, k, new_host_handler) at e)
                  ]
        ]

    -- A host handler that was made from a configuration without a cache of results, whatever logs,
    -- filters and handlers it has: it handles every request without meeting a nil filter or handler,
    -- however many rounds it makes, where the pool holds empty results.
    pub new_host_handler-ne-panic :
        (http : FastHttp Ctx) (sum64 : Bytes → ℕ) (clock : ℕ → ℕ) (cfg : Settings Map) (now : ℕ)
        (cs : List Client) (s : Shared) (h : HostHandler Ctx P) (fuel : ℕ) (pool : Pool) (ctx : Ctx)
        → (new_host_handler makers re append_uint hostname cfg now (cs, s)).0 ≡ made h
        → cfg.routes_cache.enable ≡ false
        → IsClean pool
        → handle http re sum64 clock fuel h pool ctx ≢ panic
    new_host_handler-ne-panic http sum64 clock cfg now cs s h fuel pool ctx e off clean =
        let (l, al, i) = new_host_handler-init cfg now cs s h e in
        handle-ne-panic http re sum64 clock (routes_config makers re append_uint hostname cfg) now
          fuel h pool ctx (init_behind_logs-IsConfigured cfg now l al h i off) clean
