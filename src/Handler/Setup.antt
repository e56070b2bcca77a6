-- ===== src/Handler/Setup.antt =====
-- pkg/handler/server.go, handler.go and pkg/filter/filter.go: making the handlers of a server from
-- its configurations.
pub mod Served
mod Tests
use fasthttpd.Base.{
  ℕ, ◌-◌, ◌/◌, ap, Bool, true, false, not, Option, none, some, List, [], ◌∷◌, if◌then◌else◌, set,
  is_nil, Bytes, lookup, ℤ,
}
use fasthttpd.Config.Settings.{Settings, keys}
use fasthttpd.Rotator.{Shared}
use fasthttpd.Logger.{Logger, new_logger}
use fasthttpd.AccessLog.Ncsa.Format.{Hostname}
use fasthttpd.AccessLog.Open.{Opened, new_access_log}
use fasthttpd.Logger.Outputs.{Client, log_client, access_log_client}
use fasthttpd.Route.{Regexp}
use fasthttpd.Route.Setup
use fasthttpd.Route.Setup.{RoutesConfig, Routes, Fallible, new_routes}
use fasthttpd.Handler.ErrorPages.{new_error_pages}
use fasthttpd.Handler.Server.{Filter, AccessLog, HostHandler}

-- `FilterDelegator`: a function that is not set lets everything pass.
unfoldable pub delegated : {Ctx : Type 0} → Option (Ctx → Bool × Ctx) → Ctx → Bool × Ctx
delegated none ctx = (true, ctx)
delegated (some fn) ctx = fn ctx

-- The registered types of filters and handlers, what is read of a `tree.Map`, and how access logs
-- and `fasthttp.FS` change a context.
pub record Makers (Ctx Map : Type 0) : Type 0 where
  pub typed_new_filter_func : List (Bytes × (Map → Option (Filter Ctx)))
  pub typed_new_handler_func : List (Bytes × (Map → Logger → Option (Ctx → Ctx)))
  pub type_of : Map → Bytes
  pub root_of : Map → Bytes
  pub set_root : Bytes → Map → Map
  pub logged_by : Opened → AccessLog Ctx
  pub new_fs : Bytes → Ctx → Ctx

pub data InitError : Type 0 where
  no_logger : InitError
  no_access_log : InitError
  no_filter : Bytes → InitError
  no_handler : Bytes → InitError
  no_routes : Setup.Error → InitError

pub data Made (A : Type 0) : Type 0 where
  made : A → Made A
  failed : InitError → Made A

infixl 5 ◌>>=◌
abbrev pub ◌>>=◌ : {A B : Type 0} → Made A → (A → Made B) → Made B
made a >>= f = f a
failed e >>= f = failed e

abbrev pub or_fail : {A : Type 0} → Option A → InitError → Made A
or_fail none e = failed e
or_fail (some a) e = made a

abbrev pub from_routes : {A : Type 0} → Fallible A → Made A
from_routes (Setup.ok a) = made a
from_routes (Setup.err e) = failed (no_routes e)

module _ {Ctx Map : Type 0} (makers : Makers Ctx Map) where
  open makers use {
    typed_new_filter_func, typed_new_handler_func, type_of, root_of, set_root, logged_by, new_fs,
  }

  unfoldable pub new_filter : Map → Option (Filter Ctx)
  new_filter cfg = elim (lookup (type_of cfg) typed_new_filter_func) [
    | none ↦ none
    | some fn ↦ fn cfg
  ]

  unfoldable pub new_handler : Map → Logger → Option (Ctx → Ctx)
  new_handler cfg l = elim (lookup (type_of cfg) typed_new_handler_func) [
    | none ↦ none
    | some fn ↦ fn cfg l
  ]

  -- The loop over `cfg.Filters`.
  unfoldable pub init_filters : List (Bytes × Map) → Made (List (Bytes × Filter Ctx))
  init_filters [] = made []
  init_filters ((name, cfg) ∷ cfgs) = do
    f ← or_fail (new_filter cfg) (no_filter name)
    rest ← init_filters cfgs
    made ((name, f) ∷ rest)

  -- The loop over `cfg.Handlers`; a handler without a root gets that of the configuration.
  unfoldable pub init_handlers :
      Bytes → Logger → List (Bytes × Map) → Made (List (Bytes × (Ctx → Ctx)))
  init_handlers root l [] = made []
  init_handlers root l ((name, cfg) ∷ cfgs) = do
    h ←
        or_fail (new_handler (if is_nil (root_of cfg) then set_root root cfg else cfg) l)
          (no_handler name)
    rest ← init_handlers root l cfgs
    made ((name, h) ∷ rest)

  module _ {P : Type 0} (re : Regexp P) (append_uint : Bytes → ℤ → Option Bytes)
      (hostname : Hostname) where
    abbrev pub routes_config : Settings Map → RoutesConfig
    routes_config cfg = record {
      filters = keys cfg.filters;
      handlers = keys cfg.handlers;
      routes = cfg.routes;
      routes_cache = cfg.routes_cache;
    }

    -- `init` behind the logs, at the time `now`.
    unfoldable pub init_behind_logs : Settings Map → ℕ → Logger → Opened → Made (HostHandler Ctx P)
    init_behind_logs cfg now l al = do
      filters ← init_filters cfg.filters
      handlers ← init_handlers cfg.root l cfg.handlers
      routes ← from_routes (new_routes re (routes_config cfg) now)
      made (record {
        host_bytes = cfg.host;
        access_log = logged_by al;
        error_pages = new_error_pages new_fs cfg.root cfg.error_pages;
        filters = filters;
        handlers = handlers;
        routes = routes;
      })

    -- `newHostHandler` with the logs that are open behind it, those that an error leaves too.
    unfoldable pub new_host_handler :
        Settings Map → ℕ → List Client × Shared → Made (HostHandler Ctx P) × List Client × Shared
    new_host_handler cfg now (cs, s) =
        let (logger, s1) = new_logger cfg.log.output cfg.log.flags s in
        elim logger [
          | none ↦ (failed no_logger, cs, s1)
          | some l ↦
              let (log, s2) =
                new_access_log append_uint cfg.host hostname cfg.access_log.output
                  cfg.access_log.format s1 in
              elim log [
                | none ↦ (failed no_access_log, log_client l ∷ cs, s2)
                | some al ↦ (
                  init_behind_logs cfg now l al,
                  access_log_client al false ∷ log_client l ∷ cs,
                  s2,
                )
              ]
        ]

    abbrev one_more :
        HostHandler Ctx P → Made (List (HostHandler Ctx P)) → Made (List (HostHandler Ctx P))
    one_more h (failed e) = failed e
    one_more h (made hs) = made (h ∷ hs)

    -- The loop of `newVirtualHandler`; an error ends it.
    unfoldable pub new_virtual_handler :
        List (Settings Map)
        → ℕ
        → List Client × Shared
        → Made (List (HostHandler Ctx P)) × List Client × Shared
    new_virtual_handler [] now (cs, s) = (made [], cs, s)
    new_virtual_handler (cfg ∷ cfgs) now (cs, s) =
        let (h, cs1, s1) = new_host_handler cfg now (cs, s) in
        let (hs, cs2, s2) = new_virtual_handler cfgs now (cs1, s1) in
        elim h [ failed e ↦ (failed e, cs1, s1) | made hh ↦ (one_more hh hs, cs2, s2) ]
