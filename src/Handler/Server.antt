-- ===== src/Handler/Server.antt =====
-- pkg/handler/server.go: the handler of a host, and the choice among virtual hosts. A call through
-- a nil entry of a map is a panic. `P` is the type of compiled regular expressions.
pub mod Total
pub mod Configured
pub mod Rounds
pub mod Endless
pub mod Hosts
mod Tests
mod HostTests
use fasthttpd.Base.{
  ℕ, zero, suc, ◌+◌, ◌-◌, ◌*◌, ◌/◌, ap, Bool, true, false, not, ◌&&◌, Option, none, some, List, [],
  ◌∷◌, map, if◌then◌else◌, set, is_nil, Bytes, lookup, ℤ, pos, is_positive, int_eq,
}
use fasthttpd.FastHttp.{FastHttp}
use fasthttpd.Route.{Regexp}
use fasthttpd.Route.Results.{
  Result, Pool, release, rewrite_uri_with_query_string, redirect_uri_with_query_string,
}
use fasthttpd.Route.Setup.{Routes, is_next_if_not_found}
use fasthttpd.Route.Cached.{cached_route}
use fasthttpd.Handler.ErrorPages
use fasthttpd.Handler.ErrorPages.{ErrorPages}

-- `filter.Filter`: each side changes the context, and says whether to go on.
pub record Filter (Ctx : Type 0) : Type 0 where
  pub request : Ctx → Bool × Ctx
  pub response : Ctx → Bool × Ctx

-- What `accesslog.AccessLog` does with the context before and after the handling.
pub record AccessLog (Ctx : Type 0) : Type 0 where
  pub collect : Ctx → Ctx
  pub log : Ctx → Ctx

pub record HostHandler (Ctx P : Type 0) : Type 0 where
  pub host_bytes : Bytes
  pub access_log : AccessLog Ctx
  pub error_pages : ErrorPages Ctx
  pub filters : List (Bytes × Filter Ctx)
  pub handlers : List (Bytes × (Ctx → Ctx))
  pub routes : Routes P

-- The context, the memory of error pages, and what the loop needs of the outcome.
abbrev pub Handled : Type 0 → Type 0
Handled Ctx = Ctx × ErrorPages Ctx

-- Whether the filters let the request through.
pub data Filtered (Ctx : Type 0) : Type 0 where
  passed : Ctx → Filtered Ctx
  stopped : Ctx → Filtered Ctx
  panicked : Filtered Ctx

module _ {Ctx : Type 0} where
  -- `for _, f := range result.Filters`, on the request
  unfoldable pub filter_request : List (Bytes × Filter Ctx) → List Bytes → Ctx → Filtered Ctx
  filter_request known [] ctx = passed ctx
  filter_request known (f ∷ fs) ctx = elim (lookup f known) [
    | none ↦ panicked
    | some flt ↦
        let (go_on, ctx') = flt.request ctx in
        let rest = filter_request known fs ctx' in if go_on then rest else stopped ctx'
  ]

  -- The same loop on the response; `none` is a panic.
  unfoldable pub filter_response : List (Bytes × Filter Ctx) → List Bytes → Ctx → Option Ctx
  filter_response known [] ctx = some ctx
  filter_response known (f ∷ fs) ctx = elim (lookup f known) [
    | none ↦ none
    | some flt ↦
        let (go_on, ctx') = flt.response ctx in
        let rest = filter_response known fs ctx' in if go_on then rest else some ctx'
  ]

  abbrev with_pages : ErrorPages Ctx → Option Ctx → Option (Handled Ctx)
  with_pages pages none = none
  with_pages pages (some ctx) = some (ctx, pages)

module _ {Ctx P : Type 0} (http : FastHttp Ctx) where
  -- The status of the result, or its handler, or 404; `none` is a panic.
  unfoldable pub respond : HostHandler Ctx P → Result → Ctx → Option Ctx
  respond h result ctx =
      if is_positive result.status_code
      then some (
          http.set_status_message result.status_message
            (http.set_status_code result.status_code (http.reset_response ctx)))
      else if not (is_nil result.handler)
      then (elim (lookup result.handler h.handlers) [
        | none ↦ none
        | some handler ↦ some (handler ctx)
      ])
      else some (http.set_status_code (pos 404) ctx)

  -- `h.errorPages.Handle(ctx)` and the loop over the filters behind it.
  unfoldable pub finish : HostHandler Ctx P → Result → Option Ctx → Option (Handled Ctx)
  finish h result none = none
  finish h result (some ctx) =
      let (ctx', pages) = ErrorPages.handle http h.error_pages ctx in
      with_pages pages (filter_response h.filters result.filters ctx')

  -- Behind the filters of the request.
  unfoldable pub after_filters : HostHandler Ctx P → Result → Filtered Ctx → Option (Handled Ctx)
  after_filters h result panicked = none
  after_filters h result (stopped ctx) = some (ErrorPages.handle http h.error_pages ctx)
  after_filters h result (passed ctx) =
      let uri = redirect_uri_with_query_string result (http.query_string ctx) in
      if not (is_nil uri)
      then some (http.redirect uri result.status_code ctx, h.error_pages)
      else finish h result (respond h result ctx)

  unfoldable pub handle_route_result : HostHandler Ctx P → Ctx → Result → Option (Handled Ctx)
  handle_route_result h ctx result =
      let uri = rewrite_uri_with_query_string result (http.query_string ctx) in
      let ctx' = if not (is_nil uri) then http.set_request_uri uri ctx else ctx in
      after_filters h result (filter_request h.filters result.filters ctx')

-- What is left when the loop of `Handle` has ended.
pub data Outcome (Ctx P : Type 0) : Type 0 where
  done : HostHandler Ctx P → Pool → Ctx → Outcome Ctx P
  panic : Outcome Ctx P
  out_of_fuel : Outcome Ctx P

-- A round of the loop ends the handling, or goes on with the next round.
pub data Turn (Ctx P : Type 0) : Type 0 where
  ends : Outcome Ctx P → Turn Ctx P
  turns : HostHandler Ctx P → Pool → Ctx → ℕ → Turn Ctx P

-- The test at the end of a round: try the next route?
unfoldable pub goes_on : {Ctx P : Type 0} → FastHttp Ctx → Routes P → Result → Ctx → Bool
goes_on http rs result ctx =
    not (int_eq result.status_code (pos 404))
    && int_eq (http.status_code ctx) (pos 404)
    && is_next_if_not_found rs result.route_index

-- The end of a round: behind the routing and the handling of its result, the result is released
-- and the next route is tried or not.
unfoldable pub next_turn :
    {Ctx P : Type 0}
    → FastHttp Ctx
    → HostHandler Ctx P
    → Result
    → Routes P
    → Pool
    → Option (Handled Ctx)
    → Turn Ctx P
next_turn http h result rs pool none = ends panic
next_turn http h result rs pool (some (ctx, pages)) =
    let h' = record h { routes = rs; error_pages = pages } in
    if goes_on http rs result ctx
    then turns h' (release result pool) (http.reset_response ctx) (suc result.route_index)
    else ends (done h' (release result pool) (h.access_log.log ctx))

module _ {Ctx P : Type 0} (http : FastHttp Ctx) (re : Regexp P) (sum64 : Bytes → ℕ)
    (clock : ℕ → ℕ) where
  -- Round `n`, which reads the clock at `2 n` and `2 n + 1`.
  unfoldable pub turn : ℕ → HostHandler Ctx P → Pool → Ctx → ℕ → Turn Ctx P
  turn n h pool ctx off =
      let (result, rs, pool') =
        cached_route re sum64 (clock (2 * n)) (clock (2 * n + 1)) h.routes (http.method ctx)
          (http.path ctx) off pool in
      next_turn http h result rs pool' (handle_route_result http h ctx result)

  -- The loop of `Handle`, with fuel.
  unfoldable pub handle_loop : ℕ → ℕ → HostHandler Ctx P → Pool → Ctx → ℕ → Outcome Ctx P
  handle_loop zero n h pool ctx off = out_of_fuel
  handle_loop (suc fuel) n h pool ctx off = elim (turn n h pool ctx off) [
    | ends o ↦ o
    | turns h' pool' ctx' off' ↦ handle_loop fuel (suc n) h' pool' ctx' off'
  ]

  unfoldable pub handle : ℕ → HostHandler Ctx P → Pool → Ctx → Outcome Ctx P
  handle fuel h pool ctx = handle_loop fuel 0 h pool (h.access_log.collect ctx) 0

-- The errors that `HandleError` tells apart.
pub data ServerError : Type 0 where
  small_buffer : ServerError
  op_error : Bool → ServerError
  other : ServerError

abbrev pub error_status : ServerError → ℤ
error_status small_buffer = pos 431
error_status (op_error true) = pos 408
error_status (op_error false) = pos 400
error_status other = pos 400

module _ {Ctx P : Type 0} (http : FastHttp Ctx) where
  unfoldable pub handle_error : HostHandler Ctx P → Ctx → ServerError → Handled Ctx
  handle_error h ctx e =
      ErrorPages.handle http h.error_pages (http.set_status_code (error_status e) ctx)
