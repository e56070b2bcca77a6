-- ===== src/Handler/Server/Endless.antt =====
-- pkg/handler/server.go: requests on which the loop of `Handle` never ends. A result counts its
-- route from the start of the search, and the loop takes that number for the place in the table.
use fasthttpd.Base.{
  ℕ, zero, suc, ◌+◌, ◌*◌, ◌≤◌, ◌≡◌, refl, ap, ◌∙◌, true, false, not, ◌||◌, none, some, List, [],
  ◌∷◌, arith, is_nil, Bytes, lookup, ℤ, pos, negsuc, is_positive, int_eq,
}
use fasthttpd.FastHttp.{FastHttp}
use fasthttpd.Util.StringSet.{append}
use fasthttpd.Route.{Regexp, Route, match, route}
use fasthttpd.Route.Results.{
  Result, empty_result, Pool, reset, release, rewrite_uri_with_query_string,
  redirect_uri_with_query_string,
}
use fasthttpd.Route.Cached.{cached_route-none}
use fasthttpd.Route.Search.{IsClean, route-IsClean}
use fasthttpd.Route.FirstMatch.{route_first_match, route-drop}
use fasthttpd.Route.Setup.{is_next_if_not_found}
use fasthttpd.Handler.ErrorPages
use fasthttpd.Handler.ErrorPages.{ErrorPages}
use fasthttpd.Handler.Server.{
  HostHandler, filter_request, filter_response, respond, finish, after_filters, handle_route_result,
  out_of_fuel, goes_on, turns, next_turn, turn, handle_loop, handle,
}

-- A route that calls a handler and does nothing else.
pub record IsPlain {Ctx P : Type 0} (handlers : List (Bytes × (Ctx → Ctx))) (r : Route P)
    (f : Ctx → Ctx) : Type 0 where
  pub no_filters : r.filters ≡ []
  pub no_rewrite : r.rewrite_uri_bytes ≡ []
  pub no_status : is_positive r.status_code ≡ false
  pub has_handler : is_nil r.handler ≡ false
  pub found : lookup r.handler handlers ≡ some f

-- The result of a plain route that stands at the start of the search.
abbrev plain_result : {P : Type 0} → Route P → Result
plain_result r = record empty_result {
  status_code = r.status_code;
  status_message = r.status_message_bytes;
  handler = r.handler;
  filters = append [] r.filters;
  route_index = 0;
}

module _ {Ctx P : Type 0} (http : FastHttp Ctx) where
  -- Its handling is a call of the handler, and the error page.
  plain_handling :
      (h : HostHandler Ctx P) (r : Route P) (f : Ctx → Ctx) (ctx : Ctx)
      → IsPlain h.handlers r f
      → handle_route_result http h ctx (plain_result r)
        ≡ some (ErrorPages.handle http h.error_pages (f ctx))
  unfolding handle_route_result append rewrite_uri_with_query_string redirect_uri_with_query_string
      filter_request after_filters finish respond filter_response
  plain_handling h r f ctx p = rw (p.no_filters, p.no_status, p.has_handler, p.found, respond) refl

-- The start of the table: two plain routes, of which the first has `nextIfNotFound`, and no cache.
pub record IsTrap {Ctx P : Type 0} (r0 r1 : Route P) (f0 f1 : Ctx → Ctx) (rest : List (Route P))
    (h : HostHandler Ctx P) : Type 0 where
  pub no_cache : h.routes.cache ≡ none
  pub table : h.routes.routes ≡ r0 ∷ r1 ∷ rest
  pub first : IsPlain h.handlers r0 f0
  pub second : IsPlain h.handlers r1 f1

-- A set of contexts that both routes match, whose responses have status 404 behind the handler and
-- the error page, and that holds the context again when the response is reset.
pub record IsStuck {Ctx P : Type 0} (http : FastHttp Ctx) (re : Regexp P) (r : Route P)
    (f : Ctx → Ctx) (S : Ctx → Type 0) : Type 0 where
  pub matches : (ctx : Ctx) → S ctx → match re r (http.method ctx) (http.path ctx) ≡ true
  pub not_found :
      (pages : ErrorPages Ctx) (ctx : Ctx)
      → S ctx
      → http.status_code (ErrorPages.handle http pages (f ctx)).0 ≡ pos 404
  pub stays :
      (pages : ErrorPages Ctx) (ctx : Ctx)
      → S ctx
      → S (http.reset_response (ErrorPages.handle http pages (f ctx)).0)

not_404 : (z : ℤ) → is_positive z ≡ false → int_eq z (pos 404) ≡ false
not_404 (pos zero) h = refl
not_404 (pos (suc n)) h = cc
not_404 (negsuc n) h = refl

plain_stops :
    {P : Type 0} (r : Route P)
    → is_nil r.handler ≡ false
    → (is_positive r.status_code || not (is_nil r.handler)) ≡ true
plain_stops r h = rw h (ground arith)

module _ {P : Type 0} (re : Regexp P) where
  route_0 :
      (r : Route P) (rest : List (Route P)) (method path : Bytes) (pool : Pool)
      → IsClean pool
      → match re r method path ≡ true
      → r.rewrite_uri_bytes ≡ []
      → is_nil r.handler ≡ false
      → (route re (r ∷ rest) method path 0 pool).0 ≡ plain_result r
  route_0 r rest method path pool c m w n =
      route_first_match re [] rest r method path pool c tt m w (plain_stops r n)

module _ {Ctx P : Type 0} (http : FastHttp Ctx) (re : Regexp P) (sum64 : Bytes → ℕ)
    (clock : ℕ → ℕ) where
  -- The end of a round for the result of a plain route of the table.
  trap_turns :
      (h : HostHandler Ctx P) (r : Route P) (f : Ctx → Ctx) (S : Ctx → Type 0) (pool : Pool)
      (ctx : Ctx)
      → IsPlain h.handlers r f
      → is_next_if_not_found h.routes 0 ≡ true
      → IsStuck http re r f S
      → S ctx
      → next_turn http h
          (plain_result r)
          h.routes
          pool
          (handle_route_result http h ctx (plain_result r))
        ≡ (let (c, pages) = ErrorPages.handle http h.error_pages (f ctx) in
            turns
              (record h { error_pages = pages })
              (empty_result ∷ pool)
              (http.reset_response c)
              1)
  unfolding next_turn goes_on release reset
  trap_turns h r f S pool ctx p n s at =
      rw
        (
          plain_handling http h r f ctx p,
          n,
          not_404 r.status_code p.no_status,
          s.not_found h.error_pages ctx at,
        )
        refl

  -- A round that starts at route 0 or 1 of the trap.
  turn_turns :
      (n : ℕ) (h : HostHandler Ctx P) (r : Route P) (f : Ctx → Ctx) (S : Ctx → Type 0) (pool : Pool)
      (ctx : Ctx) (off : ℕ)
      → h.routes.cache ≡ none
      → IsPlain h.handlers r f
      → is_next_if_not_found h.routes 0 ≡ true
      → IsStuck http re r f S
      → S ctx
      → (route re h.routes.routes (http.method ctx) (http.path ctx) off pool).0 ≡ plain_result r
      → turn http re sum64 clock n h pool ctx off ≡ (
          let (c, pages) = ErrorPages.handle http h.error_pages (f ctx) in
          let rest = (route re h.routes.routes (http.method ctx) (http.path ctx) off pool).1 in
          turns (record h { error_pages = pages }) (empty_result ∷ rest) (http.reset_response c) 1)
  unfolding turn
  turn_turns n h r f S pool ctx off nc p nx s at e =
      rw
        (
          cached_route-none re sum64 (clock (2 * n)) (clock (2 * n + 1)) h.routes (http.method ctx)
              (http.path ctx) off pool nc,
          e,
        )
        (trap_turns h r f S _ ctx p nx s at)

  trap_next :
      (h : HostHandler Ctx P) (r0 r1 : Route P) (f0 f1 : Ctx → Ctx) (rest : List (Route P))
      → IsTrap r0 r1 f0 f1 rest h
      → r0.next_if_not_found ≡ true
      → is_next_if_not_found h.routes 0 ≡ true
  unfolding is_next_if_not_found
  trap_next h r0 r1 f0 f1 rest t n = simp (t.table, n, is_next_if_not_found)

  -- From route 0 or 1 the loop goes on for ever.
  loop_endless :
      (r0 r1 : Route P) (f0 f1 : Ctx → Ctx) (rest : List (Route P)) (S : Ctx → Type 0)
      → r0.next_if_not_found ≡ true
      → IsStuck http re r0 f0 S
      → IsStuck http re r1 f1 S
      → (fuel n : ℕ) (h : HostHandler Ctx P) (pool : Pool) (ctx : Ctx) (off : ℕ) → off ≤ 1
      → IsTrap r0 r1 f0 f1 rest h
      → IsClean pool
      → S ctx
      → handle_loop http re sum64 clock fuel n h pool ctx off ≡ out_of_fuel
  unfolding handle_loop
  loop_endless r0 r1 f0 f1 rest S nx s0 s1 zero n h pool ctx off o t c at = refl
  loop_endless r0 r1 f0 f1 rest S nx s0 s1 (suc fuel) n h pool ctx zero o t c at =
      let e =
        turn_turns n h r0 f0 S pool ctx 0 t.no_cache t.first (trap_next h r0 r1 f0 f1 rest t nx) s0
          at
          (ap (λ l. (route re l (http.method ctx) (http.path ctx) 0 pool).0) t.table
            ∙ route_0 re r0 (r1 ∷ rest) (http.method ctx) (http.path ctx) pool c (s0.matches ctx at)
                t.first.no_rewrite t.first.has_handler) in
      rw (e, handle_loop)
        (loop_endless r0 r1 f0 f1 rest S nx s0 s1 fuel (suc n) _ _ _ 1 (omega arith)
          (record { no_cache = t.no_cache; table = t.table; first = t.first; second = t.second })
          (refl, route-IsClean re _ _ _ 0 pool c) (s0.stays h.error_pages ctx at))
  loop_endless r0 r1 f0 f1 rest S nx s0 s1 (suc fuel) n h pool ctx (suc zero) o t c at =
      let e =
        turn_turns n h r1 f1 S pool ctx 1 t.no_cache t.second (trap_next h r0 r1 f0 f1 rest t nx) s1
          at
          (ap (λ l. (route re l (http.method ctx) (http.path ctx) 1 pool).0) t.table
            ∙ ap (λ x. x.0)
                (route-drop re (r0 ∷ r1 ∷ rest) (http.method ctx) (http.path ctx) 1 pool)
            ∙ route_0 re r1 rest (http.method ctx) (http.path ctx) pool c (s1.matches ctx at)
                t.second.no_rewrite t.second.has_handler) in
      rw (e, handle_loop)
        (loop_endless r0 r1 f0 f1 rest S nx s0 s1 fuel (suc n) _ _ _ 1 (omega arith)
          (record { no_cache = t.no_cache; table = t.table; first = t.first; second = t.second })
          (refl, route-IsClean re _ _ _ 1 pool c) (s1.stays h.error_pages ctx at))
  loop_endless r0 r1 f0 f1 rest S nx s0 s1 (suc fuel) n h pool ctx (suc (suc off)) o t c at =
      ground arith

  -- Where results are not cached, the pool holds empty results, the table starts with two plain
  -- routes, of which the first has `nextIfNotFound`, and both match every request of a set and
  -- leave it at status 404 and, reset, in that set, no fuel is enough for the loop of `Handle` on a
  -- request that is in the set behind the access log: the second route is tried for ever.
  pub handle_endless :
      (r0 r1 : Route P) (f0 f1 : Ctx → Ctx) (rest : List (Route P)) (S : Ctx → Type 0) (fuel : ℕ)
      (h : HostHandler Ctx P) (pool : Pool) (ctx : Ctx)
      → r0.next_if_not_found ≡ true
      → IsStuck http re r0 f0 S
      → IsStuck http re r1 f1 S
      → IsTrap r0 r1 f0 f1 rest h
      → IsClean pool
      → S (h.access_log.collect ctx)
      → handle http re sum64 clock fuel h pool ctx ≡ out_of_fuel
  unfolding handle
  handle_endless r0 r1 f0 f1 rest S fuel h pool ctx nx s0 s1 t c at =
      loop_endless r0 r1 f0 f1 rest S nx s0 s1 fuel 0 h pool (h.access_log.collect ctx) 0
        (omega arith) t c at
