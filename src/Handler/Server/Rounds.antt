-- ===== src/Handler/Server/Rounds.antt =====
-- pkg/handler/server.go: how many rounds the loop of `Handle` makes.
use fasthttpd.Base.{
  ℕ, zero, suc, ◌+◌, ◌*◌, ◌≡◌, refl, ◌≢◌, inl, inr, false, Option, none, some, List, [], ◌∷◌, arith,
  Option-cases, eq_of_some, get_elem?, All, Bytes,
}
use fasthttpd.FastHttp.{FastHttp}
use fasthttpd.Route.{Regexp, Route}
use fasthttpd.Route.Results.{Result, Pool, release}
use fasthttpd.Route.Setup.{Routes, ResultCache, is_next_if_not_found}
use fasthttpd.Route.Cached.{answer, cached_route}
use fasthttpd.Handler.Server.{
  ends, next_turn, turn, HostHandler, Handled, handle_route_result, Outcome, done, panic,
  out_of_fuel, goes_on, handle_loop, handle,
}

module _ {P : Type 0} (re : Regexp P) (sum64 : Bytes → ℕ) where
  answer-routes :
      (key later : ℕ) (rs : Routes P) (method path : Bytes) (off : ℕ) (pool : Pool)
      (hit : Option Result) (c : ResultCache)
      → (answer re key later rs method path off pool hit c).1.routes ≡ rs.routes
  unfolding answer
  answer-routes key later rs method path off pool none c = refl
  answer-routes key later rs method path off pool (some r) c = refl

  pub cached_route-routes :
      (now later : ℕ) (rs : Routes P) (method path : Bytes) (off : ℕ) (pool : Pool)
      → (cached_route re sum64 now later rs method path off pool).1.routes ≡ rs.routes
  unfolding cached_route
  cached_route-routes now later rs method path off pool = elim (Option-cases rs.cache) [
    | inl e ↦ rw (e, cached_route)
    | inr (c, e) ↦ rw (e, cached_route) (answer-routes _ later rs method path off pool _ _)
  ]

-- No route asks for the next one.
abbrev pub HasNoNext : {P : Type 0} → List (Route P) → Type 0
HasNoNext = All (λ r. r.next_if_not_found ≡ false)

get_elem?-All :
    {A : Type 0} (Q : A → Type 0) (xs : List A) (i : ℕ) {v : A}
    → All Q xs
    → get_elem? xs i ≡ some v
    → Q v
get_elem?-All Q [] i h e = cc
get_elem?-All Q (x ∷ xs) zero h e = rw (← eq_of_some e) h.0
get_elem?-All Q (x ∷ xs) (suc i) h e = get_elem?-All Q xs i h.1 e

no_next :
    {P : Type 0} (rs : Routes P) (i : ℕ) → HasNoNext rs.routes → is_next_if_not_found rs i ≡ false
unfolding is_next_if_not_found
no_next rs i h = elim (Option-cases (get_elem? rs.routes i)) [
  | inl e ↦ rw (e, is_next_if_not_found)
  | inr (r, e) ↦
      rw (e, is_next_if_not_found)
        (get_elem?-All (λ r. r.next_if_not_found ≡ false) rs.routes i h e)
]

goes_on_no_next :
    {Ctx P : Type 0} (http : FastHttp Ctx) (rs : Routes P) (result : Result) (ctx : Ctx)
    → HasNoNext rs.routes
    → goes_on http rs result ctx ≡ false
unfolding goes_on
goes_on_no_next http rs result ctx h = ground (arith, no_next rs result.route_index h)

panic-ne-out_of_fuel : {Ctx P : Type 0} → ◌≢◌ {A = Outcome Ctx P} panic out_of_fuel
panic-ne-out_of_fuel = λ e. cc

done-ne-out_of_fuel :
    {Ctx P : Type 0} (h : HostHandler Ctx P) (pool : Pool) (ctx : Ctx)
    → done h pool ctx ≢ out_of_fuel
done-ne-out_of_fuel h pool ctx = λ e. cc

module _ {Ctx P : Type 0} (http : FastHttp Ctx) where
  -- Where no route asks for the next one a round ends the handling.
  next_turn_ends :
      (h : HostHandler Ctx P) (result : Result) (rs : Routes P) (pool : Pool)
      (o : Option (Handled Ctx))
      → HasNoNext rs.routes
      → (x : Outcome Ctx P) × (next_turn http h result rs pool o ≡ ends x) × (x ≢ out_of_fuel)
  unfolding next_turn
  next_turn_ends h result rs pool none n = (panic, refl, panic-ne-out_of_fuel)
  next_turn_ends h result rs pool (some (ctx, pages)) n =
      let h' = record h { routes = rs; error_pages = pages } in
      let x : Outcome Ctx P = done h' (release result pool) (h.access_log.log ctx) in
      (x, rw (goes_on_no_next http rs result ctx n), done-ne-out_of_fuel _ _ _)

module _ {Ctx P : Type 0} (http : FastHttp Ctx) (re : Regexp P) (sum64 : Bytes → ℕ)
    (clock : ℕ → ℕ) where
  -- Where no route has `nextIfNotFound` one round of the loop is enough: with more fuel the outcome
  -- is the same, and it is the end of the loop or a panic.
  pub handle_one_round :
      (fuel : ℕ) (h : HostHandler Ctx P) (pool : Pool) (ctx : Ctx)
      → HasNoNext h.routes.routes
      → (handle http re sum64 clock (suc fuel) h pool ctx ≡ handle http re sum64 clock 1 h pool ctx)
        × (handle http re sum64 clock 1 h pool ctx ≢ out_of_fuel)
  unfolding handle handle_loop turn
  handle_one_round fuel h pool ctx n =
      let ctx' = h.access_log.collect ctx in
      let routed =
        cached_route re sum64 (clock (2 * 0)) (clock (2 * 0 + 1)) h.routes (http.method ctx')
          (http.path ctx') 0 pool in
      let same : routed.1.routes ≡ h.routes.routes =
        cached_route-routes re sum64 (clock (2 * 0)) (clock (2 * 0 + 1)) h.routes (http.method ctx')
          (http.path ctx') 0 pool in
      let (x, e, ended) =
        next_turn_ends http h routed.0 routed.1 routed.2 (handle_route_result http h ctx' routed.0)
          (rw same n) in
      rw (e, handle_loop) (refl, ended)
