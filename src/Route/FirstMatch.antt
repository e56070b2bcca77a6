-- ===== src/Route/FirstMatch.antt =====
-- pkg/route/route.go: the first route that matches, and the start of a search.
use fasthttpd.Base.{
  ℕ, suc, ◌+◌, ◌<◌, ◌≡◌, refl, sym, ap, ◌∙◌, inl, inr, true, false, not, ◌||◌, List, [], ◌∷◌, ◌++◌,
  append-nil, arith, leb, Bool-cases, length, drop, is_nil, length-append, All, All-drop,
  length-drop, Bytes, pos, is_positive,
}
use fasthttpd.Util.StringSet.{append}
use fasthttpd.Route.{
  Regexp, Route, returns, match, rewrite, rewrite_by, decide, follow_rewrite, assign, round, search,
  route, Matcher, pattern, equal, prefix,
}
use fasthttpd.Route.Results.{Result, empty_result, Pool}
use fasthttpd.Route.Search.{IsClean, acquire_result-empty}

module _ {P : Type 0} (re : Regexp P) where
  -- Routes that do not match are passed over.
  search_skip :
      (xs ys : List (Route P)) (i : ℕ) (method path : Bytes) (result : Result)
      → All (λ x. match re x method path ≡ false) xs
      → search re (xs ++ ys) i method path result ≡ search re ys (i + length xs) method path result
  unfolding search round
  search_skip [] ys i method path result h = let e : i + 0 ≡ i = omega arith in rw e
  search_skip (x ∷ xs) ys i method path result h =
      rw (h.0, search)
        (search_skip xs ys (suc i) method path result h.1
          ∙ ap (λ k. search re ys k method path result) (omega arith))

  rewrite_by-nil : (m : Matcher P) (path : Bytes) → rewrite_by re m [] path ≡ []
  unfolding rewrite_by
  rewrite_by-nil (equal _) path = refl
  rewrite_by-nil (prefix _) path = refl
  rewrite_by-nil (pattern p) path = refl

  decide_stop :
      (r : Result) (path : Bytes)
      → (is_positive r.status_code || not (is_nil r.handler)) ≡ true
      → decide r path ≡ returns r
  decide_stop r path t = rw t

  round_stop :
      (r : Route P) (i : ℕ) (method path : Bytes) (result : Result)
      → match re r method path ≡ true
      → r.rewrite_uri_bytes ≡ []
      → (is_positive r.status_code || not (is_nil r.handler)) ≡ true
      → round re r i method path result ≡ returns (assign r i result)
  unfolding round follow_rewrite assign
  round_stop r i method path result m w t =
      let e : rewrite re r path ≡ [] =
        ap (λ u. rewrite_by re r.match_path u path) w ∙ rewrite_by-nil r.match_path path in
      rw (m, e, follow_rewrite) (decide_stop (assign r i result) path t)

  -- A route that matches, rewrites nothing and has a status or a handler ends the search.
  search_stop :
      (r : Route P) (ys : List (Route P)) (i : ℕ) (method path : Bytes) (result : Result)
      → match re r method path ≡ true
      → r.rewrite_uri_bytes ≡ []
      → (is_positive r.status_code || not (is_nil r.handler)) ≡ true
      → search re (r ∷ ys) i method path result ≡ assign r i result
  unfolding search
  search_stop r ys i method path result m w t = rw (round_stop r i method path result m w t, search)

  assign-empty :
      (r : Route P) (i : ℕ)
      → assign r i empty_result ≡ record empty_result {
        status_code = r.status_code;
        status_message = r.status_message_bytes;
        handler = r.handler;
        filters = append [] r.filters;
        route_index = i;
      }
  unfolding assign append
  assign-empty r i = ground arith

  route-search :
      (routes : List (Route P)) (method path : Bytes) (off : ℕ) (pool : Pool)
      → IsClean pool
      → off < length routes
      → (route re routes method path off pool).0
        ≡ search re (drop off routes) 0 method path empty_result
  unfolding route
  route-search routes method path off pool c h =
      let e : leb (length routes) off ≡ false = ground arith in
      rw (e, (acquire_result-empty pool c).0)

  -- With a pool of empty results and a search from the start of the table, the first route that
  -- matches decides, where it rewrites nothing and has a status or a handler: the result is that
  -- route's and nothing else, whatever stands behind it in the table.
  pub route_first_match :
      (xs ys : List (Route P)) (r : Route P) (method path : Bytes) (pool : Pool)
      → IsClean pool
      → All (λ x. match re x method path ≡ false) xs
      → match re r method path ≡ true
      → r.rewrite_uri_bytes ≡ []
      → (is_positive r.status_code || not (is_nil r.handler)) ≡ true
      → (route re (xs ++ r ∷ ys) method path 0 pool).0 ≡ record empty_result {
        status_code = r.status_code;
        status_message = r.status_message_bytes;
        handler = r.handler;
        filters = append [] r.filters;
        route_index = length xs;
      }
  route_first_match xs ys r method path pool c h m w t =
      let k : 0 + length xs ≡ length xs = omega arith in
      route-search (xs ++ r ∷ ys) method path 0 pool c (omega (arith, length-append xs (r ∷ ys)))
      ∙ search_skip xs (r ∷ ys) 0 method path empty_result h
      ∙ search_stop r ys (0 + length xs) method path empty_result m w t
      ∙ assign-empty r (0 + length xs)
      ∙ rw k

  search_none :
      (rs : List (Route P)) (method path : Bytes)
      → All (λ x. match re x method path ≡ false) rs
      → search re rs 0 method path empty_result ≡ record empty_result { status_code = pos 404 }
  unfolding search
  search_none rs method path h =
      ap (λ l. search re l 0 method path empty_result) (sym (append-nil rs))
      ∙ search_skip rs [] 0 method path empty_result h

  -- With a pool of empty results and a table in which no route matches, the result is 404 and
  -- nothing else, from every start.
  pub route_no_match :
      (routes : List (Route P)) (method path : Bytes) (off : ℕ) (pool : Pool)
      → IsClean pool
      → All (λ x. match re x method path ≡ false) routes
      → (route re routes method path off pool).0 ≡ record empty_result { status_code = pos 404 }
  unfolding route
  route_no_match routes method path off pool c h = elim (Bool-cases (leb (length routes) off)) [
    | inl e ↦ rw (e, (acquire_result-empty pool c).0)
    | inr e ↦
        rw (e, (acquire_result-empty pool c).0)
          (search_none (drop off routes) method path (All-drop _ off routes h))
  ]

  -- A search from `off` is the search from the start of the table without its first `off` routes:
  -- the index in its result counts from `off`, not from the start of the table.
  pub route-drop :
      (routes : List (Route P)) (method path : Bytes) (off : ℕ) (pool : Pool)
      → route re routes method path off pool ≡ route re (drop off routes) method path 0 pool
  unfolding route
  route-drop routes method path off pool =
      let e : leb (length (drop off routes)) 0 ≡ leb (length routes) off =
        ground (arith, length-drop off routes) in
      rw e
