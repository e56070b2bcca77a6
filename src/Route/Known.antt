-- ===== src/Route/Known.antt =====
-- pkg/route/route.go: the filters and the handler of a result are among the configured ones, so
-- that the server never calls a missing one.
use fasthttpd.Base.{
  ℕ, suc, ◌≡◌, refl, ◌⊎◌, inl, inr, Bool, true, not, ◌||◌, List, [], ◌∷◌, arith, leb, if◌then◌else◌,
  Bool-cases, length, drop, is_nil, All, All-drop, Bytes, contains, is_positive,
}
use fasthttpd.Util.Http.{is_http_or_https, is_http_status_redirect}
use fasthttpd.Util.StringSet.{append}
use fasthttpd.Util.StringSet.Laws.{IsDistinct, append-IsDistinct, append-All}
use fasthttpd.Route.{
  Regexp, Route, Round, returns, continues, match, rewrite, decide, follow_rewrite, assign, round,
  search, route,
}
use fasthttpd.Route.Results.{Result, empty_result, Pool}
use fasthttpd.Route.Search.{IsClean, acquire_result-empty}
use fasthttpd.Route.Setup.{
  RouteConfig, RoutesConfig, Routes, ok, bind-eq-ok, check_filters, check_handler, init_match_path,
  new_route, new_route_list, new_routes,
}

-- A property of the filters and the handler of a result.
module _ (F : List Bytes → Bytes → Type 0) where
  abbrev Keeps : Round → Type 0
  Keeps (returns r) = F r.filters r.handler
  Keeps (continues r path) = F r.filters r.handler

  decide-Keeps : (r : Result) (path : Bytes) → F r.filters r.handler → Keeps (decide r path)
  decide-Keeps r path h = elim (Bool-cases (is_positive r.status_code || not (is_nil r.handler))) [
    | inl e ↦ rw e h
    | inr e ↦ rw e h
  ]

  follow_rewrite-Keeps :
      (q : Bool) (uri : Bytes) (r : Result) (path : Bytes)
      → F r.filters r.handler
      → Keeps (follow_rewrite q uri r path)
  unfolding follow_rewrite
  follow_rewrite-Keeps q [] r path h = decide-Keeps r path h
  follow_rewrite-Keeps q (c ∷ uri) r path h =
      elim (Bool-cases (is_http_or_https (c ∷ uri) || is_http_status_redirect r.status_code)) [
        | inl e ↦ rw e h
        | inr e ↦ rw e (decide-Keeps _ _ h)
      ]

  module _ {P : Type 0} (re : Regexp P) where
    -- What a matching route's filters and handler add.
    abbrev Adds : Route P → Type 0
    Adds r =
        (fs : List Bytes) (h : Bytes)
        → F fs h
        → F (if is_nil r.filters then fs else append fs r.filters) r.handler

    round-Keeps :
        (r : Route P) (i : ℕ) (method path : Bytes) (result : Result)
        → Adds r
        → F result.filters result.handler
        → Keeps (round re r i method path result)
    unfolding round assign
    round-Keeps r i method path result a h = elim (Bool-cases (match re r method path)) [
      | inl e ↦ rw e (
          follow_rewrite-Keeps _ (rewrite re r path) (assign r i result) path
            (a result.filters result.handler h))
      | inr e ↦ rw e h
    ]

    search-Keeps :
        (rs : List (Route P)) (i : ℕ) (method path : Bytes) (result : Result)
        → All Adds rs
        → F result.filters result.handler
        → F (search re rs i method path result).filters (search re rs i method path result).handler
    unfolding search
    search-Keeps [] i method path result a h = h
    search-Keeps (r ∷ rs) i method path result a h =
        go (round re r i method path result) (round-Keeps r i method path result a.0 h)
          (λ path' found. search-Keeps rs (suc i) method path' found a.1)
      where
        after : Round → Result
        after x = elim x [
          | returns found ↦ found
          | continues found path' ↦ search re rs (suc i) method path' found
        ]

        go :
            (x : Round)
            → Keeps x
            → ((path' : Bytes) (found : Result)
                → F found.filters found.handler
                → F
                    (search re rs (suc i) method path' found).filters
                    (search re rs (suc i) method path' found).handler)
            → F (after x).filters (after x).handler
        go (returns found) k more = k
        go (continues found path') k more = more path' found k

    pub route-Keeps :
        (routes : List (Route P)) (method path : Bytes) (off : ℕ) (pool : Pool)
        → IsClean pool
        → All Adds routes
        → F [] []
        → F
            (route re routes method path off pool).0.filters
            (route re routes method path off pool).0.handler
    unfolding route
    route-Keeps routes method path off pool c a h = elim (Bool-cases (leb (length routes) off)) [
      | inl e ↦ rw (e, (acquire_result-empty pool c).0) h
      | inr e ↦
          rw (e, (acquire_result-empty pool c).0)
            (search-Keeps (drop off routes) 0 method path empty_result (All-drop Adds off routes a)
              h)
    ]

module _ {P : Type 0} (re : Regexp P) where
  -- With a pool of empty results a result names each filter once, whatever the routes that matched
  -- name.
  pub route-IsDistinct :
      (routes : List (Route P)) (method path : Bytes) (off : ℕ) (pool : Pool)
      → IsClean pool
      → IsDistinct (route re routes method path off pool).0.filters
  route-IsDistinct routes method path off pool c =
      route-Keeps (λ fs h. IsDistinct fs) re routes method path off pool c (all routes) tt
    where
      adds :
          (r : Route P) (fs : List Bytes)
          → IsDistinct fs
          → IsDistinct (if is_nil r.filters then fs else append fs r.filters)
      adds r fs d = elim (Bool-cases (is_nil r.filters)) [
        | inl e ↦ rw e d
        | inr e ↦ rw e (append-IsDistinct fs r.filters d)
      ]

      all : (rs : List (Route P)) → All (Adds (λ fs h. IsDistinct fs) re) rs
      all [] = tt
      all (r ∷ rs) = ((λ fs h d. adds r fs d), all rs)

module _ (filters handlers : List Bytes) where
  -- The names are among the configured ones; the empty handler stands for none.
  abbrev pub AreKnown : List Bytes → Bytes → Type 0
  AreKnown fs h =
      All (λ f. contains filters f ≡ true) fs × ((h ≡ []) ⊎ (contains handlers h ≡ true))

  check_filters-All :
      (fs : List Bytes) {u : Unit {0}}
      → check_filters filters fs ≡ ok u
      → All (λ f. contains filters f ≡ true) fs
  unfolding check_filters
  check_filters-All [] e = tt
  check_filters-All (f ∷ fs) e = elim (Bool-cases (contains filters f)) [
    | inl k ↦ (k, check_filters-All fs (ground arith))
    | inr k ↦ absurd (ground arith)
  ]

  check_handler-known :
      (h : Bytes) {u : Unit {0}}
      → check_handler handlers h ≡ ok u
      → (h ≡ []) ⊎ (contains handlers h ≡ true)
  unfolding check_handler
  check_handler-known [] e = inl refl
  check_handler-known (c ∷ h) e = ground arith

  module _ {P : Type 0} (re : Regexp P) where
    new_route_fields :
        (rcfg : RouteConfig) {r : Route P}
        → new_route re rcfg ≡ ok r
        → (r.filters ≡ rcfg.filters) × (r.handler ≡ rcfg.handler)
    unfolding new_route
    new_route_fields rcfg e =
        let (m, _, same) = bind-eq-ok (init_match_path re rcfg.match rcfg.path) _ e in
        (ground arith, ground arith)

    new_route_list-AreKnown :
        (rcfgs : List RouteConfig) {rs : List (Route P)}
        → new_route_list re filters handlers rcfgs ≡ ok rs
        → All (λ r. AreKnown r.filters r.handler) rs
    unfolding new_route_list
    new_route_list-AreKnown [] {rs} e = let s : rs ≡ [] = ground arith in rw s tt
    new_route_list-AreKnown (rcfg ∷ rcfgs) {rs} e =
        let (_, known, e1) = bind-eq-ok (check_filters filters rcfg.filters) _ e in
        let (_, found, e2) = bind-eq-ok (check_handler handlers rcfg.handler) _ e1 in
        let (r, built, e3) = bind-eq-ok (new_route re rcfg) _ e2 in
        let (more, rest, e4) = bind-eq-ok (new_route_list re filters handlers rcfgs) _ e3 in
        let s : rs ≡ r ∷ more = ground arith in
        let (same_filters, same_handler) = new_route_fields rcfg built in
        rw s (
          rw (same_filters, same_handler)
              (check_filters-All rcfg.filters known, check_handler-known rcfg.handler found),
          new_route_list-AreKnown rcfgs rest,
        )

    Adds-AreKnown :
        (rs : List (Route P))
        → All (λ r. AreKnown r.filters r.handler) rs
        → All (Adds AreKnown re) rs
    Adds-AreKnown [] h = tt
    Adds-AreKnown (r ∷ rs) h = (add, Adds-AreKnown rs h.1)
      where
        add :
            (fs : List Bytes) (n : Bytes)
            → AreKnown fs n
            → AreKnown (if is_nil r.filters then fs else append fs r.filters) r.handler
        add fs n k = elim (Bool-cases (is_nil r.filters)) [
          | inl e ↦ rw e (k.0, h.0.1)
          | inr e ↦ rw e (append-All (λ f. contains filters f ≡ true) fs r.filters k.0 h.0.0, h.0.1)
        ]

-- Where the table could be built from the configuration and the pool holds empty results, every
-- filter of a result is configured, and so is its handler, if it has one: the server finds what the
-- result names.
pub route-AreKnown :
    {P : Type 0} (re : Regexp P) (cfg : RoutesConfig) (now : ℕ) (rs : Routes P)
    (method path : Bytes) (off : ℕ) (pool : Pool)
    → new_routes re cfg now ≡ ok rs
    → IsClean pool
    → AreKnown cfg.filters cfg.handlers
        (route re rs.routes method path off pool).0.filters
        (route re rs.routes method path off pool).0.handler
unfolding new_routes
route-AreKnown re cfg now rs method path off pool e c =
    let (list, built, same) =
      bind-eq-ok (new_route_list re cfg.filters cfg.handlers cfg.routes) _ e in
    let s : rs.routes ≡ list = ground arith in
    let known = new_route_list-AreKnown cfg.filters cfg.handlers re cfg.routes built in
    route-Keeps (AreKnown cfg.filters cfg.handlers) re rs.routes method path off pool c
      (rw s (Adds-AreKnown cfg.filters cfg.handlers re list known)) (tt, inl refl)
