-- ===== src/Route/Search.antt =====
-- pkg/route/route.go: which result the search returns.
use fasthttpd.Base.{
  ℕ, suc, ◌≡◌, refl, ◌≢◌, ◌⊎◌, inl, inr, Bool, true, not, ◌||◌, List, [], ◌∷◌, ◌++◌, arith, leb,
  Bool-cases, length, drop, is_nil, All, Bytes, pos, is_positive,
}
use fasthttpd.Util.Http.{is_http_or_https, is_http_status_redirect}
use fasthttpd.Route.{
  Regexp, Route, Round, returns, continues, match, rewrite, decide, follow_rewrite, round, search,
  route,
}
use fasthttpd.Route.Results.{release, Result, empty_result, Pool, acquire_result, reset, copy_to}

-- The result tells the server what to do: a status, a handler or a redirect.
abbrev pub IsDecided : Result → Type 0
IsDecided r = (is_positive r.status_code ≡ true) ⊎ (r.handler ≢ []) ⊎ (r.redirect_uri ≢ [])

abbrev Returned : (Result → Type 0) → Round → Type 0
Returned Q (returns r) = Q r
Returned Q (continues r path) = Unit

-- Every pooled result is empty.
abbrev pub IsClean : Pool → Type 0
IsClean = All (λ r. r ≡ empty_result)

pub reset-empty : (r : Result) → reset r ≡ empty_result
unfolding reset
reset-empty r = refl

pub acquire_result-empty :
    (pool : Pool)
    → IsClean pool
    → ((acquire_result pool).0 ≡ empty_result) × IsClean (acquire_result pool).1
unfolding acquire_result
acquire_result-empty [] h = (refl, tt)
acquire_result-empty (r ∷ pool) h = h

-- A copy is the original, whatever the target held.
pub copy_to_lem : (r dst : Result) → copy_to r dst ≡ r
unfolding copy_to
copy_to_lem r dst = refl

append_ne_nil : (s t : Bytes) (c : ℕ) → s ++ c ∷ t ≢ []
append_ne_nil [] t c = cc
append_ne_nil (x ∷ s) t c = cc

decide-Returned : (r : Result) (path : Bytes) → Returned IsDecided (decide r path)
decide-Returned r path = elim (Bool-cases (is_positive r.status_code || not (is_nil r.handler))) [
  | inl e ↦ rw e (ground arith)
  | inr e ↦ rw e tt
]

follow_rewrite-Returned :
    (q : Bool) (uri : Bytes) (r : Result) (path : Bytes)
    → Returned IsDecided (follow_rewrite q uri r path)
unfolding follow_rewrite
follow_rewrite-Returned q [] r path = decide-Returned r path
follow_rewrite-Returned q (c ∷ uri) r path =
    elim (Bool-cases (is_http_or_https (c ∷ uri) || is_http_status_redirect r.status_code)) [
      | inl e ↦ rw e (inr (inr (append_ne_nil r.redirect_uri uri c)))
      | inr e ↦ rw e (decide-Returned _ _)
    ]

module _ {P : Type 0} (re : Regexp P) where
  round-Returned :
      (r : Route P) (i : ℕ) (method path : Bytes) (result : Result)
      → Returned IsDecided (round re r i method path result)
  unfolding round
  round-Returned r i method path result = elim (Bool-cases (match re r method path)) [
    | inl e ↦ rw e (follow_rewrite-Returned _ (rewrite re r path) _ path)
    | inr e ↦ rw e tt
  ]

  -- What every returned round and the result at the end of the table have, the search has.
  search_rule :
      (Q : Result → Type 0)
      → ((r : Route P) (i : ℕ) (method path : Bytes) (result : Result)
          → Returned Q (round re r i method path result))
      → ((result : Result) → Q (record result { status_code = pos 404 }))
      → (rs : List (Route P)) (i : ℕ) (method path : Bytes) (result : Result)
      → Q (search re rs i method path result)
  unfolding search
  search_rule Q step end [] i method path result = end result
  search_rule Q step end (r ∷ rs) i method path result =
      go (round re r i method path result) (step r i method path result)
        (λ path' found. search_rule Q step end rs (suc i) method path' found)
    where
      go :
          (x : Round)
          → Returned Q x
          → ((path' : Bytes) (found : Result) → Q (search re rs (suc i) method path' found))
          → Q (elim x [
            | returns found ↦ found
            | continues found path' ↦ search re rs (suc i) method path' found
          ])
      go (returns found) h more = h
      go (continues found path') h more = more path' found

  -- Every result of routing has a positive status, a handler or a URI to redirect to, for every
  -- table, request, start and pool.
  pub route-IsDecided :
      (routes : List (Route P)) (method path : Bytes) (off : ℕ) (pool : Pool)
      → IsDecided (route re routes method path off pool).0
  unfolding route
  route-IsDecided routes method path off pool = elim (Bool-cases (leb (length routes) off)) [
    | inl e ↦ rw e (inl refl)
    | inr e ↦ rw e (
        search_rule IsDecided round-Returned (λ r. inl refl) (drop off routes) 0 method path
          (acquire_result pool).0)
  ]

  pub route-IsClean :
      (rs : List (Route P)) (method path : Bytes) (off : ℕ) (pool : Pool)
      → IsClean pool
      → IsClean (route re rs method path off pool).1
  unfolding route
  route-IsClean rs method path off pool c = elim (Bool-cases (leb (length rs) off)) [
    | inl e ↦ rw e (acquire_result-empty pool c).1
    | inr e ↦ rw e (acquire_result-empty pool c).1
  ]

pub release-IsClean : (r : Result) (pool : Pool) → IsClean pool → IsClean (release r pool)
unfolding release
release-IsClean r pool c = (reset-empty r, c)
