-- ===== src/Filter/BasicAuth/Laws.antt =====
-- pkg/filter/basicauth.go: who is let in.
use fasthttpd.Base.{
  ◌≡◌, refl, sym, ap, ◌∙◌, ◌↔◌, ◌⊎◌, inl, inr, Bool, true, false, Option, none, some, List, [], ◌∷◌,
  ◌++◌, map, arith, Bool-cases, length, drop, is_nil, All, Any, Bytes, codes, bytes_eq,
  eq_of_bytes_eq, bytes_eq_of_eq, has_prefix, ℤ, pos,
}
use fasthttpd.FastHttp.{FastHttp}
use fasthttpd.Filter.BasicAuth.{
  BasicAuthUser, BasicAuthFilter, base64_encode, init_user, load_users, init_users, initialized,
  panic, init, check_users, request, unauthorized,
}

-- The header that a user sends.
abbrev pub credentials : BasicAuthUser → Bytes
credentials u = codes "Basic " ++ base64_encode ((u.name ++ b':' ∷ []) ++ u.secret)

has_prefix-split : (s p : Bytes) → has_prefix s p ≡ true → s ≡ p ++ drop (length p) s
unfolding has_prefix
has_prefix-split s [] h = refl
has_prefix-split [] (c ∷ p) h = cc
has_prefix-split (d ∷ s) (c ∷ p) h =
    let same : d ≡ c = ground arith in
    let rest : has_prefix s p ≡ true = ground arith in
    rw same (ap (λ l. c ∷ l) (has_prefix-split s p rest))

has_prefix-append : (p s : Bytes) → has_prefix (p ++ s) p ≡ true
unfolding has_prefix
has_prefix-append [] s = refl
has_prefix-append (c ∷ p) s = ground (arith, has_prefix-append p s)

drop-append : (p s : Bytes) → drop (length p) (p ++ s) ≡ s
drop-append [] s = refl
drop-append (c ∷ p) s = drop-append p s

Any-init_user :
    (us : List BasicAuthUser) (auth : Bytes)
    → Any (λ u. auth ≡ u.auth) (map init_user us)
    → Any (λ u. codes "Basic " ++ auth ≡ credentials u) us
unfolding init_user
Any-init_user [] auth a = a
Any-init_user (u ∷ us) auth (inl e) = inl (ap (λ x. codes "Basic " ++ x) e)
Any-init_user (u ∷ us) auth (inr a) = inr (Any-init_user us auth a)

Any-credentials :
    (us : List BasicAuthUser) (header : Bytes)
    → Any (λ u. header ≡ credentials u) us
    → (header ≡ codes "Basic " ++ drop 6 header)
      × Any (λ u. drop 6 header ≡ u.auth) (map init_user us)
unfolding init_user
Any-credentials [] header a = absurd a
Any-credentials (u ∷ us) header (inl e) =
    (e ∙ ap (λ l. codes "Basic " ++ l) (sym (ap (drop 6) e)), inl (ap (drop 6) e))
Any-credentials (u ∷ us) header (inr a) =
    let (same, rest) = Any-credentials us header a in (same, inr rest)

credentials_prefix :
    (us : List BasicAuthUser) (header : Bytes)
    → Any (λ u. header ≡ credentials u) us
    → has_prefix header (codes "Basic ") ≡ true
credentials_prefix us header a =
    let (same, any) = Any-credentials us header a in
    rw same (has_prefix-append (codes "Basic ") (drop 6 header))

-- A user that is there, and keeps no secret.
abbrev pub HasNoSecret : Option BasicAuthUser → Type 0
HasNoSecret none = ⊥
HasNoSecret (some u) = u.secret ≡ []

-- The users, none of which is nil.
abbrev pub pointers : List BasicAuthUser → List (Option BasicAuthUser)
pointers us = map (λ u. some u) us

map-init_user-HasNoSecret :
    (us : List BasicAuthUser) → All HasNoSecret (pointers (map init_user us))
unfolding init_user
map-init_user-HasNoSecret [] = tt
map-init_user-HasNoSecret (u ∷ us) = (refl, map-init_user-HasNoSecret us)

pointers-cases :
    (ps : List (Option BasicAuthUser))
    → Any (λ p. p ≡ none) ps ⊎ ((us : List BasicAuthUser) × (ps ≡ pointers us))
pointers-cases [] = inr ([], refl)
pointers-cases (none ∷ ps) = inl (inl refl)
pointers-cases (some u ∷ ps) = elim (pointers-cases ps) [
  | inl a ↦ inl (inr a)
  | inr (us, e) ↦ inr (u ∷ us, ap (λ l. some u ∷ l) e)
]

init_users-nil : (ps : List (Option BasicAuthUser)) → Any (λ p. p ≡ none) ps → init_users ps ≡ none
unfolding init_users
init_users-nil [] a = absurd a
init_users-nil (none ∷ ps) a = refl
init_users-nil (some u ∷ ps) (inl e) = cc
init_users-nil (some u ∷ ps) (inr a) = rw (init_users-nil ps a) refl

init_users-pointers :
    (us : List BasicAuthUser) → init_users (pointers us) ≡ some (pointers (map init_user us))
unfolding init_users init_user
init_users-pointers [] = refl
init_users-pointers (u ∷ us) = rw (init_users-pointers us) refl

module _ {Ctx : Type 0} (http : FastHttp Ctx) (authorization : Ctx → Bytes)
    (set_username : Bytes → Ctx → Ctx) (error : Bytes → ℤ → Ctx → Ctx) where
  -- A decision without a panic, for the requests that the predicate admits.
  abbrev pub Decides : Type 0 → Option (Bool × Ctx) → Type 0
  Decides P r = (b : Bool) × (ctx : Ctx) × (r ≡ some (b, ctx)) × ((b ≡ true) ↔ P)

  check_users-Decides :
      (f : BasicAuthFilter) (us : List BasicAuthUser) (auth : Bytes) (ctx : Ctx)
      → Decides
          (Any (λ u. auth ≡ u.auth) us)
          (check_users http authorization set_username error f (pointers us) auth ctx)
  unfolding check_users
  check_users-Decides f [] auth ctx = (false, _, refl, ((λ h. cc), (λ a. absurd a)))
  check_users-Decides f (u ∷ us) auth ctx = elim (Bool-cases (bytes_eq auth u.auth)) [
    | inl k ↦ (
      true,
      set_username u.name ctx,
      rw k refl,
      ((λ h. inl (eq_of_bytes_eq auth u.auth k)), (λ a. refl)),
    )
    | inr k ↦
        let (b, ctx', e, (to, from)) = check_users-Decides f us auth ctx in
        (
          b,
          ctx',
          rw k e,
          (
            (λ h. inr (to h)),
            (λ a. elim a [ inl h ↦ cc (bytes_eq_of_eq auth u.auth h, k) | inr h ↦ from h ]),
          ),
        )
  ]

  request-Decides :
      (f : BasicAuthFilter) (us : List BasicAuthUser) (ctx : Ctx)
      → f.users ≡ pointers (map init_user us)
      → Decides
          (Any (λ u. authorization ctx ≡ credentials u) us)
          (request http authorization set_username error f ctx)
  unfolding request
  request-Decides f us ctx e = elim (Bool-cases (is_nil (authorization ctx))) [
    | inl n ↦ (
      false,
      unauthorized http authorization set_username error f ctx,
      rw n refl,
      ((λ h. cc), (λ a. cc (ap is_nil (Any-credentials us (authorization ctx) a).0, n))),
    )
    | inr n ↦ elim (Bool-cases (has_prefix (authorization ctx) (codes "Basic "))) [
      | inr p ↦ (
        false,
        error (codes "Unknown authorization") (pos 400) ctx,
        rw (n, p) refl,
        ((λ h. cc), (λ a. cc (credentials_prefix us (authorization ctx) a, p))),
      )
      | inl p ↦
          let rest = drop 6 (authorization ctx) in
          let (b, ctx', r, (to, from)) = check_users-Decides f (map init_user us) rest ctx in
          let split = has_prefix-split (authorization ctx) (codes "Basic ") p in
          (
            b,
            ctx',
            rw (n, p)
                (ap (λ l. check_users http authorization set_username error f l rest ctx) e ∙ r),
            (
              (λ h. rw split (Any-init_user us rest (to h))),
              (λ a. from (Any-credentials us (authorization ctx) a).1),
            ),
          )
    ]
  ]

  -- Where the users can be loaded, making the filter panics if one of them is nil. If none is, the
  -- filter can be made, it keeps no secret, and it decides on a request without a panic, which it
  -- lets in exactly if the header is the credentials of one of the loaded users.
  pub init-request :
      (read_users : Bytes → Option (List (Option BasicAuthUser))) (f g : BasicAuthFilter)
      (ctx : Ctx)
      → load_users read_users f ≡ some g
      → (Any (λ p. p ≡ none) g.users × (init read_users f ≡ panic))
        ⊎ ((us : List BasicAuthUser) × (f' : BasicAuthFilter) × (g.users ≡ pointers us)
            × (init read_users f ≡ initialized f')
            × All HasNoSecret f'.users
            × Decides
                (Any (λ u. authorization ctx ≡ credentials u) us)
                (request http authorization set_username error f' ctx))
  unfolding init
  init-request read_users f g ctx l = elim (pointers-cases g.users) [
    | inl a ↦ inl (a, rw (init, l, init_users-nil g.users a) refl)
    | inr (us, e) ↦
        let f' : BasicAuthFilter = record g { users = pointers (map init_user us) } in
        let made : init_users g.users ≡ some f'.users = ap init_users e ∙ init_users-pointers us in
        inr (
          us,
          f',
          e,
          rw (init, l, made) refl,
          map-init_user-HasNoSecret us,
          request-Decides f' us ctx refl,
        )
  ]
