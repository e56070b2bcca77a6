-- ===== src/Handler/Server/Hosts.antt =====
-- pkg/handler/server.go: the choice among virtual hosts by the host of the request.
use fasthttpd.Base.{
  ℕ, suc, ◌+◌, ◌≡◌, refl, sym, ap, ◌∙◌, ◌⊎◌, inl, inr, false, Option, none, some, List, [], ◌∷◌,
  ◌++◌, arith, ltb, ◌==◌, if◌then◌else◌, Bool-cases, Option-cases, length, get_elem?, set, take,
  length-append, All, Bytes, bytes_eq, bytes_eq_of_eq, index_byte,
}
use mathlib.Core.Path.{subst}
use fasthttpd.FastHttp.{FastHttp}
use fasthttpd.Route.{Regexp}
use fasthttpd.Route.Results.{Pool}
use fasthttpd.Handler.Server.{HostHandler, Outcome, done, panic, out_of_fuel, handle}

-- The host without its port.
unfoldable pub host_name : Bytes → Bytes
host_name host_bytes = elim (index_byte host_bytes b':') [
  | none ↦ host_bytes
  | some i ↦ take i host_bytes
]

module _ {Ctx P : Type 0} where
  -- The loop over the hosts, from place `i`; the first host of all stands for a missing one.
  unfoldable pub find_host : List (HostHandler Ctx P) → ℕ → Bytes → ℕ
  find_host [] i host = 0
  find_host (h ∷ hs) i host = if bytes_eq host h.host_bytes then i else find_host hs (suc i) host

  -- `handler`, by the place of the host.
  unfoldable pub handler : List (HostHandler Ctx P) → Bytes → ℕ
  handler handlers host_bytes =
      if ltb 1 (length handlers) then find_host handlers 0 (host_name host_bytes) else 0

  -- The handler in place `i` has changed.
  unfoldable pub put_back :
      List (HostHandler Ctx P) → ℕ → Outcome Ctx P → Option (List (HostHandler Ctx P) × Pool × Ctx)
  put_back hs i (done h pool ctx) = some (set hs i h, pool, ctx)
  put_back hs i panic = none
  put_back hs i out_of_fuel = none

  -- `Handle` of the virtual hosts; `none` where the handling does not end well.
  unfoldable pub handle_virtual :
      FastHttp Ctx
      → Regexp P
      → (Bytes → ℕ)
      → (ℕ → ℕ)
      → ℕ
      → List (HostHandler Ctx P)
      → Pool
      → Ctx
      → Option (List (HostHandler Ctx P) × Pool × Ctx)
  handle_virtual http re sum64 clock fuel hs pool ctx =
      let i = handler hs (http.host ctx) in
      elim (get_elem? hs i) [
        | none ↦ none
        | some h ↦ put_back hs i (handle http re sum64 clock fuel h pool ctx)
      ]

index_byte-append :
    (s t : Bytes) (b : ℕ) → index_byte s b ≡ none → index_byte (s ++ b ∷ t) b ≡ some (length s)
unfolding index_byte
index_byte-append [] t b h = ground arith
index_byte-append (c ∷ s) t b h = elim (Bool-cases (c == b)) [
  | inl e ↦ absurd (ground arith)
  | inr e ↦ elim (Option-cases (index_byte s b)) [
    | inl k ↦ rw (e, index_byte-append s t b k) refl
    | inr (v, k) ↦ absurd (ground arith)
  ]
]

take-append : (s t : Bytes) → take (length s) (s ++ t) ≡ s
take-append [] t = refl
take-append (c ∷ s) t = ap (λ l. c ∷ l) (take-append s t)

host_name-port : (s port : Bytes) → index_byte s b':' ≡ none → host_name (s ++ b':' ∷ port) ≡ s
unfolding host_name
host_name-port s port h =
    rw (index_byte-append s port b':' h, host_name) (take-append s (b':' ∷ port))

host_name-plain : (s : Bytes) → index_byte s b':' ≡ none → host_name s ≡ s
unfolding host_name
host_name-plain s h = rw (h, host_name) refl

-- A request that says the name, with a port or without.
abbrev pub Says : Bytes → Bytes → Type 0
Says name host = (host ≡ name) ⊎ ((port : Bytes) × (host ≡ name ++ b':' ∷ port))

host_name-Says :
    (name host : Bytes) → index_byte name b':' ≡ none → Says name host → host_name host ≡ name
host_name-Says name host n (inl e) = ap host_name e ∙ host_name-plain name n
host_name-Says name host n (inr (port, e)) = ap host_name e ∙ host_name-port name port n

module _ {Ctx P : Type 0} where
  find_host-append :
      (xs ys : List (HostHandler Ctx P)) (h : HostHandler Ctx P) (i : ℕ) (host : Bytes)
      → All (λ x. bytes_eq host x.host_bytes ≡ false) xs
      → host ≡ h.host_bytes
      → find_host (xs ++ h ∷ ys) i host ≡ i + length xs
  unfolding find_host
  find_host-append [] ys h i host a e = ground (arith, bytes_eq_of_eq host h.host_bytes e)
  find_host-append (x ∷ xs) ys h i host a e =
      ground (arith, find_host-append xs ys h (suc i) host a.1 e)

  get_elem?-append :
      (xs ys : List (HostHandler Ctx P)) (h : HostHandler Ctx P)
      → get_elem? (xs ++ h ∷ ys) (length xs) ≡ some h
  get_elem?-append [] ys h = refl
  get_elem?-append (x ∷ xs) ys h = get_elem?-append xs ys h

  handler-place :
      (xs ys : List (HostHandler Ctx P)) (h : HostHandler Ctx P) (host_bytes : Bytes)
      → All (λ x. bytes_eq h.host_bytes x.host_bytes ≡ false) xs
      → host_name host_bytes ≡ h.host_bytes
      → handler (xs ++ h ∷ ys) host_bytes ≡ length xs
  unfolding handler
  handler-place xs ys h host_bytes a e =
      let k = find_host-append xs ys h 0 h.host_bytes a refl in
      let n = length-append xs (h ∷ ys) in rw e (ground (arith, k, n))

  find_host-none :
      (hs : List (HostHandler Ctx P)) (i : ℕ) (host : Bytes)
      → All (λ x. bytes_eq host x.host_bytes ≡ false) hs
      → find_host hs i host ≡ 0
  unfolding find_host
  find_host-none [] i host a = refl
  find_host-none (h ∷ hs) i host a = ground (arith, find_host-none hs (suc i) host a.1)

  handler-none :
      (hs : List (HostHandler Ctx P)) (host_bytes : Bytes)
      → All (λ x. bytes_eq (host_name host_bytes) x.host_bytes ≡ false) hs
      → handler hs host_bytes ≡ 0
  unfolding handler
  handler-none hs host_bytes a = ground (arith, find_host-none hs 0 (host_name host_bytes) a)

  set-middle :
      (xs ys : List (HostHandler Ctx P)) (h h' : HostHandler Ctx P)
      → set (xs ++ h ∷ ys) (length xs) h' ≡ xs ++ h' ∷ ys
  set-middle [] ys h h' = refl
  set-middle (x ∷ xs) ys h h' = ap (λ l. x ∷ l) (set-middle xs ys h h')

  -- What handling by a host between others leaves.
  abbrev pub between :
      List (HostHandler Ctx P)
      → List (HostHandler Ctx P)
      → Outcome Ctx P
      → Option (List (HostHandler Ctx P) × Pool × Ctx)
  between xs ys (done h pool ctx) = some (xs ++ h ∷ ys, pool, ctx)
  between xs ys panic = none
  between xs ys out_of_fuel = none

  put_back-between :
      (xs ys : List (HostHandler Ctx P)) (h : HostHandler Ctx P) (o : Outcome Ctx P)
      → put_back (xs ++ h ∷ ys) (length xs) o ≡ between xs ys o
  unfolding put_back
  put_back-between xs ys h (done h' pool ctx) =
      ap (λ hs. some (hs, pool, ctx)) (set-middle xs ys h h')
  put_back-between xs ys h panic = refl
  put_back-between xs ys h out_of_fuel = refl

  -- The host between the others that a name asks for: the first of the name, or the first of all
  -- where none has it.
  pub data IsAsked (name : Bytes) (h : HostHandler Ctx P)
      : List (HostHandler Ctx P) → List (HostHandler Ctx P) → Type 0 where
    by_name :
        {xs ys : List (HostHandler Ctx P)}
        → All (λ x. bytes_eq name x.host_bytes ≡ false) xs
        → name ≡ h.host_bytes
        → IsAsked name h xs ys
    by_default :
        {ys : List (HostHandler Ctx P)}
        → All (λ x. bytes_eq name x.host_bytes ≡ false) (h ∷ ys)
        → IsAsked name h [] ys

  handler-IsAsked :
      (name host : Bytes) (xs ys : List (HostHandler Ctx P)) (h : HostHandler Ctx P)
      → host_name host ≡ name
      → IsAsked name h xs ys
      → handler (xs ++ h ∷ ys) host ≡ length xs
  handler-IsAsked name host xs ys h e (by_name a q) =
      handler-place xs ys h host (subst (λ m. All (λ x. bytes_eq m x.host_bytes ≡ false) xs) q a)
        (e ∙ q)
  handler-IsAsked name host xs ys h e (by_default a) =
      handler-none (h ∷ ys) host
        (subst (λ m. All (λ x. bytes_eq m x.host_bytes ≡ false) (h ∷ ys)) (sym e) a)

  -- A request says a name without a colon, with a port or without: the first host of that name
  -- handles it, or the first of all where none has the name, and the other hosts are as they were.
  pub handle_virtual-asked :
      (http : FastHttp Ctx) (re : Regexp P) (sum64 : Bytes → ℕ) (clock : ℕ → ℕ) (fuel : ℕ)
      (name : Bytes) (xs ys : List (HostHandler Ctx P)) (h : HostHandler Ctx P) (pool : Pool)
      (ctx : Ctx)
      → index_byte name b':' ≡ none
      → Says name (http.host ctx)
      → IsAsked name h xs ys
      → handle_virtual http re sum64 clock fuel (xs ++ h ∷ ys) pool ctx
        ≡ between xs ys (handle http re sum64 clock fuel h pool ctx)
  unfolding handle_virtual
  handle_virtual-asked http re sum64 clock fuel name xs ys h pool ctx n says asked =
      let place =
        handler-IsAsked name (http.host ctx) xs ys h (host_name-Says name (http.host ctx) n says)
          asked in
      subst
        (λ (i : ℕ).
          (elim (get_elem? (xs ++ h ∷ ys) i) [
            | none ↦ none
            | some h' ↦ put_back (xs ++ h ∷ ys) i (handle http re sum64 clock fuel h' pool ctx)
          ])
          ≡ between xs ys (handle http re sum64 clock fuel h pool ctx))
        (sym place)
        (rw (get_elem?-append xs ys h)
          (put_back-between xs ys h (handle http re sum64 clock fuel h pool ctx)))
