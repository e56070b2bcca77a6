-- ===== src/Handler/ErrorPages/Laws.antt =====
-- pkg/handler/errorpages.go: which page a status gets, that the memory of pages changes no answer,
-- and what an error page leaves of the request and the response.
use fasthttpd.Base.{
  ℕ, suc, ◌+◌, ◌-◌, ◌*◌, ◌/◌, ◌≡◌, refl, ◌⊎◌, not, Option, none, some, List, [], ◌∷◌, ltb,
  if◌then◌else◌, length, set, is_nil, Bytes, lookup,
}
use fasthttpd.FastHttp.{FastHttp}
use fasthttpd.Util.Padding.{digit}
use fasthttpd.Handler.ErrorPages.{
  ErrorPages, path_or, send_default_error, store, send_error, handle_status, slot,
}

-- The keys that are tried for a status of three digits, the most specific one first.
abbrev pub candidates : ℕ → ℕ → ℕ → List Bytes
candidates a b c =
    (a ∷ b ∷ c ∷ []) ∷ (a ∷ b ∷ b'x' ∷ []) ∷ (a ∷ b'x' ∷ b'x' ∷ []) ∷ (b'x' ∷ b'x' ∷ b'x' ∷ []) ∷ []

-- The first key with a page; empty where there is none.
abbrev pub first_page : List (Bytes × Bytes) → List Bytes → Bytes
first_page m [] = []
first_page m (k ∷ ks) = elim (path_or (lookup k m) []) [ [] ↦ first_page m ks | c ∷ s ↦ c ∷ s ]

abbrev pub status_digits : ℕ → List Bytes
status_digits n =
    candidates (digit (n / 100)) (digit (n / 10 - n / 100 * 10)) (digit (n - n / 10 * 10))

-- A slot of the memory is unset, holds the page of its status, or marks it as not servable.
abbrev pub IsSlot : List (Bytes × Bytes) → ℕ → Option Bytes → Type 0
IsSlot m i none = Unit
IsSlot m i (some path) = (path ≡ first_page m (status_digits (400 + i))) ⊎ (path ≡ b'-' ∷ [])

module _ {Ctx : Type 0} where
  abbrev pub IsMemo : ErrorPages Ctx → Type 0
  IsMemo p = (i : ℕ) → IsSlot p.status_to_path i (slot p i)

module _ {Ctx : Type 0} (http : FastHttp Ctx) where
  -- What the search for a page comes to, once the page is known.
  abbrev pub answer : (Ctx → Ctx) → ℕ → Bytes → ErrorPages Ctx → Ctx → Ctx × ErrorPages Ctx
  answer fs i [] p ctx = (send_default_error http ctx, store i [] p)
  answer fs i (c ∷ s) p ctx = send_error http fs i (c ∷ s) (store i (c ∷ s) p) ctx

  handle_status-round :
      (l : ℕ) (fs : Ctx → Ctx) (i : ℕ) (sb key : Bytes) (ks : List Bytes) (p : ErrorPages Ctx)
      (ctx : Ctx)
      → (if ltb l (length sb) then set sb l b'x' else sb) ≡ key
      → handle_status http l fs i key p ctx ≡ answer fs i (first_page p.status_to_path ks) p ctx
      → handle_status http (suc l) fs i sb p ctx
        ≡ answer fs i (first_page p.status_to_path (key ∷ ks)) p ctx
  unfolding handle_status
  handle_status-round l fs i sb key ks p ctx e h =
      rw e (go (path_or (lookup key p.status_to_path) []))
    where
      go :
          (page : Bytes)
          → (if not (is_nil page)
              then send_error http fs i page (store i page p) ctx
              else handle_status http l fs i key p ctx)
            ≡ answer fs i (elim page [ [] ↦ first_page p.status_to_path ks | c ∷ s ↦ c ∷ s ]) p ctx
      go [] = h
      go (c ∷ s) = refl

  -- For three digits the search tries the four candidates in their order.
  pub handle_status-first_page :
      (fs : Ctx → Ctx) (i a b c : ℕ) (p : ErrorPages Ctx) (ctx : Ctx)
      → handle_status http 4 fs i (a ∷ b ∷ c ∷ []) p ctx
        ≡ answer fs i (first_page p.status_to_path (candidates a b c)) p ctx
  unfolding handle_status
  handle_status-first_page fs i a b c p ctx =
      let x : ℕ = b'x' in
      let last : List Bytes = (x ∷ x ∷ x ∷ []) ∷ [] in
      let third : List Bytes = (a ∷ x ∷ x ∷ []) ∷ last in
      let second : List Bytes = (a ∷ b ∷ x ∷ []) ∷ third in
      handle_status-round 3 fs i (a ∷ b ∷ c ∷ []) (a ∷ b ∷ c ∷ []) second p ctx refl (
        handle_status-round 2 fs i (a ∷ b ∷ c ∷ []) (a ∷ b ∷ x ∷ []) third p ctx refl (
          handle_status-round 1 fs i (a ∷ b ∷ x ∷ []) (a ∷ x ∷ x ∷ []) last p ctx refl (
            handle_status-round 0 fs i (a ∷ x ∷ x ∷ []) (x ∷ x ∷ x ∷ []) [] p ctx refl
              (none_left fs i (x ∷ x ∷ x ∷ []) p ctx))))
    where
      none_left :
          (fs : Ctx → Ctx) (i : ℕ) (sb : Bytes) (p : ErrorPages Ctx) (ctx : Ctx)
          → handle_status http 0 fs i sb p ctx ≡ (send_default_error http ctx, store i [] p)
      none_left fs i sb p ctx = refl

  -- The response to a status whose page is known.
  abbrev pub page_response : (Ctx → Ctx) → Bytes → Ctx → Ctx
  page_response fs path ctx =
      (send_error http fs 0 path (record { status_to_path = []; fs = none; error_paths = [] })
        ctx).0
