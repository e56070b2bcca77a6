-- ===== src/Handler/ErrorPages/Kept.antt =====
-- pkg/handler/errorpages.go: what an error page leaves of the request and the response.
use fasthttpd.Base.{
  ℕ, zero, suc, ◌+◌, ◌-◌, ◌≡◌, refl, ◌∙◌, inl, inr, not, ◌||◌, Option, none, some, [], ◌∷◌, ltb,
  leb, if◌then◌else◌, Bool-cases, length, set, is_nil, Bytes, bytes_eq, lookup, ℤ, pos, negsuc,
  int_eq,
}
use fasthttpd.Std.{itoa}
use fasthttpd.FastHttp.{FastHttp, FastHttpLaws}
use fasthttpd.Handler.ErrorPages.{
  ErrorPages, path_or, send_default_error, store, serve_page, send_error, handle_status,
  handle_slot, slot, handle, handle_fs, handle_code,
}

-- What is kept of a request and its response.
abbrev pub IsKept : {Ctx : Type 0} → FastHttp Ctx → Ctx → Ctx → Type 0
IsKept http before after =
    (http.status_code after ≡ http.status_code before)
    × (http.request_uri after ≡ http.request_uri before)

module _ {Ctx : Type 0} (http : FastHttp Ctx) (laws : FastHttpLaws http) where
  pub send_default_error-IsKept : (ctx : Ctx) → IsKept http ctx (send_default_error http ctx)
  unfolding send_default_error
  send_default_error-IsKept ctx = elim (Bool-cases (is_nil (http.body ctx))) [
    | inl e ↦ rw e (
      laws.status-set_body _ _ ∙ laws.status-set_content_type _ ctx,
      laws.uri-set_body _ _ ∙ laws.uri-set_content_type _ ctx,
    )
    | inr e ↦ rw e (refl, refl)
  ]

  cleared-IsKept : (ctx : Ctx) → IsKept http ctx (send_default_error http (http.set_body [] ctx))
  cleared-IsKept ctx =
      let (s, u) = send_default_error-IsKept (http.set_body [] ctx) in
      (s ∙ laws.status-set_body [] ctx, u ∙ laws.uri-set_body [] ctx)

  restored-IsKept :
      (ctx served : Ctx)
      → IsKept http ctx (
          http.set_status_code
            (http.status_code ctx)
            (http.set_request_uri (http.request_uri ctx) served))
  restored-IsKept ctx served =
      (laws.status-set_status _ _, laws.uri-set_status _ _ ∙ laws.uri-set_request_uri _ served)

  send_error-IsKept :
      (fs : Ctx → Ctx) (i : ℕ) (path : Bytes) (p : ErrorPages Ctx) (ctx : Ctx)
      → IsKept http ctx (send_error http fs i path p ctx).0
  unfolding send_error serve_page
  send_error-IsKept fs i [] p ctx = send_default_error-IsKept ctx
  send_error-IsKept fs i (c ∷ s) p ctx =
      let served = fs (http.set_request_uri (c ∷ s) ctx) in
      let (rs, ru) = restored-IsKept ctx served in
      elim (Bool-cases (bytes_eq (c ∷ s) (b'-' ∷ []))) [
        | inl e ↦ rw e (cleared-IsKept ctx)
        | inr e ↦ elim (Bool-cases (int_eq (http.status_code served) (pos 200))) [
          | inl f ↦ rw (e, f) (rs, ru)
          | inr f ↦
              let (s', u') = cleared-IsKept (
                http.set_status_code (http.status_code ctx)
                  (http.set_request_uri (http.request_uri ctx) served)) in
              rw (e, f) (s' ∙ rs, u' ∙ ru)
        ]
      ]

  handle_status-IsKept :
      (l : ℕ) (fs : Ctx → Ctx) (i : ℕ) (sb : Bytes) (p : ErrorPages Ctx) (ctx : Ctx)
      → IsKept http ctx (handle_status http l fs i sb p ctx).0
  unfolding handle_status
  handle_status-IsKept zero fs i sb p ctx = send_default_error-IsKept ctx
  handle_status-IsKept (suc l) fs i sb p ctx =
      let sb' = if ltb l (length sb) then set sb l b'x' else sb in
      go (path_or (lookup sb' p.status_to_path) []) _ (handle_status-IsKept l fs i sb' p ctx)
    where
      go :
          (page : Bytes) (rest : Ctx × ErrorPages Ctx)
          → IsKept http ctx rest.0
          → IsKept http ctx
              (if not (is_nil page) then send_error http fs i page (store i page p) ctx else rest).0
      go [] rest h = h
      go (c ∷ s) rest h = send_error-IsKept fs i (c ∷ s) _ ctx

  -- Under the laws of the context, and whatever the file server of the error pages does to it, the
  -- status and the request URI are afterwards what they were.
  pub handle-IsKept : (p : ErrorPages Ctx) (ctx : Ctx) → IsKept http ctx (handle http p ctx).0
  unfolding handle handle_slot
  handle-IsKept p ctx = go (http.status_code ctx)
    where
      by_slot :
          (o : Option Bytes) (fs : Ctx → Ctx) (i : ℕ)
          → IsKept http ctx (handle_slot http o fs i p ctx).0
      by_slot none fs i = handle_status-IsKept _ fs i (itoa (400 + i)) p ctx
      by_slot (some path) fs i = send_error-IsKept fs i path p ctx

      by_fs : (f : Option (Ctx → Ctx)) (i : ℕ) → IsKept http ctx (handle_fs http f i p ctx).0
      by_fs none i = send_default_error-IsKept ctx
      by_fs (some fs) i = by_slot (slot p i) fs i

      go : (code : ℤ) → IsKept http ctx (handle_code http code p ctx).0
      go (negsuc n) = (refl, refl)
      go (pos n) = elim (Bool-cases (ltb n 400 || leb 600 n)) [
        | inl e ↦ rw e (refl, refl)
        | inr e ↦ rw e (by_fs p.fs (n - 400))
      ]
