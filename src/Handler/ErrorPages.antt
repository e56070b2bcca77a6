-- ===== src/Handler/ErrorPages.antt =====
-- pkg/handler/errorpages.go: custom error pages, found by the status and remembered.
pub mod Laws
pub mod Kept
mod Tests
use fasthttpd.Base.{
  ℕ, zero, suc, ◌+◌, ◌-◌, ◌/◌, ◌<◌, not, ◌||◌, Option, none, some, List, [], ◌∷◌, ◌++◌, ltb, leb,
  if◌then◌else◌, length, get_elem?, set, replicate, is_nil, Bytes, codes, bytes_eq, lookup, ℤ, pos,
  negsuc, int_eq, neg,
}
use fasthttpd.Std.{status_text, itoa}
use fasthttpd.FastHttp.{FastHttp}

pub record ErrorPages (Ctx : Type 0) : Type 0 where
  pub status_to_path : List (Bytes × Bytes)
  -- `none` for a nil handler
  pub fs : Option (Ctx → Ctx)
  -- by the status less 400; `none` for nil
  pub error_paths : List (Option Bytes)

abbrev pub path_or : Option Bytes → Bytes → Bytes
path_or none d = d
path_or (some p) d = p

-- `new_fs root` is the handler of a `fasthttp.FS` with that root.
unfoldable pub new_error_pages :
    {Ctx : Type 0} → (Bytes → Ctx → Ctx) → Bytes → List (Bytes × Bytes) → ErrorPages Ctx
new_error_pages new_fs root [] = record { status_to_path = []; fs = none; error_paths = [] }
new_error_pages new_fs root (e ∷ pages) = record {
  status_to_path = e ∷ pages;
  fs = some (new_fs (path_or (lookup (codes "root") (e ∷ pages)) root));
  error_paths = replicate 200 none;
}

-- `p.errorPaths[i] = path`
abbrev pub store : {Ctx : Type 0} → ℕ → Bytes → ErrorPages Ctx → ErrorPages Ctx
store i path p = record p { error_paths = set p.error_paths i (some path) }

abbrev pub slot_of : Option (Option Bytes) → Option Bytes
slot_of none = none
slot_of (some path) = path

abbrev pub slot : {Ctx : Type 0} → ErrorPages Ctx → ℕ → Option Bytes
slot p i = slot_of (get_elem? p.error_paths i)

module _ {Ctx : Type 0} (http : FastHttp Ctx) where
  unfoldable pub send_default_error : Ctx → Ctx
  send_default_error ctx =
      if not (is_nil (http.body ctx))
      then ctx
      else let status = http.status_code ctx in
        let title = (http.uint_digits status ++ b' ' ∷ []) ++ status_text status in
        http.set_body
          (codes "<!DOCTYPE html><html><head><title>"
            ++ title
            ++ codes "</title><style>h1,p { text-align: center; }</style></head><body><h1>"
            ++ title
            ++ codes "</h1></body></html>")
          (http.set_content_type (codes "text/html; charset=utf-8") ctx)

  -- The page is served under its own URI; `i` is the status less 400.
  unfoldable pub serve_page : (Ctx → Ctx) → ℕ → Bytes → ErrorPages Ctx → Ctx → Ctx × ErrorPages Ctx
  serve_page fs i path p ctx =
      let status = http.status_code ctx in
      let uri = http.request_uri ctx in
      let served = fs (http.set_request_uri path ctx) in
      let restored = http.set_status_code status (http.set_request_uri uri served) in
      if int_eq (http.status_code served) (pos 200)
      then (restored, p)
      else (send_default_error (http.set_body [] restored), store i (b'-' ∷ []) p)

  unfoldable pub send_error : (Ctx → Ctx) → ℕ → Bytes → ErrorPages Ctx → Ctx → Ctx × ErrorPages Ctx
  send_error fs i [] p ctx = (send_default_error ctx, p)
  send_error fs i (c ∷ path) p ctx =
      if bytes_eq (c ∷ path) (b'-' ∷ [])
      then (send_default_error (http.set_body [] ctx), p)
      else serve_page fs i (c ∷ path) p ctx

  -- The recursion of `handleStatus`; the count is `l + 1`, so that zero is the test `l < 0`.
  unfoldable pub handle_status :
      ℕ → (Ctx → Ctx) → ℕ → Bytes → ErrorPages Ctx → Ctx → Ctx × ErrorPages Ctx
  handle_status zero fs i sb p ctx = (send_default_error ctx, store i [] p)
  handle_status (suc l) fs i sb p ctx =
      let sb' = if ltb l (length sb) then set sb l b'x' else sb in
      let page = path_or (lookup sb' p.status_to_path) [] in
      let rest = handle_status l fs i sb' p ctx in
      if not (is_nil page) then send_error fs i page (store i page p) ctx else rest

  -- What is done for the status `400 + i`, with the slot of the memory for it.
  unfoldable pub handle_slot :
      Option Bytes → (Ctx → Ctx) → ℕ → ErrorPages Ctx → Ctx → Ctx × ErrorPages Ctx
  handle_slot (some path) fs i p ctx = send_error fs i path p ctx
  handle_slot none fs i p ctx =
      let sb = itoa (400 + i) in handle_status (suc (length sb)) fs i sb p ctx

  abbrev pub handle_fs : Option (Ctx → Ctx) → ℕ → ErrorPages Ctx → Ctx → Ctx × ErrorPages Ctx
  handle_fs none i p ctx = (send_default_error ctx, p)
  handle_fs (some fs) i p ctx = handle_slot (slot p i) fs i p ctx

  abbrev pub handle_code : ℤ → ErrorPages Ctx → Ctx → Ctx × ErrorPages Ctx
  handle_code (negsuc n) p ctx = (ctx, p)
  handle_code (pos n) p ctx =
      if ltb n 400 || leb 600 n then (ctx, p) else handle_fs p.fs (n - 400) p ctx

  unfoldable pub handle : ErrorPages Ctx → Ctx → Ctx × ErrorPages Ctx
  handle p ctx = handle_code (http.status_code ctx) p ctx
