-- ===== src/FastHttp.antt =====
-- The request context of package `fasthttp`, which is not part of the repository: the operations
-- that the handlers use, and the documented laws that they rely on. `Ctx` also carries the world
-- that handlers and filters may change.
use fasthttpd.Base.{◌≡◌, Bytes, ℤ}

pub record FastHttp (Ctx : Type 0) : Type 0 where
  -- the request
  pub method : Ctx → Bytes
  pub path : Ctx → Bytes
  pub host : Ctx → Bytes
  pub request_uri : Ctx → Bytes
  pub query_string : Ctx → Bytes
  pub set_request_uri : Bytes → Ctx → Ctx
  -- the response
  pub status_code : Ctx → ℤ
  pub set_status_code : ℤ → Ctx → Ctx
  pub set_status_message : Bytes → Ctx → Ctx
  pub body : Ctx → Bytes
  pub set_body : Bytes → Ctx → Ctx
  pub set_content_type : Bytes → Ctx → Ctx
  pub set_header : Bytes → Bytes → Ctx → Ctx
  pub add_header : Bytes → Bytes → Ctx → Ctx
  pub reset_response : Ctx → Ctx
  pub redirect : Bytes → ℤ → Ctx → Ctx
  -- the decimal digits that `AppendUint` appends
  pub uint_digits : ℤ → Bytes

-- Setting one part leaves the others, and a part reads as it was set.
pub record FastHttpLaws {Ctx : Type 0} (h : FastHttp Ctx) : Type 0 where
  pub status-set_status : (s : ℤ) (c : Ctx) → h.status_code (h.set_status_code s c) ≡ s
  pub status-set_request_uri :
      (u : Bytes) (c : Ctx) → h.status_code (h.set_request_uri u c) ≡ h.status_code c
  pub status-set_body : (b : Bytes) (c : Ctx) → h.status_code (h.set_body b c) ≡ h.status_code c
  pub status-set_content_type :
      (t : Bytes) (c : Ctx) → h.status_code (h.set_content_type t c) ≡ h.status_code c
  pub uri-set_request_uri : (u : Bytes) (c : Ctx) → h.request_uri (h.set_request_uri u c) ≡ u
  pub uri-set_status : (s : ℤ) (c : Ctx) → h.request_uri (h.set_status_code s c) ≡ h.request_uri c
  pub uri-set_body : (b : Bytes) (c : Ctx) → h.request_uri (h.set_body b c) ≡ h.request_uri c
  pub uri-set_content_type :
      (t : Bytes) (c : Ctx) → h.request_uri (h.set_content_type t c) ≡ h.request_uri c
