-- ===== src/Handler/Samples.antt =====
-- pkg/handler: a context of plain fields, and error pages, for the examples.
use fasthttpd.Base.{refl, none, some, [], ◌∷◌, replicate, Bytes, codes, ℤ, pos}
use fasthttpd.FastHttp.{FastHttp, FastHttpLaws}
use fasthttpd.Handler.ErrorPages.{ErrorPages}

-- What the examples keep of a request and its response.
pub record Context : Type 0 where
  pub method : Bytes
  pub host : Bytes
  pub path : Bytes
  pub status : ℤ
  pub body : Bytes

-- A response has status 200 when it is reset.
abbrev pub plain_http : FastHttp Context
plain_http = record {
  method = λ c. c.method;
  path = λ c. c.path;
  host = λ c. c.host;
  request_uri = λ c. c.path;
  query_string = λ c. [];
  set_request_uri = λ u c. record c { path = u };
  status_code = λ c. c.status;
  set_status_code = λ s c. record c { status = s };
  set_status_message = λ m c. c;
  body = λ c. c.body;
  set_body = λ b c. record c { body = b };
  set_content_type = λ t c. c;
  set_header = λ k v c. c;
  add_header = λ k v c. c;
  reset_response = λ c. record c { status = pos 200; body = [] };
  redirect = λ u s c. record c { status = s };
  uint_digits = λ n. [];
}

abbrev pub plain_http-FastHttpLaws : FastHttpLaws plain_http
plain_http-FastHttpLaws = record {
  status-set_status = λ s c. refl;
  status-set_request_uri = λ u c. refl;
  status-set_body = λ b c. refl;
  status-set_content_type = λ t c. refl;
  uri-set_request_uri = λ u c. refl;
  uri-set_status = λ s c. refl;
  uri-set_body = λ b c. refl;
  uri-set_content_type = λ t c. refl;
}

abbrev pub get_page : Context
get_page = record {
  method = codes "GET";
  host = codes "a.example:80";
  path = codes "/p";
  status = pos 200;
  body = [];
}

abbrev pub not_found_page : Context
not_found_page = record get_page { status = pos 404 }

-- Serves every file with status 200.
abbrev pub serve_file : Context → Context
serve_file c = record c { status = pos 200; body = codes "page" }

abbrev pub test_pages : ErrorPages Context
test_pages = record {
  status_to_path = (codes "4xx", codes "/error.html") ∷ [];
  fs = some serve_file;
  error_paths = replicate 200 none;
}
