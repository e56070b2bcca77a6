-- ===== src/Util/Http.antt =====
-- pkg/util/http.go: request URIs and redirect statuses.
pub mod Laws
use fasthttpd.Base.{
  suc, ◌+◌, ◌-◌, ◌/◌, ap, Bool, false, ◌||◌, none, some, [], ◌∷◌, ◌++◌, if◌then◌else◌, take, drop,
  Bytes, codes, has_prefix, index_byte, ℤ, pos, int_eq,
}

unfoldable pub is_http_or_https : Bytes → Bool
is_http_or_https uri = has_prefix uri (codes "http://") || has_prefix uri (codes "https://")

unfoldable pub is_http_status_redirect : ℤ → Bool
is_http_status_redirect status =
    if int_eq status (pos 0)
    then false
    else int_eq status (pos 301)
      || int_eq status (pos 302)
      || int_eq status (pos 303)
      || int_eq status (pos 307)
      || int_eq status (pos 308)

-- The second part is `nil`, which is empty, where there is no question mark.
unfoldable pub split_request_uri : Bytes → Bytes × Bytes
split_request_uri uri = elim (index_byte uri b'?') [
  | none ↦ (uri, [])
  | some q ↦ (take q uri, drop (suc q) uri)
]

unfoldable pub append_query_string : Bytes → Bytes → Bytes
append_query_string dst qstr = elim (index_byte dst b'?') [
  | none ↦ (dst ++ b'?' ∷ []) ++ qstr
  | some q ↦ (dst ++ b'&' ∷ []) ++ qstr
]
