-- ===== src/Filter/BasicAuth.antt =====
-- pkg/filter/basicauth.go: basic authentication against configured users.
pub mod Laws
use fasthttpd.Base.{
  ℕ, ◌+◌, ◌-◌, ◌*◌, ◌/◌, Bool, true, false, not, Option, none, some, List, [], ◌∷◌, ◌++◌, ltb, ◌==◌,
  if◌then◌else◌, set, drop, is_nil, Bytes, codes, bytes_eq, has_prefix, ℤ, pos,
}
use fasthttpd.FastHttp.{FastHttp}

pub record BasicAuthUser : Type 0 where
  pub name : Bytes
  pub secret : Bytes
  pub auth : Bytes

pub record BasicAuthFilter : Type 0 where
  pub realm : Bytes
  -- pointers; a null of the YAML is `none`
  pub users : List (Option BasicAuthUser)
  pub users_file : Bytes

-- The alphabet of `base64.StdEncoding`.
abbrev pub base64_char : ℕ → ℕ
base64_char n =
    if ltb n 26
    then b'A' + n
    else if ltb n 52
    then b'a' + (n - 26)
    else if ltb n 62
    then b'0' + (n - 52)
    else if n == 62
    then b'+'
    else b'/'

-- `base64.StdEncoding.Encode`
unfoldable pub base64_encode : Bytes → Bytes
base64_encode [] = []
base64_encode (a ∷ []) = base64_char (a / 4) ∷ base64_char ((a - a / 4 * 4) * 16) ∷ b'=' ∷ b'=' ∷ []
base64_encode (a ∷ b ∷ []) =
    base64_char (a / 4)
    ∷ base64_char ((a - a / 4 * 4) * 16 + b / 16)
    ∷ base64_char ((b - b / 16 * 16) * 4)
    ∷ b'='
    ∷ []
base64_encode (a ∷ b ∷ c ∷ s) =
    base64_char (a / 4)
    ∷ base64_char ((a - a / 4 * 4) * 16 + b / 16)
    ∷ base64_char ((b - b / 16 * 16) * 4 + c / 64)
    ∷ base64_char (c - c / 64 * 64)
    ∷ base64_encode s

-- What `init` does with a user.
unfoldable pub init_user : BasicAuthUser → BasicAuthUser
init_user u = record u { auth = base64_encode ((u.name ++ b':' ∷ []) ++ u.secret); secret = [] }

abbrev add_users : BasicAuthFilter → Option (List (Option BasicAuthUser)) → Option BasicAuthFilter
add_users f none = none
add_users f (some users) = some (record f { users = f.users ++ users })

-- The users of the file, which `read_users` reads and parses; `none` is an error.
unfoldable pub load_users :
    (Bytes → Option (List (Option BasicAuthUser))) → BasicAuthFilter → Option BasicAuthFilter
load_users read_users f =
    if not (is_nil f.users_file) then add_users f (read_users f.users_file) else some f

-- The loop of `init`; `none` is the panic of a nil user.
unfoldable pub init_users : List (Option BasicAuthUser) → Option (List (Option BasicAuthUser))
init_users [] = some []
init_users (none ∷ us) = none
init_users (some u ∷ us) = elim (init_users us) [
  | none ↦ none
  | some us' ↦ some (some (init_user u) ∷ us')
]

pub data Init : Type 0 where
  initialized : BasicAuthFilter → Init
  load_error : Init
  panic : Init

unfoldable pub init : (Bytes → Option (List (Option BasicAuthUser))) → BasicAuthFilter → Init
init read_users f = elim (load_users read_users f) [
  | none ↦ load_error
  | some g ↦ elim (init_users g.users) [
    | none ↦ panic
    | some us ↦ initialized (record g { users = us })
  ]
]

module _ {Ctx : Type 0} (http : FastHttp Ctx) (authorization : Ctx → Bytes)
    (set_username : Bytes → Ctx → Ctx) (error : Bytes → ℤ → Ctx → Ctx) where
  unfoldable pub unauthorized : BasicAuthFilter → Ctx → Ctx
  unauthorized f ctx =
      http.set_header (codes "WWW-Authenticate") (codes "Basic realm=" ++ f.realm)
        (http.set_status_code (pos 401) ctx)

  -- The loop over the users; `none` is the panic of a nil user.
  unfoldable pub check_users :
      BasicAuthFilter → List (Option BasicAuthUser) → Bytes → Ctx → Option (Bool × Ctx)
  check_users f [] auth ctx = some (false, unauthorized f ctx)
  check_users f (none ∷ us) auth ctx = none
  check_users f (some u ∷ us) auth ctx =
      let rest = check_users f us auth ctx in
      if bytes_eq auth u.auth then some (true, set_username u.name ctx) else rest

  unfoldable pub request : BasicAuthFilter → Ctx → Option (Bool × Ctx)
  request f ctx =
      if is_nil (authorization ctx)
      then some (false, unauthorized f ctx)
      else if not (has_prefix (authorization ctx) (codes "Basic "))
      then some (false, error (codes "Unknown authorization") (pos 400) ctx)
      else check_users f f.users (drop 6 (authorization ctx)) ctx

  abbrev pub response : BasicAuthFilter → Ctx → Bool × Ctx
  response f ctx = (true, ctx)
