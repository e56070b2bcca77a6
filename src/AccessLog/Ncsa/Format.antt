-- ===== src/AccessLog/Ncsa/Format.antt =====
-- pkg/logger/accesslog/ncsa.go: the pattern of formats, and the parser.
pub mod Kept
pub mod Parsed
use fasthttpd.Base.{
  ℕ, zero, suc, ◌+◌, ◌-◌, ◌/◌, ◌%◌, ap, Bool, false, not, ◌&&◌, ◌||◌, Option, none, some, List, [],
  ◌∷◌, ◌++◌, leb, ◌==◌, if◌then◌else◌, length, set, is_nil, All, Bytes, codes, bytes_eq, lookup, ℤ,
}
use fasthttpd.AccessLog.Ncsa.{
  NcsaFunc, new_append_bytes, append_nil, new_append_cookie, new_append_env,
  new_append_request_header, new_append_response_header, new_append_strftime, append_lp,
  append_lp_remote, append_lt, append_funcs, lookup_append,
}
use fasthttpd.AccessLog.Context.{Context}

-- A match of `formatPattern`: all of it, the name in braces and the key, which text lacks.
pub record Submatch : Type 0 where
  pub whole : Bytes
  pub name : Bytes
  pub key : Option ℕ

-- `[a-zA-Z%]`
abbrev pub is_key : ℕ → Bool
is_key c = (leb b'a' c && leb c b'z') || (leb b'A' c && leb c b'Z') || (c == b'%')

-- A key and what follows it.
unfoldable pub key_of : Bytes → Option (ℕ × Bytes)
key_of [] = none
key_of (k ∷ s) = if is_key k then some (k, s) else none

-- `}` and a key, behind a name that is not empty.
unfoldable pub ends_name : Bytes → ℕ → Bytes → Option (ℕ × Bytes)
ends_name name c s = if (c == b'}') && not (is_nil name) then key_of s else none

-- `(.+?)}` and a key, behind `{` and the start of a name: the name, the key and the rest.
unfoldable pub braced : Bytes → Bytes → Option (Bytes × ℕ × Bytes)
braced name [] = none
braced name (c ∷ s) =
    let more = if c == 10 then none else braced (name ++ c ∷ []) s in
    elim (ends_name name c s) [ none ↦ more | some (k, rest) ↦ some (name, k, rest) ]

-- What the pattern matches behind a percent sign, and the rest.
unfoldable pub match_directive : Bytes → Option (Submatch × Bytes)
match_directive [] = none
match_directive (c ∷ s) =
    if c == b'>'
    then elim (key_of s) [
      | none ↦ none
      | some (k, rest) ↦
          some (record { whole = b'%' ∷ b'>' ∷ k ∷ []; name = []; key = some k }, rest)
    ]
    else if c == b'{'
    then elim (braced [] s) [
      | none ↦ none
      | some (n, k, rest) ↦
          some (record { whole = b'%' ∷ b'{' ∷ n ++ b'}' ∷ k ∷ []; name = n; key = some k }, rest)
    ]
    else if is_key c
    then some (record { whole = b'%' ∷ c ∷ []; name = []; key = some c }, s)
    else none

-- The text before the next percent sign, and the rest.
unfoldable pub text_run : Bytes → Bytes × Bytes
text_run [] = ([], [])
text_run (c ∷ s) =
    let (run, rest) = text_run s in if c == b'%' then ([], c ∷ s) else (c ∷ run, rest)

-- `FindAllStringSubmatch`: a percent sign that starts no match is passed over.
unfoldable pub find_all : ℕ → Bytes → List Submatch
find_all zero s = []
find_all (suc fuel) [] = []
find_all (suc fuel) (c ∷ s) =
    let passed = find_all fuel s in
    let matched : List Submatch = elim (match_directive s) [
      | none ↦ passed
      | some (m, rest) ↦ m ∷ find_all fuel rest
    ] in
    let (run, rest) = text_run s in
    let text = record { whole = c ∷ run; name = []; key = none } ∷ find_all fuel rest in
    if c == b'%' then matched else text

unfoldable pub find_all_submatch : Bytes → List Submatch
find_all_submatch format = find_all (length format) format

-- `os.Hostname`: its name, or an error.
abbrev pub Hostname : Type 0
Hostname = Option Bytes

-- Does the match set `collectRequestURI`?
abbrev pub is_r : Submatch → Bool
is_r ms = elim ms.key [ none ↦ false | some k ↦ k == b'r' ]

module _ (append_uint : Bytes → ℤ → Option Bytes) (host : Bytes) (hostname : Hostname) where
  -- The `default` case, where `%r` falls through.
  unfoldable pub default_func : ℕ → NcsaFunc
  default_func k = elim (lookup_append k (append_funcs append_uint)) [
    | none ↦ new_append_bytes (b'%' ∷ k ∷ [])
    | some fn ↦ fn
  ]

  -- The `switch`; `none` is its error.
  unfoldable pub func_of : Bytes → ℕ → Option NcsaFunc
  func_of name k =
      if k == b'C'
      then some (new_append_cookie name)
      else if k == b'e'
      then some (new_append_env name)
      else if k == b'i'
      then some (new_append_request_header name)
      else if k == b'o'
      then some (new_append_response_header name)
      else if k == b'p'
      then if bytes_eq name (codes "remote")
        then some (append_lp_remote append_uint)
        else some (append_lp append_uint)
      else if k == b't'
      then if is_nil name then some append_lt else some (new_append_strftime append_uint name)
      else if k == b'v'
      then if is_nil host then some append_nil else some (new_append_bytes host)
      else if k == b'V'
      then elim hostname [ none ↦ none | some h ↦ some (new_append_bytes h) ]
      else some (default_func k)

  unfoldable pub submatch_func : Submatch → Option NcsaFunc
  submatch_func ms = elim ms.key [
    | none ↦ some (new_append_bytes ms.whole)
    | some k ↦ func_of ms.name k
  ]

  -- The loop of `parseNCSAFormat`, with `collectRequestURI`.
  unfoldable pub parse_loop : List Submatch → List NcsaFunc → Bool → Option (List NcsaFunc × Bool)
  parse_loop [] fns collects = some (fns, collects)
  parse_loop (ms ∷ rest) fns collects = elim (submatch_func ms) [
    | none ↦ none
    | some fn ↦ parse_loop rest (fns ++ fn ∷ []) (is_r ms || collects)
  ]

  unfoldable pub parse_ncsa_format : Bytes → Option (List NcsaFunc × Bool)
  parse_ncsa_format format = parse_loop (find_all_submatch format) [] false

-- `appendLine` of a parsed format.
unfoldable pub append_all : List NcsaFunc → NcsaFunc
append_all [] dst ctx = some dst
append_all (fn ∷ fns) dst ctx = elim (fn dst ctx) [
  | none ↦ none
  | some dst' ↦ append_all fns dst' ctx
]

abbrev pub format_common : Bytes
format_common = codes "%h %l %u %t " ++ b'"' ∷ codes "%r" ++ b'"' ∷ codes " %>s %b"

-- The format that `newNCSAAccessLog` uses.
unfoldable pub format_or_common : Bytes → Bytes
format_or_common format = if is_nil format then format_common else format
