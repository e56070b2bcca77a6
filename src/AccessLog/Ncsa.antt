-- ===== src/AccessLog/Ncsa.antt =====
-- pkg/logger/accesslog/ncsa.go: the functions that the tokens of a format stand for. A panic, of
-- `AppendUint` on a negative number or in strftime, is `none`.
pub mod Format
pub mod Request
pub mod Date
pub mod Laws
use fasthttpd.Base.{
  ℕ, suc, ◌+◌, ◌-◌, ◌*◌, ◌/◌, ◌%◌, ap, ◌||◌, Option, none, some, List, [], ◌∷◌, ◌++◌, map, ◌==◌,
  if◌then◌else◌, length, take, drop, is_nil, Bytes, codes, lookup, ℤ, pos, negsuc, is_positive,
  positive_or, neg,
}
use fasthttpd.Util.Padding.{copy_right_uint}
use fasthttpd.Util.Strftime.Directives.{Time, quot}
use fasthttpd.Util.Strftime.{new_strftime_bytes, append_bytes}
use fasthttpd.AccessLog.Context.{Ip, ip4, ip6, Addr, tcp_addr, other_addr, Context}

-- `appendFunc`
abbrev pub NcsaFunc : Type 0
NcsaFunc = Bytes → Context → Option Bytes

unfoldable pub port_from_addr : Addr → ℤ
port_from_addr (tcp_addr ip port) = port
port_from_addr (other_addr a) = pos 0

abbrev pub ncsa_months : Bytes
ncsa_months = codes "JanFebMarAprMayJunJulAugSepOctNovDec"

-- `CopyRightUint` into a slice of the buffer.
abbrev pub right_uint : Bytes → ℕ → Bytes
right_uint b n = (copy_right_uint b n).1

-- `CopyRightUint` of a number that may be negative: the last byte is then `'0' + byte(n)`.
unfoldable pub right_int : Bytes → ℤ → Bytes
right_int b (pos n) = right_uint b n
right_int b (negsuc n) =
    take (length b - 1) b ++ (if is_nil b then [] else (b'0' + (256 - suc n % 256)) % 256 ∷ [])

-- The sign and the hours of the zone.
abbrev pub zone_hours : ℤ → ℕ × ℕ
zone_hours (pos z) = (b'+', z / 3600)
zone_hours (negsuc z) = (b'-', suc z / 3600)

-- The buffer `b`.
unfoldable pub ncsa_date : Time → Bytes
ncsa_date date =
    let (sign, hours) = zone_hours date.zone in
    let day =
      b'[' ∷ right_uint (b'0' ∷ 0 ∷ []) date.day
      ++ b'/' ∷ take 3 (drop ((date.month - 1) * 3) ncsa_months)
      ++ b'/' ∷ right_int (b'0' ∷ b'0' ∷ b'0' ∷ 0 ∷ []) date.year in
    let clock =
      b':' ∷ right_uint (b'0' ∷ 0 ∷ []) date.hour
      ++ b':' ∷ right_uint (b'0' ∷ 0 ∷ []) date.minute
      ++ b':' ∷ right_uint (b'0' ∷ 0 ∷ []) date.second in
    day ++ clock ++ b' ' ∷ sign ∷ right_uint (b'0' ∷ 0 ∷ []) hours ++ b'0' ∷ b'0' ∷ b']' ∷ []

unfoldable pub append_ncsa_date : Bytes → Time → Bytes
append_ncsa_date dst date = dst ++ ncsa_date date

-- The loop over the bytes of the URI.
unfoldable pub escape_uri : Bytes → Bytes → Bytes
escape_uri dst [] = dst
escape_uri dst (s ∷ uri) =
    escape_uri (if (s == b'"') || (s == b'\\') then dst ++ b'\\' ∷ s ∷ [] else dst ++ s ∷ []) uri

unfoldable pub append_ncsa_request : Bytes → Bytes → Bytes → Bytes → Bytes
append_ncsa_request dst method uri protocol =
    (escape_uri ((dst ++ method) ++ b' ' ∷ []) uri ++ b' ' ∷ []) ++ protocol

unfoldable pub new_append_bytes : Bytes → NcsaFunc
new_append_bytes b dst ctx = some (dst ++ b)

unfoldable pub append_nil : NcsaFunc
unfolding new_append_bytes
append_nil = new_append_bytes (b'-' ∷ [])

unfoldable pub append_plus : NcsaFunc
unfolding new_append_bytes
append_plus = new_append_bytes (b'+' ∷ [])

-- The value, or a dash where it is empty.
abbrev pub or_nil : (Context → Bytes) → NcsaFunc
or_nil value dst ctx =
    if is_nil (value ctx) then some (dst ++ b'-' ∷ []) else some (dst ++ value ctx)

unfoldable pub new_append_cookie : Bytes → NcsaFunc
new_append_cookie key = or_nil (λ ctx. ctx.cookie key)

unfoldable pub new_append_request_header : Bytes → NcsaFunc
new_append_request_header key = or_nil (λ ctx. ctx.request_header key)

unfoldable pub new_append_response_header : Bytes → NcsaFunc
new_append_response_header key = or_nil (λ ctx. ctx.response_header key)

unfoldable pub new_append_env : Bytes → NcsaFunc
new_append_env key dst ctx = elim (ctx.lookup_env key) [
  | none ↦ some (dst ++ b'-' ∷ [])
  | some v ↦ some (dst ++ v)
]

unfoldable pub append_lf : NcsaFunc
append_lf dst ctx = some (dst ++ ctx.path)

unfoldable pub append_lh : NcsaFunc
append_lh dst ctx = some (dst ++ ctx.remote_ip)

unfoldable pub append_h : NcsaFunc
append_h dst ctx = some (dst ++ ctx.protocol)

unfoldable pub append_lm : NcsaFunc
append_lm dst ctx = some (dst ++ ctx.method)

unfoldable pub append_lq : NcsaFunc
append_lq dst ctx =
    if is_nil ctx.query_string
    then some (dst ++ b'-' ∷ [])
    else some ((dst ++ b'?' ∷ []) ++ ctx.query_string)

unfoldable pub append_lr : NcsaFunc
append_lr dst ctx =
    if is_nil ctx.original_uri
    then some (dst ++ b'-' ∷ [])
    else some (append_ncsa_request dst ctx.method ctx.original_uri ctx.protocol)

unfoldable pub append_lt : NcsaFunc
append_lt dst ctx = some (append_ncsa_date dst ctx.time)

unfoldable pub append_lu : NcsaFunc
append_lu = or_nil (λ ctx. ctx.username)

unfoldable pub append_u : NcsaFunc
append_u dst ctx = some (dst ++ ctx.path)

unfoldable pub append_x : NcsaFunc
append_x dst ctx = if ctx.connection_close then some (dst ++ b'-' ∷ []) else some (dst ++ b'+' ∷ [])

-- A map read at a key.
unfoldable pub lookup_append : ℕ → List (ℕ × NcsaFunc) → Option NcsaFunc
lookup_append k [] = none
lookup_append k ((j, fn) ∷ m) = if j == k then some fn else lookup_append k m

-- `append_uint` is fasthttp's `AppendUint`.
module _ (append_uint : Bytes → ℤ → Option Bytes) where
  -- A number where it is positive.
  abbrev pub positive_or_nil : (Context → ℤ) → NcsaFunc
  positive_or_nil value dst ctx =
      if is_positive (value ctx) then append_uint dst (value ctx) else some (dst ++ b'-' ∷ [])

  -- `appendNetAddr`, where the port may be negative.
  unfoldable pub append_addr : (Context → Addr) → NcsaFunc
  append_addr addr dst ctx = elim (addr ctx) [
    | tcp_addr (ip4 a) port ↦ append_uint ((dst ++ a) ++ b':' ∷ []) port
    | tcp_addr (ip6 a) port ↦ append_uint ((dst ++ b'[' ∷ a ++ b']' ∷ []) ++ b':' ∷ []) port
    | other_addr a ↦ some (dst ++ a)
  ]

  unfoldable pub append_lp : NcsaFunc
  append_lp = positive_or_nil (λ ctx. port_from_addr ctx.local_addr)

  unfoldable pub append_lp_remote : NcsaFunc
  append_lp_remote = positive_or_nil (λ ctx. port_from_addr ctx.remote_addr)

  unfoldable pub append_la : NcsaFunc
  append_la = append_addr (λ ctx. ctx.remote_addr)

  unfoldable pub append_a : NcsaFunc
  append_a = append_addr (λ ctx. ctx.local_addr)

  unfoldable pub append_b : NcsaFunc
  append_b dst ctx = append_uint dst ctx.content_length

  unfoldable pub append_lb : NcsaFunc
  append_lb = positive_or_nil (λ ctx. ctx.content_length)

  unfoldable pub append_d : NcsaFunc
  append_d dst ctx = append_uint dst ctx.duration

  unfoldable pub append_lk : NcsaFunc
  append_lk dst ctx = append_uint dst (pos ctx.conn_request_num)

  unfoldable pub append_p : NcsaFunc
  append_p dst ctx = append_uint dst ctx.egid

  unfoldable pub append_l : NcsaFunc
  append_l dst ctx = append_uint dst (pos ctx.id)

  unfoldable pub append_ls : NcsaFunc
  append_ls dst ctx = append_uint dst ctx.status_code

  -- The seconds, from the microseconds.
  unfoldable pub append_t : NcsaFunc
  append_t dst ctx = append_uint dst (quot ctx.duration 1000000)

  unfoldable pub append_i : NcsaFunc
  append_i dst ctx = append_uint dst (pos (ctx.raw_headers + ctx.body))

  unfoldable pub append_o : NcsaFunc
  append_o dst ctx = append_uint dst (pos (ctx.response_headers + ctx.response_body))

  unfoldable pub append_s : NcsaFunc
  append_s dst ctx =
      append_uint dst
        (pos ((ctx.raw_headers + ctx.response_headers) + (ctx.body + ctx.response_body)))

  unfoldable pub new_append_strftime : Bytes → NcsaFunc
  new_append_strftime format dst ctx =
      append_bytes (new_strftime_bytes append_uint format) dst ctx.time

  -- `appendFuncs`
  unfoldable pub append_funcs : List (ℕ × NcsaFunc)
  append_funcs =
      (b'%', new_append_bytes (b'%' ∷ []))
      ∷ (b'a', append_la)
      ∷ (b'A', append_a)
      ∷ (b'B', append_b)
      ∷ (b'b', append_lb)
      ∷ (b'D', append_d)
      ∷ (b'f', append_lf)
      ∷ (b'h', append_lh)
      ∷ (b'H', append_h)
      ∷ (b'k', append_lk)
      ∷ (b'l', append_nil)
      ∷ (b'L', append_l)
      ∷ (b'm', append_lm)
      ∷ (b'P', append_p)
      ∷ (b'q', append_lq)
      ∷ (b'r', append_lr)
      ∷ (b'R', append_nil)
      ∷ (b's', append_ls)
      ∷ (b't', append_lt)
      ∷ (b'T', append_t)
      ∷ (b'u', append_lu)
      ∷ (b'U', append_u)
      ∷ (b'X', append_x)
      ∷ (b'I', append_i)
      ∷ (b'O', append_o)
      ∷ (b'S', append_s)
      ∷ []
