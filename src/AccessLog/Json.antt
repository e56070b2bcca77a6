-- ===== src/AccessLog/Json.antt =====
-- pkg/logger/accesslog/json.go: a line of the access log as a JSON object.
pub mod Laws
use fasthttpd.Base.{
  ℕ, ◌+◌, ◌-◌, ◌*◌, ◌/◌, ap, Bool, ◌&&◌, ◌||◌, Option, none, some, [], ◌∷◌, ◌++◌, ltb, ◌==◌,
  if◌then◌else◌, length, take, is_nil, Bytes, codes, ℤ, pos,
}
use fasthttpd.Util.Strftime.Directives.{◌>>=◌}
use fasthttpd.AccessLog.Context.{
  Ip, ip4, ip6, Addr, tcp_addr, other_addr, Context, append_net_addr, append_iso_time,
}

-- `hexDigits[n]`
abbrev pub hex_digit : ℕ → ℕ
hex_digit n = if ltb n 10 then b'0' + n else b'a' + (n - 10)

-- What the loop appends for a byte.
unfoldable pub escape_byte : ℕ → Bytes
escape_byte c =
    if c == b'"'
    then b'\\' ∷ b'"' ∷ []
    else if c == b'\\'
    then b'\\' ∷ b'\\' ∷ []
    else if c == 8
    then b'\\' ∷ b'b' ∷ []
    else if c == 9
    then b'\\' ∷ b't' ∷ []
    else if c == 10
    then b'\\' ∷ b'n' ∷ []
    else if c == 12
    then b'\\' ∷ b'f' ∷ []
    else if c == 13
    then b'\\' ∷ b'r' ∷ []
    else if ltb c 32
    then b'\\' ∷ b'u' ∷ b'0' ∷ b'0' ∷ hex_digit (c / 16) ∷ hex_digit (c - c / 16 * 16) ∷ []
    else c ∷ []

unfoldable pub escape_loop : Bytes → Bytes → Bytes
escape_loop dst [] = dst
escape_loop dst (c ∷ s) = escape_loop (dst ++ escape_byte c) s

unfoldable pub append_json_string : Bytes → Bytes → Bytes
append_json_string dst s = escape_loop (dst ++ b'"' ∷ []) s ++ b'"' ∷ []

-- The bytes before the first comma.
unfoldable pub until_comma : Bytes → Bytes
until_comma [] = []
until_comma (c ∷ s) = if c == b',' then [] else c ∷ until_comma s

abbrev pub is_blank : ℕ → Bool
is_blank c = (c == b' ') || (c == 9)

-- The two loops that take blanks off the sides.
unfoldable pub trim_left : Bytes → Bytes
trim_left [] = []
trim_left (c ∷ s) = if is_blank c then trim_left s else c ∷ s

unfoldable pub trim_right : Bytes → Bytes
trim_right [] = []
trim_right (c ∷ s) = let rest = trim_right s in if is_nil rest && is_blank c then [] else c ∷ rest

-- The address where there is no header.
abbrev pub addr_ip : Addr → Bytes
addr_ip (tcp_addr (ip4 a) port) = a
addr_ip (tcp_addr (ip6 a) port) = a
addr_ip (other_addr a) = []

unfoldable pub client_ip : Bytes → Addr → Bytes
client_ip [] addr = addr_ip addr
client_ip (c ∷ xff) addr = trim_right (trim_left (until_comma (c ∷ xff)))

unfoldable pub append_json_client_ip : Bytes → Context → Bytes
append_json_client_ip dst ctx =
    dst ++ b'"' ∷ client_ip ctx.x_forwarded_for ctx.remote_addr ++ b'"' ∷ []

-- A field with a string for its value.
abbrev string_field : Bytes → Bytes → Bytes → Bytes
string_field dst name value = append_json_string (dst ++ name) value

-- The fields of the request, between the address and the status.
unfoldable pub append_json_request : Bytes → Context → Bytes
append_json_request addr ctx =
    let ip = append_json_client_ip (addr ++ codes ",\"client_ip\":") ctx in
    let user = string_field ip (codes ",\"remote_user\":") ctx.username in
    let method = string_field user (codes ",\"method\":") ctx.method in
    let uri = string_field method (codes ",\"uri\":") ctx.request_uri in
    let proto = string_field uri (codes ",\"proto\":") ctx.protocol in
    let scheme = string_field proto (codes ",\"scheme\":") ctx.scheme in
    string_field scheme (codes ",\"host\":") ctx.host

-- `none` is a panic of `AppendUint`.
unfoldable pub append_json_log : (Bytes → ℤ → Option Bytes) → Bytes → Context → Option Bytes
append_json_log append_uint dst ctx = do
  addr ←
      append_net_addr append_uint
        (append_iso_time (dst ++ codes "{\"time\":\"") ctx.time ++ codes "\",\"remote_addr\":\"")
        ctx.remote_addr
  status ←
      append_uint (append_json_request (addr ++ b'"' ∷ []) ctx ++ codes ",\"status\":")
        ctx.status_code
  size ← append_uint (status ++ codes ",\"size\":") ctx.content_length
  received ← append_uint (size ++ codes ",\"bytes_received\":") (pos (ctx.raw_headers + ctx.body))
  duration ← append_uint (received ++ codes ",\"duration_us\":") ctx.duration
  some (
      string_field (string_field duration (codes ",\"referer\":") ctx.referer)
        (codes ",\"user_agent\":") ctx.user_agent
      ++ b'}' ∷ [])
