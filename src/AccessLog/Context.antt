-- ===== src/AccessLog/Context.antt =====
-- pkg/logger/accesslog: what the lines read of a request and its response, and the parts that the
-- formats share: addresses (ncsa.go, ltsv.go) and times (json.go).
use fasthttpd.Base.{
  ℕ, zero, suc, ◌+◌, ◌-◌, ◌*◌, ◌/◌, ◌%◌, Bool, Option, some, [], ◌∷◌, ◌++◌, Bytes, ℤ, pos, negsuc,
  abs,
}
use fasthttpd.Util.Strftime.Directives.{Time}

-- An IP by the text that `AppendIPv4` or `String` gives.
pub data Ip : Type 0 where
  ip4 : Bytes → Ip
  ip6 : Bytes → Ip

-- A `net.Addr`; the other ones by their text.
pub data Addr : Type 0 where
  tcp_addr : Ip → ℤ → Addr
  other_addr : Bytes → Addr

pub record Context : Type 0 where
  pub time : Time
  pub remote_addr : Addr
  pub x_forwarded_for : Bytes
  pub username : Bytes
  pub method : Bytes
  pub request_uri : Bytes
  pub protocol : Bytes
  pub scheme : Bytes
  pub host : Bytes
  pub status_code : ℤ
  pub content_length : ℤ
  -- the lengths of the raw headers and of the body
  pub raw_headers : ℕ
  pub body : ℕ
  -- the microseconds since `time`
  pub duration : ℤ
  pub referer : Bytes
  pub user_agent : Bytes
  pub local_addr : Addr
  -- `AppendIPv4` of the remote IP
  pub remote_ip : Bytes
  pub path : Bytes
  pub query_string : Bytes
  -- the header Original-Request-URI
  pub original_uri : Bytes
  pub conn_request_num : ℕ
  pub id : ℕ
  pub connection_close : Bool
  -- cookies and headers by name, empty where they are missing
  pub cookie : Bytes → Bytes
  pub request_header : Bytes → Bytes
  pub response_header : Bytes → Bytes
  -- the lengths of the headers and of the body of the response
  pub response_headers : ℕ
  pub response_body : ℕ
  -- `os.LookupEnv` and `os.Getegid`
  pub lookup_env : Bytes → Option Bytes
  pub egid : ℤ

-- `append_uint` is fasthttp's `AppendUint`, which panics on a negative number: `none`.
unfoldable pub append_net_addr : (Bytes → ℤ → Option Bytes) → Bytes → Addr → Option Bytes
append_net_addr append_uint dst (tcp_addr (ip4 a) port) = append_uint (dst ++ a ++ b':' ∷ []) port
append_net_addr append_uint dst (tcp_addr (ip6 a) port) =
    append_uint (dst ++ b'[' ∷ a ++ b']' ∷ b':' ∷ []) port
append_net_addr append_uint dst (other_addr a) = some (dst ++ a)

unfoldable pub append_host_ip : Bytes → Addr → Bytes
append_host_ip dst (tcp_addr (ip4 a) port) = dst ++ a
append_host_ip dst (tcp_addr (ip6 a) port) = dst ++ a
append_host_ip dst (other_addr a) = dst

-- `byte('0' + n)`
abbrev pub byte_digit : ℕ → ℕ
byte_digit n = (b'0' + n) % 256

unfoldable pub append_uint2 : Bytes → ℕ → Bytes
append_uint2 dst n = dst ++ byte_digit (n / 10) ∷ byte_digit (n - n / 10 * 10) ∷ []

-- `byte('0' + n)` of a number that may be negative, with `/` and `%` that round towards zero.
abbrev pub int_digit : ℤ → ℕ
int_digit (pos n) = byte_digit n
int_digit (negsuc n) = (b'0' + (256 - suc n % 256)) % 256

-- The number with the sign of the other.
abbrev pub with_sign : ℤ → ℕ → ℤ
with_sign (pos n) m = pos m
with_sign (negsuc n) zero = pos zero
with_sign (negsuc n) (suc m) = negsuc m

unfoldable pub append_uint4 : Bytes → ℤ → Bytes
append_uint4 dst z =
    let n = abs z in
    dst
    ++ int_digit (with_sign z (n / 1000))
      ∷ int_digit (with_sign z (n / 100 - n / 100 / 10 * 10))
      ∷ int_digit (with_sign z (n / 10 - n / 10 / 10 * 10))
      ∷ int_digit (with_sign z (n - n / 10 * 10))
      ∷ []

-- The offset of the zone.
unfoldable pub append_zone : Bytes → ℤ → Bytes
append_zone dst (pos zero) = dst ++ b'Z' ∷ []
append_zone dst (pos (suc z)) =
    append_uint2 (append_uint2 (dst ++ b'+' ∷ []) (suc z / 3600) ++ b':' ∷ [])
      ((suc z - suc z / 3600 * 3600) / 60)
append_zone dst (negsuc z) =
    append_uint2 (append_uint2 (dst ++ b'-' ∷ []) (suc z / 3600) ++ b':' ∷ [])
      ((suc z - suc z / 3600 * 3600) / 60)

unfoldable pub append_iso_time : Bytes → Time → Bytes
append_iso_time dst t =
    let day =
      append_uint2 (append_uint2 (append_uint4 dst t.year ++ b'-' ∷ []) t.month ++ b'-' ∷ [])
        t.day in
    let clock =
      append_uint2
        (append_uint2 (append_uint2 (day ++ b'T' ∷ []) t.hour ++ b':' ∷ []) t.minute ++ b':' ∷ [])
        t.second in
    append_zone clock t.zone
