-- ===== src/AccessLog/Ltsv.antt =====
-- pkg/logger/accesslog/ltsv.go: a line of the access log with labels and tabs.
pub mod Laws
pub mod Lines
use fasthttpd.Base.{
  ℕ, ◌+◌, ◌-◌, ◌/◌, ap, Bool, ◌||◌, Option, none, some, [], ◌∷◌, ◌++◌, ◌==◌, if◌then◌else◌, length,
  Bytes, codes, ℤ, pos, neg, abs,
}
use fasthttpd.Util.Strftime.Directives.{◌>>=◌}
use fasthttpd.AccessLog.Context.{Context, append_host_ip, append_iso_time}

-- `case '\t', '\n', '\r'`
abbrev pub is_separator : ℕ → Bool
is_separator c = (c == 9) || (c == 10) || (c == 13)

unfoldable pub append_ltsv_value : Bytes → Bytes → Bytes
append_ltsv_value dst [] = dst
append_ltsv_value dst (c ∷ s) =
    append_ltsv_value (dst ++ (if is_separator c then b' ' else c) ∷ []) s

-- The fields before the numbers.
unfoldable pub append_ltsv_head : Bytes → Context → Bytes
append_ltsv_head dst ctx =
    let time = append_iso_time (dst ++ codes "time:") ctx.time in
    let host = append_host_ip (time ++ 9 ∷ codes "host:") ctx.remote_addr in
    let forwarded = append_ltsv_value (host ++ 9 ∷ codes "forwardedfor:") ctx.x_forwarded_for in
    let user = append_ltsv_value (forwarded ++ 9 ∷ codes "user:") ctx.username in
    let method = append_ltsv_value (user ++ 9 ∷ codes "req:") ctx.method in
    let uri = append_ltsv_value (method ++ b' ' ∷ []) ctx.request_uri in
    let proto = append_ltsv_value (uri ++ b' ' ∷ []) ctx.protocol in
    let scheme = append_ltsv_value (proto ++ 9 ∷ codes "scheme:") ctx.scheme in
    append_ltsv_value (scheme ++ 9 ∷ codes "vhost:") ctx.host

-- The fields behind them.
unfoldable pub append_ltsv_tail : Bytes → Context → Bytes
append_ltsv_tail dst ctx =
    let referer = append_ltsv_value (dst ++ 9 ∷ codes "referer:") ctx.referer in
    append_ltsv_value (referer ++ 9 ∷ codes "ua:") ctx.user_agent

-- `append_uint` is fasthttp's `AppendUint`, which panics on a negative number: `none`.
unfoldable pub append_ltsv_log : (Bytes → ℤ → Option Bytes) → Bytes → Context → Option Bytes
append_ltsv_log append_uint dst ctx = do
  status ← append_uint (append_ltsv_head dst ctx ++ 9 ∷ codes "status:") ctx.status_code
  size ← append_uint (status ++ 9 ∷ codes "size:") ctx.content_length
  reqsize ← append_uint (size ++ 9 ∷ codes "reqsize:") (pos (ctx.raw_headers + ctx.body))
  reqtime ← append_uint (reqsize ++ 9 ∷ codes "reqtime_microsec:") ctx.duration
  some (append_ltsv_tail reqtime ctx)
