-- ===== src/AccessLog/Open.antt =====
-- pkg/logger/accesslog/accesslog.go: the access log of a configuration, and the rotator that it shares.
use fasthttpd.Base.{
  ℕ, Bool, Option, none, some, List, if◌then◌else◌, is_nil, Bytes, codes, bytes_eq, ℤ,
}
use fasthttpd.Rotator.{Shared, shared_rotator, close}
use fasthttpd.AccessLog.Ncsa.{NcsaFunc}
use fasthttpd.AccessLog.Ncsa.Format.{Hostname, parse_ncsa_format, format_or_common}

-- How an access log writes its lines.
pub data LineFormat : Type 0 where
  json_lines : LineFormat
  ltsv_lines : LineFormat
  ncsa_lines : List NcsaFunc → Bool → LineFormat

-- `NilAccessLog`, or an access log with its rotator.
pub data Opened : Type 0 where
  nil_access_log : Opened
  access_log : ℕ → LineFormat → Opened

module _ (append_uint : Bytes → ℤ → Option Bytes) (host : Bytes) (hostname : Hostname) where
  -- `newAccessLog`; `none` is its error.
  unfoldable pub new_line_format : Bytes → Option LineFormat
  new_line_format format =
      if bytes_eq format (codes "json")
      then some json_lines
      else if bytes_eq format (codes "ltsv")
      then some ltsv_lines
      else elim (parse_ncsa_format append_uint host hostname (format_or_common format)) [
        | none ↦ none
        | some (fns, collects) ↦ some (ncsa_lines fns collects)
      ]

  unfoldable pub new_access_log : Bytes → Bytes → Shared → Option Opened × Shared
  new_access_log output format s =
      let (r, s') = shared_rotator output s in
      if is_nil output then (some nil_access_log, s) else elim (new_line_format format) [
        | none ↦ (none, close r s')
        | some lines ↦ (some (access_log r lines), s')
      ]
