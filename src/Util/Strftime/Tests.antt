-- ===== src/Util/Strftime/Tests.antt =====
-- pkg/util/strftime.go: a concrete time for the theorems about formats.
use fasthttpd.Base.{ℕ, ◌≡◌, refl, Option, none, some, [], ◌++◌, arith, Bytes, codes, ℤ, pos, negsuc}
use fasthttpd.Std.{itoa}
use fasthttpd.Util.Strftime.{new_strftime_bytes, append_bytes}
use fasthttpd.Util.Strftime.Directives.{Time}
use fasthttpd.Util.Strftime.Laws.{format_spec, new_strftime_bytes_lem}
use fasthttpd.Util.Strftime.Total.{Extends, IsValid}

abbrev sample_time : Time
sample_time = record {
  year = pos 2026;
  month = 4;
  day = 11;
  hour = 10;
  minute = 19;
  second = 13;
  year_day = 101;
  weekday = 6;
  iso_week = 15;
  unix = pos 1775870353;
  zone = pos 32400;
  format = λ layout. layout;
  year_day_after = λ d. 364;
}

sample_time-IsValid : IsValid sample_time
sample_time-IsValid = record {
  year = omega arith;
  month = omega arith;
  day = omega arith;
  hour = omega arith;
  minute = omega arith;
  second = omega arith;
  year_day = omega arith;
  weekday = omega arith;
  iso_week = omega arith;
  unix = omega arith;
  zone = omega arith;
  before = λ d. omega arith;
}

-- Appends the digits of a number that is not negative.
abbrev test_append_uint : Bytes → ℤ → Option Bytes
test_append_uint dst (pos n) = some (dst ++ itoa n)
test_append_uint dst (negsuc n) = none

test_append_uint-Extends : (dst : Bytes) (n : ℕ) → Extends dst (test_append_uint dst (pos n))
test_append_uint-Extends dst n = (itoa n, refl)

new_strftime_bytes_lem_example :
    append_bytes (new_strftime_bytes test_append_uint (codes "%Y-%m%%x")) [] sample_time
    ≡ format_spec test_append_uint (codes "%Y-%m%%x") [] sample_time
new_strftime_bytes_lem_example =
    new_strftime_bytes_lem test_append_uint (codes "%Y-%m%%x") [] sample_time
