-- ===== src/AccessLog/Tests.antt =====
-- pkg/logger/accesslog: the theorems about lines at the sample request.
use fasthttpd.Base.{
  ◌+◌, ◌≡◌, refl, Option, none, some, [], ◌∷◌, ◌++◌, map, arith, ◌==◌, if◌then◌else◌, length,
  get_elem?, take, drop, All, Bytes, codes, ℤ, pos, negsuc,
}
use fasthttpd.Util.Padding.{copy_right_uint}
use fasthttpd.AccessLog.Ncsa.{append_ncsa_request, ncsa_date, right_int}
use fasthttpd.AccessLog.Ncsa.Request.{read_quoted, request_line, append_ncsa_request_read}
use fasthttpd.AccessLog.Ncsa.Date.{month_names, IsFourDigit, number_at, ncsa_date_read}
use fasthttpd.AccessLog.Ncsa.Format.{
  find_all_submatch, find_all, match_directive, text_run, key_of, braced, ends_name, format_common,
}
use fasthttpd.AccessLog.Samples.{sample_context}
use fasthttpd.AccessLog.Json.{append_json_string}
use fasthttpd.AccessLog.Json.Laws.{plain, read_string, IsPlain, append_json_string_read}
use fasthttpd.AccessLog.Ltsv.{append_ltsv_log}
use fasthttpd.AccessLog.Ltsv.Laws.{count_byte, IsPrintable}
use fasthttpd.AccessLog.Ltsv.Lines.{append_ltsv_log_count}

append_json_string_read_example :
    (t : Bytes) × (append_json_string (codes "{") (b'a' ∷ b'"' ∷ 7 ∷ []) ++ codes "}"
      ≡ codes "{" ++ b'"' ∷ t)
    × (read_string plain t ≡ some (b'a' ∷ b'"' ∷ 7 ∷ [], codes "}"))
append_json_string_read_example =
    append_json_string_read (codes "{") (b'a' ∷ b'"' ∷ 7 ∷ []) (codes "}")

one-IsPlain : All IsPlain (codes "1")
one-IsPlain = ((refl, refl, refl), tt)

-- Every number is written as a zero, and a negative one is a panic.
abbrev zero_digit : Bytes → ℤ → Option Bytes
zero_digit dst (pos n) = some (dst ++ b'0' ∷ [])
zero_digit dst (negsuc n) = none

sample-IsPrintable : IsPrintable sample_context.time
sample-IsPrintable = record {
  year = omega arith;
  month = omega arith;
  day = omega arith;
  hour = omega arith;
  minute = omega arith;
  second = omega arith;
  zone = omega arith;
}

append_ltsv_log_count_example :
    (line : Bytes) × (append_ltsv_log zero_digit [] sample_context ≡ some line)
    × (count_byte 9 line ≡ count_byte 9 [] + (if 9 == 9 then 12 else 0))
append_ltsv_log_count_example =
    append_ltsv_log_count zero_digit 9 (λ dst n. (b'0' ∷ [], refl, refl)) [] sample_context refl
      refl refl refl refl sample-IsPrintable

-- The length of a chunked response is -1, and writing it panics.
chunked_panics :
    append_ltsv_log zero_digit [] (record sample_context { content_length = negsuc 0 }) ≡ none
unfolding append_ltsv_log
chunked_panics = refl

append_ncsa_request_read_example :
    (t : Bytes) × (append_ncsa_request
          ([] ++ b'"' ∷ [])
          (codes "GET")
          (codes "/a" ++ b'"' ∷ b'\\' ∷ [])
          (codes "HTTP/1.1")
        ++ b'"' ∷ codes " 200"
      ≡ [] ++ b'"' ∷ t)
    × (read_quoted t
        ≡ some (
          request_line (codes "GET") (codes "/a" ++ b'"' ∷ b'\\' ∷ []) (codes "HTTP/1.1"),
          codes " 200",
        ))
append_ncsa_request_read_example =
    append_ncsa_request_read [] (codes "GET") (codes "/a" ++ b'"' ∷ b'\\' ∷ []) (codes "HTTP/1.1")
      (codes " 200") (refl, (refl, (refl, tt)))
      (refl, (refl, (refl, (refl, (refl, (refl, (refl, (refl, tt))))))))

-- The dropped percent sign of a format that ends in one.
abbrev odd_format : Bytes
odd_format = codes "%{Referer}i 5% %>s"

common_wholes :
    map (λ m. m.whole) (find_all_submatch format_common)
    ≡ codes "%h"
      ∷ codes " "
      ∷ codes "%l"
      ∷ codes " "
      ∷ codes "%u"
      ∷ codes " "
      ∷ codes "%t"
      ∷ (b' ' ∷ b'"' ∷ [])
      ∷ codes "%r"
      ∷ (b'"' ∷ b' ' ∷ [])
      ∷ codes "%>s"
      ∷ codes " "
      ∷ codes "%b"
      ∷ []
unfolding find_all_submatch find_all match_directive text_run key_of braced ends_name
common_wholes = refl

-- Every number is written as a zero.
abbrev zero_uint : Bytes → ℤ → Option Bytes
zero_uint dst z = some (dst ++ b'0' ∷ [])

abbrev sample-IsFourDigit : IsFourDigit sample_context.time
sample-IsFourDigit = record {
  years = 2026;
  year = refl;
  year_high = omega arith;
  month_low = omega arith;
  month_high = omega arith;
  day = omega arith;
  hour = omega arith;
  minute = omega arith;
  second = omega arith;
  zone = omega arith;
}

ncsa_date_read_example :
    (length (ncsa_date sample_context.time) ≡ 28)
    × (number_at 1 2 (ncsa_date sample_context.time) ≡ 11)
    × (get_elem? month_names 3 ≡ some (take 3 (drop 4 (ncsa_date sample_context.time))))
    × (number_at 8 4 (ncsa_date sample_context.time) ≡ 2026)
    × (number_at 13 2 (ncsa_date sample_context.time) ≡ 10)
    × (number_at 16 2 (ncsa_date sample_context.time) ≡ 19)
    × (number_at 19 2 (ncsa_date sample_context.time) ≡ 13)
    × (take 1 (drop 22 (ncsa_date sample_context.time)) ≡ b'+' ∷ [])
    × (number_at 23 2 (ncsa_date sample_context.time) ≡ 9)
ncsa_date_read_example = ncsa_date_read sample_context.time sample-IsFourDigit

sample_date : ncsa_date sample_context.time ≡ codes "[11/Apr/2026:10:19:13 +0900]"
unfolding ncsa_date copy_right_uint right_int
sample_date = refl

-- The year -5.
negative_year :
    ncsa_date (record sample_context.time { year = negsuc 4 })
    ≡ codes "[11/Apr/000+:10:19:13 +0900]"
unfolding ncsa_date copy_right_uint right_int
negative_year = refl
