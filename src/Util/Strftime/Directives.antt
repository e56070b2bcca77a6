-- ===== src/Util/Strftime/Directives.antt =====
-- pkg/util/strftime.go: the functions that directives stand for. What the code uses of a `time.Time`
-- is the record `Time`. A panic of an append is `none`.
use fasthttpd.Base.{
  ℕ, zero, suc, ◌+◌, ◌-◌, ◌*◌, ◌/◌, Option, none, some, [], ◌∷◌, ◌++◌, ltb, ◌==◌, if◌then◌else◌,
  Bytes, codes, ℤ, pos, negsuc, is_negative, neg, abs,
}
use fasthttpd.Util.Padding.{append_zero_padding_uint, append_space_padding_uint}

pub record Time : Type 0 where
  pub year : ℤ
  pub month : ℕ
  pub day : ℕ
  pub hour : ℕ
  pub minute : ℕ
  pub second : ℕ
  pub year_day : ℕ
  -- Sunday is 0
  pub weekday : ℕ
  pub iso_week : ℕ
  pub unix : ℤ
  -- the offset of the zone, in seconds
  pub zone : ℤ
  -- `Format`, by the layout
  pub format : Bytes → Bytes
  -- `AddDate(0, 0, d).YearDay()`
  pub year_day_after : ℤ → ℕ

-- Division that rounds to zero, and its remainder.
abbrev pub quot : ℤ → ℕ → ℤ
quot (pos n) d = pos (n / d)
quot (negsuc n) d = neg (pos (suc n / d))

abbrev pub rem : ℤ → ℕ → ℤ
rem (pos n) d = pos (n - n / d * d)
rem (negsuc n) d = neg (pos (suc n - suc n / d * d))

-- `a - b` on numbers that are not negative
abbrev pub minus : ℕ → ℕ → ℤ
minus a zero = pos a
minus zero (suc b) = negsuc b
minus (suc a) (suc b) = minus a b

infixl 5 ◌>>=◌
abbrev pub ◌>>=◌ : {A B : Type 0} → Option A → (A → Option B) → Option B
none >>= f = none
some a >>= f = f a

abbrev pub StrftimeFunc : Type 0
StrftimeFunc = Bytes → Time → Option Bytes

unfoldable pub strftime_bytes : Bytes → StrftimeFunc
strftime_bytes b dst t = some (dst ++ b)

unfoldable pub strftime_go : Bytes → StrftimeFunc
strftime_go layout dst t = some (dst ++ t.format layout)

-- `dst = append(dst, c)` behind a step that appends.
abbrev pub append_byte : ℕ → Bytes → Option Bytes
append_byte c dst = some (dst ++ c ∷ [])

-- The functions of the table that need no `AppendUint`.
unfoldable pub strftime_c : StrftimeFunc
strftime_c dst t = append_zero_padding_uint dst (quot t.year 100) 2

unfoldable pub strftime_ld : StrftimeFunc
strftime_ld dst t = append_zero_padding_uint dst (pos t.day) 2

unfoldable pub strftime_lm : StrftimeFunc
strftime_lm dst t = append_zero_padding_uint dst (pos t.month) 2

unfoldable pub strftime_ly : StrftimeFunc
strftime_ly dst t = append_zero_padding_uint dst (rem t.year 100) 2

unfoldable pub strftime_y : StrftimeFunc
strftime_y dst t = append_zero_padding_uint dst t.year 4

unfoldable pub strftime_h : StrftimeFunc
strftime_h dst t = append_zero_padding_uint dst (pos t.hour) 2

unfoldable pub strftime_lj : StrftimeFunc
strftime_lj dst t = append_zero_padding_uint dst (pos t.year_day) 3

unfoldable pub strftime_m : StrftimeFunc
strftime_m dst t = append_zero_padding_uint dst (pos t.minute) 2

unfoldable pub strftime_s : StrftimeFunc
strftime_s dst t = append_zero_padding_uint dst (pos t.second) 2

unfoldable pub strftime_v : StrftimeFunc
strftime_v dst t = append_zero_padding_uint dst (pos t.iso_week) 2

unfoldable pub strftime_le : StrftimeFunc
strftime_le dst t = append_space_padding_uint dst (pos t.day) 2

unfoldable pub strftime_lk : StrftimeFunc
strftime_lk dst t = append_space_padding_uint dst (pos t.hour) 2

-- `if h > 12 { h -= 12 }`
abbrev pub hour_12 : ℕ → ℕ
hour_12 h = if ltb 12 h then h - 12 else h

unfoldable pub strftime_i : StrftimeFunc
strftime_i dst t = append_zero_padding_uint dst (pos (hour_12 t.hour)) 2

unfoldable pub strftime_ll : StrftimeFunc
strftime_ll dst t = append_space_padding_uint dst (pos (hour_12 t.hour)) 2

unfoldable pub strftime_d : StrftimeFunc
strftime_d dst t = do
  dst1 ← strftime_lm dst t
  dst2 ← append_byte b'/' dst1
  dst3 ← strftime_ld dst2 t
  dst4 ← append_byte b'/' dst3
  strftime_ly dst4 t

unfoldable pub strftime_f : StrftimeFunc
strftime_f dst t = do
  dst1 ← strftime_y dst t
  dst2 ← append_byte b'-' dst1
  dst3 ← strftime_lm dst2 t
  dst4 ← append_byte b'-' dst3
  strftime_ld dst4 t

unfoldable pub strftime_r : StrftimeFunc
strftime_r dst t = do dst1 ← strftime_h dst t; dst2 ← append_byte b':' dst1; strftime_m dst2 t

unfoldable pub strftime_t : StrftimeFunc
strftime_t dst t = do
  dst1 ← strftime_h dst t
  dst2 ← append_byte b':' dst1
  dst3 ← strftime_m dst2 t
  dst4 ← append_byte b':' dst3
  strftime_s dst4 t

unfoldable pub strftime_lr : StrftimeFunc
strftime_lr dst t = do
  dst1 ← strftime_i dst t
  dst2 ← append_byte b':' dst1
  dst3 ← strftime_m dst2 t
  dst4 ← append_byte b':' dst3
  dst5 ← strftime_s dst4 t
  dst6 ← append_byte b' ' dst5
  strftime_go (codes "pm") dst6 t

-- The number of the week, by how far the day of the year is behind the first day of the week.
unfoldable pub append_week : ℤ → StrftimeFunc
append_week (pos d) dst t = append_zero_padding_uint dst (pos (d / 7 + 1)) 2
append_week (negsuc d) dst t =
    append_zero_padding_uint dst (pos (t.year_day_after (negsuc d) / 7 + 1)) 2

unfoldable pub strftime_u : StrftimeFunc
strftime_u dst t = append_week (minus t.year_day t.weekday) dst t

-- Monday is the first day.
unfoldable pub strftime_w : StrftimeFunc
strftime_w dst t =
    append_week (minus t.year_day (if t.weekday == 0 then 6 else t.weekday - 1)) dst t

unfoldable pub strftime_lz : StrftimeFunc
strftime_lz dst t = do
  hours ←
      append_zero_padding_uint (dst ++ (if is_negative t.zone then b'-' else b'+') ∷ [])
        (pos (abs t.zone / (60 * 60))) 2
  some (hours ++ codes "00")
