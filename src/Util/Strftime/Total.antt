-- ===== src/Util/Strftime/Total.antt =====
-- pkg/util/strftime.go: formatting does not panic, and only appends.
use fasthttpd.Base.{
  ℕ, ◌-◌, ◌*◌, ◌/◌, ◌^◌, ◌≤◌, ◌<◌, ◌≡◌, refl, ap, ◌∙◌, Option, some, ◌++◌, append_assoc, arith,
  length, replicate, Bytes, ℤ, pos, negsuc, abs,
}
use fasthttpd.Util.Padding.{
  append_zero_padding_uint, append_space_padding_uint, append_padding_uint,
}
use fasthttpd.Util.Padding.Digits.{decimal}
use fasthttpd.Util.Padding.Laws.{append_padding_uint-decimal}
use fasthttpd.Util.Strftime.Directives.{
  Time, quot, rem, ◌>>=◌, StrftimeFunc, strftime_c, strftime_ld, strftime_lm, strftime_ly,
  strftime_y, strftime_h, strftime_lj, strftime_m, strftime_s, strftime_v, strftime_le, strftime_lk,
  hour_12, strftime_i, strftime_ll,
}

-- What is left is the buffer with something behind it.
abbrev pub Extends : Bytes → Option Bytes → Type 0
Extends dst o = (s : Bytes) × (o ≡ some (dst ++ s))

pub Extends-bind :
    (dst : Bytes) (o : Option Bytes) (k : Bytes → Option Bytes)
    → Extends dst o
    → ((d : Bytes) → Extends d (k d))
    → Extends dst (o >>= k)
Extends-bind dst o k (s, e) h =
    let (s', e') = h (dst ++ s) in (s ++ s', rw e (e' ∙ ap some (append_assoc dst s s')))

pub Extends-append : (dst s : Bytes) → Extends dst (some (dst ++ s))
Extends-append dst s = (s, refl)

pub Extends-padding :
    (dst : Bytes) (n p c : ℕ)
    → n < 10 ^ 20
    → p ≤ 20
    → Extends dst (append_padding_uint dst (pos n) p c)
Extends-padding dst n p c h k = (
  replicate (p - length (decimal 20 n)) c ++ decimal 20 n,
  append_padding_uint-decimal dst n p c h k
      ∙ ap some (append_assoc dst (replicate (p - length (decimal 20 n)) c) (decimal 20 n)),
)

-- The number is not negative and has at most 18 digits.
abbrev pub IsSmall : ℤ → Type 0
IsSmall (pos n) = n < 10 ^ 18
IsSmall (negsuc n) = ⊥

-- The ranges that the `time` package gives, with years and seconds from the epoch on.
pub record IsValid (t : Time) : Type 0 where
  pub year : IsSmall t.year
  pub month : t.month ≤ 12
  pub day : t.day ≤ 31
  pub hour : t.hour < 24
  pub minute : t.minute < 60
  pub second : t.second < 60
  pub year_day : t.year_day ≤ 366
  pub weekday : t.weekday < 7
  pub iso_week : t.iso_week ≤ 53
  pub unix : IsSmall t.unix
  pub zone : abs t.zone < 24 * 60 * 60
  pub before : (d : ℤ) → t.year_day_after d ≤ 366

-- For a valid time the function only appends.
abbrev pub Appends : StrftimeFunc → Type 0
Appends f = (dst : Bytes) (t : Time) → IsValid t → Extends dst (f dst t)

pub zero-Extends :
    (n p : ℕ) (dst : Bytes)
    → n < 10 ^ 20
    → p ≤ 20
    → Extends dst (append_zero_padding_uint dst (pos n) p)
unfolding append_zero_padding_uint
zero-Extends n p dst h k = Extends-padding dst n p b'0' h k

pub quot-Extends :
    (z : ℤ) (p : ℕ) (dst : Bytes)
    → IsSmall z
    → p ≤ 20
    → Extends dst (append_zero_padding_uint dst (quot z 100) p)
quot-Extends (pos n) p dst h k = zero-Extends (n / 100) p dst (omega arith) k
quot-Extends (negsuc n) p dst h k = absurd h

pub rem-Extends :
    (z : ℤ) (p : ℕ) (dst : Bytes)
    → IsSmall z
    → p ≤ 20
    → Extends dst (append_zero_padding_uint dst (rem z 100) p)
rem-Extends (pos n) p dst h k = zero-Extends (n - n / 100 * 100) p dst (omega arith) k
rem-Extends (negsuc n) p dst h k = absurd h

pub small-Extends :
    (z : ℤ) (p : ℕ) (dst : Bytes)
    → IsSmall z
    → p ≤ 20
    → Extends dst (append_zero_padding_uint dst z p)
small-Extends (pos n) p dst h k = zero-Extends n p dst (omega arith) k
small-Extends (negsuc n) p dst h k = absurd h

pub strftime_c-Appends : Appends strftime_c
unfolding strftime_c
strftime_c-Appends dst t v = quot-Extends t.year 2 dst v.year (omega arith)

pub strftime_ld-Appends : Appends strftime_ld
unfolding strftime_ld
strftime_ld-Appends dst t v = zero-Extends t.day 2 dst (omega (arith, v.day)) (omega arith)

pub strftime_lm-Appends : Appends strftime_lm
unfolding strftime_lm
strftime_lm-Appends dst t v = zero-Extends t.month 2 dst (omega (arith, v.month)) (omega arith)

pub strftime_ly-Appends : Appends strftime_ly
unfolding strftime_ly
strftime_ly-Appends dst t v = rem-Extends t.year 2 dst v.year (omega arith)

pub strftime_y-Appends : Appends strftime_y
unfolding strftime_y
strftime_y-Appends dst t v = small-Extends t.year 4 dst v.year (omega arith)

pub strftime_h-Appends : Appends strftime_h
unfolding strftime_h
strftime_h-Appends dst t v = zero-Extends t.hour 2 dst (omega (arith, v.hour)) (omega arith)

pub strftime_m-Appends : Appends strftime_m
unfolding strftime_m
strftime_m-Appends dst t v = zero-Extends t.minute 2 dst (omega (arith, v.minute)) (omega arith)

pub strftime_s-Appends : Appends strftime_s
unfolding strftime_s
strftime_s-Appends dst t v = zero-Extends t.second 2 dst (omega (arith, v.second)) (omega arith)

pub strftime_lj-Appends : Appends strftime_lj
unfolding strftime_lj
strftime_lj-Appends dst t v =
    zero-Extends t.year_day 3 dst (omega (arith, v.year_day)) (omega arith)

pub strftime_v-Appends : Appends strftime_v
unfolding strftime_v
strftime_v-Appends dst t v = zero-Extends t.iso_week 2 dst (omega (arith, v.iso_week)) (omega arith)

pub strftime_le-Appends : Appends strftime_le
unfolding strftime_le append_space_padding_uint
strftime_le-Appends dst t v = Extends-padding dst t.day 2 b' ' (omega (arith, v.day)) (omega arith)

pub strftime_lk-Appends : Appends strftime_lk
unfolding strftime_lk append_space_padding_uint
strftime_lk-Appends dst t v =
    Extends-padding dst t.hour 2 b' ' (omega (arith, v.hour)) (omega arith)

hour_12-le : (h : ℕ) → h < 24 → hour_12 h ≤ 12
hour_12-le h k = ground arith

pub strftime_i-Appends : Appends strftime_i
unfolding strftime_i
strftime_i-Appends dst t v =
    zero-Extends (hour_12 t.hour) 2 dst (omega (arith, hour_12-le t.hour v.hour)) (omega arith)

pub strftime_ll-Appends : Appends strftime_ll
unfolding strftime_ll append_space_padding_uint
strftime_ll-Appends dst t v =
    Extends-padding dst (hour_12 t.hour) 2 b' ' (omega (arith, hour_12-le t.hour v.hour))
      (omega arith)
