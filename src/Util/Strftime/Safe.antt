-- ===== src/Util/Strftime/Safe.antt =====
-- pkg/util/strftime.go: the directives of several steps do not panic.
use fasthttpd.Base.{
  ℕ, zero, suc, ◌+◌, ◌-◌, ◌*◌, ◌/◌, ◌≤◌, ◌<◌, refl, Option, some, [], ◌∷◌, ◌++◌, arith, ◌==◌,
  if◌then◌else◌, Bytes, codes, ℤ, pos, negsuc, is_negative, abs,
}
use fasthttpd.Util.Padding.{append_zero_padding_uint}
use fasthttpd.Util.Strftime.Directives.{
  Time, minus, ◌>>=◌, StrftimeFunc, strftime_bytes, strftime_go, append_byte, strftime_ld,
  strftime_lm, strftime_y, strftime_h, strftime_m, strftime_s, strftime_i, strftime_d, strftime_f,
  strftime_r, strftime_t, strftime_lr, append_week, strftime_u, strftime_w, strftime_lz,
}
use fasthttpd.Util.Strftime.Total.{
  Extends, Extends-bind, Extends-append, IsValid, Appends, zero-Extends, strftime_ld-Appends,
  strftime_lm-Appends, strftime_ly-Appends, strftime_y-Appends, strftime_h-Appends,
  strftime_m-Appends, strftime_s-Appends, strftime_i-Appends,
}

byte-Extends : (c : ℕ) (dst : Bytes) → Extends dst (append_byte c dst)
byte-Extends c dst = (c ∷ [], refl)

pub strftime_bytes-Appends : (b : Bytes) → Appends (strftime_bytes b)
unfolding strftime_bytes
strftime_bytes-Appends b dst t v = (b, refl)

pub strftime_go-Appends : (layout : Bytes) → Appends (strftime_go layout)
unfolding strftime_go
strftime_go-Appends layout dst t v = (t.format layout, refl)

-- One step behind another.
then-Extends :
    (f : StrftimeFunc) (k : Bytes → Option Bytes) (dst : Bytes) (t : Time)
    → Appends f
    → IsValid t
    → ((d : Bytes) → Extends d (k d))
    → Extends dst (f dst t >>= k)
then-Extends f k dst t a v h = Extends-bind dst (f dst t) k (a dst t v) h

byte-then-Extends :
    (c : ℕ) (k : Bytes → Option Bytes) (dst : Bytes)
    → ((d : Bytes) → Extends d (k d))
    → Extends dst (append_byte c dst >>= k)
byte-then-Extends c k dst h = Extends-bind dst (append_byte c dst) k (byte-Extends c dst) h

pub strftime_d-Appends : Appends strftime_d
unfolding strftime_d
strftime_d-Appends dst t v = then-Extends strftime_lm _ dst t strftime_lm-Appends v (λ d1.
    byte-then-Extends b'/' _ d1 (λ d2.
      then-Extends strftime_ld _ d2 t strftime_ld-Appends v
        (λ d3. byte-then-Extends b'/' _ d3 (λ d4. strftime_ly-Appends d4 t v))))

pub strftime_f-Appends : Appends strftime_f
unfolding strftime_f
strftime_f-Appends dst t v = then-Extends strftime_y _ dst t strftime_y-Appends v (λ d1.
    byte-then-Extends b'-' _ d1 (λ d2.
      then-Extends strftime_lm _ d2 t strftime_lm-Appends v
        (λ d3. byte-then-Extends b'-' _ d3 (λ d4. strftime_ld-Appends d4 t v))))

pub strftime_r-Appends : Appends strftime_r
unfolding strftime_r
strftime_r-Appends dst t v =
    then-Extends strftime_h _ dst t strftime_h-Appends v
      (λ d1. byte-then-Extends b':' _ d1 (λ d2. strftime_m-Appends d2 t v))

pub strftime_t-Appends : Appends strftime_t
unfolding strftime_t
strftime_t-Appends dst t v = then-Extends strftime_h _ dst t strftime_h-Appends v (λ d1.
    byte-then-Extends b':' _ d1 (λ d2.
      then-Extends strftime_m _ d2 t strftime_m-Appends v
        (λ d3. byte-then-Extends b':' _ d3 (λ d4. strftime_s-Appends d4 t v))))

pub strftime_lr-Appends : Appends strftime_lr
unfolding strftime_lr
strftime_lr-Appends dst t v = then-Extends strftime_i _ dst t strftime_i-Appends v (λ d1.
    byte-then-Extends b':' _ d1 (λ d2. then-Extends strftime_m _ d2 t strftime_m-Appends v (λ d3.
      byte-then-Extends b':' _ d3 (λ d4.
        then-Extends strftime_s _ d4 t strftime_s-Appends v
          (λ d5. byte-then-Extends b' ' _ d5 (λ d6. strftime_go-Appends (codes "pm") d6 t v))))))

append_week-Extends :
    (z : ℤ) (dst : Bytes) (t : Time) → IsValid t → abs z ≤ 373 → Extends dst (append_week z dst t)
unfolding append_week
append_week-Extends (pos d) dst t v h = zero-Extends (d / 7 + 1) 2 dst (omega arith) (omega arith)
append_week-Extends (negsuc d) dst t v h =
    zero-Extends (t.year_day_after (negsuc d) / 7 + 1) 2 dst (omega (arith, v.before (negsuc d)))
      (omega arith)

abs-minus : (a b : ℕ) → abs (minus a b) ≤ a + b
abs-minus a zero = omega arith
abs-minus zero (suc b) = omega arith
abs-minus (suc a) (suc b) = omega (arith, abs-minus a b)

pub strftime_u-Appends : Appends strftime_u
unfolding strftime_u
strftime_u-Appends dst t v =
    append_week-Extends (minus t.year_day t.weekday) dst t v
      (omega (arith, abs-minus t.year_day t.weekday, v.year_day, v.weekday))

monday-le : (w : ℕ) → w < 7 → (if w == 0 then 6 else w - 1) ≤ 6
monday-le w h = ground arith

pub strftime_w-Appends : Appends strftime_w
unfolding strftime_w
strftime_w-Appends dst t v =
    append_week-Extends (minus t.year_day (if t.weekday == 0 then 6 else t.weekday - 1)) dst t v (
      omega (
        arith,
        abs-minus t.year_day (if t.weekday == 0 then 6 else t.weekday - 1),
        v.year_day,
        monday-le t.weekday v.weekday,
      ))

pub strftime_lz-Appends : Appends strftime_lz
unfolding strftime_lz
strftime_lz-Appends dst t v =
    Extends-bind dst (some (dst ++ (if is_negative t.zone then b'-' else b'+') ∷ [])) _
      (Extends-append dst ((if is_negative t.zone then b'-' else b'+') ∷ []))
      (λ d1.
        Extends-bind d1 (append_zero_padding_uint d1 (pos (abs t.zone / (60 * 60))) 2) _
          (zero-Extends (abs t.zone / (60 * 60)) 2 d1 (omega (arith, v.zone)) (omega arith))
          (λ d2. Extends-append d2 (codes "00")))
