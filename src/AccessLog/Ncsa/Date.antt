-- ===== src/AccessLog/Ncsa/Date.antt =====
-- pkg/logger/accesslog/ncsa.go: the date of a line, and reading it back.
use fasthttpd.Base.{
  ℕ, zero, suc, ◌+◌, ◌-◌, ◌*◌, ◌/◌, ◌%◌, ◌≤◌, ◌<◌, ◌≡◌, refl, Bool, true, false, some, List, [],
  ◌∷◌, arith, if◌then◌else◌, length, get_elem?, take, drop, Bytes, codes, ℤ, pos, negsuc, abs,
}
use fasthttpd.Util.Padding.Digits.{parse_from}
use fasthttpd.Util.Padding.{copy_right_uint}
use fasthttpd.Util.Strftime.Directives.{Time}
use fasthttpd.AccessLog.Ncsa.{ncsa_months, zone_hours, ncsa_date, right_uint, right_int}

two_digits :
    (n : ℕ)
    → n < 100
    → right_uint (b'0' ∷ 0 ∷ []) n ≡ (b'0' + n / 10) ∷ (b'0' + (n - n / 10 * 10)) ∷ []
unfolding copy_right_uint
two_digits n h = ground arith

four_digits :
    (n : ℕ)
    → n < 10000
    → right_uint (b'0' ∷ b'0' ∷ b'0' ∷ 0 ∷ []) n
      ≡ (b'0' + n / 1000) ∷ (b'0' + n / 100 % 10) ∷ (b'0' + n / 10 % 10) ∷ (b'0' + n % 10) ∷ []
unfolding copy_right_uint
four_digits n h = ground arith

abbrev month_name : ℕ → Bytes
month_name m = take 3 (drop (m * 3) ncsa_months)

-- The names of the months, the first at 0.
abbrev pub month_names : List Bytes
month_names =
    codes "Jan"
    ∷ codes "Feb"
    ∷ codes "Mar"
    ∷ codes "Apr"
    ∷ codes "May"
    ∷ codes "Jun"
    ∷ codes "Jul"
    ∷ codes "Aug"
    ∷ codes "Sep"
    ∷ codes "Oct"
    ∷ codes "Nov"
    ∷ codes "Dec"
    ∷ []

-- The name of the month in three bytes.
abbrev IsName : ℕ → Bytes → Type 0
IsName m s =
    (a : ℕ) × (b : ℕ) × (c : ℕ) × (s ≡ a ∷ b ∷ c ∷ [])
    × (get_elem? month_names m ≡ some (a ∷ b ∷ c ∷ []))

month_name-IsName : (m : ℕ) → m < 12 → IsName m (month_name m)
month_name-IsName zero h = (_, _, _, refl, refl)
month_name-IsName (suc zero) h = (_, _, _, refl, refl)
month_name-IsName (suc (suc zero)) h = (_, _, _, refl, refl)
month_name-IsName (suc (suc (suc zero))) h = (_, _, _, refl, refl)
month_name-IsName (suc (suc (suc (suc zero)))) h = (_, _, _, refl, refl)
month_name-IsName (suc (suc (suc (suc (suc zero))))) h = (_, _, _, refl, refl)
month_name-IsName (suc (suc (suc (suc (suc (suc zero)))))) h = (_, _, _, refl, refl)
month_name-IsName (suc (suc (suc (suc (suc (suc (suc zero))))))) h = (_, _, _, refl, refl)
month_name-IsName (suc (suc (suc (suc (suc (suc (suc (suc zero)))))))) h = (_, _, _, refl, refl)
month_name-IsName (suc (suc (suc (suc (suc (suc (suc (suc (suc zero))))))))) h =
    (_, _, _, refl, refl)
month_name-IsName (suc (suc (suc (suc (suc (suc (suc (suc (suc (suc zero)))))))))) h =
    (_, _, _, refl, refl)
month_name-IsName (suc (suc (suc (suc (suc (suc (suc (suc (suc (suc (suc zero))))))))))) h =
    (_, _, _, refl, refl)
month_name-IsName (suc (suc (suc (suc (suc (suc (suc (suc (suc (suc (suc (suc m)))))))))))) h =
    absurd (omega arith)

-- The ranges of a time from the year 0 to 9999.
pub record IsFourDigit (t : Time) : Type 0 where
  -- the year, which is not negative
  pub years : ℕ
  pub year : t.year ≡ pos years
  pub year_high : years < 10000
  pub month_low : 1 ≤ t.month
  pub month_high : t.month ≤ 12
  pub day : t.day < 100
  pub hour : t.hour < 100
  pub minute : t.minute < 100
  pub second : t.second < 100
  pub zone : abs t.zone < 100 * 3600

-- The number that stands at a place of the text.
abbrev pub number_at : ℕ → ℕ → Bytes → ℕ
number_at i w s = parse_from 0 (take w (drop i s))

abbrev pub is_west : ℤ → Bool
is_west (pos z) = false
is_west (negsuc z) = true

zone_hours-abs : (z : ℤ) → zone_hours z ≡ ((if is_west z then b'-' else b'+'), abs z / 3600)
zone_hours-abs (pos z) = refl
zone_hours-abs (negsuc z) = refl

-- The date has 28 bytes, and what stands at its places is the day, the name of the month, the year,
-- the clock, and the sign and the hours of the zone, for every time from the year 0 to 9999.
pub ncsa_date_read :
    (t : Time)
    → (v : IsFourDigit t)
    → (length (ncsa_date t) ≡ 28)
      × (number_at 1 2 (ncsa_date t) ≡ t.day)
      × (get_elem? month_names (t.month - 1) ≡ some (take 3 (drop 4 (ncsa_date t))))
      × (number_at 8 4 (ncsa_date t) ≡ v.years)
      × (number_at 13 2 (ncsa_date t) ≡ t.hour)
      × (number_at 16 2 (ncsa_date t) ≡ t.minute)
      × (number_at 19 2 (ncsa_date t) ≡ t.second)
      × (take 1 (drop 22 (ncsa_date t)) ≡ (if is_west t.zone then b'-' else b'+') ∷ [])
      × (number_at 23 2 (ncsa_date t) ≡ abs t.zone / 3600)
unfolding ncsa_date parse_from right_int
ncsa_date_read t v =
    let hours : abs t.zone / 3600 < 100 = omega (arith, v.zone) in
    let (a, b, c, name, listed) =
      month_name-IsName (t.month - 1) (omega (arith, v.month_low, v.month_high)) in
    rw
      (
        zone_hours-abs t.zone,
        two_digits t.day v.day,
        name,
        v.year,
        four_digits v.years v.year_high,
        two_digits t.hour v.hour,
        two_digits t.minute v.minute,
        two_digits t.second v.second,
        two_digits (abs t.zone / 3600) hours,
        ncsa_date,
      )
      (
        refl,
        omega arith,
        listed,
        omega arith,
        omega arith,
        omega arith,
        omega arith,
        refl,
        omega arith,
      )

-- The minutes of a zone's offset are lost: times that differ in them only have one date.
pub ncsa_date_zone :
    (t : Time) (h m n : ℕ)
    → m < 3600
    → n < 3600
    → ncsa_date (record t { zone = pos (h * 3600 + m) })
      ≡ ncsa_date (record t { zone = pos (h * 3600 + n) })
unfolding ncsa_date
ncsa_date_zone t h m n p q =
    let same : (h * 3600 + m) / 3600 ≡ (h * 3600 + n) / 3600 = omega arith in
    rw (same, ncsa_date) refl
