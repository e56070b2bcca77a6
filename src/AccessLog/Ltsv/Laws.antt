-- ===== src/AccessLog/Ltsv/Laws.antt =====
-- pkg/logger/accesslog/ltsv.go: values, times and addresses add no separator.
use fasthttpd.Base.{
  ℕ, zero, suc, ◌+◌, ◌-◌, ◌*◌, ◌/◌, ◌<◌, ◌≡◌, refl, ◌∙◌, true, false, [], ◌∷◌, ◌++◌, arith, ◌==◌,
  if◌then◌else◌, Bytes, ℤ, pos, negsuc, abs,
}
use fasthttpd.Util.Strftime.Directives.{Time}
use fasthttpd.AccessLog.Context.{
  ip4, ip6, Addr, tcp_addr, other_addr, append_host_ip, byte_digit, int_digit, with_sign,
  append_uint2, append_uint4, append_zone, append_iso_time,
}
use fasthttpd.AccessLog.Json.{addr_ip}
use fasthttpd.AccessLog.Ltsv.{is_separator, append_ltsv_value}

-- How often the byte occurs.
abbrev pub count_byte : ℕ → Bytes → ℕ
count_byte b [] = 0
count_byte b (c ∷ s) = if c == b then suc (count_byte b s) else count_byte b s

pub count_byte-append :
    (b : ℕ) (s t : Bytes) → count_byte b (s ++ t) ≡ count_byte b s + count_byte b t
count_byte-append b [] t = omega arith
count_byte-append b (c ∷ s) t = ground (arith, count_byte-append b s t)

-- A value adds no separator.
pub append_ltsv_value_count :
    (b : ℕ) (dst s : Bytes)
    → is_separator b ≡ true
    → count_byte b (append_ltsv_value dst s) ≡ count_byte b dst
unfolding append_ltsv_value
append_ltsv_value_count b dst [] h = refl
append_ltsv_value_count b dst (c ∷ s) h =
    append_ltsv_value_count b (dst ++ (if is_separator c then b' ' else c) ∷ []) s h
    ∙ ground (arith, count_byte-append b dst ((if is_separator c then b' ' else c) ∷ []))

count_digit : (b n : ℕ) → is_separator b ≡ true → n < 10 → (byte_digit n == b) ≡ false
count_digit b n h k = ground arith

count-uint2 :
    (b : ℕ) (dst : Bytes) (n : ℕ)
    → is_separator b ≡ true
    → n < 100
    → count_byte b (append_uint2 dst n) ≡ count_byte b dst
unfolding append_uint2
count-uint2 b dst n h k =
    let x = count_digit b (n / 10) h (omega arith) in
    let y = count_digit b (n - n / 10 * 10) h (omega arith) in
    count_byte-append b dst _ ∙ rw (x, y) (omega arith)

int_digit-differs :
    (b : ℕ) (z : ℤ) (n : ℕ)
    → is_separator b ≡ true
    → n < 10
    → (int_digit (with_sign z n) == b) ≡ false
int_digit-differs b (pos y) n h k = count_digit b n h k
int_digit-differs b (negsuc y) zero h k = count_digit b 0 h k
int_digit-differs b (negsuc y) (suc n) h k = ground arith

count-uint4 :
    (b : ℕ) (dst : Bytes) (z : ℤ)
    → is_separator b ≡ true
    → abs z < 10000
    → count_byte b (append_uint4 dst z) ≡ count_byte b dst
unfolding append_uint4
count-uint4 b dst z h k =
    let n = abs z in
    let w = int_digit-differs b z (n / 1000) h (omega arith) in
    let x = int_digit-differs b z (n / 100 - n / 100 / 10 * 10) h (omega arith) in
    let y = int_digit-differs b z (n / 10 - n / 10 / 10 * 10) h (omega arith) in
    let d = int_digit-differs b z (n - n / 10 * 10) h (omega arith) in
    count_byte-append b dst _ ∙ rw (w, x, y, d) (omega arith)

-- A byte that is no separator.
pub count-other :
    (b c : ℕ) (dst : Bytes)
    → is_separator b ≡ true
    → is_separator c ≡ false
    → count_byte b (dst ++ c ∷ []) ≡ count_byte b dst
count-other b c dst h k = ground (arith, count_byte-append b dst (c ∷ []))

count-zone :
    (b : ℕ) (dst : Bytes) (z : ℤ)
    → is_separator b ≡ true
    → abs z < 24 * 60 * 60
    → count_byte b (append_zone dst z) ≡ count_byte b dst
unfolding append_zone
count-zone b dst (pos zero) h k = count-other b b'Z' dst h refl
count-zone b dst (pos (suc z)) h k =
    count-uint2 b _ ((suc z - suc z / 3600 * 3600) / 60) h (omega arith)
    ∙ count-other b b':' _ h refl
    ∙ count-uint2 b _ (suc z / 3600) h (omega arith)
    ∙ count-other b b'+' dst h refl
count-zone b dst (negsuc z) h k =
    count-uint2 b _ ((suc z - suc z / 3600 * 3600) / 60) h (omega arith)
    ∙ count-other b b':' _ h refl
    ∙ count-uint2 b _ (suc z / 3600) h (omega arith)
    ∙ count-other b b'-' dst h refl

-- A time whose parts have their usual numbers of digits.
pub record IsPrintable (t : Time) : Type 0 where
  pub year : abs t.year < 10000
  pub month : t.month < 100
  pub day : t.day < 100
  pub hour : t.hour < 100
  pub minute : t.minute < 100
  pub second : t.second < 100
  pub zone : abs t.zone < 24 * 60 * 60

pub count-iso_time :
    (b : ℕ) (dst : Bytes) (t : Time)
    → is_separator b ≡ true
    → IsPrintable t
    → count_byte b (append_iso_time dst t) ≡ count_byte b dst
unfolding append_iso_time
count-iso_time b dst t h v =
    count-zone b _ t.zone h v.zone
    ∙ count-uint2 b _ t.second h v.second
    ∙ count-other b b':' _ h refl
    ∙ count-uint2 b _ t.minute h v.minute
    ∙ count-other b b':' _ h refl
    ∙ count-uint2 b _ t.hour h v.hour
    ∙ count-other b b'T' _ h refl
    ∙ count-uint2 b _ t.day h v.day
    ∙ count-other b b'-' _ h refl
    ∙ count-uint2 b _ t.month h v.month
    ∙ count-other b b'-' _ h refl
    ∙ count-uint4 b dst t.year h v.year

pub count-host_ip :
    (b : ℕ) (dst : Bytes) (a : Addr)
    → count_byte b (addr_ip a) ≡ 0
    → count_byte b (append_host_ip dst a) ≡ count_byte b dst
unfolding append_host_ip
count-host_ip b dst (tcp_addr (ip4 a) port) h = count_byte-append b dst a ∙ rw h (omega arith)
count-host_ip b dst (tcp_addr (ip6 a) port) h = count_byte-append b dst a ∙ rw h (omega arith)
count-host_ip b dst (other_addr a) h = refl
