-- ===== src/Util/Padding/Digits.antt =====
-- pkg/util/bytes.go: the digits that the copying loops write, and the padding before them.
use native.Mathlib.Nat.{pow-suc}
use fasthttpd.Base.{
  ℕ, zero, suc, ◌+◌, ◌-◌, ◌*◌, ◌/◌, ◌^◌, ◌≤◌, ◌<◌, ◌≡◌, refl, ap, ◌∙◌, inl, inr, true, false, [],
  ◌∷◌, ◌++◌, append_assoc, arith, ltb, leb, if◌then◌else◌, ltb→lt, lt→ltb, Bool-cases, length, set,
  drop, replicate, length-set, drop-set, Bytes,
}
use fasthttpd.Util.Padding.{digit, digits_loop, pad_loop}

-- The decimal digits of a number below `10 ^ fuel`, by the remainders.
unfoldable pub decimal : ℕ → ℕ → Bytes
decimal zero n = []
decimal (suc fuel) n =
    if ltb n 10 then digit n ∷ [] else decimal fuel (n / 10) ++ digit (n - n / 10 * 10) ∷ []

-- Reading digits back.
unfoldable pub parse_from : ℕ → Bytes → ℕ
parse_from acc [] = acc
parse_from acc (c ∷ s) = parse_from (acc * 10 + (c - b'0')) s

pub parse_from-append :
    (acc : ℕ) (s t : Bytes) → parse_from acc (s ++ t) ≡ parse_from (parse_from acc s) t
unfolding parse_from
parse_from-append acc [] t = refl
parse_from-append acc (c ∷ s) t = parse_from-append (acc * 10 + (c - b'0')) s t

pub parse_from-replicate : (k : ℕ) → parse_from 0 (replicate k b'0') ≡ 0
unfolding parse_from
parse_from-replicate zero = refl
parse_from-replicate (suc k) = parse_from-replicate k

pub parse_from-decimal : (fuel n : ℕ) → n < 10 ^ fuel → parse_from 0 (decimal fuel n) ≡ n
unfolding decimal parse_from
parse_from-decimal zero n h = omega arith
parse_from-decimal (suc fuel) n h = elim (Bool-cases (ltb n 10)) [
  | inl e ↦ rw e (ground arith)
  | inr e ↦
      rw (e, parse_from-append, parse_from-decimal fuel (n / 10) (below (pow-suc 10 fuel)))
        (ground arith)
]
  where
    below : 10 ^ suc fuel ≡ 10 ^ fuel * 10 → n / 10 < 10 ^ fuel
    below p = omega arith

-- What the loop of digits leaves for the last digit, which goes to `offset`.
pub record IsWritten (i n : ℕ) (dst : Bytes) (r : ℕ × ℕ × Bytes) : Type 0 where
  pub offset : ℕ
  pub index : r.0 ≡ suc offset
  pub size : length r.2 ≡ length dst
  pub within : suc offset ≤ i
  pub digits : drop offset (set r.2 offset (digit r.1)) ≡ decimal i n ++ drop i dst

last_digit :
    (i n : ℕ) (dst : Bytes)
    → ltb n 10 ≡ true
    → suc i ≤ length dst
    → IsWritten (suc i) n dst (suc i, n, dst)
unfolding decimal
last_digit i n dst e q = record {
  offset = i;
  index = refl;
  size = refl;
  within = omega arith;
  digits = rw e (drop-set dst i (digit n) q);
}

next_digit :
    (i n : ℕ) (dst : Bytes) (r : ℕ × ℕ × Bytes)
    → ltb n 10 ≡ false
    → suc i ≤ length dst
    → IsWritten i (n / 10) (set dst i (digit (n - n / 10 * 10))) r
    → IsWritten (suc i) n dst r
unfolding decimal
next_digit i n dst r e q w = record {
  offset = w.offset;
  index = w.index;
  size = w.size ∙ length-set dst i _;
  within = omega (arith, w.within);
  digits = rw (e, append_assoc) (w.digits ∙ ap (◌++◌ (decimal i (n / 10))) (drop-set dst i _ q));
}

-- In a buffer that is wide enough the loop ends before its first byte.
pub digits_loop-IsWritten :
    (i n : ℕ) (dst : Bytes)
    → n < 10 ^ suc i
    → suc i ≤ length dst
    → IsWritten (suc i) n dst (digits_loop (suc i) n dst)
unfolding digits_loop
digits_loop-IsWritten zero n dst h q =
    rw (not_large (omega arith)) (last_digit zero n dst (lt→ltb n 10 (omega arith)) q)
  where
    not_large : n < 10 → leb 10 n ≡ false
    not_large p = ground arith
digits_loop-IsWritten (suc i) n dst h q = elim (Bool-cases (leb 10 n)) [
  | inl e ↦ rw e (
      next_digit (suc i) n dst _ (ground arith) q (
        digits_loop-IsWritten i (n / 10) _ (below (pow-suc 10 (suc i)))
          (omega (arith, length-set dst (suc i) (digit (n - n / 10 * 10))))))
  | inr e ↦ rw e (last_digit (suc i) n dst (ground arith) q)
]
  where
    below : 10 ^ suc (suc i) ≡ 10 ^ suc i * 10 → n / 10 < 10 ^ suc i
    below p = omega arith

replicate-shift : (k c : ℕ) (xs : Bytes) → replicate k c ++ c ∷ xs ≡ c ∷ replicate k c ++ xs
replicate-shift zero c xs = refl
replicate-shift (suc k) c xs = rw (replicate-shift k c xs)

replicate_sub :
    (i o c : ℕ) (xs : Bytes)
    → o < suc i
    → replicate (i - o) c ++ c ∷ xs ≡ replicate (suc i - o) c ++ xs
replicate_sub i o c xs h =
    let e : suc i - o ≡ suc (i - o) = omega arith in rw e (replicate-shift (i - o) c xs)

-- The padding loop fills the bytes from the target up to the index.
pub pad_loop_fill :
    (i o c : ℕ) (dst : Bytes)
    → i ≤ length dst
    → drop (pad_loop i o c dst).0 (pad_loop i o c dst).1 ≡ replicate (i - o) c ++ drop i dst
unfolding pad_loop
pad_loop_fill zero o c dst h = let e : 0 - o ≡ 0 = omega arith in rw e
pad_loop_fill (suc i) o c dst h = elim (Bool-cases (ltb o (suc i))) [
  | inl e ↦ rw e (
      pad_loop_fill i o c (set dst i c) (omega (arith, length-set dst i c))
      ∙ ap (◌++◌ (replicate (i - o) c)) (drop-set dst i c h)
      ∙ replicate_sub i o c (drop (suc i) dst) (ltb→lt o (suc i) e))
  | inr e ↦ let z : suc i - o ≡ 0 = ground arith in rw (e, z)
]
