-- ===== src/Util/Padding/Laws.antt =====
-- pkg/util/bytes.go: what a padded number reads as, and when the code panics.
use fasthttpd.Base.{
  ℕ, ◌-◌, ◌^◌, ◌≤◌, ◌<◌, ◌≡◌, refl, sym, ap, ◌∙◌, ◌⊎◌, true, false, none, some, ◌++◌, append_assoc,
  append-nil, arith, ltb, if◌then◌else◌, length, set, drop, replicate, length-append, length-set,
  drop-length-le, length-replicate, length-drop, Bytes, ℤ, pos, negsuc, is_negative,
}
use fasthttpd.Util.Padding.{
  digit, digits_loop, pad_loop, finish_padding, copy_padding_right_uint, append_padding_uint,
  append_zero_padding_uint,
}
use fasthttpd.Util.Padding.Digits.{
  decimal, parse_from, parse_from-append, parse_from-replicate, parse_from-decimal, IsWritten,
  digits_loop-IsWritten, pad_loop_fill,
}

module _ (n p c : ℕ) (dst : Bytes) (narrow : p ≤ length dst) where
  module _ (r : ℕ × ℕ × Bytes) (w : IsWritten (length dst) n dst r) where
    padded : Bytes
    padded = set r.2 w.offset (digit r.1)

    size_padded : length padded ≡ length dst
    unfolding padded
    size_padded = length-set r.2 w.offset (digit r.1) ∙ w.size

    finish_padding-eq :
        finish_padding r.0 r.1 p c r.2 ≡ some (pad_loop w.offset (length dst - p) c padded)
    unfolding finish_padding padded
    finish_padding-eq = rw (w.index, finish_padding) (rw w.size (wide (ground arith)))
      where
        wide :
            ltb (length dst) p ≡ false
            → (if ltb (length dst) p
                then none
                else some (pad_loop w.offset (length dst - p) c (set r.2 w.offset (digit r.1))))
              ≡ some (pad_loop w.offset (length dst - p) c (set r.2 w.offset (digit r.1)))
        wide e = rw e

    padding_lengths :
        length (drop w.offset padded) ≡ length (decimal (length dst) n)
        → w.offset - (length dst - p) ≡ p - length (decimal (length dst) n)
    padding_lengths e = omega (arith, w.within, size_padded, length-drop w.offset padded)

    filled :
        drop
          (pad_loop w.offset (length dst - p) c padded).0
          (pad_loop w.offset (length dst - p) c padded).1
        ≡ replicate (p - length (decimal (length dst) n)) c ++ decimal (length dst) n
    unfolding padded
    filled =
        let whole : drop w.offset padded ≡ decimal (length dst) n =
          w.digits
          ∙ ap (◌++◌ (decimal (length dst) n)) (drop-length-le (length dst) dst (omega arith))
          ∙ append-nil (decimal (length dst) n) in
        pad_loop_fill w.offset (length dst - p) c padded (omega (arith, w.within, size_padded))
        ∙ rw (padding_lengths (ap length whole)) (ap (◌++◌ _) whole)

abbrev zeros : Bytes
zeros = replicate 20 0

module _ (n p c : ℕ) (small : n < 10 ^ 20) (narrow : p ≤ 20) where
  written : IsWritten (length zeros) n zeros (digits_loop 20 n zeros)
  written = digits_loop-IsWritten 19 n zeros small (omega arith)

  copy_padding_right_uint-zeros :
      copy_padding_right_uint zeros n p c
      ≡ some (pad_loop written.offset (20 - p) c (padded n p c zeros narrow _ written))
  unfolding copy_padding_right_uint
  copy_padding_right_uint-zeros =
      finish_padding-eq n p c zeros narrow (digits_loop 20 n zeros) written

-- Where the padding is at most 20 wide and the number has at most 20 digits, the decimal digits
-- are appended to what was there, behind as many padding bytes as they are short of the width.
pub append_padding_uint-decimal :
    (dst : Bytes) (n p c : ℕ)
    → n < 10 ^ 20
    → p ≤ 20
    → append_padding_uint dst (pos n) p c
      ≡ some (dst ++ replicate (p - length (decimal 20 n)) c ++ decimal 20 n)
unfolding append_padding_uint
append_padding_uint-decimal dst n p c small narrow =
    let wide : ltb 20 p ≡ false = ground arith in
    rw (wide, copy_padding_right_uint-zeros n p c small narrow, append_padding_uint)
      (ap some (
        ap (◌++◌ dst) (filled n p c zeros narrow _ (written n p c small narrow))
        ∙ sym (append_assoc dst _ _)))

-- A zero-padded number keeps what was in the buffer, has the width at least, and reads back as the
-- number, for every number below 10 ^ 20 and every width up to 20.
pub append_zero_padding_uint_parse :
    (dst : Bytes) (n p : ℕ)
    → n < 10 ^ 20
    → p ≤ 20
    → (s : Bytes) × (append_zero_padding_uint dst (pos n) p ≡ some (dst ++ s))
      × (parse_from 0 s ≡ n)
      × (p ≤ length s)
unfolding append_zero_padding_uint
append_zero_padding_uint_parse dst n p small narrow =
    let ds = decimal 20 n in
    let zs : Bytes = replicate (p - length ds) b'0' in
    (
      zs ++ ds,
      append_padding_uint-decimal dst n p b'0' small narrow ∙ ap some (append_assoc dst zs ds),
      parse_from-append 0 zs ds
          ∙ ap (λ k. parse_from k ds) (parse_from-replicate (p - length ds))
          ∙ parse_from-decimal 20 n small,
      omega (arith, length-append zs ds, length-replicate {A = ℕ} (p - length ds) b'0'),
    )

-- The code panics for every negative number and for every width above 20.
pub append_padding_uint_panics :
    (dst : Bytes) (n : ℤ) (p c : ℕ)
    → (is_negative n ≡ true) ⊎ (20 < p)
    → append_padding_uint dst n p c ≡ none
unfolding append_padding_uint
append_padding_uint_panics dst (negsuc n) p c h = refl
append_padding_uint_panics dst (pos n) p c h = ground arith
