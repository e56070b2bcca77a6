-- ===== src/Config/Size/Read.antt =====
-- pkg/config/config.go: written sizes are read.
use fasthttpd.Base.{
  ℕ, ◌*◌, ◌%◌, ◌^◌, ◌<◌, ◌≡◌, refl, ap, ◌∙◌, Bool, true, some, ◌++◌, arith, ltb, lt→ltb, All, Bytes,
  bytes_eq, pos,
}
use fasthttpd.Std.{to_upper}
use fasthttpd.Util.Padding.Digits.{decimal, parse_from-decimal}
use fasthttpd.Config.Size.{signed64, scale, parse_int, parse_size}
use fasthttpd.Config.Size.Digits.{match_size-spelled}
use fasthttpd.Config.Size.Match.{Scale, plain, kilo, mega, giga, letter, factor, spelling, IsSpace}

scale-letter :
    (u : Scale) (n : ℕ) → n < 2 ^ 63 → scale (letter u) n ≡ signed64 (n * factor u % 2 ^ 64)
unfolding scale bytes_eq
scale-letter plain n h = ground arith
scale-letter kilo n h = refl
scale-letter mega n h = refl
scale-letter giga n h = refl

parse_int-decimal : (n : ℕ) → n < 2 ^ 63 → parse_int (decimal 20 n) ≡ some n
unfolding parse_int
parse_int-decimal n h =
    let e = parse_from-decimal 20 n (omega arith) in
    let small : ltb n (2 ^ 63) ≡ true = lt→ltb n (2 ^ 63) h in rw (e, small) refl

signed64-small : (w : ℕ) → w < 2 ^ 63 → signed64 (w % 2 ^ 64) ≡ pos w
signed64-small w h = ground arith

-- A number below 2 ^ 63 with a unit, in any case and with spaces around, reads as the product with
-- the unit's power of 1024 where that fits into 63 bits, and else as what is left of it in a signed
-- word of 64 bits.
pub parse_size_spelled :
    (l m r text : Bytes) (n : ℕ) (u : Scale) (i b : Bool)
    → n < 2 ^ 63
    → All IsSpace l
    → All IsSpace m
    → All IsSpace r
    → to_upper text ≡ l ++ (decimal 20 n ++ (m ++ (spelling u i b ++ r)))
    → (parse_size text ≡ some (signed64 (n * factor u % 2 ^ 64)))
      × (n * factor u < 2 ^ 63 → parse_size text ≡ some (pos (n * factor u)))
unfolding parse_size
parse_size_spelled l m r text n u i b h hl hm hr e =
    let word : parse_size text ≡ some (signed64 (n * factor u % 2 ^ 64)) =
      rw (e, match_size-spelled l m r n u i b hl hm hr, parse_int-decimal n h, parse_size)
        (ap some (scale-letter u n h)) in
    (word, λ fits. word ∙ ap some (signed64-small (n * factor u) fits))
