-- ===== src/Util/Padding.antt =====
-- pkg/util/bytes.go: decimal numbers written into the right end of a buffer.
pub mod Digits
pub mod Laws
use fasthttpd.Base.{
  ℕ, zero, suc, ◌+◌, ◌-◌, ◌*◌, ◌/◌, ◌%◌, Bool, true, false, ◌&&◌, Option, none, some, List, [], ◌∷◌,
  ◌++◌, ltb, leb, ◌==◌, if◌then◌else◌, length, set, drop, replicate, Bytes, bytes_eq, ℤ, pos,
  negsuc,
}

-- `'0' + byte(d)`
abbrev pub digit : ℕ → ℕ
digit d = (b'0' + d % 256) % 256

-- `for i > 0 && n >= 10`, over `i`, `n` and the buffer
unfoldable pub digits_loop : ℕ → ℕ → Bytes → ℕ × ℕ × Bytes
digits_loop zero n dst = (zero, n, dst)
digits_loop (suc i) n dst =
    if leb 10 n
    then digits_loop i (n / 10) (set dst i (digit (n - n / 10 * 10)))
    else (suc i, n, dst)

-- `for o := len(dst) - p; i > o;`
unfoldable pub pad_loop : ℕ → ℕ → ℕ → Bytes → ℕ × Bytes
pad_loop zero o c dst = (zero, dst)
pad_loop (suc i) o c dst = if ltb o (suc i) then pad_loop i o c (set dst i c) else (suc i, dst)

-- The part of `CopyPaddingRightUint` behind the first loop. `none` is the panic of a write before
-- the buffer, where the padding is wider than the buffer.
unfoldable pub finish_padding : ℕ → ℕ → ℕ → ℕ → Bytes → Option (ℕ × Bytes)
finish_padding zero n p c dst = some (zero, dst)
finish_padding (suc i) n p c dst =
    if ltb (length dst) p then none else some (pad_loop i (length dst - p) c (set dst i (digit n)))

unfoldable pub copy_padding_right_uint : Bytes → ℕ → ℕ → ℕ → Option (ℕ × Bytes)
unfolding digits_loop pad_loop finish_padding
copy_padding_right_uint dst n p c =
    let (i, rest, written) = digits_loop (length dst) n dst in finish_padding i rest p c written

finish_digits : ℕ → ℕ → Bytes → ℕ × Bytes
finish_digits zero n dst = (zero, dst)
finish_digits (suc i) n dst = (i, set dst i (digit n))

unfoldable pub copy_right_uint : Bytes → ℕ → ℕ × Bytes
unfolding digits_loop finish_digits
copy_right_uint dst n =
    let (i, rest, written) = digits_loop (length dst) n dst in finish_digits i rest written

-- `none` is a panic.
unfoldable pub append_padding_uint : Bytes → ℤ → ℕ → ℕ → Option Bytes
append_padding_uint dst (negsuc n) p c = none
append_padding_uint dst (pos n) p c =
    if ltb 20 p then none else elim (copy_padding_right_uint (replicate 20 0) n p c) [
      | none ↦ none
      | some (off, b) ↦ some (dst ++ drop off b)
    ]

unfoldable pub append_zero_padding_uint : Bytes → ℤ → ℕ → Option Bytes
append_zero_padding_uint dst n p = append_padding_uint dst n p b'0'

unfoldable pub append_space_padding_uint : Bytes → ℤ → ℕ → Option Bytes
append_space_padding_uint dst n p = append_padding_uint dst n p b' '

unfoldable pub bytes_2d_equal : List Bytes → List Bytes → Bool
bytes_2d_equal a b = (length a == length b) && go a b
  where
    go : List Bytes → List Bytes → Bool
    go [] ys = true
    go (x ∷ xs) [] = false
    go (x ∷ xs) (y ∷ ys) = bytes_eq x y && go xs ys
