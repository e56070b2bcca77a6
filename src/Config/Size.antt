-- ===== src/Config/Size.antt =====
-- pkg/config/config.go: sizes with units, and the YAML nodes of sizes and durations.
pub mod Match
pub mod Digits
pub mod Read
use fasthttpd.Base.{
  ℕ, suc, ◌-◌, ◌*◌, ◌/◌, ◌%◌, ◌^◌, ◌<◌, Bool, not, ◌&&◌, ◌||◌, Option, none, some, [], ◌∷◌, ltb,
  leb, ◌==◌, if◌then◌else◌, is_nil, Bytes, codes, bytes_eq, ℤ, pos, negsuc, neg,
}
use fasthttpd.Std.{to_upper}
use fasthttpd.Util.Padding.Digits.{parse_from}

-- `\s`
abbrev pub is_space : ℕ → Bool
is_space c = (c == b' ') || (c == 9) || (c == 10) || (c == 12) || (c == 13)

-- `\d`
abbrev pub is_digit : ℕ → Bool
is_digit c = leb b'0' c && leb c b'9'

abbrev pub is_unit : ℕ → Bool
is_unit c = (c == b'K') || (c == b'M') || (c == b'G')

-- `[Ii]` and `[Bb]`
abbrev pub is_i : ℕ → Bool
is_i c = (c == b'I') || (c == b'i')

abbrev pub is_b : ℕ → Bool
is_b c = (c == b'B') || (c == b'b')

unfoldable pub skip_spaces : Bytes → Bytes
skip_spaces [] = []
skip_spaces (c ∷ s) = if is_space c then skip_spaces s else c ∷ s

unfoldable pub span_digits : Bytes → Bytes × Bytes
span_digits [] = ([], [])
span_digits (c ∷ s) =
    let (ds, rest) = span_digits s in if is_digit c then (c ∷ ds, rest) else ([], c ∷ s)

-- An optional byte, and the rest.
unfoldable pub optional : (ℕ → Bool) → Bytes → Bytes × Bytes
optional p [] = ([], [])
optional p (c ∷ s) = if p c then (c ∷ [], s) else ([], c ∷ s)

-- `[Ii]?[Bb]?\s*$`
unfoldable pub match_tail : Bytes → Bool
match_tail s = is_nil (skip_spaces (optional is_b (optional is_i s).1).1)

-- `\s*([KMG]?)` and the tail: the unit.
unfoldable pub match_unit : Bytes → Option Bytes
match_unit s =
    let (u, rest) = optional is_unit (skip_spaces s) in if match_tail rest then some u else none

-- `sizeRe`: the digits and the unit. The classes of neighbours have no byte in common, so that there
-- is one way to match at most.
unfoldable pub match_size : Bytes → Option (Bytes × Bytes)
match_size s =
    let (ds, rest) = span_digits (skip_spaces s) in
    if is_nil ds then none else elim (match_unit rest) [ none ↦ none | some u ↦ some (ds, u) ]

-- The signed integer of a 64-bit word.
abbrev pub signed64 : ℕ → ℤ
signed64 w = if ltb w (2 ^ 63) then pos w else negsuc (2 ^ 64 - w - 1)

-- `n << k`, where `n` is not negative.
abbrev pub shift_left : ℕ → ℕ → ℤ
shift_left n k = signed64 (n * 2 ^ k % 2 ^ 64)

unfoldable pub scale : Bytes → ℕ → ℤ
scale unit n =
    if bytes_eq unit (codes "K")
    then shift_left n 10
    else if bytes_eq unit (codes "M")
    then shift_left n 20
    else if bytes_eq unit (codes "G")
    then shift_left n 30
    else pos n

-- `strconv.ParseInt` of digits, which has an error above 2 ^ 63 - 1.
unfoldable pub parse_int : Bytes → Option ℕ
parse_int ds = let n = parse_from 0 ds in if ltb n (2 ^ 63) then some n else none

-- `none` is the error.
unfoldable pub parse_size : Bytes → Option ℤ
parse_size s = elim (match_size (to_upper s)) [
  | none ↦ none
  | some (ds, unit) ↦ elim (parse_int ds) [ none ↦ none | some n ↦ some (scale unit n) ]
]

-- What the decoders read of a `yaml.Node`: its tag, its text and its value as an integer.
pub record Node : Type 0 where
  pub tag : Bytes
  pub value : Bytes
  pub decode_int : Option ℤ

-- `Size.UnmarshalYAML` and `Duration.UnmarshalYAML`, by how they read a text.
unfoldable pub unmarshal_yaml : (Bytes → Option ℤ) → Node → Option ℤ
unmarshal_yaml parse node =
    if bytes_eq node.tag (codes "!!str")
    then parse node.value
    else if bytes_eq node.tag (codes "!!int")
    then node.decode_int
    else none

unfoldable pub unmarshal_size : Node → Option ℤ
unmarshal_size = unmarshal_yaml parse_size

-- `parse_duration` is `time.ParseDuration`.
unfoldable pub unmarshal_duration : (Bytes → Option ℤ) → Node → Option ℤ
unmarshal_duration parse_duration = unmarshal_yaml parse_duration
