-- ===== src/Util/Strftime.antt =====
-- pkg/util/strftime.go: the table of directives, and the parser of formats. `append_uint` is
-- fasthttp's `AppendUint`.
pub mod Directives
pub mod Laws
pub mod Total
pub mod Safe
pub mod NoPanic
mod Tests
use fasthttpd.Base.{
  ℕ, zero, suc, ◌+◌, ◌-◌, ◌/◌, ◌%◌, ap, Option, none, some, List, [], ◌∷◌, ◌++◌, map, ◌==◌,
  if◌then◌else◌, length, take, drop, Bytes, codes, index_byte, lookup, ℤ, pos,
}
use Directives.{
  Time, StrftimeFunc, strftime_bytes, strftime_go, strftime_c, strftime_ld, strftime_lm,
  strftime_ly, strftime_y, strftime_h, strftime_lj, strftime_m, strftime_s, strftime_v, strftime_le,
  strftime_lk, strftime_i, strftime_ll, strftime_d, strftime_f, strftime_r, strftime_t, strftime_lr,
  strftime_u, strftime_w, strftime_lz, ◌>>=◌,
}

-- A map read at a byte.
abbrev pub lookup_func : ℕ → List (ℕ × StrftimeFunc) → Option StrftimeFunc
lookup_func k [] = none
lookup_func k ((j, f) ∷ m) = if j == k then some f else lookup_func k m

-- `if i > 0`: the bytes before a percent sign.
abbrev literal : ℕ → Bytes → List StrftimeFunc
literal zero rest = []
literal (suc i) rest = strftime_bytes (take (suc i) rest) ∷ []

module _ (append_uint : Bytes → ℤ → Option Bytes) where
  unfoldable pub strftime_lu : StrftimeFunc
  strftime_lu dst t = append_uint dst (pos (if t.weekday == 0 then 7 else t.weekday))

  unfoldable pub strftime_ls : StrftimeFunc
  strftime_ls dst t = append_uint dst t.unix

  unfoldable pub strftime_lw : StrftimeFunc
  strftime_lw dst t = append_uint dst (pos t.weekday)

  unfoldable pub strftime_funcs : List (ℕ × StrftimeFunc)
  strftime_funcs =
      (b'a', strftime_go (codes "Mon"))
      ∷ (b'A', strftime_go (codes "Monday"))
      ∷ (b'b', strftime_go (codes "Jan"))
      ∷ (b'B', strftime_go (codes "January"))
      ∷ (b'c', strftime_go (codes "Mon Jan _2 15:04:05 2006"))
      ∷ (b'C', strftime_c)
      ∷ (b'd', strftime_ld)
      ∷ (b'D', strftime_d)
      ∷ (b'e', strftime_le)
      ∷ (b'F', strftime_f)
      ∷ (b'g', strftime_ly)
      ∷ (b'G', strftime_y)
      ∷ (b'h', strftime_go (codes "Jan"))
      ∷ (b'H', strftime_h)
      ∷ (b'I', strftime_i)
      ∷ (b'j', strftime_lj)
      ∷ (b'k', strftime_lk)
      ∷ (b'l', strftime_ll)
      ∷ (b'm', strftime_lm)
      ∷ (b'M', strftime_m)
      ∷ (b'n', strftime_bytes (10 ∷ []))
      ∷ (b'p', strftime_go (codes "pm"))
      ∷ (b'P', strftime_go (codes "PM"))
      ∷ (b'r', strftime_lr)
      ∷ (b'R', strftime_r)
      ∷ (b's', strftime_ls)
      ∷ (b'S', strftime_s)
      ∷ (b't', strftime_bytes (9 ∷ []))
      ∷ (b'T', strftime_t)
      ∷ (b'u', strftime_lu)
      ∷ (b'U', strftime_u)
      ∷ (b'V', strftime_v)
      ∷ (b'w', strftime_lw)
      ∷ (b'W', strftime_w)
      ∷ (b'x', strftime_go (codes "01/02/06"))
      ∷ (b'X', strftime_go (codes "15:04:05"))
      ∷ (b'y', strftime_ly)
      ∷ (b'Y', strftime_y)
      ∷ (b'z', strftime_lz)
      ∷ (b'Z', strftime_go (codes "MST"))
      ∷ []

  -- The byte behind a percent sign.
  unfoldable pub directive : ℕ → StrftimeFunc
  directive c = elim (lookup_func c strftime_funcs) [
    | none ↦ strftime_bytes (c ∷ [])
    | some fn ↦ fn
  ]

  -- The loop of `NewStrftimeBytes`, on what is left of the format.
  unfoldable pub parse : ℕ → Bytes → List StrftimeFunc
  parse zero rest = []
  parse (suc fuel) rest = elim (index_byte rest b'%') [
    | none ↦ strftime_bytes rest ∷ []
    | some i ↦
        literal i rest
        ++ elim (drop (suc i) rest) [ [] ↦ [] | c ∷ rest' ↦ directive c ∷ parse fuel rest' ]
  ]

  unfoldable pub new_strftime_bytes : Bytes → List StrftimeFunc
  new_strftime_bytes format = parse (suc (length format)) format

unfoldable pub append_bytes : List StrftimeFunc → StrftimeFunc
append_bytes [] dst t = some dst
append_bytes (fn ∷ fns) dst t = do dst' ← fn dst t; append_bytes fns dst' t

unfoldable pub format_bytes : List StrftimeFunc → Time → Option Bytes
format_bytes fns t = append_bytes fns [] t
