-- ===== src/Rotator.antt =====
-- pkg/logger/rotator.go: rotators that are shared by the outputs' names. A rotator is the place of
-- its count in the list of all that were made.
pub mod Laws
pub mod Closing
pub mod Reach
mod Tests
use fasthttpd.Base.{
  ℕ, zero, suc, ◌+◌, ◌-◌, ◌/◌, Bool, not, none, some, List, [], ◌∷◌, ◌++◌, ◌==◌, if◌then◌else◌,
  length, get_elem?, set, is_nil, Bytes, codes, bytes_eq, lookup, ℤ, pos, negsuc, is_positive, neg,
}

pub record Shared : Type 0 where
  -- `shared`, by rotator
  pub counts : List ℤ
  -- `sharedRotators`
  pub names : List (Bytes × ℕ)
  -- the rotators whose own `Close` was called, in order
  pub closed : List ℕ

-- `r.shared++` and `r.shared--`
abbrev pub inc : ℤ → ℤ
inc (pos n) = pos (suc n)
inc (negsuc zero) = pos zero
inc (negsuc (suc n)) = negsuc n

abbrev pub dec : ℤ → ℤ
dec (pos zero) = negsuc zero
dec (pos (suc n)) = pos n
dec (negsuc n) = negsuc (suc n)

unfoldable pub share : ℕ → Shared → Shared
share r s = elim (get_elem? s.counts r) [
  | none ↦ s
  | some c ↦ record s { counts = set s.counts r (inc c) }
]

-- `SharedRotator`: the rotator, and the state behind it.
unfoldable pub shared_rotator : Bytes → Shared → ℕ × Shared
shared_rotator output s = elim (lookup output s.names) [
  | some r ↦ (r, share r s)
  | none ↦ (
    length s.counts,
    record s { counts = s.counts ++ pos 1 ∷ []; names = (output, length s.counts) ∷ s.names },
  )
]

-- `removeSharedRotator`: the first name of the rotator is deleted.
unfoldable pub remove_shared_rotator : ℕ → List (Bytes × ℕ) → List (Bytes × ℕ)
remove_shared_rotator r [] = []
remove_shared_rotator r ((k, v) ∷ names) =
    if v == r then names else (k, v) ∷ remove_shared_rotator r names

-- `Close`, with the count that is left.
unfoldable pub close_at : ℤ → ℕ → Shared → Shared
close_at c r s =
    let s' = record s { counts = set s.counts r c } in
    if is_positive c
    then s'
    else record s' { names = remove_shared_rotator r s.names; closed = s.closed ++ r ∷ [] }

unfoldable pub close : ℕ → Shared → Shared
close r s = elim (get_elem? s.counts r) [ none ↦ s | some c ↦ close_at (dec c) r s ]

-- `RotateShared`, where `Rotate` of a rotator fails or not: the rotators that it calls, and those
-- whose errors it joins.
unfoldable pub rotate_shared : (ℕ → Bool) → List (Bytes × ℕ) → List ℕ × List ℕ
rotate_shared fails [] = ([], [])
rotate_shared fails ((k, r) ∷ names) =
    let (called, errs) = rotate_shared fails names in
    (r ∷ called, if fails r then r ∷ errs else errs)

-- `NewRotator`: discarded output, the standard streams, or a file of lumberjack with the settings.
pub data NewRotator (Rotation : Type 0) : Type 0 where
  discards : NewRotator Rotation
  standard_output : NewRotator Rotation
  standard_error : NewRotator Rotation
  rotates_file : Bytes → Rotation → NewRotator Rotation

unfoldable pub new_rotator : {Rotation : Type 0} → Bytes → Rotation → NewRotator Rotation
new_rotator output cfg =
    if is_nil output
    then discards
    else if bytes_eq output (codes "stdout")
    then standard_output
    else if bytes_eq output (codes "stderr")
    then standard_error
    else rotates_file output cfg
