-- ===== src/Util/StringSet/Laws.antt =====
-- pkg/util/strings.go: what `Append` keeps of a set.
use fasthttpd.Base.{
  ◌≡◌, refl, inl, inr, false, ◌||◌, List, [], ◌∷◌, ◌++◌, arith, Bool-cases, All, All-append, Bytes,
  bytes_eq, eq_of_bytes_eq, contains,
}
use fasthttpd.Util.StringSet.{append}

-- No element stands twice.
abbrev pub IsDistinct : List Bytes → Type 0
IsDistinct [] = Unit
IsDistinct (x ∷ xs) = (contains xs x ≡ false) × IsDistinct xs

contains-append :
    (xs ys : List Bytes) (a : Bytes) → contains (xs ++ ys) a ≡ (contains xs a || contains ys a)
unfolding contains
contains-append [] ys a = refl
contains-append (x ∷ xs) ys a = ground (arith, contains-append xs ys a)

bytes_eq-sym : (a b : Bytes) → bytes_eq a b ≡ bytes_eq b a
bytes_eq-sym a b = elim (Bool-cases (bytes_eq a b)) [
  | inl e ↦ rw (eq_of_bytes_eq a b e)
  | inr e ↦ elim (Bool-cases (bytes_eq b a)) [ inl f ↦ rw (eq_of_bytes_eq b a f) | inr f ↦ cc ]
]

IsDistinct-snoc :
    (ss : List Bytes) (v : Bytes)
    → IsDistinct ss
    → contains ss v ≡ false
    → IsDistinct (ss ++ v ∷ [])
unfolding contains
IsDistinct-snoc [] v d h = (refl, tt)
IsDistinct-snoc (s ∷ ss) v d h = (
  ground (arith, contains-append ss (v ∷ []) s, bytes_eq-sym s v),
  IsDistinct-snoc ss v d.1 (ground arith),
)

-- Appending to a set without duplicates gives a set without duplicates, whatever is appended.
pub append-IsDistinct : (ss values : List Bytes) → IsDistinct ss → IsDistinct (append ss values)
unfolding append
append-IsDistinct ss [] d = d
append-IsDistinct ss (v ∷ values) d = elim (Bool-cases (contains ss v)) [
  | inl e ↦ rw e (append-IsDistinct ss values d)
  | inr e ↦ rw e (append-IsDistinct (ss ++ v ∷ []) values (IsDistinct-snoc ss v d e))
]

module _ (P : Bytes → Type 0) where
  pub append-All : (ss values : List Bytes) → All P ss → All P values → All P (append ss values)
  unfolding append
  append-All ss [] h k = h
  append-All ss (v ∷ values) h k = elim (Bool-cases (contains ss v)) [
    | inl e ↦ rw e (append-All ss values h k.1)
    | inr e ↦ rw e (append-All (ss ++ v ∷ []) values (All-append P ss (v ∷ []) h (k.0, tt)) k.1)
  ]
