-- ===== src/Grouping.antt =====
-- pkg/net/tls.go and pkg/cmd/fasthttpd.go: a map from strings to slices that values are appended to,
-- as the list of its entries in the order in which they came.
use fasthttpd.Base.{
  ◌≡◌, refl, sym, ap, ◌∙◌, inl, inr, Bool, true, false, ◌||◌, List, [], ◌∷◌, ◌++◌, if◌then◌else◌,
  Bool-cases, All, Bytes, bytes_eq, eq_of_bytes_eq, bytes_eq_refl, bytes_eq_of_eq,
}

-- `m[k] = append(m[k], a)`
unfoldable pub append_at {ℓ} :
    {A : Type ℓ} → Bytes → A → List (Bytes × List A) → List (Bytes × List A)
append_at k a [] = (k, a ∷ []) ∷ []
append_at k a ((j, vs) ∷ m) =
    if bytes_eq j k then (j, vs ++ a ∷ []) ∷ m else (j, vs) ∷ append_at k a m

-- `m[k]`
abbrev pub at {ℓ} : {A : Type ℓ} → Bytes → List (Bytes × List A) → List A
at k [] = []
at k ((j, vs) ∷ m) = if bytes_eq j k then vs else at k m

abbrev has_key {ℓ} : {A : Type ℓ} → Bytes → List (Bytes × A) → Bool
has_key k [] = false
has_key k ((j, a) ∷ m) = bytes_eq j k || has_key k m

abbrev pub IsDistinct {ℓ} : {A : Type ℓ} → List (Bytes × A) → Type 0
IsDistinct [] = Unit
IsDistinct ((k, a) ∷ m) = (has_key k m ≡ false) × IsDistinct m

bytes_eq_trans : (i j k : Bytes) → bytes_eq i j ≡ true → bytes_eq i k ≡ bytes_eq j k
bytes_eq_trans i j k h = ap (λ b. bytes_eq b k) (eq_of_bytes_eq i j h)

other_key : (i j k : Bytes) → bytes_eq i j ≡ false → bytes_eq i k ≡ true → bytes_eq j k ≡ false
other_key i j k h q = elim (Bool-cases (bytes_eq j k)) [
  | inr r ↦ r
  | inl r ↦ absurd (cc (h, ap (bytes_eq i) (eq_of_bytes_eq j k r), q))
]

pub at-append_at {ℓ} :
    {A : Type ℓ} (k j : Bytes) (a : A) (m : List (Bytes × List A))
    → at k (append_at j a m) ≡ (if bytes_eq j k then at k m ++ a ∷ [] else at k m)
unfolding append_at
at-append_at k j a [] = refl
at-append_at k j a ((i, vs) ∷ m) = elim (Bool-cases (bytes_eq i j)) [
  | inl h ↦ elim (Bool-cases (bytes_eq i k)) [
    | inl q ↦ rw (h, q, sym (bytes_eq_trans i j k h) ∙ q) refl
    | inr q ↦ rw (h, q, sym (bytes_eq_trans i j k h) ∙ q) refl
  ]
  | inr h ↦ elim (Bool-cases (bytes_eq i k)) [
    | inl q ↦ rw (h, q, other_key i j k h q) refl
    | inr q ↦ rw (h, q) (at-append_at k j a m)
  ]
]

or_same : (a b : Bool) → (a || (a || b)) ≡ (a || b)
or_same true b = refl
or_same false b = refl

or_swap : (a b c : Bool) → (a || (b || c)) ≡ (b || (a || c))
or_swap true true c = refl
or_swap true false c = refl
or_swap false b c = refl

has_key-append_at {ℓ} :
    {A : Type ℓ} (k j : Bytes) (a : A) (m : List (Bytes × List A))
    → has_key k (append_at j a m) ≡ (bytes_eq j k || has_key k m)
unfolding append_at
has_key-append_at k j a [] = refl
has_key-append_at k j a ((i, vs) ∷ m) = elim (Bool-cases (bytes_eq i j)) [
  | inl h ↦ rw (h, bytes_eq_trans i j k h) (sym (or_same (bytes_eq j k) (has_key k m)))
  | inr h ↦ rw (h, has_key-append_at k j a m) (or_swap (bytes_eq i k) (bytes_eq j k) (has_key k m))
]

pub bytes_eq_comm_false : (i j : Bytes) → bytes_eq i j ≡ false → bytes_eq j i ≡ false
bytes_eq_comm_false i j h = elim (Bool-cases (bytes_eq j i)) [
  | inr r ↦ r
  | inl r ↦ absurd (cc (h, sym (bytes_eq_of_eq i j (sym (eq_of_bytes_eq j i r)))))
]

pub append_at-IsDistinct {ℓ} :
    {A : Type ℓ} (j : Bytes) (a : A) (m : List (Bytes × List A))
    → IsDistinct m
    → IsDistinct (append_at j a m)
unfolding append_at
append_at-IsDistinct j a [] d = (refl, tt)
append_at-IsDistinct j a ((i, vs) ∷ m) (n, d) = elim (Bool-cases (bytes_eq i j)) [
  | inl h ↦ rw h (n, d)
  | inr h ↦ rw h (
    has_key-append_at i j a m ∙ rw (bytes_eq_comm_false i j h, n) refl,
    append_at-IsDistinct j a m d,
  )
]

-- Every entry of a map is what its key finds.
abbrev pub IsFound : {A : Type 0} → List (Bytes × List A) → Bytes × List A → Type 0
IsFound m (k, vs) = at k m ≡ vs

later-IsFound :
    {A : Type 0} (j : Bytes) (bs : List A) (m rest : List (Bytes × List A))
    → has_key j rest ≡ false
    → All (IsFound m) rest
    → All (IsFound ((j, bs) ∷ m)) rest
later-IsFound j bs m [] n f = tt
later-IsFound j bs m ((k, vs) ∷ rest) n (e, f) = elim (Bool-cases (bytes_eq j k)) [
  | inl h ↦ absurd (cc (rw (eq_of_bytes_eq j k h, bytes_eq_refl k) at n))
  | inr h ↦ (rw h e, later-IsFound j bs m rest (rw (bytes_eq_comm_false j k h) at n) f)
]

pub entries-IsFound : {A : Type 0} (m : List (Bytes × List A)) → IsDistinct m → All (IsFound m) m
entries-IsFound [] d = tt
entries-IsFound ((j, bs) ∷ m) (n, d) =
    (rw (bytes_eq_refl j) refl, later-IsFound j bs m m n (entries-IsFound m d))
