-- ===== src/Util/Cache/Store.antt =====
-- pkg/util/cache.go: the Go map `store`, as an association list in the order of insertion.
use fasthttpd.Base.{
  ℕ, suc, ◌≤◌, ◌≡◌, refl, inl, inr, Bool, Option, none, some, List, [], ◌∷◌, ◌++◌, arith, ◌==◌,
  if◌then◌else◌, Bool-cases, is_some, length, All,
}
use mathlib.Core.List.{Perm, perm_middle}
use mathlib.Core.List.Perm

module _ {E : Type 0} where
  unfoldable pub lookup_key : ℕ → List (ℕ × E) → Option E
  lookup_key k [] = none
  lookup_key k ((j, v) ∷ m) = if j == k then some v else lookup_key k m

  unfoldable pub put_key : ℕ → E → List (ℕ × E) → List (ℕ × E)
  put_key k v [] = (k, v) ∷ []
  put_key k v ((j, w) ∷ m) = if j == k then (k, v) ∷ m else (j, w) ∷ put_key k v m

  unfoldable pub delete_key : ℕ → List (ℕ × E) → List (ℕ × E)
  delete_key k [] = []
  delete_key k ((j, w) ∷ m) = if j == k then m else (j, w) ∷ delete_key k m

  -- The entries that fail the test, and those that pass it.
  unfoldable pub keep : (E → Bool) → List (ℕ × E) → List (ℕ × E)
  keep test [] = []
  keep test ((j, w) ∷ m) = if test w then keep test m else (j, w) ∷ keep test m

  unfoldable pub split_off : (E → Bool) → List (ℕ × E) → List (ℕ × E)
  split_off test [] = []
  split_off test ((j, w) ∷ m) = if test w then (j, w) ∷ split_off test m else split_off test m

  -- No key stands twice.
  abbrev pub HasDistinctKeys : List (ℕ × E) → Type 0
  HasDistinctKeys [] = Unit
  HasDistinctKeys ((k, v) ∷ m) = (lookup_key k m ≡ none) × HasDistinctKeys m

  pub lookup-put :
      (k j : ℕ) (v : E) (m : List (ℕ × E))
      → lookup_key j (put_key k v m) ≡ (if k == j then some v else lookup_key j m)
  unfolding lookup_key put_key
  lookup-put k j v [] = refl
  lookup-put k j v ((i, w) ∷ m) = ground (arith, lookup-put k j v m)

  pub put-HasDistinctKeys :
      (k : ℕ) (v : E) (m : List (ℕ × E)) → HasDistinctKeys m → HasDistinctKeys (put_key k v m)
  unfolding lookup_key put_key
  put-HasDistinctKeys k v [] d = (refl, tt)
  put-HasDistinctKeys k v ((i, w) ∷ m) d = elim (Bool-cases (i == k)) [
    | inl e ↦ rw e (let s : i ≡ k = ground arith in rw (← s) d)
    | inr e ↦ rw e (ground (arith, lookup-put k i v m), put-HasDistinctKeys k v m d.1)
  ]

  pub length-put :
      (k : ℕ) (v : E) (m : List (ℕ × E))
      → length (put_key k v m) ≡ (if is_some (lookup_key k m) then length m else suc (length m))
  unfolding lookup_key put_key
  length-put k v [] = refl
  length-put k v ((i, w) ∷ m) = ground (arith, length-put k v m)

  pub lookup-delete :
      (k j : ℕ) (m : List (ℕ × E))
      → HasDistinctKeys m
      → lookup_key j (delete_key k m) ≡ (if k == j then none else lookup_key j m)
  unfolding lookup_key delete_key
  lookup-delete k j [] d = ground arith
  lookup-delete k j ((i, w) ∷ m) d = ground (arith, lookup-delete k j m d.1, d.0)

  pub delete-HasDistinctKeys :
      (k : ℕ) (m : List (ℕ × E)) → HasDistinctKeys m → HasDistinctKeys (delete_key k m)
  unfolding lookup_key delete_key
  delete-HasDistinctKeys k [] d = tt
  delete-HasDistinctKeys k ((i, w) ∷ m) d = elim (Bool-cases (i == k)) [
    | inl e ↦ rw e d.1
    | inr e ↦ rw e (ground (arith, lookup-delete k i m d.1, d.0), delete-HasDistinctKeys k m d.1)
  ]

  pub length-delete-le : (k : ℕ) (m : List (ℕ × E)) → length (delete_key k m) ≤ length m
  unfolding delete_key
  length-delete-le k [] = omega arith
  length-delete-le k ((i, w) ∷ m) = ground (arith, length-delete-le k m)

  module _ (test : E → Bool) where
    abbrev pub unless : Option E → Option E
    unless none = none
    unless (some v) = if test v then none else some v

    pub lookup-keep-none :
        (j : ℕ) (m : List (ℕ × E)) → lookup_key j m ≡ none → lookup_key j (keep test m) ≡ none
    unfolding lookup_key keep
    lookup-keep-none j [] h = refl
    lookup-keep-none j ((i, w) ∷ m) h = ground (arith, lookup-keep-none j m)

    pub lookup-keep :
        (j : ℕ) (m : List (ℕ × E))
        → HasDistinctKeys m
        → lookup_key j (keep test m) ≡ unless (lookup_key j m)
    unfolding lookup_key keep
    lookup-keep j [] d = refl
    lookup-keep j ((i, w) ∷ m) d = ground (arith, lookup-keep j m d.1, lookup-keep-none j m, d.0)

    pub keep-HasDistinctKeys :
        (m : List (ℕ × E)) → HasDistinctKeys m → HasDistinctKeys (keep test m)
    unfolding keep
    keep-HasDistinctKeys [] d = tt
    keep-HasDistinctKeys ((i, w) ∷ m) d = elim (Bool-cases (test w)) [
      | inl e ↦ rw e (keep-HasDistinctKeys m d.1)
      | inr e ↦ rw e (lookup-keep-none i m d.0, keep-HasDistinctKeys m d.1)
    ]

    pub length-keep-le : (m : List (ℕ × E)) → length (keep test m) ≤ length m
    unfolding keep
    length-keep-le [] = omega arith
    length-keep-le ((i, w) ∷ m) = ground (arith, length-keep-le m)

    pub split_off-keep-perm : (m : List (ℕ × E)) → Perm (split_off test m ++ keep test m) m
    unfolding split_off keep
    split_off-keep-perm [] = Perm.refl []
    split_off-keep-perm ((i, w) ∷ m) = elim (Bool-cases (test w)) [
      | inl e ↦ rw e (Perm.cons (i, w) (split_off-keep-perm m))
      | inr e ↦ rw e (
          Perm.trans (perm_middle (split_off test m) (keep test m))
            (Perm.cons (i, w) (split_off-keep-perm m)))
    ]

  -- A property of every entry.
  module _ (Q : ℕ × E → Type 0) where
    pub All-lookup :
        (k : ℕ) (m : List (ℕ × E)) {v : E} → All Q m → lookup_key k m ≡ some v → Q (k, v)
    unfolding lookup_key
    All-lookup k [] h e = cc
    All-lookup k ((i, w) ∷ m) {v} h e = elim (Bool-cases (i == k)) [
      | inl s ↦
          let same : i ≡ k = ground arith in
          let found : w ≡ v = ground arith in rw (← same, ← found) h.0
      | inr s ↦ All-lookup k m h.1 (ground arith)
    ]

    pub All-put : (k : ℕ) (v : E) (m : List (ℕ × E)) → Q (k, v) → All Q m → All Q (put_key k v m)
    unfolding put_key
    All-put k v [] q h = (q, tt)
    All-put k v ((i, w) ∷ m) q h = elim (Bool-cases (i == k)) [
      | inl s ↦ rw s (q, h.1)
      | inr s ↦ rw s (h.0, All-put k v m q h.1)
    ]

    pub All-keep : (test : E → Bool) (m : List (ℕ × E)) → All Q m → All Q (keep test m)
    unfolding keep
    All-keep test [] h = tt
    All-keep test ((i, w) ∷ m) h = elim (Bool-cases (test w)) [
      | inl s ↦ rw s (All-keep test m h.1)
      | inr s ↦ rw s (h.0, All-keep test m h.1)
    ]
