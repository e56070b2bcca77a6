-- ===== src/Rotator/Closing.antt =====
-- pkg/logger/rotator.go: closing a shared rotator.
use fasthttpd.Base.{
  ℕ, suc, ◌≤◌, ◌<◌, ◌≡◌, refl, ap, ◌∙◌, inl, inr, true, false, some, List, [], ◌∷◌, ◌++◌, arith,
  ◌==◌, if◌then◌else◌, Bool-cases, length, get_elem?, set, length-set, ℤ, pos, is_positive,
}
use mathlib.Core.Path.{subst}
use fasthttpd.Rotator.{close, close_at, Shared, remove_shared_rotator}
use fasthttpd.Rotator.Laws.{
  count, count-append, named, IsShared, count-remove, get_elem?-length, set_same, set_other,
  eq_of_==,
}

-- `before ++ r ∷ after` are the users before one of them closes the rotator.
pub count-middle :
    (r j : ℕ) (before after : List ℕ)
    → count j (before ++ r ∷ after)
      ≡ (if r == j then suc (count j (before ++ after)) else count j (before ++ after))
count-middle r j before after =
    ground (arith, count-append j before (r ∷ after), count-append j before after)

is_positive-pos : (n : ℕ) → is_positive (pos n) ≡ true → 0 < n
is_positive-pos n h = ground arith

count_snoc :
    (r j : ℕ) (xs : List ℕ)
    → count j (xs ++ r ∷ []) ≡ (if r == j then suc (count j xs) else count j xs)
count_snoc r j xs = ground (arith, count-append j xs (r ∷ []))

module _ (r : ℕ) (s : Shared) (before after : List ℕ) (v : IsShared s (before ++ r ∷ after))
    (n : 0 < count r (named s.names)) where
  -- The count of any other rotator stays.
  other-counted :
      (j : ℕ) (c : ℤ)
      → (r == j) ≡ false
      → 0 < count j (named s.names)
      → (get_elem? (set s.counts r c) j ≡ some (pos (count j (before ++ after))))
        × (0 < count j (before ++ after))
  other-counted j c q k =
      let (f, more) = v.counted j k in
      let same : count j (before ++ r ∷ after) ≡ count j (before ++ after) =
        count-middle r j before after ∙ rw q refl in
      (set_other s.counts r j c q ∙ f ∙ ap (λ m. some (pos m)) same, omega (arith, same, more))

  less-unnamed : (j : ℕ) → count j (named s.names) ≡ 0 → count j (before ++ after) ≡ 0
  less-unnamed j k = ground (arith, count-middle r j before after, v.unnamed j k)

  bound : r < length s.counts
  bound = get_elem?-length s.counts r (v.counted r n).0

  stays-IsShared :
      0 < count r (before ++ after)
      → IsShared
          (record s { counts = set s.counts r (pos (count r (before ++ after))) })
          (before ++ after)
  stays-IsShared p = record {
    unique = v.unique;
    counted = λ j k. elim (Bool-cases (r == j)) [
      | inl q ↦
          subst
            (λ m.
              (get_elem? (set s.counts r (pos (count r (before ++ after)))) m
                ≡ some (pos (count m (before ++ after))))
              × (0 < count m (before ++ after)))
            (eq_of_== r j q) (set_same s.counts r _ bound, p)
      | inr q ↦ other-counted j _ q k
    ];
    unnamed = less-unnamed;
    new = λ j k. v.new j (omega (arith, length-set s.counts r (pos (count r (before ++ after)))));
    closed_unnamed = v.closed_unnamed;
    closed_once = v.closed_once;
    made = λ j k. v.made j (omega (arith, length-set s.counts r (pos (count r (before ++ after)))));
  }

  removed-none : count r (named (remove_shared_rotator r s.names)) ≡ 0
  removed-none = ground (arith, count-remove r r s.names, v.unique r)

  not-closed : count r s.closed ≡ 0
  not-closed = elim (Bool-cases (count r s.closed == 0)) [
    | inl q ↦ eq_of_== (count r s.closed) 0 q
    | inr q ↦ let z = v.closed_unnamed r (ground arith) in absurd (omega arith)
  ]

  other-removed :
      (j : ℕ)
      → (r == j) ≡ false
      → count j (named (remove_shared_rotator r s.names)) ≡ count j (named s.names)
  other-removed j q = count-remove r j s.names ∙ rw q refl

  goes-IsShared :
      count r (before ++ after) ≡ 0
      → IsShared
          (record {
            counts = set s.counts r (pos (count r (before ++ after)));
            names = remove_shared_rotator r s.names;
            closed = s.closed ++ r ∷ [];
          })
          (before ++ after)
  goes-IsShared p = record {
    unique = λ j. ground (arith, count-remove r j s.names, v.unique j);
    counted = λ j k. elim (Bool-cases (r == j)) [
      | inl q ↦
          let z =
            subst (λ m. count m (named (remove_shared_rotator r s.names)) ≡ 0) (eq_of_== r j q)
              removed-none in
          absurd (omega arith)
      | inr q ↦ other-counted j _ q (omega (arith, other-removed j q))
    ];
    unnamed = λ j k. elim (Bool-cases (r == j)) [
      | inl q ↦ subst (λ m. count m (before ++ after) ≡ 0) (eq_of_== r j q) p
      | inr q ↦ less-unnamed j (omega (arith, other-removed j q))
    ];
    new = λ j k.
        let past : length s.counts ≤ j =
          omega (arith, length-set s.counts r (pos (count r (before ++ after)))) in
        let (a, b) = v.new j past in
        (ground (arith, count-remove r j s.names), ground (arith, count_snoc r j s.closed, bound));
    closed_unnamed = λ j k. elim (Bool-cases (r == j)) [
      | inl q ↦
          subst (λ m. count m (named (remove_shared_rotator r s.names)) ≡ 0) (eq_of_== r j q)
            removed-none
      | inr q ↦ other-removed j q ∙ v.closed_unnamed j (ground (arith, count_snoc r j s.closed))
    ];
    closed_once = λ j. elim (Bool-cases (r == j)) [
      | inl q ↦
          subst (λ m. count m (s.closed ++ r ∷ []) ≤ 1) (eq_of_== r j q)
            (ground (arith, count_snoc r r s.closed, not-closed))
      | inr q ↦ ground (arith, count_snoc r j s.closed, v.closed_once j)
    ];
    made = λ j k. elim (Bool-cases (r == j)) [
      | inl q ↦ inr (
          subst (λ m. 0 < count m (s.closed ++ r ∷ [])) (eq_of_== r j q)
            (ground (arith, count_snoc r r s.closed)))
      | inr q ↦
          elim (v.made j (omega (arith, length-set s.counts r (pos (count r (before ++ after)))))) [
            | inl a ↦ inl (omega (arith, other-removed j q))
            | inr a ↦ inr (ground (arith, count_snoc r j s.closed))
          ]
    ];
  }

  pub close-IsShared : IsShared (close r s) (before ++ after)
  unfolding close close_at
  close-IsShared =
      let (e, _) = v.counted r n in
      let less : count r (before ++ r ∷ after) ≡ suc (count r (before ++ after)) =
        count-middle r r before after ∙ ground arith in
      rw (e, close, less)
        (elim (Bool-cases (is_positive (pos (count r (before ++ after))))) [
          | inl p ↦ rw p (stays-IsShared (is_positive-pos _ p))
          | inr p ↦ rw p (goes-IsShared (ground arith))
        ])
