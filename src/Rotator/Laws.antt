-- ===== src/Rotator/Laws.antt =====
-- pkg/logger/rotator.go: a shared rotator is open as long as anyone uses it, and closed once.
use fasthttpd.Base.{
  ℕ, zero, suc, ◌+◌, ◌-◌, ◌≤◌, ◌<◌, ◌≡◌, refl, sym, ap, ◌∙◌, ◌⊎◌, inl, inr, true, false, some, List,
  [], ◌∷◌, ◌++◌, arith, ◌==◌, if◌then◌else◌, Bool-cases, Option-cases, eq_of_some, length,
  get_elem?, set, length-append, length-set, get_elem?-set, Bytes, bytes_eq, lookup, ℤ, pos,
}
use mathlib.Core.Path.{subst}
use fasthttpd.Rotator.{shared_rotator, share, Shared, remove_shared_rotator}

-- How often the number occurs.
abbrev pub count : ℕ → List ℕ → ℕ
count r [] = 0
count r (x ∷ xs) = if x == r then suc (count r xs) else count r xs

pub count-append : (r : ℕ) (xs ys : List ℕ) → count r (xs ++ ys) ≡ count r xs + count r ys
count-append r [] ys = omega arith
count-append r (x ∷ xs) ys = ground (arith, count-append r xs ys)

-- The rotators that have a name.
abbrev pub named : List (Bytes × ℕ) → List ℕ
named [] = []
named ((k, v) ∷ names) = v ∷ named names

-- `users` are the rotators that were handed out and are not closed by those who got them.
pub record IsShared (s : Shared) (users : List ℕ) : Type 0 where
  pub unique : (r : ℕ) → count r (named s.names) ≤ 1
  pub counted :
      (r : ℕ)
      → 0 < count r (named s.names)
      → (get_elem? s.counts r ≡ some (pos (count r users))) × (0 < count r users)
  pub unnamed : (r : ℕ) → count r (named s.names) ≡ 0 → count r users ≡ 0
  pub new : (r : ℕ) → length s.counts ≤ r → (count r (named s.names) ≡ 0) × (count r s.closed ≡ 0)
  pub closed_unnamed : (r : ℕ) → 0 < count r s.closed → count r (named s.names) ≡ 0
  pub closed_once : (r : ℕ) → count r s.closed ≤ 1
  pub made : (r : ℕ) → r < length s.counts → (0 < count r (named s.names)) ⊎ (0 < count r s.closed)

lookup-named :
    (k : Bytes) (names : List (Bytes × ℕ)) (r : ℕ)
    → lookup k names ≡ some r
    → 0 < count r (named names)
unfolding lookup
lookup-named k [] r e = cc
lookup-named k ((j, v) ∷ names) r e = elim (Bool-cases (bytes_eq j k)) [
  | inl h ↦ let same : v ≡ r = eq_of_some (rw h at e) in rw same (ground arith)
  | inr h ↦ ground (arith, lookup-named k names r (rw h at e))
]

pub count-remove :
    (r j : ℕ) (names : List (Bytes × ℕ))
    → count j (named (remove_shared_rotator r names))
      ≡ (if r == j then count j (named names) - 1 else count j (named names))
unfolding remove_shared_rotator
count-remove r j [] = ground arith
count-remove r j ((k, v) ∷ names) = ground (arith, count-remove r j names)

get_elem?-snoc :
    (xs : List ℤ) (v : ℤ) (i : ℕ)
    → get_elem? (xs ++ v ∷ []) i ≡ (if i == length xs then some v else get_elem? xs i)
get_elem?-snoc [] v zero = ground arith
get_elem?-snoc [] v (suc i) = ground arith
get_elem?-snoc (x ∷ xs) v zero = ground arith
get_elem?-snoc (x ∷ xs) v (suc i) = ground (arith, get_elem?-snoc xs v i)

pub get_elem?-length : (xs : List ℤ) (i : ℕ) {v : ℤ} → get_elem? xs i ≡ some v → i < length xs
get_elem?-length [] i e = cc
get_elem?-length (x ∷ xs) zero e = omega arith
get_elem?-length (x ∷ xs) (suc i) e = omega (arith, get_elem?-length xs i e)

pub eq_of_== : (a b : ℕ) → (a == b) ≡ true → a ≡ b
eq_of_== a b h = ground arith

count_other : (r j : ℕ) (xs : List ℕ) → (r == j) ≡ false → count j (r ∷ xs) ≡ count j xs
count_other r j xs h = rw h refl

count_same : (r : ℕ) (xs : List ℕ) → count r (r ∷ xs) ≡ suc (count r xs)
count_same r xs = ground arith

pub set_same : (xs : List ℤ) (r : ℕ) (v : ℤ) → r < length xs → get_elem? (set xs r v) r ≡ some v
set_same xs r v h = ground (arith, get_elem?-set xs r r v)

pub set_other :
    (xs : List ℤ) (r j : ℕ) (v : ℤ) → (r == j) ≡ false → get_elem? (set xs r v) j ≡ get_elem? xs j
set_other xs r j v h = ground (arith, get_elem?-set xs r j v)

share-IsShared :
    (r : ℕ) (s : Shared) (users : List ℕ)
    → IsShared s users
    → 0 < count r (named s.names)
    → IsShared (share r s) (r ∷ users)
unfolding share
share-IsShared r s users v n =
    let (e, some_users) = v.counted r n in
    let bound = get_elem?-length s.counts r e in
    rw (e, share)
      (record {
        unique = v.unique;
        counted = λ j k. elim (Bool-cases (r == j)) [
          | inl q ↦
              subst
                (λ m.
                  (get_elem? (set s.counts r (pos (suc (count r users)))) m
                    ≡ some (pos (count m (r ∷ users))))
                  × (0 < count m (r ∷ users)))
                (eq_of_== r j q)
                (
                  set_same s.counts r _ bound ∙ ap (λ m. some (pos m)) (sym (count_same r users)),
                  omega (arith, count_same r users),
                )
          | inr q ↦
              let (f, more) = v.counted j k in
              (
                set_other s.counts r j _ q
                    ∙ f
                    ∙ ap (λ m. some (pos m)) (sym (count_other r j users q)),
                omega (arith, count_other r j users q, more),
              )
        ];
        unnamed = λ j k. elim (Bool-cases (r == j)) [
          | inl q ↦
              let z : count r (named s.names) ≡ 0 =
                subst (λ m. count m (named s.names) ≡ 0) (sym (eq_of_== r j q)) k in
              absurd (omega arith)
          | inr q ↦ count_other r j users q ∙ v.unnamed j k
        ];
        new = λ j k. v.new j (omega (arith, length-set s.counts r (pos (suc (count r users)))));
        closed_unnamed = v.closed_unnamed;
        closed_once = v.closed_once;
        made = λ j k. v.made j (omega (arith, length-set s.counts r (pos (suc (count r users)))));
      })

new-IsShared :
    (output : Bytes) (s : Shared) (users : List ℕ)
    → IsShared s users
    → IsShared
        (record s { counts = s.counts ++ pos 1 ∷ []; names = (output, length s.counts) ∷ s.names })
        (length s.counts ∷ users)
new-IsShared output s users v =
    let n = length s.counts in
    let (fresh, not_closed) = v.new n (omega arith) in
    let free = v.unnamed n fresh in
    record {
      unique = λ j. elim (Bool-cases (n == j)) [
        | inl q ↦
            subst (λ m. count m (n ∷ named s.names) ≤ 1) (eq_of_== n j q)
              (omega (arith, count_same n (named s.names), fresh))
        | inr q ↦ omega (arith, count_other n j (named s.names) q, v.unique j)
      ];
      counted = λ j k. elim (Bool-cases (n == j)) [
        | inl q ↦
            subst
              (λ m.
                (get_elem? (s.counts ++ pos 1 ∷ []) m ≡ some (pos (count m (n ∷ users))))
                × (0 < count m (n ∷ users)))
              (eq_of_== n j q)
              (
                ground (arith, get_elem?-snoc s.counts (pos 1) n, count_same n users, free),
                omega (arith, count_same n users),
              )
        | inr q ↦
            let (f, more) = v.counted j (omega (arith, count_other n j (named s.names) q)) in
            (
              ground (arith, get_elem?-snoc s.counts (pos 1) j, count_other n j users q, f),
              omega (arith, count_other n j users q, more),
            )
      ];
      unnamed = λ j k. elim (Bool-cases (n == j)) [
        | inl q ↦ absurd (ground arith)
        | inr q ↦
            count_other n j users q ∙ v.unnamed j (omega (arith, count_other n j (named s.names) q))
      ];
      new = λ j k.
          let past : n < j = omega (arith, length-append s.counts (pos 1 ∷ [])) in
          let (a, b) = v.new j (omega arith) in (ground arith, b);
      closed_unnamed = λ j k. elim (Bool-cases (n == j)) [
        | inl q ↦
            let z : count j s.closed ≡ 0 =
              subst (λ m. count m s.closed ≡ 0) (eq_of_== n j q) not_closed in
            absurd (omega arith)
        | inr q ↦ count_other n j (named s.names) q ∙ v.closed_unnamed j k
      ];
      closed_once = v.closed_once;
      made = λ j k. elim (Bool-cases (n == j)) [
        | inl q ↦ inl (
            subst (λ m. 0 < count m (n ∷ named s.names)) (eq_of_== n j q)
              (omega (arith, count_same n (named s.names))))
        | inr q ↦ elim (v.made j (ground (arith, length-append s.counts (pos 1 ∷ [])))) [
          | inl a ↦ inl (omega (arith, count_other n j (named s.names) q))
          | inr a ↦ inr a
        ]
      ];
    }

-- Handing out a rotator for an output, new or shared.
pub shared_rotator-IsShared :
    (output : Bytes) (s : Shared) (users : List ℕ)
    → IsShared s users
    → IsShared (shared_rotator output s).1 ((shared_rotator output s).0 ∷ users)
unfolding shared_rotator
shared_rotator-IsShared output s users v = elim (Option-cases (lookup output s.names)) [
  | inl e ↦ rw (e, shared_rotator) (new-IsShared output s users v)
  | inr (r, e) ↦
      rw (e, shared_rotator) (share-IsShared r s users v (lookup-named output s.names r e))
]
