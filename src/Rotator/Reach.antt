-- ===== src/Rotator/Reach.antt =====
-- pkg/logger/rotator.go: every order of handing out and closing shared rotators.
use fasthttpd.Base.{
  ℕ, ◌<◌, ◌≡◌, refl, inl, inr, List, [], ◌∷◌, ◌++◌, arith, ◌==◌, if◌then◌else◌, Bool-cases, length,
  Bytes,
}
use fasthttpd.Rotator.{Shared, shared_rotator, close}
use fasthttpd.Rotator.Laws.{count, named, IsShared, shared_rotator-IsShared}
use fasthttpd.Rotator.Closing.{count-middle, close-IsShared}

-- The start: no rotator was made.
abbrev pub nothing_shared : Shared
nothing_shared = record { counts = []; names = []; closed = [] }

-- The states that handing out and closing reach, with the rotators in use. One that is closed was
-- handed out before, and its user closes it once.
pub data Reach : Shared → List ℕ → Type 0 where
  start : Reach nothing_shared []
  hands_out :
      (output : Bytes) {s : Shared} {users : List ℕ}
      → Reach s users
      → Reach (shared_rotator output s).1 ((shared_rotator output s).0 ∷ users)
  closes :
      (r : ℕ) (before after : List ℕ) {s : Shared}
      → Reach s (before ++ r ∷ after)
      → Reach (close r s) (before ++ after)

used-named :
    (r : ℕ) (s : Shared) (before after : List ℕ)
    → IsShared s (before ++ r ∷ after)
    → 0 < count r (named s.names)
used-named r s before after v = elim (Bool-cases (count r (named s.names) == 0)) [
  | inl q ↦
      let z = v.unnamed r (ground arith) in
      absurd (ground (arith, count-middle r r before after, z))
  | inr q ↦ ground arith
]

Reach-IsShared : {s : Shared} {users : List ℕ} → Reach s users → IsShared s users
Reach-IsShared start = record {
  unique = λ r. omega arith;
  counted = λ r h. absurd (omega arith);
  unnamed = λ r h. refl;
  new = λ r h. (refl, refl);
  closed_unnamed = λ r h. refl;
  closed_once = λ r. omega arith;
  made = λ r h. absurd (omega arith);
}
Reach-IsShared (hands_out output {s} {users} p) =
    shared_rotator-IsShared output s users (Reach-IsShared p)
Reach-IsShared (closes r before after {s} p) =
    let v = Reach-IsShared p in close-IsShared r s before after v (used-named r s before after v)

open-not_closed :
    (r : ℕ) (s : Shared) (users : List ℕ)
    → IsShared s users
    → 0 < count r (named s.names)
    → count r s.closed ≡ 0
open-not_closed r s users v n = elim (Bool-cases (count r s.closed == 0)) [
  | inl q ↦ ground arith
  | inr q ↦ let z = v.closed_unnamed r (ground arith) in absurd (omega arith)
]

-- In whatever order rotators are handed out for outputs and closed by their users: a rotator that
-- was made is closed once if nobody uses it any more, and not at all as long as anyone does.
pub closed_count :
    (s : Shared) (users : List ℕ) (r : ℕ)
    → Reach s users
    → r < length s.counts
    → count r s.closed ≡ (if count r users == 0 then 1 else 0)
closed_count s users r p h =
    let v = Reach-IsShared p in
    elim (v.made r h) [
      | inl n ↦ let (_, used) = v.counted r n in ground (arith, open-not_closed r s users v n, used)
      | inr c ↦
          let gone = v.unnamed r (v.closed_unnamed r c) in rw gone (omega (arith, v.closed_once r))
    ]
