-- ===== src/Config/Size/Digits.antt =====
-- pkg/config/config.go: the digits before a unit, and the whole pattern.
use mathlib.Core.Path.{subst}
use fasthttpd.Base.{
  if_cases, ℕ, zero, suc, ◌-◌, ◌*◌, ◌/◌, ◌≡◌, refl, sym, ap, ◌∙◌, Bool, true, false, some, [], ◌∷◌,
  ◌++◌, arith, ltb, is_nil, All, All-append, Bytes,
}
use fasthttpd.Util.Padding.{digit}
use fasthttpd.Util.Padding.Digits.{decimal}
use fasthttpd.Config.Size.{is_digit, skip_spaces, span_digits, match_size}
use fasthttpd.Config.Size.Match.{
  plain, kilo, mega, giga, Scale, letter, spelling, IsSpace, Avoids, skip_spaces-append,
  skip_spaces-kept, match_unit-spelled,
}

abbrev IsDigit : ℕ → Type 0
IsDigit c = is_digit c ≡ true

decimal-IsDigit : (fuel n : ℕ) → All IsDigit (decimal fuel n)
unfolding decimal
decimal-IsDigit zero n = tt
decimal-IsDigit (suc fuel) n =
    if_cases (All IsDigit) (ltb n 10) _ _ (λ s. (ground arith, tt))
      λ s.
        All-append IsDigit (decimal fuel (n / 10)) (digit (n - n / 10 * 10) ∷ [])
          (decimal-IsDigit fuel (n / 10)) (ground arith, tt)

span_digits-append :
    (ds s : Bytes) → All IsDigit ds → Avoids is_digit s → span_digits (ds ++ s) ≡ (ds, s)
unfolding span_digits
span_digits-append [] [] h a = refl
span_digits-append [] (c ∷ s) h a = rw a refl
span_digits-append (d ∷ ds) s h a = rw (span_digits-append ds s h.1 a, h.0, span_digits) refl

-- Nothing behind the digits is a digit.
unit-Avoids-digit :
    (u : Scale) (i b : Bool) (m r : Bytes)
    → All IsSpace m
    → All IsSpace r
    → Avoids is_digit (m ++ (spelling u i b ++ r))
unit-Avoids-digit u i b (c ∷ m) r hm hr = let e = hm.0 in ground arith
unit-Avoids-digit kilo i b [] r hm hr = refl
unit-Avoids-digit mega i b [] r hm hr = refl
unit-Avoids-digit giga i b [] r hm hr = refl
unit-Avoids-digit plain true b [] r hm hr = refl
unit-Avoids-digit plain false true [] r hm hr = refl
unit-Avoids-digit plain false false [] [] hm hr = tt
unit-Avoids-digit plain false false [] (c ∷ r) hm hr = let e = hr.0 in ground arith

-- A number has a first digit, which is no space.
decimal-head : (fuel n : ℕ) → (c : ℕ) × (s : Bytes) × (decimal (suc fuel) n ≡ c ∷ s)
unfolding decimal
decimal-head zero n =
    if_cases (λ x. (c : ℕ) × (s : Bytes) × (x ≡ c ∷ s)) (ltb n 10) _ _ (λ h. (_, _, refl))
      (λ h. (_, _, refl))
decimal-head (suc fuel) n =
    if_cases (λ x. (c : ℕ) × (s : Bytes) × (x ≡ c ∷ s)) (ltb n 10) _ _ (λ h. (_, _, refl))
      λ h.
        let (c, s, e) = decimal-head fuel (n / 10) in
        (c, s ++ digit (n - n / 10 * 10) ∷ [], rw e refl)

pub match_size-spelled :
    (l m r : Bytes) (n : ℕ) (u : Scale) (i b : Bool)
    → All IsSpace l
    → All IsSpace m
    → All IsSpace r
    → match_size (l ++ (decimal 20 n ++ (m ++ (spelling u i b ++ r))))
      ≡ some (decimal 20 n, letter u)
unfolding match_size
match_size-spelled l m r n u i b hl hm hr =
    let rest = m ++ (spelling u i b ++ r) in
    let (c, s, e) = decimal-head 19 n in
    let digits = decimal-IsDigit 20 n in
    let first : IsDigit c = (subst (All IsDigit) e digits).0 in
    let skipped : skip_spaces (l ++ (decimal 20 n ++ rest)) ≡ decimal 20 n ++ rest =
      skip_spaces-append l (decimal 20 n ++ rest) hl
      ∙ subst (λ ds. skip_spaces (ds ++ rest) ≡ ds ++ rest) (sym e)
          (skip_spaces-kept c (s ++ rest) (ground arith)) in
    rw
      (
        skipped,
        span_digits-append (decimal 20 n) rest digits (unit-Avoids-digit u i b m r hm hr),
        subst (λ ds. is_nil ds ≡ false) (sym e) refl,
        match_unit-spelled u i b m r hm hr,
        match_size,
      )
      (ap (λ (p : Bytes × Bytes). some (p.0, letter u))
        (ap span_digits skipped
          ∙ span_digits-append (decimal 20 n) rest digits (unit-Avoids-digit u i b m r hm hr)))
