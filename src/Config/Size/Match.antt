-- ===== src/Config/Size/Match.antt =====
-- pkg/config/config.go: the pattern of sizes takes every spelling of a unit.
use fasthttpd.Base.{
  ℕ, ◌≡◌, refl, ◌∙◌, Bool, true, false, some, [], ◌∷◌, ◌++◌, append-nil, arith, All, Bytes, codes,
}
use fasthttpd.Config.Size.{
  is_space, is_unit, is_i, is_b, skip_spaces, optional, match_tail, match_unit,
}

pub data Scale : Type 0 where
  plain kilo mega giga : Scale

-- The letter and the factor of a scale.
abbrev pub letter : Scale → Bytes
letter plain = []
letter kilo = codes "K"
letter mega = codes "M"
letter giga = codes "G"

abbrev pub factor : Scale → ℕ
factor plain = 1
factor kilo = 1024
factor mega = 1048576
factor giga = 1073741824

abbrev pub when_set : Bool → Bytes → Bytes
when_set true s = s
when_set false s = []

-- The spelling of a scale, with or without an I and a B.
abbrev pub spelling : Scale → Bool → Bool → Bytes
spelling u i b = letter u ++ when_set i (codes "I") ++ when_set b (codes "B")

abbrev pub IsSpace : ℕ → Type 0
IsSpace c = is_space c ≡ true

-- The first byte, if there is one, does not pass the test.
abbrev pub Avoids : (ℕ → Bool) → Bytes → Type 0
Avoids p [] = Unit
Avoids p (c ∷ s) = p c ≡ false

optional-Avoids : (p : ℕ → Bool) (s : Bytes) → Avoids p s → optional p s ≡ ([], s)
unfolding optional
optional-Avoids p [] h = refl
optional-Avoids p (c ∷ s) h = rw h refl

space-Avoids-unit : (r : Bytes) → All IsSpace r → Avoids is_unit r
space-Avoids-unit [] h = tt
space-Avoids-unit (c ∷ r) h = let e = h.0 in ground arith

space-Avoids-i : (r : Bytes) → All IsSpace r → Avoids is_i r
space-Avoids-i [] h = tt
space-Avoids-i (c ∷ r) h = let e = h.0 in ground arith

space-Avoids-b : (r : Bytes) → All IsSpace r → Avoids is_b r
space-Avoids-b [] h = tt
space-Avoids-b (c ∷ r) h = let e = h.0 in ground arith

pub skip_spaces-append : (l s : Bytes) → All IsSpace l → skip_spaces (l ++ s) ≡ skip_spaces s
unfolding skip_spaces
skip_spaces-append [] s h = refl
skip_spaces-append (c ∷ l) s h = rw h.0 (skip_spaces-append l s h.1)

skip_spaces-All : (r : Bytes) → All IsSpace r → skip_spaces r ≡ []
unfolding skip_spaces
skip_spaces-All r h = rw (← append-nil r) (skip_spaces-append r [] h)

optional-takes : (p : ℕ → Bool) (c : ℕ) (s : Bytes) → p c ≡ true → optional p (c ∷ s) ≡ (c ∷ [], s)
unfolding optional
optional-takes p c s h = rw h refl

match_tail-spelled :
    (i b : Bool) (r : Bytes)
    → All IsSpace r
    → match_tail ((when_set i (codes "I") ++ when_set b (codes "B")) ++ r) ≡ true
unfolding match_tail
match_tail-spelled true true r h =
    rw
      (
        optional-takes is_i b'I' (b'B' ∷ r) refl,
        optional-takes is_b b'B' r refl,
        skip_spaces-All r h,
        match_tail,
      )
      refl
match_tail-spelled true false r h =
    rw
      (
        optional-takes is_i b'I' r refl,
        optional-Avoids is_b r (space-Avoids-b r h),
        skip_spaces-All r h,
        match_tail,
      )
      refl
match_tail-spelled false true r h =
    rw
      (
        optional-Avoids is_i (b'B' ∷ r) refl,
        optional-takes is_b b'B' r refl,
        skip_spaces-All r h,
        match_tail,
      )
      refl
match_tail-spelled false false r h =
    rw
      (
        optional-Avoids is_i r (space-Avoids-i r h),
        optional-Avoids is_b r (space-Avoids-b r h),
        skip_spaces-All r h,
        match_tail,
      )
      refl

-- Behind the spaces before a unit: there is none, or a letter comes first.
tail-skipped :
    (i b : Bool) (r : Bytes)
    → All IsSpace r
    → (rest : Bytes) × (skip_spaces ((when_set i (codes "I") ++ when_set b (codes "B")) ++ r)
        ≡ rest)
      × Avoids is_unit rest
      × (match_tail rest ≡ true)
unfolding skip_spaces
tail-skipped true true r h = (_, refl, refl, match_tail-spelled true true r h)
tail-skipped true false r h = (_, refl, refl, match_tail-spelled true false r h)
tail-skipped false true r h = (_, refl, refl, match_tail-spelled false true r h)
tail-skipped false false r h = ([], skip_spaces-All r h, tt, match_tail-spelled false false [] tt)

pub skip_spaces-kept : (c : ℕ) (s : Bytes) → is_space c ≡ false → skip_spaces (c ∷ s) ≡ c ∷ s
unfolding skip_spaces
skip_spaces-kept c s h = rw h refl

match_unit-letter :
    (c : ℕ) (i b : Bool) (m r : Bytes)
    → is_unit c ≡ true
    → is_space c ≡ false
    → All IsSpace m
    → All IsSpace r
    → match_unit (m ++ (c ∷ (when_set i (codes "I") ++ when_set b (codes "B")) ++ r))
      ≡ some (c ∷ [])
unfolding match_unit
match_unit-letter c i b m r u n hm hr =
    let rest = (when_set i (codes "I") ++ when_set b (codes "B")) ++ r in
    let skipped : skip_spaces (m ++ c ∷ rest) ≡ c ∷ rest =
      skip_spaces-append m (c ∷ rest) hm ∙ skip_spaces-kept c rest n in
    rw (skipped, optional-takes is_unit c rest u, match_tail-spelled i b r hr, match_unit) refl

match_unit-plain :
    (i b : Bool) (m r : Bytes)
    → All IsSpace m
    → All IsSpace r
    → match_unit (m ++ ((when_set i (codes "I") ++ when_set b (codes "B")) ++ r)) ≡ some []
unfolding match_unit
match_unit-plain i b m r hm hr =
    let (rest, e, a, t) = tail-skipped i b r hr in
    let skipped =
      skip_spaces-append m ((when_set i (codes "I") ++ when_set b (codes "B")) ++ r) hm ∙ e in
    rw (skipped, optional-Avoids is_unit rest a, t, match_unit) refl

-- The unit behind the digits.
pub match_unit-spelled :
    (u : Scale) (i b : Bool) (m r : Bytes)
    → All IsSpace m
    → All IsSpace r
    → match_unit (m ++ (spelling u i b ++ r)) ≡ some (letter u)
match_unit-spelled plain i b m r hm hr = match_unit-plain i b m r hm hr
match_unit-spelled kilo i b m r hm hr = match_unit-letter b'K' i b m r refl refl hm hr
match_unit-spelled mega i b m r hm hr = match_unit-letter b'M' i b m r refl refl hm hr
match_unit-spelled giga i b m r hm hr = match_unit-letter b'G' i b m r refl refl hm hr
