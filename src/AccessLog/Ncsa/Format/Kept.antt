-- ===== src/AccessLog/Ncsa/Format/Kept.antt =====
-- pkg/logger/accesslog/ncsa.go: what the matches of the pattern keep of a format.
use mathlib.Core.Path.{subst}
use fasthttpd.Base.{
  if_cases, ℕ, zero, suc, ◌≤◌, ◌≡◌, refl, sym, ap, ◌∙◌, inl, inr, true, some, [], ◌∷◌, ◌++◌,
  append_assoc, arith, ◌==◌, if◌then◌else◌, ==_iff, Bool-cases, Option-cases, eq_of_some,
  length-append, Bytes,
}
use fasthttpd.AccessLog.Ncsa.Format.{
  List, length, Submatch, is_key, key_of, ends_name, braced, match_directive, text_run, find_all,
  find_all_submatch,
}

key_of-eq : (s : Bytes) (k : ℕ) (rest : Bytes) → key_of s ≡ some (k, rest) → s ≡ k ∷ rest
unfolding key_of
key_of-eq [] k rest h = cc
key_of-eq (c ∷ s) k rest h = ground arith

ends_name-eq :
    (name : Bytes) (c : ℕ) (s : Bytes) (k : ℕ) (rest : Bytes)
    → ends_name name c s ≡ some (k, rest)
    → c ∷ s ≡ b'}' ∷ k ∷ rest
unfolding ends_name
ends_name-eq name c s k rest h = ground (arith, key_of-eq s k rest)

-- A match of a name, with its brace and key, and the rest are all of the text.
braced-eq :
    (name s n : Bytes) (k : ℕ) (rest : Bytes)
    → braced name s ≡ some (n, k, rest)
    → name ++ s ≡ n ++ b'}' ∷ k ∷ rest
unfolding braced
braced-eq name [] n k rest h = cc
braced-eq name (c ∷ s) n k rest h = elim (Option-cases (ends_name name c s)) [
  | inr ((j, r), e) ↦
      let found : some (name, j, r) ≡ some (n, k, rest) = rw (e, braced) at h in
      let eq = ends_name-eq name c s j r e in
      let pair = eq_of_some found in
      ap (λ t. name ++ t) eq ∙ ap (λ (t : Bytes × ℕ × Bytes). t.0 ++ b'}' ∷ t.1 ∷ t.2) pair
  | inl e ↦ elim (Bool-cases (c == 10)) [
    | inl newline ↦ cc (rw (e, newline, braced) at h)
    | inr other ↦
        sym (append_assoc name (c ∷ []) s)
        ∙ braced-eq (name ++ c ∷ []) s n k rest (rw (e, other, braced) at h)
  ]
]

-- A match begins with the percent sign, and the rest of it and what follows are the text.
abbrev IsSplit : Bytes → Submatch × Bytes → Type 0
IsSplit s (m, rest) = (t : Bytes) × (m.whole ≡ b'%' ∷ t) × (t ++ rest ≡ s)

match_directive-IsSplit :
    (s : Bytes) (r : Submatch × Bytes) → match_directive s ≡ some r → IsSplit s r
unfolding match_directive
match_directive-IsSplit [] r h = cc
match_directive-IsSplit (c ∷ s) r h = elim (Bool-cases (c == b'>')) [
  | inl gt ↦ elim (Option-cases (key_of s)) [
    | inl e ↦ cc (rw (gt, e, match_directive) at h)
    | inr ((k, rest), e) ↦
        subst (IsSplit (c ∷ s)) (eq_of_some (rw (gt, e, match_directive) at h))
          (b'>' ∷ k ∷ [], refl, rw (key_of-eq s k rest e, (==_iff c b'>').0 gt) refl)
  ]
  | inr gt ↦ elim (Bool-cases (c == b'{')) [
    | inl brace ↦ elim (Option-cases (braced [] s)) [
      | inl e ↦ cc (rw (gt, brace, e, match_directive) at h)
      | inr ((n, k, rest), e) ↦
          subst (IsSplit (c ∷ s)) (eq_of_some (rw (gt, brace, e, match_directive) at h)) (
            b'{' ∷ n ++ b'}' ∷ k ∷ [],
            refl,
            ap (λ t. b'{' ∷ t)
                  (append_assoc n (b'}' ∷ k ∷ []) rest ∙ sym (braced-eq [] s n k rest e))
                ∙ ap (λ x. x ∷ s) (sym ((==_iff c b'{').0 brace)),
          )
    ]
    | inr brace ↦ elim (Bool-cases (is_key c)) [
      | inl key ↦
          subst (IsSplit (c ∷ s)) (eq_of_some (rw (gt, brace, key, match_directive) at h))
            (c ∷ [], refl, refl)
      | inr key ↦ cc (rw (gt, brace, key, match_directive) at h)
    ]
  ]
]

-- The bytes that are no percent signs.
unfoldable pub without_percent : Bytes → Bytes
without_percent [] = []
without_percent (c ∷ s) = if c == b'%' then without_percent s else c ∷ without_percent s

-- The matched texts in a row.
unfoldable pub wholes : List Submatch → Bytes
wholes [] = []
wholes (m ∷ ms) = m.whole ++ wholes ms

without_percent-append :
    (xs ys : Bytes) → without_percent (xs ++ ys) ≡ without_percent xs ++ without_percent ys
unfolding without_percent
without_percent-append [] ys = refl
without_percent-append (x ∷ xs) ys = ground (arith, without_percent-append xs ys)

text_run-eq : (s : Bytes) → (text_run s).0 ++ (text_run s).1 ≡ s
unfolding text_run
text_run-eq [] = refl
text_run-eq (c ∷ s) = ground (arith, text_run-eq s)

percent_dropped :
    (c : ℕ) (s : Bytes) → (c == b'%') ≡ true → without_percent (c ∷ s) ≡ without_percent s
unfolding without_percent
percent_dropped c s h = rw h refl

-- What a match adds.
split-kept :
    (s : Bytes) (m : Submatch) (rest : Bytes)
    → IsSplit s (m, rest)
    → without_percent m.whole ++ without_percent rest ≡ without_percent s
split-kept s m rest (t, w, e) =
    ap (λ (x : Bytes). without_percent x ++ without_percent rest) w
    ∙ ap (λ x. x ++ without_percent rest) (percent_dropped b'%' t refl)
    ∙ sym (without_percent-append t rest)
    ∙ ap without_percent e

find_all-kept :
    (fuel : ℕ) (s : Bytes)
    → length s ≤ fuel
    → without_percent (wholes (find_all fuel s)) ≡ without_percent s
unfolding find_all wholes
find_all-kept zero [] h = refl
find_all-kept zero (c ∷ s) h = absurd (omega arith)
find_all-kept (suc fuel) [] h = refl
find_all-kept (suc fuel) (c ∷ s) h =
    let (run, rest) = text_run s in
    if_cases (λ ms. without_percent (wholes ms) ≡ without_percent (c ∷ s)) (c == b'%') _ _
      (λ sign. elim (Option-cases (match_directive s)) [
        | inl e ↦ rw e (find_all-kept fuel s (omega arith) ∙ sym (percent_dropped c s sign))
        | inr ((m, r), e) ↦
            let split = match_directive-IsSplit s (m, r) e in
            let (t, _, eq) = split in
            rw e (
              without_percent-append m.whole (wholes (find_all fuel r))
              ∙ ap (λ x. without_percent m.whole ++ x)
                  (find_all-kept fuel r
                    (omega (arith, ap (λ (x : Bytes). length x) eq, length-append t r)))
              ∙ split-kept s m r split
              ∙ sym (percent_dropped c s sign))
      ])
      λ text.
        without_percent-append (c ∷ run) (wholes (find_all fuel rest))
        ∙ ap (λ x. without_percent (c ∷ run) ++ x)
            (find_all-kept fuel rest
              (omega (arith, ap (λ (x : Bytes). length x) (text_run-eq s), length-append run rest)))
        ∙ sym (without_percent-append (c ∷ run) rest)
        ∙ ap (λ x. without_percent (c ∷ x)) (text_run-eq s)

-- The matches of a format hold all of its bytes in order, but for percent signs.
pub find_all_submatch-kept :
    (format : Bytes) → without_percent (wholes (find_all_submatch format)) ≡ without_percent format
unfolding find_all_submatch
find_all_submatch-kept format = find_all-kept (length format) format (omega arith)
