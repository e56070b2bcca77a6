-- ===== src/Config/Edit/Completed.antt =====
-- pkg/config/load.go: completed expressions stay as they are.
use mathlib.Core.Path.{subst}
use fasthttpd.Base.{
  if_cases, ◌≡◌, refl, sym, ap, ◌∙◌, inl, inr, true, false, none, some, [], ◌∷◌, ◌++◌, ◌==◌,
  Bool-cases, Option-cases, eq_of_some, All, Bytes, codes, has_prefix,
}
use fasthttpd.Config.Edit.{split_equals, complete_left, is_literal, complete_right, complete}

-- No equals sign.
abbrev NoEquals : Bytes → Type 0
NoEquals = All (λ c. (c == b'=') ≡ false)

split_equals-append : (l r : Bytes) → NoEquals l → split_equals (l ++ b'=' ∷ r) ≡ some (l, r)
unfolding split_equals
split_equals-append [] r h = refl
split_equals-append (c ∷ l) r h = rw (split_equals-append l r h.1, h.0, split_equals) refl

split_equals-NoEquals : (s l r : Bytes) → split_equals s ≡ some (l, r) → NoEquals l
unfolding split_equals
split_equals-NoEquals [] l r e = cc
split_equals-NoEquals (c ∷ s) l r e = elim (Bool-cases (c == b'=')) [
  | inl q ↦
      let p = eq_of_some (rw (q, split_equals) at e) in
      subst (λ (x : Bytes × Bytes). NoEquals x.0) p tt
  | inr q ↦ elim (Option-cases (split_equals s)) [
    | inl n ↦ cc (rw (q, n, split_equals) at e)
    | inr ((l', r'), n) ↦
        let p = eq_of_some (rw (q, n, split_equals) at e) in
        subst (λ (x : Bytes × Bytes). NoEquals x.0) p (q, split_equals-NoEquals s l' r' n)
  ]
]

complete_left-NoEquals : (l : Bytes) → NoEquals l → NoEquals (complete_left l)
unfolding complete_left
complete_left-NoEquals l h =
    if_cases NoEquals (has_prefix l (codes ".[")) _ _ (λ e. h)
      λ e.
        if_cases NoEquals (has_prefix l (codes ".")) _ _ (λ d. (refl, (refl, (refl, h))))
          λ d. (refl, (refl, (refl, (refl, h))))

-- The completed left side targets documents.
complete_left-targets : (l : Bytes) → has_prefix (complete_left l) (codes ".[") ≡ true
unfolding complete_left has_prefix
complete_left-targets l =
    if_cases (λ x. has_prefix x (codes ".[") ≡ true) (has_prefix l (codes ".[")) _ _ (λ e. e)
      λ e.
        if_cases (λ x. has_prefix x (codes ".[") ≡ true) (has_prefix l (codes ".")) _ _ (λ d. refl)
          λ d. refl

complete_left-targeted : (x : Bytes) → has_prefix x (codes ".[") ≡ true → complete_left x ≡ x
unfolding complete_left
complete_left-targeted x e = rw e refl

starts : (l : Bytes) → has_prefix (codes ".[]." ++ l) (codes ".[") ≡ true
unfolding has_prefix
starts l = refl

complete_left-plain :
    (l : Bytes) → has_prefix l (codes ".") ≡ false → complete_left l ≡ codes ".[]." ++ l
unfolding complete_left has_prefix
complete_left-plain [] d = refl
complete_left-plain (c ∷ l) d = elim (Bool-cases (c == b'.')) [
  | inl e ↦ cc (rw (e, has_prefix) at d)
  | inr e ↦ rw (e, complete_left, has_prefix) refl
]

complete_left-dotted :
    (l : Bytes) → has_prefix l (codes "[") ≡ false → complete_left (b'.' ∷ l) ≡ codes ".[]." ++ l
unfolding complete_left has_prefix
complete_left-dotted l b = rw (b, complete_left, has_prefix) refl

is_literal-quoted : (x : Bytes) → has_prefix x (b'"' ∷ []) ≡ true → is_literal x ≡ true
unfolding is_literal
is_literal-quoted x e = rw e refl

module _ (quote : Bytes → Bytes)
    (quotes : (s : Bytes) → has_prefix (quote s) (b'"' ∷ []) ≡ true) where
  complete_right-is_literal : (r : Bytes) → is_literal (complete_right quote r) ≡ true
  unfolding complete_right
  complete_right-is_literal r =
      if_cases (λ x. is_literal x ≡ true) (is_literal r) _ _ (λ e. e)
        (λ e. is_literal-quoted (quote r) (quotes r))

  complete_right-literal : (x : Bytes) → is_literal x ≡ true → complete_right quote x ≡ x
  unfolding complete_right
  complete_right-literal x e = rw e refl

  complete-none : (expr : Bytes) → split_equals expr ≡ none → complete quote expr ≡ expr
  unfolding complete
  complete-none expr e = rw (e, complete) refl

  complete-some :
      (expr l r : Bytes)
      → split_equals expr ≡ some (l, r)
      → complete quote expr ≡ complete_left l ++ b'=' ∷ complete_right quote r
  unfolding complete
  complete-some expr l r e = rw (e, complete) refl

  complete_idem : (expr : Bytes) → complete quote (complete quote expr) ≡ complete quote expr
  complete_idem expr = elim (Option-cases (split_equals expr)) [
    | inl e ↦ ap (complete quote) (complete-none expr e)
    | inr ((l, r), e) ↦
        let whole = complete-some expr l r e in
        ap (complete quote) whole
        ∙ complete-some (complete_left l ++ b'=' ∷ complete_right quote r) (complete_left l)
            (complete_right quote r)
            (split_equals-append (complete_left l) (complete_right quote r)
              (complete_left-NoEquals l (split_equals-NoEquals expr l r e)))
        ∙ ap (λ x. x ++ b'=' ∷ complete_right quote (complete_right quote r))
            (complete_left-targeted (complete_left l) (complete_left-targets l))
        ∙ ap (λ x. complete_left l ++ b'=' ∷ x)
            (complete_right-literal (complete_right quote r) (complete_right-is_literal r))
        ∙ sym whole
  ]

  complete_equals :
      (l r : Bytes)
      → NoEquals l
      → complete quote (l ++ b'=' ∷ r) ≡ complete_left l ++ b'=' ∷ complete_right quote r
  complete_equals l r n = complete-some (l ++ b'=' ∷ r) l r (split_equals-append l r n)

  -- A path that begins with no dot and no bracket, and a value: written as it is, behind a dot, and
  -- behind `.[].`, it is the same expression when it is completed, the last of the three with the
  -- value or its quotation, and completing that again changes nothing; where quoting begins with a
  -- quote.
  pub complete_spellings :
      (l r : Bytes)
      → NoEquals l
      → has_prefix l (codes ".") ≡ false
      → has_prefix l (codes "[") ≡ false
      → (complete quote (l ++ b'=' ∷ r) ≡ codes ".[]." ++ l ++ b'=' ∷ complete_right quote r)
        × (complete quote (codes "." ++ l ++ b'=' ∷ r) ≡ complete quote (l ++ b'=' ∷ r))
        × (complete quote (codes ".[]." ++ l ++ b'=' ∷ r) ≡ complete quote (l ++ b'=' ∷ r))
        × (complete quote (complete quote (l ++ b'=' ∷ r)) ≡ complete quote (l ++ b'=' ∷ r))
        × (is_literal (complete_right quote r) ≡ true)
  unfolding complete_left
  complete_spellings l r n d b =
      let plain : complete_left l ≡ codes ".[]." ++ l = complete_left-plain l d in
      let dotted : complete_left (b'.' ∷ l) ≡ codes ".[]." ++ l = complete_left-dotted l b in
      let value : Bytes → Bytes = λ x. x ++ b'=' ∷ complete_right quote r in
      let whole = complete_equals l r n ∙ ap value plain in
      (
        whole,
        complete_equals (b'.' ∷ l) r (refl, n) ∙ ap value dotted ∙ sym whole,
        complete_equals (codes ".[]." ++ l) r (refl, (refl, (refl, (refl, n))))
            ∙ ap value (complete_left-targeted (codes ".[]." ++ l) (starts l))
            ∙ sym whole,
        complete_idem (l ++ b'=' ∷ r),
        complete_right-is_literal r,
      )
