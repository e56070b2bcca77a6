-- ===== src/Handler/Content/Laws.antt =====
-- pkg/handler/content.go: which content a request gets.
use fasthttpd.Base.{
  ℕ, zero, suc, ◌+◌, ◌≤◌, ◌<◌, ◌≡◌, refl, sym, ap, ◌∙◌, inl, inr, Bool, true, false, some, List, [],
  ◌∷◌, ◌++◌, append-nil, arith, leb, if◌then◌else◌, Bool-cases, Option-cases, eq_of_some, drop,
  Bytes, codes, bytes_eq, eq_of_bytes_eq, bytes_eq_of_eq, has_prefix, ℤ, pos, negsuc,
}
use fasthttpd.FastHttp.{FastHttp}
use fasthttpd.Handler.Content.{
  ConditionKind, cond_none, cond_path, cond_query, cond_percentage, query_matches, ContentResponse,
  ContentCondition, split_header, percentage_holds, write_to, holds, handle_conditions, handle,
}

-- The number of the first `n` naturals on which the test holds.
abbrev pub count_below : ℕ → (ℕ → Bool) → ℕ
count_below zero f = 0
count_below (suc n) f = if f n then suc (count_below n f) else count_below n f

count_below-percentage_holds :
    (n p : ℕ) → count_below n (percentage_holds (pos p)) ≡ (if leb n (suc p) then n else suc p)
unfolding percentage_holds
count_below-percentage_holds zero p = ground arith
count_below-percentage_holds (suc n) p = ground (arith, count_below-percentage_holds n p)

count_below-above : (n p : ℕ) → suc p ≤ n → count_below n (percentage_holds (pos p)) ≡ suc p
count_below-above n p h = ground (arith, count_below-percentage_holds n p)

-- A percentage below 100 is met by one more of the 100 values that a draw can have than it says.
pub percentage_holds-count : (p : ℕ) → p < 100 → count_below 100 (percentage_holds (pos p)) ≡ suc p
percentage_holds-count p h = count_below-above 100 p (omega arith)

has_prefix-two : (s : Bytes) (a b : ℕ) → has_prefix s (a ∷ b ∷ []) ≡ true → s ≡ a ∷ b ∷ drop 2 s
unfolding has_prefix
has_prefix-two [] a b h = cc
has_prefix-two (c ∷ []) a b h = absurd (ground arith)
has_prefix-two (c ∷ d ∷ s) a b h = ground arith

-- A header that is split is the name, the separator and the value.
pub split_header_lossless :
    (s k v : Bytes) → split_header s ≡ some (k, v) → s ≡ k ++ b':' ∷ b' ' ∷ v
unfolding split_header
split_header_lossless [] k v e = cc
split_header_lossless (c ∷ s) k v e = elim (Bool-cases (has_prefix (c ∷ s) (codes ": "))) [
  | inl h ↦
      let same = eq_of_some (rw h at e) in
      let name : k ≡ [] = ap (λ x. x.0) (sym same) in
      let value : v ≡ drop 1 s = ap (λ x. x.1) (sym same) in
      rw (name, value) (has_prefix-two (c ∷ s) b':' b' ' h)
  | inr h ↦ elim (Option-cases (split_header s)) [
    | inl n ↦ absurd (ground arith)
    | inr ((k', v'), n) ↦
        let ih = split_header_lossless s k' v' n in
        let name : k ≡ c ∷ k' = ground arith in
        let value : v ≡ v' = ground arith in rw (name, value) (ap (λ l. c ∷ l) ih)
  ]
]

-- A draw that a percentage meets; a negative one is met by none.
abbrev pub IsWithin : ℤ → ℕ → Type 0
IsWithin (pos p) draw = draw ≤ p
IsWithin (negsuc p) draw = ⊥

percentage_holds-true : (z : ℤ) (n : ℕ) → percentage_holds z n ≡ true → IsWithin z n
unfolding percentage_holds
percentage_holds-true (pos p) n h = ground arith
percentage_holds-true (negsuc p) n h = cc

percentage_holds-of : (z : ℤ) (n : ℕ) → IsWithin z n → percentage_holds z n ≡ true
unfolding percentage_holds
percentage_holds-of (pos p) n h = ground arith
percentage_holds-of (negsuc p) n h = absurd h

-- How many draws a condition takes.
abbrev pub draws_of : ConditionKind → ℕ
draws_of cond_none = 0
draws_of (cond_path p) = 0
draws_of (cond_query qs) = 0
draws_of (cond_percentage z) = 1

module _ {Ctx : Type 0} (http : FastHttp Ctx) (peek_arg : Ctx → Bytes → Bytes) where
  -- Every argument of the condition has its value.
  abbrev pub HasArgs : List (Bytes × Bytes) → Ctx → Type 0
  HasArgs [] ctx = Unit
  HasArgs ((k, v) ∷ qs) ctx = (peek_arg ctx k ≡ v) × HasArgs qs ctx

  -- What a condition asks of a request and of a draw.
  abbrev pub Meets : ConditionKind → ℕ → Ctx → Type 0
  Meets cond_none draw ctx = ⊥
  Meets (cond_path p) draw ctx = http.path ctx ≡ p
  Meets (cond_query qs) draw ctx = HasArgs qs ctx
  Meets (cond_percentage z) draw ctx = IsWithin z draw

  query_matches-true :
      (qs : List (Bytes × Bytes)) (ctx : Ctx)
      → query_matches http peek_arg qs ctx ≡ true
      → HasArgs qs ctx
  unfolding query_matches
  query_matches-true [] ctx h = tt
  query_matches-true ((k, v) ∷ qs) ctx h = elim (Bool-cases (bytes_eq (peek_arg ctx k) v)) [
    | inl e ↦ (eq_of_bytes_eq _ _ e, query_matches-true qs ctx (rw e at h))
    | inr e ↦ cc (rw e at h)
  ]

  query_matches-of :
      (qs : List (Bytes × Bytes)) (ctx : Ctx)
      → HasArgs qs ctx
      → query_matches http peek_arg qs ctx ≡ true
  unfolding query_matches
  query_matches-of [] ctx h = refl
  query_matches-of ((k, v) ∷ qs) ctx (e, h) =
      rw (bytes_eq_of_eq _ _ e, query_matches) (query_matches-of qs ctx h)

  holds-Meets :
      (c : ConditionKind) (n : ℕ) (ctx : Ctx)
      → (holds http peek_arg c n ctx).0 ≡ true
      → Meets c n ctx
  unfolding holds
  holds-Meets cond_none n ctx h = cc
  holds-Meets (cond_path p) n ctx h = eq_of_bytes_eq _ _ h
  holds-Meets (cond_query qs) n ctx h = query_matches-true qs ctx h
  holds-Meets (cond_percentage z) n ctx h = percentage_holds-true z n h

  Meets-holds :
      (c : ConditionKind) (n : ℕ) (ctx : Ctx)
      → Meets c n ctx
      → holds http peek_arg c n ctx ≡ (true, draws_of c)
  unfolding holds
  Meets-holds cond_none n ctx h = absurd h
  Meets-holds (cond_path p) n ctx h = ap (λ b. (b, 0)) (bytes_eq_of_eq _ _ h)
  Meets-holds (cond_query qs) n ctx h = ap (λ b. (b, 0)) (query_matches-of qs ctx h)
  Meets-holds (cond_percentage z) n ctx h = ap (λ b. (b, 1)) (percentage_holds-of z n h)

  holds-draws :
      (c : ConditionKind) (n : ℕ) (ctx : Ctx) → (holds http peek_arg c n ctx).1 ≡ draws_of c
  unfolding holds
  holds-draws cond_none n ctx = refl
  holds-draws (cond_path p) n ctx = refl
  holds-draws (cond_query qs) n ctx = refl
  holds-draws (cond_percentage z) n ctx = refl

  misses-holds :
      (c : ConditionKind) (n : ℕ) (ctx : Ctx)
      → ¬ Meets c n ctx
      → (holds http peek_arg c n ctx).0 ≡ false
  misses-holds c n ctx m = elim (Bool-cases (holds http peek_arg c n ctx).0) [
    | inl e ↦ absurd (m (holds-Meets c n ctx e))
    | inr e ↦ e
  ]

  -- The number of the next draw behind the conditions.
  abbrev pub next_draw : List ContentCondition → ℕ → ℕ
  next_draw [] i = i
  next_draw (c ∷ cs) i = next_draw cs (i + draws_of c.kind)

  -- The request meets none of the conditions, each with the draw that it takes.
  abbrev pub AreMissed : List ContentCondition → (ℕ → ℕ) → ℕ → Ctx → Type 0
  AreMissed [] draws i ctx = Unit
  AreMissed (c ∷ cs) draws i ctx =
      (¬ Meets c.kind (draws i) ctx) × AreMissed cs draws (i + draws_of c.kind) ctx

  handle_conditions-append :
      (xs ys : List ContentCondition) (default : ContentResponse) (draws : ℕ → ℕ) (i : ℕ)
      (ctx : Ctx)
      → AreMissed xs draws i ctx
      → handle_conditions http peek_arg (xs ++ ys) default draws i ctx
        ≡ handle_conditions http peek_arg ys default draws (next_draw xs i) ctx
  unfolding handle_conditions
  handle_conditions-append [] ys default draws i ctx m = refl
  handle_conditions-append (x ∷ xs) ys default draws i ctx m =
      rw
        (misses-holds x.kind (draws i) ctx m.0, holds-draws x.kind (draws i) ctx, handle_conditions)
        (handle_conditions-append xs ys default draws _ ctx m.1)

  -- Where a request meets none of the first conditions: it gets the default response if there are
  -- no others, and the response of the next condition if it meets that one, whatever conditions
  -- stand behind it. A request meets a path if it has it, arguments if it has their values, and a
  -- percentage if the draw is at most that; only a percentage takes a draw.
  pub handle_first_condition :
      (xs ys : List ContentCondition) (default : ContentResponse) (c : ContentCondition)
      (draws : ℕ → ℕ) (ctx : Ctx)
      → AreMissed xs draws 0 ctx
      → Meets c.kind (draws (next_draw xs 0)) ctx
      → (handle http peek_arg (record { default_response = default; conditions = xs }) draws ctx
          ≡ write_to http peek_arg default ctx)
        × (handle http peek_arg
              (record { default_response = default; conditions = xs ++ c ∷ ys })
              draws
              ctx
            ≡ write_to http peek_arg c.response ctx)
  unfolding handle handle_conditions
  handle_first_condition xs ys default c draws ctx m h = (
    ap (λ l. handle_conditions http peek_arg l default draws 0 ctx) (sym (append-nil xs))
        ∙ handle_conditions-append xs [] default draws 0 ctx m,
    handle_conditions-append xs (c ∷ ys) default draws 0 ctx m
        ∙ rw (Meets-holds c.kind (draws (next_draw xs 0)) ctx h, handle_conditions) refl,
  )
