-- ===== src/AccessLog/Writer/Laws.antt =====
-- pkg/logger/accesslog/accesslog.go: what is in the files and in the buffer after each operation.
use mathlib.Core.Path.{subst}
use fasthttpd.Base.{
  if_cases, ℕ, zero, suc, ◌-◌, ◌≡◌, refl, sym, ap, ◌∙◌, Bool, true, false, List, [], ◌∷◌, ◌++◌,
  append_assoc, append-nil, leb, length, take, drop, is_nil, Bytes,
}
use fasthttpd.AccessLog.Writer.{
  Outcome, takes_all, fails_after, Out, AccessLog, out_write, flush_out, flush, direct, write_rest,
  write, rotate_out, rotate, close,
}

-- The files from the first to the last.
abbrev pub joined : List Bytes → Bytes
joined [] = []
joined (f ∷ fs) = f ++ joined fs

abbrev pub in_files : Out → Bytes
in_files o = joined o.rotated ++ o.current

-- The lines `text` were logged: without an error they are in the files and the buffer, and after
-- one the files hold the first of them.
abbrev pub Holds : Bool → Bytes → Bytes → Bytes → Type 0
Holds true files buffered text = (rest : Bytes) × (files ++ rest ≡ text)
Holds false files buffered text = files ++ buffered ≡ text

abbrev pub Keeps : Bytes → AccessLog → Type 0
Keeps text l = Holds l.failed (in_files l.rotator) l.buffered text

take-append-drop : (n : ℕ) (xs : Bytes) → take n xs ++ drop n xs ≡ xs
take-append-drop zero xs = refl
take-append-drop (suc n) [] = refl
take-append-drop (suc n) (x ∷ xs) = ap (λ r. x ∷ r) (take-append-drop n xs)

-- What a write of `p` adds to the files.
abbrev taken : Bool → ℕ → Bytes → Bytes
taken true n p = take n p
taken false n p = p

abbrev Wrote : Bytes → Out → Out × ℕ × Bool → Type 0
Wrote p o (o', n, e) = in_files o' ≡ in_files o ++ taken e n p

out_write-Wrote : (p : Bytes) (o : Out) → Wrote p o (out_write p o)
unfolding out_write
out_write-Wrote p o = outcome o.outcomes
  where
    outcome :
        (os : List Outcome)
        → Wrote p o (elim os [
          | [] ↦ (record o { current = o.current ++ p }, length p, false)
          | takes_all ∷ os' ↦
              (record o { current = o.current ++ p; outcomes = os' }, length p, false)
          | fails_after n ∷ os' ↦
              (record o { current = o.current ++ take n p; outcomes = os' }, n, true)
        ])
    outcome [] = sym (append_assoc (joined o.rotated) o.current p)
    outcome (takes_all ∷ os) = sym (append_assoc (joined o.rotated) o.current p)
    outcome (fails_after n ∷ os) = sym (append_assoc (joined o.rotated) o.current (take n p))

flush_out-Keeps :
    (text : Bytes) (l : AccessLog) (r : Out × ℕ × Bool)
    → in_files l.rotator ++ l.buffered ≡ text
    → Wrote l.buffered l.rotator r
    → Keeps text (flush_out r l)
unfolding flush_out
flush_out-Keeps text l (o, n, true) h w = (
  drop n l.buffered,
  rw w (
      append_assoc (in_files l.rotator) (take n l.buffered) (drop n l.buffered)
      ∙ ap (λ b. in_files l.rotator ++ b) (take-append-drop n l.buffered)
      ∙ h),
)
flush_out-Keeps text l (o, n, false) h w = append-nil (in_files o) ∙ w ∙ h

-- `Keeps` at the two values of `failed`.
Keeps-open :
    (text : Bytes) (l : AccessLog)
    → l.failed ≡ false
    → Keeps text l
    → in_files l.rotator ++ l.buffered ≡ text
Keeps-open text l f h = subst (λ b. Holds b (in_files l.rotator) l.buffered text) f h

open-Keeps :
    (text : Bytes) (l : AccessLog)
    → l.failed ≡ false
    → in_files l.rotator ++ l.buffered ≡ text
    → Keeps text l
open-Keeps text l f h = subst (λ b. Holds b (in_files l.rotator) l.buffered text) (sym f) h

pub flush-Keeps : (text : Bytes) (l : AccessLog) → Keeps text l → Keeps text (flush l)
unfolding flush
flush-Keeps text l h =
    if_cases (Keeps text) l.failed _ _ (λ f. h)
      λ f.
        if_cases (Keeps text) (is_nil l.buffered) _ _ (λ n. h)
          λ n.
            flush_out-Keeps text l (out_write l.buffered l.rotator) (Keeps-open text l f h)
              (out_write-Wrote l.buffered l.rotator)

-- A log with an error keeps what it has, also of a longer text.
failed-Keeps :
    (text p : Bytes) (l : AccessLog) → l.failed ≡ true → Keeps text l → Keeps (text ++ p) l
failed-Keeps text p l f h =
    let (rest, e) = subst (λ b. Holds b (in_files l.rotator) l.buffered text) f h in
    subst (λ b. Holds b (in_files l.rotator) l.buffered (text ++ p)) (sym f)
      (rest ++ p, sym (append_assoc (in_files l.rotator) rest p) ∙ ap (λ t. t ++ p) e)

direct-Keeps :
    (text p : Bytes) (l : AccessLog) (r : Out × ℕ × Bool)
    → in_files l.rotator ≡ text
    → l.buffered ≡ []
    → Wrote p l.rotator r
    → Keeps (text ++ p) (direct r l)
unfolding direct
direct-Keeps text p l (o, n, true) h b w = (
  drop n p,
  rw w (
      append_assoc (in_files l.rotator) (take n p) (drop n p)
      ∙ ap (λ t. in_files l.rotator ++ t) (take-append-drop n p)
      ∙ ap (λ t. t ++ p) h),
)
direct-Keeps text p l (o, n, false) h b w =
    ap (λ t. in_files o ++ t) b ∙ append-nil (in_files o) ∙ w ∙ ap (λ t. t ++ p) h

abbrev IsEmptied : AccessLog → Type 0
IsEmptied l = l.failed ≡ false → l.buffered ≡ []

pub eq_of_is_nil : (b : Bytes) → is_nil b ≡ true → b ≡ []
eq_of_is_nil [] n = refl
eq_of_is_nil (c ∷ b) n = cc

flush_out-IsEmptied : (r : Out × ℕ × Bool) (l : AccessLog) → IsEmptied (flush_out r l)
unfolding flush_out
flush_out-IsEmptied (o, n, true) l g = cc
flush_out-IsEmptied (o, n, false) l g = refl

-- A flush without an error leaves nothing in the buffer.
pub flush-IsEmptied : (l : AccessLog) → IsEmptied (flush l)
unfolding flush
flush-IsEmptied l =
    if_cases IsEmptied l.failed _ _ (λ f g. cc)
      λ f.
        if_cases IsEmptied (is_nil l.buffered) _ _ (λ n g. eq_of_is_nil l.buffered n)
          λ n. flush_out-IsEmptied (out_write l.buffered l.rotator) l

emptied-in_text :
    (text : Bytes) (l : AccessLog)
    → l.buffered ≡ []
    → in_files l.rotator ++ l.buffered ≡ text
    → in_files l.rotator ≡ text
emptied-in_text text l b h =
    sym (append-nil (in_files l.rotator)) ∙ ap (λ t. in_files l.rotator ++ t) (sym b) ∙ h

write_rest-Keeps :
    (text p : Bytes) (l : AccessLog)
    → Keeps text l
    → IsEmptied l
    → Keeps (text ++ p) (write_rest p l)
unfolding write_rest
write_rest-Keeps text p l h b =
    if_cases (Keeps (text ++ p)) l.failed _ _ (λ f. failed-Keeps text p l f h)
      λ f.
        let in_text : in_files l.rotator ≡ text =
          sym (append-nil (in_files l.rotator))
          ∙ ap (λ t. in_files l.rotator ++ t) (sym (b f))
          ∙ Keeps-open text l f h in
        if_cases (Keeps (text ++ p)) (leb (length p) l.buf_size) _ _
          (λ fits. open-Keeps (text ++ p) (record l { buffered = p }) f (ap (λ t. t ++ p) in_text))
          λ large.
            direct-Keeps text p l (out_write p l.rotator) in_text (b f)
              (out_write-Wrote p l.rotator)

pub write-Keeps : (text p : Bytes) (l : AccessLog) → Keeps text l → Keeps (text ++ p) (write p l)
unfolding write
write-Keeps text p l h =
    let room = l.buf_size - length l.buffered in
    if_cases (Keeps (text ++ p)) l.failed _ _ (λ f. failed-Keeps text p l f h)
      λ f.
        let now = Keeps-open text l f h in
        if_cases (Keeps (text ++ p)) (leb (length p) room) _ _
          (λ fits.
            open-Keeps (text ++ p) (record l { buffered = l.buffered ++ p }) f
              (sym (append_assoc (in_files l.rotator) l.buffered p) ∙ ap (λ t. t ++ p) now))
          λ large.
            if_cases (Keeps (text ++ p)) (is_nil l.buffered) _ _
              (λ n.
                let b = eq_of_is_nil l.buffered n in
                direct-Keeps text p l (out_write p l.rotator) (emptied-in_text text l b now) b
                  (out_write-Wrote p l.rotator))
              λ n.
                let full = record l { buffered = l.buffered ++ take room p } in
                subst (λ t. Keeps t (write_rest (drop room p) (flush full)))
                  (append_assoc text (take room p) (drop room p)
                    ∙ ap (λ t. text ++ t) (take-append-drop room p))
                  (write_rest-Keeps (text ++ take room p) (drop room p) (flush full)
                    (flush-Keeps (text ++ take room p) full (
                      open-Keeps (text ++ take room p) full f (
                        sym (append_assoc (in_files l.rotator) l.buffered (take room p))
                        ∙ ap (λ t. t ++ take room p) now)))
                    (flush-IsEmptied full))

joined-snoc : (fs : List Bytes) (f : Bytes) → joined (fs ++ f ∷ []) ≡ joined fs ++ f
joined-snoc [] f = append-nil f
joined-snoc (g ∷ fs) f = ap (λ t. g ++ t) (joined-snoc fs f) ∙ sym (append_assoc g (joined fs) f)

pub rotate_out-in_files : (fails : Bool) (o : Out) → in_files (rotate_out fails o) ≡ in_files o
unfolding rotate_out
rotate_out-in_files true o = refl
rotate_out-in_files false o = append-nil _ ∙ joined-snoc o.rotated o.current

pub rotate_out-Keeps :
    (fails : Bool) (text : Bytes) (l : AccessLog)
    → Keeps text l
    → Keeps text (record l { rotator = rotate_out fails l.rotator })
rotate_out-Keeps fails text l h =
    subst (λ w. Holds l.failed w l.buffered text) (sym (rotate_out-in_files fails l.rotator)) h

pub rotate-Keeps :
    (fails : Bool) (text : Bytes) (l : AccessLog) → Keeps text l → Keeps text (rotate fails l).0
unfolding rotate
rotate-Keeps fails text l h =
    let kept = flush-Keeps text l h in
    if_cases (λ (r : AccessLog × Bool). Keeps text r.0) (flush l).failed _ _ (λ f. kept)
      λ f.
        if_cases (λ (r : AccessLog × Bool). Keeps text r.0) (flush l).has_out _ _
          (λ o. rotate_out-Keeps fails text (flush l) kept) λ o. kept

pub close-Keeps :
    (fails : Bool) (text : Bytes) (l : AccessLog) → Keeps text l → Keeps text (close fails l).0
unfolding close
close-Keeps fails text l h =
    if_cases (λ (r : AccessLog × Bool). Keeps text r.0) l.closed _ _ (λ c. h)
      (λ c. flush-Keeps text l h)
