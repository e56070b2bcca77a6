-- ===== src/AccessLog/Writer/Complete.antt =====
-- pkg/logger/accesslog/accesslog.go: a rotator that takes every write.
use mathlib.Core.Path.{subst}
use fasthttpd.Base.{
  if_cases, ◌-◌, ◌≡◌, refl, sym, ◌∙◌, inl, inr, Bool, true, false, some, List, [], ◌∷◌, ◌++◌,
  append-nil, leb, eq_of_some, length, take, drop, is_nil, Bytes,
}
use fasthttpd.AccessLog.Writer.{
  ap, ℤ, Outcome, Out, AppendFunc, AccessLog, out_write, flush_out, flush, direct, write_rest,
  write, new_skeleton, rotate_out, rotate, close, Op, logs, ticks, rotates, rotates_shared, closes,
  step, run,
}
use fasthttpd.AccessLog.Writer.Laws.{in_files, flush-IsEmptied}
use fasthttpd.AccessLog.Writer.Setup.{write-IsSetUp}
use fasthttpd.AccessLog.Writer.Lines.{opened, logged, run-Keeps}
use fasthttpd.AccessLog.Writer.Faults.{run-split, log-some}

abbrev pub IsSound : AccessLog → Type 0
IsSound l = (l.rotator.outcomes ≡ []) × (l.failed ≡ false)

pub out_write_all :
    (p : Bytes) (o : Out)
    → o.outcomes ≡ []
    → out_write p o ≡ (record o { current = o.current ++ p; outcomes = [] }, length p, false)
unfolding out_write
out_write_all p o h =
    rw (h, out_write)
      (ap
        (λ (os : List Outcome).
          (record o { current = o.current ++ p; outcomes = os }, length p, false))
        h)

flush-IsSound : (l : AccessLog) → IsSound l → IsSound (flush l)
unfolding flush flush_out
flush-IsSound l v =
    if_cases IsSound l.failed _ _ (λ f. v)
      λ f.
        if_cases IsSound (is_nil l.buffered) _ _ (λ n. v)
          λ n.
            subst (λ r. IsSound (flush_out r l)) (sym (out_write_all l.buffered l.rotator v.0))
              (refl, refl)

direct-IsSound :
    (p : Bytes) (l : AccessLog) → IsSound l → IsSound (direct (out_write p l.rotator) l)
unfolding direct
direct-IsSound p l v =
    subst (λ r. IsSound (direct r l)) (sym (out_write_all p l.rotator v.0)) (refl, refl)

write_rest-IsSound : (p : Bytes) (l : AccessLog) → IsSound l → IsSound (write_rest p l)
unfolding write_rest
write_rest-IsSound p l v =
    if_cases IsSound l.failed _ _ (λ f. v)
      λ f.
        if_cases IsSound (leb (length p) l.buf_size) _ _ (λ fits. v) λ large. direct-IsSound p l v

write-IsSound : (p : Bytes) (l : AccessLog) → IsSound l → IsSound (write p l)
unfolding write
write-IsSound p l v =
    let room = l.buf_size - length l.buffered in
    if_cases IsSound l.failed _ _ (λ f. v)
      λ f.
        if_cases IsSound (leb (length p) room) _ _ (λ fits. v)
          λ large.
            if_cases IsSound (is_nil l.buffered) _ _ (λ n. direct-IsSound p l v)
              λ n.
                let full = record l { buffered = l.buffered ++ take room p } in
                write_rest-IsSound (drop room p) (flush full) (flush-IsSound full v)

rotate_out-outcomes : (fails : Bool) (o : Out) → (rotate_out fails o).outcomes ≡ o.outcomes
unfolding rotate_out
rotate_out-outcomes true o = refl
rotate_out-outcomes false o = refl

rotate-IsSound : (fails : Bool) (l : AccessLog) → IsSound l → IsSound (rotate fails l).0
unfolding rotate
rotate-IsSound fails l v =
    let w = flush-IsSound l v in
    if_cases (λ (r : AccessLog × Bool). IsSound r.0) (flush l).failed _ _ (λ f. w)
      λ f.
        if_cases (λ (r : AccessLog × Bool). IsSound r.0) (flush l).has_out _ _
          (λ o. (rotate_out-outcomes fails (flush l).rotator ∙ w.0, w.1)) λ o. w

close-IsSound : (fails : Bool) (l : AccessLog) → IsSound l → IsSound (close fails l).0
unfolding close
close-IsSound fails l v =
    if_cases (λ (r : AccessLog × Bool). IsSound r.0) l.closed _ _ (λ c. v) (λ c. flush-IsSound l v)

step-IsSound : (op : Op) (l l' : AccessLog) → step op l ≡ some l' → IsSound l → IsSound l'
unfolding step
step-IsSound (logs ctx) l l' h v = elim (log-some ctx l l' h) [
  | inl e ↦ rw e v
  | inr (p, _, e) ↦ rw e (write-IsSound p l v)
]
step-IsSound ticks l l' h v = rw (← eq_of_some h) (flush-IsSound l v)
step-IsSound (rotates fails) l l' h v = rw (← eq_of_some h) (rotate-IsSound fails l v)
step-IsSound (rotates_shared fails) l l' h v =
    rw (← eq_of_some h) (rotate_out-outcomes fails l.rotator ∙ v.0, v.1)
step-IsSound (closes fails) l l' h v = rw (← eq_of_some h) (close-IsSound fails l v)

-- After a close the buffer is empty, whatever comes next.
abbrev IsFlushed : AccessLog → Type 0
IsFlushed l = l.closed ≡ true → l.buffered ≡ []

rotate-buffered : (fails : Bool) (l : AccessLog) → (rotate fails l).0.buffered ≡ (flush l).buffered
unfolding rotate
rotate-buffered fails l =
    if_cases (λ (r : AccessLog × Bool). r.0.buffered ≡ (flush l).buffered) (flush l).failed _ _
      (λ f. refl)
      λ f.
        if_cases (λ (r : AccessLog × Bool). r.0.buffered ≡ (flush l).buffered) (flush l).has_out _ _
          (λ o. refl) λ o. refl

flush-buffered : (l : AccessLog) → IsSound l → (flush l).buffered ≡ []
flush-buffered l v = flush-IsEmptied l (flush-IsSound l v).1

close-IsFlushed :
    (fails : Bool) (l : AccessLog) → IsSound l → IsFlushed l → IsFlushed (close fails l).0
unfolding close
close-IsFlushed fails l v w =
    if_cases (λ (r : AccessLog × Bool). IsFlushed r.0) l.closed _ _ (λ c. w)
      (λ c d. flush-buffered l v)

step-IsFlushed :
    (op : Op) (l l' : AccessLog) → step op l ≡ some l' → IsSound l → IsFlushed l → IsFlushed l'
unfolding step
step-IsFlushed (logs ctx) l l' h v w = elim (log-some ctx l l' h) [
  | inl e ↦ rw e w
  | inr (p, c, e) ↦ rw e (λ d. let same = (write-IsSetUp p l).same_closed in cc)
]
step-IsFlushed ticks l l' h v w = rw (← eq_of_some h) (λ c. flush-buffered l v)
step-IsFlushed (rotates fails) l l' h v w =
    rw (← eq_of_some h) (λ c. rotate-buffered fails l ∙ flush-buffered l v)
step-IsFlushed (rotates_shared fails) l l' h v w = rw (← eq_of_some h) w
step-IsFlushed (closes fails) l l' h v w = rw (← eq_of_some h) (close-IsFlushed fails l v w)

run-IsFlushed :
    (ops : List Op) (l : AccessLog) {m : AccessLog}
    → run ops l ≡ some m
    → IsSound l
    → IsFlushed l
    → IsSound m × IsFlushed m
unfolding run
run-IsFlushed [] l h v w = rw (← eq_of_some h) (v, w)
run-IsFlushed (op ∷ ops) l h v w =
    let (l', e, r) = run-split op ops l h in
    run-IsFlushed ops l' r (step-IsSound op l l' e v) (step-IsFlushed op l l' e v w)

close-closed : (fails : Bool) (l : AccessLog) → (close fails l).0.closed ≡ true
unfolding close
close-closed fails l =
    if_cases (λ (r : AccessLog × Bool). r.0.closed ≡ true) l.closed _ _ (λ c. c) (λ c. refl)

run_snoc-closed :
    (ops : List Op) (fails : Bool) (l : AccessLog) {m : AccessLog}
    → run (ops ++ closes fails ∷ []) l ≡ some m
    → m.closed ≡ true
unfolding run step
run_snoc-closed [] fails l h = rw (← eq_of_some h) (close-closed fails l)
run_snoc-closed (op ∷ ops) fails l h =
    let (l', e, r) = run-split op (ops ++ closes fails ∷ []) l h in run_snoc-closed ops fails l' r

logged-closes :
    (f : AppendFunc) (ops : List Op) (fails : Bool)
    → logged f (ops ++ closes fails ∷ []) ≡ logged f ops
unfolding logged
logged-closes f [] fails = refl
logged-closes f (logs ctx ∷ ops) fails =
    ap (λ t. (f [] ctx ++ 10 ∷ []) ++ t) (logged-closes f ops fails)
logged-closes f (ticks ∷ ops) fails = logged-closes f ops fails
logged-closes f (rotates b ∷ ops) fails = logged-closes f ops fails
logged-closes f (rotates_shared b ∷ ops) fails = logged-closes f ops fails
logged-closes f (closes b ∷ ops) fails = refl

-- With a rotator that takes every write, the files of an access log that was closed hold all lines
-- that were logged before its first close, each once and in order, and nothing else, whatever was
-- rotated between.
pub run_closes :
    (f : AppendFunc) (out : Out) (size : ℤ) (ops : List Op) (fails : Bool)
    → out.outcomes ≡ []
    → (l : AccessLog) × (run (ops ++ closes fails ∷ []) (opened f out size) ≡ some l)
      × (in_files l.rotator ≡ in_files out ++ logged f ops)
unfolding new_skeleton
run_closes f out size ops fails all =
    let (l, r, rest, e, b) = run-Keeps f out size (ops ++ closes fails ∷ []) in
    let (v, w) =
      run-IsFlushed (ops ++ closes fails ∷ []) (opened f out size) r (all, refl) (λ c. refl) in
    let none_left : rest ≡ [] = b v.1 ∙ w (run_snoc-closed ops fails (opened f out size) r) in
    (
      l,
      r,
      sym (append-nil (in_files l.rotator))
          ∙ ap (λ t. in_files l.rotator ++ t) (sym none_left)
          ∙ e
          ∙ ap (λ t. in_files out ++ t) (logged-closes f ops fails),
    )
