-- ===== src/AccessLog/Writer/Faults.antt =====
-- pkg/logger/accesslog/accesslog.go: writes that fail.

use fasthttpd.Base.{
  if_cases, ℕ, ◌-◌, ◌≡◌, refl, sym, ◌⊎◌, inl, inr, Bool, true, false, some, List, [], ◌∷◌, ◌++◌,
  leb, Option-cases, eq_of_some, length, take, is_nil, Bytes, ℤ,
}
use fasthttpd.AccessLog.Context.{Context}
use fasthttpd.AccessLog.Writer.{
  Outcome, takes_all, fails_after, out_write, flush_out, direct, write_rest, rotate_out, Out,
  AppendFunc, AccessLog, flush, write, new_skeleton, rotate, close, format_line, log, Op, logs,
  ticks, rotates, rotates_shared, closes, step, run,
}
use fasthttpd.AccessLog.Writer.Lines.{opened}

-- Inversion of a run that goes on.
pub run-split :
    (op : Op) (ops : List Op) (l : AccessLog) {m : AccessLog}
    → run (op ∷ ops) l ≡ some m
    → (l' : AccessLog) × (step op l ≡ some l') × (run ops l' ≡ some m)
unfolding run
run-split op ops l {m} h = elim (Option-cases (step op l)) [
  | inl e ↦ cc (rw (e, run) at h)
  | inr (l', e) ↦ (l', e, rw (e, run) at h)
]

pub log-some :
    (ctx : Context) (l l' : AccessLog)
    → log ctx l ≡ some l'
    → (l' ≡ l) ⊎ ((p : Bytes) × (l.closed ≡ false) × (l' ≡ write p l))
unfolding log
log-some ctx l l' =
    if_cases (λ r. r ≡ some l' → (l' ≡ l) ⊎ ((p : Bytes) × (l.closed ≡ false) × (l' ≡ write p l)))
      l.closed _ _ (λ c h. inl (sym (eq_of_some h)))
      λ c h. elim (Option-cases (format_line ctx l)) [
        | inl e ↦ cc (rw e at h)
        | inr (p, e) ↦ inr (p, c, sym (eq_of_some (rw e at h)))
      ]

flush_failed : (l : AccessLog) → l.failed ≡ true → flush l ≡ l
unfolding flush
flush_failed l f = if_cases (λ m. m ≡ l) l.failed _ _ (λ g. refl) λ g. cc

write_failed : (p : Bytes) (l : AccessLog) → l.failed ≡ true → write p l ≡ l
unfolding write
write_failed p l f = if_cases (λ m. m ≡ l) l.failed _ _ (λ g. refl) λ g. cc

rotate_failed : (fails : Bool) (l : AccessLog) → l.failed ≡ true → rotate fails l ≡ (l, true)
unfolding rotate
rotate_failed fails l f =
    let e = flush_failed l f in
    if_cases (λ r. r ≡ (l, true)) (flush l).failed _ _ (λ g. rw e refl) λ g. cc

-- The outcomes of the rotator's writes before the first that fails.
abbrev pub IsFine : List Outcome → Type 0
IsFine [] = Unit
IsFine (takes_all ∷ os) = IsFine os
IsFine (fails_after n ∷ os) = ⊥

-- Either no write has failed and that failure is still ahead, or it was the last call of the
-- rotator's `Write`.
abbrev pub IsAhead : ℕ → List Outcome → Out → Bool → Type 0
IsAhead n os o failed =
    ((failed ≡ false)
      × (fine : List Outcome) × IsFine fine
      × (o.outcomes ≡ fine ++ fails_after n ∷ os))
    ⊎ ((failed ≡ true) × (o.outcomes ≡ os))

abbrev IsOnce : ℕ → List Outcome → AccessLog → Type 0
IsOnce n os l = IsAhead n os l.rotator l.failed

module _ (n : ℕ) (os : List Outcome) where
  out_write-IsAhead :
      (p : Bytes) (o : Out) (fine : List Outcome)
      → IsFine fine
      → o.outcomes ≡ fine ++ fails_after n ∷ os
      → IsAhead n os (out_write p o).0 (out_write p o).2
  unfolding out_write
  out_write-IsAhead p o [] f e = rw (e, out_write) (inr (refl, refl))
  out_write-IsAhead p o (takes_all ∷ fine) f e = rw (e, out_write) (inl (refl, fine, f, refl))
  out_write-IsAhead p o (fails_after m ∷ fine) f e = absurd f

  flush-IsOnce : (l : AccessLog) → IsOnce n os l → IsOnce n os (flush l)
  unfolding flush flush_out
  flush-IsOnce l (inr (f, e)) = rw (flush_failed l f) (inr (f, e))
  flush-IsOnce l (inl (f, fine, g, e)) =
      if_cases (IsOnce n os) l.failed _ _ (λ q. inl (f, fine, g, e))
        λ q.
          if_cases (IsOnce n os) (is_nil l.buffered) _ _ (λ r. inl (f, fine, g, e))
            (λ r. out_write-IsAhead l.buffered l.rotator fine g e)

  direct-IsOnce :
      (p : Bytes) (l : AccessLog) (fine : List Outcome)
      → IsFine fine
      → l.rotator.outcomes ≡ fine ++ fails_after n ∷ os
      → IsOnce n os (direct (out_write p l.rotator) l)
  unfolding direct
  direct-IsOnce p l fine g e = out_write-IsAhead p l.rotator fine g e

  write_rest-IsOnce : (p : Bytes) (l : AccessLog) → IsOnce n os l → IsOnce n os (write_rest p l)
  unfolding write_rest
  write_rest-IsOnce p l (inr (f, e)) =
      if_cases (IsOnce n os) l.failed _ _ (λ q. inr (f, e)) λ q. cc (f, q)
  write_rest-IsOnce p l (inl (f, fine, g, e)) =
      if_cases (IsOnce n os) l.failed _ _ (λ q. inl (f, fine, g, e))
        λ q.
          if_cases (IsOnce n os) (leb (length p) l.buf_size) _ _ (λ r. inl (f, fine, g, e))
            (λ r. direct-IsOnce p l fine g e)

  write-IsOnce : (p : Bytes) (l : AccessLog) → IsOnce n os l → IsOnce n os (write p l)
  unfolding write
  write-IsOnce p l (inr (f, e)) = rw (write_failed p l f) (inr (f, e))
  write-IsOnce p l (inl (f, fine, g, e)) =
      if_cases (IsOnce n os) l.failed _ _ (λ q. inl (f, fine, g, e))
        λ q.
          if_cases (IsOnce n os) (leb (length p) (l.buf_size - length l.buffered)) _ _
            (λ r. inl (f, fine, g, e))
            λ r.
              if_cases (IsOnce n os) (is_nil l.buffered) _ _ (λ t. direct-IsOnce p l fine g e)
                (λ t. write_rest-IsOnce _ _ (
                  flush-IsOnce
                    (record l { buffered = l.buffered ++ take (l.buf_size - length l.buffered) p })
                    (inl (f, fine, g, e))))

  rotate_out-IsAhead :
      (fails : Bool) (o : Out) (failed : Bool)
      → IsAhead n os o failed
      → IsAhead n os (rotate_out fails o) failed
  unfolding rotate_out
  rotate_out-IsAhead fails o failed v =
      if_cases (λ (x : Out). IsAhead n os x failed) fails _ _ (λ q. v) (λ q. v)

  rotate-IsOnce : (fails : Bool) (l : AccessLog) → IsOnce n os l → IsOnce n os (rotate fails l).0
  unfolding rotate
  rotate-IsOnce fails l v =
      let w = flush-IsOnce l v in
      if_cases (λ (r : AccessLog × Bool). IsOnce n os r.0) (flush l).failed _ _ (λ q. w)
        λ q.
          if_cases (λ (r : AccessLog × Bool). IsOnce n os r.0) (flush l).has_out _ _
            (λ r. rotate_out-IsAhead fails (flush l).rotator (flush l).failed w) (λ r. w)

  close-IsOnce : (fails : Bool) (l : AccessLog) → IsOnce n os l → IsOnce n os (close fails l).0
  unfolding close
  close-IsOnce fails l v =
      if_cases (λ (r : AccessLog × Bool). IsOnce n os r.0) l.closed _ _ (λ q. v)
        (λ q. flush-IsOnce l v)

  step-IsOnce : (op : Op) (l l' : AccessLog) → step op l ≡ some l' → IsOnce n os l → IsOnce n os l'
  unfolding step
  step-IsOnce (logs ctx) l l' h v = elim (log-some ctx l l' h) [
    | inl e ↦ rw e v
    | inr (p, _, e) ↦ rw e (write-IsOnce p l v)
  ]
  step-IsOnce ticks l l' h v = rw (← eq_of_some h) (flush-IsOnce l v)
  step-IsOnce (rotates fails) l l' h v = rw (← eq_of_some h) (rotate-IsOnce fails l v)
  step-IsOnce (rotates_shared fails) l l' h v =
      rw (← eq_of_some h) (rotate_out-IsAhead fails l.rotator l.failed v)
  step-IsOnce (closes fails) l l' h v = rw (← eq_of_some h) (close-IsOnce fails l v)

  run-IsOnce :
      (ops : List Op) (l m : AccessLog) → run ops l ≡ some m → IsOnce n os l → IsOnce n os m
  unfolding run
  run-IsOnce [] l m h v = rw (← eq_of_some h) v
  run-IsOnce (op ∷ ops) l m h v =
      let (l', e, r) = run-split op ops l h in run-IsOnce ops l' m r (step-IsOnce op l l' e v)

  -- The first write of the rotator that fails is its last: after any run of an access log that was
  -- opened over it, either no write has failed and that one is still ahead, or it was made, no other
  -- was made after it, by no line, tick, rotation or close, also if the rotator would have taken
  -- them, and every `Rotate` returns an error and changes nothing.
  pub run_failed :
      (f : AppendFunc) (out : Out) (size : ℤ) (fine : List Outcome) (ops : List Op) {m : AccessLog}
      → IsFine fine
      → out.outcomes ≡ fine ++ fails_after n ∷ os
      → run ops (opened f out size) ≡ some m
      → ((m.failed ≡ false)
          × (left : List Outcome) × IsFine left
          × (m.rotator.outcomes ≡ left ++ fails_after n ∷ os))
        ⊎ ((m.failed ≡ true)
            × (m.rotator.outcomes ≡ os)
            × ((fails : Bool) → rotate fails m ≡ (m, true)))
  unfolding new_skeleton
  run_failed f out size fine ops {m} g e h =
      elim (run-IsOnce ops (opened f out size) m h (inl (refl, fine, g, e))) [
        | inl ahead ↦ inl ahead
        | inr (q, o) ↦ inr (q, o, λ fails. rotate_failed fails m q)
      ]
