-- ===== src/AccessLog/Writer/Setup.antt =====
-- pkg/logger/accesslog/accesslog.go: what flushing and writing leave as it was set up, and the size
-- of the buffer.
use fasthttpd.Base.{
  if_cases, ℕ, zero, suc, ◌-◌, ◌≤◌, ◌≡◌, refl, ap, ◌∙◌, Bool, true, false, [], ◌∷◌, ◌++◌, arith,
  leb, length, take, drop, is_nil, length-append, length-drop, Bytes,
}
use fasthttpd.AccessLog.Writer.{
  Out, AccessLog, out_write, flush_out, flush, direct, write_rest, write, rotate, close,
}

-- The same but for the files, the buffer and the error.
pub record IsSetUp (l m : AccessLog) : Type 0 where
  pub same_line : m.append_line ≡ l.append_line
  pub same_closed : m.closed ≡ l.closed
  pub same_size : m.buf_size ≡ l.buf_size
  pub same_out : m.has_out ≡ l.has_out

IsSetUp-refl : (l : AccessLog) → IsSetUp l l
IsSetUp-refl l = record { same_line = refl; same_closed = refl; same_size = refl; same_out = refl }

IsSetUp-trans : (l m n : AccessLog) → IsSetUp l m → IsSetUp m n → IsSetUp l n
IsSetUp-trans l m n p q = record {
  same_line = q.same_line ∙ p.same_line;
  same_closed = q.same_closed ∙ p.same_closed;
  same_size = q.same_size ∙ p.same_size;
  same_out = q.same_out ∙ p.same_out;
}

flush_out-IsSetUp : (r : Out × ℕ × Bool) (l : AccessLog) → IsSetUp l (flush_out r l)
unfolding flush_out
flush_out-IsSetUp (o, n, e) l = record {
  same_line = refl;
  same_closed = refl;
  same_size = refl;
  same_out = refl;
}

pub flush-IsSetUp : (l : AccessLog) → IsSetUp l (flush l)
unfolding flush
flush-IsSetUp l =
    if_cases (IsSetUp l) l.failed _ _ (λ f. IsSetUp-refl l)
      λ f.
        if_cases (IsSetUp l) (is_nil l.buffered) _ _ (λ n. IsSetUp-refl l)
          λ n. flush_out-IsSetUp (out_write l.buffered l.rotator) l

direct-IsSetUp : (r : Out × ℕ × Bool) (l : AccessLog) → IsSetUp l (direct r l)
unfolding direct
direct-IsSetUp (o, n, e) l = record {
  same_line = refl;
  same_closed = refl;
  same_size = refl;
  same_out = refl;
}

write_rest-IsSetUp : (p : Bytes) (l : AccessLog) → IsSetUp l (write_rest p l)
unfolding write_rest
write_rest-IsSetUp p l =
    if_cases (IsSetUp l) l.failed _ _ (λ f. IsSetUp-refl l)
      λ f.
        if_cases (IsSetUp l) (leb (length p) l.buf_size) _ _
          (λ fits. record {
            same_line = refl;
            same_closed = refl;
            same_size = refl;
            same_out = refl;
          })
          λ large. direct-IsSetUp (out_write p l.rotator) l

pub write-IsSetUp : (p : Bytes) (l : AccessLog) → IsSetUp l (write p l)
unfolding write
write-IsSetUp p l =
    let room = l.buf_size - length l.buffered in
    if_cases (IsSetUp l) l.failed _ _ (λ f. IsSetUp-refl l)
      λ f.
        if_cases (IsSetUp l) (leb (length p) room) _ _
          (λ fits. record {
            same_line = refl;
            same_closed = refl;
            same_size = refl;
            same_out = refl;
          })
          λ large.
            if_cases (IsSetUp l) (is_nil l.buffered) _ _
              (λ n. direct-IsSetUp (out_write p l.rotator) l)
              λ n.
                let full = record l { buffered = l.buffered ++ take room p } in
                let q = flush-IsSetUp full in
                IsSetUp-trans l (flush full) (write_rest (drop room p) (flush full))
                  (record {
                    same_line = q.same_line;
                    same_closed = q.same_closed;
                    same_size = q.same_size;
                    same_out = q.same_out;
                  })
                  (write_rest-IsSetUp (drop room p) (flush full))

pub rotate-IsSetUp : (fails : Bool) (l : AccessLog) → IsSetUp l (rotate fails l).0
unfolding rotate
rotate-IsSetUp fails l =
    let q = flush-IsSetUp l in
    if_cases (λ (r : AccessLog × Bool). IsSetUp l r.0) (flush l).failed _ _ (λ f. q)
      λ f.
        if_cases (λ (r : AccessLog × Bool). IsSetUp l r.0) (flush l).has_out _ _
          (λ o. record {
            same_line = q.same_line;
            same_closed = q.same_closed;
            same_size = q.same_size;
            same_out = q.same_out;
          })
          λ o. q

-- The buffer is not larger than its size.
abbrev pub IsBounded : AccessLog → Type 0
IsBounded l = length l.buffered ≤ l.buf_size

length-take : (n : ℕ) (xs : Bytes) → n ≤ length xs → length (take n xs) ≡ n
length-take zero xs h = refl
length-take (suc n) [] h = absurd (omega arith)
length-take (suc n) (x ∷ xs) h = ap suc (length-take n xs (omega arith))

flush_out-IsBounded : (r : Out × ℕ × Bool) (l : AccessLog) → IsBounded l → IsBounded (flush_out r l)
unfolding flush_out
flush_out-IsBounded (o, n, true) l h = omega (arith, length-drop n l.buffered)
flush_out-IsBounded (o, n, false) l h = omega arith

pub flush-IsBounded : (l : AccessLog) → IsBounded l → IsBounded (flush l)
unfolding flush
flush-IsBounded l h =
    if_cases IsBounded l.failed _ _ (λ f. h)
      λ f.
        if_cases IsBounded (is_nil l.buffered) _ _ (λ n. h)
          λ n. flush_out-IsBounded (out_write l.buffered l.rotator) l h

direct-IsBounded : (r : Out × ℕ × Bool) (l : AccessLog) → IsBounded l → IsBounded (direct r l)
unfolding direct
direct-IsBounded (o, n, e) l h = h

write_rest-IsBounded : (p : Bytes) (l : AccessLog) → IsBounded l → IsBounded (write_rest p l)
unfolding write_rest
write_rest-IsBounded p l h =
    if_cases IsBounded l.failed _ _ (λ f. h)
      λ f.
        if_cases IsBounded (leb (length p) l.buf_size) _ _ (λ fits. ground arith)
          λ large. direct-IsBounded (out_write p l.rotator) l h

-- Writing a line of any length keeps the buffer within its size.
pub write-IsBounded : (p : Bytes) (l : AccessLog) → IsBounded l → IsBounded (write p l)
unfolding write
write-IsBounded p l h =
    let room = l.buf_size - length l.buffered in
    if_cases IsBounded l.failed _ _ (λ f. h)
      λ f.
        if_cases IsBounded (leb (length p) room) _ _
          (λ fits. ground (arith, length-append l.buffered p))
          λ large.
            if_cases IsBounded (is_nil l.buffered) _ _
              (λ n. direct-IsBounded (out_write p l.rotator) l h)
              λ n.
                let full = record l { buffered = l.buffered ++ take room p } in
                let over : room ≤ length p = ground arith in
                write_rest-IsBounded (drop room p) (flush full) (
                  flush-IsBounded full (
                    omega (arith, length-append l.buffered (take room p), length-take room p over)))

pub rotate-IsBounded : (fails : Bool) (l : AccessLog) → IsBounded l → IsBounded (rotate fails l).0
unfolding rotate
rotate-IsBounded fails l h =
    let q = flush-IsBounded l h in
    if_cases (λ (r : AccessLog × Bool). IsBounded r.0) (flush l).failed _ _ (λ f. q)
      λ f. if_cases (λ (r : AccessLog × Bool). IsBounded r.0) (flush l).has_out _ _ (λ o. q) λ o. q

pub close-IsBounded : (fails : Bool) (l : AccessLog) → IsBounded l → IsBounded (close fails l).0
unfolding close
close-IsBounded fails l h =
    if_cases (λ (r : AccessLog × Bool). IsBounded r.0) l.closed _ _ (λ c. h)
      (λ c. flush-IsBounded l h)
