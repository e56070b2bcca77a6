-- ===== src/AccessLog/Writer/Rotated.antt =====
-- pkg/logger/rotator.go: RotateShared behind the back of an access log.
use mathlib.Core.Path.{subst}
use fasthttpd.Base.{
  if_cases, ◌-◌, ◌≤◌, ◌<◌, ◌≡◌, refl, sym, false, some, [], ◌∷◌, ◌++◌, append_assoc, arith, leb,
  length, take, drop, is_nil, length-append, length-drop, Bytes,
}
use fasthttpd.AccessLog.Writer.{
  ℕ, ap, AccessLog, flush_out, flush, write_rest, write, rotate_out, rotates_shared, step,
}
use fasthttpd.AccessLog.Writer.Laws.{eq_of_is_nil}
use fasthttpd.AccessLog.Writer.Complete.{IsSound, out_write_all}

-- What a flush leaves.
abbrev flushed : AccessLog → AccessLog
flushed l = record l {
  rotator = record l.rotator { current = l.rotator.current ++ l.buffered; outcomes = [] };
  buffered = [];
  failed = false;
}

flush_all : (l : AccessLog) → IsSound l → 0 < length l.buffered → flush l ≡ flushed l
unfolding flush flush_out
flush_all l v held =
    if_cases (λ m. m ≡ flushed l) l.failed _ _ (λ f. let g = v.1 in cc)
      λ f.
        if_cases (λ m. m ≡ flushed l) (is_nil l.buffered) _ _
          (λ n. absurd (omega (arith, ap (λ (b : Bytes). length b) (eq_of_is_nil l.buffered n))))
          λ n.
            subst (λ r. flush_out r l ≡ flushed l) (sym (out_write_all l.buffered l.rotator v.0))
              refl

-- A line that is longer than the room in a buffer that holds something.
write_cut :
    (p : Bytes) (l : AccessLog) (n : ℕ)
    → IsSound l
    → 0 < length l.buffered
    → l.buf_size - length l.buffered ≡ n
    → n < length p
    → length p ≤ l.buf_size
    → write p l
      ≡ record (flushed (record l { buffered = l.buffered ++ take n p })) { buffered = drop n p }
unfolding write write_rest
write_cut p l n v held room more fits =
    let full = record l { buffered = l.buffered ++ take n p } in
    let goal = record (flushed full) { buffered = drop n p } in
    rw room (
      if_cases (λ m. m ≡ goal) l.failed _ _ (λ f. let g = v.1 in cc)
        λ f.
          if_cases (λ m. m ≡ goal) (leb (length p) n) _ _ (λ small. absurd (ground arith))
            λ large.
              if_cases (λ m. m ≡ goal) (is_nil l.buffered) _ _
                (λ e.
                  absurd (omega (arith, ap (λ (b : Bytes). length b) (eq_of_is_nil l.buffered e))))
                λ e. rw (flush_all full v (omega (arith, length-append l.buffered (take n p)))) (
                  if_cases (λ m. m ≡ goal) (leb (length (drop n p)) l.buf_size) _ _ (λ small. refl)
                    λ large'. absurd (ground (arith, length-drop n p))))

-- `RotateShared`, which a hang-up runs, does not flush: where a line is longer than what is left of
-- a buffer that holds something, and not too long for an empty one, the file that is rotated away
-- ends in the middle of the line.
pub rotates_shared_cut :
    (p : Bytes) (l : AccessLog)
    → IsSound l
    → 0 < length l.buffered
    → l.buf_size - length l.buffered < length p
    → length p ≤ l.buf_size
    → (m : AccessLog) × (step (rotates_shared false) (write p l) ≡ some m)
      × (m.rotator.rotated
          ≡ l.rotator.rotated
            ++ (l.rotator.current ++ l.buffered ++ take (l.buf_size - length l.buffered) p) ∷ [])
      × (m.buffered ≡ drop (l.buf_size - length l.buffered) p)
unfolding step rotate_out
rotates_shared_cut p l v held more fits =
    let n = l.buf_size - length l.buffered in
    let e = write_cut p l n v held refl more fits in
    (
      record (write p l) { rotator = rotate_out false (write p l).rotator },
      refl,
      rw e (
          ap (λ t. l.rotator.rotated ++ t ∷ [])
            (sym (append_assoc l.rotator.current l.buffered (take n p)))),
      rw e refl,
    )
