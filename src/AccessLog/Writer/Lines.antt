-- ===== src/AccessLog/Writer/Lines.antt =====
-- pkg/logger/accesslog/accesslog.go: the files against the lines that were logged, in any order of
-- logging, flushing, rotating and closing.

use fasthttpd.Base.{
  if_cases, ◌≡◌, refl, ap, ◌∙◌, Bool, true, false, Option, some, List, [], ◌∷◌, ◌++◌, append_assoc,
  append-nil, Bytes, ℤ,
}
use fasthttpd.AccessLog.Context.{Context}
use fasthttpd.AccessLog.Writer.{
  Out, AppendFunc, AccessLog, flush, write, new_skeleton, rotate_out, rotate, close, format_line,
  log, Op, logs, ticks, rotates, rotates_shared, closes, step, run,
}
use fasthttpd.AccessLog.Writer.Laws.{
  Holds, in_files, Keeps, flush-Keeps, write-Keeps, rotate-Keeps, close-Keeps, rotate_out-Keeps,
}
use fasthttpd.AccessLog.Writer.Setup.{flush-IsSetUp, write-IsSetUp, rotate-IsSetUp}

-- The access log of a constructor that sets `appendLine`.
abbrev pub opened : AppendFunc → Out → ℤ → AccessLog
opened f out size = record (new_skeleton out size) { append_line = some f }

-- A line as it stands in the files.
abbrev pub line_of : AppendFunc → Context → Bytes
line_of f ctx = f [] ctx ++ 10 ∷ []

-- The lines that are logged before the first close.
unfoldable pub logged : AppendFunc → List Op → Bytes
logged f [] = []
logged f (logs ctx ∷ ops) = line_of f ctx ++ logged f ops
logged f (ticks ∷ ops) = logged f ops
logged f (rotates fails ∷ ops) = logged f ops
logged f (rotates_shared fails ∷ ops) = logged f ops
logged f (closes fails ∷ ops) = []

-- What is true of the access log from the start on.
record IsRunning (f : AppendFunc) (text : Bytes) (l : AccessLog) : Type 0 where
  is_open : l.closed ≡ false
  has_line : l.append_line ≡ some f
  keeps : Keeps text l

record IsClosed (text : Bytes) (l : AccessLog) : Type 0 where
  is_closed : l.closed ≡ true
  keeps : Keeps text l

-- One step leads on.
abbrev Then : Option AccessLog → (AccessLog → Type 0) → Type 0
Then r P = (l : AccessLog) × (r ≡ some l) × P l

IsClosed-step :
    (op : Op) (l : AccessLog) (text : Bytes) → IsClosed text l → Then (step op l) (IsClosed text)
unfolding step log close
IsClosed-step (logs ctx) l text v = (l, rw v.is_closed, v)
IsClosed-step ticks l text v = (
  flush l,
  refl,
  record {
    is_closed = (flush-IsSetUp l).same_closed ∙ v.is_closed;
    keeps = flush-Keeps text l v.keeps;
  },
)
IsClosed-step (rotates fails) l text v = (
  (rotate fails l).0,
  refl,
  record {
    is_closed = (rotate-IsSetUp fails l).same_closed ∙ v.is_closed;
    keeps = rotate-Keeps fails text l v.keeps;
  },
)
IsClosed-step (rotates_shared fails) l text v = (
  record l { rotator = rotate_out fails l.rotator },
  refl,
  record { is_closed = v.is_closed; keeps = rotate_out-Keeps fails text l v.keeps },
)
IsClosed-step (closes fails) l text v = (
  l,
  ap some
      (if_cases (λ (r : AccessLog × Bool). r.0 ≡ l) l.closed _ _ (λ c. refl) λ c. cc (v.is_closed)),
  v,
)

IsClosed-run :
    (ops : List Op) (l : AccessLog) (text : Bytes)
    → IsClosed text l
    → Then (run ops l) (IsClosed text)
unfolding run
IsClosed-run [] l text v = (l, refl, v)
IsClosed-run (op ∷ ops) l text v =
    let (l', e, v') = IsClosed-step op l text v in rw (e, run) (IsClosed-run ops l' text v')

log-IsRunning :
    (f : AppendFunc) (ctx : Context) (l : AccessLog) (text : Bytes)
    → IsRunning f text l
    → Then (log ctx l) (IsRunning f (text ++ line_of f ctx))
unfolding log format_line
log-IsRunning f ctx l text v = (
  write (line_of f ctx) l,
  rw (v.is_open, v.has_line) refl,
  record {
    is_open = (write-IsSetUp (line_of f ctx) l).same_closed ∙ v.is_open;
    has_line = (write-IsSetUp (line_of f ctx) l).same_line ∙ v.has_line;
    keeps = write-Keeps text (line_of f ctx) l v.keeps;
  },
)

close-IsClosed :
    (f : AppendFunc) (fails : Bool) (l : AccessLog) (text : Bytes)
    → IsRunning f text l
    → IsClosed text (close fails l).0
unfolding close
close-IsClosed f fails l text v = record {
  is_closed =
      if_cases (λ (r : AccessLog × Bool). r.0.closed ≡ true) l.closed _ _ (λ c. c) (λ c. refl);
  keeps = close-Keeps fails text l v.keeps;
}

running-run :
    (f : AppendFunc) (ops : List Op) (l : AccessLog) (text : Bytes)
    → IsRunning f text l
    → Then (run ops l) (Keeps (text ++ logged f ops))
unfolding run logged step
running-run f [] l text v = (l, refl, rw (append-nil text) v.keeps)
running-run f (logs ctx ∷ ops) l text v =
    let (l', e, v') = log-IsRunning f ctx l text v in
    let (m, r, k) = running-run f ops l' (text ++ line_of f ctx) v' in
    (m, rw (e, run) r, rw (← append_assoc text (line_of f ctx) (logged f ops)) k)
running-run f (ticks ∷ ops) l text v = running-run f ops (flush l) text (record {
  is_open = (flush-IsSetUp l).same_closed ∙ v.is_open;
  has_line = (flush-IsSetUp l).same_line ∙ v.has_line;
  keeps = flush-Keeps text l v.keeps;
})
running-run f (rotates fails ∷ ops) l text v = running-run f ops (rotate fails l).0 text (record {
  is_open = (rotate-IsSetUp fails l).same_closed ∙ v.is_open;
  has_line = (rotate-IsSetUp fails l).same_line ∙ v.has_line;
  keeps = rotate-Keeps fails text l v.keeps;
})
running-run f (rotates_shared fails ∷ ops) l text v =
    running-run f ops (record l { rotator = rotate_out fails l.rotator }) text
      (record {
        is_open = v.is_open;
        has_line = v.has_line;
        keeps = rotate_out-Keeps fails text l v.keeps;
      })
running-run f (closes fails ∷ ops) l text v =
    let (m, r, k) = IsClosed-run ops (close fails l).0 text (close-IsClosed f fails l text v) in
    (m, r, rw (append-nil text) k.keeps)

Keeps-rest :
    (text : Bytes) (l : AccessLog)
    → Keeps text l
    → (rest : Bytes) × (in_files l.rotator ++ rest ≡ text) × (l.failed ≡ false → rest ≡ l.buffered)
Keeps-rest text l k = by_failed l.failed k
  where
    by_failed :
        (b : Bool)
        → Holds b (in_files l.rotator) l.buffered text
        → (rest : Bytes) × (in_files l.rotator ++ rest ≡ text) × (b ≡ false → rest ≡ l.buffered)
    by_failed true (rest, e) = (rest, e, λ h. cc)
    by_failed false e = (l.buffered, e, λ h. refl)

-- Whatever its writes and rotations do, an access log never calls a nil `appendLine`, and its files
-- hold, in order, a beginning of the lines that were logged before it was closed: all but what its
-- buffer holds, unless a write failed.
pub run-Keeps :
    (f : AppendFunc) (out : Out) (size : ℤ) (ops : List Op)
    → (l : AccessLog) × (run ops (opened f out size) ≡ some l)
      × (rest : Bytes) × (in_files l.rotator ++ rest ≡ in_files out ++ logged f ops)
      × (l.failed ≡ false → rest ≡ l.buffered)
unfolding new_skeleton
run-Keeps f out size ops =
    let (l, r, k) =
      running-run f ops (opened f out size) (in_files out)
        (record { is_open = refl; has_line = refl; keeps = append-nil (in_files out) }) in
    let (rest, e, b) = Keeps-rest (in_files out ++ logged f ops) l k in (l, r, rest, e, b)
