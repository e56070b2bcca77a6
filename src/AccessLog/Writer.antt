-- ===== src/AccessLog/Writer.antt =====
-- pkg/logger/accesslog/accesslog.go: the buffered writer of the access log, for calls that follow one
-- another, each of which is one step (AccessLog/Writer/Calls has the steps of calls that overlap).
-- `bufio.Writer` of Go's standard library (`out_write` to `write`) is written out over a rotator
-- whose writes may fail.
pub mod Laws
pub mod Setup
pub mod Lines
pub mod Faults
pub mod Complete
pub mod Rotated
pub mod Calls
mod Tests
use fasthttpd.Base.{
  ℕ, ◌+◌, ◌-◌, ◌/◌, ap, Bool, true, false, not, Option, none, some, List, [], ◌∷◌, ◌++◌, map, leb,
  if◌then◌else◌, length, set, take, drop, is_nil, Bytes, codes, ℤ, pos, positive_or,
}
use mathlib.Core.Option
use fasthttpd.AccessLog.Context.{Context}

-- What a call of the rotator's `Write` does: it takes all, or so many bytes and then fails.
pub data Outcome : Type 0 where
  takes_all : Outcome
  fails_after : ℕ → Outcome

-- A rotator: the file that is written, those rotated away, and what the next writes will do (they
-- take all where nothing is left).
pub record Out : Type 0 where
  pub current : Bytes
  pub rotated : List Bytes
  pub outcomes : List Outcome

-- `appendFunc`, for requests whose line it appends without a panic.
abbrev pub AppendFunc : Type 0
AppendFunc = Bytes → Context → Bytes

pub record AccessLog : Type 0 where
  -- the rotator of `out` and of `bw`
  pub rotator : Out
  -- whether `out` still is the rotator, and not `NilRotator`
  pub has_out : Bool
  pub append_line : Option AppendFunc
  pub collect_request_uri : Bool
  -- `bw`: its size, what it holds, and whether it has an error
  pub buf_size : ℕ
  pub buffered : Bytes
  pub failed : Bool
  pub closed : Bool

-- `Write` of the rotator: the rotator, how much was written, and whether there is an error.
unfoldable pub out_write : Bytes → Out → Out × ℕ × Bool
out_write p o = elim o.outcomes [
  | [] ↦ (record o { current = o.current ++ p }, length p, false)
  | takes_all ∷ os ↦ (record o { current = o.current ++ p; outcomes = os }, length p, false)
  | fails_after n ∷ os ↦ (record o { current = o.current ++ take n p; outcomes = os }, n, true)
]

-- `Flush` of a buffer that holds something and has no error.
unfoldable pub flush_out : Out × ℕ × Bool → AccessLog → AccessLog
flush_out (o, n, e) l = record l {
  rotator = o;
  buffered = if e then drop n l.buffered else [];
  failed = e;
}

-- `bw.Flush()`; its error is `failed` after it.
unfoldable pub flush : AccessLog → AccessLog
flush l =
    if l.failed
    then l
    else if is_nil l.buffered
    then l
    else flush_out (out_write l.buffered l.rotator) l

-- A write past the empty buffer.
unfoldable pub direct : Out × ℕ × Bool → AccessLog → AccessLog
direct (o, n, e) l = record l { rotator = o; failed = e }

-- The end of `Write`, for what is left after the buffer was flushed.
unfoldable pub write_rest : Bytes → AccessLog → AccessLog
write_rest p l =
    if l.failed
    then l
    else if leb (length p) l.buf_size
    then record l { buffered = p }
    else direct (out_write p l.rotator) l

-- `bw.Write(p)`. The loop of `Write` has at most two rounds: one that fills the buffer and flushes
-- it, and one that writes the rest directly, if that is larger than the buffer.
unfoldable pub write : Bytes → AccessLog → AccessLog
write p l =
    let room = l.buf_size - length l.buffered in
    if l.failed
    then l
    else if leb (length p) room
    then record l { buffered = l.buffered ++ p }
    else if is_nil l.buffered
    then direct (out_write p l.rotator) l
    else write_rest (drop room p) (flush (record l { buffered = l.buffered ++ take room p }))

-- `newSkeleton`, `startFlushLoop` and the constructors' `appendLine`.
unfoldable pub new_skeleton : Out → ℤ → AccessLog
new_skeleton out buffer_size = record {
  rotator = out;
  has_out = true;
  append_line = none;
  collect_request_uri = false;
  buf_size = positive_or buffer_size 4096;
  buffered = [];
  failed = false;
  closed = false;
}

-- The milliseconds between two flushes.
unfoldable pub flush_interval : ℤ → ℕ
flush_interval ms = positive_or ms 1000

-- `out.Rotate()` of a rotator that fails or not.
unfoldable pub rotate_out : Bool → Out → Out
rotate_out fails o =
    if fails then o else record o { rotated = o.rotated ++ o.current ∷ []; current = [] }

-- `Rotate`, and whether it returns an error.
unfoldable pub rotate : Bool → AccessLog → AccessLog × Bool
rotate fails l =
    let l' = flush l in
    if l'.failed
    then (l', true)
    else if l'.has_out
    then (record l' { rotator = rotate_out fails l'.rotator }, fails)
    else (l', false)

-- `Close`, where `out.Close()` fails or not.
unfoldable pub close : Bool → AccessLog → AccessLog × Bool
close fails l = if l.closed then (l, false) else (
  record (flush l) {
    closed = true;
    append_line = none;
    collect_request_uri = false;
    has_out = false;
  },
  fails,
)

-- `Collect`: the header that it sets, if any.
unfoldable pub collect : Bytes → AccessLog → Option (Bytes × Bytes)
collect request_uri l =
    if l.collect_request_uri then some (codes "Original-Request-URI", request_uri) else none

-- The line of `Log`; `none` is the panic of a nil `appendLine`.
unfoldable pub format_line : Context → AccessLog → Option Bytes
format_line ctx l = Option.map (λ f. f [] ctx ++ 10 ∷ []) l.append_line

unfoldable pub log : Context → AccessLog → Option AccessLog
log ctx l = if l.closed then some l else Option.map (λ line. write line l) (format_line ctx l)

-- What happens to an access log, one call after another: a tick is a round of `flushLoop`; `rotates_shared` is what
-- `RotateShared` does to its rotator.
pub data Op : Type 0 where
  logs : Context → Op
  ticks : Op
  rotates : Bool → Op
  rotates_shared : Bool → Op
  closes : Bool → Op

unfoldable pub step : Op → AccessLog → Option AccessLog
step (logs ctx) l = log ctx l
step ticks l = some (flush l)
step (rotates fails) l = some (rotate fails l).0
step (rotates_shared fails) l = some (record l { rotator = rotate_out fails l.rotator })
step (closes fails) l = some (close fails l).0

unfoldable pub run : List Op → AccessLog → Option AccessLog
run [] l = some l
run (op ∷ ops) l = elim (step op l) [ none ↦ none | some l' ↦ run ops l' ]
