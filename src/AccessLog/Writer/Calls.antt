-- ===== src/AccessLog/Writer/Calls.antt =====
-- pkg/logger/accesslog/accesslog.go: calls of Log and Close that run at the same time. Log tests
-- `closed` and calls `appendLine` outside the mutex, and Close sets both outside it, so that each of
-- these is a step of its own; what stands between Lock and Unlock is one step.
pub mod Kept
pub mod Overtaken
use fasthttpd.Base.{
  ℕ, ◌+◌, ◌-◌, ◌/◌, ap, Bool, true, false, not, Option, none, some, List, [], ◌∷◌, ◌++◌,
  if◌then◌else◌, get_elem?, set, Bytes,
}
use fasthttpd.AccessLog.Context.{Context}
use fasthttpd.AccessLog.Writer.{AccessLog, flush, write, rotate, rotate_out, format_line}

-- Where a call stands: a Log past its test, or with its line; a Close that has set `closed`, or has
-- flushed; or a call that has returned.
pub data Call : Type 0 where
  checked : Context → Call
  formatted : Context → Bytes → Call
  marked : Call
  flushed : Call
  returned : Call

pub record System : Type 0 where
  pub log : AccessLog
  pub calls : List Call

-- What happens: a Log or a Close is called, the call of a number goes on, a round of `flushLoop`,
-- and rotations, of the access log and of its rotator alone.
pub data Event : Type 0 where
  calls_log : Context → Event
  calls_close : Event
  goes_on : ℕ → Event
  ticks : Event
  rotates : Bool → Event
  rotates_shared : Bool → Event

-- `l.closed` in front of `Log`.
unfoldable pub begin_log : Context → System → System
begin_log ctx st = if st.log.closed then st else record st { calls = st.calls ++ checked ctx ∷ [] }

-- `l.closed` and `l.closed = true` in `Close`.
unfoldable pub begin_close : System → System
begin_close st =
    if st.log.closed
    then st
    else record st { log = record st.log { closed = true }; calls = st.calls ++ marked ∷ [] }

-- `Close` behind the flush.
unfoldable pub clear : AccessLog → AccessLog
clear l = record l { append_line = none; collect_request_uri = false; has_out = false }

-- One step of a call; `none` is the panic of a nil `appendLine`.
unfoldable pub advance : Call → AccessLog → Option (Call × AccessLog)
advance (checked ctx) l = elim (format_line ctx l) [
  | none ↦ none
  | some line ↦ some (formatted ctx line, l)
]
advance (formatted ctx line) l = some (returned, write line l)
advance marked l = some (flushed, flush l)
advance flushed l = some (returned, clear l)
advance returned l = some (returned, l)

-- The call of the number; a number without a call changes nothing.
unfoldable pub go_on : ℕ → System → Option System
go_on i st = elim (get_elem? st.calls i) [
  | none ↦ some st
  | some c ↦ elim (advance c st.log) [
    | none ↦ none
    | some (c', l) ↦ some (record { log = l; calls = set st.calls i c' })
  ]
]

unfoldable pub next : Event → System → Option System
next (calls_log ctx) st = some (begin_log ctx st)
next calls_close st = some (begin_close st)
next (goes_on i) st = go_on i st
next ticks st = some (record st { log = flush st.log })
next (rotates fails) st = some (record st { log = (rotate fails st.log).0 })
next (rotates_shared fails) st =
    some (record st { log = record st.log { rotator = rotate_out fails st.log.rotator } })

unfoldable pub run_calls : List Event → System → Option System
run_calls [] st = some st
run_calls (e ∷ es) st = elim (next e st) [ none ↦ none | some st' ↦ run_calls es st' ]
