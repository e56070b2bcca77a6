-- ===== src/AccessLog/Writer/Calls/Overtaken.antt =====
-- pkg/logger/accesslog/accesslog.go: Logs that a Close overtakes.
use fasthttpd.Base.{
  ℕ, ◌≡◌, ◌⊎◌, Bool, true, false, ◌&&◌, ◌||◌, Option, none, some, List, [], ◌∷◌, ◌++◌, get_elem?,
  set, All, ℤ,
}
use fasthttpd.AccessLog.Context.{Context}
use fasthttpd.AccessLog.Writer.{AppendFunc, Out, AccessLog}
use fasthttpd.AccessLog.Writer.Laws.{in_files, Keeps}
use fasthttpd.AccessLog.Writer.Lines.{opened}
use fasthttpd.AccessLog.Writer.Calls.{
  Call, checked, formatted, marked, flushed, returned, System, Event, calls_log, calls_close,
  goes_on, ticks, rotates, rotates_shared, advance, next,
}
use fasthttpd.AccessLog.Writer.Calls.Kept.{written}

abbrev pub is_checked : Call → Bool
is_checked (checked ctx) = true
is_checked (formatted ctx line) = false
is_checked marked = false
is_checked flushed = false
is_checked returned = false

abbrev pub any_checked : List Call → Bool
any_checked [] = false
any_checked (c ∷ cs) = is_checked c || any_checked cs

abbrev pub clears : Option Call → Bool
clears (some flushed) = true
clears (some (checked ctx)) = false
clears (some (formatted ctx line)) = false
clears (some marked) = false
clears (some returned) = false
clears none = false

abbrev pub overtakes : Event → System → Bool
overtakes (goes_on i) st = clears (get_elem? st.calls i) && any_checked st.calls
overtakes (calls_log ctx) st = false
overtakes calls_close st = false
overtakes ticks st = false
overtakes (rotates fails) st = false
overtakes (rotates_shared fails) st = false

-- Does a Close clear `appendLine` while a Log stands between its test and its line?
unfoldable pub is_overtaken : List Event → System → Bool
is_overtaken [] st = false
is_overtaken (e ∷ es) st =
    overtakes e st || (elim (next e st) [ none ↦ false | some st' ↦ is_overtaken es st' ])

-- There is the function of the lines, or it is set nil, and then no Log is past its test.
abbrev IsReady : AppendFunc → AccessLog → List Call → Type 0
IsReady f l cs = (l.append_line ≡ some f) ⊎ ((l.closed ≡ true) × All (λ c. is_checked c ≡ false) cs)

-- A call goes on, and leaves a log that is ready.
abbrev GoesOn : AppendFunc → List Call → ℕ → Call → AccessLog → Type 0
GoesOn f cs i c l =
    (c' : Call) × (l' : AccessLog) × (advance c l ≡ some (c', l')) × IsReady f l' (set cs i c')

abbrev Then : AppendFunc → Option System → Type 0
Then f o = (st : System) × (o ≡ some st) × IsReady f st.log st.calls

-- No call is made yet.
abbrev pub at_start : AppendFunc → Out → ℤ → System
at_start f out size = record { log = opened f out size; calls = [] }

-- How a run ends: a panic is that of a Log that a Close overtook, and else the lines are kept.
abbrev pub Ends : AppendFunc → Out → ℤ → List Event → Option System → Type 0
Ends f out size es none = is_overtaken es (at_start f out size) ≡ true
Ends f out size es (some st) = Keeps (in_files out ++ written f es (at_start f out size)) st.log
