-- ===== src/Logger.antt =====
-- pkg/logger/logger.go: a logger, its flags, and the rotator that it shares.
pub mod Outputs
mod Tests
use fasthttpd.Base.{
  ℕ, ◌-◌, ◌/◌, Bool, true, false, not, Option, none, some, List, [], ◌∷◌, if◌then◌else◌, set,
  is_nil, Bytes, codes, bytes_eq,
}
use fasthttpd.Rotator.{Shared, shared_rotator, close}

-- The bits of the flags.
pub record LogFlags : Type 0 where
  pub date : Bool
  pub time : Bool
  pub microseconds : Bool
  pub utc : Bool
  pub msgprefix : Bool

abbrev pub no_flags : LogFlags
no_flags = record {
  date = false;
  time = false;
  microseconds = false;
  utc = false;
  msgprefix = false;
}

-- The `switch`; `none` is the error.
unfoldable pub add_flag : Bytes → LogFlags → Option LogFlags
add_flag flg flgs =
    if bytes_eq flg (codes "date")
    then some (record flgs { date = true })
    else if bytes_eq flg (codes "time")
    then some (record flgs { time = true })
    else if bytes_eq flg (codes "microsecond")
    then some (record flgs { microseconds = true })
    else if bytes_eq flg (codes "utc")
    then some (record flgs { utc = true })
    else if bytes_eq flg (codes "msgprefix")
    then some (record flgs { msgprefix = true })
    else none

-- The loop of `newLogger`.
unfoldable pub add_flags : List Bytes → LogFlags → Option LogFlags
add_flags [] flgs = some flgs
add_flags (flg ∷ rest) flgs = elim (add_flag flg flgs) [
  | none ↦ none
  | some flgs' ↦ add_flags rest flgs'
]

-- A logger that was made; without a rotator it is `NilLogger`, or it was closed.
pub record Logger : Type 0 where
  pub rotator : Option ℕ
  pub flags : LogFlags

-- `NewLogger`; `none` is its error.
unfoldable pub new_logger : Bytes → List Bytes → Shared → Option Logger × Shared
new_logger output flags s =
    let (r, s') = shared_rotator output s in
    if is_nil output
    then (some (record { rotator = none; flags = no_flags }), s)
    else elim (add_flags flags no_flags) [
      | none ↦ (none, close r s')
      | some flgs ↦ (some (record { rotator = some r; flags = flgs }), s')
    ]

-- `Close` of a rotator that closes without an error; a second one does nothing.
unfoldable pub close_rotator : Option ℕ → Shared → Shared
close_rotator none s = s
close_rotator (some r) s = close r s

unfoldable pub close_logger : Logger → Shared → Logger × Shared
close_logger l s = (record l { rotator = none }, close_rotator l.rotator s)

-- `Write` and `Rotate`: the rotator that they call, if any.
unfoldable pub called_rotator : Logger → Option ℕ
called_rotator l = l.rotator

-- `LoggerDelegator`: a function that is set is called, and else the method does nothing.
unfoldable pub delegate : {A : Type 0} → Option A → A → A
delegate none default_result = default_result
delegate (some result) default_result = result
