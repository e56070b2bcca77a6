-- ===== src/AccessLog/Writer/Tests.antt =====
-- pkg/logger/accesslog/accesslog.go: the theorems about the writer at a small buffer.
use fasthttpd.Base.{
  ◌≡◌, refl, ◌⊎◌, Bool, true, false, none, some, List, [], ◌∷◌, ◌++◌, arith, codes, pos,
}
use fasthttpd.AccessLog.Samples.{sample_context}
use fasthttpd.AccessLog.Writer.{
  Outcome, takes_all, fails_after, Out, out_write, flush_out, AppendFunc, AccessLog, flush, write,
  write_rest, new_skeleton, rotate, format_line, log, Op, logs, ticks, rotates, rotates_shared,
  closes, step, run,
}
use fasthttpd.AccessLog.Writer.Laws.{in_files}
use fasthttpd.AccessLog.Writer.Lines.{opened, logged}
use fasthttpd.AccessLog.Writer.Faults.{IsFine, run_failed}
use fasthttpd.AccessLog.Writer.Complete.{run_closes}
use fasthttpd.AccessLog.Writer.Rotated.{rotates_shared_cut}
use fasthttpd.AccessLog.Writer.Calls.{
  Event, calls_log, calls_close, goes_on, run_calls, next, begin_log, begin_close, go_on, advance,
  clear,
}
use fasthttpd.AccessLog.Writer.Calls.Overtaken.{at_start}

-- Lines of the method, into a buffer of six bytes.
abbrev method_line : AppendFunc
method_line dst ctx = dst ++ ctx.method

abbrev empty_out : Out
empty_out = record { current = []; rotated = []; outcomes = [] }

-- A rotator whose second write fails after a byte.
abbrev failing_out : Out
failing_out = record empty_out { outcomes = takes_all ∷ fails_after 1 ∷ [] }

abbrev some_ops : List Op
some_ops =
    logs sample_context ∷ ticks ∷ logs sample_context ∷ logs sample_context ∷ rotates false ∷ []

run_closes_example :
    (l : AccessLog) × (run (some_ops ++ closes false ∷ []) (opened method_line empty_out (pos 6))
      ≡ some l)
    × (in_files l.rotator ≡ in_files empty_out ++ logged method_line some_ops)
run_closes_example = run_closes method_line empty_out (pos 6) some_ops false refl

abbrev one_line : AccessLog
one_line = record (opened method_line empty_out (pos 6)) { buffered = codes "GET" ++ 10 ∷ [] }

one_run : run (logs sample_context ∷ []) (opened method_line empty_out (pos 6)) ≡ some one_line
unfolding run step log format_line write new_skeleton
one_run = refl

-- The log after three lines: the flush behind the second writes a byte of it and fails.
abbrev cut_log : AccessLog
cut_log = record (opened method_line failing_out (pos 6)) {
  rotator = record { current = codes "GET" ++ 10 ∷ b'G' ∷ []; rotated = []; outcomes = [] };
  buffered = codes "ET" ++ 10 ∷ b'G' ∷ b'E' ∷ [];
  failed = true;
}

cut_run : run some_ops (opened method_line failing_out (pos 6)) ≡ some cut_log
unfolding run step log format_line write flush flush_out out_write rotate write_rest new_skeleton
cut_run = refl

run_failed_example :
    ((cut_log.failed ≡ false)
      × (left : List Outcome) × IsFine left
      × (cut_log.rotator.outcomes ≡ left ++ fails_after 1 ∷ []))
    ⊎ ((cut_log.failed ≡ true)
        × (cut_log.rotator.outcomes ≡ [])
        × ((fails : Bool) → rotate fails cut_log ≡ (cut_log, true)))
run_failed_example =
    run_failed 1 [] method_line failing_out (pos 6) (takes_all ∷ []) some_ops tt refl cut_run

-- A line that is past its test when a Close begins, and is formatted in time.
abbrev in_time : List Event
in_time =
    calls_log sample_context ∷ calls_close ∷ goes_on 0 ∷ goes_on 1 ∷ goes_on 0 ∷ goes_on 1 ∷ []

-- A line that a Close overtakes.
abbrev too_late : List Event
too_late = calls_log sample_context ∷ calls_close ∷ goes_on 1 ∷ goes_on 1 ∷ goes_on 0 ∷ []

too_late_run : run_calls too_late (at_start method_line empty_out (pos 6)) ≡ none
unfolding run_calls next begin_log begin_close go_on advance clear format_line flush new_skeleton
too_late_run = refl

rotates_shared_cut_example :
    (m : AccessLog) × (step (rotates_shared false) (write (codes "PUT" ++ 10 ∷ []) one_line)
      ≡ some m)
    × (m.rotator.rotated ≡ (codes "GET" ++ 10 ∷ b'P' ∷ b'U' ∷ []) ∷ [])
    × (m.buffered ≡ b'T' ∷ 10 ∷ [])
unfolding new_skeleton
rotates_shared_cut_example =
    rotates_shared_cut (codes "PUT" ++ 10 ∷ []) one_line (refl, refl) (omega arith) (omega arith)
      (omega arith)
