-- ===== src/Logger/Tests.antt =====
-- pkg/logger: loggers and access logs that share an output.
use fasthttpd.Base.{
  ◌≡◌, refl, Option, none, List, [], ◌∷◌, arith, ◌==◌, if◌then◌else◌, length, Bytes, codes,
  bytes_eq, lookup, ℤ,
}
use fasthttpd.Rotator.{shared_rotator, share, close, close_at, remove_shared_rotator}
use fasthttpd.Rotator.Laws.{count}
use fasthttpd.Rotator.Reach.{nothing_shared}
use fasthttpd.Logger.{new_logger, add_flags, add_flag, close_logger, close_rotator}
use fasthttpd.AccessLog.Open.{new_access_log, new_line_format}
use fasthttpd.Logger.Outputs.{
  Event, opens_log, opens_access_log, closes_client, run, step, keep, close_nth, close_client, out,
}
use fasthttpd.Logger.Outputs.Closed.{held_by, run_closed_count}

abbrev no_uint : Bytes → ℤ → Option Bytes
no_uint b n = none

-- A logger and an access log share an output, a logger with a wrong flag is not made, and the first
-- two are closed, one of them twice.
abbrev shares : List Event
shares =
    opens_log (codes "log") (codes "date" ∷ [])
    ∷ opens_access_log (codes "log") (codes "json")
    ∷ opens_log (codes "log") (codes "day" ∷ [])
    ∷ closes_client 0
    ∷ closes_client 0
    ∷ []

shares-counts : length (run no_uint [] none shares ([], nothing_shared)).1.counts ≡ 1
unfolding run step keep new_logger new_access_log new_line_format add_flags add_flag close_nth
    close_client close_logger close_rotator out shared_rotator share close close_at
    remove_shared_rotator lookup bytes_eq
shares-counts = refl

run_closed_count_example :
    count 0 (run no_uint [] none shares ([], nothing_shared)).1.closed
    ≡ (if count 0 (held_by (run no_uint [] none shares ([], nothing_shared)).0) == 0 then 1 else 0)
run_closed_count_example = run_closed_count no_uint [] none shares 0 (omega (arith, shares-counts))

-- When the logger closes too, the rotator is closed once.
shares_closed :
    (run no_uint [] none
      (closes_client 1 ∷ [])
      (run no_uint [] none shares ([], nothing_shared))).1.closed
    ≡ 0 ∷ []
unfolding run step keep new_logger new_access_log new_line_format add_flags add_flag close_nth
    close_client close_logger close_rotator out shared_rotator share close close_at
    remove_shared_rotator lookup bytes_eq
shares_closed = refl
