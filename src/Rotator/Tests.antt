-- ===== src/Rotator/Tests.antt =====
-- pkg/logger/rotator.go: handing out and closing evaluated.
use fasthttpd.Base.{◌≡◌, refl, [], ◌∷◌, length, Bytes, codes, bytes_eq, lookup}
use fasthttpd.Rotator.{Shared, shared_rotator, share, close, close_at, remove_shared_rotator}
use fasthttpd.Rotator.Reach.{Reach, start, hands_out, closes, nothing_shared}

abbrev run_log : Bytes
run_log = codes "log"

-- One output is handed out twice, another once, and one of the first two is closed.
abbrev one_closed : Shared
one_closed =
    close 0
      (shared_rotator run_log (shared_rotator [] (shared_rotator run_log nothing_shared).1).1).1

one_closed-Reach : Reach one_closed (1 ∷ 0 ∷ [])
unfolding shared_rotator lookup bytes_eq share close close_at
one_closed-Reach =
    closes 0 [] (1 ∷ 0 ∷ []) (hands_out run_log (hands_out [] (hands_out run_log start)))

one_closed-counts : length one_closed.counts ≡ 2
unfolding shared_rotator lookup bytes_eq share close close_at
one_closed-counts = refl

abbrev all_closed : Shared
all_closed = close 0 one_closed

closed_twice : all_closed.closed ≡ 0 ∷ []
unfolding shared_rotator lookup bytes_eq share close close_at remove_shared_rotator
closed_twice = refl
