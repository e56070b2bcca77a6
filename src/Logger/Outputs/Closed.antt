-- ===== src/Logger/Outputs/Closed.antt =====
-- pkg/logger: opening and closing loggers and access logs only hands out rotators and closes them.
use fasthttpd.Base.{
  ℕ, zero, suc, ◌<◌, ◌≡◌, sym, inl, inr, true, false, Option, none, some, List, [], ◌∷◌, ◌++◌,
  append_assoc, ◌==◌, if◌then◌else◌, Bool-cases, Option-cases, length, is_nil, Bytes, ℤ,
}
use mathlib.Core.Path.{subst}
use fasthttpd.Rotator.{Shared}
use fasthttpd.Rotator.Laws.{count}
use fasthttpd.Rotator.Reach.{Reach, start, hands_out, closes, nothing_shared, closed_count}
use fasthttpd.Logger.{new_logger, close_logger, close_rotator, add_flags, no_flags}
use fasthttpd.AccessLog.Ncsa.Format.{Hostname}
use fasthttpd.AccessLog.Open.{new_access_log, new_line_format}
use fasthttpd.Logger.Outputs.{
  Client, log_client, access_log_client, out, close_client, close_nth, Event, opens_log,
  opens_access_log, closes_client, keep, step, run,
}

-- The rotator that the client uses, until it is closed.
abbrev pub held : Client → Option ℕ
held (log_client l) = l.rotator
held (access_log_client o true) = none
held (access_log_client o false) = out o

abbrev pub and_held : Option ℕ → List ℕ → List ℕ
and_held none rs = rs
and_held (some r) rs = r ∷ rs

-- The rotators in use.
abbrev pub held_by : List Client → List ℕ
held_by [] = []
held_by (c ∷ cs) = and_held (held c) (held_by cs)

close_rotator-Reach :
    (o : Option ℕ) (before after : List ℕ) (s : Shared)
    → Reach s (before ++ and_held o after)
    → Reach (close_rotator o s) (before ++ after)
unfolding close_rotator
close_rotator-Reach none before after s p = p
close_rotator-Reach (some r) before after s p = closes r before after p

close_client-Reach :
    (c : Client) (before after : List ℕ) (s : Shared)
    → Reach s (before ++ and_held (held c) after)
    → Reach (close_client c s).1 (before ++ and_held (held (close_client c s).0) after)
unfolding close_client close_logger
close_client-Reach (log_client l) before after s p = close_rotator-Reach l.rotator before after s p
close_client-Reach (access_log_client o true) before after s p = p
close_client-Reach (access_log_client o false) before after s p =
    close_rotator-Reach (out o) before after s p

close_nth-Reach :
    (i : ℕ) (cs : List Client) (before : List ℕ) (s : Shared)
    → Reach s (before ++ held_by cs)
    → Reach (close_nth i cs s).1 (before ++ held_by (close_nth i cs s).0)
unfolding close_nth
close_nth-Reach i [] before s p = p
close_nth-Reach zero (c ∷ cs) before s p = close_client-Reach c before (held_by cs) s p
close_nth-Reach (suc i) (c ∷ cs) before s p =
    past (held c) (λ before' q. close_nth-Reach i cs before' s q) p
  where
    past :
        (o : Option ℕ)
        → ((before' : List ℕ)
            → Reach s (before' ++ held_by cs)
            → Reach (close_nth i cs s).1 (before' ++ held_by (close_nth i cs s).0))
        → Reach s (before ++ and_held o (held_by cs))
        → Reach (close_nth i cs s).1 (before ++ and_held o (held_by (close_nth i cs s).0))
    past none rest q = rest before q
    past (some r) rest q =
        subst (Reach (close_nth i cs s).1) (append_assoc before (r ∷ []) _)
          (rest (before ++ r ∷ []) (subst (Reach s) (sym (append_assoc before (r ∷ []) _)) q))

-- One more client or none, with the rotators in use.
IsKept : List Client × Shared → Type 0
IsKept (cs, s) = Reach s (held_by cs)

new_logger-IsKept :
    (output : Bytes) (flags : List Bytes) (cs : List Client) (s : Shared)
    → IsKept (cs, s)
    → IsKept (keep log_client cs (new_logger output flags s))
unfolding new_logger keep IsKept
new_logger-IsKept output flags cs s p = elim (Bool-cases (is_nil output)) [
  | inl h ↦ rw h p
  | inr h ↦ elim (Option-cases (add_flags flags no_flags)) [
    | inl e ↦ rw (h, e) (closes _ [] (held_by cs) (hands_out output p))
    | inr (flgs, e) ↦ rw (h, e) (hands_out output p)
  ]
]

module _ (append_uint : Bytes → ℤ → Option Bytes) (host : Bytes) (hostname : Hostname) where
  new_access_log-IsKept :
      (output format : Bytes) (cs : List Client) (s : Shared)
      → IsKept (cs, s)
      → IsKept (
          keep
            (λ o. access_log_client o false)
            cs
            (new_access_log append_uint host hostname output format s))
  unfolding new_access_log keep IsKept out
  new_access_log-IsKept output format cs s p = elim (Bool-cases (is_nil output)) [
    | inl h ↦ rw h p
    | inr h ↦ elim (Option-cases (new_line_format append_uint host hostname format)) [
      | inl e ↦ rw (h, e) (closes _ [] (held_by cs) (hands_out output p))
      | inr (lines, e) ↦ rw (h, e) (hands_out output p)
    ]
  ]

  step-IsKept :
      (e : Event) (st : List Client × Shared)
      → IsKept st
      → IsKept (step append_uint host hostname e st)
  unfolding step IsKept
  step-IsKept (opens_log output flags) (cs, s) p = new_logger-IsKept output flags cs s p
  step-IsKept (opens_access_log output format) (cs, s) p =
      new_access_log-IsKept output format cs s p
  step-IsKept (closes_client i) (cs, s) p = close_nth-Reach i cs [] s p

  run-IsKept :
      (es : List Event) (st : List Client × Shared)
      → IsKept st
      → IsKept (run append_uint host hostname es st)
  unfolding run
  run-IsKept [] st p = p
  run-IsKept (e ∷ es) st p =
      run-IsKept es (step append_uint host hostname e st) (step-IsKept e st p)

  -- Loggers and access logs are opened for any outputs, with flags and formats that may be wrong,
  -- and closed in any order and any number of times. Then a rotator that was made is closed, and
  -- once, if every one that was opened with it is closed or could not be made, and it is not closed
  -- as long as one of them is open.
  pub run_closed_count :
      (es : List Event) (r : ℕ)
      → r < length (run append_uint host hostname es ([], nothing_shared)).1.counts
      → count r (run append_uint host hostname es ([], nothing_shared)).1.closed ≡ (
          if count r (held_by (run append_uint host hostname es ([], nothing_shared)).0) == 0
          then 1
          else 0)
  unfolding IsKept
  run_closed_count es r h =
      closed_count (run append_uint host hostname es ([], nothing_shared)).1
        (held_by (run append_uint host hostname es ([], nothing_shared)).0) r
        (run-IsKept es ([], nothing_shared) start) h
