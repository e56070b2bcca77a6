-- ===== src/Logger/Outputs.antt =====
-- pkg/logger: loggers and access logs share rotators, and each is opened and closed on its own.
pub mod Closed
use fasthttpd.Base.{
  ℕ, zero, suc, ◌-◌, ◌/◌, ap, Bool, true, false, not, Option, none, some, List, [], ◌∷◌,
  if◌then◌else◌, Bytes, ℤ,
}
use fasthttpd.Rotator.{Shared}
use fasthttpd.Rotator.Reach.{nothing_shared}
use fasthttpd.Logger.{Logger, new_logger, close_logger, close_rotator}
use fasthttpd.AccessLog.Ncsa.Format.{Hostname}
use fasthttpd.AccessLog.Open.{Opened, nil_access_log, access_log, new_access_log}

-- Who uses a rotator: a logger, or an access log and whether it is closed.
pub data Client : Type 0 where
  log_client : Logger → Client
  access_log_client : Opened → Bool → Client

-- The rotator of `accessLog.out`.
unfoldable pub out : Opened → Option ℕ
out nil_access_log = none
out (access_log r lines) = some r

-- The calls of `Close`; that of an access log returns at once when it is closed.
unfoldable pub close_client : Client → Shared → Client × Shared
close_client (log_client l) s = let (l', s') = close_logger l s in (log_client l', s')
close_client (access_log_client o true) s = (access_log_client o true, s)
close_client (access_log_client o false) s = (access_log_client o true, close_rotator (out o) s)

unfoldable pub close_nth : ℕ → List Client → Shared → List Client × Shared
close_nth i [] s = ([], s)
close_nth zero (c ∷ cs) s = let (c', s') = close_client c s in (c' ∷ cs, s')
close_nth (suc i) (c ∷ cs) s = let (cs', s') = close_nth i cs s in (c ∷ cs', s')

pub data Event : Type 0 where
  opens_log : Bytes → List Bytes → Event
  opens_access_log : Bytes → Bytes → Event
  closes_client : ℕ → Event

-- A client that could not be made is not kept.
unfoldable pub keep :
    {A : Type 0} → (A → Client) → List Client → Option A × Shared → List Client × Shared
keep client cs (none, s) = (cs, s)
keep client cs (some a, s) = (client a ∷ cs, s)

module _ (append_uint : Bytes → ℤ → Option Bytes) (host : Bytes) (hostname : Hostname) where
  unfoldable pub step : Event → List Client × Shared → List Client × Shared
  step (opens_log output flags) (cs, s) = keep log_client cs (new_logger output flags s)
  step (opens_access_log output format) (cs, s) =
      keep (λ o. access_log_client o false) cs
        (new_access_log append_uint host hostname output format s)
  step (closes_client i) (cs, s) = close_nth i cs s

  unfoldable pub run : List Event → List Client × Shared → List Client × Shared
  run [] st = st
  run (e ∷ es) st = run es (step e st)
