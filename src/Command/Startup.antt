-- ===== src/Command/Startup.antt =====
-- pkg/cmd/fasthttpd.go: a server for each address that configurations listen on, and its end.
pub mod Served
pub mod Shutdown
use fasthttpd.Base.{
  ◌+◌, ◌-◌, ◌/◌, ap, Bool, not, Option, none, some, List, [], ◌∷◌, ◌++◌, if◌then◌else◌, Bytes, ℤ,
}
use fasthttpd.Grouping.{append_at}
use fasthttpd.Config.Server.{Server}
use fasthttpd.Config.Settings.{Settings, Surroundings, shutdown_timeout_duration}
use fasthttpd.Network
use fasthttpd.Network.{Tls, TlsError, TlsConfig, Made, made, get_network, multi_tls_config}

-- A listener of package net, the one that keeps TCP connections alive, and one with TLS.
pub data Listener (Ln Hello Cert : Type 0) : Type 0 where
  plain : Ln → Listener Ln Hello Cert
  keeps_alive : Bool → ℤ → Ln → Listener Ln Hello Cert
  over_tls : Listener Ln Hello Cert → TlsConfig Hello Cert → Listener Ln Hello Cert

pub data StartError : Type 0 where
  no_handler : Bytes → StartError
  not_listening : Bytes → StartError
  no_tls : TlsError → StartError
  index_out_of_range : StartError

pub data Listening (L : Type 0) : Type 0 where
  listens : L → Listening L
  refused : StartError → Listening L

-- A server with its address, its configurations and what it serves.
pub record RunningServer (Map H L : Type 0) : Type 0 where
  pub address : Bytes
  pub configs : List (Settings Map)
  pub handler : H
  pub listener : L

-- The handlers whose `Close` is deferred, the last first, and `servers` and `shutdownTimeouts`.
pub record Started (Map H L : Type 0) : Type 0 where
  pub deferred : List H
  pub servers : List (RunningServer Map H L)
  pub shutdown_timeouts : List ℤ

-- The loop that fills `listenedCfgs`.
unfoldable pub listened_cfgs :
    {Map : Type 0}
    → List (Settings Map)
    → List (Bytes × List (Settings Map))
    → List (Bytes × List (Settings Map))
listened_cfgs [] m = m
listened_cfgs (cfg ∷ cfgs) m = listened_cfgs cfgs (append_at cfg.listen cfg m)

-- `Shutdown`: each server with its timeout; `none` is an index out of range.
unfoldable pub shutdown : {S : Type 0} → List S → List ℤ → Option (List (S × ℤ))
shutdown [] timeouts = some []
shutdown (s ∷ servers) [] = none
shutdown (s ∷ servers) (t ∷ timeouts) = elim (shutdown servers timeouts) [
  | none ↦ none
  | some rest ↦ some ((s, t) ∷ rest)
]

-- `net_listen` is `net.Listen`, with whether it gives a TCP listener, and `new_server_handler` that
-- of package handler.
module _ {Map H Ln Hello Cert : Type 0} (tls : Tls Hello Cert) (around : Surroundings)
    (net_listen : Bytes → Bytes → Option (Bool × Ln))
    (new_server_handler : List (Settings Map) → Option H) where
  abbrev pub kept_alive : Server → Bool × Ln → Listener Ln Hello Cert
  kept_alive server (is_tcp, ln) =
      if is_tcp then keeps_alive server.tcp_keepalive server.tcp_keepalive_period ln else plain ln

  abbrev pub with_tls :
      Listener Ln Hello Cert
      → Made (Option (TlsConfig Hello Cert))
      → Listening (Listener Ln Hello Cert)
  with_tls ln (Network.failed e) = refused (no_tls e)
  with_tls ln (made none) = listens ln
  with_tls ln (made (some cfg)) = listens (over_tls ln cfg)

  unfoldable pub listen : Bytes → List (Settings Map) → Server → Listening (Listener Ln Hello Cert)
  listen address cfgs server = elim (net_listen (get_network address) address) [
    | none ↦ refused (not_listening address)
    | some ln ↦ with_tls (kept_alive server ln) (multi_tls_config tls cfgs)
  ]

  abbrev pub StartedHere : Type 0
  StartedHere = Started Map H (Listener Ln Hello Cert)

  abbrev pub run_server :
      Bytes
      → List (Settings Map)
      → H
      → Settings Map
      → StartedHere
      → Listening (Listener Ln Hello Cert)
      → StartedHere × Option StartError
  run_server address cfgs h cfg st (refused e) = (st, some e)
  run_server address cfgs h cfg st (listens ln) = (
    record st {
      servers =
          st.servers
          ++ record { address = address; configs = cfgs; handler = h; listener = ln } ∷ [];
      shutdown_timeouts = st.shutdown_timeouts ++ shutdown_timeout_duration around cfg ∷ [];
    },
    none,
  )

  -- With a handler, whose `Close` is deferred.
  abbrev pub start_with :
      Bytes → List (Settings Map) → H → StartedHere → StartedHere × Option StartError
  start_with address [] h st = (record st { deferred = h ∷ st.deferred }, some index_out_of_range)
  start_with address (cfg ∷ cfgs) h st =
      run_server address (cfg ∷ cfgs) h cfg (record st { deferred = h ∷ st.deferred })
        (listen address (cfg ∷ cfgs) cfg.server)

  -- The body of the loop over the addresses; the error is what `run` returns.
  unfoldable pub start_one :
      Bytes → List (Settings Map) → StartedHere → StartedHere × Option StartError
  start_one address cfgs st = elim (new_server_handler cfgs) [
    | none ↦ (st, some (no_handler address))
    | some h ↦ start_with address cfgs h st
  ]

  unfoldable pub start_all :
      List (Bytes × List (Settings Map)) → StartedHere → StartedHere × Option StartError
  start_all [] st = (st, none)
  start_all ((address, cfgs) ∷ m) st =
      let (st', err) = start_one address cfgs st in
      let rest = start_all m st' in elim err [ none ↦ rest | some e ↦ (st', some e) ]

  abbrev pub nothing_started : StartedHere
  nothing_started = record { deferred = []; servers = []; shutdown_timeouts = [] }

  -- `run` from the configurations until all servers serve, or one cannot.
  unfoldable pub start : List (Settings Map) → StartedHere × Option StartError
  start cfgs = start_all (listened_cfgs cfgs []) nothing_started
