-- ===== src/Command/Startup/Shutdown.antt =====
-- pkg/cmd/fasthttpd.go: what a shutdown finds after the start.
use fasthttpd.Base.{
  ◌≡◌, refl, sym, ap, ◌∙◌, inl, inr, Bool, Option, some, List, [], ◌∷◌, ◌++◌, arith, Option-cases,
  eq_of_some, length, length-append, Bytes, ℤ, pos,
}
use fasthttpd.Config.Settings.{Settings, Surroundings, shutdown_timeout_duration}
use fasthttpd.Network.{Tls}
use fasthttpd.Command.Startup.{
  Listener, Listening, listens, refused, RunningServer, Started, listened_cfgs, shutdown, listen,
  StartedHere, run_server, start_with, start_one, start_all, start,
}

module _ {Map : Type 0} (around : Surroundings) where
  abbrev first_timeout : List (Settings Map) → ℤ
  first_timeout [] = pos 0
  first_timeout (cfg ∷ cfgs) = shutdown_timeout_duration around cfg

  -- Each server with the timeout of its first configuration.
  abbrev pub with_timeouts :
      {H L : Type 0} → List (RunningServer Map H L) → List (RunningServer Map H L × ℤ)
  with_timeouts [] = []
  with_timeouts (s ∷ servers) = (s, first_timeout s.configs) ∷ with_timeouts servers

  with_timeouts-append :
      {H L : Type 0} (ss ts : List (RunningServer Map H L))
      → with_timeouts (ss ++ ts) ≡ with_timeouts ss ++ with_timeouts ts
  with_timeouts-append [] ts = refl
  with_timeouts-append (s ∷ ss) ts =
      ap (λ l. (s, first_timeout s.configs) ∷ l) (with_timeouts-append ss ts)

shutdown-append :
    {S : Type 0} (ss : List S) (ts : List ℤ) (s : S) (t : ℤ) {r : List (S × ℤ)}
    → shutdown ss ts ≡ some r
    → length ss ≡ length ts
    → shutdown (ss ++ s ∷ []) (ts ++ t ∷ []) ≡ some (r ++ (s, t) ∷ [])
unfolding shutdown
shutdown-append [] [] s t h l = ap some (ap (λ r. r ++ (s, t) ∷ []) (eq_of_some h))
shutdown-append [] (u ∷ ts) s t h l = cc
shutdown-append (v ∷ ss) [] s t h l = cc
shutdown-append (v ∷ ss) (u ∷ ts) s t h l = elim (Option-cases (shutdown ss ts)) [
  | inl e ↦ cc (rw (e, shutdown) at h)
  | inr (r', e) ↦
      rw (shutdown-append ss ts s t e (omega arith), ← eq_of_some (rw (e, shutdown) at h)) refl
]

-- Each server has its timeout, so that a shutdown finds it.
abbrev IsAligned : {Map H L : Type 0} → Surroundings → Started Map H L → Type 0
IsAligned around st =
    (length st.servers ≡ length st.shutdown_timeouts)
    × (shutdown st.servers st.shutdown_timeouts ≡ some (with_timeouts around st.servers))

module _ {Map H Ln Hello Cert : Type 0} (tls : Tls Hello Cert) (around : Surroundings)
    (net_listen : Bytes → Bytes → Option (Bool × Ln))
    (new_server_handler : List (Settings Map) → Option H) where
  abbrev Here : Type 0
  Here = StartedHere tls around net_listen new_server_handler

  run_server-IsAligned :
      (address : Bytes) (cfgs : List (Settings Map)) (h : H) (cfg : Settings Map) (st : Here)
      (l : Listening (Listener Ln Hello Cert))
      → IsAligned around st
      → IsAligned around
          (run_server tls around net_listen new_server_handler address (cfg ∷ cfgs) h cfg st l).0
  run_server-IsAligned address cfgs h cfg st (refused e) a = a
  run_server-IsAligned address cfgs h cfg st (listens ln) (same, found) = (
    omega (
      arith,
      same,
      length-append st.servers (_ ∷ []),
      length-append st.shutdown_timeouts (_ ∷ []),
    ),
    shutdown-append st.servers st.shutdown_timeouts _ _ found same
        ∙ ap some (sym (with_timeouts-append around st.servers (_ ∷ []))),
  )

  start_with-IsAligned :
      (address : Bytes) (cfgs : List (Settings Map)) (h : H) (st : Here)
      → IsAligned around st
      → IsAligned around (start_with tls around net_listen new_server_handler address cfgs h st).0
  start_with-IsAligned address [] h st a = a
  start_with-IsAligned address (cfg ∷ cfgs) h st a =
      run_server-IsAligned address cfgs h cfg (record st { deferred = h ∷ st.deferred })
        (listen tls around net_listen new_server_handler address (cfg ∷ cfgs) cfg.server) a

  start_one-IsAligned :
      (address : Bytes) (cfgs : List (Settings Map)) (st : Here)
      → IsAligned around st
      → IsAligned around (start_one tls around net_listen new_server_handler address cfgs st).0
  unfolding start_one
  start_one-IsAligned address cfgs st a = elim (Option-cases (new_server_handler cfgs)) [
    | inl e ↦ rw (e, start_one) a
    | inr (h, e) ↦ rw (e, start_one) (start_with-IsAligned address cfgs h st a)
  ]

  start_all-IsAligned :
      (m : List (Bytes × List (Settings Map))) (st : Here)
      → IsAligned around st
      → IsAligned around (start_all tls around net_listen new_server_handler m st).0
  unfolding start_all
  start_all-IsAligned [] st a = a
  start_all-IsAligned ((address, cfgs) ∷ m) st a =
      let a' = start_one-IsAligned address cfgs st a in
      elim (Option-cases (start_one tls around net_listen new_server_handler address cfgs st).1) [
        | inl e ↦ rw (e, start_all) (start_all-IsAligned m _ a')
        | inr (err, e) ↦ rw (e, start_all) a'
      ]

  -- Whether all servers were started or one could not be: a shutdown after it finds the timeout of
  -- every server that was started, and it is that of the first configuration on its address.
  pub start-shutdown :
      (cfgs : List (Settings Map))
      → shutdown
          (start tls around net_listen new_server_handler cfgs).0.servers
          (start tls around net_listen new_server_handler cfgs).0.shutdown_timeouts
        ≡ some
            (with_timeouts around (start tls around net_listen new_server_handler cfgs).0.servers)
  unfolding start shutdown
  start-shutdown cfgs = (start_all-IsAligned (listened_cfgs cfgs []) _ (refl, refl)).1
