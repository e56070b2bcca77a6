-- ===== src/Command/Startup/Served.antt =====
-- pkg/cmd/fasthttpd.go: what is served after the start, and what a shutdown finds.
use fasthttpd.Base.{
  if_cases, ◌≡◌, refl, sym, ap, ◌∙◌, ◌≢◌, inl, inr, Bool, false, Option, none, some, List, [], ◌∷◌,
  ◌++◌, append_assoc, append-nil, if◌then◌else◌, Bool-cases, Option-cases, eq_of_some, is_nil, All,
  Bytes, bytes_eq,
}
use fasthttpd.Grouping.{append_at, at, at-append_at, IsDistinct, append_at-IsDistinct}
use fasthttpd.Config.Settings.{Settings, Surroundings}
use fasthttpd.Config.Server.{Server}
use fasthttpd.Network
use fasthttpd.Network.{Tls, TlsConfig, Made, made, get_network, multi_tls_config}
use mathlib.Core.Path.{subst}
use fasthttpd.Command.Startup.{
  Listener, StartError, index_out_of_range, Listening, listens, refused, RunningServer,
  listened_cfgs, listen, with_tls, StartedHere, run_server, start_one, start_all, start,
}

-- The configurations that listen on the address.
abbrev pub listening_on : {Map : Type 0} → Bytes → List (Settings Map) → List (Settings Map)
listening_on address [] = []
listening_on address (cfg ∷ cfgs) =
    if bytes_eq cfg.listen address
    then cfg ∷ listening_on address cfgs
    else listening_on address cfgs

listened_cfgs-on :
    {Map : Type 0} (cfgs : List (Settings Map)) (m : List (Bytes × List (Settings Map)))
    → IsDistinct m
    → IsDistinct (listened_cfgs cfgs m)
      × ((address : Bytes)
          → at address (listened_cfgs cfgs m) ≡ at address m ++ listening_on address cfgs)
unfolding listened_cfgs
listened_cfgs-on [] m d = (d, λ address. sym (append-nil _))
listened_cfgs-on (cfg ∷ cfgs) m d =
    let (distinct, found) =
      listened_cfgs-on cfgs (append_at cfg.listen cfg m)
        (append_at-IsDistinct cfg.listen cfg m d) in
    (
      distinct,
      λ address.
          found address
          ∙ ap (λ l. l ++ listening_on address cfgs) (at-append_at address cfg.listen cfg m)
          ∙ elim (Bool-cases (bytes_eq cfg.listen address)) [
            | inl q ↦ rw q (append_assoc (at address m) (cfg ∷ []) _)
            | inr q ↦ rw q refl
          ],
    )

-- No address is without configurations.
abbrev IsUsed : {Map : Type 0} → List (Bytes × List (Settings Map)) → Type 0
IsUsed m = All (λ e. is_nil e.1 ≡ false) m

append-IsUsed : {A : Type 0} (xs : List A) (x : A) → is_nil (xs ++ x ∷ []) ≡ false
append-IsUsed [] x = refl
append-IsUsed (y ∷ xs) x = refl

append_at-IsUsed :
    {Map : Type 0} (address : Bytes) (cfg : Settings Map) (m : List (Bytes × List (Settings Map)))
    → IsUsed m
    → IsUsed (append_at address cfg m)
unfolding append_at
append_at-IsUsed address cfg [] u = (refl, tt)
append_at-IsUsed address cfg ((k, vs) ∷ m) (n, u) =
    if_cases IsUsed (bytes_eq k address) ((k, vs ++ cfg ∷ []) ∷ m)
      ((k, vs) ∷ append_at address cfg m) (λ q. (append-IsUsed vs cfg, u))
      (λ q. (n, append_at-IsUsed address cfg m u))

listened_cfgs-IsUsed :
    {Map : Type 0} (cfgs : List (Settings Map)) (m : List (Bytes × List (Settings Map)))
    → IsUsed m
    → IsUsed (listened_cfgs cfgs m)
unfolding listened_cfgs
listened_cfgs-IsUsed [] m u = u
listened_cfgs-IsUsed (cfg ∷ cfgs) m u =
    listened_cfgs-IsUsed cfgs _ (append_at-IsUsed cfg.listen cfg m u)

-- The address and the configurations of each server.
abbrev pub served :
    {Map H L : Type 0} → List (RunningServer Map H L) → List (Bytes × List (Settings Map))
served [] = []
served (s ∷ servers) = (s.address, s.configs) ∷ served servers

served-append :
    {Map H L : Type 0} (ss ts : List (RunningServer Map H L))
    → served (ss ++ ts) ≡ served ss ++ served ts
served-append [] ts = refl
served-append (s ∷ ss) ts = ap (λ l. (s.address, s.configs) ∷ l) (served-append ss ts)

module _ {Map H Ln Hello Cert : Type 0} (tls : Tls Hello Cert) (around : Surroundings)
    (net_listen : Bytes → Bytes → Option (Bool × Ln))
    (new_server_handler : List (Settings Map) → Option H) where
  abbrev Here : Type 0
  Here = StartedHere tls around net_listen new_server_handler

  with_tls-in_range :
      (ln : Listener Ln Hello Cert) (m : Made (Option (TlsConfig Hello Cert)))
      → with_tls tls around net_listen new_server_handler ln m ≢ refused index_out_of_range
  with_tls-in_range ln (Network.failed e) h = cc
  with_tls-in_range ln (made none) h = cc
  with_tls-in_range ln (made (some cfg)) h = cc

  -- What is started for addresses, where `p` is the state after it with the error.
  abbrev Starts : Here → List (Bytes × List (Settings Map)) → Here × Option StartError → Type 0
  Starts st m p =
      (p.1 ≡ none → served p.0.servers ≡ served st.servers ++ m) × (p.1 ≢ some index_out_of_range)

  listen-in_range :
      (address : Bytes) (cfgs : List (Settings Map)) (server : Server)
      → listen tls around net_listen new_server_handler address cfgs server
        ≢ refused index_out_of_range
  unfolding listen
  listen-in_range address cfgs server h =
      elim (Option-cases (net_listen (get_network address) address)) [
        | inl e ↦ cc (rw (e, listen) at h)
        | inr (ln, e) ↦ with_tls-in_range _ (multi_tls_config tls cfgs) (rw (e, listen) at h)
      ]

  run_server-Starts :
      (address : Bytes) (cfgs : List (Settings Map)) (h : H) (cfg : Settings Map) (st : Here)
      (l : Listening (Listener Ln Hello Cert))
      → (l ≢ refused index_out_of_range)
      → Starts st
          ((address, cfg ∷ cfgs) ∷ [])
          (run_server tls around net_listen new_server_handler address (cfg ∷ cfgs) h cfg st l)
  run_server-Starts address cfgs h cfg st (refused e) ne =
      (λ q. cc, λ q. ne (ap refused (eq_of_some q)))
  run_server-Starts address cfgs h cfg st (listens ln) ne =
      (λ q. served-append st.servers (_ ∷ []), λ q. cc)

  start_one-Starts :
      (address : Bytes) (cfgs : List (Settings Map)) (st : Here)
      → is_nil cfgs ≡ false
      → Starts st
          ((address, cfgs) ∷ [])
          (start_one tls around net_listen new_server_handler address cfgs st)
  unfolding start_one
  start_one-Starts address [] st n = cc
  start_one-Starts address (cfg ∷ cfgs) st n =
      elim (Option-cases (new_server_handler (cfg ∷ cfgs))) [
        | inl e ↦ rw (e, start_one) (λ q. cc, λ q. cc)
        | inr (h, e) ↦
            rw (e, start_one)
              (run_server-Starts address cfgs h cfg (record st { deferred = h ∷ st.deferred }) _
                (listen-in_range address (cfg ∷ cfgs) cfg.server))
      ]

  start_all-Starts :
      (m : List (Bytes × List (Settings Map))) (st : Here)
      → IsUsed m
      → Starts st m (start_all tls around net_listen new_server_handler m st)
  unfolding start_all
  start_all-Starts [] st u = (λ q. sym (append-nil _), λ q. cc)
  start_all-Starts ((address, cfgs) ∷ m) st (n, u) =
      let (one, in_range) = start_one-Starts address cfgs st n in
      elim (Option-cases (start_one tls around net_listen new_server_handler address cfgs st).1) [
        | inl e ↦
            let (rest, rest_in_range) =
              start_all-Starts m
                (start_one tls around net_listen new_server_handler address cfgs st).0 u in
            rw (e, start_all)
              (
                λ q.
                    rest q ∙ ap (λ l. l ++ m) (one e) ∙ append_assoc (served st.servers) (_ ∷ []) m,
                rest_in_range,
              )
        | inr (err, e) ↦ rw (e, start_all) (λ q. cc, λ q. in_range (e ∙ q))
      ]

  -- After a start without an error each address that a configuration listens on has one server, and
  -- it serves the configurations that listen on it in their order; no start reads past the end of a
  -- list of configurations.
  pub start-served :
      (cfgs : List (Settings Map))
      → ((start tls around net_listen new_server_handler cfgs).1 ≡ none
          → IsDistinct (served (start tls around net_listen new_server_handler cfgs).0.servers)
            × ((address : Bytes)
                → at address
                    (served (start tls around net_listen new_server_handler cfgs).0.servers)
                  ≡ listening_on address cfgs))
        × ((start tls around net_listen new_server_handler cfgs).1 ≢ some index_out_of_range)
  unfolding start
  start-served cfgs =
      let (distinct, found) = listened_cfgs-on cfgs [] tt in
      let (all, in_range) =
        start_all-Starts (listened_cfgs cfgs []) _ (listened_cfgs-IsUsed cfgs [] tt) in
      (
        λ q. (
          subst IsDistinct (sym (all q)) distinct,
          λ address. ap (at address) (all q) ∙ found address,
        ),
        in_range,
      )
