-- ===== src/Network.antt =====
-- pkg/net: listeners that keep connections alive, and the TLS configuration of the hosts of a
-- listener. What crypto/tls and autocert do is the record `Tls`.
pub mod Laws
mod Tests
use fasthttpd.Base.{
  ℕ, suc, ◌+◌, ◌-◌, ◌*◌, ◌/◌, ap, Bool, not, ◌&&◌, Option, none, some, List, [], ◌∷◌, ◌++◌, leb,
  ◌==◌, if◌then◌else◌, is_some, set, is_nil, Bytes, codes, index_byte, ℤ, pos, is_positive,
}
use fasthttpd.Grouping.{append_at}
use fasthttpd.Util.StringSet.{append}
use fasthttpd.Config.Settings.{Settings, Ssl}

-- `strings.Count(s, ":")`
abbrev count_colons : Bytes → ℕ
count_colons [] = 0
count_colons (c ∷ s) = if c == b':' then suc (count_colons s) else count_colons s

unfoldable pub get_network : Bytes → Bytes
get_network listen = if leb 2 (count_colons listen) then codes "tcp6" else codes "tcp4"

-- What `Accept` does with connections.
pub record Connections (Conn : Type 0) : Type 0 where
  pub accept_tcp : Option Conn
  pub set_keep_alive : Bool → Conn → Option Conn
  pub set_keep_alive_period : ℤ → Conn → Option Conn
  pub close_conn : Conn → Conn

-- A connection, or an error with the connection that was closed for it.
pub data Accepted (Conn : Type 0) : Type 0 where
  accepted : Conn → Accepted Conn
  refused : Option Conn → Accepted Conn

unfoldable pub accept : {Conn : Type 0} → Connections Conn → Bool → ℤ → Accepted Conn
accept net keepalive period = elim net.accept_tcp [
  | none ↦ refused none
  | some tc ↦ elim (net.set_keep_alive keepalive tc) [
    | none ↦ refused (some (net.close_conn tc))
    | some alive ↦
        if is_positive period
        then elim (net.set_keep_alive_period period alive) [
          | none ↦ refused (some (net.close_conn alive))
          | some timed ↦ accepted timed
        ]
        else accepted alive
  ]
]

-- Reading a key pair, making a directory (whether it succeeds), whether a certificate fits a hello,
-- and `GetCertificate` of the manager of a directory with a white list of hosts; `alpn_proto` is `acme.ALPNProto`.
pub record Tls (Hello Cert : Type 0) : Type 0 where
  pub load_key_pair : Bytes → Bytes → Option Cert
  pub mkdir_all : Bytes → Bool
  pub supports : Hello → Cert → Bool
  pub managed : Bytes → List Bytes → Hello → Option Cert
  pub alpn_proto : Bytes

pub data TlsError : Type 0 where
  not_supported_wildcard : TlsError
  bad_key_pair : Bytes → Bytes → TlsError
  no_directory : Bytes → TlsError
  no_certificates : TlsError

pub data Made (A : Type 0) : Type 0 where
  made : A → Made A
  failed : TlsError → Made A

infixl 5 ◌>>=◌
abbrev pub ◌>>=◌ : {A B : Type 0} → Made A → (A → Made B) → Made B
made a >>= f = f a
failed e >>= f = failed e

-- The variables of `MultiTLSConfig`.
pub record Collected (Cert : Type 0) : Type 0 where
  pub certs : List Cert
  pub next_protos : List Bytes
  pub auto_cert_cache_dir_to_hosts : List (Bytes × List Bytes)

-- The certificates are in the configuration, or are asked for, first those and then the functions.
pub data TlsConfig (Hello Cert : Type 0) : Type 0 where
  static : List Bytes → List Cert → TlsConfig Hello Cert
  dynamic : List Bytes → List Cert → List (Hello → Option Cert) → TlsConfig Hello Cert

module _ {Hello Cert : Type 0} (tls : Tls Hello Cert) where
  open tls use {load_key_pair, mkdir_all, supports, managed, alpn_proto}

  -- The body of the loop over the configurations.
  unfoldable pub collect_one :
      {Map : Type 0} → Settings Map → Collected Cert → Made (Collected Cert)
  collect_one cfg c =
      if cfg.ssl.auto_cert
      then (if is_some (index_byte cfg.host b'*')
          then failed not_supported_wildcard
          else made (record c {
            auto_cert_cache_dir_to_hosts =
                append_at cfg.ssl.auto_cert_cache_dir cfg.host c.auto_cert_cache_dir_to_hosts;
          }))
      else if not (is_nil cfg.ssl.cert_file) && not (is_nil cfg.ssl.key_file)
      then elim (load_key_pair cfg.ssl.cert_file cfg.ssl.key_file) [
        | none ↦ failed (bad_key_pair cfg.ssl.cert_file cfg.ssl.key_file)
        | some cert ↦ made (record c {
          certs = c.certs ++ cert ∷ [];
          next_protos = append c.next_protos (codes "http/1.1" ∷ []);
        })
      ]
      else made c

  unfoldable pub collect :
      {Map : Type 0} → List (Settings Map) → Collected Cert → Made (Collected Cert)
  collect [] c = made c
  collect (cfg ∷ cfgs) c = do c' ← collect_one cfg c; collect cfgs c'

  -- The loop over the directories, with the functions that it appends.
  unfoldable pub start_managers :
      List (Bytes × List Bytes) → List Bytes → Made (List (Hello → Option Cert) × List Bytes)
  start_managers [] protos = made ([], protos)
  start_managers ((dir, hosts) ∷ dirs) protos =
      if mkdir_all dir
      then (do
        r ← start_managers dirs (append protos (codes "http/1.1" ∷ alpn_proto ∷ []))
        made (managed dir hosts ∷ r.0, r.1))
      else failed (no_directory dir)

  abbrev tls_config :
      List Cert → List (Hello → Option Cert) → List Bytes → Option (TlsConfig Hello Cert)
  tls_config certs fns protos =
      if is_nil fns
      then (if is_nil certs then none else some (static protos certs))
      else some (dynamic protos certs fns)

  -- `none` is a nil configuration.
  unfoldable pub multi_tls_config :
      {Map : Type 0} → List (Settings Map) → Made (Option (TlsConfig Hello Cert))
  multi_tls_config cfgs = do
    c ← collect cfgs (record { certs = []; next_protos = []; auto_cert_cache_dir_to_hosts = [] })
    r ← start_managers c.auto_cert_cache_dir_to_hosts c.next_protos
    made (tls_config c.certs r.0 r.1)

  unfoldable pub find_supported : Hello → List Cert → Option Cert
  find_supported hello [] = none
  find_supported hello (cert ∷ certs) =
      if supports hello cert then some cert else find_supported hello certs

  unfoldable pub ask : Hello → List (Hello → Option Cert) → Option Cert
  ask hello [] = none
  ask hello (fn ∷ fns) = elim (fn hello) [ none ↦ ask hello fns | some cert ↦ some cert ]

  abbrev first_of : List Cert → Made Cert
  first_of [] = failed no_certificates
  first_of (cert ∷ certs) = made cert

  unfoldable pub get_certificate : List Cert → List (Hello → Option Cert) → Hello → Made Cert
  get_certificate certs fns hello = elim (find_supported hello certs) [
    | some cert ↦ made cert
    | none ↦ elim (ask hello fns) [ none ↦ first_of certs | some cert ↦ made cert ]
  ]
