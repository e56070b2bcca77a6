-- ===== src/Network/Laws.antt =====
-- pkg/net/tls.go: which certificate a host gets.
use fasthttpd.Base.{◌&&◌, Option, List, [], ◌∷◌, if◌then◌else◌, Bytes, bytes_eq}
use fasthttpd.Grouping.{append_at}
use fasthttpd.Config.Settings.{Settings}
use fasthttpd.Network.{Tls}

-- The hosts of the configurations that ask for certificates kept in the directory.
abbrev pub hosts_at : {Map : Type 0} → Bytes → List (Settings Map) → List Bytes
hosts_at dir [] = []
hosts_at dir (cfg ∷ cfgs) =
    if cfg.ssl.auto_cert && bytes_eq cfg.ssl.auto_cert_cache_dir dir
    then cfg.host ∷ hosts_at dir cfgs
    else hosts_at dir cfgs

module _ {Hello Cert : Type 0} (tls : Tls Hello Cert) where
  abbrev one_more :
      {Map : Type 0} → Settings Map → List (Bytes × List Bytes) → List (Bytes × List Bytes)
  one_more cfg m = if cfg.ssl.auto_cert then append_at cfg.ssl.auto_cert_cache_dir cfg.host m else m

  -- The functions of the entries.
  abbrev asked : List (Bytes × List Bytes) → List (Hello → Option Cert)
  asked [] = []
  asked ((dir, hosts) ∷ dirs) = tls.managed dir hosts ∷ asked dirs
