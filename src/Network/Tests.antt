-- ===== src/Network/Tests.antt =====
-- pkg/net: two hosts with certificates of their own directories.
use fasthttpd.Base.{
  ◌≡◌, refl, true, false, Option, none, some, List, [], ◌∷◌, if◌then◌else◌, Bytes, codes, contains,
}
use fasthttpd.Config.Settings.{Settings}
use fasthttpd.Config.Samples.{no_settings}
use fasthttpd.Network.{get_network, Tls}

-- A certificate is the name of its host.
abbrev own_certs : Tls Bytes Bytes
own_certs = record {
  load_key_pair = λ cert key. some cert;
  mkdir_all = λ dir. true;
  supports = λ hello cert. false;
  managed = λ dir hosts hello. if contains hosts hello then some hello else none;
  alpn_proto = codes "acme-tls/1";
}

abbrev auto_host : Bytes → Bytes → Settings Bytes
auto_host host dir = record no_settings {
  host = host;
  ssl = record { cert_file = []; key_file = []; auto_cert = true; auto_cert_cache_dir = dir };
}

abbrev two_hosts : List (Settings Bytes)
two_hosts =
    auto_host (codes "a.example") (codes "/a") ∷ auto_host (codes "b.example") (codes "/b") ∷ []

abbrev two_managers : List (Bytes → Option Bytes)
two_managers =
    own_certs.managed (codes "/a") (codes "a.example" ∷ [])
    ∷ own_certs.managed (codes "/b") (codes "b.example" ∷ [])
    ∷ []

six : get_network (codes "[::1]:80") ≡ codes "tcp6"
unfolding get_network
six = refl
