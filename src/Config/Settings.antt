-- ===== src/Config/Settings.antt =====
-- pkg/config/config.go: the configuration, its defaults, and the checks that complete it.
pub mod Checked
use fasthttpd.Base.{
  ◌-◌, ◌/◌, ap, Bool, true, not, ◌&&◌, ◌||◌, Option, none, some, List, [], ◌∷◌, map, if◌then◌else◌,
  set, is_nil, Bytes, codes, contains, ℤ, pos,
}
use fasthttpd.Config.Server.{Server, named_server}
use fasthttpd.Route.Setup.{RouteConfig, RoutesCacheConfig}

pub record Ssl : Type 0 where
  pub cert_file : Bytes
  pub key_file : Bytes
  pub auto_cert : Bool
  pub auto_cert_cache_dir : Bytes

pub record Rotation : Type 0 where
  pub max_size : ℤ
  pub max_backups : ℤ
  pub max_age : ℤ
  pub compress : Bool
  pub local_time : Bool

pub record Log : Type 0 where
  pub output : Bytes
  pub prefix : Bytes
  pub flags : List Bytes
  pub rotation : Rotation

pub record AccessLog : Type 0 where
  pub output : Bytes
  pub format : Bytes
  pub queue_size : ℤ
  pub buffer_size : ℤ
  pub flush_interval : ℤ
  pub rotation : Rotation

-- `Config`; `Map` is a `tree.Map`, and the maps are association lists.
pub record Settings (Map : Type 0) : Type 0 where
  pub host : Bytes
  pub listen : Bytes
  pub ssl : Ssl
  pub root : Bytes
  pub server : Server
  pub log : Log
  pub access_log : AccessLog
  pub error_pages : List (Bytes × Bytes)
  pub filters : List (Bytes × Map)
  pub handlers : List (Bytes × Map)
  pub routes : List RouteConfig
  pub routes_cache : RoutesCacheConfig
  pub shutdown_timeout : Bytes

abbrev pub default_listen : Bytes
default_listen = codes ":8080"

abbrev pub default_server_name : Bytes
default_server_name = codes "fasthttpd"

abbrev pub default_shutdown_timeout : Bytes
default_shutdown_timeout = codes "30s"

unfoldable pub set_rotation_defaults : Rotation → Rotation
set_rotation_defaults r = record r {
  max_size = pos 100;
  max_backups = pos 14;
  max_age = pos 28;
  compress = true;
  local_time = true;
}

unfoldable pub set_log_defaults : Log → Log
set_log_defaults l = record l {
  flags = codes "date" ∷ codes "time" ∷ [];
  rotation = set_rotation_defaults l.rotation;
}

unfoldable pub set_access_log_defaults : AccessLog → AccessLog
set_access_log_defaults l = record l {
  buffer_size = pos 4096;
  flush_interval = pos 1000;
  rotation = set_rotation_defaults l.rotation;
}

-- `SSL.SetDefaults` changes nothing.
unfoldable pub set_defaults : {Map : Type 0} → Settings Map → Settings Map
set_defaults cfg = record cfg {
  listen = default_listen;
  server = named_server default_server_name;
  shutdown_timeout = default_shutdown_timeout;
  log = set_log_defaults cfg.log;
  access_log = set_access_log_defaults cfg.access_log;
}

pub data SettingsError : Type 0 where
  no_cache_dir : SettingsError
  bad_shutdown_timeout : Bytes → SettingsError
  unknown_handler : Bytes → SettingsError
  undecodable : SettingsError

pub data Normalized (A : Type 0) : Type 0 where
  ok : A → Normalized A
  err : SettingsError → Normalized A

infixl 5 ◌>>=◌
abbrev pub ◌>>=◌ : {A B : Type 0} → Normalized A → (A → Normalized B) → Normalized B
ok a >>= f = f a
err e >>= f = err e

-- The keys of a map.
unfoldable pub keys : {V : Type 0} → List (Bytes × V) → List Bytes
keys [] = []
keys ((k, v) ∷ m) = k ∷ keys m

-- The loop over the routes.
unfoldable pub check_routes : List Bytes → List RouteConfig → Normalized (Unit {0})
check_routes known [] = ok tt
check_routes known (route ∷ routes) =
    if is_nil route.handler || contains known route.handler
    then check_routes known routes
    else err (unknown_handler route.handler)

-- What is read of the surroundings: `os.UserCacheDir` with the path below it, and
-- `time.ParseDuration`.
pub record Surroundings : Type 0 where
  pub user_cert_dir : Option Bytes
  pub parse_duration : Bytes → Option ℤ

module _ (around : Surroundings) where
  open around use {user_cert_dir, parse_duration}

  unfoldable pub normalize_ssl : Ssl → Normalized Ssl
  normalize_ssl ssl =
      if ssl.auto_cert && is_nil ssl.auto_cert_cache_dir
      then elim user_cert_dir [
        | none ↦ err no_cache_dir
        | some dir ↦ ok (record ssl { auto_cert_cache_dir = dir })
      ]
      else ok ssl

  unfoldable pub check_timeout : Bytes → Normalized (Unit {0})
  check_timeout text =
      if is_nil text
      then ok tt
      else elim (parse_duration text) [ none ↦ err (bad_shutdown_timeout text) | some d ↦ ok tt ]

  unfoldable pub normalize : {Map : Type 0} → Settings Map → Normalized (Settings Map)
  normalize cfg = do
    ssl ← normalize_ssl cfg.ssl
    _ ← check_timeout cfg.shutdown_timeout
    _ ← check_routes (keys cfg.handlers) cfg.routes
    ok (record cfg { ssl = ssl })

  -- `ShutdownTimeoutDuration`
  unfoldable pub shutdown_timeout_duration : {Map : Type 0} → Settings Map → ℤ
  shutdown_timeout_duration cfg =
      if is_nil cfg.shutdown_timeout
      then pos 0
      else elim (parse_duration cfg.shutdown_timeout) [ none ↦ pos 0 | some d ↦ d ]

  -- `empty` is `Config{}`, and `decode` writes a document's YAML over a configuration.
  module _ {Map : Type 0} (empty : Settings Map)
      (decode : Map → Settings Map → Option (Settings Map)) where
    unfoldable pub from_tree_map : Map → Normalized (Settings Map)
    from_tree_map m = elim (decode m (set_defaults empty)) [
      | none ↦ err undecodable
      | some cfg ↦ normalize cfg
    ]

    unfoldable pub from_tree_maps : List Map → Normalized (List (Settings Map))
    from_tree_maps [] = ok []
    from_tree_maps (m ∷ ms) = do cfg ← from_tree_map m; cfgs ← from_tree_maps ms; ok (cfg ∷ cfgs)
