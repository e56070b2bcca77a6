-- ===== src/Command/Tests.antt =====
-- pkg/cmd: testing, dumping and starting evaluated.
use fasthttpd.Base.{
  ℕ, ◌≡◌, refl, ◌≢◌, Bool, true, false, Option, none, some, List, [], ◌∷◌, ◌++◌, map, length, Bytes,
  codes, bytes_eq, has_prefix, contains, pos,
}
use fasthttpd.Grouping.{append_at, at, IsDistinct}
use fasthttpd.Config.Load.{Files}
use fasthttpd.Config.Edit.{
  edit_tree_maps, edit_all, maps_from, complete, complete_left, complete_right, split_equals,
  is_literal, is_int,
}
use fasthttpd.Config.Settings.{
  Settings, from_tree_maps, from_tree_map, normalize, normalize_ssl, check_timeout, check_routes,
  keys, set_defaults,
}
use fasthttpd.Config.Samples.{no_settings}
use fasthttpd.Network.{Tls, multi_tls_config, collect, collect_one, start_managers, get_network}
use fasthttpd.Command.{
  System, Flags, done, run_configs, load_config, schema_errors, validate_tree_maps, split,
}
use fasthttpd.Command.Checks.{error_of, test-run}
use fasthttpd.Command.Dump.{
  Encoders, Streams, test_or_dump, test_configs, report, write_dump, write_pre_edit,
  write_tree_maps, write_yaml, write_encoded, write_configs, write,
}
use fasthttpd.Command.Dump.Stdout.{Shows, Reported, test_or_dump-Shows}
use fasthttpd.Command.Startup.{
  shutdown, start, start_all, start_one, listen, listened_cfgs, index_out_of_range,
}
use fasthttpd.Command.Startup.Shutdown.{with_timeouts, start-shutdown}
use fasthttpd.Command.Startup.Served.{served, listening_on, start-served}

-- A document is the host; a node is a list of documents, and edits change nothing.
abbrev flat : {A : Type 0} → List (List A) → List A
flat [] = []
flat (n ∷ ns) = n ++ flat ns

abbrev only : List Bytes → Option Bytes
only [] = none
only (m ∷ ms) = some m

abbrev no_files : Files Bytes
no_files = record {
  abs_path = λ p. some p;
  read_file = λ p. none;
  decode = λ b. none;
  include = λ m. [];
  glob = λ p. none;
}

abbrev sample_system : System Bytes (List Bytes)
sample_system = record {
  files = no_files;
  chdir = λ dir. some no_files;
  nodes = record {
    array = flat;
    node_of = λ m. m ∷ [];
    items = λ n. some (map (λ m. m ∷ []) n);
    map_of = only;
    edit = λ n e. some n;
  };
  quote = λ s. b'"' ∷ s ++ b'"' ∷ [];
  validate = λ i m. none;
  around = record { user_cert_dir = some (codes "/c/cert"); parse_duration = λ s. some (pos 30) };
  no_config = no_settings;
  decode = λ m cfg. some (record cfg { host = m });
  minimal_tree_map = codes "localhost";
}

-- Encoding a document is the document, and encoding configurations their hosts.
abbrev hosts_of : List (Settings Bytes) → Bytes
hosts_of [] = []
hosts_of (cfg ∷ cfgs) = cfg.host ++ hosts_of cfgs

abbrev sample_encoders : Encoders Bytes
sample_encoders = record {
  stops = λ w s b. none;
  marshal_yaml = λ m. some m;
  marshal_json = λ ms. some (flat ms);
  marshal_configs = λ cfgs. some (hosts_of cfgs);
  encode_configs = λ cfgs. some (hosts_of cfgs);
}

abbrev dump_flags : Bytes → Flags
dump_flags format = record {
  is_version = false;
  is_help = false;
  is_test = true;
  dump_format = format;
  config_file = [];
  edit_exprs = codes "root=./public" ∷ [];
}

abbrev no_output : Streams
no_output = record { stdout = []; stderr = [] }

test-run_example :
    (test_or_dump sample_encoders sample_system 1 (dump_flags []) false no_output).1
    ≡ error_of (run_configs sample_system 1 (dump_flags []))
test-run_example =
    test-run sample_encoders sample_system 1 (dump_flags []) false no_output refl (λ b. refl)

test_or_dump-Shows_example :
    Shows
      (λ out.
        (cfgs : List (Settings Bytes)) × (run_configs sample_system 1 (dump_flags (codes "yaml"))
          ≡ done cfgs)
        × Reported sample_encoders (dump_flags (codes "yaml")) cfgs out)
      []
      (test_or_dump sample_encoders sample_system 1 (dump_flags (codes "yaml")) true no_output)
test_or_dump-Shows_example =
    test_or_dump-Shows sample_encoders sample_system 1 (dump_flags (codes "yaml")) true no_output

-- The document as it was is dimmed on the standard error, and the configuration is on the standard output.
dumped : test_or_dump sample_encoders sample_system 1 (dump_flags (codes "yaml")) true no_output ≡ (
  record {
    stdout = codes "localhost";
    stderr = 27 ∷ codes "[2mlocalhost" ++ 10 ∷ 27 ∷ codes "[0m";
  },
  none,
)
unfolding test_or_dump test_configs report write_dump write_pre_edit write_tree_maps write_yaml
    write_encoded write_configs write load_config split edit_tree_maps edit_all maps_from complete
    complete_left complete_right split_equals is_literal is_int validate_tree_maps schema_errors
    from_tree_maps from_tree_map set_defaults normalize normalize_ssl check_timeout check_routes
    keys contains bytes_eq has_prefix
dumped = refl

abbrev no_tls : Tls Bytes Bytes
no_tls = record {
  load_key_pair = λ cert key. none;
  mkdir_all = λ dir. true;
  supports = λ hello cert. false;
  managed = λ dir hosts hello. none;
  alpn_proto = codes "acme-tls/1";
}

abbrev plain_host : Bytes → Bytes → Settings Bytes
plain_host host address = record no_settings {
  host = host;
  listen = address;
  ssl = record no_settings.ssl { auto_cert = false };
}

-- Two hosts on one address, and one on another.
abbrev three_hosts : List (Settings Bytes)
three_hosts =
    plain_host (codes "a") (codes ":80")
    ∷ plain_host (codes "b") (codes ":81")
    ∷ plain_host (codes "c") (codes ":80")
    ∷ []

abbrev any_listener : Bytes → Bytes → Option (Bool × Bytes)
any_listener net address = some (true, address)

abbrev any_handler : List (Settings Bytes) → Option ℕ
any_handler cfgs = some (length cfgs)

start-served_example :
    ((start no_tls sample_system.around any_listener any_handler three_hosts).1 ≡ none
      → IsDistinct (
          served (start no_tls sample_system.around any_listener any_handler three_hosts).0.servers)
        × ((address : Bytes)
            → at address (
                served
                  (start no_tls sample_system.around any_listener any_handler
                    three_hosts).0.servers)
              ≡ listening_on address three_hosts))
    × ((start no_tls sample_system.around any_listener any_handler three_hosts).1
        ≢ some index_out_of_range)
start-served_example = start-served no_tls sample_system.around any_listener any_handler three_hosts

start-shutdown_example :
    shutdown
      (start no_tls sample_system.around any_listener any_handler three_hosts).0.servers
      (start no_tls sample_system.around any_listener any_handler three_hosts).0.shutdown_timeouts
    ≡ some (
        with_timeouts sample_system.around
          (start no_tls sample_system.around any_listener any_handler three_hosts).0.servers)
start-shutdown_example =
    start-shutdown no_tls sample_system.around any_listener any_handler three_hosts

three_served :
    served (start no_tls sample_system.around any_listener any_handler three_hosts).0.servers
    ≡ (
      codes ":80",
      plain_host (codes "a") (codes ":80") ∷ plain_host (codes "c") (codes ":80") ∷ [],
    )
      ∷ (codes ":81", plain_host (codes "b") (codes ":81") ∷ [])
      ∷ []
unfolding start start_all start_one listen listened_cfgs append_at multi_tls_config collect
    collect_one start_managers get_network bytes_eq
three_served = refl
