-- ===== src/Handler/Setup/Tests.antt =====
-- pkg/handler/server.go: a host handler made from a configuration.
use fasthttpd.Base.{
  ◌≡◌, refl, ◌≢◌, false, Option, none, some, [], ◌∷◌, length, Bytes, codes, bytes_eq, has_prefix,
  lookup, contains, ℤ, pos,
}
use fasthttpd.Config.Settings.{Settings, keys}
use fasthttpd.Config.Samples.{no_settings}
use fasthttpd.Rotator.{shared_rotator}
use fasthttpd.Rotator.Reach.{nothing_shared}
use fasthttpd.Logger.{new_logger, add_flags}
use fasthttpd.AccessLog.Open.{new_access_log}
use fasthttpd.Route.{Regexp, prefix}
use fasthttpd.Route.Setup.{
  new_routes, new_route_list, new_route, check_filters, check_handler, init_match_path,
}
use fasthttpd.Handler.ErrorPages.{new_error_pages}
use fasthttpd.Handler.Samples.{Context, plain_http, get_page, serve_file}
use fasthttpd.Handler.Server.{HostHandler, handle, panic}
use fasthttpd.Handler.Setup.{
  Makers, made, failed, no_handler, new_handler, new_filter, init_filters, init_handlers,
  init_behind_logs, new_host_handler,
}
use fasthttpd.Handler.Setup.Served.{new_host_handler-ne-panic}

abbrev plain_regexp : Regexp Bytes
plain_regexp = record {
  compile = λ s. some s;
  matches = λ p path. has_prefix path p;
  replace_all = λ p path template. template;
}

-- One type of handlers; a configuration is the name of its type.
abbrev file_makers : Makers Context Bytes
file_makers = record {
  typed_new_filter_func = [];
  typed_new_handler_func = (codes "fs", λ cfg l. some serve_file) ∷ [];
  type_of = λ m. m;
  root_of = λ m. [];
  set_root = λ root m. m;
  logged_by = λ al. record { collect = λ c. c; log = λ c. c };
  new_fs = λ root. serve_file;
}

abbrev file_settings : Settings Bytes
file_settings = record no_settings {
  handlers = (codes "static", codes "fs") ∷ [];
  error_pages = [];
}

abbrev no_uint : Bytes → ℤ → Option Bytes
no_uint b n = none

abbrev file_host : HostHandler Context Bytes
file_host = record {
  host_bytes = [];
  access_log = record { collect = λ c. c; log = λ c. c };
  error_pages = record { status_to_path = []; fs = none; error_paths = [] };
  filters = [];
  handlers = (codes "static", serve_file) ∷ [];
  routes = record {
    routes =
        record {
          methods_bytes = [];
          filters = [];
          rewrite_uri_bytes = [];
          rewrite_append_query_string = false;
          handler = codes "static";
          status_code = pos 0;
          status_message_bytes = [];
          match_path = prefix (codes "/");
          next_if_not_found = false;
        }
        ∷ [];
    cache = none;
  };
}

file_host-made :
    (new_host_handler file_makers plain_regexp no_uint none file_settings 0 ([], nothing_shared)).0
    ≡ made file_host
unfolding new_host_handler init_behind_logs init_filters init_handlers new_filter new_handler
    new_error_pages new_logger add_flags new_access_log shared_rotator keys new_routes
    new_route_list new_route check_filters check_handler contains init_match_path bytes_eq lookup
file_host-made = refl

new_host_handler-ne-panic_example :
    handle plain_http plain_regexp length (λ n. n) 3 file_host [] get_page ≢ panic
new_host_handler-ne-panic_example =
    new_host_handler-ne-panic file_makers plain_regexp no_uint none plain_http length (λ n. n)
      file_settings 0 [] nothing_shared file_host 3 [] get_page file_host-made refl tt

-- A handler of a type that is not registered.
no_type :
    (new_host_handler file_makers plain_regexp no_uint none
      (record file_settings { handlers = (codes "static", codes "proxy") ∷ [] })
      0
      ([], nothing_shared)).0
    ≡ failed (no_handler (codes "static"))
unfolding new_host_handler init_behind_logs init_filters init_handlers new_filter new_handler
    new_logger new_access_log shared_rotator bytes_eq lookup
no_type = refl
