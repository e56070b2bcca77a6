-- ===== src/Handler/Server/Tests.antt =====
-- pkg/handler/server.go: concrete inputs for the theorems about the server.
use fasthttpd.Base.{
  ℕ, ◌+◌, ◌≡◌, refl, ◌≢◌, inr, Bool, true, false, none, some, List, [], ◌∷◌, length, Bytes, codes,
  bytes_eq, has_prefix, lookup, contains, pos,
}
use fasthttpd.Handler.Samples.{Context, plain_http, plain_http-FastHttpLaws, get_page, test_pages}
use fasthttpd.Route.{Regexp, prefix, Route, match_methods, match_path, match}
use fasthttpd.Route.Results.{Result, empty_result}
use fasthttpd.Route.Setup.{
  RouteConfig, RoutesConfig, check_filters, check_handler, init_match_path, new_route,
  new_route_list, new_routes,
}
use fasthttpd.Route.Known.{AreKnown}
use fasthttpd.Handler.ErrorPages.Kept.{handle-IsKept}
use fasthttpd.Handler.Server.{Filter, HostHandler, out_of_fuel, handle}
use fasthttpd.Handler.Server.Rounds.{handle_one_round}
use fasthttpd.Handler.Server.Total.{keys}
use fasthttpd.Handler.Server.Configured.{IsConfigured}
use fasthttpd.Handler.Server.Endless.{IsPlain, IsTrap, IsStuck, handle_endless}

-- Stands in for package `regexp`: an expression is a prefix, and the template replaces the path.
abbrev pub prefix_regexp : Regexp Bytes
prefix_regexp = record {
  compile = λ s. some s;
  matches = λ p path. has_prefix path p;
  replace_all = λ p path template. template;
}

abbrev plain_route : Bool → Route Bytes
plain_route next = record {
  methods_bytes = [];
  filters = [];
  rewrite_uri_bytes = [];
  rewrite_append_query_string = false;
  handler = codes "web";
  status_code = pos 0;
  status_message_bytes = [];
  match_path = prefix (codes "/");
  next_if_not_found = next;
}

abbrev not_found_handler : Context → Context
not_found_handler c = record c { status = pos 404 }

abbrev pass_filter : Filter Context
pass_filter = record { request = λ c. (true, c); response = λ c. (true, c) }

-- A host with the table of routes.
abbrev pub host_with : List (Route Bytes) → HostHandler Context Bytes
host_with rs = record {
  host_bytes = codes "a.example";
  access_log = record { collect = λ c. c; log = λ c. c };
  error_pages = test_pages;
  filters = (codes "pass", pass_filter) ∷ [];
  handlers = (codes "web", not_found_handler) ∷ [];
  routes = record { routes = rs; cache = none };
}

abbrev pub clock : ℕ → ℕ
clock n = 1000 + n

handle_one_round_example :
    (handle plain_http prefix_regexp length clock 5 (host_with (plain_route false ∷ [])) [] get_page
      ≡ handle plain_http prefix_regexp length clock 1
          (host_with (plain_route false ∷ []))
          []
          get_page)
    × (handle plain_http prefix_regexp length clock 1
          (host_with (plain_route false ∷ []))
          []
          get_page
        ≢ out_of_fuel)
handle_one_round_example =
    handle_one_round plain_http prefix_regexp length clock 4 (host_with (plain_route false ∷ [])) []
      get_page (refl, tt)

plain_route-IsPlain :
    (next : Bool) → IsPlain (host_with []).handlers (plain_route next) not_found_handler
unfolding lookup bytes_eq
plain_route-IsPlain next = record {
  no_filters = refl;
  no_rewrite = refl;
  no_status = refl;
  has_handler = refl;
  found = refl;
}

-- The contexts whose path starts with a slash.
abbrev HasPath : Context → Type 0
HasPath c = has_prefix c.path (codes "/") ≡ true

plain_route-IsStuck :
    (next : Bool) → IsStuck plain_http prefix_regexp (plain_route next) not_found_handler HasPath
unfolding match match_methods match_path
plain_route-IsStuck next = record {
  matches = λ c s. s;
  not_found =
      λ pages c s. (handle-IsKept plain_http plain_http-FastHttpLaws pages (not_found_handler c)).0;
  stays = λ pages c s.
      rw (handle-IsKept plain_http plain_http-FastHttpLaws pages (not_found_handler c)).1 s;
}

abbrev trap : HostHandler Context Bytes
trap = host_with (plain_route true ∷ plain_route false ∷ [])

trap-IsTrap :
    IsTrap (plain_route true) (plain_route false) not_found_handler not_found_handler [] trap
trap-IsTrap = record {
  no_cache = refl;
  table = refl;
  first = plain_route-IsPlain true;
  second = plain_route-IsPlain false;
}

get_page-HasPath : HasPath get_page
unfolding has_prefix
get_page-HasPath = refl

handle_endless_example :
    handle plain_http prefix_regexp length clock 1000 trap [] get_page ≡ out_of_fuel
handle_endless_example =
    handle_endless plain_http prefix_regexp length clock (plain_route true) (plain_route false)
      not_found_handler not_found_handler [] HasPath 1000 trap [] get_page refl
      (plain_route-IsStuck true) (plain_route-IsStuck false) trap-IsTrap tt get_page-HasPath

abbrev web_result : Result
web_result = record empty_result { handler = codes "web"; filters = codes "pass" ∷ [] }

web_result-AreKnown :
    AreKnown
      (keys (host_with []).filters)
      (keys (host_with []).handlers)
      web_result.filters
      web_result.handler
unfolding contains bytes_eq
web_result-AreKnown = ((refl, tt), inr refl)

abbrev web_config : RouteConfig
web_config = record {
  path = [];
  match = [];
  methods = [];
  filters = [];
  rewrite = [];
  rewrite_append_query_string = false;
  handler = codes "web";
  status = pos 0;
  status_message = [];
  next_if_not_found = true;
}

abbrev server_config : RoutesConfig
server_config = record {
  filters = codes "pass" ∷ [];
  handlers = codes "web" ∷ [];
  routes = web_config ∷ [];
  routes_cache = record { enable = false; expire = pos 0; interval = pos 0; max_entries = pos 0 };
}

server-IsConfigured : IsConfigured prefix_regexp server_config 0 (host_with (plain_route true ∷ []))
unfolding new_routes new_route_list new_route check_filters check_handler contains init_match_path
    bytes_eq
server-IsConfigured = record {
  built = refl;
  uncached = refl;
  same_filters = refl;
  same_handlers = refl;
}
