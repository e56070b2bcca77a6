-- ===== src/Route/Tests.antt =====
-- pkg/route: a small table, with a stand-in for regular expressions, for the theorems about routing.
use fasthttpd.Base.{
  ◌≡◌, refl, sym, ◌≢◌, ◌⊎◌, inl, inr, true, false, some, List, [], ◌∷◌, map, arith, length, All,
  Bytes, codes, bytes_eq, has_prefix, contains, pos,
}
use fasthttpd.Util.StringSet.{append}
use fasthttpd.Util.Cache.{new_cache, set_on_release}
use fasthttpd.Util.CacheKey.{acquire_cache_key_builder, write, le_uint32}
use fasthttpd.Util.CacheKey.Laws.{write_all}
use fasthttpd.Route.{Regexp, prefix, pattern, Route, match_methods, match_path, match, route}
use fasthttpd.Route.Results.{empty_result}
use fasthttpd.Route.Setup.{
  RouteConfig, RoutesConfig, ok, Routes, check_filters, check_handler, init_match_path, new_route,
  new_route_list, new_routes,
}
use fasthttpd.Route.Search.{IsDecided, route-IsDecided}
use fasthttpd.Route.FirstMatch.{route_first_match}
use fasthttpd.Route.Known.{AreKnown, route-AreKnown}
use fasthttpd.Route.Coherence.{Request, IsShort, key_bytes, routed}
use fasthttpd.Route.Serving.{Event, request, eviction, requests, serve, serve-routed}
use fasthttpd.Std.{to_upper}

-- Stands in for package `regexp`: an expression is a prefix, and the template replaces the path.
abbrev pub prefix_regexp : Regexp Bytes
prefix_regexp = record {
  compile = λ s. some s;
  matches = λ p path. has_prefix path p;
  replace_all = λ p path template. template;
}

abbrev image_config : RouteConfig
image_config = record {
  path = codes "/img";
  match = codes "regexp";
  methods = codes "GET" ∷ [];
  filters = codes "auth" ∷ [];
  rewrite = codes "/static?v=1";
  rewrite_append_query_string = true;
  handler = [];
  status = pos 0;
  status_message = [];
  next_if_not_found = false;
}

abbrev web_config : RouteConfig
web_config = record {
  path = [];
  match = [];
  methods = [];
  filters = codes "log" ∷ codes "auth" ∷ [];
  rewrite = [];
  rewrite_append_query_string = false;
  handler = codes "web";
  status = pos 0;
  status_message = [];
  next_if_not_found = true;
}

abbrev pub test_config : RoutesConfig
test_config = record {
  filters = codes "auth" ∷ codes "log" ∷ [];
  handlers = codes "web" ∷ [];
  routes = image_config ∷ web_config ∷ [];
  routes_cache = record { enable = true; expire = pos 0; interval = pos 0; max_entries = pos 10 };
}

abbrev image_route : Route Bytes
image_route = record {
  methods_bytes = codes "GET" ∷ [];
  filters = codes "auth" ∷ [];
  rewrite_uri_bytes = codes "/static?v=1";
  rewrite_append_query_string = true;
  handler = [];
  status_code = pos 0;
  status_message_bytes = [];
  match_path = pattern (codes "/img");
  next_if_not_found = false;
}

abbrev pub web_route : Route Bytes
web_route = record {
  methods_bytes = [];
  filters = codes "log" ∷ codes "auth" ∷ [];
  rewrite_uri_bytes = [];
  rewrite_append_query_string = false;
  handler = codes "web";
  status_code = pos 0;
  status_message_bytes = [];
  match_path = prefix (codes "/");
  next_if_not_found = true;
}

abbrev test_routes : Routes Bytes
test_routes = record {
  routes = image_route ∷ web_route ∷ [];
  cache = some (
      set_on_release (some tt)
        (new_cache (record { expire = pos 0; interval = pos 0; max_entries = pos 10 }) 5));
}

new_routes-test_config : new_routes prefix_regexp test_config 5 ≡ ok test_routes
unfolding new_routes new_route_list new_route check_filters check_handler contains init_match_path
    bytes_eq to_upper set_on_release new_cache
new_routes-test_config = refl

route-IsDecided_example :
    IsDecided (route prefix_regexp test_routes.routes (codes "GET") (codes "/img/a") 0 []).0
route-IsDecided_example =
    route-IsDecided prefix_regexp test_routes.routes (codes "GET") (codes "/img/a") 0 []

route-AreKnown_example :
    AreKnown test_config.filters test_config.handlers
      (route prefix_regexp test_routes.routes (codes "GET") (codes "/img/a") 0 []).0.filters
      (route prefix_regexp test_routes.routes (codes "GET") (codes "/img/a") 0 []).0.handler
route-AreKnown_example =
    route-AreKnown prefix_regexp test_config 5 test_routes (codes "GET") (codes "/img/a") 0 []
      new_routes-test_config tt

image-misses-post : match prefix_regexp image_route (codes "POST") (codes "/img/a") ≡ false
unfolding match match_methods match_path contains bytes_eq has_prefix
image-misses-post = refl

web-matches-post : match prefix_regexp web_route (codes "POST") (codes "/img/a") ≡ true
unfolding match match_methods match_path contains bytes_eq has_prefix
web-matches-post = refl

route_first_match_example :
    (route prefix_regexp (image_route ∷ web_route ∷ []) (codes "POST") (codes "/img/a") 0 []).0
    ≡ record empty_result {
      status_code = pos 0;
      status_message = [];
      handler = codes "web";
      filters = append [] web_route.filters;
      route_index = 1;
    }
route_first_match_example =
    route_first_match prefix_regexp (image_route ∷ []) [] web_route (codes "POST") (codes "/img/a")
      [] tt (image-misses-post, tt) web-matches-post refl refl

abbrev get_request : Request
get_request = record { method = codes "GET"; path = codes "/img/a"; off = 0 }

abbrev post_request : Request
post_request = record { method = codes "POST"; path = codes "/img/a"; off = 0 }

-- The requests that the example makes.
abbrev IsExample : Request → Type 0
IsExample r = (r ≡ get_request) ⊎ (r ≡ post_request)

IsExample-IsShort : (r : Request) → IsExample r → IsShort r
IsExample-IsShort r (inl e) =
    rw e (record { method = omega arith; path = omega arith; off = omega arith })
IsExample-IsShort r (inr e) =
    rw e (record { method = omega arith; path = omega arith; off = omega arith })

keys-differ : length (key_bytes get_request) ≢ length (key_bytes post_request)
unfolding write le_uint32 write_all acquire_cache_key_builder
keys-differ = omega arith

length-no_collision :
    (a b : Request)
    → IsExample a
    → IsExample b
    → length (key_bytes a) ≡ length (key_bytes b)
    → key_bytes a ≡ key_bytes b
length-no_collision a b (inl d) (inl e) h = rw (d, e) refl
length-no_collision a b (inl d) (inr e) h = absurd (keys-differ (rw⁻¹ (d, e) h))
length-no_collision a b (inr d) (inl e) h = absurd (keys-differ (sym (rw⁻¹ (d, e) h)))
length-no_collision a b (inr d) (inr e) h = rw (d, e) refl

abbrev test_events : List Event
test_events =
    request get_request 10 11
    ∷ request post_request 20 21
    ∷ eviction 30
    ∷ request get_request 40 41
    ∷ []

requests-IsExample : All IsExample (requests test_events)
unfolding requests
requests-IsExample = (inl refl, (inr refl, (inl refl, tt)))

serve-routed_example :
    serve prefix_regexp length test_events test_routes []
    ≡ map (routed prefix_regexp length test_routes.routes) (requests test_events)
serve-routed_example =
    serve-routed prefix_regexp length IsExample IsExample-IsShort length-no_collision test_config 5
      test_routes test_events new_routes-test_config requests-IsExample
