-- ===== src/Route/Setup.antt =====
-- pkg/route/route.go: the route table is built from the configuration, or refused.
use fasthttpd.Base.{
  ℕ, ◌≡◌, refl, Bool, false, not, Option, none, some, List, [], ◌∷◌, map, if◌then◌else◌, get_elem?,
  is_nil, Bytes, codes, bytes_eq, contains, ℤ, is_positive,
}
use fasthttpd.Std.{status_text, to_upper}
use fasthttpd.Util.Cache.{Cache, new_cache, set_on_release}
use fasthttpd.Route.{Regexp, Matcher, equal, prefix, pattern, Route}
use fasthttpd.Route.Results.{Result, Pool, release}

-- `config.Route`
pub record RouteConfig : Type 0 where
  pub path : Bytes
  pub match : Bytes
  pub methods : List Bytes
  pub filters : List Bytes
  pub rewrite : Bytes
  pub rewrite_append_query_string : Bool
  pub handler : Bytes
  pub status : ℤ
  pub status_message : Bytes
  pub next_if_not_found : Bool

-- `config.RoutesCache`
pub record RoutesCacheConfig : Type 0 where
  pub enable : Bool
  pub expire : ℤ
  pub interval : ℤ
  pub max_entries : ℤ

-- The parts of `config.Config` that the table reads; the maps of filters and handlers by their keys.
pub record RoutesConfig : Type 0 where
  pub filters : List Bytes
  pub handlers : List Bytes
  pub routes : List RouteConfig
  pub routes_cache : RoutesCacheConfig

pub data Error : Type 0 where
  unknown_match : Bytes → Error
  bad_pattern : Bytes → Error
  unknown_filter : Bytes → Error
  unknown_handler : Bytes → Error

pub data Fallible (A : Type 0) : Type 0 where
  ok : A → Fallible A
  err : Error → Fallible A

infixl 5 ◌>>=◌
abbrev pub ◌>>=◌ : {A B : Type 0} → Fallible A → (A → Fallible B) → Fallible B
ok a >>= f = f a
err e >>= f = err e

pub bind-eq-ok :
    {A B : Type 0} (m : Fallible A) (f : A → Fallible B) {b : B}
    → (m >>= f) ≡ ok b
    → (a : A) × (m ≡ ok a) × (f a ≡ ok b)
bind-eq-ok (ok a) f h = (a, refl, h)
bind-eq-ok (err e) f h = cc

abbrev or_default : Bytes → Bytes → Bytes
or_default [] d = d
or_default (c ∷ s) d = c ∷ s

-- The one callback is `onResultReleased`.
abbrev pub ResultCache : Type 0
ResultCache = Cache Result (Unit {0})

pub record Routes (P : Type 0) : Type 0 where
  pub routes : List (Route P)
  pub cache : Option ResultCache

-- `onResultReleased`: the value goes back to the pool.
unfoldable pub on_result_released : Result → Pool → Pool
on_result_released r pool = release r pool

-- The loop over the filters of a route.
unfoldable pub check_filters : List Bytes → List Bytes → Fallible (Unit {0})
check_filters known [] = ok tt
check_filters known (f ∷ fs) =
    if contains known f then check_filters known fs else err (unknown_filter f)

unfoldable pub check_handler : List Bytes → Bytes → Fallible (Unit {0})
check_handler known [] = ok tt
check_handler known (c ∷ name) =
    if contains known (c ∷ name) then ok tt else err (unknown_handler (c ∷ name))

unfoldable pub is_next_if_not_found : {P : Type 0} → Routes P → ℕ → Bool
is_next_if_not_found rs i = elim (get_elem? rs.routes i) [
  | none ↦ false
  | some r ↦ r.next_if_not_found
]

module _ {P : Type 0} (re : Regexp P) where
  unfoldable pub init_match_path : Bytes → Bytes → Fallible (Matcher P)
  init_match_path cfg_match cfg_path =
      let kind = or_default cfg_match (codes "prefix") in
      let path = or_default cfg_path (codes "/") in
      if bytes_eq kind (codes "equal")
      then ok (equal path)
      else if bytes_eq kind (codes "prefix")
      then ok (prefix path)
      else if bytes_eq kind (codes "regexp")
      then (elim (re.compile path) [ none ↦ err (bad_pattern path) | some p ↦ ok (pattern p) ])
      else err (unknown_match kind)

  unfoldable pub new_route : RouteConfig → Fallible (Route P)
  new_route rcfg = do
    matcher ← init_match_path rcfg.match rcfg.path
    ok (record {
      methods_bytes = map to_upper rcfg.methods;
      filters = rcfg.filters;
      rewrite_uri_bytes = rcfg.rewrite;
      rewrite_append_query_string = rcfg.rewrite_append_query_string;
      handler = rcfg.handler;
      status_code = rcfg.status;
      status_message_bytes =
          if not (is_nil rcfg.status_message)
          then rcfg.status_message
          else if is_positive rcfg.status
          then status_text rcfg.status
          else [];
      match_path = matcher;
      next_if_not_found = rcfg.next_if_not_found;
    })

  -- The loop of `NewRoutes`.
  unfoldable pub new_route_list :
      List Bytes → List Bytes → List RouteConfig → Fallible (List (Route P))
  new_route_list filters handlers [] = ok []
  new_route_list filters handlers (rcfg ∷ rcfgs) = do
    _ ← check_filters filters rcfg.filters
    _ ← check_handler handlers rcfg.handler
    r ← new_route rcfg
    rs ← new_route_list filters handlers rcfgs
    ok (r ∷ rs)

  unfoldable pub new_routes : RoutesConfig → ℕ → Fallible (Routes P)
  new_routes cfg now = do
    rs ← new_route_list cfg.filters cfg.handlers cfg.routes
    ok (record {
      routes = rs;
      cache =
          if cfg.routes_cache.enable
          then some (
              set_on_release (some tt) (
                new_cache
                  (record {
                    expire = cfg.routes_cache.expire;
                    interval = cfg.routes_cache.interval;
                    max_entries = cfg.routes_cache.max_entries;
                  })
                  now))
          else none;
    })
