-- ===== src/Route/Coherence.antt =====
-- pkg/route/route.go: routing through the cache returns what routing without it returns.
use fasthttpd.Base.{
  ℕ, ◌^◌, ◌<◌, ◌≡◌, refl, sym, ap, ◌∙◌, inl, inr, true, false, not, ◌&&◌, Option, none, some, List,
  [], ◌∷◌, ◌++◌, arith, leb, Bool-cases, Option-cases, eq_of_some, is_some, length, drop, All,
  Bytes, pos,
}
use fasthttpd.Util.Cache.{CacheValue, get, set_value, is_full}
use fasthttpd.Util.Cache.Store.{lookup_key, All-lookup, All-put}
use fasthttpd.Util.Cache.Laws.{store-schedule_evict_locked}
use fasthttpd.Util.CacheKey.{le_uint32, acquire_cache_key_builder, sum}
use fasthttpd.Util.CacheKey.Laws.{le_uint32-cancel, write_all, write_all-injective, AreShort}
use fasthttpd.Route.{Regexp, Route, search, route}
use fasthttpd.Route.Results.{Result, empty_result, Pool}
use fasthttpd.Route.Search.{IsClean, acquire_result-empty, copy_to_lem}
use fasthttpd.Route.Setup.{Routes, ResultCache}
use fasthttpd.Route.Cached.{route_key, answer, cached_route}

pub record Request : Type 0 where
  pub method : Bytes
  pub path : Bytes
  pub off : ℕ

-- What the key's hash reads.
abbrev pub key_bytes : Request → Bytes
key_bytes r = (write_all (le_uint32 r.off ∷ r.method ∷ r.path ∷ []) acquire_cache_key_builder).h

-- The request fits the 32 bits that the key has for its start and for each length.
pub record IsShort (r : Request) : Type 0 where
  pub method : length r.method < 2 ^ 32
  pub path : length r.path < 2 ^ 32
  pub off : r.off < 2 ^ 32

pub Request-eq : (a b : Request) → a.method ≡ b.method → a.path ≡ b.path → a.off ≡ b.off → a ≡ b
Request-eq a b m p o = λ i. record { method = m i; path = p i; off = o i }

length-le_uint32 : (n : ℕ) → length (le_uint32 n) ≡ 4
unfolding le_uint32
length-le_uint32 n = refl

fields-AreShort : (a : Request) → IsShort a → AreShort (le_uint32 a.off ∷ a.method ∷ a.path ∷ [])
fields-AreShort a s = (omega (arith, length-le_uint32 a.off), (s.method, (s.path, tt)))

pub key_bytes-injective :
    (a b : Request) → IsShort a → IsShort b → key_bytes a ≡ key_bytes b → a ≡ b
key_bytes-injective a b sa sb e =
    let same = write_all-injective _ _ (fields-AreShort a sa) (fields-AreShort b sb) e in
    let off : le_uint32 a.off ++ [] ≡ le_uint32 b.off ++ [] = ground arith in
    Request-eq a b (ground arith) (ground arith)
      (le_uint32-cancel a.off b.off [] [] sa.off sb.off off).0

module _ {P : Type 0} (re : Regexp P) (sum64 : Bytes → ℕ) (routes : List (Route P)) where
  -- Routing with no cache and an empty pool.
  abbrev pub routed : Request → Result
  routed r = (route re routes r.method r.path r.off []).0

  abbrev pub key_of : Request → ℕ
  key_of r = route_key sum64 r.method r.path r.off

  module _ (r : Request) (pool : Pool) (c : IsClean pool) where
    route_past :
        leb (length routes) r.off ≡ true
        → (route re routes r.method r.path r.off pool).0
          ≡ record empty_result { status_code = pos 404 }
    unfolding route
    route_past t = rw (t, (acquire_result-empty pool c).0)

    route_within :
        leb (length routes) r.off ≡ false
        → (route re routes r.method r.path r.off pool).0
          ≡ search re (drop r.off routes) 0 r.method r.path empty_result
    unfolding route
    route_within t = rw (t, (acquire_result-empty pool c).0)

    route-IsClean : IsClean (route re routes r.method r.path r.off pool).1
    unfolding route
    route-IsClean =
        let rest = (acquire_result-empty pool c).1 in
        elim (Bool-cases (leb (length routes) r.off)) [ inl t ↦ rw t rest | inr t ↦ rw t rest ]

  route-routed :
      (r : Request) (pool : Pool)
      → IsClean pool
      → (route re routes r.method r.path r.off pool).0 ≡ routed r
  route-routed r pool c = elim (Bool-cases (leb (length routes) r.off)) [
    | inl t ↦ route_past r pool c t ∙ sym (route_past r [] tt t)
    | inr t ↦ route_within r pool c t ∙ sym (route_within r [] tt t)
  ]

  -- The requests in play are short, and the hash tells their keys apart.
  module _ (InPlay : Request → Type 0) (short : (r : Request) → InPlay r → IsShort r)
      (no_collision : (a b : Request)
        → InPlay a
        → InPlay b
        → sum64 (key_bytes a) ≡ sum64 (key_bytes b)
        → key_bytes a ≡ key_bytes b) where
    -- An entry is the result of a request in play with that key.
    abbrev pub IsRouted : ℕ × CacheValue Result → Type 0
    IsRouted e = (r : Request) × InPlay r × (key_of r ≡ e.0) × (e.1.value ≡ routed r)

    key_of-injective : (a b : Request) → InPlay a → InPlay b → key_of a ≡ key_of b → a ≡ b
    unfolding route_key sum write_all
    key_of-injective a b pa pb e =
        key_bytes-injective a b (short a pa) (short b pb) (no_collision a b pa pb e)

    IsRouted-value :
        (r : Request) (v : CacheValue Result)
        → InPlay r
        → IsRouted (key_of r, v)
        → v.value ≡ routed r
    IsRouted-value r v p (q, in_play, e, found) =
        found ∙ ap routed (key_of-injective q r in_play p e)

    get-All :
        (Q : ℕ × CacheValue Result → Type 0) (key now : ℕ) (c : ResultCache)
        → ((v : CacheValue Result) → Q (key, v) → Q (key, record { value = v.value; peek = now }))
        → All Q c.store
        → All Q (get key now c).1.store
    unfolding get
    get-All Q key now c keeps h = elim (Option-cases (lookup_key key c.store)) [
      | inl e ↦ rw (e, get) h
      | inr (v, e) ↦
          rw (e, get, store-schedule_evict_locked)
            (All-put Q key _ c.store (keeps v (All-lookup Q key c.store h e)) h)
    ]

    set_value-All :
        (Q : ℕ × CacheValue Result → Type 0) (key now : ℕ) (value : Result) (c : ResultCache)
        → Q (key, record { value = value; peek = now })
        → All Q c.store
        → All Q (set_value key value now c).store
    unfolding set_value
    set_value-All Q key now value c q h =
        elim (Bool-cases (is_full c && not (is_some (lookup_key key c.store)))) [
          | inl e ↦ rw (store-schedule_evict_locked, e) h
          | inr e ↦ rw (store-schedule_evict_locked, e) (All-put Q key _ c.store q h)
        ]

    -- The table with its cache: the routes are those given, and every entry is routed.
    pub record IsCoherent (rs : Routes P) : Type 0 where
      pub same : rs.routes ≡ routes
      pub entries : (c : ResultCache) → rs.cache ≡ some c → All IsRouted c.store

    abbrev Served : Request → Result × Routes P × Pool → Type 0
    Served r s = (s.0 ≡ routed r) × IsCoherent s.1 × IsClean s.2

    get-routed :
        (r : Request) (now : ℕ) (c : ResultCache)
        → InPlay r
        → All IsRouted c.store
        → (found : Result) → (get (key_of r) now c).0 ≡ some found
        → found ≡ routed r
    unfolding get
    get-routed r now c p h found e = elim (Option-cases (lookup_key (key_of r) c.store)) [
      | inl none_there ↦ cc
      | inr (v, there) ↦
          let same : v.value ≡ found = eq_of_some (rw (there, get) at e) in
          sym same ∙ IsRouted-value r v p (All-lookup IsRouted (key_of r) c.store h there)
    ]

    answer_lem :
        (r : Request) (later : ℕ) (rs : Routes P) (pool : Pool) (hit : Option Result)
        (c : ResultCache)
        → InPlay r
        → rs.routes ≡ routes
        → IsClean pool
        → ((found : Result) → hit ≡ some found → found ≡ routed r)
        → All IsRouted c.store
        → Served r (answer re (key_of r) later rs r.method r.path r.off pool hit c)
    unfolding answer
    answer_lem r later rs pool (some found) c p same clean eq h = (
      copy_to_lem found _ ∙ eq found refl,
      record { same = same; entries = λ d e. rw (sym (eq_of_some e)) h },
      (acquire_result-empty pool clean).1,
    )
    answer_lem r later rs pool none c p same clean eq h = rw same (
      copy_to_lem _ _ ∙ route-routed r pool clean,
      record {
        same = refl;
        entries = λ d e.
            rw (sym (eq_of_some e)) (
              set_value-All IsRouted (key_of r) later _ c (r, p, refl, route-routed r pool clean)
                h);
      },
      (acquire_result-empty _ (route-IsClean r pool clean)).1,
    )

    -- One request through the cache is answered as without it, and leaves the cache coherent.
    pub cached_route_lem :
        (r : Request) (now later : ℕ) (rs : Routes P) (pool : Pool)
        → InPlay r
        → IsCoherent rs
        → IsClean pool
        → Served r (cached_route re sum64 now later rs r.method r.path r.off pool)
    unfolding cached_route
    cached_route_lem r now later rs pool p h c = elim (Option-cases rs.cache) [
      | inl e ↦
          rw (e, cached_route)
            (
              ap (λ l. (route re l r.method r.path r.off pool).0) h.same ∙ route-routed r pool c,
              h,
              rw (h.same) (route-IsClean r pool c),
            )
      | inr (cache, e) ↦
          rw (e, cached_route)
            (answer_lem r later rs pool (get (key_of r) now cache).0 (get (key_of r) now cache).1 p
              h.same c (get-routed r now cache p (h.entries cache e))
              (get-All IsRouted (key_of r) now cache (λ v q. q) (h.entries cache e)))
    ]
