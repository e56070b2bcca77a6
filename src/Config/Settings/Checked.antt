-- ===== src/Config/Settings/Checked.antt =====
-- pkg/config/config.go: configurations that were made are complete, and their routes name handlers.
use mathlib.Core.Path.{subst}
use fasthttpd.Base.{
  if_cases, suc, ◌≡◌, refl, ap, ◌⊎◌, inl, inr, true, false, ◌&&◌, ◌||◌, Option, some, List, [], ◌∷◌,
  Bool-cases, Option-cases, length, is_nil, All, Bytes, contains, ℤ,
}
use fasthttpd.Route.Setup
use fasthttpd.Route.Setup.{RouteConfig, check_handler}
use fasthttpd.Config.Settings.{
  Ssl, Settings, Normalized, ok, err, ◌>>=◌, keys, check_routes, Surroundings, normalize_ssl,
  check_timeout, normalize, from_tree_map, from_tree_maps, set_defaults,
}

eq_of_ok : {A : Type 0} {a b : A} → ok a ≡ ok b → a ≡ b
eq_of_ok h = cc

bind-ok :
    {A B : Type 0} (m : Normalized A) (f : A → Normalized B) {b : B}
    → (m >>= f) ≡ ok b
    → (a : A) × (m ≡ ok a) × (f a ≡ ok b)
bind-ok (ok a) f h = (a, refl, h)
bind-ok (err e) f h = cc

-- What the table does with the handler of a route, once the configuration was checked.
abbrev pub HasHandler : List Bytes → RouteConfig → Type 0
HasHandler known route = check_handler known route.handler ≡ Setup.ok tt

check_handler-known :
    (known : List Bytes) (name : Bytes)
    → (is_nil name || contains known name) ≡ true
    → check_handler known name ≡ Setup.ok tt
unfolding check_handler
check_handler-known known [] h = refl
check_handler-known known (c ∷ name) h = rw h refl

check_routes-HasHandler :
    (known : List Bytes) (routes : List RouteConfig) {u : Unit {0}}
    → check_routes known routes ≡ ok u
    → All (HasHandler known) routes
unfolding check_routes
check_routes-HasHandler known [] h = tt
check_routes-HasHandler known (route ∷ routes) {u} h =
    elim (Bool-cases (is_nil route.handler || contains known route.handler)) [
      | inl e ↦ (
        check_handler-known known route.handler e,
        check_routes-HasHandler known routes {u = u} (rw (e, check_routes) at h),
      )
      | inr e ↦ cc (rw (e, check_routes) at h)
    ]

module _ (around : Surroundings) where
  open around use {user_cert_dir, parse_duration}

  abbrev IsComplete : Ssl → Type 0
  IsComplete ssl = normalize_ssl around ssl ≡ ok ssl

  kept-IsComplete :
      (ssl : Ssl) → (ssl.auto_cert && is_nil ssl.auto_cert_cache_dir) ≡ false → IsComplete ssl
  unfolding normalize_ssl
  kept-IsComplete ssl q =
      if_cases (λ r. r ≡ ok ssl) (ssl.auto_cert && is_nil ssl.auto_cert_cache_dir) _ _ (λ h. cc)
        (λ h. refl)

  found-IsComplete :
      (ssl : Ssl) (dir : Bytes)
      → user_cert_dir ≡ some dir
      → IsComplete (record ssl { auto_cert_cache_dir = dir })
  unfolding normalize_ssl
  found-IsComplete ssl dir e =
      let done = record ssl { auto_cert_cache_dir = dir } in
      if_cases (λ r. r ≡ ok done) (ssl.auto_cert && is_nil dir) _ _ (λ h. rw e refl) (λ h. refl)

  -- Completing twice is completing once.
  normalize_ssl-IsComplete : (ssl done : Ssl) → normalize_ssl around ssl ≡ ok done → IsComplete done
  unfolding normalize_ssl
  normalize_ssl-IsComplete ssl done =
      if_cases (λ r. r ≡ ok done → IsComplete done)
        (ssl.auto_cert && is_nil ssl.auto_cert_cache_dir) _ _
        (λ q e. elim (Option-cases user_cert_dir) [
          | inl n ↦ cc (rw n at e)
          | inr (dir, n) ↦ subst IsComplete (eq_of_ok (rw n at e)) (found-IsComplete ssl dir n)
        ])
        (λ q e. subst IsComplete (eq_of_ok e) (kept-IsComplete ssl q))

  check_timeout-parsed :
      (text : Bytes) {u : Unit {0}}
      → check_timeout around text ≡ ok u
      → (is_nil text ≡ true) ⊎ ((d : ℤ) × (parse_duration text ≡ some d))
  unfolding check_timeout
  check_timeout-parsed text h = elim (Bool-cases (is_nil text)) [
    | inl n ↦ inl n
    | inr n ↦ elim (Option-cases (parse_duration text)) [
      | inl e ↦ cc (rw (n, e, check_timeout) at h)
      | inr (d, e) ↦ inr (d, e)
    ]
  ]

  -- A configuration that was completed: its routes pass the check of the table, completing it again
  -- changes nothing, and its time to shut down is empty or was parsed.
  pub record IsNormal {Map : Type 0} (cfg : Settings Map) : Type 0 where
    pub handlers : All (HasHandler (keys cfg.handlers)) cfg.routes
    pub complete : normalize around cfg ≡ ok cfg
    pub timeout :
        (is_nil cfg.shutdown_timeout ≡ true)
        ⊎ ((d : ℤ) × (parse_duration cfg.shutdown_timeout ≡ some d))

  normalize-IsNormal :
      {Map : Type 0} (cfg done : Settings Map) → normalize around cfg ≡ ok done → IsNormal done
  unfolding normalize
  normalize-IsNormal cfg done h =
      let (ssl, e, h1) = bind-ok (normalize_ssl around cfg.ssl) _ h in
      let (t, e2, h2) = bind-ok (check_timeout around cfg.shutdown_timeout) _ h1 in
      let (c, e3, h3) = bind-ok (check_routes (keys cfg.handlers) cfg.routes) _ h2 in
      subst IsNormal (eq_of_ok h3) (record {
        handlers = check_routes-HasHandler (keys cfg.handlers) cfg.routes {u = c} e3;
        complete = rw (normalize_ssl-IsComplete cfg.ssl ssl e, e2, e3, normalize) refl;
        timeout = check_timeout-parsed cfg.shutdown_timeout {u = t} e2;
      })

  module _ {Map : Type 0} (empty : Settings Map)
      (decode : Map → Settings Map → Option (Settings Map)) where
    from_tree_map-IsNormal :
        (m : Map) (cfg : Settings Map) → from_tree_map around empty decode m ≡ ok cfg → IsNormal cfg
    unfolding from_tree_map
    from_tree_map-IsNormal m cfg h = elim (Option-cases (decode m (set_defaults empty))) [
      | inl e ↦ cc (rw (e, from_tree_map) at h)
      | inr (read, e) ↦ normalize-IsNormal read cfg (rw (e, from_tree_map) at h)
    ]

    -- Where all documents become configurations there is one for each document, and in each: every
    -- route has no handler or one that the table finds, completing it again changes nothing, and
    -- the time to shut down is empty or can be parsed.
    pub from_tree_maps-IsNormal :
        (ms : List Map) (cfgs : List (Settings Map))
        → from_tree_maps around empty decode ms ≡ ok cfgs
        → (length cfgs ≡ length ms) × All IsNormal cfgs
    unfolding from_tree_maps
    from_tree_maps-IsNormal [] cfgs h = rw (← eq_of_ok h) (refl, tt)
    from_tree_maps-IsNormal (m ∷ ms) cfgs h =
        let (cfg, e, h1) = bind-ok (from_tree_map around empty decode m) _ h in
        let (rest, e2, h2) = bind-ok (from_tree_maps around empty decode ms) _ h1 in
        let (l, a) = from_tree_maps-IsNormal ms rest e2 in
        rw (← eq_of_ok h2) (ap suc l, (from_tree_map-IsNormal m cfg e, a))
