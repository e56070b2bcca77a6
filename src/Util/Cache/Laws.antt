-- ===== src/Util/Cache/Laws.antt =====
-- pkg/util/cache.go: the cache seen as a partial map from keys to values, and what each method
-- does to that map.

use mathlib.Core.List.{Perm}
use fasthttpd.Base.{
  ℕ, ◌+◌, ◌≤◌, ◌<◌, ◌≡◌, refl, inl, inr, false, not, ◌&&◌, ◌||◌, Option, none, some, [], ◌∷◌, ◌++◌,
  map, arith, ltb, ◌==◌, if◌then◌else◌, ltb→lt, Bool-cases, Option-cases, is_some, All,
}
use fasthttpd.Util.Cache.Store.{
  lookup_key, put_key, split_off, HasDistinctKeys, unless, lookup-put, lookup-delete, lookup-keep,
  split_off-keep-perm, put-HasDistinctKeys,
}
use fasthttpd.Util.Cache.{
  CacheValue, Entries, Cache, schedule_evict_locked, get, is_full, set_value, del, is_expired,
  evict,
}

abbrev pub value_of : {V : Type 0} → Option (CacheValue V) → Option V
value_of none = none
value_of (some v) = some v.value

split_off-All :
    {V : Type 0} (now expire : ℕ) (m : Entries V)
    → All (λ e. expire + e.1.peek < now) (split_off (is_expired now expire) m)
unfolding split_off is_expired
split_off-All now expire [] = tt
split_off-All now expire ((k, v) ∷ m) = elim (Bool-cases (ltb (v.peek + expire) now)) [
  | inl e ↦ rw e (omega (arith, ltb→lt (v.peek + expire) now e), split_off-All now expire m)
  | inr e ↦ rw e (split_off-All now expire m)
]

module _ {V C : Type 0} where
  -- The abstract view.
  abbrev pub find : ℕ → Cache V C → Option V
  find key c = value_of (lookup_key key c.store)

  -- Scheduling an eviction leaves the entries.
  pub store-schedule_evict_locked :
      (now : ℕ) (c : Cache V C) → (schedule_evict_locked now c).store ≡ c.store
  unfolding schedule_evict_locked
  store-schedule_evict_locked now c = ground arith

  -- `Get` answers with what the map holds, and changes no value of the map.
  pub get-find :
      (key now : ℕ) (c : Cache V C)
      → ((get key now c).0 ≡ find key c) × ((j : ℕ) → find j (get key now c).1 ≡ find j c)
  unfolding get
  get-find key now c = elim (Option-cases (lookup_key key c.store)) [
    | inl e ↦ rw (e, get) (refl, λ j. refl)
    | inr (v, e) ↦
        rw (e, get) (refl, λ j. rw (store-schedule_evict_locked, lookup-put) (ground (arith)))
  ]

  -- `Set` is dropped where the cache is full and the key is new, and then changes no value of the
  -- map; otherwise it maps the key to the value and keeps all else.
  pub find-set_value :
      (key now j : ℕ) (value : V) (c : Cache V C)
      → find j (set_value key value now c) ≡ (
          if key == j && (not (is_full c) || is_some (lookup_key key c.store))
          then some value
          else find j c)
  unfolding set_value
  find-set_value key now j value c =
      elim (Bool-cases (is_full c && not (is_some (lookup_key key c.store)))) [
        | inl e ↦ rw (store-schedule_evict_locked, e) (ground arith)
        | inr e ↦ rw (store-schedule_evict_locked, e, lookup-put) (ground arith)
      ]

  -- Where no key stands twice, `Del` takes the key out of the map and keeps all else.
  pub find-del :
      (key j : ℕ) (c : Cache V C)
      → HasDistinctKeys c.store
      → find j (del key c) ≡ (if key == j then none else find j c)
  unfolding del
  find-del key j c d = ground (arith, lookup-delete key j c.store d)

  -- Where no key stands twice, an eviction takes out of the map exactly the entries whose last use
  -- is more than the expiry before the eviction's time.
  pub lookup-evict :
      (now j : ℕ) (c : Cache V C)
      → HasDistinctKeys c.store
      → lookup_key j (evict now c).store ≡ unless (is_expired now c.expire) (lookup_key j c.store)
  unfolding evict
  lookup-evict now j c d = lookup-keep (is_expired now c.expire) j c.store d

  pub expire-schedule_evict_locked :
      (now : ℕ) (c : Cache V C) → (schedule_evict_locked now c).expire ≡ c.expire
  unfolding schedule_evict_locked
  expire-schedule_evict_locked now c = ground arith

  store-get :
      (key now : ℕ) (c : Cache V C) (v : CacheValue V)
      → lookup_key key c.store ≡ some v
      → ((get key now c).1.store ≡ put_key key (record { value = v.value; peek = now }) c.store)
        × ((get key now c).1.expire ≡ c.expire)
  unfolding get
  store-get key now c v e =
      rw (e, get) (store-schedule_evict_locked now _, expire-schedule_evict_locked now _)

  get-miss : (key now : ℕ) (c : Cache V C) → lookup_key key c.store ≡ none → (get key now c).1 ≡ c
  unfolding get
  get-miss key now c e = rw (e, get)

  find-evict-hit :
      (key now later : ℕ) (c d : Cache V C) (v : CacheValue V)
      → HasDistinctKeys d.store
      → d.expire ≡ c.expire
      → lookup_key key d.store ≡ some (record { value = v.value; peek = now })
      → later ≤ now + c.expire
      → find key (evict later d) ≡ some v.value
  unfolding is_expired
  find-evict-hit key now later c d v u e l h =
      rw (lookup-evict later key d u, l, e) (fresh (ground arith))
    where
      fresh :
          ltb (now + c.expire) later ≡ false
          → value_of (
              if ltb (now + c.expire) later
              then none
              else some (record { value = v.value; peek = now }))
            ≡ some v.value
      fresh f = rw f

  -- Where no key stands twice, an entry that `Get` hits survives every eviction whose time is at
  -- most the expiry later.
  pub find-evict-get :
      (key now later : ℕ) (c : Cache V C)
      → HasDistinctKeys c.store
      → later ≤ now + c.expire
      → find key (evict later (get key now c).1) ≡ find key c
  find-evict-get key now later c d h = elim (Option-cases (lookup_key key c.store)) [
    | inl e ↦ rw (get-miss key now c e, lookup-evict later key c d, e)
    | inr (v, e) ↦
        let (s, x) = store-get key now c v e in
        let at : lookup_key key (get key now c).1.store
            ≡ some (record { value = v.value; peek = now }) =
          rw (s, lookup-put) (ground arith) in
        let u : HasDistinctKeys (get key now c).1.store =
          rw s (put-HasDistinctKeys key (record { value = v.value; peek = now }) c.store d) in
        rw e (find-evict-hit key now later c (get key now c).1 v u x at h)
  ]

  -- Where a callback is set, an eviction starts it once for each entry that it deletes, and for no
  -- other: the entries before it are, up to order, those that stay and those that are released.
  pub evict-perm :
      (now : ℕ) (c : Cache V C) (cb : C)
      → c.on_release ≡ some cb
      → (gone : Entries V) × ((evict now c).releases
          ≡ c.releases ++ map (λ e. (cb, e.0, e.1.value)) gone)
        × Perm (gone ++ (evict now c).store) c.store
        × All (λ e. c.expire + e.1.peek < now) gone
  unfolding evict
  evict-perm now c cb h = (
    split_off (is_expired now c.expire) c.store,
    ground arith,
    split_off-keep-perm (is_expired now c.expire) c.store,
    split_off-All now c.expire c.store,
  )
