-- ===== src/Util/Cache/Reach.antt =====
-- pkg/util/cache.go: the interleavings of the methods with the evictions that run in goroutines,
-- and what holds of the cache in every state that they reach.
use fasthttpd.Base.{
  ℕ, ◌+◌, ◌≤◌, ◌≡◌, ◌∙◌, inl, inr, true, not, ◌&&◌, Option, List, [], ◌∷◌, ◌++◌, arith, ltb,
  Bool-cases, Option-cases, is_some, length, All, All-append, is_positive, abs,
}
use fasthttpd.Util.Cache.Store.{
  lookup_key, put_key, HasDistinctKeys, put-HasDistinctKeys, length-put, delete-HasDistinctKeys,
  length-delete-le, keep-HasDistinctKeys, length-keep-le,
}
use fasthttpd.Util.Cache.{
  CacheValue, Entries, is_expired, Cache, CacheConfig, new_cache, schedule_evict_locked, get,
  is_full, set_value, del, set_on_release, evict,
}

-- The started evictions lie an interval apart, and an interval before `until`.
abbrev pub IsSpaced : ℕ → ℕ → List ℕ → Type 0
IsSpaced interval until [] = Unit
IsSpaced interval until (p ∷ ps) =
    (p + interval ≤ until) × All (λ q. p + interval ≤ q) ps × IsSpaced interval until ps

IsSpaced-snoc :
    (interval until now : ℕ) (ps : List ℕ)
    → IsSpaced interval until ps
    → until ≤ now
    → IsSpaced interval (now + interval) (ps ++ now ∷ [])
IsSpaced-snoc interval until now [] s h = omega arith
IsSpaced-snoc interval until now (p ∷ ps) s h = (
  omega arith,
  All-append (λ q. p + interval ≤ q) ps (now ∷ []) s.1 (omega arith),
  IsSpaced-snoc interval until now ps s.2 h,
)

All-remove : (P : ℕ → Type 0) (x : ℕ) (xs ys : List ℕ) → All P (xs ++ x ∷ ys) → All P (xs ++ ys)
All-remove P x [] ys h = h.1
All-remove P x (z ∷ xs) ys h = (h.0, All-remove P x xs ys h.1)

IsSpaced-remove :
    (interval until x : ℕ) (xs ys : List ℕ)
    → IsSpaced interval until (xs ++ x ∷ ys)
    → IsSpaced interval until (xs ++ ys)
IsSpaced-remove interval until x [] ys s = s.2
IsSpaced-remove interval until x (p ∷ xs) ys s = (
  s.0,
  All-remove (λ q. p + interval ≤ q) x xs ys s.1,
  IsSpaced-remove interval until x xs ys s.2,
)

module _ {V C : Type 0} where
  -- A method call at the time of the clock, or one of the started evictions.
  pub data Step (c : Cache V C) : Cache V C → Type 0 where
    get_step : (key now : ℕ) → Step c (get key now c).1
    set_step : (key now : ℕ) (value : V) → Step c (set_value key value now c)
    del_step : (key : ℕ) → Step c (del key c)
    on_release_step : (cb : Option C) → Step c (set_on_release cb c)
    evict_step :
        (now : ℕ) (before after : List ℕ)
        → c.evictions ≡ before ++ now ∷ after
        → Step c (evict now (record c { evictions = before ++ after }))

  pub data Reach (c : Cache V C) : Cache V C → Type 0 where
    here : Reach c c
    next : {d e : Cache V C} → Reach c d → Step d e → Reach c e

  pub record IsValid (c : Cache V C) : Type 0 where
    pub distinct : HasDistinctKeys c.store
    pub bounded : is_positive c.max ≡ true → length c.store ≤ abs c.max
    pub spaced : IsSpaced c.interval c.next c.evictions

  schedule_evict_locked-IsValid :
      (now : ℕ) (c : Cache V C) → IsValid c → IsValid (schedule_evict_locked now c)
  unfolding schedule_evict_locked
  schedule_evict_locked-IsValid now c v = elim (Bool-cases (ltb now c.next)) [
    | inl e ↦ rw e v
    | inr e ↦ rw e (record {
      distinct = v.distinct;
      bounded = v.bounded;
      spaced = IsSpaced-snoc c.interval c.next now c.evictions v.spaced (ground arith);
    })
  ]

  -- A new entry list with distinct keys that is no longer than allowed.
  store-IsValid :
      (c : Cache V C) (m : Entries V)
      → IsValid c
      → HasDistinctKeys m
      → (is_positive c.max ≡ true → length m ≤ abs c.max)
      → IsValid (record c { store = m })
  store-IsValid c m v d b = record { distinct = d; bounded = b; spaced = v.spaced }

  get-IsValid : (key now : ℕ) (c : Cache V C) → IsValid c → IsValid (get key now c).1
  unfolding get
  get-IsValid key now c v = elim (Option-cases (lookup_key key c.store)) [
    | inl e ↦ rw (e, get) v
    | inr (w, e) ↦
        let fresh : CacheValue V = record { value = w.value; peek = now } in
        let same : length (put_key key fresh c.store) ≡ length c.store =
          length-put key fresh c.store ∙ rw e in
        rw (e, get)
          (schedule_evict_locked-IsValid now _ (
            store-IsValid c (put_key key fresh c.store) v
              (put-HasDistinctKeys key fresh c.store v.distinct)
              (λ p. omega (arith, same, v.bounded p))))
  ]

  set_value-IsValid :
      (key now : ℕ) (value : V) (c : Cache V C) → IsValid c → IsValid (set_value key value now c)
  unfolding set_value
  set_value-IsValid key now value c v =
      let fresh : CacheValue V = record { value = value; peek = now } in
      elim (Bool-cases (is_full c && not (is_some (lookup_key key c.store)))) [
        | inl e ↦ rw e (schedule_evict_locked-IsValid now c v)
        | inr e ↦ rw e (
            schedule_evict_locked-IsValid now _ (
              store-IsValid c (put_key key fresh c.store) v
                (put-HasDistinctKeys key fresh c.store v.distinct)
                (λ p. ground (arith, length-put key fresh c.store, v.bounded p))))
      ]

  del-IsValid : (key : ℕ) (c : Cache V C) → IsValid c → IsValid (del key c)
  unfolding del
  del-IsValid key c v = elim (Option-cases (lookup_key key c.store)) [
    | inl e ↦ rw (e, del) v
    | inr (w, e) ↦
        rw (e, del)
          (record {
            distinct = delete-HasDistinctKeys key c.store v.distinct;
            bounded = λ p. omega (arith, length-delete-le key c.store, v.bounded p);
            spaced = v.spaced;
          })
  ]

  evict-IsValid : (now : ℕ) (c : Cache V C) → IsValid c → IsValid (evict now c)
  unfolding evict
  evict-IsValid now c v = record {
    distinct = keep-HasDistinctKeys (is_expired now c.expire) c.store v.distinct;
    bounded = λ p. omega (arith, length-keep-le (is_expired now c.expire) c.store, v.bounded p);
    spaced = v.spaced;
  }

  Step-IsValid : {c d : Cache V C} → Step c d → IsValid c → IsValid d
  unfolding set_on_release
  Step-IsValid {c} (get_step key now) v = get-IsValid key now c v
  Step-IsValid {c} (set_step key now value) v = set_value-IsValid key now value c v
  Step-IsValid {c} (del_step key) v = del-IsValid key c v
  Step-IsValid (on_release_step cb) v = record {
    distinct = v.distinct;
    bounded = v.bounded;
    spaced = v.spaced;
  }
  Step-IsValid {c} (evict_step now before after e) v =
      evict-IsValid now (record c { evictions = before ++ after })
        (record {
          distinct = v.distinct;
          bounded = v.bounded;
          spaced = IsSpaced-remove c.interval c.next now before after (rw e at v.spaced);
        })

  Reach-IsValid : {c d : Cache V C} → Reach c d → IsValid c → IsValid d
  Reach-IsValid here v = v
  Reach-IsValid (next r s) v = Step-IsValid s (Reach-IsValid r v)

  -- In every state that a new cache reaches, by methods and evictions in any order and at any
  -- times, no key stands twice, the entries are at most the maximum where one is set, and the
  -- evictions that wait to run were started an interval apart.
  pub new_cache-IsValid :
      (cfg : CacheConfig) (now : ℕ) {c : Cache V C} → Reach (new_cache cfg now) c → IsValid c
  unfolding new_cache
  new_cache-IsValid cfg now r =
      Reach-IsValid r (record { distinct = tt; bounded = λ p. omega arith; spaced = tt })
