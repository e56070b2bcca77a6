-- ===== src/Util/Cache.antt =====
-- pkg/util/cache.go: the read-through cache. A method that holds the mutex is one transition of
-- the state; what it starts with `go` is recorded in the state and runs later, in any order.
-- Times are milliseconds since the epoch. `V` is the type of the values, `C` that of the callbacks.
pub mod Store
pub mod Laws
pub mod Reach
use fasthttpd.Base.{
  ℕ, ◌+◌, ◌-◌, ◌*◌, ◌/◌, ap, Bool, not, ◌&&◌, Option, none, some, List, [], ◌∷◌, ◌++◌, map, ltb,
  leb, if◌then◌else◌, is_some, length, set, drop, lookup, ℤ, pos, is_positive, positive_or, abs,
}
use Store.{lookup_key, put_key, delete_key, keep, split_off}

pub record CacheValue (V : Type 0) : Type 0 where
  pub value : V
  pub peek : ℕ

abbrev pub Entries : Type 0 → Type 0
Entries V = List (ℕ × CacheValue V)

pub record Cache (V C : Type 0) : Type 0 where
  pub store : Entries V
  pub expire : ℕ
  pub interval : ℕ
  pub next : ℕ
  pub max : ℤ
  pub on_release : Option C
  -- the calls of `evict` that `go` has started and that have not run
  pub evictions : List ℕ
  -- the calls of callbacks that `go` has started
  pub releases : List (C × ℕ × V)

pub record CacheConfig : Type 0 where
  pub expire : ℤ
  pub interval : ℤ
  pub max_entries : ℤ

-- `now-v.peek > c.expire`
unfoldable pub is_expired : {V : Type 0} → ℕ → ℕ → CacheValue V → Bool
is_expired now expire v = ltb (v.peek + expire) now

module _ {V C : Type 0} where
  unfoldable pub new_cache : CacheConfig → ℕ → Cache V C
  new_cache cfg now =
      let interval = positive_or cfg.interval (60 * 1000) in
      record {
        store = [];
        expire = positive_or cfg.expire (5 * 60 * 1000);
        interval = interval;
        next = now + interval;
        max = cfg.max_entries;
        on_release = none;
        evictions = [];
        releases = [];
      }

  unfoldable pub schedule_evict_locked : ℕ → Cache V C → Cache V C
  schedule_evict_locked now c =
      if ltb now c.next
      then c
      else record c { next = now + c.interval; evictions = c.evictions ++ now ∷ [] }

  -- The value, if the key is there, and its time of use is now.
  unfoldable pub get : ℕ → ℕ → Cache V C → Option V × Cache V C
  get key now c = elim (lookup_key key c.store) [
    | none ↦ (none, c)
    | some v ↦ (
      some v.value,
      schedule_evict_locked now
          (record c { store = put_key key (record { value = v.value; peek = now }) c.store }),
    )
  ]

  -- `c.max > 0 && len(c.store) >= c.max`
  unfoldable pub is_full : Cache V C → Bool
  is_full c = is_positive c.max && leb (abs c.max) (length c.store)

  -- A new key is dropped where the cache is full.
  unfoldable pub set_value : ℕ → V → ℕ → Cache V C → Cache V C
  unfolding is_full
  set_value key value now c = schedule_evict_locked now (
      if is_full c && not (is_some (lookup_key key c.store))
      then c
      else record c { store = put_key key (record { value = value; peek = now }) c.store })

  abbrev release : Option C → Entries V → List (C × ℕ × V)
  release none gone = []
  release (some cb) gone = map (λ e. (cb, e.0, e.1.value)) gone

  unfoldable pub del : ℕ → Cache V C → Cache V C
  del key c = elim (lookup_key key c.store) [
    | none ↦ c
    | some v ↦ record c {
      store = delete_key key c.store;
      releases = c.releases ++ release c.on_release ((key, v) ∷ []);
    }
  ]

  unfoldable pub len : Cache V C → ℕ
  len c = length c.store

  unfoldable pub set_on_release : Option C → Cache V C → Cache V C
  set_on_release cb c = record c { on_release = cb }

  -- The loop of `evict`, which deletes what is expired, and the callbacks that it starts.
  unfoldable pub evict : ℕ → Cache V C → Cache V C
  evict now c = record c {
    store = keep (is_expired now c.expire) c.store;
    releases = c.releases ++ release c.on_release (split_off (is_expired now c.expire) c.store);
  }
