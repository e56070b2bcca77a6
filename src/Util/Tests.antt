-- ===== src/Util/Tests.antt =====
-- pkg/util: concrete inputs for the theorems about the helpers, the cache and its keys.
use fasthttpd.Base.{
  ℕ, ◌≤◌, ◌≡◌, refl, ◌≢◌, none, some, List, [], ◌∷◌, ◌++◌, arith, length, Bytes, codes, index_byte,
  contains, pos,
}
use fasthttpd.Util.Http.{split_request_uri, append_query_string}
use fasthttpd.Util.Http.Laws.{split-append_query_string}
use fasthttpd.Util.Padding.{append_zero_padding_uint}
use fasthttpd.Util.Padding.Digits.{parse_from}
use fasthttpd.Util.Padding.Laws.{append_zero_padding_uint_parse}
use fasthttpd.Util.StringSet.Laws.{IsDistinct}
use fasthttpd.Util.Cache.{Cache, CacheConfig, new_cache, get, set_value}
use fasthttpd.Util.Cache.Store.{lookup_key, HasDistinctKeys}
use fasthttpd.Util.Cache.Reach.{IsValid, Reach, here, next, get_step, set_step, new_cache-IsValid}
use fasthttpd.Util.CacheKey.Laws.{write_all-injective}

split-append_query_string_example :
    ((split_request_uri (append_query_string (codes "/a") (codes "b=1"))).0
      ≡ (split_request_uri (codes "/a")).0)
    × (index_byte (codes "/a") b'?' ≡ none
        → (split_request_uri (append_query_string (codes "/a") (codes "b=1"))).1 ≡ codes "b=1")
    × (index_byte (codes "/a") b'?' ≢ none
        → (append_query_string (codes "/a") (codes "b=1")) ≡ codes "/a" ++ b'&' ∷ codes "b=1")
split-append_query_string_example = split-append_query_string (codes "/a") (codes "b=1")

append_zero_padding_uint_parse_example :
    (s : Bytes) × (append_zero_padding_uint (codes "x") (pos 42) 4 ≡ some (codes "x" ++ s))
    × (parse_from 0 s ≡ 42)
    × (4 ≤ length s)
append_zero_padding_uint_parse_example =
    append_zero_padding_uint_parse (codes "x") 42 4 (omega arith) (omega arith)

abbrev one_name : List Bytes
one_name = codes "a" ∷ []

one_name-IsDistinct : IsDistinct one_name
unfolding contains
one_name-IsDistinct = (refl, tt)

-- Two entries of which the first is idle since 100, with a callback.
abbrev two_entries : Cache Bytes ℕ
two_entries = record {
  store =
      (1, record { value = codes "a"; peek = 100 })
      ∷ (2, record { value = codes "b"; peek = 900 })
      ∷ [];
  expire = 500;
  interval = 60;
  next = 1000;
  max = pos 2;
  on_release = some 7;
  evictions = 900 ∷ [];
  releases = [];
}

two_entries-HasDistinctKeys : HasDistinctKeys two_entries.store
unfolding lookup_key
two_entries-HasDistinctKeys = (refl, (refl, tt))

abbrev small_config : CacheConfig
small_config = record { expire = pos 500; interval = pos 60; max_entries = pos 1 }

abbrev after_set : Cache Bytes ℕ
after_set = set_value 1 (codes "a") 10 (new_cache small_config 0)

abbrev after_get : Cache Bytes ℕ
after_get = (get 1 70 after_set).1

set_and_get : Reach (new_cache small_config 0) after_get
set_and_get = next (next here (set_step 1 10 (codes "a"))) (get_step 1 70)

new_cache-IsValid_example : IsValid after_get
new_cache-IsValid_example = new_cache-IsValid small_config 0 set_and_get

write_all-injective_example : codes "ab" ∷ codes "c" ∷ [] ≡ codes "ab" ∷ codes "c" ∷ []
write_all-injective_example =
    write_all-injective (codes "ab" ∷ codes "c" ∷ []) (codes "ab" ∷ codes "c" ∷ [])
      (omega arith, (omega arith, tt)) (omega arith, (omega arith, tt)) refl
