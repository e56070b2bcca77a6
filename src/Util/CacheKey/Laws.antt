-- ===== src/Util/CacheKey/Laws.antt =====
-- pkg/util/cache.go: the length prefixes make the fields of a key recoverable.
use fasthttpd.Base.{
  ℕ, ◌^◌, ◌<◌, ◌≡◌, refl, sym, ◌∙◌, ◌≢◌, List, [], ◌∷◌, ◌++◌, append_assoc, append-nil, arith,
  length, All, Bytes,
}
use fasthttpd.Util.CacheKey.{
  le_uint32, CacheKeyBuilder, acquire_cache_key_builder, write, sum, cache_key_of,
}

unfoldable pub write_all : List Bytes → CacheKeyBuilder → CacheKeyBuilder
write_all [] b = b
write_all (p ∷ ps) b = write_all ps (write p b)

-- What the fields come to behind an empty builder.
unfoldable pub encode : List Bytes → Bytes
encode [] = []
encode (p ∷ ps) = le_uint32 (length p) ++ (p ++ encode ps)

pub write_all-encode :
    (ps : List Bytes) (b : CacheKeyBuilder) → (write_all ps b).h ≡ b.h ++ encode ps
unfolding write_all encode write
write_all-encode [] b = sym (append-nil b.h)
write_all-encode (p ∷ ps) b =
    write_all-encode ps (write p b)
    ∙ append_assoc (b.h ++ le_uint32 (length p)) p (encode ps)
    ∙ append_assoc b.h (le_uint32 (length p)) (p ++ encode ps)

-- The fields fit the prefix of 32 bits.
abbrev pub AreShort : List Bytes → Type 0
AreShort = All (λ p. length p < 2 ^ 32)

pub le_uint32-cancel :
    (m n : ℕ) (s t : Bytes)
    → m < 2 ^ 32
    → n < 2 ^ 32
    → le_uint32 m ++ s ≡ le_uint32 n ++ t
    → (m ≡ n) × (s ≡ t)
unfolding le_uint32
le_uint32-cancel m n s t hm hn e = ground arith

append-cancel : (p q s t : Bytes) → length p ≡ length q → p ++ s ≡ q ++ t → (p ≡ q) × (s ≡ t)
append-cancel [] [] s t l e = (refl, e)
append-cancel [] (y ∷ q) s t l e = absurd (omega arith)
append-cancel (x ∷ p) [] s t l e = absurd (omega arith)
append-cancel (x ∷ p) (y ∷ q) s t l e =
    let (e1, e2) = append-cancel p q s t (omega arith) (ground arith) in (ground arith, e2)

le_uint32-ne-nil : (n : ℕ) (s : Bytes) → le_uint32 n ++ s ≢ []
unfolding le_uint32
le_uint32-ne-nil n s = λ e. cc

-- Two sequences of fields with one encoding are the same sequence.
pub encode-injective :
    (ps qs : List Bytes) → AreShort ps → AreShort qs → encode ps ≡ encode qs → ps ≡ qs
unfolding encode
encode-injective [] [] hp hq e = refl
encode-injective [] (q ∷ qs) hp hq e = absurd (le_uint32-ne-nil _ _ (sym e))
encode-injective (p ∷ ps) [] hp hq e = absurd (le_uint32-ne-nil _ _ e)
encode-injective (p ∷ ps) (q ∷ qs) hp hq e =
    let (l, r) = le_uint32-cancel (length p) (length q) _ _ hp.0 hq.0 e in
    let (same, rest) = append-cancel p q (encode ps) (encode qs) l r in
    let ih = encode-injective ps qs hp.1 hq.1 rest in cc

-- Two builders that get different sequences of fields, each field shorter than 2 ^ 32 bytes, hand
-- different bytes to the hash: ("ab", "c") and ("a", "bc") do not meet.
pub write_all-injective :
    (ps qs : List Bytes)
    → AreShort ps
    → AreShort qs
    → (write_all ps acquire_cache_key_builder).h ≡ (write_all qs acquire_cache_key_builder).h
    → ps ≡ qs
unfolding acquire_cache_key_builder
write_all-injective ps qs hp hq e =
    encode-injective ps qs hp hq (sym (write_all-encode ps _) ∙ e ∙ write_all-encode qs _)

-- The shortcut for one field is the builder's key of that field, whatever the hash is.
pub cache_key_of-sum :
    (sum64 : Bytes → ℕ) (p : Bytes)
    → cache_key_of sum64 p ≡ sum sum64 (write p acquire_cache_key_builder)
unfolding cache_key_of sum write acquire_cache_key_builder
cache_key_of-sum sum64 p = refl
