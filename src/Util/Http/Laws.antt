-- ===== src/Util/Http/Laws.antt =====
-- pkg/util/http.go: what splitting and extending a request URI keep.
use mathlib.Core.Option
use fasthttpd.Base.{
  ℕ, zero, suc, ◌≡◌, refl, ◌≢◌, ◌⊎◌, inl, inr, none, some, [], ◌∷◌, ◌++◌, append_assoc, arith, ◌==◌,
  Bool-cases, Option-cases, take, drop, Bytes, index_byte,
}
use fasthttpd.Util.Http.{split_request_uri, append_query_string}

take-index_byte :
    (s : Bytes) (b q : ℕ) → index_byte s b ≡ some q → take q s ++ b ∷ drop (suc q) s ≡ s
unfolding index_byte
take-index_byte [] b q h = cc
take-index_byte (c ∷ s) b zero h = ground (arith, Option.map suc (index_byte s b))
take-index_byte (c ∷ s) b (suc q) h = ground (arith, take-index_byte s b q)

index_byte-take : (s : Bytes) (b q : ℕ) → index_byte s b ≡ some q → index_byte (take q s) b ≡ none
unfolding index_byte
index_byte-take [] b q h = cc
index_byte-take (c ∷ s) b zero h = refl
index_byte-take (c ∷ s) b (suc q) h = ground (arith, index_byte-take s b q)

index_byte-append :
    (s t : Bytes) (b q : ℕ)
    → index_byte s b ≡ some q
    → (index_byte (s ++ t) b ≡ some q) × (take q (s ++ t) ≡ take q s)
unfolding index_byte
index_byte-append [] t b q h = cc
index_byte-append (c ∷ s) t b zero h = ground arith
index_byte-append (c ∷ s) t b (suc q) h = ground (arith, index_byte-append s t b q)

index_byte-append_none :
    (s t : Bytes) (b : ℕ)
    → index_byte s b ≡ none
    → (q : ℕ) × (index_byte (s ++ b ∷ t) b ≡ some q)
      × (take q (s ++ b ∷ t) ≡ s)
      × (drop (suc q) (s ++ b ∷ t) ≡ t)
unfolding index_byte
index_byte-append_none [] t b h = (0, ground arith, refl, refl)
index_byte-append_none (c ∷ s) t b h = elim (Bool-cases (c == b)) [
  | inl e ↦ absurd (ground arith)
  | inr e ↦
      let (q, i, l, r) = index_byte-append_none s t b (ground arith) in (suc q, rw (e, i), rw l, r)
]

module _ (uri : Bytes) where
  split_request_uri-none : index_byte uri b'?' ≡ none → split_request_uri uri ≡ (uri, [])
  unfolding split_request_uri
  split_request_uri-none e = ground arith

  split_request_uri-some :
      (q : ℕ)
      → index_byte uri b'?' ≡ some q
      → split_request_uri uri ≡ (take q uri, drop (suc q) uri)
  unfolding split_request_uri
  split_request_uri-some q e = ground arith

  append_query_string-none :
      (qstr : Bytes)
      → index_byte uri b'?' ≡ none
      → append_query_string uri qstr ≡ uri ++ b'?' ∷ qstr
  unfolding append_query_string
  append_query_string-none qstr e = ground (arith, append_assoc uri (b'?' ∷ []) qstr)

  append_query_string-some :
      (q : ℕ) (qstr : Bytes)
      → index_byte uri b'?' ≡ some q
      → append_query_string uri qstr ≡ uri ++ b'&' ∷ qstr
  unfolding append_query_string
  append_query_string-some q qstr e = ground (arith, append_assoc uri (b'&' ∷ []) qstr)

-- Splitting a request URI loses nothing: joined again by a question mark the two parts are the
-- URI, and where there is no question mark the whole of it is the path; the path has none.
pub split_request_uri_lossless :
    (uri : Bytes)
    → (index_byte (split_request_uri uri).0 b'?' ≡ none)
      × (((split_request_uri uri).0 ++ b'?' ∷ (split_request_uri uri).1 ≡ uri)
          ⊎ (((split_request_uri uri).0 ≡ uri) × ((split_request_uri uri).1 ≡ [])))
split_request_uri_lossless uri = elim (Option-cases (index_byte uri b'?')) [
  | inl e ↦ rw (split_request_uri-none uri e) (e, inr (refl, refl))
  | inr (q, e) ↦
      rw (split_request_uri-some uri q e)
        (index_byte-take uri b'?' q e, inl (take-index_byte uri b'?' q e))
]

-- Appending a query string leaves the path of the URI as it is; where the URI had no query, the
-- appended one is the query, and where it had one, the appended one follows it after `&`.
pub split-append_query_string :
    (dst qstr : Bytes)
    → ((split_request_uri (append_query_string dst qstr)).0 ≡ (split_request_uri dst).0)
      × (index_byte dst b'?' ≡ none → (split_request_uri (append_query_string dst qstr)).1 ≡ qstr)
      × (index_byte dst b'?' ≢ none → (append_query_string dst qstr) ≡ dst ++ b'&' ∷ qstr)
split-append_query_string dst qstr = elim (Option-cases (index_byte dst b'?')) [
  | inl e ↦
      let (q, i, l, r) = index_byte-append_none dst qstr b'?' e in
      rw
        (
          append_query_string-none dst qstr e,
          split_request_uri-some _ q i,
          split_request_uri-none dst e,
        )
        (l, (λ _. r), λ n. absurd (n e))
  | inr (q, e) ↦
      let (i, l) = index_byte-append dst (b'&' ∷ qstr) b'?' q e in
      rw
        (
          append_query_string-some dst q qstr e,
          split_request_uri-some _ q i,
          split_request_uri-some dst q e,
        )
        (l, (λ n. cc), λ _. refl)
]
