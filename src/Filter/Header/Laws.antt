-- ===== src/Filter/Header/Laws.antt =====
-- pkg/filter/header.go: the values of each key behind a filter.
use fasthttpd.Base.{
  ◌≡◌, refl, sym, ◌∙◌, inl, inr, Bool, true, false, ◌||◌, List, [], ◌∷◌, ◌++◌, append_assoc,
  append-nil, arith, if◌then◌else◌, Bool-cases, Bytes,
}
use fasthttpd.Filter.Header.{FastHttpHeader, HeaderRules, set_all, add_all, del_all, filter}

-- At most one value.
abbrev pub IsSingle : List Bytes → Type 0
IsSingle [] = Unit
IsSingle (v ∷ []) = Unit
IsSingle (v ∷ w ∷ vs) = ⊥

-- What the filter relies on of a header: the values of an ordinary key, where keys may be the same
-- that are spelled differently. The keys that fasthttp keeps in fields of their own are not
-- ordinary: adding a Content-Type, Server or Date replaces it, and Set-Cookie, Connection and
-- Transfer-Encoding have rules of their own. Writing one of those leaves the ordinary keys alone.
-- Setting a key of several values is left open.
pub record FastHttpHeaderLaws {H : Type 0} (fh : FastHttpHeader H) : Type 0 where
  pub same_key : Bytes → Bytes → Bool
  pub ordinary : Bytes → Bool
  pub values : Bytes → H → List Bytes
  pub values-set :
      (k j v : Bytes) (h : H)
      → ordinary k ≡ true
      → IsSingle (values k h)
      → values k (fh.set_bytes j v h) ≡ (if same_key j k then v ∷ [] else values k h)
  pub values-add :
      (k j v : Bytes) (h : H)
      → ordinary k ≡ true
      → values k (fh.add_bytes j v h) ≡ (if same_key j k then values k h ++ v ∷ [] else values k h)
  pub values-del :
      (k j : Bytes) (h : H)
      → ordinary k ≡ true
      → values k (fh.del_bytes j h) ≡ (if same_key j k then [] else values k h)

module _ (same_key : Bytes → Bytes → Bool) where
  -- The configured values for the key.
  abbrev pub matching : Bytes → List (Bytes × Bytes) → List Bytes
  matching k [] = []
  matching k ((j, v) ∷ es) = if same_key j k then v ∷ matching k es else matching k es

  abbrev pub has_key : Bytes → List Bytes → Bool
  has_key k [] = false
  has_key k (j ∷ js) = same_key j k || has_key k js

-- The last of the new values alone, or the old ones where there is none.
abbrev pub last_or : List Bytes → List Bytes → List Bytes
last_or old [] = old
last_or old (v ∷ vs) = last_or (v ∷ []) vs

module _ {H : Type 0} (fh : FastHttpHeader H) (laws : FastHttpHeaderLaws fh) where
  values-set_all :
      (k : Bytes) (es : List (Bytes × Bytes)) (h : H)
      → laws.ordinary k ≡ true
      → IsSingle (laws.values k h)
      → laws.values k (set_all fh es h) ≡ last_or (laws.values k h) (matching laws.same_key k es)
  unfolding set_all
  values-set_all k [] h o u = refl
  values-set_all k ((j, v) ∷ es) h o u =
      let w = laws.values-set k j v h o u in
      elim (Bool-cases (laws.same_key j k)) [
        | inl e ↦ values-set_all k es (fh.set_bytes j v h) o (rw (w, e) tt) ∙ rw (w, e) refl
        | inr e ↦ values-set_all k es (fh.set_bytes j v h) o (rw (w, e) u) ∙ rw (w, e) refl
      ]

  values-add_all :
      (k : Bytes) (es : List (Bytes × Bytes)) (h : H)
      → laws.ordinary k ≡ true
      → laws.values k (add_all fh es h) ≡ laws.values k h ++ matching laws.same_key k es
  unfolding add_all
  values-add_all k [] h o = sym (append-nil (laws.values k h))
  values-add_all k ((j, v) ∷ es) h o = elim (Bool-cases (laws.same_key j k)) [
    | inl e ↦
        values-add_all k es (fh.add_bytes j v h) o
        ∙ rw (laws.values-add k j v h o, e) (append_assoc (laws.values k h) (v ∷ []) _)
    | inr e ↦ values-add_all k es (fh.add_bytes j v h) o ∙ rw (laws.values-add k j v h o, e) refl
  ]

  values-del_all :
      (k : Bytes) (ks : List Bytes) (h : H)
      → laws.ordinary k ≡ true
      → laws.values k (del_all fh ks h)
        ≡ (if has_key laws.same_key k ks then [] else laws.values k h)
  unfolding del_all
  values-del_all k [] h o = refl
  values-del_all k (j ∷ ks) h o =
      ground (arith, values-del_all k ks (fh.del_bytes j h) o, laws.values-del k j h o)

  -- A filter is applied to a header that has at most one value for an ordinary key. If the key is to
  -- be deleted it has no value behind the filter, even where it is also set or added; otherwise it
  -- has the last value that is set for it, or what it had where none is, and behind that the values
  -- that are added, in their order.
  pub values-filter :
      (k : Bytes) (r : HeaderRules) (h : H)
      → laws.ordinary k ≡ true
      → IsSingle (laws.values k h)
      → laws.values k (filter fh r h) ≡ (
          if has_key laws.same_key k r.del_keys
          then []
          else last_or (laws.values k h) (matching laws.same_key k r.set_headers)
            ++ matching laws.same_key k r.add_headers)
  unfolding filter
  values-filter k r h o u =
      values-del_all k r.del_keys (add_all fh r.add_headers (set_all fh r.set_headers h)) o
      ∙ rw
          (
            values-add_all k r.add_headers (set_all fh r.set_headers h) o,
            values-set_all k r.set_headers h o u,
          )
          refl
