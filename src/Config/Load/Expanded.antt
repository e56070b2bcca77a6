-- ===== src/Config/Load/Expanded.antt =====
-- pkg/config/load.go: the documents that are loaded have no include directive.
use mathlib.Core.Path.{subst}
use fasthttpd.Base.{
  if_cases, ℕ, zero, suc, ◌≡◌, inl, inr, true, Option, none, some, List, [], ◌∷◌, ◌++◌,
  if◌then◌else◌, Option-cases, is_nil, All, All-append, Bytes, contains, abs,
}
use fasthttpd.Config.Load.{
  Files, LoadError, undecodable, bad_pattern, Loaded, loaded, failed, out_of_fuel, ◌>>=◌, or_fail,
  load_paths, include_docs, expand_includes, unmarshal_tree_maps, load_abs, load_tree_maps_path,
  load_tree_maps,
}

-- The predicate holds of what is loaded, if something is.
abbrev Gives : {A : Type 0} → (A → Type 0) → Loaded A → Type 0
Gives P (loaded a) = P a
Gives P (failed e) = Unit
Gives P out_of_fuel = Unit

Gives-bind :
    {A B : Type 0} (P : A → Type 0) (Q : B → Type 0) (m : Loaded A) (f : A → Loaded B)
    → Gives P m
    → ((a : A) → P a → Gives Q (f a))
    → Gives Q (m >>= f)
Gives-bind P Q (loaded a) f h k = k a h
Gives-bind P Q (failed e) f h k = tt
Gives-bind P Q out_of_fuel f h k = tt

Gives-or_fail : {A : Type 0} (o : Option A) (e : LoadError) → Gives (λ a. Unit {0}) (or_fail o e)
Gives-or_fail none e = tt
Gives-or_fail (some a) e = tt

module _ {Doc : Type 0} (files : Files Doc) where
  open files use {abs_path, read_file, decode, include, glob}

  -- No document of the list includes files.
  abbrev pub IsExpanded : List Doc → Type 0
  IsExpanded = All (λ m. is_nil (include m) ≡ true)

  append-Gives :
      (m n : Loaded (List Doc))
      → Gives IsExpanded m
      → Gives IsExpanded n
      → Gives IsExpanded (m >>= λ docs. n >>= λ rest. loaded (docs ++ rest))
  append-Gives m n h k = Gives-bind IsExpanded IsExpanded m _ h (λ docs d.
      Gives-bind IsExpanded IsExpanded n _ k
        (λ rest r. All-append (λ x. is_nil (include x) ≡ true) docs rest d r))

  load_paths-Gives :
      (load : Bytes → Loaded (List Doc)) (paths : List Bytes)
      → ((p : Bytes) → Gives IsExpanded (load p))
      → Gives IsExpanded (load_paths load paths)
  unfolding load_paths
  load_paths-Gives load [] h = tt
  load_paths-Gives load (p ∷ paths) h =
      append-Gives (load p) (load_paths load paths) (h p) (load_paths-Gives load paths h)

  include_docs-Gives :
      (load : Bytes → Loaded (List Doc)) (inc : Bytes)
      → ((p : Bytes) → Gives IsExpanded (load p))
      → Gives IsExpanded (include_docs files load inc)
  unfolding include_docs
  include_docs-Gives load inc h =
      Gives-bind (λ paths. Unit {0}) IsExpanded (or_fail (glob inc) (bad_pattern inc)) _
        (Gives-or_fail (glob inc) (bad_pattern inc)) (λ paths u. load_paths-Gives load paths h)

  expand_includes-Gives :
      (load : Bytes → Loaded (List Doc)) (ms : List Doc)
      → ((p : Bytes) → Gives IsExpanded (load p))
      → Gives IsExpanded (expand_includes files load ms)
  unfolding expand_includes
  expand_includes-Gives load [] h = tt
  expand_includes-Gives load (m ∷ ms) h =
      append-Gives
        (if is_nil (include m) then loaded (m ∷ []) else include_docs files load (include m))
        (expand_includes files load ms)
        (if_cases (Gives IsExpanded) (is_nil (include m)) _ _ (λ e. (e, tt))
          (λ e. include_docs-Gives load (include m) h))
        (expand_includes-Gives load ms h)

  load_tree_maps_path-Gives :
      (fuel : ℕ) (paths : List Bytes) (path : Bytes)
      → Gives IsExpanded (load_tree_maps_path files fuel paths path)
  unfolding load_tree_maps_path load_abs unmarshal_tree_maps
  load_tree_maps_path-Gives zero paths path = tt
  load_tree_maps_path-Gives (suc fuel) paths path = elim (Option-cases (abs_path path)) [
    | inl e ↦ rw (e, load_tree_maps_path) tt
    | inr (abs, e) ↦
        rw (e, load_tree_maps_path)
          (if_cases (Gives IsExpanded) (contains paths abs) _ _ (λ c. tt)
            λ c. elim (Option-cases (read_file abs)) [
              | inl n ↦ rw n tt
              | inr (text, n) ↦ rw n (
                  Gives-bind (λ ms. Unit {0}) IsExpanded (or_fail (decode text) undecodable) _
                    (Gives-or_fail (decode text) undecodable)
                    (λ ms u.
                      expand_includes-Gives (load_tree_maps_path files fuel (paths ++ abs ∷ [])) ms
                        (λ p. load_tree_maps_path-Gives fuel (paths ++ abs ∷ []) p)))
            ])
  ]

  -- None of the documents that are loaded has an include directive left.
  pub load_tree_maps-IsExpanded :
      (fuel : ℕ) (path : Bytes) {docs : List Doc}
      → load_tree_maps files fuel path ≡ loaded docs
      → IsExpanded docs
  unfolding load_tree_maps
  load_tree_maps-IsExpanded fuel path e =
      subst (Gives IsExpanded) e (load_tree_maps_path-Gives fuel [] path)
