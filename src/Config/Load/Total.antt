-- ===== src/Config/Load/Total.antt =====
-- pkg/config/load.go: loading ends, also where files include one another, and leaves no include.
use mathlib.Core.Path.{subst}
use fasthttpd.Base.{
  if_cases, ℕ, zero, suc, ◌≤◌, ◌<◌, ◌≡◌, refl, ap, ◌≢◌, inl, inr, true, false, ◌||◌, Option, none,
  some, List, [], ◌∷◌, ◌++◌, arith, if◌then◌else◌, Bool-cases, Option-cases, length, is_nil, Bytes,
  bytes_eq, eq_of_bytes_eq, bytes_eq_refl, contains, abs,
}
use fasthttpd.Config.Load.{
  Files, LoadError, undecodable, bad_pattern, Loaded, loaded, failed, out_of_fuel, ◌>>=◌, or_fail,
  load_paths, include_docs, expand_includes, unmarshal_tree_maps, load_abs, load_tree_maps_path,
  load_tree_maps,
}

-- How many of the files are not on the way.
unfoldable pub left_over : List Bytes → List Bytes → ℕ
left_over paths [] = 0
left_over paths (f ∷ all) =
    if contains paths f then left_over paths all else suc (left_over paths all)

contains-snoc :
    (paths : List Bytes) (a f : Bytes)
    → contains (paths ++ a ∷ []) f ≡ (contains paths f || bytes_eq a f)
unfolding contains
contains-snoc [] a f = ground arith
contains-snoc (p ∷ paths) a f = ground (arith, contains-snoc paths a f)

left_over-le :
    (paths all : List Bytes) (a : Bytes) → left_over (paths ++ a ∷ []) all ≤ left_over paths all
unfolding left_over
left_over-le paths [] a = omega arith
left_over-le paths (f ∷ all) a = ground (arith, contains-snoc paths a f, left_over-le paths all a)

left_over-lt :
    (paths all : List Bytes) (a : Bytes)
    → contains all a ≡ true
    → contains paths a ≡ false
    → left_over (paths ++ a ∷ []) all < left_over paths all
unfolding left_over contains
left_over-lt paths [] a h k = cc
left_over-lt paths (f ∷ all) a h k = elim (Bool-cases (bytes_eq f a)) [
  | inl e ↦
      let same = eq_of_bytes_eq f a e in
      rw (same, contains-snoc paths a a, k, bytes_eq_refl a)
        (ground (arith, left_over-le paths all a))
  | inr e ↦
      ground (arith, contains-snoc paths a f, left_over-lt paths all a, left_over-le paths all a)
]

left_over_nil : (all : List Bytes) → left_over [] all ≡ length all
unfolding left_over contains
left_over_nil [] = refl
left_over_nil (f ∷ all) = ap suc (left_over_nil all)

-- Loading ends with documents or an error.
abbrev Ends : {A : Type 0} → Loaded A → Type 0
Ends (loaded a) = Unit
Ends (failed e) = Unit
Ends out_of_fuel = ⊥

Ends-bind :
    {A B : Type 0}
    → (m : Loaded A) (f : A → Loaded B) → Ends m
    → ((a : A) → Ends (f a))
    → Ends (m >>= f)
Ends-bind (loaded a) f h k = k a
Ends-bind (failed e) f h k = tt
Ends-bind out_of_fuel f h k = h

Ends-or_fail : {A : Type 0} → (o : Option A) (e : LoadError) → Ends (or_fail o e)
Ends-or_fail none e = tt
Ends-or_fail (some a) e = tt

load_paths-Ends :
    {Doc : Type 0} (load : Bytes → Loaded (List Doc)) (paths : List Bytes)
    → ((p : Bytes) → Ends (load p))
    → Ends (load_paths load paths)
unfolding load_paths
load_paths-Ends load [] h = tt
load_paths-Ends load (p ∷ paths) h =
    Ends-bind (load p) _ (h p)
      (λ sub. Ends-bind (load_paths load paths) _ (load_paths-Ends load paths h) (λ rest. tt))

module _ {Doc : Type 0} (files : Files Doc) where
  open files use {abs_path, read_file, decode, include, glob}

  include_docs-Ends :
      (load : Bytes → Loaded (List Doc)) (inc : Bytes)
      → ((p : Bytes) → Ends (load p))
      → Ends (include_docs files load inc)
  unfolding include_docs
  include_docs-Ends load inc h =
      Ends-bind (or_fail (glob inc) (bad_pattern inc)) _ (Ends-or_fail (glob inc) (bad_pattern inc))
        (λ paths. load_paths-Ends load paths h)

  expand_includes-Ends :
      (load : Bytes → Loaded (List Doc)) (ms : List Doc)
      → ((p : Bytes) → Ends (load p))
      → Ends (expand_includes files load ms)
  unfolding expand_includes
  expand_includes-Ends load [] h = tt
  expand_includes-Ends load (m ∷ ms) h =
      Ends-bind
        (if is_nil (include m) then loaded (m ∷ []) else include_docs files load (include m)) _
        (if_cases Ends (is_nil (include m)) _ _ (λ e. tt)
          (λ e. include_docs-Ends load (include m) h))
        (λ docs.
          Ends-bind (expand_includes files load ms) _ (expand_includes-Ends load ms h) (λ rest. tt))

  unmarshal_tree_maps-Ends :
      (load : Bytes → Loaded (List Doc)) (text : Bytes)
      → ((p : Bytes) → Ends (load p))
      → Ends (unmarshal_tree_maps files load text)
  unfolding unmarshal_tree_maps
  unmarshal_tree_maps-Ends load text h =
      Ends-bind (or_fail (decode text) undecodable) _ (Ends-or_fail (decode text) undecodable)
        (λ ms. expand_includes-Ends load ms h)

  -- `all` lists the files that can be read.
  module _ (all : List Bytes)
      (listed : (p text : Bytes) → read_file p ≡ some text → contains all p ≡ true) where
    load_tree_maps_path-Ends :
        (fuel : ℕ) (paths : List Bytes) (path : Bytes)
        → left_over paths all < fuel
        → Ends (load_tree_maps_path files fuel paths path)
    unfolding load_tree_maps_path load_abs
    load_tree_maps_path-Ends zero paths path h = absurd (omega arith)
    load_tree_maps_path-Ends (suc fuel) paths path h = elim (Option-cases (abs_path path)) [
      | inl e ↦ rw (e, load_tree_maps_path) tt
      | inr (abs, e) ↦
          rw (e, load_tree_maps_path)
            (if_cases Ends (contains paths abs) _ _ (λ c. tt)
              λ c. elim (Option-cases (read_file abs)) [
                | inl n ↦ rw n tt
                | inr (text, n) ↦ rw n (
                    unmarshal_tree_maps-Ends (load_tree_maps_path files fuel (paths ++ abs ∷ []))
                      text
                      (λ p.
                        load_tree_maps_path-Ends fuel (paths ++ abs ∷ []) p
                          (omega (arith, left_over-lt paths all abs (listed abs text n) c))))
              ])
    ]

    -- However files include one another, also in circles: loading ends with documents or an error
    -- if the fuel is more than the number of files that can be read.
    pub load_tree_maps-ne-out_of_fuel :
        (fuel : ℕ) (path : Bytes) → length all < fuel → load_tree_maps files fuel path ≢ out_of_fuel
    unfolding load_tree_maps
    load_tree_maps-ne-out_of_fuel fuel path h e =
        subst Ends e (load_tree_maps_path-Ends fuel [] path (omega (arith, left_over_nil all)))
