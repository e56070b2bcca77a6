-- ===== src/Config/Load.antt =====
-- pkg/config/load.go: documents are read from files, and their `include` directives are replaced by
-- the documents of the files that they name.
pub mod Total
pub mod Expanded
use fasthttpd.Base.{
  ℕ, zero, suc, ◌+◌, ◌-◌, ◌/◌, ap, not, Option, none, some, List, [], ◌∷◌, ◌++◌, map, if◌then◌else◌,
  is_nil, Bytes, contains, abs,
}

-- What the loader reads of its surroundings: absolute paths, files, the YAML decoder, the value of
-- `include` and the paths that a pattern stands for.
pub record Files (Doc : Type 0) : Type 0 where
  pub abs_path : Bytes → Option Bytes
  pub read_file : Bytes → Option Bytes
  pub decode : Bytes → Option (List Doc)
  pub include : Doc → Bytes
  pub glob : Bytes → Option (List Bytes)

pub data LoadError : Type 0 where
  no_abs : Bytes → LoadError
  circular : List Bytes → LoadError
  unreadable : Bytes → LoadError
  undecodable : LoadError
  bad_pattern : Bytes → LoadError

-- `out_of_fuel` belongs to the model only.
pub data Loaded (A : Type 0) : Type 0 where
  loaded : A → Loaded A
  failed : LoadError → Loaded A
  out_of_fuel : Loaded A

infixl 5 ◌>>=◌
abbrev pub ◌>>=◌ : {A B : Type 0} → Loaded A → (A → Loaded B) → Loaded B
loaded a >>= f = f a
failed e >>= f = failed e
out_of_fuel >>= f = out_of_fuel

-- The value, or the error.
abbrev pub or_fail : {A : Type 0} → Option A → LoadError → Loaded A
or_fail none e = failed e
or_fail (some a) e = loaded a

-- The loop over the paths of a pattern; `load` is `loadTreeMapsPath`.
unfoldable pub load_paths :
    {Doc : Type 0} → (Bytes → Loaded (List Doc)) → List Bytes → Loaded (List Doc)
load_paths load [] = loaded []
load_paths load (p ∷ paths) = do sub ← load p; rest ← load_paths load paths; loaded (sub ++ rest)

module _ {Doc : Type 0} (files : Files Doc) where
  open files use {abs_path, read_file, decode, include, glob}

  unfoldable pub include_docs : (Bytes → Loaded (List Doc)) → Bytes → Loaded (List Doc)
  include_docs load inc = do paths ← or_fail (glob inc) (bad_pattern inc); load_paths load paths

  unfoldable pub expand_includes : (Bytes → Loaded (List Doc)) → List Doc → Loaded (List Doc)
  expand_includes load [] = loaded []
  expand_includes load (m ∷ ms) = do
    docs ← (if is_nil (include m) then loaded (m ∷ []) else include_docs load (include m))
    rest ← expand_includes load ms
    loaded (docs ++ rest)

  unfoldable pub unmarshal_tree_maps : (Bytes → Loaded (List Doc)) → Bytes → Loaded (List Doc)
  unmarshal_tree_maps load text = do ms ← or_fail (decode text) undecodable; expand_includes load ms

  -- The checks of `loadTreeMapsPath`, for an absolute path.
  unfoldable pub load_abs :
      (List Bytes → Bytes → Loaded (List Doc)) → List Bytes → Bytes → Loaded (List Doc)
  load_abs load paths abs =
      if contains paths abs then failed (circular paths) else elim (read_file abs) [
        | none ↦ failed (unreadable abs)
        | some text ↦ unmarshal_tree_maps (load (paths ++ abs ∷ [])) text
      ]

  -- The fuel is how deep files may include one another.
  unfoldable pub load_tree_maps_path : ℕ → List Bytes → Bytes → Loaded (List Doc)
  load_tree_maps_path zero paths path = out_of_fuel
  load_tree_maps_path (suc fuel) paths path = elim (abs_path path) [
    | none ↦ failed (no_abs path)
    | some abs ↦ load_abs (load_tree_maps_path fuel) paths abs
  ]

  unfoldable pub load_tree_maps : ℕ → Bytes → Loaded (List Doc)
  load_tree_maps fuel path = load_tree_maps_path fuel [] path
