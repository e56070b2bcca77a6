-- ===== src/Command.antt =====
-- pkg/cmd: the flags of the command, how its configuration is read, and what it then does.
pub mod Dump
pub mod Startup
pub mod Checks
mod Tests
use fasthttpd.Base.{
  ℕ, suc, ◌-◌, ◌/◌, ap, Bool, true, false, not, ◌&&◌, ◌||◌, Option, none, some, List, [], ◌∷◌, map,
  ltb, ◌==◌, if◌then◌else◌, length, set, is_nil, Bytes, codes, bytes_eq,
}
use fasthttpd.Config.Load.{Files, LoadError, Loaded, load_tree_maps, loaded, failed, out_of_fuel}
use fasthttpd.Config.Edit
use fasthttpd.Config.Edit.{EditError, Edited, Nodes, edit_tree_maps}
use fasthttpd.Config.Settings
use fasthttpd.Config.Settings.{Settings, SettingsError, Normalized, Surroundings, from_tree_maps}

-- An error of `schema.ValidateWithPrefix`, and whether it is an `ErrQuery`.
pub record SchemaError : Type 0 where
  pub message : Bytes
  pub malformed : Bool

-- `too_little_fuel` belongs to the model only.
pub data CommandError : Type 0 where
  no_directory : Bytes → CommandError
  not_loaded : LoadError → CommandError
  too_little_fuel : CommandError
  not_edited : EditError → CommandError
  invalid : List SchemaError → CommandError
  malformed_rule : List SchemaError → CommandError
  not_made : SettingsError → CommandError
  not_written : CommandError
  not_marshalled : CommandError
  unknown_format : Bytes → CommandError

pub data Outcome (A : Type 0) : Type 0 where
  done : A → Outcome A
  stopped : CommandError → Outcome A

infixl 5 ◌>>=◌
abbrev pub ◌>>=◌ : {A B : Type 0} → Outcome A → (A → Outcome B) → Outcome B
done a >>= f = f a
stopped e >>= f = stopped e

-- `dumpFormat.Set`; `none` is the error.
unfoldable pub set_dump_format : Bytes → Option Bytes
set_dump_format v =
    if bytes_eq v (codes "true") || bytes_eq v (codes "yaml")
    then some (codes "yaml")
    else if bytes_eq v (codes "json")
    then some (codes "json")
    else none

-- The fields of `FastHttpd` that flags set.
pub record Flags : Type 0 where
  pub is_version : Bool
  pub is_help : Bool
  pub is_test : Bool
  pub dump_format : Bytes
  pub config_file : Bytes
  pub edit_exprs : List Bytes

pub data Action : Type 0 where
  prints_version : Action
  prints_usage : Action
  tests_or_dumps : Action
  runs : Action

-- `Main` after the flags.
unfoldable pub main : Flags → Action
main d =
    if d.is_version
    then prints_version
    else if d.is_help
    then prints_usage
    else if d.is_test || not (is_nil d.dump_format)
    then tests_or_dumps
    else if is_nil d.config_file && is_nil d.edit_exprs
    then prints_usage
    else runs

-- `filepath.Split`: the directory with its slash, and the file.
unfoldable pub split : Bytes → Bytes × Bytes
split [] = ([], [])
split (c ∷ path) =
    let (dir, file) = split path in
    if is_nil dir && not (c == b'/') then ([], c ∷ file) else (c ∷ dir, file)

-- What the command reads of its surroundings: `os.Chdir` with the files as they are found from the
-- directory then, `schema.ValidateWithPrefix` with the index that is in the prefix, and the parameters
-- of package config.
pub record System (Map N : Type 0) : Type 0 where
  pub files : Files Map
  pub chdir : Bytes → Option (Files Map)
  pub nodes : Nodes Map N
  pub quote : Bytes → Bytes
  pub validate : Option ℕ → Map → Option SchemaError
  pub around : Surroundings
  pub no_config : Settings Map
  pub decode : Map → Settings Map → Option (Settings Map)
  pub minimal_tree_map : Map

abbrev pub from_loaded : {A : Type 0} → Loaded A → Outcome A
from_loaded (loaded a) = done a
from_loaded (failed e) = stopped (not_loaded e)
from_loaded out_of_fuel = stopped too_little_fuel

abbrev pub from_edited : {A : Type 0} → Edited A → Outcome A
from_edited (Edit.edited a) = done a
from_edited (Edit.failed e) = stopped (not_edited e)

abbrev pub from_normalized : {A : Type 0} → Normalized A → Outcome A
from_normalized (Settings.ok a) = done a
from_normalized (Settings.err e) = stopped (not_made e)

abbrev any_malformed : List SchemaError → Bool
any_malformed [] = false
any_malformed (e ∷ errs) = e.malformed || any_malformed errs

module _ {Map N : Type 0} (system : System Map N) where
  open system use {
    files, chdir, nodes, quote, validate, around, no_config, decode, minimal_tree_map,
  }

  -- `FastHttpd.loadTreeMaps`
  unfoldable pub load_config : ℕ → Bytes → Outcome (List Map)
  load_config fuel config_file =
      let (dir, file) = split config_file in
      if is_nil config_file
      then done (minimal_tree_map ∷ [])
      else if is_nil dir
      then from_loaded (load_tree_maps files fuel file)
      else elim (chdir dir) [
        | none ↦ stopped (no_directory dir)
        | some there ↦ from_loaded (load_tree_maps there fuel file)
      ]

  -- The errors of the documents, from the index on.
  unfoldable pub schema_errors : Bool → ℕ → List Map → List SchemaError
  schema_errors many i [] = []
  schema_errors many i (m ∷ ms) =
      let rest = schema_errors many (suc i) ms in
      elim (validate (if many then some i else none) m) [ none ↦ rest | some e ↦ e ∷ rest ]

  unfoldable pub validate_tree_maps : List Map → Outcome (Unit {0})
  validate_tree_maps ms =
      let errs = schema_errors (ltb 1 (length ms)) 0 ms in
      if is_nil errs
      then done tt
      else if any_malformed errs
      then stopped (malformed_rule errs)
      else stopped (invalid errs)

  -- The configurations that `run` serves.
  unfoldable pub run_configs : ℕ → Flags → Outcome (List (Settings Map))
  run_configs fuel d = do
    ms ← load_config fuel d.config_file
    edited_ms ← from_edited (edit_tree_maps nodes quote ms d.edit_exprs)
    _ ← validate_tree_maps edited_ms
    from_normalized (from_tree_maps around no_config decode edited_ms)
