-- ===== src/Command/Dump.antt =====
-- pkg/cmd/dump.go: testing the configuration, and writing it.
pub mod Stdout
use fasthttpd.Base.{
  ℕ, suc, ◌+◌, ◌-◌, ◌/◌, ap, Bool, true, false, not, Option, none, some, List, [], ◌∷◌, ◌++◌, map,
  if◌then◌else◌, set, take, is_nil, Bytes, codes, bytes_eq,
}
use fasthttpd.Config.Settings.{Settings, from_tree_maps}
use fasthttpd.Config.Edit.{edit_tree_maps}
use fasthttpd.Command.{
  ◌>>=◌, Outcome, done, stopped, CommandError, not_written, not_marshalled, unknown_format, System,
  Flags, load_config, validate_tree_maps, from_edited, from_normalized,
}

pub data Stream : Type 0 where
  standard_output : Stream
  standard_error : Stream

-- What was written.
pub record Streams : Type 0 where
  pub stdout : Bytes
  pub stderr : Bytes

abbrev pub add : Stream → Bytes → Streams → Streams
add standard_output b s = record s { stdout = s.stdout ++ b }
add standard_error b s = record s { stderr = s.stderr ++ b }

-- Writing returns what was written, and an error or nil.
abbrev pub Writing : Type 0
Writing = Streams → Streams × Option CommandError

-- Going on where there was no error.
abbrev pub after : Streams × Option CommandError → Writing → Streams × Option CommandError
after (s, none) w = w s
after (s, some e) w = (s, some e)

infixl 5 ◌>>◌
abbrev pub ◌>>◌ : Writing → Writing → Writing
(first >> second) s = after (first s) second

abbrev pub nothing : Writing
nothing s = (s, none)

abbrev pub when : Bool → Writing → Writing
when b w = if b then w else nothing

abbrev pub fails : CommandError → Writing
fails e s = (s, some e)

abbrev pub ansi_dim : Bytes
ansi_dim = 27 ∷ codes "[2m"

abbrev pub ansi_reset : Bytes
ansi_reset = 27 ∷ codes "[0m"

-- What a write to a stream does, of what was written before and what is written: `none` if it
-- takes all, and else how many bytes it takes before it returns an error; and the encoders.
pub record Encoders (Map : Type 0) : Type 0 where
  pub stops : Stream → Streams → Bytes → Option ℕ
  pub marshal_yaml : Map → Option Bytes
  pub marshal_json : List Map → Option Bytes
  pub marshal_configs : List (Settings Map) → Option Bytes
  pub encode_configs : List (Settings Map) → Option Bytes

-- `shouldColor`, of a file that is not nil: whether `NO_COLOR` is set, and whether the file is a
-- character device or `Stat` fails.
unfoldable pub should_color : Bytes → Option Bool → Bool
should_color no_color is_char_device =
    if is_nil no_color then (elim is_char_device [ none ↦ false | some b ↦ b ]) else false

module _ {Map : Type 0} (enc : Encoders Map) where
  open enc use {stops, marshal_yaml, marshal_json, marshal_configs, encode_configs}

  unfoldable pub write : Stream → Bytes → Writing
  write w b s = elim (stops w s b) [
    | none ↦ (add w b s, none)
    | some n ↦ (add w (take n b) s, some not_written)
  ]

  -- Writing what an encoder gave.
  unfoldable pub write_encoded : Stream → Option Bytes → Writing
  write_encoded w none = fails not_marshalled
  write_encoded w (some b) = write w b

  -- The loop over the documents, with whether one came before.
  unfoldable pub write_yaml : Stream → Bool → List Map → Writing
  write_yaml w later [] = nothing
  write_yaml w later (m ∷ ms) =
      (if later then write w (codes "---" ++ 10 ∷ []) else nothing)
      >> write_encoded w (marshal_yaml m)
      >> write_yaml w true ms

  unfoldable pub write_tree_maps : Stream → List Map → Bytes → Writing
  write_tree_maps w ms format =
      if bytes_eq format (codes "yaml")
      then write_yaml w false ms
      else if bytes_eq format (codes "json")
      then write_encoded w (marshal_json ms) >> write w (10 ∷ [])
      else fails (unknown_format format)

  unfoldable pub write_configs : Stream → List (Settings Map) → Bytes → Writing
  write_configs w cfgs format =
      if bytes_eq format (codes "yaml")
      then write_encoded w (marshal_configs cfgs)
      else if bytes_eq format (codes "json")
      then write_encoded w (encode_configs cfgs)
      else fails (unknown_format format)

  unfoldable pub write_pre_edit : List Map → Bytes → Bool → Writing
  write_pre_edit pre_edit format dim =
      when dim (write standard_error ansi_dim)
      >> write_tree_maps standard_error pre_edit format
      >> write standard_error (10 ∷ [])
      >> when dim (write standard_error ansi_reset)

  unfoldable pub write_dump : List Map → List (Settings Map) → Bytes → Bool → Writing
  write_dump pre_edit cfgs format dim =
      when (not (is_nil pre_edit)) (write_pre_edit pre_edit format dim)
      >> write_configs standard_output cfgs format

  -- What `testOrDump` writes once it has the configurations.
  unfoldable pub report : Flags → Bool → List Map → List (Settings Map) → Writing
  report d dim ms cfgs =
      if is_nil d.dump_format
      then write standard_error (codes "configuration test is successful" ++ 10 ∷ [])
      else write_dump (if is_nil d.edit_exprs then [] else ms) cfgs d.dump_format dim

  module _ {N : Type 0} (system : System Map N) where
    open system use {nodes, quote, around, no_config, decode}

    unfoldable pub test_configs : ℕ → Flags → Outcome (List Map × List (Settings Map))
    test_configs fuel d = do
      ms ← load_config system fuel d.config_file
      edited_ms ← from_edited (edit_tree_maps nodes quote ms d.edit_exprs)
      _ ← validate_tree_maps system edited_ms
      cfgs ← from_normalized (from_tree_maps around no_config decode edited_ms)
      done (ms, cfgs)

    -- The error, or the report.
    abbrev pub told : Flags → Bool → Outcome (List Map × List (Settings Map)) → Writing
    told d dim (stopped e) = fails e
    told d dim (done (ms, cfgs)) = report d dim ms cfgs

    unfoldable pub test_or_dump : ℕ → Flags → Bool → Writing
    test_or_dump fuel d dim = told d dim (test_configs fuel d)
