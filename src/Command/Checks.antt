-- ===== src/Command/Checks.antt =====
-- pkg/cmd: testing the configuration and running the server read it in the same way.
use fasthttpd.Base.{
  ℕ, ◌≡◌, refl, ap, ◌∙◌, Bool, true, Option, none, some, List, [], ◌∷◌, ◌++◌, is_nil, Bytes, codes,
}
use fasthttpd.Config.Settings.{Settings, from_tree_maps}
use fasthttpd.Config.Edit.{edit_tree_maps}
use fasthttpd.Command.{
  ◌>>=◌, Outcome, done, stopped, CommandError, System, Flags, load_config, validate_tree_maps,
  from_edited, from_normalized, run_configs,
}
use fasthttpd.Command.Dump.{
  told, Encoders, Streams, standard_error, test_configs, test_or_dump, report, write,
}

abbrev pub map_done : {A B : Type 0} → (A → B) → Outcome A → Outcome B
map_done f m = m >>= λ a. done (f a)

map_done-bind :
    {A B C : Type 0} (f : B → C) (m : Outcome A) (k : A → Outcome B) (l : A → Outcome C)
    → ((a : A) → map_done f (k a) ≡ l a)
    → map_done f (m >>= k) ≡ (m >>= l)
map_done-bind f (done a) k l h = h a
map_done-bind f (stopped e) k l h = refl

map_done-done :
    {A B C : Type 0} (f : B → C) (m : Outcome A) (k : A → B) (g : A → C)
    → ((a : A) → f (k a) ≡ g a)
    → map_done f (map_done k m) ≡ map_done g m
map_done-done f (done a) k g h = ap done (h a)
map_done-done f (stopped e) k g h = refl

map_done-id : {A : Type 0} (m : Outcome A) → map_done (λ a. a) m ≡ m
map_done-id (done a) = refl
map_done-id (stopped e) = refl

abbrev pub error_of : {A : Type 0} → Outcome A → Option CommandError
error_of (done a) = none
error_of (stopped e) = some e

module _ {Map N : Type 0} (enc : Encoders Map) (system : System Map N) where
  -- The configurations that are tested are those that are served.
  pub test_configs-run :
      (fuel : ℕ) (d : Flags)
      → map_done (λ r. r.1) (test_configs enc system fuel d) ≡ run_configs system fuel d
  unfolding test_configs run_configs
  test_configs-run fuel d =
      map_done-bind (λ r. r.1) (load_config system fuel d.config_file) _ _
        (λ ms.
          map_done-bind (λ r. r.1)
            (from_edited (edit_tree_maps system.nodes system.quote ms d.edit_exprs)) _ _
            (λ ms'.
              map_done-bind (λ r. r.1) (validate_tree_maps system ms') _ _
                (λ u.
                  map_done-done (λ r. r.1)
                    (from_normalized
                      (from_tree_maps system.around system.no_config system.decode ms'))
                    (λ cfgs. (ms, cfgs)) (λ cfgs. cfgs) (λ cfgs. refl)
                  ∙ map_done-id _)))

  -- What `-t` returns, of the outcome of reading the configuration.
  tests :
      (d : Flags) (dim : Bool) (s : Streams) (r : Outcome (List Map × List (Settings Map)))
      → is_nil d.dump_format ≡ true
      → ((b : Bytes) → enc.stops standard_error s b ≡ none)
      → (told enc system d dim r s).1 ≡ error_of (map_done (λ q. q.1) r)
  unfolding report write
  tests d dim s (stopped e) n w = refl
  tests d dim s (done (ms, cfgs)) n w =
      rw (n, w (codes "configuration test is successful" ++ 10 ∷ []), write) refl

  -- Without a dump format and with a standard error that can be written, testing fails exactly if
  -- the server would not come to have its configurations, and with the same error.
  pub test-run :
      (fuel : ℕ) (d : Flags) (dim : Bool) (s : Streams)
      → is_nil d.dump_format ≡ true
      → ((b : Bytes) → enc.stops standard_error s b ≡ none)
      → (test_or_dump enc system fuel d dim s).1 ≡ error_of (run_configs system fuel d)
  unfolding test_or_dump
  test-run fuel d dim s n w =
      tests d dim s (test_configs enc system fuel d) n w ∙ ap error_of (test_configs-run fuel d)
