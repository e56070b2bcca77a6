-- ===== src/Command/Dump/Stdout.antt =====
-- pkg/cmd/dump.go: what the standard output holds after a dump.
use fasthttpd.Base.{
  if_cases, ℕ, ◌≡◌, refl, sym, ◌∙◌, ◌⊎◌, inl, inr, Bool, true, false, not, Option, none, some, List,
  [], ◌∷◌, ◌++◌, append-nil, if◌then◌else◌, Bool-cases, Option-cases, take, is_nil, Bytes, codes,
  bytes_eq,
}
use mathlib.Core.Path.{subst}
use fasthttpd.Config.Settings.{Settings}
use fasthttpd.Command.{Outcome, done, stopped, CommandError, System, Flags, run_configs}
use fasthttpd.Command.Checks.{map_done, test_configs-run}
use fasthttpd.Command.Dump.{
  told, ◌>>◌, after, Writing, Encoders, Streams, standard_output, standard_error, nothing, when,
  write, write_encoded, write_yaml, write_tree_maps, write_configs, write_pre_edit, write_dump,
  report, test_configs, test_or_dump,
}

-- Writing that leaves the standard output as it is.
record Leaves (w : Writing) : Type 0 where
  leaves : (s : Streams) → (w s).0.stdout ≡ s.stdout

after-Leaves :
    (p : Streams × Option CommandError) (w : Writing) → Leaves w → (after p w).0.stdout ≡ p.0.stdout
after-Leaves (s, none) w a = a.leaves s
after-Leaves (s, some e) w a = refl

>>-Leaves : {v w : Writing} → Leaves v → Leaves w → Leaves (v >> w)
>>-Leaves {v} {w} a b = record { leaves = λ s. after-Leaves (v s) w b ∙ a.leaves s }

nothing-Leaves : Leaves nothing
nothing-Leaves = record { leaves = λ s. refl }

when-Leaves : {w : Writing} (b : Bool) → Leaves w → Leaves (when b w)
when-Leaves {w} b a = if_cases Leaves b w nothing (λ q. a) (λ q. nothing-Leaves)

-- A beginning of a text that has the property.
abbrev pub IsBeginning : (Bytes → Type 0) → Bytes → Type 0
IsBeginning P part = (n : ℕ) × (out : Bytes) × P out × (part ≡ take n out)

-- Without an error some `out` that has the property is added to the standard output. With an error
-- nothing is added, or a beginning of such an `out`.
abbrev pub Shows : (Bytes → Type 0) → Bytes → Streams × Option CommandError → Type 0
Shows P before (r, none) = (out : Bytes) × P out × (r.stdout ≡ before ++ out)
Shows P before (r, some e) =
    (r.stdout ≡ before) ⊎ ((part : Bytes) × IsBeginning P part × (r.stdout ≡ before ++ part))

after-Shows :
    (P : Bytes → Type 0) (p : Streams × Option CommandError) (before : Bytes) (w : Writing)
    → p.0.stdout ≡ before
    → ((s : Streams) → Shows P s.stdout (w s))
    → Shows P before (after p w)
after-Shows P (s, none) before w e h = subst (λ b. Shows P b (w s)) e (h s)
after-Shows P (s, some err) before w e h = inl e

Shows-map :
    (P Q : Bytes → Type 0) (before : Bytes) (p : Streams × Option CommandError)
    → ((out : Bytes) → P out → Q out)
    → Shows P before p
    → Shows Q before p
Shows-map P Q before (r, none) f (out, h, e) = (out, f out h, e)
Shows-map P Q before (r, some err) f (inl e) = inl e
Shows-map P Q before (r, some err) f (inr (part, (n, out, h, t), e)) =
    inr (part, (n, out, f out h, t), e)

module _ {Map : Type 0} (enc : Encoders Map) where
  open enc use {stops, marshal_yaml, marshal_json, marshal_configs, encode_configs}

  write-Leaves : (b : Bytes) → Leaves (write enc standard_error b)
  unfolding write
  write-Leaves b = record {
    leaves = λ s. elim (Option-cases (stops standard_error s b)) [
      | inl q ↦ rw (q, write) refl
      | inr (n, q) ↦ rw (q, write) refl
    ];
  }

  write_encoded-Leaves : (b : Option Bytes) → Leaves (write_encoded enc standard_error b)
  unfolding write_encoded
  write_encoded-Leaves none = record { leaves = λ s. refl }
  write_encoded-Leaves (some b) = write-Leaves b

  write_yaml-Leaves :
      (later : Bool) (ms : List Map) → Leaves (write_yaml enc standard_error later ms)
  unfolding write_yaml
  write_yaml-Leaves later [] = nothing-Leaves
  write_yaml-Leaves later (m ∷ ms) =
      >>-Leaves
        (>>-Leaves (if_cases Leaves later _ _ (λ q. write-Leaves _) (λ q. nothing-Leaves))
          (write_encoded-Leaves (marshal_yaml m)))
        (write_yaml-Leaves true ms)

  write_tree_maps-Leaves :
      (ms : List Map) (format : Bytes) → Leaves (write_tree_maps enc standard_error ms format)
  unfolding write_tree_maps
  write_tree_maps-Leaves ms format =
      if_cases Leaves (bytes_eq format (codes "yaml")) _ _ (λ q. write_yaml-Leaves false ms)
        (λ q.
          if_cases Leaves (bytes_eq format (codes "json")) _ _
            (λ r. >>-Leaves (write_encoded-Leaves (marshal_json ms)) (write-Leaves _))
            (λ r. record { leaves = λ s. refl }))

  write_pre_edit-Leaves :
      (ms : List Map) (format : Bytes) (dim : Bool) → Leaves (write_pre_edit enc ms format dim)
  unfolding write_pre_edit
  write_pre_edit-Leaves ms format dim =
      >>-Leaves
        (>>-Leaves (>>-Leaves (when-Leaves dim (write-Leaves _)) (write_tree_maps-Leaves ms format))
          (write-Leaves _))
        (when-Leaves dim (write-Leaves _))

  -- The configurations in the format.
  abbrev pub rendered : List (Settings Map) → Bytes → Option Bytes
  rendered cfgs format =
      if bytes_eq format (codes "yaml")
      then marshal_configs cfgs
      else if bytes_eq format (codes "json")
      then encode_configs cfgs
      else none

  write_encoded-Shows :
      (b : Option Bytes) (s : Streams)
      → Shows (λ out. b ≡ some out) s.stdout (write_encoded enc standard_output b s)
  unfolding write_encoded write
  write_encoded-Shows none s = inl refl
  write_encoded-Shows (some b) s = elim (Option-cases (stops standard_output s b)) [
    | inl q ↦ rw (q, write) (b, refl, refl)
    | inr (n, q) ↦ rw (q, write) (inr (take n b, (n, b, refl, refl), refl))
  ]

  write_configs-Shows :
      (cfgs : List (Settings Map)) (format : Bytes) (s : Streams)
      → Shows
          (λ out. rendered cfgs format ≡ some out)
          s.stdout
          (write_configs enc standard_output cfgs format s)
  unfolding write_configs
  write_configs-Shows cfgs format s = elim (Bool-cases (bytes_eq format (codes "yaml"))) [
    | inl q ↦ rw q (write_encoded-Shows (marshal_configs cfgs) s)
    | inr q ↦ elim (Bool-cases (bytes_eq format (codes "json"))) [
      | inl r ↦ rw (q, r) (write_encoded-Shows (encode_configs cfgs) s)
      | inr r ↦ rw (q, r) (inl refl)
    ]
  ]

  -- What is reported of configurations on the standard output.
  abbrev pub Reported : Flags → List (Settings Map) → Bytes → Type 0
  Reported d cfgs out =
      if is_nil d.dump_format then out ≡ [] else rendered cfgs d.dump_format ≡ some out

  write_error-Shows :
      (b : Bytes) (s : Streams) → Shows (λ out. out ≡ []) s.stdout (write enc standard_error b s)
  unfolding write
  write_error-Shows b s = elim (Option-cases (stops standard_error s b)) [
    | inl q ↦ rw (q, write) ([], refl, sym (append-nil s.stdout))
    | inr (n, q) ↦ rw (q, write) (inl refl)
  ]

  write_dump-Shows :
      (ms : List Map) (cfgs : List (Settings Map)) (format : Bytes) (dim : Bool) (s : Streams)
      → Shows
          (λ out. rendered cfgs format ≡ some out)
          s.stdout
          (write_dump enc ms cfgs format dim s)
  unfolding write_dump
  write_dump-Shows ms cfgs format dim s =
      after-Shows _ _ s.stdout (write_configs enc standard_output cfgs format)
        ((when-Leaves (not (is_nil ms)) (write_pre_edit-Leaves ms format dim)).leaves s)
        (λ t. write_configs-Shows cfgs format t)

  report-Shows :
      (d : Flags) (dim : Bool) (ms : List Map) (cfgs : List (Settings Map)) (s : Streams)
      → Shows (Reported d cfgs) s.stdout (report enc d dim ms cfgs s)
  unfolding report
  report-Shows d dim ms cfgs s =
      if_cases (λ (w : Writing). Shows (Reported d cfgs) s.stdout (w s)) (is_nil d.dump_format) _ _
        (λ q.
          Shows-map _ _ s.stdout (write enc standard_error _ s) (λ out h. rw q h)
            (write_error-Shows _ s))
        (λ q.
          Shows-map _ _ s.stdout (write_dump enc _ cfgs _ dim s) (λ out h. rw q h)
            (write_dump-Shows _ cfgs _ dim s))

  module _ {N : Type 0} (system : System Map N) where
    told-Shows :
        (d : Flags) (dim : Bool) (s : Streams) (r : Outcome (List Map × List (Settings Map)))
        (made : Outcome (List (Settings Map)))
        → map_done (λ q. q.1) r ≡ made
        → Shows
            (λ out. (cfgs : List (Settings Map)) × (made ≡ done cfgs) × Reported d cfgs out)
            s.stdout
            (told enc system d dim r s)
    told-Shows d dim s (stopped e) made h = inl refl
    told-Shows d dim s (done (ms, cfgs)) made h =
        Shows-map _ _ s.stdout (report enc d dim ms cfgs s) (λ out k. (cfgs, sym h, k))
          (report-Shows d dim ms cfgs s)

    -- Testing the configuration or dumping it, whatever writes fail and whatever they write before
    -- they do. Without an error the server would have its configurations, and to the standard output
    -- nothing is added when no format is given, and with a format exactly these configurations in
    -- it. With an error it is as before, or a beginning of that is added.
    pub test_or_dump-Shows :
        (fuel : ℕ) (d : Flags) (dim : Bool) (s : Streams)
        → Shows
            (λ out.
              (cfgs : List (Settings Map)) × (run_configs system fuel d ≡ done cfgs)
              × Reported d cfgs out)
            s.stdout
            (test_or_dump enc system fuel d dim s)
    unfolding test_or_dump
    test_or_dump-Shows fuel d dim s =
        told-Shows d dim s (test_configs enc system fuel d) (run_configs system fuel d)
          (test_configs-run enc system fuel d)
