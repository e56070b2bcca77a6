-- ===== src/Util/Strftime/Laws.antt =====
-- pkg/util/strftime.go: what a parsed format appends, by the bytes of the format.
use fasthttpd.Base.{
  ℕ, zero, suc, ◌<◌, ◌≡◌, refl, sym, ap, ◌∙◌, inl, inr, true, false, Option, none, some, List, [],
  ◌∷◌, ◌++◌, append_assoc, append-nil, arith, ◌==◌, if◌then◌else◌, Bool-cases, Option-cases, length,
  take, drop, Bytes, index_byte, ℤ,
}
use fasthttpd.Util.Strftime.{directive, literal, parse, new_strftime_bytes, append_bytes}
use fasthttpd.Util.Strftime.Directives.{Time, ◌>>=◌, StrftimeFunc, strftime_bytes}

bind_cong :
    {A B : Type 0} (m : Option A) (f g : A → Option B)
    → ((x : A) → f x ≡ g x)
    → (m >>= f) ≡ (m >>= g)
bind_cong none f g h = refl
bind_cong (some x) f g h = h x

module _ (append_uint : Bytes → ℤ → Option Bytes) where
  -- A format read byte by byte: a percent sign and the byte behind it are a directive, a percent
  -- sign at the end is nothing, any other byte is copied.
  unfoldable pub format_spec : Bytes → StrftimeFunc
  format_spec [] dst t = some dst
  format_spec (c ∷ []) dst t = if c == b'%' then some dst else some (dst ++ c ∷ [])
  format_spec (c ∷ d ∷ rest) dst t = elim (c == b'%') [
    | true ↦ directive append_uint d dst t >>= (λ dst'. format_spec rest dst' t)
    | false ↦ format_spec (d ∷ rest) (dst ++ c ∷ []) t
  ]

  format_spec-copy :
      (c : ℕ) (rest dst : Bytes) (t : Time)
      → (c == b'%') ≡ false
      → format_spec (c ∷ rest) dst t ≡ format_spec rest (dst ++ c ∷ []) t
  unfolding format_spec
  format_spec-copy c [] dst t h = rw h refl
  format_spec-copy c (d ∷ rest) dst t h = rw (h, format_spec) refl

  -- Bytes without a percent sign are copied.
  format_spec-literal :
      (s dst : Bytes) (t : Time) → index_byte s b'%' ≡ none → format_spec s dst t ≡ some (dst ++ s)
  unfolding format_spec index_byte
  format_spec-literal [] dst t h = ap some (sym (append-nil dst))
  format_spec-literal (c ∷ s) dst t h =
      let e : (c == b'%') ≡ false = ground arith in
      let k : index_byte s b'%' ≡ none = elim (Option-cases (index_byte s b'%')) [
        | inl k ↦ k
        | inr (v, k) ↦ absurd (ground arith)
      ] in
      format_spec-copy c s dst t e
      ∙ format_spec-literal s (dst ++ c ∷ []) t k
      ∙ ap some (append_assoc dst (c ∷ []) s)

  -- The first percent sign stands behind its literal.
  format_spec-index :
      (s dst : Bytes) (t : Time) (i : ℕ)
      → index_byte s b'%' ≡ some i
      → (format_spec s dst t ≡ format_spec (b'%' ∷ drop (suc i) s) (dst ++ take i s) t)
        × (length (drop (suc i) s) < length s)
  unfolding index_byte
  format_spec-index [] dst t i h = cc
  format_spec-index (c ∷ s) dst t i h = elim (Bool-cases (c == b'%')) [
    | inl e ↦
        let z : i ≡ 0 = ground arith in
        let p : c ≡ b'%' = ground arith in
        rw (z, p) (ap (λ d. format_spec (b'%' ∷ s) d t) (sym (append-nil dst)), omega arith)
    | inr e ↦ elim (Option-cases (index_byte s b'%')) [
      | inl k ↦ absurd (ground arith)
      | inr (j, k) ↦
          let z : i ≡ suc j = ground arith in
          let (same, short) = format_spec-index s (dst ++ c ∷ []) t j k in
          rw z (
            format_spec-copy c s dst t e
                ∙ same
                ∙ ap (λ d. format_spec (b'%' ∷ drop (suc j) s) d t)
                    (append_assoc dst (c ∷ []) (take j s)),
            omega (arith, short),
          )
    ]
  ]

  -- What stands behind a percent sign.
  behind_percent :
      (fuel : ℕ) (rest dst : Bytes) (t : Time)
      → ((f d : Bytes)
          → length f < fuel
          → append_bytes (parse append_uint fuel f) d t ≡ format_spec f d t)
      → length rest < suc fuel
      → append_bytes
          (elim rest [
            | [] ↦ []
            | c ∷ rest' ↦ directive append_uint c ∷ parse append_uint fuel rest'
          ])
          dst
          t
        ≡ format_spec (b'%' ∷ rest) dst t
  unfolding append_bytes format_spec
  behind_percent fuel [] dst t ih h = refl
  behind_percent fuel (c ∷ rest') dst t ih h =
      bind_cong (directive append_uint c dst t) _ _ (λ d. ih rest' d (omega arith))

  append_bytes-literal :
      (i : ℕ) (rest : Bytes) (fns : List StrftimeFunc) (dst : Bytes) (t : Time)
      → append_bytes (literal i rest ++ fns) dst t ≡ append_bytes fns (dst ++ take i rest) t
  unfolding append_bytes strftime_bytes
  append_bytes-literal zero rest fns dst t = ap (λ d. append_bytes fns d t) (sym (append-nil dst))
  append_bytes-literal (suc i) rest fns dst t = refl

  parse_lem :
      (fuel : ℕ) (format dst : Bytes) (t : Time)
      → length format < fuel
      → append_bytes (parse append_uint fuel format) dst t ≡ format_spec format dst t
  unfolding parse append_bytes strftime_bytes
  parse_lem zero format dst t h = absurd (omega arith)
  parse_lem (suc fuel) format dst t h = elim (Option-cases (index_byte format b'%')) [
    | inl e ↦ rw (e, parse) (sym (format_spec-literal format dst t e))
    | inr (i, e) ↦
        let (same, short) = format_spec-index format dst t i e in
        rw (e, parse)
          (append_bytes-literal i format _ dst t
            ∙ behind_percent fuel (drop (suc i) format) (dst ++ take i format) t
                (λ f d k. parse_lem fuel f d t k) (omega (arith, short))
            ∙ sym same)
  ]

  -- A parsed format appends what the format says byte by byte: a percent sign and the byte behind
  -- it are the directive of that byte, or the byte itself where there is no such directive, a
  -- percent sign at the end is dropped, and any other byte is copied.
  pub new_strftime_bytes_lem :
      (format dst : Bytes) (t : Time)
      → append_bytes (new_strftime_bytes append_uint format) dst t ≡ format_spec format dst t
  unfolding new_strftime_bytes
  new_strftime_bytes_lem format dst t = parse_lem (suc (length format)) format dst t (omega arith)
