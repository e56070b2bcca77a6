-- ===== src/AccessLog/Json/Laws.antt =====
-- pkg/logger/accesslog/json.go: strings are read back as they were written, and what a header can
-- do to a line.
use fasthttpd.Base.{
  ℕ, zero, suc, ◌+◌, ◌-◌, ◌*◌, ◌/◌, ◌<◌, ◌≡◌, refl, sym, ap, ◌∙◌, ◌⊎◌, inl, inr, false, ◌&&◌,
  Option, none, some, [], ◌∷◌, ◌++◌, append_assoc, append-nil, arith, ltb, leb, ◌==◌, if◌then◌else◌,
  ltb→lt, Bool-cases, All, Bytes,
}
use fasthttpd.AccessLog.Json.{
  client_ip, Context, append_json_client_ip, hex_digit, escape_byte, escape_loop,
  append_json_string,
}

-- Where a reader of a JSON string stands: between characters, behind a backslash, or in front of
-- `left + 1` hexadecimal digits with the value of those before.
pub data Reading : Type 0 where
  plain : Reading
  escaped : Reading
  hex : ℕ → ℕ → Reading

unfoldable pub hex_value : ℕ → Option ℕ
hex_value c =
    if leb b'0' c && leb c b'9'
    then some (c - b'0')
    else if leb b'a' c && leb c b'f'
    then some (c - b'a' + 10)
    else none

abbrev push : ℕ → Option (Bytes × Bytes) → Option (Bytes × Bytes)
push c none = none
push c (some (s, rest)) = some (c ∷ s, rest)

-- The character of a short escape.
abbrev pub short_escape : ℕ → Option ℕ
short_escape c =
    if c == b'"'
    then some b'"'
    else if c == b'\\'
    then some b'\\'
    else if c == b'b'
    then some 8
    else if c == b't'
    then some 9
    else if c == b'n'
    then some 10
    else if c == b'f'
    then some 12
    else if c == b'r'
    then some 13
    else none

-- A reader of JSON strings: the string up to the closing quote, and what stands behind it.
unfoldable pub read_string : Reading → Bytes → Option (Bytes × Bytes)
read_string st [] = none
read_string plain (c ∷ s) =
    if c == b'"'
    then some ([], s)
    else if c == b'\\'
    then read_string escaped s
    else if ltb c 32
    then none
    else push c (read_string plain s)
read_string escaped (c ∷ s) = elim (short_escape c) [
  | some d ↦ push d (read_string plain s)
  | none ↦ if c == b'u' then read_string (hex 3 0) s else none
]
read_string (hex left value) (c ∷ s) = elim (hex_value c) [
  | none ↦ none
  | some d ↦ elim left [
    | zero ↦ push (value * 16 + d) (read_string plain s)
    | suc left' ↦ read_string (hex left' (value * 16 + d)) s
  ]
]

escape_loop-append : (dst s : Bytes) → (t : Bytes) × (escape_loop dst s ≡ dst ++ t)
unfolding escape_loop
escape_loop-append dst [] = ([], sym (append-nil dst))
escape_loop-append dst (c ∷ s) =
    let (t, e) = escape_loop-append (dst ++ escape_byte c) s in
    (escape_byte c ++ t, e ∙ append_assoc dst (escape_byte c) t)

hex_value-hex_digit : (n : ℕ) → n < 16 → hex_value (hex_digit n) ≡ some n
unfolding hex_value
hex_value-hex_digit n h = ground arith

read_string-hex :
    (c : ℕ) (s : Bytes)
    → c < 32
    → read_string (hex 1 0) (hex_digit (c / 16) ∷ hex_digit (c - c / 16 * 16) ∷ s)
      ≡ push c (read_string plain s)
unfolding read_string
read_string-hex c s h =
    let high = hex_value-hex_digit (c / 16) (omega arith) in
    let low = hex_value-hex_digit (c - c / 16 * 16) (omega arith) in
    let whole : (0 * 16 + c / 16) * 16 + (c - c / 16 * 16) ≡ c = omega arith in
    rw (high, read_string, low) (ap (λ d. push d (read_string plain s)) whole)

-- The bytes that have an escape of their own.
IsSpecial : ℕ → Type 0
IsSpecial c = (c ≡ b'"') ⊎ (c ≡ b'\\') ⊎ (c ≡ 8) ⊎ (c ≡ 9) ⊎ (c ≡ 10) ⊎ (c ≡ 12) ⊎ (c ≡ 13)

IsSpecial-cases :
    (c : ℕ)
    → IsSpecial c
      ⊎ ((escape_byte c ≡ (
            if ltb c 32
            then b'\\' ∷ b'u' ∷ b'0' ∷ b'0' ∷ hex_digit (c / 16) ∷ hex_digit (c - c / 16 * 16) ∷ []
            else c ∷ []))
          × ((c == b'"') ≡ false)
          × ((c == b'\\') ≡ false))
unfolding IsSpecial escape_byte
IsSpecial-cases c = ground arith

read_string-special :
    (c : ℕ) (s : Bytes)
    → IsSpecial c
    → read_string plain (escape_byte c ++ s) ≡ push c (read_string plain s)
unfolding read_string escape_byte IsSpecial
read_string-special c s (inl p) = rw p refl
read_string-special c s (inr (inl p)) = rw p refl
read_string-special c s (inr (inr (inl p))) = rw p refl
read_string-special c s (inr (inr (inr (inl p)))) = rw p refl
read_string-special c s (inr (inr (inr (inr (inl p))))) = rw p refl
read_string-special c s (inr (inr (inr (inr (inr (inl p)))))) = rw p refl
read_string-special c s (inr (inr (inr (inr (inr (inr p)))))) = rw p refl

-- An escaped byte is read back.
read_string-escape_byte :
    (c : ℕ) (s : Bytes) → read_string plain (escape_byte c ++ s) ≡ push c (read_string plain s)
unfolding read_string hex_value
read_string-escape_byte c s = elim (IsSpecial-cases c) [
  | inl p ↦ read_string-special c s p
  | inr (e, q, b) ↦ elim (Bool-cases (ltb c 32)) [
    | inl l ↦ rw (e, l) (read_string-hex c s (ltb→lt c 32 l))
    | inr l ↦ rw (e, l, q, b, read_string, l) refl
  ]
]

escape_loop-read :
    (dst s rest : Bytes)
    → (t : Bytes) × (escape_loop dst s ≡ dst ++ t)
      × (read_string plain (t ++ b'"' ∷ rest) ≡ some (s, rest))
unfolding escape_loop read_string
escape_loop-read dst [] rest = ([], sym (append-nil dst), refl)
escape_loop-read dst (c ∷ s) rest =
    let (t, e, r) = escape_loop-read (dst ++ escape_byte c) s rest in
    (
      escape_byte c ++ t,
      e ∙ append_assoc dst (escape_byte c) t,
      ap (read_string plain) (append_assoc (escape_byte c) t (b'"' ∷ rest))
          ∙ read_string-escape_byte c (t ++ b'"' ∷ rest)
          ∙ ap (push c) r,
    )

-- Every string that is appended keeps the buffer and is read back as it was, whatever follows it.
pub append_json_string_read :
    (dst s rest : Bytes)
    → (t : Bytes) × (append_json_string dst s ++ rest ≡ dst ++ b'"' ∷ t)
      × (read_string plain t ≡ some (s, rest))
unfolding append_json_string
append_json_string_read dst s rest =
    let (t, e, r) = escape_loop-read (dst ++ b'"' ∷ []) s rest in
    (
      t ++ b'"' ∷ rest,
      ap (λ l. (l ++ b'"' ∷ []) ++ rest) e
          ∙ append_assoc ((dst ++ b'"' ∷ []) ++ t) (b'"' ∷ []) rest
          ∙ append_assoc (dst ++ b'"' ∷ []) t (b'"' ∷ rest)
          ∙ append_assoc dst (b'"' ∷ []) (t ++ b'"' ∷ rest),
      r,
    )

-- A byte that stands for itself in a JSON string.
abbrev pub IsPlain : ℕ → Type 0
IsPlain c = ((c == b'"') ≡ false) × ((c == b'\\') ≡ false) × (ltb c 32 ≡ false)

read_string-plain :
    (s rest : Bytes) → All IsPlain s → read_string plain (s ++ b'"' ∷ rest) ≡ some (s, rest)
unfolding read_string
read_string-plain [] rest h = refl
read_string-plain (c ∷ s) rest h =
    rw (h.0.0, h.0.1, h.0.2, read_string) (ap (push c) (read_string-plain s rest h.1))

-- The client's IP is written without escapes. Where it has only bytes that stand for themselves it
-- is read back; where the header `X-Forwarded-For` puts a quote into it, the string ends there for
-- a reader, and what the client sent behind the quote stands outside of the string.
pub append_json_client_ip_read :
    (dst : Bytes) (ctx : Context) (p q : Bytes)
    → All IsPlain p
    → (t : Bytes) × (append_json_client_ip dst ctx ≡ dst ++ b'"' ∷ t)
      × (client_ip ctx.x_forwarded_for ctx.remote_addr ≡ p → read_string plain t ≡ some (p, []))
      × (client_ip ctx.x_forwarded_for ctx.remote_addr ≡ p ++ b'"' ∷ q
          → read_string plain t ≡ some (p, q ++ b'"' ∷ []))
unfolding append_json_client_ip
append_json_client_ip_read dst ctx p q h = (
  client_ip ctx.x_forwarded_for ctx.remote_addr ++ b'"' ∷ [],
  append_assoc dst (b'"' ∷ client_ip ctx.x_forwarded_for ctx.remote_addr) (b'"' ∷ []),
  (λ e. rw e (read_string-plain p [] h)),
  (λ e. rw e (
      ap (read_string plain) (append_assoc p (b'"' ∷ q) (b'"' ∷ []))
      ∙ read_string-plain p (q ++ b'"' ∷ []) h)),
)
