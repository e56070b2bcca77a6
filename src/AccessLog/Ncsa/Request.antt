-- ===== src/AccessLog/Ncsa/Request.antt =====
-- pkg/logger/accesslog/ncsa.go: a request line between quotes, and reading it back.
use fasthttpd.Base.{
  if_cases, ℕ, ◌≡◌, refl, sym, ap, ◌∙◌, Bool, false, ◌||◌, Option, none, some, [], ◌∷◌, ◌++◌,
  append_assoc, append-nil, arith, ◌==◌, if◌then◌else◌, All, Bytes,
}
use fasthttpd.AccessLog.Ncsa.{escape_uri, append_ncsa_request}

abbrev pub is_special : ℕ → Bool
is_special c = (c == b'"') || (c == b'\\')

abbrev pub quoted_byte : ℕ → Bytes
quoted_byte c = if is_special c then b'\\' ∷ c ∷ [] else c ∷ []

abbrev pub quoted : Bytes → Bytes
quoted [] = []
quoted (c ∷ s) = quoted_byte c ++ quoted s

pub escape_uri-append : (dst uri : Bytes) → escape_uri dst uri ≡ dst ++ quoted uri
unfolding escape_uri
escape_uri-append dst [] = sym (append-nil dst)
escape_uri-append dst (c ∷ uri) =
    if_cases (λ d. escape_uri d uri ≡ dst ++ quoted (c ∷ uri)) (is_special c) _ _
      (λ s.
        escape_uri-append (dst ++ b'\\' ∷ c ∷ []) uri
        ∙ append_assoc dst (b'\\' ∷ c ∷ []) (quoted uri)
        ∙ rw s refl)
      (λ s.
        escape_uri-append (dst ++ c ∷ []) uri ∙ append_assoc dst (c ∷ []) (quoted uri) ∙ rw s refl)

-- Reading up to the quote that ends a string: a backslash stands for the byte behind it.
unfoldable pub read_quoted : Bytes → Option (Bytes × Bytes)
read_quoted [] = none
read_quoted (c ∷ []) = if c == b'"' then some ([], []) else none
read_quoted (c ∷ d ∷ s) =
    let escaped : Option (Bytes × Bytes) = elim (read_quoted s) [
      | none ↦ none
      | some (t, rest) ↦ some (d ∷ t, rest)
    ] in
    let plain : Option (Bytes × Bytes) = elim (read_quoted (d ∷ s)) [
      | none ↦ none
      | some (t, rest) ↦ some (c ∷ t, rest)
    ] in
    if c == b'"' then some ([], d ∷ s) else if c == b'\\' then escaped else plain

-- The request line as it stands between the quotes.
abbrev pub request_line : Bytes → Bytes → Bytes → Bytes
request_line method uri protocol = method ++ b' ' ∷ uri ++ b' ' ∷ protocol

pub append_ncsa_request-append :
    (dst method uri protocol : Bytes)
    → append_ncsa_request dst method uri protocol ≡ dst ++ request_line method (quoted uri) protocol
unfolding append_ncsa_request
append_ncsa_request-append dst method uri protocol = simp (escape_uri-append, append_assoc)

abbrev pub IsPlainByte : ℕ → Type 0
IsPlainByte c = is_special c ≡ false

read_plain_byte :
    (c : ℕ) (s t rest : Bytes)
    → IsPlainByte c
    → read_quoted s ≡ some (t, rest)
    → read_quoted (c ∷ s) ≡ some (c ∷ t, rest)
unfolding read_quoted
read_plain_byte c [] t rest h e = cc
read_plain_byte c (d ∷ s) t rest h e = rw (e, read_quoted) (ground arith)

read_escaped_byte :
    (c : ℕ) (s t rest : Bytes)
    → read_quoted s ≡ some (t, rest)
    → read_quoted (b'\\' ∷ c ∷ s) ≡ some (c ∷ t, rest)
unfolding read_quoted
read_escaped_byte c s t rest e = rw (e, read_quoted) refl

read_plain :
    (m s t rest : Bytes)
    → All IsPlainByte m
    → read_quoted s ≡ some (t, rest)
    → read_quoted (m ++ s) ≡ some (m ++ t, rest)
read_plain [] s t rest h e = e
read_plain (c ∷ m) s t rest h e =
    read_plain_byte c (m ++ s) (m ++ t) rest h.0 (read_plain m s t rest h.1 e)

read_quoted-quoted :
    (u s t rest : Bytes)
    → read_quoted s ≡ some (t, rest)
    → read_quoted (quoted u ++ s) ≡ some (u ++ t, rest)
read_quoted-quoted [] s t rest e = e
read_quoted-quoted (c ∷ u) s t rest e =
    let later = read_quoted-quoted u s t rest e in
    if_cases (λ q. read_quoted ((q ++ quoted u) ++ s) ≡ some (c ∷ u ++ t, rest)) (is_special c) _ _
      (λ h. read_escaped_byte c (quoted u ++ s) (u ++ t) rest later)
      (λ h. read_plain_byte c (quoted u ++ s) (u ++ t) rest h later)

read_end : (rest : Bytes) → read_quoted (b'"' ∷ rest) ≡ some ([], rest)
unfolding read_quoted
read_end [] = refl
read_end (c ∷ rest) = refl

-- Between quotes, a request line whose method and protocol hold no quote and no backslash reads back
-- as it was, whatever the URI holds, and reading ends at the closing quote.
pub append_ncsa_request_read :
    (dst method uri protocol rest : Bytes)
    → All IsPlainByte method
    → All IsPlainByte protocol
    → (t : Bytes) × (append_ncsa_request (dst ++ b'"' ∷ []) method uri protocol ++ b'"' ∷ rest
        ≡ dst ++ b'"' ∷ t)
      × (read_quoted t ≡ some (request_line method uri protocol, rest))
append_ncsa_request_read dst method uri protocol rest m p =
    let close = b'"' ∷ rest in
    let last : read_quoted (protocol ++ close) ≡ some (protocol, rest) =
      read_plain protocol close [] rest p (read_end rest)
      ∙ ap (λ (x : Bytes). some (x, rest)) (append-nil protocol) in
    let later =
      read_quoted-quoted uri (b' ' ∷ protocol ++ close) (b' ' ∷ protocol) rest
        (read_plain_byte b' ' (protocol ++ close) protocol rest refl last) in
    let whole =
      read_plain method (b' ' ∷ (quoted uri ++ (b' ' ∷ protocol ++ close)))
        (b' ' ∷ (uri ++ b' ' ∷ protocol)) rest m
        (read_plain_byte b' ' (quoted uri ++ (b' ' ∷ protocol ++ close)) (uri ++ b' ' ∷ protocol)
          rest refl later) in
    (
      request_line method (quoted uri) protocol ++ close,
      rw (append_ncsa_request-append (dst ++ b'"' ∷ []) method uri protocol) (simp append_assoc),
      simp append_assoc whole,
    )
