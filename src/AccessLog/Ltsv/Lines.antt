-- ===== src/AccessLog/Ltsv/Lines.antt =====
-- pkg/logger/accesslog/ltsv.go: a line has its thirteen fields and is one line, whatever the request
-- says.
use fasthttpd.Base.{
  ℕ, ◌+◌, ◌*◌, ◌≡◌, refl, ap, ◌∙◌, inl, inr, Bool, true, false, ◌||◌, Option, some, [], ◌∷◌, ◌++◌,
  arith, ◌==◌, if◌then◌else◌, Bool-cases, Bytes, codes, ℤ, pos, negsuc,
}
use fasthttpd.AccessLog.Context.{Context}
use fasthttpd.AccessLog.Json.{addr_ip}
use fasthttpd.AccessLog.Ncsa.Laws.{IsNatural}
use fasthttpd.AccessLog.Ltsv.{
  is_separator, append_ltsv_value, append_ltsv_log, append_ltsv_head, append_ltsv_tail,
}
use fasthttpd.AccessLog.Ltsv.Laws.{
  count_byte, count_byte-append, append_ltsv_value_count, count-other, IsPrintable, count-iso_time,
  count-host_ip,
}

-- Does any byte separate?
abbrev has_separator : Bytes → Bool
has_separator [] = false
has_separator (c ∷ s) = is_separator c || has_separator s

count-plain :
    (b : ℕ) (s : Bytes) → is_separator b ≡ true → has_separator s ≡ false → count_byte b s ≡ 0
count-plain b [] h k = refl
count-plain b (c ∷ s) h k =
    let rest : has_separator s ≡ false = ground arith in
    let differs : (c == b) ≡ false = separator-differs in rw differs (count-plain b s h rest)
  where
    separator-differs : (c == b) ≡ false
    separator-differs = elim (Bool-cases (c == b)) [ inr e ↦ e | inl e ↦ absurd (ground arith) ]

-- One for a tab.
abbrev tab : ℕ → ℕ
tab b = if 9 == b then 1 else 0

count-label :
    (b : ℕ) (dst label : Bytes)
    → is_separator b ≡ true
    → has_separator label ≡ false
    → count_byte b (dst ++ 9 ∷ label) ≡ count_byte b dst + tab b
count-label b dst label h k =
    ground (arith, count_byte-append b dst (9 ∷ label), count-plain b label h k)

count-value :
    (b : ℕ) (dst label value : Bytes)
    → is_separator b ≡ true
    → has_separator label ≡ false
    → count_byte b (append_ltsv_value (dst ++ 9 ∷ label) value) ≡ count_byte b dst + tab b
count-value b dst label value h k =
    append_ltsv_value_count b (dst ++ 9 ∷ label) value h ∙ count-label b dst label h k

-- Behind a blank.
count-word :
    (b : ℕ) (dst value : Bytes)
    → is_separator b ≡ true
    → count_byte b (append_ltsv_value (dst ++ b' ' ∷ []) value) ≡ count_byte b dst
count-word b dst value h =
    append_ltsv_value_count b (dst ++ b' ' ∷ []) value h ∙ count-other b b' ' dst h refl

count-start :
    (b : ℕ) (dst label : Bytes)
    → is_separator b ≡ true
    → has_separator label ≡ false
    → count_byte b (dst ++ label) ≡ count_byte b dst
count-start b dst label h k = omega (arith, count_byte-append b dst label, count-plain b label h k)

-- Eight tabs, of the fields between the time and the numbers.
count-head :
    (dst : Bytes) (ctx : Context) (b : ℕ)
    → is_separator b ≡ true
    → count_byte b (addr_ip ctx.remote_addr) ≡ 0
    → IsPrintable ctx.time
    → count_byte b (append_ltsv_head dst ctx)
      ≡ count_byte b dst + tab b + tab b + tab b + tab b + tab b + tab b
unfolding append_ltsv_head
count-head dst ctx b h a v =
    count-value b _ (codes "vhost:") ctx.host h refl
    ∙ ap (λ n. n + tab b)
        (count-value b _ (codes "scheme:") ctx.scheme h refl
          ∙ ap (λ n. n + tab b)
              (count-word b _ ctx.protocol h
                ∙ count-word b _ ctx.request_uri h
                ∙ count-value b _ (codes "req:") ctx.method h refl
                ∙ ap (λ n. n + tab b)
                    (count-value b _ (codes "user:") ctx.username h refl
                      ∙ ap (λ n. n + tab b)
                          (count-value b _ (codes "forwardedfor:") ctx.x_forwarded_for h refl
                            ∙ ap (λ n. n + tab b)
                                (count-host_ip b _ ctx.remote_addr a
                                  ∙ count-label b _ (codes "host:") h refl
                                  ∙ ap (λ n. n + tab b)
                                      (count-iso_time b _ ctx.time h v
                                        ∙ count-start b dst (codes "time:") h refl))))))

count-tail :
    (dst : Bytes) (ctx : Context) (b : ℕ)
    → is_separator b ≡ true
    → count_byte b (append_ltsv_tail dst ctx) ≡ count_byte b dst + tab b + tab b
unfolding append_ltsv_tail
count-tail dst ctx b h =
    count-value b _ (codes "ua:") ctx.user_agent h refl
    ∙ ap (λ n. n + tab b) (count-value b dst (codes "referer:") ctx.referer h refl)

twelve_tabs : (b : ℕ) → tab b * 12 ≡ (if b == 9 then 12 else 0)
twelve_tabs b = ground arith

module _ (append_uint : Bytes → ℤ → Option Bytes) (b : ℕ)
    (appends_digits : (dst : Bytes) (n : ℕ)
      → (digits : Bytes) × (append_uint dst (pos n) ≡ some (dst ++ digits))
        × (count_byte b digits ≡ 0)) where
  -- A field with a number that is not negative.
  append_number :
      (dst label : Bytes) (z : ℤ)
      → is_separator b ≡ true
      → has_separator label ≡ false
      → IsNatural z
      → (r : Bytes) × (append_uint (dst ++ 9 ∷ label) z ≡ some r)
        × (count_byte b r ≡ count_byte b dst + tab b)
  append_number dst label (pos n) h k v =
      let (digits, e, none_of) = appends_digits (dst ++ 9 ∷ label) n in
      (
        (dst ++ 9 ∷ label) ++ digits,
        e,
        omega (
          arith,
          count_byte-append b (dst ++ 9 ∷ label) digits,
          count-label b dst label h k,
          none_of,
        ),
      )
  append_number dst label (negsuc n) h k v = cc

  -- A separator is a tab, a line feed or a carriage return. A line whose numbers are not negative is
  -- written without a panic, and adds twelve tabs to the buffer, so that it has thirteen fields, and
  -- neither a line feed nor a carriage return, whatever bytes the request has in its headers,
  -- method, URI and user; provided that AppendUint appends digits without the separator, the text of
  -- the IP has none, and the time has its usual digits.
  pub append_ltsv_log_count :
      (dst : Bytes) (ctx : Context)
      → is_separator b ≡ true
      → IsNatural ctx.status_code
      → IsNatural ctx.content_length
      → IsNatural ctx.duration
      → count_byte b (addr_ip ctx.remote_addr) ≡ 0
      → IsPrintable ctx.time
      → (line : Bytes) × (append_ltsv_log append_uint dst ctx ≡ some line)
        × (count_byte b line ≡ count_byte b dst + (if b == 9 then 12 else 0))
  unfolding append_ltsv_log
  append_ltsv_log_count dst ctx h p q d a v =
      let head = append_ltsv_head dst ctx in
      let (status, e1, c1) = append_number head (codes "status:") ctx.status_code h refl p in
      let (size, e2, c2) = append_number status (codes "size:") ctx.content_length h refl q in
      let (reqsize, e3, c3) =
        append_number size (codes "reqsize:") (pos (ctx.raw_headers + ctx.body)) h refl refl in
      let (reqtime, e4, c4) =
        append_number reqsize (codes "reqtime_microsec:") ctx.duration h refl d in
      (
        append_ltsv_tail reqtime ctx,
        rw (e1, e2, e3, e4, append_ltsv_log) refl,
        omega (
          arith,
          count-head dst ctx b h a v,
          c1,
          c2,
          c3,
          c4,
          count-tail reqtime ctx b h,
          twelve_tabs b,
        ),
      )
