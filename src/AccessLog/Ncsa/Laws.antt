-- ===== src/AccessLog/Ncsa/Laws.antt =====
-- pkg/logger/accesslog/ncsa.go: what the functions of the tokens append to a line.
use mathlib.Core.Path.{subst}
use fasthttpd.Base.{
  if_cases, ℕ, ◌+◌, ◌≡◌, refl, ap, ◌∙◌, inl, inr, true, false, Option, none, some, List, [], ◌∷◌,
  ◌++◌, append_assoc, ◌==◌, Bool-cases, eq_of_some, is_nil, All, Bytes, ℤ, pos, negsuc, is_positive,
  is_negative,
}
use fasthttpd.Util.Strftime.Directives.{quot}
use fasthttpd.Util.Strftime.Total.{Extends, IsValid}
use fasthttpd.AccessLog.Context.{ip4, ip6, Addr, tcp_addr, other_addr, Context}
use fasthttpd.AccessLog.Ncsa.{
  NcsaFunc, append_ncsa_date, ncsa_date, new_append_bytes, append_nil, or_nil, new_append_env,
  append_lf, append_lh, append_h, append_lm, append_lq, append_lr, append_lt, append_lu, append_u,
  append_x, positive_or_nil, append_addr, append_la, append_a, append_b, append_lb, append_d,
  append_lk, append_p, append_l, append_ls, append_t, append_i, append_o, append_s, append_funcs,
  lookup_append,
}
use fasthttpd.AccessLog.Ncsa.Request.{quoted, request_line, append_ncsa_request-append}

abbrev pub IsNatural : ℤ → Type 0
IsNatural z = is_negative z ≡ false

abbrev HasPort : Addr → Type 0
HasPort (tcp_addr ip port) = IsNatural port
HasPort (other_addr a) = Unit

-- A valid time, and no negative number.
pub record IsLoggable (ctx : Context) : Type 0 where
  pub time : IsValid ctx.time
  pub content_length : IsNatural ctx.content_length
  pub duration : IsNatural ctx.duration
  pub status_code : IsNatural ctx.status_code
  pub egid : IsNatural ctx.egid
  pub remote_port : HasPort ctx.remote_addr
  pub local_port : HasPort ctx.local_addr

-- For a loggable request the function only appends.
abbrev pub Logs : NcsaFunc → Type 0
Logs f = (dst : Bytes) (ctx : Context) → IsLoggable ctx → Extends dst (f dst ctx)

Extends-behind : (dst s : Bytes) (o : Option Bytes) → Extends (dst ++ s) o → Extends dst o
Extends-behind dst s o (t, e) = (s ++ t, e ∙ ap some (append_assoc dst s t))

pub new_append_bytes-Logs : (b : Bytes) → Logs (new_append_bytes b)
unfolding new_append_bytes
new_append_bytes-Logs b dst ctx v = (b, refl)

pub append_nil-Logs : Logs append_nil
unfolding append_nil
append_nil-Logs = new_append_bytes-Logs (b'-' ∷ [])

pub or_nil-Logs : (value : Context → Bytes) → Logs (or_nil value)
or_nil-Logs value dst ctx v =
    if_cases (Extends dst) (is_nil (value ctx)) _ _ (λ n. (b'-' ∷ [], refl))
      (λ n. (value ctx, refl))

pub new_append_env-Logs : (key : Bytes) → Logs (new_append_env key)
unfolding new_append_env
new_append_env-Logs key dst ctx v = found (ctx.lookup_env key)
  where
    found :
        (o : Option Bytes)
        → Extends dst (elim o [ none ↦ some (dst ++ b'-' ∷ []) | some x ↦ some (dst ++ x) ])
    found none = (b'-' ∷ [], refl)
    found (some x) = (x, refl)

append_lq-Logs : Logs append_lq
unfolding append_lq
append_lq-Logs dst ctx v =
    if_cases (Extends dst) (is_nil ctx.query_string) _ _ (λ n. (b'-' ∷ [], refl))
      (λ n. (b'?' ∷ ctx.query_string, ap some (append_assoc dst (b'?' ∷ []) ctx.query_string)))

append_lr-Logs : Logs append_lr
unfolding append_lr
append_lr-Logs dst ctx v =
    if_cases (Extends dst) (is_nil ctx.original_uri) _ _ (λ n. (b'-' ∷ [], refl))
      λ n.
        ((
          request_line ctx.method (quoted ctx.original_uri) ctx.protocol,
          ap some (append_ncsa_request-append dst ctx.method ctx.original_uri ctx.protocol),
        ))

pub append_lt-Logs : Logs append_lt
unfolding append_lt append_ncsa_date
append_lt-Logs dst ctx v = (ncsa_date ctx.time, refl)

append_x-Logs : Logs append_x
unfolding append_x
append_x-Logs dst ctx v =
    if_cases (Extends dst) ctx.connection_close _ _ (λ n. (b'-' ∷ [], refl))
      (λ n. (b'+' ∷ [], refl))

module _ (append_uint : Bytes → ℤ → Option Bytes)
    (appends_uint : (dst : Bytes) (n : ℕ) → Extends dst (append_uint dst (pos n))) where
  natural-Extends : (dst : Bytes) (z : ℤ) → IsNatural z → Extends dst (append_uint dst z)
  natural-Extends dst (pos n) h = appends_uint dst n
  natural-Extends dst (negsuc n) h = cc

  pub positive_or_nil-Logs : (value : Context → ℤ) → Logs (positive_or_nil append_uint value)
  positive_or_nil-Logs value dst ctx v =
      if_cases (Extends dst) (is_positive (value ctx)) _ _
        (λ p. natural-Extends dst (value ctx) (natural (value ctx) p)) (λ p. (b'-' ∷ [], refl))
    where
      natural : (z : ℤ) → is_positive z ≡ true → IsNatural z
      natural (pos n) h = refl
      natural (negsuc n) h = cc

  addr-Extends :
      (dst : Bytes) (a : Addr)
      → HasPort a
      → (ctx : Context) → Extends dst (append_addr append_uint (λ c. a) dst ctx)
  unfolding append_addr
  addr-Extends dst (tcp_addr (ip4 a) port) h ctx =
      Extends-behind dst a _
        (Extends-behind (dst ++ a) (b':' ∷ []) _ (natural-Extends ((dst ++ a) ++ b':' ∷ []) port h))
  addr-Extends dst (tcp_addr (ip6 a) port) h ctx = Extends-behind dst (b'[' ∷ a) _ (
      Extends-behind (dst ++ b'[' ∷ a) (b']' ∷ []) _ (
        Extends-behind ((dst ++ b'[' ∷ a) ++ b']' ∷ []) (b':' ∷ []) _
          (natural-Extends (((dst ++ b'[' ∷ a) ++ b']' ∷ []) ++ b':' ∷ []) port h)))
  addr-Extends dst (other_addr a) h ctx = (a, refl)

  append_la-Logs : Logs (append_la append_uint)
  unfolding append_la append_addr
  append_la-Logs dst ctx v = addr-Extends dst ctx.remote_addr v.remote_port ctx

  append_a-Logs : Logs (append_a append_uint)
  unfolding append_a append_addr
  append_a-Logs dst ctx v = addr-Extends dst ctx.local_addr v.local_port ctx

  quot-IsNatural : (z : ℤ) (d : ℕ) → IsNatural z → IsNatural (quot z d)
  quot-IsNatural (pos n) d h = refl
  quot-IsNatural (negsuc n) d h = cc

  append_t-Logs : Logs (append_t append_uint)
  unfolding append_t
  append_t-Logs dst ctx v =
      natural-Extends dst (quot ctx.duration 1000000)
        (quot-IsNatural ctx.duration 1000000 v.duration)

  pub append_funcs-Logs : All (λ (e : ℕ × NcsaFunc). Logs e.1) (append_funcs append_uint)
  unfolding append_funcs append_b append_d append_lf append_lh append_h append_lk append_l append_lm
      append_p append_ls append_t append_u append_i append_o append_s append_lb append_lu
  append_funcs-Logs = (
    new_append_bytes-Logs (b'%' ∷ []),
    (
      append_la-Logs,
      (
        append_a-Logs,
        (
          (λ dst ctx v. natural-Extends dst ctx.content_length v.content_length),
          (
            positive_or_nil-Logs (λ ctx. ctx.content_length),
            (
              (λ dst ctx v. natural-Extends dst ctx.duration v.duration),
              (
                (λ dst ctx v. (ctx.path, refl)),
                (
                  (λ dst ctx v. (ctx.remote_ip, refl)),
                  (
                    (λ dst ctx v. (ctx.protocol, refl)),
                    (
                      (λ dst ctx v. appends_uint dst ctx.conn_request_num),
                      (
                        append_nil-Logs,
                        (
                          (λ dst ctx v. appends_uint dst ctx.id),
                          (
                            (λ dst ctx v. (ctx.method, refl)),
                            (
                              (λ dst ctx v. natural-Extends dst ctx.egid v.egid),
                              (
                                append_lq-Logs,
                                (
                                  append_lr-Logs,
                                  (
                                    append_nil-Logs,
                                    (
                                      (λ dst ctx v.
                                          natural-Extends dst ctx.status_code v.status_code),
                                      (
                                        append_lt-Logs,
                                        (
                                          append_t-Logs,
                                          (
                                            or_nil-Logs (λ ctx. ctx.username),
                                            (
                                              (λ dst ctx v. (ctx.path, refl)),
                                              (
                                                append_x-Logs,
                                                (
                                                  (λ dst ctx v.
                                                      appends_uint dst
                                                        (ctx.raw_headers + ctx.body)),
                                                  (
                                                    (λ dst ctx v.
                                                        appends_uint dst (
                                                          ctx.response_headers
                                                          + ctx.response_body)),
                                                    (
                                                      (λ dst ctx v. appends_uint dst (
                                                          (ctx.raw_headers + ctx.response_headers)
                                                          + (ctx.body + ctx.response_body))),
                                                      tt,
                                                    ),
                                                  ),
                                                ),
                                              ),
                                            ),
                                          ),
                                        ),
                                      ),
                                    ),
                                  ),
                                ),
                              ),
                            ),
                          ),
                        ),
                      ),
                    ),
                  ),
                ),
              ),
            ),
          ),
        ),
      ),
    ),
  )

  pub lookup_append-Logs :
      (k : ℕ) (m : List (ℕ × NcsaFunc)) {f : NcsaFunc}
      → All (λ e. Logs e.1) m
      → lookup_append k m ≡ some f
      → Logs f
  unfolding lookup_append
  lookup_append-Logs k [] a e = cc
  lookup_append-Logs k ((j, g) ∷ m) {f} a e = elim (Bool-cases (j == k)) [
    | inl same ↦ subst Logs (eq_of_some (rw same at e)) a.0
    | inr other ↦ lookup_append-Logs k m a.1 (rw other at e)
  ]
