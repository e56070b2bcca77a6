-- ===== src/Util/Strftime/NoPanic.antt =====
-- pkg/util/strftime.go: no format panics on a valid time.
use fasthttpd.Base.{
  ℕ, ◌≡◌, refl, sym, ap, ◌∙◌, inl, inr, Option, some, List, [], ◌∷◌, ◌++◌, append_assoc, append-nil,
  ◌==◌, if◌then◌else◌, Bool-cases, Option-cases, eq_of_some, All, Bytes, codes, ℤ, pos, negsuc,
}
use fasthttpd.Util.Strftime.{
  strftime_lu, strftime_ls, strftime_lw, strftime_funcs, lookup_func, directive, new_strftime_bytes,
  append_bytes,
}
use fasthttpd.Util.Strftime.Directives.{Time, StrftimeFunc}
use mathlib.Core.Path.{subst}
use fasthttpd.Util.Strftime.Laws.{format_spec, new_strftime_bytes_lem}
use fasthttpd.Util.Strftime.Total.{
  Extends, Extends-bind, IsSmall, IsValid, Appends, strftime_c-Appends, strftime_ld-Appends,
  strftime_lm-Appends, strftime_ly-Appends, strftime_y-Appends, strftime_h-Appends,
  strftime_m-Appends, strftime_s-Appends, strftime_lj-Appends, strftime_v-Appends,
  strftime_le-Appends, strftime_lk-Appends, strftime_i-Appends, strftime_ll-Appends,
}
use fasthttpd.Util.Strftime.Safe.{
  strftime_bytes-Appends, strftime_go-Appends, strftime_d-Appends, strftime_f-Appends,
  strftime_r-Appends, strftime_t-Appends, strftime_lr-Appends, strftime_u-Appends,
  strftime_w-Appends, strftime_lz-Appends,
}

module _ (append_uint : Bytes → ℤ → Option Bytes)
    (appends_uint : (dst : Bytes) (n : ℕ) → Extends dst (append_uint dst (pos n))) where
  strftime_lu-Appends : Appends (strftime_lu append_uint)
  unfolding strftime_lu
  strftime_lu-Appends dst t v = appends_uint dst (if t.weekday == 0 then 7 else t.weekday)

  small_uint-Extends : (z : ℤ) (dst : Bytes) → IsSmall z → Extends dst (append_uint dst z)
  small_uint-Extends (pos n) dst h = appends_uint dst n
  small_uint-Extends (negsuc n) dst h = absurd h

  strftime_ls-Appends : Appends (strftime_ls append_uint)
  unfolding strftime_ls
  strftime_ls-Appends dst t v = small_uint-Extends t.unix dst v.unix

  strftime_lw-Appends : Appends (strftime_lw append_uint)
  unfolding strftime_lw
  strftime_lw-Appends dst t v = appends_uint dst t.weekday

  funcs-Appends : All (λ e. Appends e.1) (strftime_funcs append_uint)
  unfolding strftime_funcs
  funcs-Appends = (
    strftime_go-Appends (codes "Mon"),
    (
      strftime_go-Appends (codes "Monday"),
      (
        strftime_go-Appends (codes "Jan"),
        (
          strftime_go-Appends (codes "January"),
          (
            strftime_go-Appends (codes "Mon Jan _2 15:04:05 2006"),
            (
              strftime_c-Appends,
              (
                strftime_ld-Appends,
                (
                  strftime_d-Appends,
                  (
                    strftime_le-Appends,
                    (
                      strftime_f-Appends,
                      (
                        strftime_ly-Appends,
                        (
                          strftime_y-Appends,
                          (
                            strftime_go-Appends (codes "Jan"),
                            (
                              strftime_h-Appends,
                              (
                                strftime_i-Appends,
                                (
                                  strftime_lj-Appends,
                                  (
                                    strftime_lk-Appends,
                                    (
                                      strftime_ll-Appends,
                                      (
                                        strftime_lm-Appends,
                                        (
                                          strftime_m-Appends,
                                          (
                                            strftime_bytes-Appends (10 ∷ []),
                                            (
                                              strftime_go-Appends (codes "pm"),
                                              (
                                                strftime_go-Appends (codes "PM"),
                                                (
                                                  strftime_lr-Appends,
                                                  (
                                                    strftime_r-Appends,
                                                    (
                                                      strftime_ls-Appends,
                                                      (
                                                        strftime_s-Appends,
                                                        (
                                                          strftime_bytes-Appends (9 ∷ []),
                                                          (
                                                            strftime_t-Appends,
                                                            (
                                                            strftime_lu-Appends,
                                                            (
                                                            strftime_u-Appends,
                                                            (
                                                            strftime_v-Appends,
                                                            (
                                                            strftime_lw-Appends,
                                                            (
                                                            strftime_w-Appends,
                                                            (
                                                            strftime_go-Appends (codes "01/02/06"),
                                                            (
                                                            strftime_go-Appends (codes "15:04:05"),
                                                            (
                                                            strftime_ly-Appends,
                                                            (
                                                            strftime_y-Appends,
                                                            (
                                                            strftime_lz-Appends,
                                                            (strftime_go-Appends (codes "MST"), tt),
                                                            ),
                                                            ),
                                                            ),
                                                            ),
                                                            ),
                                                            ),
                                                            ),
                                                            ),
                                                            ),
                                                            ),
                                                          ),
                                                        ),
                                                      ),
                                                    ),
                                                  ),
                                                ),
                                              ),
                                            ),
                                          ),
                                        ),
                                      ),
                                    ),
                                  ),
                                ),
                              ),
                            ),
                          ),
                        ),
                      ),
                    ),
                  ),
                ),
              ),
            ),
          ),
        ),
      ),
    ),
  )

  lookup_func-Appends :
      (c : ℕ) (m : List (ℕ × StrftimeFunc)) {f : StrftimeFunc}
      → All (λ e. Appends e.1) m
      → lookup_func c m ≡ some f
      → Appends f
  lookup_func-Appends c [] a e = cc
  lookup_func-Appends c ((j, g) ∷ m) {f} a e = elim (Bool-cases (j == c)) [
    | inl k ↦ subst Appends (eq_of_some (rw k at e)) a.0
    | inr k ↦ lookup_func-Appends c m a.1 (rw k at e)
  ]

  directive-Appends : (c : ℕ) → Appends (directive append_uint c)
  unfolding directive
  directive-Appends c dst t v = elim (Option-cases (lookup_func c (strftime_funcs append_uint))) [
    | inl e ↦ rw (e, directive) (strftime_bytes-Appends (c ∷ []) dst t v)
    | inr (f, e) ↦
        rw (e, directive)
          (lookup_func-Appends c (strftime_funcs append_uint) funcs-Appends e dst t v)
  ]

  copy-Extends :
      (dst : Bytes) (c : ℕ) (o : Option Bytes) → Extends (dst ++ c ∷ []) o → Extends dst o
  copy-Extends dst c o (s, e) = (c ∷ s, e ∙ ap some (append_assoc dst (c ∷ []) s))

  format_spec-Extends :
      (format dst : Bytes) (t : Time)
      → IsValid t
      → Extends dst (format_spec append_uint format dst t)
  unfolding format_spec
  format_spec-Extends [] dst t v = ([], ap some (sym (append-nil dst)))
  format_spec-Extends (c ∷ []) dst t v = elim (Bool-cases (c == b'%')) [
    | inl e ↦ rw e ([], ap some (sym (append-nil dst)))
    | inr e ↦ rw e (c ∷ [], refl)
  ]
  format_spec-Extends (c ∷ d ∷ rest) dst t v = elim (Bool-cases (c == b'%')) [
    | inl e ↦
        rw (e, format_spec)
          (Extends-bind dst (directive append_uint d dst t) _ (directive-Appends d dst t v)
            (λ dst'. format_spec-Extends rest dst' t v))
    | inr e ↦
        rw (e, format_spec)
          (copy-Extends dst c _ (format_spec-Extends (d ∷ rest) (dst ++ c ∷ []) t v))
  ]

  -- Where `AppendUint` appends for numbers that are not negative, no format panics on a valid time:
  -- what was in the buffer stays, and something is appended.
  pub new_strftime_bytes-Appends :
      (format : Bytes) → Appends (append_bytes (new_strftime_bytes append_uint format))
  new_strftime_bytes-Appends format dst t v =
      rw (new_strftime_bytes_lem append_uint format dst t) (format_spec-Extends format dst t v)
