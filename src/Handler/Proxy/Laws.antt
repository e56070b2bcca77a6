-- ===== src/Handler/Proxy/Laws.antt =====
-- pkg/handler/proxy.go: which backend is picked, and what the health check leaves.
use native.Mathlib.Nat.{mod-lt, mod-eq_of_lt, mod-add-mod, add-mod_right}
use fasthttpd.Base.{
  ℕ, zero, suc, ◌+◌, ◌-◌, ◌%◌, ◌^◌, ◌≤◌, ◌<◌, ◌≡◌, refl, sym, ap, ◌∙◌, ◌≢◌, inl, inr, true, false,
  Option, none, some, List, [], ◌∷◌, ◌++◌, arith, leb, ◌==◌, if◌then◌else◌, Bool-cases,
  Option-cases, eq_of_some, length, get_elem?, ℤ,
}
use fasthttpd.Handler.Proxy.{
  Algorithm, round_robin, random, ip_hash, ProxyBackend, ProxyBalancer, pick_start, pick_loop, pick,
  is_healthy, check_backends, run_health_check,
}

-- Every place is reached from every start.
place : (start j n : ℕ) → j < n → (i : ℕ) × (i < n) × ((start + i) % n ≡ j)
place start j n h = elim (Bool-cases (leb (start % n) j)) [
  | inl e ↦
      let i = j - start % n in
      (
        i,
        omega arith,
        sym (mod-add-mod start n i)
            ∙ ap (λ x. x % n) (sum-le (start % n) j (ground arith))
            ∙ mod-eq_of_lt h,
      )
  | inr e ↦
      let r : start % n < n = mod-lt start (omega arith) in
      let i = j + n - start % n in
      let over : j < start % n = ground arith in
      (
        i,
        omega arith,
        sym (mod-add-mod start n i)
            ∙ ap (λ x. x % n) (sum-over (start % n) j n over r)
            ∙ add-mod_right j n
            ∙ mod-eq_of_lt h,
      )
]
  where
    sum-le : (r j' : ℕ) → r ≤ j' → r + (j' - r) ≡ j'
    sum-le r j' k = omega arith

    sum-over : (r j' n' : ℕ) → j' < r → r < n' → r + (j' + n' - r) ≡ j' + n'
    sum-over r j' n' k l = omega arith

true_ne_false : true ≡ false → ⊥
true_ne_false e = cc

get_elem?-total :
    {A : Type 0} (xs : List A) (j : ℕ) → j < length xs → (x : A) × (get_elem? xs j ≡ some x)
get_elem?-total [] j h = absurd (omega arith)
get_elem?-total (y ∷ xs) zero h = (y, refl)
get_elem?-total (y ∷ xs) (suc j) h = get_elem?-total xs j (omega arith)

get_elem?-bound :
    {A : Type 0} (xs : List A) (j : ℕ) {x : A} → get_elem? xs j ≡ some x → j < length xs
get_elem?-bound [] j e = cc
get_elem?-bound (y ∷ xs) zero e = omega arith
get_elem?-bound (y ∷ xs) (suc j) e = omega (arith, get_elem?-bound xs j e)

module _ {U : Type 0} where
  pick_loop-some :
      (bs : List (ProxyBackend U)) (start i left : ℕ) (x : ProxyBackend U)
      → get_elem? bs ((start + i) % 2 ^ 64 % length bs) ≡ some x
      → pick_loop bs start i (suc left)
        ≡ (if x.alive then some x else pick_loop bs start (suc i) left)
  unfolding pick_loop
  pick_loop-some bs start i left x k = rw (k, pick_loop) refl

  pick_loop-missing :
      (bs : List (ProxyBackend U)) (start i left : ℕ)
      → get_elem? bs ((start + i) % 2 ^ 64 % length bs) ≡ none
      → pick_loop bs start i (suc left) ≡ none
  unfolding pick_loop
  pick_loop-missing bs start i left k = rw (k, pick_loop) refl

  pick_loop-alive :
      (bs : List (ProxyBackend U)) (start i left : ℕ) (be : ProxyBackend U)
      → pick_loop bs start i left ≡ some be
      → be.alive ≡ true
  unfolding pick_loop
  pick_loop-alive bs start i zero be e = cc
  pick_loop-alive bs start i (suc left) be e =
      elim (Option-cases (get_elem? bs ((start + i) % 2 ^ 64 % length bs))) [
        | inl k ↦ absurd (ground (arith, pick_loop-missing bs start i left k))
        | inr (x, k) ↦
            let step = sym (pick_loop-some bs start i left x k) ∙ e in
            elim (Bool-cases x.alive) [
              | inl a ↦
                  let same : (if x.alive then some x else pick_loop bs start (suc i) left)
                      ≡ some x =
                    rw a refl in
                  ap (λ b. b.alive) (sym (eq_of_some (sym same ∙ step))) ∙ a
              | inr a ↦
                  let same : (if x.alive then some x else pick_loop bs start (suc i) left)
                      ≡ pick_loop bs start (suc i) left =
                    rw a refl in
                  pick_loop-alive bs start (suc i) left be (sym same ∙ step)
            ]
      ]

  -- A search that tries a place with a backend that is alive has a result, where every place holds
  -- a backend.
  pick_loop-finds :
      (bs : List (ProxyBackend U)) (start i left : ℕ)
      → ((k : ℕ)
          → i ≤ k
          → k < i + left
          → (x : ProxyBackend U) × (get_elem? bs ((start + k) % 2 ^ 64 % length bs) ≡ some x))
      → (k : ℕ) (be : ProxyBackend U) → i ≤ k
      → k < i + left
      → get_elem? bs ((start + k) % 2 ^ 64 % length bs) ≡ some be
      → be.alive ≡ true
      → (x : ProxyBackend U) × (pick_loop bs start i left ≡ some x)
  pick_loop-finds bs start i zero total k be l h g a = absurd (omega arith)
  pick_loop-finds bs start i (suc left) total k be l h g a =
      let (x, e) = total i (omega arith) (omega arith) in
      let step = pick_loop-some bs start i left x e in
      elim (Bool-cases x.alive) [
        | inl b ↦ (x, step ∙ rw b refl)
        | inr b ↦
            let ne : k ≢ i = λ same.
              dead x be
                (eq_of_some (
                  sym e ∙ ap (λ m. get_elem? bs ((start + m) % 2 ^ 64 % length bs)) (sym same) ∙ g))
                b a in
            let (y, f) =
              pick_loop-finds bs start (suc i) left (λ m p q. total m (omega arith) (omega arith)) k
                be (omega arith) (omega arith) g a in
            (y, step ∙ rw b f)
      ]
    where
      dead : (x' be' : ProxyBackend U) → x' ≡ be' → x'.alive ≡ false → be'.alive ≡ true → ⊥
      dead x' be' e' b' a' = true_ne_false (sym a' ∙ sym (ap (λ z. z.alive) e') ∙ b')

  -- A start for which the places do not wrap around at 2 ^ 64.
  pick_loop-reaches :
      (bs : List (ProxyBackend U)) (start j : ℕ) (be : ProxyBackend U)
      → start + length bs ≤ 2 ^ 64
      → get_elem? bs j ≡ some be
      → be.alive ≡ true
      → (x : ProxyBackend U) × (pick_loop bs start 0 (length bs) ≡ some x)
  pick_loop-reaches bs start j be fit g a =
      let bound = get_elem?-bound bs j g in
      let (k, less, at) = place start j (length bs) bound in
      pick_loop-finds bs start 0 (length bs)
        (λ m l h.
          get_elem?-total bs ((start + m) % 2 ^ 64 % length bs)
            (mod-lt ((start + m) % 2 ^ 64) (omega arith)))
        k be (omega arith) (omega arith)
        (ap (λ m. get_elem? bs (m % length bs)) (mod-eq_of_lt (omega arith))
          ∙ ap (get_elem? bs) at
          ∙ g)
        a

  -- No backend is picked that is down, and where one is alive one is picked, for draws below the
  -- number of backends, at most 2 ^ 63 backends, and as long as the counter and that number do not
  -- pass 2 ^ 64.
  pub pick_alive :
      (b : ProxyBalancer U) (draw hash : ℕ)
      → draw < length b.backends
      → b.counter + length b.backends ≤ 2 ^ 64
      → length b.backends ≤ 2 ^ 63
      → ((be : ProxyBackend U) → (pick b draw hash).0 ≡ some be → be.alive ≡ true)
        × ((j : ℕ) (be : ProxyBackend U)
            → get_elem? b.backends j ≡ some be
            → be.alive ≡ true
            → (x : ProxyBackend U) × ((pick b draw hash).0 ≡ some x))
  unfolding pick pick_start
  pick_alive b draw hash d c n =
      let some_backend : (length b.backends == 0) ≡ false = ground arith in
      let start = (pick_start b.algorithm (length b.backends) draw hash b.counter).0 in
      rw some_backend (
        (λ be e. pick_loop-alive b.backends start 0 (length b.backends) be e),
        (λ j be g a. pick_loop-reaches b.backends start j be (fits b.algorithm) g a),
      )
    where
      fits :
          (alg : Algorithm)
          → (pick_start alg (length b.backends) draw hash b.counter).0 + length b.backends ≤ 2 ^ 64
      fits round_robin = omega arith
      fits random = omega arith
      fits ip_hash = omega (arith, mod-lt hash {m = length b.backends} (omega arith))

  -- The alive states after a tick are what the requests of that tick said.
  abbrev pub checked : (U → Option ℤ) → List (ProxyBackend U) → List (ProxyBackend U)
  checked head_backend [] = []
  checked head_backend (be ∷ bs) =
      record be { alive = is_healthy (head_backend be.url) } ∷ checked head_backend bs

  check_backends-checked :
      (head_backend : U → Option ℤ) (bs : List (ProxyBackend U))
      → (check_backends head_backend bs).0 ≡ checked head_backend bs
  unfolding check_backends
  check_backends-checked head_backend [] = refl
  check_backends-checked head_backend (be ∷ bs) =
      ap (λ l. record be { alive = is_healthy (head_backend be.url) } ∷ l)
        (check_backends-checked head_backend bs)

  checked-checked :
      (first last : U → Option ℤ) (bs : List (ProxyBackend U))
      → checked last (checked first bs) ≡ checked last bs
  checked-checked first last [] = refl
  checked-checked first last (be ∷ bs) =
      ap (λ l. record be { alive = is_healthy (last be.url) } ∷ l) (checked-checked first last bs)

  -- After any ticks of the health check the backends are the same, and each is alive exactly if the
  -- request of the last tick says so: earlier ticks leave no trace.
  pub run_health_check_last :
      (ticks : List (U → Option ℤ)) (last : U → Option ℤ) (b : ProxyBalancer U)
      → (run_health_check (ticks ++ last ∷ []) b).0.backends ≡ checked last b.backends
  unfolding run_health_check
  run_health_check_last [] last b = check_backends-checked last b.backends
  run_health_check_last (first ∷ ticks) last b =
      run_health_check_last ticks last (record b { backends = (check_backends first b.backends).0 })
      ∙ ap (checked last) (check_backends-checked first b.backends)
      ∙ checked-checked first last b.backends
