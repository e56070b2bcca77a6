-- ===== src/Handler/Proxy/Tests.antt =====
-- pkg/handler/proxy.go: two backends, for the theorems about the balancer.
use fasthttpd.Base.{ℕ, ◌≡◌, true, false, Option, none, some, [], ◌∷◌, arith, get_elem?, ℤ, pos}
use fasthttpd.Handler.Proxy.{round_robin, ProxyBackend, ProxyBalancer, pick}
use fasthttpd.Handler.Proxy.Laws.{pick_alive}

-- The first backend is down.
abbrev two_backends : ProxyBalancer ℕ
two_backends = record {
  backends = record { url = 1; alive = false } ∷ record { url = 2; alive = true } ∷ [];
  algorithm = round_robin;
  counter = 6;
}

pick_alive_example :
    ((be : ProxyBackend ℕ) → (pick two_backends 0 77).0 ≡ some be → be.alive ≡ true)
    × ((j : ℕ) (be : ProxyBackend ℕ)
        → get_elem? two_backends.backends j ≡ some be
        → be.alive ≡ true
        → (x : ProxyBackend ℕ) × ((pick two_backends 0 77).0 ≡ some x))
pick_alive_example = pick_alive two_backends 0 77 (omega arith) (omega arith) (omega arith)

-- One tick without an answer, and one with a status of 200 from each.
abbrev no_answer : ℕ → Option ℤ
no_answer u = none

abbrev all_fine : ℕ → Option ℤ
all_fine u = some (pos 200)
