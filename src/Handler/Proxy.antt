-- ===== src/Handler/Proxy.antt =====
-- pkg/handler/proxy.go: a balancer over backends, which skips those that are down, and the health
-- check. The handlers of the backends, the hash and the parser of URLs are parameters.
pub mod Laws
mod Tests
use fasthttpd.Base.{
  ℕ, zero, suc, ◌+◌, ◌-◌, ◌/◌, ◌%◌, ◌^◌, ap, Bool, true, false, not, Option, none, some, List, [],
  ◌∷◌, ◌++◌, map, ltb, ◌==◌, if◌then◌else◌, length, get_elem?, Bytes, codes, bytes_eq, ℤ, pos,
  negsuc, positive_or, neg,
}
use fasthttpd.Tree.{Tree}

-- The algorithms of the configuration.
pub data Algorithm : Type 0 where
  round_robin : Algorithm
  random : Algorithm
  ip_hash : Algorithm

pub record ProxyBackend (U : Type 0) : Type 0 where
  pub url : U
  pub alive : Bool

pub record ProxyBalancer (U : Type 0) : Type 0 where
  pub backends : List (ProxyBackend U)
  pub algorithm : Algorithm
  -- a uint64
  pub counter : ℕ

pub data ProxyError : Type 0 where
  no_url : ProxyError
  algorithm_not_supported : Bytes → ProxyError
  bad_url : Bytes → ProxyError

pub data ProxyResult (A : Type 0) : Type 0 where
  ok : A → ProxyResult A
  err : ProxyError → ProxyResult A

infixl 5 ◌>>=◌
abbrev pub ◌>>=◌ : {A B : Type 0} → ProxyResult A → (A → ProxyResult B) → ProxyResult B
ok a >>= f = f a
err e >>= f = err e

-- `supportedAlgorithms`
unfoldable pub supported_algorithm : Bytes → ProxyResult Algorithm
supported_algorithm s =
    if bytes_eq s (codes "round-robin")
    then ok round_robin
    else if bytes_eq s (codes "random")
    then ok random
    else if bytes_eq s (codes "ip-hash")
    then ok ip_hash
    else err (algorithm_not_supported s)

-- Where the search starts, and the counter behind it. `draw` is `rand.Uint64N(n)`, `hash` the
-- hash of the client.
unfoldable pub pick_start : Algorithm → ℕ → ℕ → ℕ → ℕ → ℕ × ℕ
pick_start random n draw hash counter = (draw, counter)
pick_start ip_hash n draw hash counter = (hash % n, counter)
pick_start round_robin n draw hash counter = (counter, (counter + 1) % 2 ^ 64)

-- What the health check writes to the log.
pub data Message (U : Type 0) : Type 0 where
  back_online : U → Message U
  marked_down : U → Message U

-- `head_backend` is `none` for an error of the request, or the
-- status of the response.
unfoldable pub is_healthy : Option ℤ → Bool
is_healthy none = false
is_healthy (some (pos code)) = ltb code 500
is_healthy (some (negsuc code)) = true

module _ {U : Type 0} where
  -- The loop over the URLs; every backend starts alive.
  unfoldable pub new_backends :
      (Bytes → Option U) → List Bytes → ProxyResult (List (ProxyBackend U))
  new_backends parse_url [] = ok []
  new_backends parse_url (s ∷ urls) = elim (parse_url s) [
    | none ↦ err (bad_url s)
    | some u ↦ do rest ← new_backends parse_url urls; ok (record { url = u; alive = true } ∷ rest)
  ]

  unfoldable pub new_proxy_balancer :
      (Bytes → Option U) → List Bytes → Bytes → ProxyResult (ProxyBalancer U)
  new_proxy_balancer parse_url [] algorithm = err no_url
  new_proxy_balancer parse_url (s ∷ urls) algorithm = do
    a ← supported_algorithm algorithm
    backends ← new_backends parse_url (s ∷ urls)
    ok (record { backends = backends; algorithm = a; counter = 0 })

  -- The loop of `pick`, with the count of the places that are left to try.
  unfoldable pub pick_loop : List (ProxyBackend U) → ℕ → ℕ → ℕ → Option (ProxyBackend U)
  pick_loop backends start i zero = none
  pick_loop backends start i (suc left) =
      let rest = pick_loop backends start (suc i) left in
      elim (get_elem? backends ((start + i) % 2 ^ 64 % length backends)) [
        | none ↦ none
        | some be ↦ if be.alive then some be else rest
      ]

  -- The backend, and the counter of the balancer.
  unfoldable pub pick : ProxyBalancer U → ℕ → ℕ → Option (ProxyBackend U) × ProxyBalancer U
  pick b draw hash =
      if length b.backends == 0
      then (none, b)
      else let (start, counter) = pick_start b.algorithm (length b.backends) draw hash b.counter in
        (pick_loop b.backends start 0 (length b.backends), record b { counter = counter })

  -- The response, with the handlers of the backends.
  unfoldable pub serve_http :
      {R : Type 0} → (U → R) → (ℤ → Bytes → R) → ProxyBalancer U → ℕ → ℕ → R × ProxyBalancer U
  serve_http handler error b draw hash =
      let (be, b') = pick b draw hash in
      elim be [
        | none ↦ (error (pos 503) (codes "no healthy backend"), b')
        | some backend ↦ (handler backend.url, b')
      ]

  -- Did the state of a backend change?
  abbrev pub change_message : U → Bool → Bool → List (Message U)
  change_message u true true = []
  change_message u true false = marked_down u ∷ []
  change_message u false true = back_online u ∷ []
  change_message u false false = []

  -- One tick of the health check.
  unfoldable pub check_backends :
      (U → Option ℤ) → List (ProxyBackend U) → List (ProxyBackend U) × List (Message U)
  check_backends head_backend [] = ([], [])
  check_backends head_backend (be ∷ rest) =
      let alive = is_healthy (head_backend be.url) in
      let (rest', messages) = check_backends head_backend rest in
      (record be { alive = alive } ∷ rest', change_message be.url be.alive alive ++ messages)

  -- The loop over the ticks, with what the requests of each tick return.
  unfoldable pub run_health_check :
      List (U → Option ℤ) → ProxyBalancer U → ProxyBalancer U × List (Message U)
  run_health_check [] b = (b, [])
  run_health_check (head_backend ∷ ticks) b =
      let (backends, messages) = check_backends head_backend b.backends in
      let (b', later) = run_health_check ticks (record b { backends = backends }) in
      (b', messages ++ later)

-- `hashClientIP`: the host of the address, or all of it where it has no port.
unfoldable pub hash_client_ip : (Bytes → Option Bytes) → (Bytes → ℕ) → Bytes → ℕ
hash_client_ip split_host_port fnv64a remote_addr = elim (split_host_port remote_addr) [
  | none ↦ fnv64a remote_addr
  | some h ↦ fnv64a h
]

module _ {N : Type 0} (tree : Tree N) where
  abbrev single_url : Bytes → ProxyResult (List Bytes)
  single_url [] = err no_url
  single_url (c ∷ s) = ok ((c ∷ s) ∷ [])

  unfoldable pub proxy_urls : N → ProxyResult (List Bytes)
  proxy_urls cfg =
      if length (tree.items (tree.child cfg (codes "urls"))) == 0
      then single_url (tree.text (tree.child cfg (codes "url")))
      else ok (map tree.text (tree.items (tree.child cfg (codes "urls"))))

  abbrev algorithm_or_default : Bytes → Bytes
  algorithm_or_default [] = codes "round-robin"
  algorithm_or_default (c ∷ s) = c ∷ s

  -- The balancer, and the interval of the health check in seconds; zero for none.
  unfoldable pub new_proxy_handler :
      {U : Type 0} → (Bytes → Option U) → N → ProxyResult (ProxyBalancer U × ℕ)
  new_proxy_handler parse_url cfg = do
    urls ← proxy_urls cfg
    b ←
        new_proxy_balancer parse_url urls
          (algorithm_or_default (tree.text (tree.child cfg (codes "algorithm"))))
    ok (b, positive_or (tree.int (tree.child cfg (codes "healthCheckInterval"))) 0)
