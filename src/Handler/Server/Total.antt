-- ===== src/Handler/Server/Total.antt =====
-- pkg/handler/server.go: the handling of a result finds every filter and handler by its name.
use fasthttpd.Base.{
  ◌≡◌, refl, ◌≢◌, ◌⊎◌, inl, inr, true, some, List, [], ◌∷◌, arith, Bool-cases, is_nil, All, Bytes,
  bytes_eq, lookup, contains, pos, is_positive,
}
use fasthttpd.FastHttp.{FastHttp}
use fasthttpd.Route.Results.{Result, redirect_uri_with_query_string}
use fasthttpd.Route.Known.{AreKnown}
use fasthttpd.Handler.ErrorPages
use fasthttpd.Handler.ErrorPages.{ErrorPages}
use fasthttpd.Handler.Server.{
  Filter, HostHandler, Handled, Filtered, passed, stopped, panicked, filter_request,
  filter_response, respond, finish, after_filters, handle_route_result,
}

-- The keys of a map.
abbrev pub keys : {V : Type 0} → List (Bytes × V) → List Bytes
keys [] = []
keys ((k, v) ∷ m) = k ∷ keys m

lookup-keys :
    {V : Type 0} (k : Bytes) (m : List (Bytes × V))
    → contains (keys m) k ≡ true
    → (v : V) × (lookup k m ≡ some v)
unfolding lookup contains
lookup-keys k [] h = cc
lookup-keys k ((j, v) ∷ m) h = elim (Bool-cases (bytes_eq j k)) [
  | inl e ↦ (v, rw e refl)
  | inr e ↦ rw e (lookup-keys k m (ground arith))
]

module _ {Ctx : Type 0} where
  -- Every filter is configured.
  abbrev HasAll : List (Bytes × Filter Ctx) → List Bytes → Type 0
  HasAll known = All (λ f. contains (keys known) f ≡ true)

  filter_response-total :
      (known : List (Bytes × Filter Ctx)) (fs : List Bytes) (ctx : Ctx)
      → HasAll known fs
      → (c : Ctx) × (filter_response known fs ctx ≡ some c)
  unfolding filter_response
  filter_response-total known [] ctx h = (ctx, refl)
  filter_response-total known (f ∷ fs) ctx h =
      let (flt, e) = lookup-keys f known h.0 in
      let (c, k) = filter_response-total known fs (flt.response ctx).1 h.1 in
      elim (Bool-cases (flt.response ctx).0) [
        | inl g ↦ (c, rw (e, filter_response, g) k)
        | inr g ↦ ((flt.response ctx).1, rw (e, filter_response, g) refl)
      ]

  panicked-ne : (ctx : Ctx) → (passed ctx ≢ panicked) × (stopped ctx ≢ panicked)
  panicked-ne ctx = ((λ e. cc), (λ e. cc))

  filter_request-total :
      (known : List (Bytes × Filter Ctx)) (fs : List Bytes) (ctx : Ctx)
      → HasAll known fs
      → filter_request known fs ctx ≢ panicked
  unfolding filter_request
  filter_request-total known [] ctx h = (panicked-ne ctx).0
  filter_request-total known (f ∷ fs) ctx h =
      let (flt, e) = lookup-keys f known h.0 in
      let k = filter_request-total known fs (flt.request ctx).1 h.1 in
      elim (Bool-cases (flt.request ctx).0) [
        | inl g ↦ rw (e, filter_request, g) k
        | inr g ↦ rw (e, filter_request, g) (panicked-ne (flt.request ctx).1).1
      ]

module _ {Ctx P : Type 0} (http : FastHttp Ctx) where
  respond-total :
      (h : HostHandler Ctx P) (result : Result) (ctx : Ctx)
      → (result.handler ≡ []) ⊎ (contains (keys h.handlers) result.handler ≡ true)
      → (c : Ctx) × (respond http h result ctx ≡ some c)
  unfolding respond
  respond-total h result ctx k = elim (Bool-cases (is_positive result.status_code)) [
    | inl e ↦
        let c =
          http.set_status_message result.status_message
            (http.set_status_code result.status_code (http.reset_response ctx)) in
        (c, rw e refl)
    | inr e ↦ elim k [
      | inl n ↦ (http.set_status_code (pos 404) ctx, rw (e, n) refl)
      | inr n ↦ elim (Bool-cases (is_nil result.handler)) [
        | inl l ↦ (http.set_status_code (pos 404) ctx, rw (e, l) refl)
        | inr l ↦
            let (f, g) = lookup-keys result.handler h.handlers n in
            (f ctx, rw (e, l, g, respond) refl)
      ]
    ]
  ]

  finish-total :
      (h : HostHandler Ctx P) (result : Result) (ctx : Ctx)
      → HasAll h.filters result.filters
      → (x : Handled Ctx) × (finish http h result (some ctx) ≡ some x)
  unfolding finish
  finish-total h result ctx a =
      let (c, e) =
        filter_response-total h.filters result.filters (ErrorPages.handle http h.error_pages ctx).0
          a in
      ((c, (ErrorPages.handle http h.error_pages ctx).1), rw e refl)

  after_filters-total :
      (h : HostHandler Ctx P) (result : Result) (x : Filtered Ctx)
      → AreKnown (keys h.filters) (keys h.handlers) result.filters result.handler
      → x ≢ panicked
      → (y : Handled Ctx) × (after_filters http h result x ≡ some y)
  unfolding after_filters
  after_filters-total h result panicked k n = absurd (n refl)
  after_filters-total h result (stopped ctx) k n = (_, refl)
  after_filters-total h result (passed ctx) k n =
      elim (Bool-cases (is_nil (redirect_uri_with_query_string result (http.query_string ctx)))) [
        | inl e ↦
            let (c, r) = respond-total h result ctx k.1 in
            let (y, f) = finish-total h result c k.0 in (y, rw (e, r) f)
        | inr e ↦
            let uri = redirect_uri_with_query_string result (http.query_string ctx) in
            ((http.redirect uri result.status_code ctx, h.error_pages), rw e refl)
      ]

  -- Where the filters of a result and its handler are configured, the handling of the result does
  -- not fail: neither loop over the filters nor the call of the handler meets a nil entry.
  pub handle_route_result-total :
      (h : HostHandler Ctx P) (ctx : Ctx) (result : Result)
      → AreKnown (keys h.filters) (keys h.handlers) result.filters result.handler
      → (x : Handled Ctx) × (handle_route_result http h ctx result ≡ some x)
  unfolding handle_route_result
  handle_route_result-total h ctx result k =
      after_filters-total h result _ k (filter_request-total h.filters result.filters _ k.0)
