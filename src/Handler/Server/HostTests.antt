-- ===== src/Handler/Server/HostTests.antt =====
-- pkg/handler/server.go: two virtual hosts, for the theorems about the choice between them.
use fasthttpd.Base.{
  ◌≡◌, refl, inr, false, Option, none, some, List, [], ◌∷◌, length, Bytes, codes, bytes_eq,
  index_byte,
}
use fasthttpd.Handler.Samples.{Context, plain_http, get_page}
use fasthttpd.Route.{route}
use fasthttpd.Route.Cached.{cached_route}
use fasthttpd.Route.Results.{
  Pool, acquire_result, rewrite_uri_with_query_string, redirect_uri_with_query_string,
}
use fasthttpd.Handler.Server.{
  HostHandler, filter_request, filter_response, respond, finish, after_filters, handle_route_result,
  goes_on, next_turn, turn, handle_loop, handle,
}
use fasthttpd.Handler.Server.Hosts.{
  put_back, by_name, between, handle_virtual-asked, find_host, handle_virtual, host_name, handler,
}
use fasthttpd.Handler.Server.Tests.{prefix_regexp, host_with, clock}

abbrev other_host : HostHandler Context Bytes
other_host = record (host_with []) { host_bytes = codes "b.example" }

names-differ : bytes_eq (codes "a.example") (codes "b.example") ≡ false
unfolding bytes_eq
names-differ = refl

no_colon : index_byte (codes "a.example") b':' ≡ none
unfolding index_byte
no_colon = refl

abbrev two_hosts : List (HostHandler Context Bytes)
two_hosts = other_host ∷ host_with [] ∷ []

abbrev state_or :
    List (HostHandler Context Bytes)
    → Option (List (HostHandler Context Bytes) × Pool × Context)
    → List (HostHandler Context Bytes) × Pool × Context
state_or hs none = (hs, [], get_page)
state_or hs (some x) = x

abbrev served : List (HostHandler Context Bytes) × Pool × Context
served =
    state_or two_hosts
      (handle_virtual plain_http prefix_regexp length clock 1 two_hosts [] get_page)

handle_virtual-served :
    handle_virtual plain_http prefix_regexp length clock 1 two_hosts [] get_page ≡ some served
unfolding handle_virtual handler find_host host_name index_byte bytes_eq put_back handle handle_loop
    turn cached_route route acquire_result handle_route_result filter_request after_filters respond
    finish filter_response rewrite_uri_with_query_string redirect_uri_with_query_string next_turn
    goes_on
handle_virtual-served = refl

handle_virtual-asked_example :
    handle_virtual plain_http prefix_regexp length clock 1
      (other_host ∷ host_with [] ∷ [])
      []
      get_page
    ≡ between
        (other_host ∷ [])
        []
        (handle plain_http prefix_regexp length clock 1 (host_with []) [] get_page)
handle_virtual-asked_example =
    handle_virtual-asked plain_http prefix_regexp length clock 1 (codes "a.example")
      (other_host ∷ []) [] (host_with []) [] get_page no_colon (inr (codes "80", refl))
      (by_name (names-differ, tt) refl)
