-- ===== src/Route.antt =====
-- pkg/route/route.go: the routes and the search for one. `P` is the type of compiled regular
-- expressions of package `regexp`, whose functions are the record `Regexp`.
pub mod Results
pub mod Setup
pub mod Cached
pub mod Search
pub mod FirstMatch
pub mod Known
pub mod Coherence
pub mod Serving
mod Tests
use fasthttpd.Base.{
  ℕ, suc, ◌+◌, ◌-◌, ◌/◌, ap, Bool, true, not, ◌&&◌, ◌||◌, Option, none, List, [], ◌∷◌, ◌++◌, leb,
  if◌then◌else◌, length, set, take, drop, is_nil, All, Bytes, bytes_eq, has_prefix, contains, ℤ,
  pos, is_positive,
}
use fasthttpd.Util.Http.{is_http_or_https, is_http_status_redirect, split_request_uri}
use fasthttpd.Util.StringSet.{append}
use Results.{Result, Pool, acquire_result}

-- What the table uses of package `regexp`: `Compile` (`none` for an error), `Match`, `ReplaceAll`.
pub record Regexp (P : Type 0) : Type 0 where
  pub compile : Bytes → Option P
  pub matches : P → Bytes → Bool
  pub replace_all : P → Bytes → Bytes → Bytes

-- The closure `matchPath`; `matchPattern` is set exactly for a regular expression.
pub data Matcher (P : Type 0) : Type 0 where
  equal : Bytes → Matcher P
  prefix : Bytes → Matcher P
  pattern : P → Matcher P

pub record Route (P : Type 0) : Type 0 where
  pub methods_bytes : List Bytes
  pub filters : List Bytes
  pub rewrite_uri_bytes : Bytes
  pub rewrite_append_query_string : Bool
  pub handler : Bytes
  pub status_code : ℤ
  pub status_message_bytes : Bytes
  pub match_path : Matcher P
  pub next_if_not_found : Bool

-- One round of the loop of `Route`: it returns, or it goes on with the result and the path.
pub data Round : Type 0 where
  returns : Result → Round
  continues : Result → Bytes → Round

unfoldable pub match_methods : List Bytes → Bytes → Bool
match_methods [] method = true
match_methods (m ∷ ms) method = contains (m ∷ ms) method

-- `if result.StatusCode > 0 || result.Handler != ""`
abbrev pub decide : Result → Bytes → Round
decide result path =
    if is_positive result.status_code || not (is_nil result.handler)
    then returns result
    else continues result path

-- The rest of a round, behind the assignments, for the rewritten URI.
unfoldable pub follow_rewrite : Bool → Bytes → Result → Bytes → Round
follow_rewrite append_query [] result path = decide result path
follow_rewrite append_query (c ∷ uri) result path =
    let rewritten = record result { append_query = append_query } in
    if is_http_or_https (c ∷ uri) || is_http_status_redirect result.status_code
    then returns (record rewritten { redirect_uri = result.redirect_uri ++ c ∷ uri })
    else decide (record rewritten { rewrite_uri = take 0 result.rewrite_uri ++ c ∷ uri })
        (split_request_uri (c ∷ uri)).0

-- The assignments of a round to the result.
unfoldable pub assign : {P : Type 0} → Route P → ℕ → Result → Result
assign r i result = record result {
  filters = if is_nil r.filters then result.filters else append result.filters r.filters;
  route_index = i;
  status_code = r.status_code;
  status_message = take 0 result.status_message ++ r.status_message_bytes;
  handler = r.handler;
}

module _ {P : Type 0} (re : Regexp P) where
  unfoldable pub match_path : Matcher P → Bytes → Bool
  match_path (equal eq) path = bytes_eq path eq
  match_path (prefix p) path = has_prefix path p
  match_path (pattern p) path = re.matches p path

  unfoldable pub match : Route P → Bytes → Bytes → Bool
  match r method path = match_methods r.methods_bytes method && match_path r.match_path path

  unfoldable pub rewrite_by : Matcher P → Bytes → Bytes → Bytes
  rewrite_by (pattern p) [] path = []
  rewrite_by (pattern p) (c ∷ uri) path = re.replace_all p path (c ∷ uri)
  rewrite_by (equal _) uri path = uri
  rewrite_by (prefix _) uri path = uri

  abbrev pub rewrite : Route P → Bytes → Bytes
  rewrite r path = rewrite_by r.match_path r.rewrite_uri_bytes path

  unfoldable pub round : Route P → ℕ → Bytes → Bytes → Result → Round
  round r i method path result =
      if match r method path
      then follow_rewrite r.rewrite_append_query_string (rewrite r path) (assign r i result) path
      else continues result path

  -- The loop of `Route`; `i` counts from the start of the slice.
  unfoldable pub search : List (Route P) → ℕ → Bytes → Bytes → Result → Result
  search [] i method path result = record result { status_code = pos 404 }
  search (r ∷ rs) i method path result = elim (round r i method path result) [
    | returns found ↦ found
    | continues found path' ↦ search rs (suc i) method path' found
  ]

  unfoldable pub route : List (Route P) → Bytes → Bytes → ℕ → Pool → Result × Pool
  route routes method path off pool =
      let (result, rest) = acquire_result pool in
      if leb (length routes) off
      then (record result { status_code = pos 404 }, rest)
      else (search (drop off routes) 0 method path result, rest)
