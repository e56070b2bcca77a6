-- ===== src/Route/Results.antt =====
-- pkg/route/result.go: the result of routing, and the pool of results.
use fasthttpd.Base.{
  ℕ, Bool, true, false, not, ◌&&◌, List, [], ◌∷◌, ◌++◌, ◌==◌, if◌then◌else◌, length, take, is_nil,
  Bytes, bytes_eq, ℤ, pos, int_eq,
}
use fasthttpd.Util.Http.{append_query_string}

pub record Result : Type 0 where
  pub status_code : ℤ
  pub status_message : Bytes
  pub rewrite_uri : Bytes
  pub redirect_uri : Bytes
  pub append_query : Bool
  pub handler : Bytes
  pub filters : List Bytes
  pub route_index : ℕ

-- `&Result{}`
abbrev pub empty_result : Result
empty_result = record {
  status_code = pos 0;
  status_message = [];
  rewrite_uri = [];
  redirect_uri = [];
  append_query = false;
  handler = [];
  filters = [];
  route_index = 0;
}

unfoldable pub rewrite_uri_with_query_string : Result → Bytes → Bytes
rewrite_uri_with_query_string r qstr =
    if r.append_query && not (is_nil r.rewrite_uri)
    then append_query_string r.rewrite_uri qstr
    else r.rewrite_uri

unfoldable pub redirect_uri_with_query_string : Result → Bytes → Bytes
redirect_uri_with_query_string r qstr =
    if r.append_query && not (is_nil r.redirect_uri)
    then append_query_string r.redirect_uri qstr
    else r.redirect_uri

unfoldable pub reset : Result → Result
reset r = record r {
  status_code = pos 0;
  status_message = take 0 r.status_message;
  rewrite_uri = take 0 r.rewrite_uri;
  redirect_uri = take 0 r.redirect_uri;
  append_query = false;
  handler = [];
  filters = take 0 r.filters;
  route_index = 0;
}

-- `r.CopyTo(dst)`
unfoldable pub copy_to : Result → Result → Result
unfolding reset
copy_to r dst =
    let d = reset dst in
    record d {
      status_code = r.status_code;
      status_message = take 0 d.status_message ++ r.status_message;
      rewrite_uri = take 0 d.rewrite_uri ++ r.rewrite_uri;
      redirect_uri = d.redirect_uri ++ r.redirect_uri;
      append_query = r.append_query;
      handler = r.handler;
      filters = take 0 d.filters ++ r.filters;
      route_index = r.route_index;
    }

abbrev pub Pool : Type 0
Pool = List Result

-- A pooled result, or a new one.
unfoldable pub acquire_result : Pool → Result × Pool
acquire_result [] = (empty_result, [])
acquire_result (r ∷ pool) = (r, pool)

unfoldable pub release : Result → Pool → Pool
release r pool = reset r ∷ pool

same_strings : List Bytes → List Bytes → Bool
same_strings [] [] = true
same_strings [] (y ∷ ys) = false
same_strings (x ∷ xs) [] = false
same_strings (x ∷ xs) (y ∷ ys) = bytes_eq x y && same_strings xs ys

abbrev pub bool_eq : Bool → Bool → Bool
bool_eq true b = b
bool_eq false b = not b

-- `a.Equal(b)`
unfoldable pub equal : Result → Result → Bool
unfolding same_strings
equal a b =
    if not (length a.filters == length b.filters)
    then false
    else if not (same_strings a.filters b.filters)
    then false
    else int_eq a.status_code b.status_code
      && bytes_eq a.status_message b.status_message
      && bytes_eq a.rewrite_uri b.rewrite_uri
      && bytes_eq a.redirect_uri b.redirect_uri
      && bool_eq a.append_query b.append_query
      && bytes_eq a.handler b.handler
