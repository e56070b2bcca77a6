-- ===== src/Handler/Content.antt =====
-- pkg/handler/content.go: a handler that answers with configured content, by conditions on the
-- request. The values of `contentRandomPercentage` come from a sequence of draws.
pub mod Laws
mod Tests
use fasthttpd.Base.{
  ℕ, suc, ◌+◌, ◌-◌, ◌/◌, ◌<◌, ap, Bool, true, false, ◌&&◌, Option, none, some, List, [], ◌∷◌, ◌++◌,
  map, leb, if◌then◌else◌, set, take, drop, is_nil, Bytes, codes, bytes_eq, has_prefix, ℤ, pos,
  negsuc, is_positive, neg,
}
use fasthttpd.FastHttp.{FastHttp}
use fasthttpd.Tree.{Tree, Kind, map_kind, array_kind, string_kind, other_kind}

pub record ContentResponse : Type 0 where
  pub headers : List (Bytes × Bytes)
  -- `none` for nil
  pub body : Option Bytes
  pub status_code : ℤ
  pub has_status : Bool

-- The kinds of conditions, with the fields that each uses.
pub data ConditionKind : Type 0 where
  cond_none : ConditionKind
  cond_path : Bytes → ConditionKind
  cond_query : List (Bytes × Bytes) → ConditionKind
  cond_percentage : ℤ → ConditionKind

pub record ContentCondition : Type 0 where
  pub kind : ConditionKind
  pub response : ContentResponse

pub record Content : Type 0 where
  pub default_response : ContentResponse
  pub conditions : List ContentCondition

-- `strings.SplitN(s, ": ", 2)`; `none` where the separator is missing.
unfoldable pub split_header : Bytes → Option (Bytes × Bytes)
split_header [] = none
split_header (c ∷ s) =
    if has_prefix (c ∷ s) (codes ": ")
    then some ([], drop 2 (c ∷ s))
    else elim (split_header s) [ none ↦ none | some (k, v) ↦ some (c ∷ k, v) ]

module _ {N : Type 0} (tree : Tree N) (parse_args : Bytes → List (Bytes × Bytes)) where
  abbrev pub text_entries : N → List (Bytes × Bytes)
  text_entries n = map (λ e. (e.0, tree.text e.1)) (tree.entries n)

  abbrev header_of : Option (Bytes × Bytes) → List (Bytes × Bytes)
  header_of none = []
  header_of (some kv) = kv ∷ []

  -- The headers of one element of an array.
  unfoldable pub item_headers : Kind → N → List (Bytes × Bytes)
  item_headers string_kind v = header_of (split_header (tree.text v))
  item_headers map_kind v = text_entries v
  item_headers array_kind v = []
  item_headers other_kind v = []

  unfoldable pub array_headers : List (Bytes × Bytes) → List N → List (Bytes × Bytes)
  array_headers dst [] = dst
  array_headers dst (v ∷ vs) = array_headers (dst ++ item_headers (tree.kind v) v) vs

  unfoldable pub headers_by : Kind → List (Bytes × Bytes) → N → List (Bytes × Bytes)
  headers_by map_kind dst headers = dst ++ text_entries headers
  headers_by array_kind dst headers = array_headers dst (tree.items headers)
  headers_by string_kind dst headers = dst
  headers_by other_kind dst headers = dst

  abbrev pub append_content_headers : List (Bytes × Bytes) → N → List (Bytes × Bytes)
  append_content_headers dst headers = headers_by (tree.kind headers) dst headers

  -- The node whose headers are taken; the fallback is nil for the handler's own configuration.
  unfoldable pub headers_node : N → Option N → N
  headers_node cfg none = tree.child cfg (codes "headers")
  headers_node cfg (some fallback) =
      if tree.is_nil_node (tree.child cfg (codes "headers"))
      then tree.child fallback (codes "headers")
      else tree.child cfg (codes "headers")

  unfoldable pub build_content_response : N → Option N → ContentResponse
  build_content_response cfg fallback = record {
    headers = append_content_headers [] (headers_node cfg fallback);
    body =
        if tree.has cfg (codes "body")
        then some (tree.text (tree.child cfg (codes "body")))
        else none;
    status_code =
        if tree.has cfg (codes "status") then tree.int (tree.child cfg (codes "status")) else pos 0;
    has_status = tree.has cfg (codes "status");
  }

  unfoldable pub condition_kind : N → ConditionKind
  condition_kind cfg =
      if tree.has cfg (codes "path")
      then cond_path (tree.text (tree.child cfg (codes "path")))
      else if tree.has cfg (codes "queryStringContains")
      then cond_query (parse_args (tree.text (tree.child cfg (codes "queryStringContains"))))
      else if is_positive (tree.int (tree.child cfg (codes "percentage")))
      then cond_percentage (tree.int (tree.child cfg (codes "percentage")))
      else cond_none

  unfoldable pub build_content_condition : N → N → ContentCondition
  build_content_condition cfg fallback = record {
    kind = condition_kind cfg;
    response = build_content_response cfg (some fallback);
  }

  unfoldable pub new_content : N → Content
  new_content cfg = record {
    default_response = build_content_response cfg none;
    conditions =
        map (λ c. build_content_condition c cfg) (tree.items (tree.child cfg (codes "conditions")));
  }

-- `contentRandomPercentage() <= cond.percentage`
unfoldable pub percentage_holds : ℤ → ℕ → Bool
percentage_holds (pos p) draw = leb draw p
percentage_holds (negsuc p) draw = false

module _ {Ctx : Type 0} (http : FastHttp Ctx) (peek_arg : Ctx → Bytes → Bytes) where
  unfoldable pub add_headers : List (Bytes × Bytes) → Ctx → Ctx
  add_headers [] ctx = ctx
  add_headers ((k, v) ∷ hs) ctx = add_headers hs (http.add_header k v ctx)

  abbrev write_body : Option Bytes → Ctx → Ctx
  write_body none ctx = ctx
  write_body (some b) ctx = http.set_body b ctx

  unfoldable pub write_to : ContentResponse → Ctx → Ctx
  write_to r ctx =
      let ctx' = write_body r.body (add_headers r.headers ctx) in
      if r.has_status then http.set_status_code r.status_code ctx' else ctx'

  -- The loop over the arguments of a condition.
  unfoldable pub query_matches : List (Bytes × Bytes) → Ctx → Bool
  query_matches [] ctx = true
  query_matches ((k, v) ∷ qs) ctx = bytes_eq (peek_arg ctx k) v && query_matches qs ctx

  -- Does the condition hold, and how many draws did the test take?
  unfoldable pub holds : ConditionKind → ℕ → Ctx → Bool × ℕ
  holds cond_none draw ctx = (false, 0)
  holds (cond_path p) draw ctx = (bytes_eq (http.path ctx) p, 0)
  holds (cond_query qs) draw ctx = (query_matches qs ctx, 0)
  holds (cond_percentage p) draw ctx = (percentage_holds p draw, 1)

  -- The loop of `Handle`; the next draw is number `i`.
  unfoldable pub handle_conditions :
      List ContentCondition → ContentResponse → (ℕ → ℕ) → ℕ → Ctx → Ctx
  handle_conditions [] default draws i ctx = write_to default ctx
  handle_conditions (c ∷ cs) default draws i ctx =
      let (hit, used) = holds c.kind (draws i) ctx in
      elim hit [
        | true ↦ write_to c.response ctx
        | false ↦ handle_conditions cs default draws (i + used) ctx
      ]

  unfoldable pub handle : Content → (ℕ → ℕ) → Ctx → Ctx
  handle h draws ctx = handle_conditions h.conditions h.default_response draws 0 ctx
