-- ===== src/Config/Edit.antt =====
-- pkg/config/load.go: edit expressions are completed before package tree applies them.
pub mod Completed
use fasthttpd.Base.{
  ℕ, suc, ◌+◌, ◌-◌, ◌/◌, ◌^◌, ap, Bool, true, false, not, ◌&&◌, ◌||◌, Option, none, some, List, [],
  ◌∷◌, ◌++◌, map, leb, ◌==◌, if◌then◌else◌, take, is_nil, Bytes, codes, bytes_eq, has_prefix,
}
use fasthttpd.Util.Padding.Digits.{parse_from}
use fasthttpd.Config.Size.{is_digit}

-- `strings.SplitN(expr, "=", 2)`; `none` where there is no equals sign.
unfoldable pub split_equals : Bytes → Option (Bytes × Bytes)
split_equals [] = none
split_equals (c ∷ s) =
    let rest : Option (Bytes × Bytes) = elim (split_equals s) [
      | none ↦ none
      | some (l, r) ↦ some (c ∷ l, r)
    ] in
    if c == b'=' then some ([], s) else rest

-- The `switch` on the left side.
unfoldable pub complete_left : Bytes → Bytes
complete_left l =
    if has_prefix l (codes ".[")
    then l
    else if has_prefix l (codes ".")
    then codes ".[]" ++ l
    else codes ".[]." ++ l

abbrev all_digits : Bytes → Bool
all_digits [] = true
all_digits (c ∷ s) = is_digit c && all_digits s

-- Digits of a number up to `limit`.
abbrev is_number : ℕ → Bytes → Bool
is_number limit ds = not (is_nil ds) && all_digits ds && leb (parse_from 0 ds) limit

-- Does `strconv.Atoi` take the text?
unfoldable pub is_int : Bytes → Bool
is_int [] = false
is_int (c ∷ s) =
    if c == b'-'
    then is_number (2 ^ 63) s
    else if c == b'+'
    then is_number (2 ^ 63 - 1) s
    else is_number (2 ^ 63 - 1) (c ∷ s)

-- The values that are left as they are.
unfoldable pub is_literal : Bytes → Bool
is_literal r =
    has_prefix r (b'"' ∷ [])
    || has_prefix r (codes "[")
    || has_prefix r (codes "{")
    || bytes_eq r (codes "true")
    || bytes_eq r (codes "false")
    || bytes_eq r (codes "null")
    || is_int r

-- `quote` is `strconv.Quote`.
module _ (quote : Bytes → Bytes) where
  unfoldable pub complete_right : Bytes → Bytes
  complete_right r = if is_literal r then r else quote r

  unfoldable pub complete : Bytes → Bytes
  complete expr = elim (split_equals expr) [
    | none ↦ expr
    | some (l, r) ↦ complete_left l ++ b'=' ∷ complete_right r
  ]

pub data EditError : Type 0 where
  refused : Bytes → EditError
  not_an_array : EditError
  not_a_map : ℕ → EditError

pub data Edited (A : Type 0) : Type 0 where
  edited : A → Edited A
  failed : EditError → Edited A

-- What `Edit` uses of package tree: an array of nodes, a map as a node, the two type assertions and
-- `tree.Edit`.
pub record Nodes (Map N : Type 0) : Type 0 where
  pub array : List N → N
  pub node_of : Map → N
  pub items : N → Option (List N)
  pub map_of : N → Option Map
  pub edit : N → Bytes → Option N

module _ {Map N : Type 0} (nodes : Nodes Map N) (quote : Bytes → Bytes) where
  open nodes use {array, node_of, items, map_of, edit}

  -- The loop over the expressions.
  unfoldable pub edit_all : List Bytes → N → Edited N
  edit_all [] n = edited n
  edit_all (expr ∷ exprs) n = elim (edit n (complete quote expr)) [
    | none ↦ failed (refused (complete quote expr))
    | some n' ↦ edit_all exprs n'
  ]

  -- The loop over the documents, from the index on.
  unfoldable pub maps_from : ℕ → List N → Edited (List Map)
  maps_from i [] = edited []
  maps_from i (e ∷ es) = elim (map_of e) [
    | none ↦ failed (not_a_map i)
    | some m ↦ elim (maps_from (suc i) es) [ failed err ↦ failed err | edited ms ↦ edited (m ∷ ms) ]
  ]

  unfoldable pub edit_tree_maps : List Map → List Bytes → Edited (List Map)
  edit_tree_maps ms exprs =
      if is_nil exprs then edited ms else elim (edit_all exprs (array (map node_of ms))) [
        | failed err ↦ failed err
        | edited n ↦ elim (items n) [ none ↦ failed not_an_array | some es ↦ maps_from 0 es ]
      ]
