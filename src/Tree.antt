-- ===== src/Tree.antt =====
-- The configuration trees of package `tree`, which is not part of the repository: what the code
-- reads of a node. A missing node is a node too.
use fasthttpd.Base.{Bool, List, Bytes, ℤ}

-- `Type()`, as far as the code tells the types apart.
pub data Kind : Type 0 where
  map_kind : Kind
  array_kind : Kind
  string_kind : Kind
  other_kind : Kind

pub record Tree (N : Type 0) : Type 0 where
  pub kind : N → Kind
  pub is_nil_node : N → Bool
  pub has : N → Bytes → Bool
  pub child : N → Bytes → N
  -- `Map()` in the order of a range, and `Array()`
  pub entries : N → List (Bytes × N)
  pub items : N → List N
  -- `Value().String()` and `Value().Int()`
  pub text : N → Bytes
  pub int : N → ℤ
