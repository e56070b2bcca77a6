-- ===== src/Filter/Header.antt =====
-- pkg/filter/header.go: headers of the request and the response are set, added and deleted.
pub mod Laws
use fasthttpd.Base.{◌-◌, ◌/◌, ap, List, [], ◌∷◌, map, if◌then◌else◌, set, Bytes, codes}
use fasthttpd.Tree.{Tree}

-- `fasthttpHeader`
pub record FastHttpHeader (H : Type 0) : Type 0 where
  pub set_bytes : Bytes → Bytes → H → H
  pub add_bytes : Bytes → Bytes → H → H
  pub del_bytes : Bytes → H → H

-- The keys and the values stand side by side.
pub record HeaderRules : Type 0 where
  pub set_headers : List (Bytes × Bytes)
  pub add_headers : List (Bytes × Bytes)
  pub del_keys : List Bytes

pub record HeaderFilter : Type 0 where
  pub request_rules : HeaderRules
  pub response_rules : HeaderRules

module _ {N : Type 0} (tree : Tree N) where
  abbrev text_entries : N → List (Bytes × Bytes)
  text_entries n = map (λ e. (e.0, tree.text e.1)) (tree.entries n)

  unfoldable pub new_header_handler : N → HeaderRules
  new_header_handler cfg = record {
    set_headers = text_entries (tree.child cfg (codes "set"));
    add_headers = text_entries (tree.child cfg (codes "add"));
    del_keys = map tree.text (tree.items (tree.child cfg (codes "del")));
  }

  unfoldable pub new_header_filter : N → HeaderFilter
  new_header_filter cfg = record {
    request_rules = new_header_handler (tree.child cfg (codes "request"));
    response_rules = new_header_handler (tree.child cfg (codes "response"));
  }

module _ {H : Type 0} (fh : FastHttpHeader H) where
  unfoldable pub set_all : List (Bytes × Bytes) → H → H
  set_all [] h = h
  set_all ((k, v) ∷ es) h = set_all es (fh.set_bytes k v h)

  unfoldable pub add_all : List (Bytes × Bytes) → H → H
  add_all [] h = h
  add_all ((k, v) ∷ es) h = add_all es (fh.add_bytes k v h)

  unfoldable pub del_all : List Bytes → H → H
  del_all [] h = h
  del_all (k ∷ ks) h = del_all ks (fh.del_bytes k h)

  unfoldable pub filter : HeaderRules → H → H
  filter r h = del_all r.del_keys (add_all r.add_headers (set_all r.set_headers h))
