-- ===== src/Config/Tests.antt =====
-- pkg/config: the theorems about loading, editing and completing at small configurations.
use fasthttpd.Base.{
  ◌*◌, ◌%◌, ◌^◌, ◌<◌, ◌≡◌, refl, ◌≢◌, true, Option, none, some, [], ◌∷◌, ◌++◌, arith, if◌then◌else◌,
  length, All, Bytes, codes, bytes_eq, bytes_eq_iff, has_prefix, contains, pos,
}
use fasthttpd.Std.{to_upper}
use fasthttpd.Util.Padding.Digits.{decimal}
use fasthttpd.Config.Load.{
  Files, loaded, failed, circular, out_of_fuel, load_tree_maps, load_tree_maps_path, load_abs,
  unmarshal_tree_maps, expand_includes, include_docs, load_paths,
}
use fasthttpd.Config.Load.Total.{load_tree_maps-ne-out_of_fuel}
use fasthttpd.Config.Load.Expanded.{IsExpanded, load_tree_maps-IsExpanded}
use fasthttpd.Config.Size.{parse_size, signed64}
use fasthttpd.Config.Size.Match.{kilo, factor}
use fasthttpd.Config.Size.Read.{parse_size_spelled}
use fasthttpd.Config.Edit.{
  complete, complete_left, complete_right, split_equals, is_literal, is_int,
}
use fasthttpd.Config.Edit.Completed.{complete_spellings}
use fasthttpd.Config.Settings.{
  Settings, Surroundings, ok, normalize, normalize_ssl, check_timeout, check_routes, keys,
  from_tree_map, from_tree_maps, set_defaults,
}
use fasthttpd.Config.Samples.{no_settings}
use fasthttpd.Config.Settings.Checked.{IsNormal, from_tree_maps-IsNormal}

-- The files "a", which includes "b", and "b", which includes nothing; a document is the pattern that
-- it includes, or empty.
abbrev two_files : Bytes → Option Bytes
two_files p =
    if bytes_eq p (codes "a")
    then some (codes "b")
    else if bytes_eq p (codes "b")
    then some []
    else none

abbrev small_files : Files Bytes
small_files = record {
  abs_path = λ p. some p;
  read_file = two_files;
  decode = λ text. some (text ∷ []);
  include = λ doc. doc;
  glob = λ p. some (p ∷ []);
}

two_files-listed :
    (p text : Bytes) → two_files p ≡ some text → contains (codes "a" ∷ codes "b" ∷ []) p ≡ true
unfolding contains
two_files-listed p text h = ground (
  arith,
  bytes_eq_iff p (codes "a"),
  bytes_eq_iff p (codes "b"),
  bytes_eq_iff (codes "a") p,
  bytes_eq_iff (codes "b") p,
)

load_tree_maps-ne-out_of_fuel_example : load_tree_maps small_files 3 (codes "a") ≢ out_of_fuel
load_tree_maps-ne-out_of_fuel_example =
    load_tree_maps-ne-out_of_fuel small_files (codes "a" ∷ codes "b" ∷ []) two_files-listed 3
      (codes "a") (omega arith)

small_loaded : load_tree_maps small_files 3 (codes "a") ≡ loaded ([] ∷ [])
unfolding load_tree_maps load_tree_maps_path load_abs unmarshal_tree_maps expand_includes
    include_docs load_paths contains bytes_eq
small_loaded = refl

load_tree_maps-IsExpanded_example : IsExpanded small_files ([] ∷ [])
load_tree_maps-IsExpanded_example = load_tree_maps-IsExpanded small_files 3 (codes "a") small_loaded

-- A file that includes itself.
circle :
    load_tree_maps (record small_files { read_file = λ p. some (codes "a") }) 5 (codes "a")
    ≡ failed (circular (codes "a" ∷ []))
unfolding load_tree_maps load_tree_maps_path load_abs unmarshal_tree_maps expand_includes
    include_docs load_paths contains bytes_eq
circle = refl

four_k :
    to_upper (codes " 4 kib ")
    ≡ codes " " ++ (decimal 20 4 ++ (codes " " ++ (codes "KIB" ++ codes " ")))
unfolding to_upper decimal
four_k = refl

parse_size_spelled_example :
    (parse_size (codes " 4 kib ") ≡ some (signed64 (4 * factor kilo % 2 ^ 64)))
    × (4 * factor kilo < 2 ^ 63 → parse_size (codes " 4 kib ") ≡ some (pos (4 * factor kilo)))
parse_size_spelled_example =
    parse_size_spelled (codes " ") (codes " ") (codes " ") (codes " 4 kib ") 4 kilo true true
      (omega arith) (refl, tt) (refl, tt) (refl, tt) four_k

-- Quoting without escapes.
abbrev plain_quote : Bytes → Bytes
plain_quote s = b'"' ∷ s ++ b'"' ∷ []

complete_spellings_example :
    (complete plain_quote (codes "root=./public")
      ≡ codes ".[].root=" ++ complete_right plain_quote (codes "./public"))
    × (complete plain_quote (codes ".root=./public") ≡ complete plain_quote (codes "root=./public"))
    × (complete plain_quote (codes ".[].root=./public")
        ≡ complete plain_quote (codes "root=./public"))
    × (complete plain_quote (complete plain_quote (codes "root=./public"))
        ≡ complete plain_quote (codes "root=./public"))
    × (is_literal (complete_right plain_quote (codes "./public")) ≡ true)
unfolding has_prefix
complete_spellings_example =
    complete_spellings plain_quote (λ s. refl) (codes "root") (codes "./public")
      (refl, (refl, (refl, (refl, tt)))) refl refl

completed_root :
    complete plain_quote (codes "root=./public")
    ≡ codes ".[].root=" ++ b'"' ∷ codes "./public" ++ b'"' ∷ []
unfolding complete complete_left complete_right split_equals is_literal is_int has_prefix bytes_eq
completed_root = refl

abbrev home : Surroundings
home = record { user_cert_dir = some (codes "/c/cert"); parse_duration = λ s. some (pos 30) }

-- A document is the host.
abbrev read_host : Bytes → Settings Bytes → Option (Settings Bytes)
read_host doc cfg = some (record cfg { host = doc })

abbrev one_host : Settings Bytes
one_host = record (set_defaults no_settings) {
  host = codes "a.example";
  ssl = record no_settings.ssl { auto_cert_cache_dir = codes "/c/cert" };
}

one_host-made :
    from_tree_maps home no_settings read_host (codes "a.example" ∷ []) ≡ ok (one_host ∷ [])
unfolding from_tree_maps from_tree_map set_defaults normalize normalize_ssl check_timeout
    check_routes keys contains bytes_eq
one_host-made = refl

from_tree_maps-IsNormal_example : (length (one_host ∷ []) ≡ 1) × All (IsNormal home) (one_host ∷ [])
from_tree_maps-IsNormal_example =
    from_tree_maps-IsNormal home no_settings read_host (codes "a.example" ∷ []) (one_host ∷ [])
      one_host-made
