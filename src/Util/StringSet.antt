-- ===== src/Util/StringSet.antt =====
-- pkg/util/strings.go: a slice of strings that `Append` extends without duplication.
pub mod Laws
use fasthttpd.Base.{Bool, List, [], ◌∷◌, ◌++◌, Bytes, contains, if◌then◌else◌}

-- The two loops of `Append`; the inner one asks whether `v` is there.
unfoldable pub append : List Bytes → List Bytes → List Bytes
append ss [] = ss
append ss (v ∷ values) = append (if contains ss v then ss else ss ++ v ∷ []) values
