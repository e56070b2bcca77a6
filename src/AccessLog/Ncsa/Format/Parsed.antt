-- ===== src/AccessLog/Ncsa/Format/Parsed.antt =====
-- pkg/logger/accesslog/ncsa.go: parsed formats, and the lines that they write.
use fasthttpd.Base.{
  ℕ, ◌≡◌, Bool, false, ◌||◌, Option, none, some, List, [], ◌∷◌, ◌==◌, Bytes, ℤ, pos,
}
use fasthttpd.Util.Strftime.Total.{Extends}
use fasthttpd.AccessLog.Ncsa.{NcsaFunc}
use fasthttpd.AccessLog.Ncsa.Laws.{Logs}
use fasthttpd.AccessLog.Ncsa.Format.{Submatch}

abbrev pub any_r : List Submatch → Bool
any_r [] = false
any_r (ms ∷ rest) = elim ms.key [ none ↦ any_r rest | some k ↦ (k == b'r') || any_r rest ]

module _ (append_uint : Bytes → ℤ → Option Bytes)
    (appends_uint : (dst : Bytes) (n : ℕ) → Extends dst (append_uint dst (pos n))) (host : Bytes)
    (hostname : Bytes) where
  -- A function that is found, and only appends.
  abbrev Found : Option NcsaFunc → Type 0
  Found o = (f : NcsaFunc) × (o ≡ some f) × Logs f
