-- ===== src/Base/Text.antt =====
-- The text functions of Python that the services use.
use Prim.Native.Nat.{ℕ}
use Prim.Native.Char.{Char, code}
use Prim.Native.String.{String}
use mathlib.Core.Bool.{Bool, true, false, ◌&&◌, ◌||◌}
use text.Mathlib.Text.{◌==◌}
use ldb_backend_hack.Base.Equality.{if◌then◌else◌, leb, nat_eq}

-- `s.replace(" ", "")`
unfoldable pub remove_spaces : String → String
remove_spaces String.[] = String.[]
remove_spaces (String.◌∷◌ c s) =
    let rest = remove_spaces s in if String.◌∷◌ c String.[] == " " then rest else String.◌∷◌ c rest

abbrev same : ℕ → ℕ → Bool
same m n = leb m n && leb n m

-- What `str.isspace` tells of a character of Latin-1, in which headers are decoded.
abbrev pub is_space : Char → Bool
is_space c =
    let n = code c in (leb 9 n && leb n 13) || (leb 28 n && leb n 32) || same 133 n || same 160 n

abbrev is_blank : String → Bool
is_blank String.[] = true
is_blank (String.◌∷◌ c s) = false

unfoldable pub lstrip : String → String
lstrip String.[] = String.[]
lstrip (String.◌∷◌ c s) = let rest = lstrip s in if is_space c then rest else String.◌∷◌ c s

unfoldable pub rstrip : String → String
rstrip String.[] = String.[]
rstrip (String.◌∷◌ c s) =
    let rest = rstrip s in if is_space c && is_blank rest then String.[] else String.◌∷◌ c rest

-- `s.strip()`
abbrev pub strip : String → String
strip s = lstrip (rstrip s)

-- `s.split(",")[0]`
unfoldable pub before_comma : String → String
before_comma String.[] = String.[]
before_comma (String.◌∷◌ c s) =
    let rest = before_comma s in
    if String.◌∷◌ c String.[] == "," then String.[] else String.◌∷◌ c rest
