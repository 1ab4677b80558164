-- ===== src/CString.antt =====
-- The functions of the C library that the sources call on strings, over `Bytes`.
pub mod Strtol
pub mod Laws
use Prim.Native.Char.{code}
use Prim.Native.String.{String}
use messasy.Base.{
  ℕ, zero, suc, ◌+◌, ◌-◌, Bool, true, false, ◌&&◌, ◌||◌, not, Option, none, some, List, [], ◌∷◌,
  ltb, leb, ◌==◌, if◌then◌else◌, length, Bytes, map,
}

-- The code points of a literal.
abbrev pub bytes : String → Bytes
bytes String.[] = []
bytes (String.◌∷◌ c s) = code c ∷ bytes s

-- `strlen`
abbrev pub strlen : Bytes → ℕ
strlen = length

abbrev pub within : ℕ → ℕ → ℕ → Bool
within lo hi c = leb lo c && leb c hi

-- Space and tab, as the macro of libdgmail.h and the function of the C locale.
unfoldable pub isblank : ℕ → Bool
isblank c = c == b' ' || c == b'\t'

-- Tab, newline, vertical tab, form feed, carriage return and space.
unfoldable pub isspace : ℕ → Bool
isspace c = c == b' ' || within 9 13 c

unfoldable pub tolower : ℕ → ℕ
tolower c = if within b'A' b'Z' c then c + 32 else c

-- `*s == '\0'`
unfoldable pub is_empty : Bytes → Bool
is_empty [] = true
is_empty (_ ∷ _) = false

-- `strchr`: the suffix that starts with the first `c`, and NULL.
unfoldable pub strchr : Bytes → ℕ → Option Bytes
strchr [] c = none
strchr (x ∷ xs) c = let rest = strchr xs c in if x == c then some (x ∷ xs) else rest

-- `strcmp(a, b) == 0`
unfoldable pub str_eq : Bytes → Bytes → Bool
str_eq [] [] = true
str_eq (x ∷ xs) (y ∷ ys) = x == y && str_eq xs ys
str_eq _ _ = false

-- `strcasecmp(a, b) == 0`
unfoldable pub str_case_eq : Bytes → Bytes → Bool
unfolding tolower
str_case_eq [] [] = true
str_case_eq (x ∷ xs) (y ∷ ys) = tolower x == tolower y && str_case_eq xs ys
str_case_eq _ _ = false

-- `strncasecmp(a, b, strlen(a)) == 0`, and then `b + strlen(a)`.
unfoldable pub strip_case : Bytes → Bytes → Option Bytes
unfolding tolower
strip_case [] ys = some ys
strip_case (x ∷ xs) [] = none
strip_case (x ∷ xs) (y ∷ ys) =
    let rest = strip_case xs ys in if tolower x == tolower y then rest else none

-- The bytes of a buffer up to its first NUL.
unfoldable pub c_str : Bytes → Bytes
c_str [] = []
c_str (c ∷ cs) = let rest = c_str cs in if c == 0 then [] else c ∷ rest

-- `for (; isblank(*p); p++)`
unfoldable pub skip_blanks : Bytes → Bytes
unfolding isblank
skip_blanks [] = []
skip_blanks (c ∷ cs) = let rest = skip_blanks cs in if isblank c then rest else c ∷ cs

unfoldable pub has_byte : ℕ → Bytes → Bool
has_byte c [] = false
has_byte c (x ∷ xs) = x == c || has_byte c xs

-- `p + n`, for `n` at most the length.
unfoldable pub suffix : ℕ → Bytes → Bytes
suffix zero s = s
suffix (suc n) [] = []
suffix (suc n) (c ∷ cs) = suffix n cs
