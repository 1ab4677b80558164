-- ===== src/Command.antt =====
-- msy_config.c: `cmd_strrep`, which takes the command of a module apart into the arguments of
-- `execv`, and the check of a password. The pointers that `cmd_strrep` stores are suffixes of the
-- copy of the string; what they point at ends at the next separator, which is overwritten by NUL.
pub mod Strrep
use messasy.Base.{
  ℕ, zero, suc, Bool, true, false, ◌&&◌, Option, none, some, List, [], ◌∷◌, ◌++◌, map, ◌==◌, ltb,
  if◌then◌else◌, Bytes,
}
use messasy.CString.{bytes, has_byte}

-- `len - 1`: the separators.
unfoldable pub count_sep : ℕ → Bytes → ℕ
count_sep sep [] = 0
count_sep sep (c ∷ s) = let rest = count_sep sep s in if c == sep then suc rest else rest

-- The loop over the string: the pointers behind each separator.
unfoldable pub starts : ℕ → Bytes → List Bytes
starts sep [] = []
starts sep (c ∷ s) = let rest = starts sep s in if c == sep then s ∷ rest else rest

-- The string at a pointer, once the separators are NUL.
unfoldable pub string_at : ℕ → Bytes → Bytes
string_at sep [] = []
string_at sep (c ∷ s) = let rest = string_at sep s in if c == sep then [] else c ∷ rest

unfoldable pub nulls : ℕ → List (Option Bytes)
nulls zero = []
nulls (suc n) = none ∷ nulls n

unfoldable pub arguments : ℕ → Bytes → List Bytes
unfolding starts string_at
arguments sep str = map (string_at sep) (str ∷ starts sep str)

-- The array, whose last `epoo` pointers are NULL.
unfoldable pub cmd_strrep : Bytes → ℕ → ℕ → Option (List (Option Bytes))
unfolding arguments nulls
cmd_strrep str sep epoo =
    if ltb epoo 1 then none else some (map some (arguments sep str) ++ nulls epoo)

-- `CHAR_PASSWORD`
abbrev pub char_password : Bytes
char_password = bytes "abcdefghijklmnopqrstuvwxyzABCDEFGHIJKLMNOPQRSTUVWXYZ0123456789"

unfoldable pub are_usable : Bytes → Bool
are_usable [] = true
are_usable (c ∷ s) = has_byte c char_password && are_usable s

unfoldable pub is_usable_password : Bytes → Bool
unfolding are_usable
is_usable_password [] = false
is_usable_password (c ∷ s) = are_usable (c ∷ s)
