-- ===== src/CString/Strtol.antt =====
-- `strtol` of the C library in base 10, where a `long` has 64 bits.
use messasy.Base.{
  ℕ, suc, ◌+◌, ◌-◌, ◌*◌, Bool, true, false, [], ◌∷◌, ltb, ◌==◌, if◌then◌else◌, Bytes,
}
use messasy.CString.{within, isspace}

-- A `long`: whether it is negative, and its magnitude.
pub record Long : Type 0 where
  pub negative : Bool
  pub magnitude : ℕ

abbrev pub long_max : ℕ
long_max = 9223372036854775807

unfoldable pub is_digit : ℕ → Bool
is_digit c = within b'0' b'9' c

-- The digits at the start of a string, after a number that is read.
unfoldable pub read_digits : ℕ → Bytes → ℕ × Bytes
unfolding is_digit
read_digits n [] = (n, [])
read_digits n (c ∷ s) =
    let rest = read_digits (n * 10 + (c - b'0')) s in if is_digit c then rest else (n, c ∷ s)

unfoldable pub starts_digit : Bytes → Bool
unfolding is_digit
starts_digit [] = false
starts_digit (c ∷ _) = is_digit c

unfoldable pub skip_spaces : Bytes → Bytes
unfolding isspace
skip_spaces [] = []
skip_spaces (c ∷ s) = let rest = skip_spaces s in if isspace c then rest else c ∷ s

-- The value of `strtol`, which stops at `LONG_MAX` and at `LONG_MIN`.
unfoldable pub clamp : Bool → ℕ → ℕ
clamp negative n =
    let bound = if negative then suc long_max else long_max in if ltb bound n then bound else n

-- The number after the sign; with no digit the rest is the whole string, `start`.
unfoldable pub read_number : Bool → Bytes → Bytes → Long × Bytes
unfolding clamp
read_number negative start s =
    if starts_digit s
    then (
      record { negative = negative; magnitude = clamp negative ((read_digits 0 s).0) },
      (read_digits 0 s).1,
    )
    else (record { negative = false; magnitude = 0 }, start)

unfoldable pub read_sign : Bytes → Bytes → Long × Bytes
read_sign start [] = read_number false start []
read_sign start (c ∷ s) =
    if c == b'-'
    then read_number true start s
    else if c == b'+'
    then read_number false start s
    else read_number false start (c ∷ s)

-- `strtol(str, &tmp, 10)`
unfoldable pub strtol : Bytes → Long × Bytes
unfolding read_sign
strtol s = read_sign s (skip_spaces s)
