-- ===== src/Address/Divide.antt =====
-- `divide_address_list` and `get_to` of libdgmail.c: the addresses of a field that lists some.
pub mod Joined
use messasy.Base.{
  ℕ, Bool, true, false, ◌&&◌, Option, none, some, List, [], ◌∷◌, ◌++◌, ◌==◌, if◌then◌else◌, Bytes,
}
use messasy.Address.{get_field, get_addrpart}

-- `MODE_N`, `MODE_Q`, `MODE_D` and `MODE_DQ`.
pub data Divide : Type 0 where
  divide_n divide_q divide_d divide_dq : Divide

unfoldable pub at_quote : Divide → Divide
at_quote divide_n = divide_d
at_quote divide_q = divide_n
at_quote divide_d = divide_n
at_quote divide_dq = divide_d

unfoldable pub at_escape : Divide → Divide
at_escape divide_n = divide_q
at_escape divide_q = divide_n
at_escape divide_d = divide_dq
at_escape divide_dq = divide_d

-- The modes behind any other character.
unfoldable pub at_other : Divide → Divide
at_other divide_n = divide_n
at_other divide_q = divide_n
at_other divide_d = divide_d
at_other divide_dq = divide_d

-- A comma that does not divide; the code falls through to the case of other characters.
unfoldable pub at_comma : Divide → Divide
unfolding at_other
at_comma divide_n = at_other divide_n
at_comma divide_q = at_other divide_n
at_comma divide_d = at_other divide_d
at_comma divide_dq = at_other divide_d

unfoldable pub next_mode : ℕ → Divide → Divide
unfolding at_quote at_escape at_comma at_other
next_mode c mode =
    if c == b'"'
    then at_quote mode
    else if c == b'\\'
    then at_escape mode
    else if c == b','
    then at_comma mode
    else at_other mode

unfoldable pub is_outside : Divide → Bool
is_outside divide_n = true
is_outside _ = false

-- The loop: `text` runs from `to_start` to `to_ptr`, and `array` holds the addresses so far. None
-- for a fault of `get_addrpart`.
unfoldable pub divide_loop : Divide → Bytes → List Bytes → Bytes → Option (List Bytes)
unfolding next_mode is_outside
divide_loop mode text array [] = elim (get_addrpart text) [
  | none ↦ none
  | some addr ↦ some (array ++ (addr ∷ []))
]
divide_loop mode text array (c ∷ str) = elim (c == b',' && is_outside mode) [
  | true ↦ elim (get_addrpart text) [
    | none ↦ none
    | some addr ↦ divide_loop (next_mode c mode) [] (array ++ (addr ∷ [])) str
  ]
  | false ↦ divide_loop (next_mode c mode) (text ++ (c ∷ [])) array str
]

unfoldable pub divide_address_list : Bytes → Option (List Bytes)
unfolding divide_loop
divide_address_list str = divide_loop divide_n [] [] str

unfoldable pub get_to : Bytes → Option (List Bytes × Option Bytes)
unfolding divide_address_list
get_to buftop = elim (get_field buftop) [
  | none ↦ none
  | some (rstr, nadr) ↦ elim (divide_address_list rstr) [
    | none ↦ none
    | some addr_array ↦ some (addr_array, nadr)
  ]
]
