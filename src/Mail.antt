-- ===== src/Mail.antt =====
-- libdgmail.c: the transfer encodings of RFC 2045 as the library reads and writes them. A `char`
-- is a byte; what is stored in one is taken modulo 256. `malloc` does not fail.
pub mod Tables
pub mod Base64
pub mod Base64Size
pub mod Quoted
use Prim.Native.Nat.{bit_or}
use messasy.Base.{
  ◌^◌, ℕ, zero, suc, ◌+◌, ◌-◌, ◌*◌, ◌/◌, ◌%◌, Bool, true, false, ◌||◌, Option, none, some, List, [],
  ◌∷◌, ◌++◌, ◌==◌, leb, if◌then◌else◌, length, Bytes,
}
use messasy.CString.{within, isspace}

-- `hex2i`, none for -1.
unfoldable pub hex2i : ℕ → Option ℕ
hex2i c =
    if within b'0' b'9' c
    then some (c - b'0')
    else if within b'A' b'Z' c
    then some (c - b'A' + 10)
    else if within b'a' b'z' c
    then some (c - b'a' + 10)
    else none

-- `b64char2i`, none for -1.
unfoldable pub b64char2i : ℕ → Option ℕ
b64char2i c =
    if within b'A' b'Z' c
    then some (c - b'A')
    else if within b'a' b'z' c
    then some (c - b'a' + 26)
    else if within b'0' b'9' c
    then some (c - b'0' + 52)
    else if c == b'+'
    then some 62
    else if c == b'/'
    then some 63
    else none

-- The table `base64`, for an index below 64.
unfoldable pub base64 : ℕ → ℕ
base64 d =
    if leb d 25
    then b'A' + d
    else if leb d 51
    then b'a' + (d - 26)
    else if leb d 61
    then b'0' + (d - 52)
    else if d == 62
    then b'+'
    else b'/'

-- A byte in front of what is decoded behind it.
abbrev pub cons_some : ℕ → Option Bytes → Option Bytes
cons_some c none = none
cons_some c (some cs) = some (c ∷ cs)

-- The loop of `decode_b64`: `i`, and `d[0]`, `d[1]` and `d[2]`. None for a decoding error.
unfoldable pub b64_loop : ℕ → ℕ → ℕ → ℕ → Bytes → Option Bytes
unfolding b64char2i isspace
b64_loop i d0 d1 d2 [] = some []
b64_loop i d0 d1 d2 (c ∷ cs) = elim (c == b'=' || c == b'?') [
  | true ↦ some []
  | false ↦ elim (isspace c) [
    | true ↦ b64_loop i d0 d1 d2 cs
    | false ↦ elim (b64char2i c) [
      | none ↦ none
      | some d ↦ elim i [
        | zero ↦ b64_loop 1 d d1 d2 cs
        | suc zero ↦ cons_some (bit_or (d0 * 4) (d / 16) % 256) (b64_loop 2 d0 d d2 cs)
        | suc (suc zero) ↦ cons_some (bit_or (d1 * 16) (d / 4) % 256) (b64_loop 3 d0 d1 d cs)
        | suc (suc (suc _)) ↦ cons_some (bit_or (d2 * 64) d % 256) (b64_loop 0 d0 d1 d2 cs)
      ]
    ]
  ]
]

unfoldable pub decode_b64 : Bytes → Option Bytes
unfolding b64_loop
decode_b64 src = b64_loop 0 0 0 0 src

-- `for (; bcnt < blen; bcnt++) { bstr[bcnt] = '='; }`
unfoldable pub pad : ℕ → Bytes
pad zero = []
pad (suc n) = b'=' ∷ pad n

-- The characters of a byte and of the two bytes next to it.
unfoldable pub first_char : ℕ → ℕ
unfolding base64
first_char a = base64 (a / 4 % 64)

unfoldable pub second_char : ℕ → ℕ → ℕ
unfolding base64
second_char a b = base64 (a % 4 * 16 + b / 16 % 16)

unfoldable pub third_char : ℕ → ℕ → ℕ
unfolding base64
third_char b c = base64 (b % 16 * 4 + c / 64 % 4)

-- The loop of `encode_b64` from `str[cnt]` on.
unfoldable pub encode_loop : ℕ → ℕ → Bytes → Bytes
unfolding pad first_char second_char third_char base64
encode_loop blen bcnt [] = []
encode_loop blen bcnt (a ∷ []) = first_char a ∷ base64 (a % 4 * 16) ∷ pad (blen - (bcnt + 2))
encode_loop blen bcnt (a ∷ b ∷ []) =
    first_char a ∷ second_char a b ∷ base64 (b % 16 * 4) ∷ pad (blen - (bcnt + 3))
encode_loop blen bcnt (a ∷ b ∷ c ∷ str) =
    first_char a
    ∷ second_char a b
    ∷ third_char b c
    ∷ base64 (c % 64)
    ∷ encode_loop blen (bcnt + 4) str

-- The size of the buffer of `encode_b64`, less the NUL. The product is an `int`: where it overflows
-- it is taken modulo 2 ^ 32 here.
unfoldable pub b64_len : ℕ → ℕ
b64_len rlen =
    let blen = rlen * 4 % 2 ^ 32 / 3 + (if rlen % 3 == 0 then 0 else 1) in blen + (4 - blen % 4)

unfoldable pub encode_b64 : Bytes → Bytes
unfolding encode_loop b64_len
encode_b64 str = encode_loop (b64_len (length str)) 0 str

-- `STATE_NORMAL`, `STATE_QUOTE1` and `STATE_QUOTE2`, which keeps `d1`.
pub data QpState : Type 0 where
  normal quote1 : QpState
  quote2 : ℕ → QpState

-- The loop of `decode_qp`; none for a text that ends inside an escape.
unfoldable pub qp_loop : QpState → Bytes → Option Bytes
unfolding hex2i
qp_loop normal [] = some []
qp_loop quote1 [] = none
qp_loop (quote2 d1) [] = none
qp_loop normal (c ∷ cs) = elim (c == b'=') [
  | true ↦ qp_loop quote1 cs
  | false ↦ cons_some c (qp_loop normal cs)
]
qp_loop quote1 (c ∷ cs) = elim (c == b'\r') [
  | true ↦ qp_loop quote1 cs
  | false ↦ elim (c == b'\n') [
    | true ↦ qp_loop normal cs
    | false ↦ elim (hex2i c) [
      | none ↦ cons_some c (qp_loop normal cs)
      | some d1 ↦ qp_loop (quote2 d1) cs
    ]
  ]
]
qp_loop (quote2 d1) (c ∷ cs) = elim (hex2i c) [
  | none ↦ cons_some (bit_or (d1 * 16) c % 256) (qp_loop normal cs)
  | some d2 ↦ cons_some (bit_or (d1 * 16) d2 % 256) (qp_loop normal cs)
]

unfoldable pub decode_qp : Bytes → Option Bytes
unfolding qp_loop
decode_qp src = qp_loop normal src

-- `check_7bit`: a byte of eight bits occurs.
unfoldable pub check_7bit : Bytes → Bool
check_7bit [] = false
check_7bit (c ∷ cs) = leb 128 c || check_7bit cs
