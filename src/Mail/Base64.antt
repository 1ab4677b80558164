-- ===== src/Mail/Base64.antt =====
-- Base64 as the library decodes it against Base64 as the library encodes it.
use Prim.Native.Nat.{bit_or}
use messasy.Base.{
  ℕ, zero, suc, ◌+◌, ◌-◌, ◌*◌, ◌/◌, ◌%◌, ◌<◌, ◌≡◌, refl, ◌∙◌, ap, Bool, true, false, ◌||◌, ◌&&◌,
  not, some, [], ◌∷◌, ◌==◌, length, Bytes, All, arith,
}
use messasy.CString.{isspace}
use messasy.Mail.Tables.{all_below, all_below-at, is_value, fields, or_two, or_four, or_six}
use messasy.Mail.{
  b64char2i, base64, cons_some, b64_loop, decode_b64, pad, first_char, second_char, third_char,
  encode_loop, b64_len, encode_b64,
}

-- A character of the table is no end, no space, and stands for its index.
stands_for : ℕ → ℕ → Bool
stands_for c d = not (c == b'=' || c == b'?') && not (isspace c) && is_value d (b64char2i c)

base64-table : all_below 64 (λ d. stands_for (base64 d) d) ≡ true
unfolding all_below stands_for base64 b64char2i isspace
base64-table = refl

byte_two : (a : ℕ) → a < 256 → bit_or (a / 4 % 64 * 4) (a % 4 * 16 / 16) % 256 ≡ a
byte_two a lt =
    let same =
      fields 256 4 or_two a (a / 4 % 64) (a % 4 * 16 / 16) lt (omega arith) (omega arith) in
    rw same (omega arith)

byte_two_more :
    (a b : ℕ) → a < 256 → bit_or (a / 4 % 64 * 4) ((a % 4 * 16 + b / 16 % 16) / 16) % 256 ≡ a
byte_two_more a b lt =
    let same =
      fields 256 4 or_two a (a / 4 % 64) ((a % 4 * 16 + b / 16 % 16) / 16) lt (omega arith)
        (omega arith) in
    rw same (omega arith)

-- The high bits that the first byte left in the second character are cut off.
byte_four :
    (a b c : ℕ)
    → b < 256
    → c < 4
    → bit_or ((a % 4 * 16 + b / 16 % 16) * 16) ((b % 16 * 4 + c) / 4) % 256 ≡ b
byte_four a b c lt lc =
    let same =
      fields 1024 16 or_four (a % 4 * 256 + b) (a % 4 * 16 + b / 16 % 16) ((b % 16 * 4 + c) / 4)
        (omega arith) (omega arith) (omega arith) in
    rw same (omega arith)

byte_four_last :
    (a b : ℕ) → b < 256 → bit_or ((a % 4 * 16 + b / 16 % 16) * 16) (b % 16 * 4 / 4) % 256 ≡ b
byte_four_last a b lt =
    let same =
      fields 1024 16 or_four (a % 4 * 256 + b) (a % 4 * 16 + b / 16 % 16) (b % 16 * 4 / 4)
        (omega arith) (omega arith) (omega arith) in
    rw same (omega arith)

byte_six : (b c : ℕ) → c < 256 → bit_or ((b % 16 * 4 + c / 64 % 4) * 64) (c % 64) % 256 ≡ c
byte_six b c lt =
    let same =
      fields 4096 64 or_six (b % 16 * 256 + c) (b % 16 * 4 + c / 64 % 4) (c % 64) (omega arith)
        (omega arith) (omega arith) in
    rw same (omega arith)

module _ (d : ℕ) (lt : d < 64) where
  stands : stands_for (base64 d) d ≡ true
  stands = all_below-at 64 _ d base64-table lt

  no_end : (base64 d == b'=' || base64 d == b'?') ≡ false
  unfolding stands_for
  no_end = ground (arith, stands)

  no_space : isspace (base64 d) ≡ false
  unfolding stands_for
  no_space = ground (arith, stands)

  b64char2i-base64 : b64char2i (base64 d) ≡ some d
  unfolding stands_for
  b64char2i-base64 = ground (arith, stands)

  module _ (d0 d1 d2 : ℕ) (cs : Bytes) where
    loop_zero : b64_loop 0 d0 d1 d2 (base64 d ∷ cs) ≡ b64_loop 1 d d1 d2 cs
    unfolding b64_loop
    loop_zero = rw (b64_loop, no_end, no_space, b64char2i-base64) refl

    loop_one :
        b64_loop 1 d0 d1 d2 (base64 d ∷ cs)
        ≡ cons_some (bit_or (d0 * 4) (d / 16) % 256) (b64_loop 2 d0 d d2 cs)
    unfolding b64_loop
    loop_one = rw (b64_loop, no_end, no_space, b64char2i-base64) refl

    loop_two :
        b64_loop 2 d0 d1 d2 (base64 d ∷ cs)
        ≡ cons_some (bit_or (d1 * 16) (d / 4) % 256) (b64_loop 3 d0 d1 d cs)
    unfolding b64_loop
    loop_two = rw (b64_loop, no_end, no_space, b64char2i-base64) refl

    loop_three :
        b64_loop 3 d0 d1 d2 (base64 d ∷ cs)
        ≡ cons_some (bit_or (d2 * 64) d % 256) (b64_loop 0 d0 d1 d2 cs)
    unfolding b64_loop
    loop_three = rw (b64_loop, no_end, no_space, b64char2i-base64) refl

b64_loop-pad : (i d0 d1 d2 n : ℕ) → b64_loop i d0 d1 d2 (pad n) ≡ some []
unfolding b64_loop pad
b64_loop-pad i d0 d1 d2 zero = refl
b64_loop-pad i d0 d1 d2 (suc n) = refl

module _ (x y : ℕ) (lx : x < 64) (ly : y < 64) where
  two_chars :
      (d0 d1 d2 : ℕ) (cs : Bytes)
      → b64_loop 0 d0 d1 d2 (base64 x ∷ base64 y ∷ cs)
        ≡ cons_some (bit_or (x * 4) (y / 16) % 256) (b64_loop 2 x y d2 cs)
  two_chars d0 d1 d2 cs = loop_zero x lx d0 d1 d2 (base64 y ∷ cs) ∙ loop_one y ly x d1 d2 cs

  three_chars :
      (z : ℕ) (d0 d1 d2 : ℕ) (cs : Bytes)
      → z < 64
      → b64_loop 0 d0 d1 d2 (base64 x ∷ base64 y ∷ base64 z ∷ cs)
        ≡ cons_some
            (bit_or (x * 4) (y / 16) % 256)
            (cons_some (bit_or (y * 16) (z / 4) % 256) (b64_loop 3 x y z cs))
  three_chars z d0 d1 d2 cs lz =
      two_chars d0 d1 d2 (base64 z ∷ cs) ∙ ap (cons_some _) (loop_two z lz x y d2 cs)

  four_chars :
      (z w : ℕ) (d0 d1 d2 : ℕ) (cs : Bytes)
      → z < 64
      → w < 64
      → b64_loop 0 d0 d1 d2 (base64 x ∷ base64 y ∷ base64 z ∷ base64 w ∷ cs)
        ≡ cons_some (bit_or (x * 4) (y / 16) % 256) (
            cons_some
              (bit_or (y * 16) (z / 4) % 256)
              (cons_some (bit_or (z * 64) w % 256) (b64_loop 0 x y z cs)))
  four_chars z w d0 d1 d2 cs lz lw =
      three_chars z d0 d1 d2 (base64 w ∷ cs) lz
      ∙ ap
          (λ r.
            cons_some (bit_or (x * 4) (y / 16) % 256) (cons_some (bit_or (y * 16) (z / 4) % 256) r))
          (loop_three w lw x y z cs)

b64_loop-encode_loop :
    (blen bcnt : ℕ) (s : Bytes) (d0 d1 d2 : ℕ)
    → All (λ c. c < 256) s
    → b64_loop 0 d0 d1 d2 (encode_loop blen bcnt s) ≡ some s
unfolding encode_loop b64_loop first_char second_char third_char
b64_loop-encode_loop blen bcnt [] d0 d1 d2 h = refl
b64_loop-encode_loop blen bcnt (a ∷ []) d0 d1 d2 (ha, _) =
    let n = blen - (bcnt + 2) in
    rw
      (
        two_chars (a / 4 % 64) (a % 4 * 16) (omega arith) (omega arith) d0 d1 d2 (pad n),
        b64_loop-pad 2 (a / 4 % 64) (a % 4 * 16) d2 n,
        byte_two a ha,
      )
      refl
b64_loop-encode_loop blen bcnt (a ∷ b ∷ []) d0 d1 d2 (ha, (hb, _)) =
    let n = blen - (bcnt + 3) in
    let y = a % 4 * 16 + b / 16 % 16 in
    rw
      (
        three_chars (a / 4 % 64) y (omega arith) (omega arith) (b % 16 * 4) d0 d1 d2 (pad n)
            (omega arith),
        b64_loop-pad 3 (a / 4 % 64) y (b % 16 * 4) n,
        byte_two_more a b ha,
        byte_four_last a b hb,
      )
      refl
b64_loop-encode_loop blen bcnt (a ∷ b ∷ c ∷ s) d0 d1 d2 (ha, (hb, (hc, hs))) =
    let y = a % 4 * 16 + b / 16 % 16 in
    let z = b % 16 * 4 + c / 64 % 4 in
    rw
      (
        four_chars (a / 4 % 64) y (omega arith) (omega arith) z (c % 64) d0 d1 d2
            (encode_loop blen (bcnt + 4) s) (omega arith) (omega arith),
        b64_loop-encode_loop blen (bcnt + 4) s (a / 4 % 64) y z hs,
        byte_two_more a b ha,
        byte_four a b (c / 64 % 4) hb (omega arith),
        byte_six b c hc,
      )
      refl

-- `decode_b64` gives back every string of bytes that `encode_b64` has encoded.
pub decode_b64-encode_b64 : (s : Bytes) → All (λ c. c < 256) s → decode_b64 (encode_b64 s) ≡ some s
unfolding decode_b64 encode_b64
decode_b64-encode_b64 s h = b64_loop-encode_loop (b64_len (length s)) 0 s 0 0 0 h
