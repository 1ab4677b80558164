-- ===== src/Mail/Quoted.antt =====
-- Quoted-printable as the library decodes it.
use Prim.Native.Nat.{bit_or}
use messasy.Base.{
  ℕ, ◌+◌, ◌-◌, ◌*◌, ◌/◌, ◌%◌, ◌<◌, ◌≡◌, refl, Bool, true, false, ◌&&◌, not, some, List, [], ◌∷◌,
  ◌==◌, leb, if◌then◌else◌, Bytes, All, arith,
}
use messasy.Mail.{hex2i, normal, qp_loop, decode_qp}
use messasy.Mail.Tables.{all_below, all_below-at, is_value, fields, or_four}

-- An upper-case digit of base 16.
unfoldable pub digit : ℕ → ℕ
digit d = if leb d 9 then b'0' + d else b'A' + (d - 10)

-- Bytes that stand for themselves, escaped bytes, and line ends that are none.
pub data Piece : Type 0 where
  plain escaped : ℕ → Piece
  soft_break : Piece

unfoldable pub text : List Piece → Bytes
unfolding digit
text [] = []
text ((plain c) ∷ ps) = c ∷ text ps
text ((escaped c) ∷ ps) = b'=' ∷ digit (c / 16) ∷ digit (c % 16) ∷ text ps
text (soft_break ∷ ps) = b'=' ∷ b'\r' ∷ b'\n' ∷ text ps

unfoldable pub meaning : List Piece → Bytes
meaning [] = []
meaning ((plain c) ∷ ps) = c ∷ meaning ps
meaning ((escaped c) ∷ ps) = c ∷ meaning ps
meaning (soft_break ∷ ps) = meaning ps

-- Only `=` must not stand for itself; an escape stands for a byte.
abbrev pub IsPiece : Piece → Type 0
IsPiece (plain c) = (c == b'=') ≡ false
IsPiece (escaped c) = c < 256
IsPiece soft_break = Unit

is_digit : ℕ → Bool
is_digit d = not (digit d == b'\r') && (not (digit d == b'\n') && is_value d (hex2i (digit d)))

digit-table : all_below 16 is_digit ≡ true
unfolding digit hex2i all_below is_digit
digit-table = refl

module _ (d : ℕ) (lt : d < 16) where
  digit_ok : is_digit d ≡ true
  digit_ok = all_below-at 16 is_digit d digit-table lt

  no_cr : (digit d == b'\r') ≡ false
  unfolding is_digit
  no_cr = ground (arith, digit_ok)

  no_lf : (digit d == b'\n') ≡ false
  unfolding is_digit
  no_lf = ground (arith, digit_ok)

  hex2i-digit : hex2i (digit d) ≡ some d
  unfolding is_digit
  hex2i-digit = ground (arith, digit_ok)

escaped_byte : (c : ℕ) → c < 256 → bit_or (c / 16 * 16) (c % 16) % 256 ≡ c
escaped_byte c lt =
    rw (fields 1024 16 or_four c (c / 16) (c % 16) (omega arith) refl refl) (omega arith)

qp_loop-text : (ps : List Piece) → All IsPiece ps → qp_loop normal (text ps) ≡ some (meaning ps)
unfolding qp_loop text meaning
qp_loop-text [] h = refl
qp_loop-text ((plain c) ∷ ps) (h, hs) = rw (qp_loop, h, qp_loop-text ps hs) refl
qp_loop-text (soft_break ∷ ps) (_, hs) = qp_loop-text ps hs
qp_loop-text ((escaped c) ∷ ps) (h, hs) =
    let hi : c / 16 < 16 = omega arith in
    let lo : c % 16 < 16 = omega arith in
    rw
      (
        qp_loop,
        no_cr (c / 16) hi,
        no_lf (c / 16) hi,
        hex2i-digit (c / 16) hi,
        hex2i-digit (c % 16) lo,
        escaped_byte c h,
        qp_loop-text ps hs,
      )
      refl

-- `decode_qp` gives back the bytes of a text of plain bytes other than `=`, of bytes escaped in
-- upper case, and of soft line breaks with CRLF.
pub decode_qp-text : (ps : List Piece) → All IsPiece ps → decode_qp (text ps) ≡ some (meaning ps)
unfolding decode_qp
decode_qp-text ps h = qp_loop-text ps h
