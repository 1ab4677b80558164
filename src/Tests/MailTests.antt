-- ===== src/Tests/MailTests.antt =====
-- Examples of the transfer encodings.
use messasy.Base.{◌+◌, ◌*◌, ◌/◌, ◌≤◌, ◌≡◌, refl, some, List, [], ◌∷◌, length, arith}
use messasy.Mail.{decode_b64, encode_b64, b64_len, decode_qp}
use messasy.Mail.Base64.{decode_b64-encode_b64}
use messasy.Mail.Base64Size.{length-encode_b64}
use messasy.Mail.Quoted.{Piece, plain, escaped, soft_break, text, meaning, decode_qp-text}
use messasy.Tests.{bytes}

encode_test : encode_b64 (bytes "messasy") ≡ bytes "bWVzc2FzeQ=="
unfolding encode_b64
encode_test = refl

decode_test : decode_b64 (bytes "bWVz c2Fz\neQ==") ≡ some (bytes "messasy")
unfolding decode_b64
decode_test = refl

-- `hex2i` takes `G` for a digit.
qp_test : decode_qp (bytes "=1G") ≡ some (16 ∷ [])
unfolding decode_qp
qp_test = refl

decode_b64-encode_b64_example :
    decode_b64 (encode_b64 (0 ∷ 255 ∷ 128 ∷ 7 ∷ [])) ≡ some (0 ∷ 255 ∷ 128 ∷ 7 ∷ [])
decode_b64-encode_b64_example =
    decode_b64-encode_b64 (0 ∷ 255 ∷ 128 ∷ 7 ∷ [])
      (omega arith, (omega arith, (omega arith, (omega arith, tt))))

length-encode_b64_example :
    (length (encode_b64 (bytes "abcd")) ≡ (4 + 2) / 3 * 4)
    × (length (encode_b64 (bytes "abcd")) ≤ b64_len 4)
length-encode_b64_example = length-encode_b64 (bytes "abcd") (omega arith)

abbrev pieces : List Piece
pieces = plain 97 ∷ escaped 61 ∷ soft_break ∷ escaped 255 ∷ []

decode_qp-text_example : decode_qp (text pieces) ≡ some (meaning pieces)
decode_qp-text_example = decode_qp-text pieces (refl, (omega arith, (tt, (omega arith, tt))))
