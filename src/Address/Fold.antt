-- ===== src/Address/Fold.antt =====
-- Folded header fields.
use messasy.Base.{
  ℕ, zero, suc, ◌+◌, ◌<◌, ◌≡◌, refl, ap, ◌∙◌, true, false, Option, some, List, [], ◌∷◌, ◌++◌,
  append_assoc, ◌==◌, length, length-append, Bytes, All, arith,
}
use messasy.CString.{has_byte, skip_blanks}
use messasy.Address.{take_line, chop_cr, continues, field_round, field_loop, get_field}

-- A field of some lines, each ended by CRLF, with what follows it.
unfoldable pub folded : Bytes → List Bytes → Bytes → Bytes
folded l [] rest = l ++ (b'\r' ∷ b'\n' ∷ rest)
folded l (m ∷ ms) rest = l ++ (b'\r' ∷ b'\n' ∷ folded m ms rest)

-- The lines without their leading blanks, one after the other.
unfoldable pub unfolded : Bytes → List Bytes → Bytes
unfolded l [] = skip_blanks l
unfolded l (m ∷ ms) = skip_blanks l ++ unfolded m ms

abbrev pub NoLf : Bytes → Type 0
NoLf l = has_byte b'\n' l ≡ false

-- A line that continues a field.
abbrev pub IsContinuation : Bytes → Type 0
IsContinuation m = (continues m ≡ true) × NoLf m

take_line-crlf :
    (l r : Bytes) → NoLf l → take_line (l ++ (b'\r' ∷ b'\n' ∷ r)) ≡ (l ++ (b'\r' ∷ []), some r)
unfolding take_line has_byte
take_line-crlf [] r h = refl
take_line-crlf (c ∷ cs) r h =
    let ne : (c == b'\n') ≡ false = ground arith in
    let later : NoLf cs = ground arith in rw (ne, take_line-crlf cs r later) refl

take_line-last :
    (l rest : Bytes) → NoLf l → take_line (folded l [] rest) ≡ (l ++ (b'\r' ∷ []), some rest)
unfolding folded
take_line-last l rest h = take_line-crlf l rest h

take_line-more :
    (l m : Bytes) (ms : List Bytes) (rest : Bytes)
    → NoLf l
    → take_line (folded l (m ∷ ms) rest) ≡ (l ++ (b'\r' ∷ []), some (folded m ms rest))
unfolding folded
take_line-more l m ms rest h = take_line-crlf l (folded m ms rest) h

chop_cr-append : (l : Bytes) → chop_cr (l ++ (b'\r' ∷ [])) ≡ l
unfolding chop_cr
chop_cr-append [] = refl
chop_cr-append (c ∷ []) = refl
chop_cr-append (c ∷ d ∷ cs) = ap (◌∷◌ c) (chop_cr-append (d ∷ cs))

continues-folded :
    (m : Bytes) (ms : List Bytes) (rest : Bytes)
    → continues m ≡ true
    → continues (folded m ms rest) ≡ true
unfolding continues folded
continues-folded [] ms rest h = cc
continues-folded (c ∷ cs) [] rest h = h
continues-folded (c ∷ cs) (m ∷ ms) rest h = h

module _ (again : Bytes → Bytes → Option (Bytes × Option Bytes)) (rstr l next : Bytes) where
  ends :
      continues next ≡ false
      → field_round again rstr (l ++ (b'\r' ∷ []), some next)
        ≡ some (rstr ++ skip_blanks (chop_cr (l ++ (b'\r' ∷ []))), some next)
  unfolding field_round
  ends k = rw (field_round, k) refl

  goes_on :
      continues next ≡ true
      → field_round again rstr (l ++ (b'\r' ∷ []), some next)
        ≡ again (rstr ++ skip_blanks (chop_cr (l ++ (b'\r' ∷ [])))) next
  unfolding field_round
  goes_on k = rw (field_round, k) refl

  round-last :
      continues next ≡ false
      → field_round again rstr (l ++ (b'\r' ∷ []), some next)
        ≡ some (rstr ++ skip_blanks l, some next)
  round-last k = ends k ∙ ap (λ v. some (rstr ++ skip_blanks v, some next)) (chop_cr-append l)

  round-more :
      continues next ≡ true
      → field_round again rstr (l ++ (b'\r' ∷ []), some next) ≡ again (rstr ++ skip_blanks l) next
  round-more k = goes_on k ∙ ap (λ v. again (rstr ++ skip_blanks v) next) (chop_cr-append l)

field_loop-folded :
    (fuel : ℕ) (rstr l : Bytes) (ms : List Bytes) (rest : Bytes)
    → length ms < fuel
    → NoLf l
    → All IsContinuation ms
    → continues rest ≡ false
    → field_loop fuel rstr (folded l ms rest) ≡ some (rstr ++ unfolded l ms, some rest)
unfolding field_loop unfolded
field_loop-folded zero rstr l ms rest lt h hs k = absurd (omega arith)
field_loop-folded (suc fuel) rstr l [] rest lt h hs k =
    ap (field_round (λ r p. field_loop fuel r p) rstr) (take_line-last l rest h)
    ∙ round-last (λ r p. field_loop fuel r p) rstr l rest k
field_loop-folded (suc fuel) rstr l (m ∷ ms) rest lt h ((go, hm), hs) k =
    ap (field_round (λ r p. field_loop fuel r p) rstr) (take_line-more l m ms rest h)
    ∙ round-more (λ r p. field_loop fuel r p) rstr l (folded m ms rest)
        (continues-folded m ms rest go)
    ∙ field_loop-folded fuel (rstr ++ skip_blanks l) m ms rest (omega arith) hm hs k
    ∙ rw append_assoc refl

length-folded : (l : Bytes) (ms : List Bytes) (rest : Bytes) → length ms < length (folded l ms rest)
unfolding folded
length-folded l [] rest = omega (arith, length-append l (b'\r' ∷ b'\n' ∷ rest))
length-folded l (m ∷ ms) rest =
    omega (arith, length-append l (b'\r' ∷ b'\n' ∷ folded m ms rest), length-folded m ms rest)

-- `get_field` returns the lines of a folded field without LF of their own, each continued by a
-- line that starts with a blank, less their leading blanks and their CRLFs, one after the other,
-- with what follows the field.
pub get_field-folded :
    (l : Bytes) (ms : List Bytes) (rest : Bytes)
    → NoLf l
    → All IsContinuation ms
    → continues rest ≡ false
    → get_field (folded l ms rest) ≡ some (unfolded l ms, some rest)
unfolding get_field
get_field-folded l ms rest h hs k =
    field_loop-folded (length (folded l ms rest) + 1) [] l ms rest
      (omega (arith, length-folded l ms rest)) h hs k
