-- ===== src/Tests/AddressTests.antt =====
-- Examples of header fields and addresses.
use messasy.Base.{◌≡◌, refl, some, List, [], ◌∷◌, map, length, Bytes, arith}
use messasy.CString.{has_byte, isblank, isspace, tolower}
use messasy.Address.{continues, get_field, get_addrpart}
use messasy.Address.Fold.{folded, unfolded, get_field-folded}
use messasy.Address.Inside.{Copies, get_addrpart-Copies}
use messasy.Address.Bracketed.{is_plain, bracketed, get_addrpart-bracketed}
use messasy.Address.Divide.{divide_address_list}
use messasy.Address.Divide.Joined.{
  Item, bare, quoted, plain, escaped, items_text, IsPart, joined, addresses,
  divide_address_list-joined,
}
use messasy.Tests.{bytes}

name_test : get_addrpart (bytes " User@Example.com (A User) ") ≡ some (bytes "user@example.com")
unfolding get_addrpart isspace tolower
name_test = refl

-- More behind the bracket: the whole string is taken.
as_is_test : get_addrpart (bytes " <a@b> c ") ≡ some (bytes "<a@b> c")
unfolding get_addrpart isspace tolower
as_is_test = refl

divide_test :
    divide_address_list (bytes "\"x, y\" <A@b>, c@d") ≡ some (bytes "a@b" ∷ bytes "c@d" ∷ [])
unfolding divide_address_list get_addrpart isspace tolower
divide_test = refl

get_addrpart-Copies_example : Copies (length (bytes "A <a@b")) (get_addrpart (bytes "A <a@b"))
get_addrpart-Copies_example = get_addrpart-Copies (bytes "A <a@b")

get_addrpart-bracketed_example :
    get_addrpart (bracketed (bytes "A User ") (bytes "A@b")) ≡ some (map tolower (bytes "A@b"))
unfolding is_plain isspace
get_addrpart-bracketed_example =
    get_addrpart-bracketed 65 (bytes " User ") (bytes "A@b") (refl, refl)
      (refl, (refl, (refl, (refl, (refl, (refl, tt))))))
      ((refl, refl), ((refl, refl), ((refl, refl), tt))) (omega arith)

get_field-folded_example :
    get_field (folded (bytes " one,") (bytes "\ttwo" ∷ []) (bytes "X: 1"))
    ≡ some (unfolded (bytes " one,") (bytes "\ttwo" ∷ []), some (bytes "X: 1"))
unfolding has_byte continues isblank
get_field-folded_example =
    get_field-folded (bytes " one,") (bytes "\ttwo" ∷ []) (bytes "X: 1") refl ((refl, refl), tt)
      refl

abbrev bares : Bytes → List Item
bares [] = []
bares (c ∷ s) = bare (plain c) ∷ bares s

-- `"x\", y" <a@b>`
abbrev first_part : List Item
first_part =
    quoted (plain b'x' ∷ escaped b'"' ∷ plain b',' ∷ plain b' ' ∷ plain b'y' ∷ [])
    ∷ bares (bytes " <a@b>")

first-IsPart : IsPart (items_text first_part)
first-IsPart = (
  first_part,
  refl,
  (
    ((refl, refl), (tt, ((refl, refl), ((refl, refl), ((refl, refl), tt))))),
    (
      (refl, refl, refl),
      (
        (refl, refl, refl),
        ((refl, refl, refl), ((refl, refl, refl), ((refl, refl, refl), ((refl, refl, refl), tt)))),
      ),
    ),
  ),
)

second-IsPart : IsPart (items_text (bares (bytes "c@d")))
second-IsPart = (
  bares (bytes "c@d"),
  refl,
  ((refl, refl, refl), ((refl, refl, refl), ((refl, refl, refl), tt))),
)

divide_address_list-joined_example :
    (rs : List Bytes) × (divide_address_list
        (joined (items_text first_part) (items_text (bares (bytes "c@d")) ∷ []))
      ≡ some rs)
    × (addresses (items_text first_part ∷ items_text (bares (bytes "c@d")) ∷ []) ≡ some rs)
divide_address_list-joined_example =
    divide_address_list-joined (items_text first_part) (items_text (bares (bytes "c@d")) ∷ [])
      first-IsPart (second-IsPart, tt)
