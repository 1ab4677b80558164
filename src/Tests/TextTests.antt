-- ===== src/Tests/TextTests.antt =====
-- Examples of the session ids and of the formats.
use messasy.Base.{
  ◌≡◌, refl, [], ◌∷◌, ◌++◌, ◌+◌, arith, true, false, some, List, Bytes, map, length, All,
}
use messasy.CString.{has_byte}
use messasy.Serial.{get_serialno, sessids}
use messasy.Serial.Distinct.{Distinct, sessids-Distinct}
use messasy.Command.{cmd_strrep, count_sep, nulls, is_usable_password}
use messasy.Command.Strrep.{join, cmd_strrep-arguments}
use messasy.Format.{StrFormat, str_replace_format}
use messasy.Format.RoundTrip.{
  escape, str_replace_format-escape, Replaces, str_replace_format-Replaces,
}
use messasy.Tests.{bytes}

-- The counter starts again behind 65535.
serial_wraps : get_serialno 65535 ≡ 0
unfolding get_serialno
serial_wraps = refl

sessids-Distinct_example : Distinct (sessids 70000 65534 3)
sessids-Distinct_example = sessids-Distinct 70000 65534 3 (omega arith) (omega arith)

abbrev mail : StrFormat
mail = record { formatchar = 77; replacestr = bytes "50%M" }

-- What is put in is not read again.
format_test : str_replace_format (bytes "(mail=%M)%%%x%") (mail ∷ []) ≡ bytes "(mail=50%M)%%x%"
unfolding str_replace_format
format_test = refl

str_replace_format-escape_example :
    str_replace_format (escape (bytes "50%M")) (mail ∷ []) ≡ bytes "50%M"
str_replace_format-escape_example = str_replace_format-escape (mail ∷ []) (bytes "50%M")

-- `zip  -r` has two blanks.
cmd_strrep-arguments_example :
    (xs : List Bytes) × (cmd_strrep (bytes "zip  -r") b' ' 2 ≡ some (map some xs ++ nulls 2))
    × (length xs ≡ 1 + count_sep b' ' (bytes "zip  -r"))
    × (join b' ' xs ≡ bytes "zip  -r")
    × All (λ x. has_byte b' ' x ≡ false) xs
cmd_strrep-arguments_example = cmd_strrep-arguments (bytes "zip  -r") b' ' 2 (omega arith)

password_good : is_usable_password (bytes "aZ9") ≡ true
unfolding is_usable_password has_byte
password_good = refl

password_bad : is_usable_password (bytes "a b") ≡ false
unfolding is_usable_password has_byte
password_bad = refl

str_replace_format-Replaces_example :
    Replaces
      (mail ∷ [])
      (bytes "%M, %x, %%M%")
      (str_replace_format (bytes "%M, %x, %%M%") (mail ∷ []))
str_replace_format-Replaces_example = str_replace_format-Replaces (mail ∷ []) (bytes "%M, %x, %%M%")
