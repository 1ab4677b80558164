-- ===== src/Tests/ReadConfigTests.antt =====
-- Examples of the reading of the configuration file.
use messasy.Base.{
  ℕ, true, false, none, some, List, [], ◌∷◌, ◌++◌, ◌≡◌, refl, inr, arith, Bytes, All, ◌%◌, ◌^◌, ◌-◌,
  ◌+◌,
}
use messasy.CString.{
  has_byte, tolower, isspace, isblank, strip_case, skip_blanks, is_empty, str_case_eq,
}
use messasy.Convert.{is_timeout, syslog_facility}
use messasy.Strlist.Returns.{Returns}
use messasy.ReadConfig.{
  CfEntry, cf_int_plus, Datum, number, untouched, Env, Status, errors, too_long, read_config,
  read_int, store, start, get_value, after_equal, starts_space, all_spaces, checks, to_unsigned,
}
use messasy.CString.Strtol.{
  strtol, read_sign, read_number, read_digits, skip_spaces, starts_digit, is_digit, clamp,
}
use messasy.ReadConfig.Lines.{IsLine, unlines, fold, read_config-ends, read_config-too_long}
use messasy.ReadConfig.Settings.{Settles, read_config-Settles}
use messasy.ReadConfig.Expected.{named, missing, refused}
use messasy.ReadConfig.Number.{decimal, read_int-decimal}
use messasy.SetConfig.{Outside, set_config, init_config}
use messasy.SetConfig.Table.{cfe, cfe_entry}
use messasy.SetConfig.Loads.{Loads, set_config-Loads}
use messasy.Tests.{empty, bytes}

abbrev env : Env
env = record { has_memory = λ n. true; is_erange = false }

abbrev local1 : Bytes
local1 = bytes "local1"

abbrev outside : Outside
outside = record {
  env = env;
  inet_aton = λ p. true;
  regcomp = λ p. true;
  facilities = local1 ∷ [];
  module_init = some [];
  modconfig = λ m k. m k;
  is_enomem = false;
}

abbrev lines : List Bytes
lines =
    (bytes "AdminPassword=pw")
    ∷ (bytes "# domains")
    ∷ (bytes "mydomain=a.jp")
    ∷ (bytes "SaveMailAddress=b@a.jp")
    ∷ (bytes "TimeOut=30 ")
    ∷ []

abbrev table : List CfEntry
table = cfe outside.inet_aton outside.facilities ++ []

abbrev nothing : ℕ → Datum
nothing k = untouched

lines_good : refused table lines ≡ 0
unfolding cfe get_value strip_case tolower after_equal starts_space isspace all_spaces checks strtol
    read_sign read_number read_digits skip_spaces starts_digit is_digit clamp to_unsigned is_empty
    skip_blanks isblank is_timeout
lines_good = refl

none_missing : missing (named table lines) table 0 ≡ 0
unfolding cfe get_value strip_case tolower after_equal starts_space isspace
none_missing = refl

are_lines : All IsLine lines
unfolding has_byte
are_lines = (
  (refl, refl, omega arith),
  (
    (refl, refl, omega arith),
    ((refl, refl, omega arith), ((refl, refl, omega arith), ((refl, refl, omega arith), tt))),
  ),
)

set_config-Loads_example :
    (t : ℕ → Datum) × Settles table lines init_config t
    × Returns (Loads (outside.modconfig t)) (set_config outside (some (unlines lines)) empty)
unfolding has_byte syslog_facility str_case_eq tolower all_spaces isspace
set_config-Loads_example =
    set_config-Loads outside [] lines empty refl tt (λ m k h. refl) (λ n. refl) ((refl, tt), refl)
      (λ p. refl) (omega arith) are_lines lines_good none_missing

read_config-Settles_example :
    (t : ℕ → Datum) × (read_config env (some (unlines lines)) table nothing
      ≡ some (errors (missing (named table lines) table 0 + refused table lines), t))
    × Settles table lines nothing t
unfolding has_byte
read_config-Settles_example = read_config-Settles env table lines nothing (λ n. refl) are_lines

read_config-ends_example :
    (r : Status × (ℕ → Datum)) × (read_config env (some (b'T' ∷ b'\n' ∷ [])) table nothing ≡ some r)
read_config-ends_example = read_config-ends env table (some (b'T' ∷ b'\n' ∷ [])) nothing

-- The last line has no end.
read_config-too_long_example :
    read_config env (some (unlines ((b'#' ∷ []) ∷ []) ++ ((b'T' ∷ []) ++ []))) table nothing
    ≡ some (too_long, (fold env table ((b'#' ∷ []) ∷ []) (start nothing)).at)
unfolding has_byte
read_config-too_long_example =
    read_config-too_long env table ((b'#' ∷ []) ∷ []) (b'T' ∷ []) [] nothing
      ((refl, refl, omega arith), tt) refl refl (ground arith) (inr refl)

abbrev port : CfEntry
port = cfe_entry (b'P' ∷ []) cf_int_plus none 3 none none

read_int-decimal_example :
    (read_int env port (decimal 4294967297) (start nothing)
      ≡ store 3 (number (4294967297 % 2 ^ 32)) (start nothing))
    × (read_int env port (b'-' ∷ decimal 4294967297) (start nothing)
        ≡ store 3 (number ((2 ^ 32 - 4294967297 % 2 ^ 32) % 2 ^ 32)) (start nothing))
read_int-decimal_example = read_int-decimal env port (start nothing) 4294967297 (omega arith) refl
