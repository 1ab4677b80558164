-- ===== src/ReadConfig/Expected.antt =====
-- libdgconfig.c, `read_config`: the values and the errors that a file asks for, line by line.
use messasy.Base.{
  ℕ, suc, Bool, true, false, ◌&&◌, ◌||◌, not, Option, none, some, List, [], ◌∷◌, ◌≡◌, refl, ◌==◌,
  if◌then◌else◌, Bytes,
}
use messasy.ReadConfig.{CfType, cf_string, cf_other, CfEntry, Datum, number, copy, to_unsigned}
use messasy.CString.Strtol.{strtol}
use messasy.ReadConfig.Meaning.{Meaning, sets, meaning, setting, add_if, line_error}

abbrev pub or_else : Option Datum → Datum → Datum
or_else none d = d
or_else (some v) d = v

-- The last of two settings.
abbrev pub last : Option Datum → Option Datum → Option Datum
last a none = a
last a (some v) = some v

-- What a line writes at an offset.
abbrev pub line_setting : ℕ → Meaning → Option Datum
line_setting k (sets i e s) = if k == e.cf_dataoffset then setting e.cf_type e s else none
line_setting k _ = none

abbrev pub is_named : ℕ → Meaning → Bool
is_named k (sets i e s) = k == i
is_named k _ = false

module _ (es : List CfEntry) where
  -- What the lines write at an offset: the last good value counts.
  abbrev pub latest : ℕ → List Bytes → Option Datum
  latest k [] = none
  latest k (l ∷ ls) = last (line_setting k (meaning es l)) (latest k ls)

  -- Whether a line names the entry of an index, be its value good or not.
  abbrev pub named : List Bytes → ℕ → Bool
  named [] i = false
  named (l ∷ ls) i = named ls i || is_named i (meaning es l)

  abbrev pub refused : List Bytes → ℕ
  refused [] = 0
  refused (l ∷ ls) = add_if (line_error (meaning es l)) (refused ls)

-- The default of an entry that no line names.
abbrev pub default_setting : CfType → Option Bytes → Option Datum
default_setting _ none = none
default_setting cf_string (some s) = some (copy s)
default_setting cf_other (some s) = none
default_setting _ (some s) = some (number (to_unsigned ((strtol s).0)))

-- What the defaults write at an offset, and the entries that have none and are not named.
abbrev pub defaulted : (ℕ → Bool) → ℕ → List CfEntry → ℕ → Option Datum
defaulted c k [] i = none
defaulted c k (e ∷ es) i =
    last
      (if not (c i) && k == e.cf_dataoffset then default_setting e.cf_type e.cf_default else none)
      (defaulted c k es (suc i))

abbrev pub is_none : Option Bytes → Bool
is_none none = true
is_none (some _) = false

abbrev pub missing : (ℕ → Bool) → List CfEntry → ℕ → ℕ
missing c [] i = 0
missing c (e ∷ es) i = add_if (not (c i) && is_none e.cf_default) (missing c es (suc i))

pub or_else-last : (a b : Option Datum) (d : Datum) → or_else (last a b) d ≡ or_else b (or_else a d)
or_else-last a none d = refl
or_else-last a (some v) d = refl
