-- ===== src/ReadConfig.antt =====
-- lib/libdgconfig/libdgconfig.c: `read_config`, over the bytes of the file. The table of entries is
-- a list, the structure that receives the values a function of the offset, and the array `check` a
-- function of the index. The memory that `strdup` gets and a stale `errno` are parameters.
pub mod Expected
pub mod Fgets
pub mod Checked
pub mod Lines
pub mod Meaning
pub mod Number
pub mod Settings
use messasy.CString.Strtol.{
  Long, long_max, is_digit, read_digits, starts_digit, skip_spaces, clamp, read_number, read_sign,
  strtol,
}
use messasy.Base.{
  ℕ, zero, suc, ◌+◌, ◌-◌, ◌*◌, ◌%◌, ◌^◌, Bool, true, false, ◌&&◌, ◌||◌, not, Option, none, some,
  List, [], ◌∷◌, ltb, leb, ◌==◌, if◌then◌else◌, length, Bytes,
}
use messasy.CString.{within, isblank, isspace, strchr, strip_case, skip_blanks, c_str, is_empty}

-- `CF_INTEGER`, `CF_INT_PLUS`, `CF_STRING`, and any other number.
pub data CfType : Type 0 where
  cf_integer cf_int_plus cf_string cf_other : CfType

-- `struct cfentry`. A check takes a number or a string, as the type of its entry says, and gives
-- true for NULL.
pub record CfEntry : Type 0 where
  pub cf_name : Bytes
  pub cf_type : CfType
  pub cf_default : Option Bytes
  pub cf_dataoffset : ℕ
  pub int_check : Option (ℕ → Bool)
  pub str_check : Option (Bytes → Bool)

-- What stands at an offset: what the caller left there, an `unsigned int`, or a string of its own.
pub data Datum : Type 0 where
  untouched : Datum
  number : ℕ → Datum
  copy : Bytes → Datum

-- The calls of `malloc` and `strdup` that succeed, by their order; whether `errno` is `ERANGE`.
pub record Env : Type 0 where
  pub has_memory : ℕ → Bool
  pub is_erange : Bool

pub record Reading : Type 0 where
  pub at : ℕ → Datum
  pub check : ℕ → Bool
  pub error : ℕ
  pub calls : ℕ

unfoldable pub assign : ℕ → Datum → (ℕ → Datum) → ℕ → Datum
assign o v m k = if k == o then v else m k

unfoldable pub mark : ℕ → (ℕ → Bool) → ℕ → Bool
mark i c k = if k == i then true else c k

unfoldable pub add_error : Reading → Reading
add_error r = record r { error = suc r.error }

unfoldable pub store : ℕ → Datum → Reading → Reading
store o v r = record r { at = assign o v r.at }

unfoldable pub set_check : ℕ → Reading → Reading
set_check i r = record r { check = mark i r.check }

-- The conversion of a `long` to `unsigned int`.
unfoldable pub to_unsigned : Long → ℕ
to_unsigned n = let m = n.magnitude % 2 ^ 32 in if n.negative then (2 ^ 32 - m) % 2 ^ 32 else m

unfoldable pub starts_space : Bytes → Bool
starts_space [] = false
starts_space (c ∷ _) = isspace c

unfoldable pub after_equal : Bytes → Option Bytes
unfolding starts_space
after_equal [] = none
after_equal (c ∷ s) = if c == b'=' && not (starts_space s) then some s else none

-- The test of a keyword: the value, when the line is one of this entry.
unfoldable pub get_value : CfEntry → Bytes → Option Bytes
get_value e line = elim (strip_case e.cf_name line) [ none ↦ none | some rest ↦ after_equal rest ]

unfoldable pub checks {ℓ} : {A : Type ℓ} → Option (A → Bool) → A → Bool
checks none a = true
checks (some f) a = f a

-- A test of `cf_type == CF_INT_PLUS`
unfoldable pub is_int_plus : CfType → Bool
is_int_plus cf_int_plus = true
is_int_plus _ = false

-- The loop over `line[j]`: whether all is white space.
unfoldable pub all_spaces : Bytes → Bool
all_spaces [] = true
all_spaces (c ∷ s) = isspace c && all_spaces s

-- `MAX_CONFIG_LINE`
abbrev pub max_config_line : ℕ
max_config_line = 1024

-- `fgets` with room for `n` bytes: what it reads, a newline included, and what is left.
unfoldable pub fgets : ℕ → Bytes → Bytes × Bytes
fgets zero s = ([], s)
fgets (suc n) [] = ([], [])
fgets (suc n) (c ∷ s) =
    let rest = fgets n s in if c == b'\n' then (c ∷ [], s) else (c ∷ rest.0, rest.1)

-- `*p = '\0'` at the first newline.
unfoldable pub cut : Bytes → Bytes
cut [] = []
cut (c ∷ s) = let rest = cut s in if c == b'\n' then [] else c ∷ rest

-- What `read_config` returns: -1, -2, and the number of errors.
pub data Status : Type 0 where
  failed too_long : Status
  errors : ℕ → Status

-- The state before the first line: `malloc` is the first call for memory.
unfoldable pub start : (ℕ → Datum) → Reading
start m = record { at = m; check = λ k. false; error = 0; calls = 1 }

module _ (env : Env) where
  -- The case of `CF_INTEGER` and `CF_INT_PLUS`.
  unfoldable pub read_int : CfEntry → Bytes → Reading → Reading
  unfolding is_int_plus
  read_int e s r =
      let value = to_unsigned ((strtol s).0) in
      if not (is_empty (skip_blanks ((strtol s).1)))
      then add_error r
      else if value == long_max && env.is_erange
      then add_error r
      else if is_int_plus e.cf_type && ltb long_max value
      then add_error r
      else if not (checks e.int_check value)
      then add_error r
      else store e.cf_dataoffset (number value) r

  -- `strdup`, and the pointer stored.
  unfoldable pub store_copy : CfEntry → Bytes → Reading → Reading
  store_copy e s r =
      let t : Reading = record r { calls = suc r.calls } in
      if env.has_memory r.calls then store e.cf_dataoffset (copy s) t else add_error t

  -- The case of `CF_STRING`.
  unfoldable pub read_string : CfEntry → Bytes → Reading → Reading
  unfolding store_copy
  read_string e s r =
      if not (checks e.str_check s)
      then add_error r
      else if all_spaces s
      then r
      else store_copy e s r

  unfoldable pub read_type : CfType → CfEntry → Bytes → Reading → Reading
  unfolding read_int read_string
  read_type cf_integer e s r = read_int e s r
  read_type cf_int_plus e s r = read_int e s r
  read_type cf_string e s r = read_string e s r
  read_type cf_other e s r = add_error r

  -- The loop over the entries, from the index `i`.
  unfoldable pub read_entries : List CfEntry → ℕ → Bytes → Reading → Reading
  unfolding read_type
  read_entries [] i line r = add_error r
  read_entries (e ∷ es) i line r = elim (get_value e line) [
    | none ↦ read_entries es (suc i) line r
    | some s ↦ read_type e.cf_type e s (set_check i r)
  ]

  -- A line without its end.
  unfoldable pub read_config_line : List CfEntry → Bytes → Reading → Reading
  unfolding read_entries
  read_config_line es [] r = r
  read_config_line es (c ∷ s) r = if c == b'#' then r else read_entries es 0 (c ∷ s) r

  -- An entry that no line names gets its default, and is an error when it has none.
  unfoldable pub default_type : CfType → CfEntry → Bytes → Reading → Reading
  unfolding store_copy
  default_type cf_integer e s r = store e.cf_dataoffset (number (to_unsigned ((strtol s).0))) r
  default_type cf_int_plus e s r = store e.cf_dataoffset (number (to_unsigned ((strtol s).0))) r
  default_type cf_string e s r = store_copy e s r
  default_type cf_other e s r = r

  unfoldable pub set_default : CfEntry → ℕ → Reading → Reading
  unfolding default_type
  set_default e i r =
      if r.check i
      then r
      else elim e.cf_default [ none ↦ add_error r | some s ↦ default_type e.cf_type e s r ]

  unfoldable pub set_defaults : List CfEntry → ℕ → Reading → Reading
  unfolding set_default
  set_defaults [] i r = r
  set_defaults (e ∷ es) i r = set_defaults es (suc i) (set_default e i r)

  -- The loop over the lines, which `fgets` ends at the end of the file.
  unfoldable pub read_lines : ℕ → List CfEntry → Bytes → Reading → Option (Bool × Reading)
  read_lines zero es s r = none
  read_lines (suc n) es [] r = some (true, r)
  read_lines (suc n) es (c ∷ s) r =
      let f = fgets max_config_line (c ∷ s) in
      elim (strchr (c_str (f.0)) b'\n') [
        | none ↦ some (false, r)
        | some _ ↦ read_lines n es (f.1) (read_config_line es (cut (c_str (f.0))) r)
      ]

  unfoldable pub end_read : List CfEntry → Bool × Reading → Status × (ℕ → Datum)
  unfolding set_defaults
  end_read es (false, r) = (too_long, r.at)
  end_read es (true, r) = (errors (set_defaults es 0 r).error, (set_defaults es 0 r).at)

  -- The contents of the file, when it can be opened and read. The fuel is one more than its length.
  unfoldable pub read_config :
      Option Bytes → List CfEntry → (ℕ → Datum) → Option (Status × (ℕ → Datum))
  unfolding end_read
  read_config none es m = some (failed, m)
  read_config (some s) es m =
      if not (env.has_memory 0)
      then some (failed, m)
      else elim (read_lines (suc (length s)) es s (start m)) [
        | none ↦ none
        | some r ↦ some (end_read es r)
      ]
