-- ===== src/ReadConfig/Meaning.antt =====
-- libdgconfig.c, `read_config`: what one line means for a table of entries, apart from the state,
-- and that the code does it when memory lasts.
use messasy.Base.{
  ℕ, suc, ◌<◌, ◌^◌, Bool, true, false, ◌&&◌, not, Option, none, some, List, [], ◌∷◌, ◌≡◌, refl,
  arith, inl, inr, ltb, ◌==◌, if◌then◌else◌, Bytes, Bool-cases, Option-cases,
}
use messasy.CString.{skip_blanks, is_empty}
use messasy.ReadConfig.{
  CfType, cf_integer, cf_int_plus, cf_string, cf_other, CfEntry, Datum, number, copy, Env, Reading,
  assign, mark, add_error, store, set_check, to_unsigned, get_value, checks, is_int_plus,
  all_spaces, read_int, store_copy, read_string, read_type, read_entries, read_config_line,
}
use messasy.CString.Strtol.{Long, long_max, strtol}

-- A line is passed over, names no entry, or names the entry of an index with a value.
pub data Meaning : Type 0 where
  ignored unknown : Meaning
  sets : ℕ → CfEntry → Bytes → Meaning

abbrev pub find : List CfEntry → ℕ → Bytes → Meaning
find [] i line = unknown
find (e ∷ es) i line = elim (get_value e line) [ none ↦ find es (suc i) line | some s ↦ sets i e s ]

abbrev pub meaning : List CfEntry → Bytes → Meaning
meaning es [] = ignored
meaning es (c ∷ s) = if c == b'#' then ignored else find es 0 (c ∷ s)

-- The value that a string stands for, when it is a good one.
abbrev pub setting : CfType → CfEntry → Bytes → Option Datum
setting cf_string e s = if checks e.str_check s && not (all_spaces s) then some (copy s) else none
setting cf_other e s = none
setting _ e s =
    let value = to_unsigned ((strtol s).0) in
    if is_empty (skip_blanks ((strtol s).1)) && checks e.int_check value
    then some (number value)
    else none

-- Whether a value is an error. A string of spaces that the check lets pass is none.
abbrev pub is_refused : CfType → CfEntry → Bytes → Bool
is_refused cf_string e s = not (checks e.str_check s)
is_refused cf_other e s = true
is_refused _ e s =
    not (is_empty (skip_blanks ((strtol s).1)) && checks e.int_check (to_unsigned ((strtol s).0)))

abbrev pub put_setting : ℕ → Option Datum → (ℕ → Datum) → ℕ → Datum
put_setting o none m = m
put_setting o (some v) m = assign o v m

abbrev pub add_if : Bool → ℕ → ℕ
add_if b n = if b then suc n else n

-- What a line does to the three parts of the state.
abbrev pub line_at : Meaning → (ℕ → Datum) → ℕ → Datum
line_at (sets i e s) m = put_setting e.cf_dataoffset (setting e.cf_type e s) m
line_at _ m = m

abbrev pub line_check : Meaning → (ℕ → Bool) → ℕ → Bool
line_check (sets i e s) c = mark i c
line_check _ c = c

abbrev pub line_error : Meaning → Bool
line_error ignored = false
line_error unknown = true
line_error (sets i e s) = is_refused e.cf_type e s

to_unsigned-bound : (n : Long) → to_unsigned n < 2 ^ 32
unfolding to_unsigned
to_unsigned-bound n = grind arith

pub not_long_max :
    (n : Long) → ((to_unsigned n == long_max) ≡ false) × (ltb long_max (to_unsigned n) ≡ false)
not_long_max n = let b = to_unsigned-bound n in (ground arith, ground arith)

pub and_false : (b : Bool) → (b && false) ≡ false
and_false true = refl
and_false false = refl

-- The parts of the state after a line.
abbrev pub Does : Meaning → Reading → Reading → Type 0
Does m r t =
    (t.at ≡ line_at m r.at)
    × (t.check ≡ line_check m r.check)
    × (t.error ≡ add_if (line_error m) r.error)

-- The parts of the state after the entry of the index `i` is read.
abbrev Reads : CfType → ℕ → CfEntry → Bytes → Reading → Reading → Type 0
Reads ty i e s r t =
    (t.at ≡ put_setting e.cf_dataoffset (setting ty e s) r.at)
    × (t.check ≡ mark i r.check)
    × (t.error ≡ add_if (is_refused ty e s) r.error)

module _ (env : Env) (has : (n : ℕ) → env.has_memory n ≡ true) where
  read_int-Reads :
      (i : ℕ) (e : CfEntry) (s : Bytes) (r : Reading)
      → Reads cf_integer i e s r (read_int env e s (set_check i r))
  unfolding read_int set_check add_error store
  read_int-Reads i e s r =
      let (p, q) = not_long_max ((strtol s).0) in
      rw (p, q, and_false (is_int_plus e.cf_type))
        elim (Bool-cases (is_empty (skip_blanks ((strtol s).1)))) [
          | inl a ↦ elim (Bool-cases (checks e.int_check (to_unsigned ((strtol s).0)))) [
            | inl b ↦ rw (a, b) (refl, refl, refl)
            | inr b ↦ rw (a, b) (refl, refl, refl)
          ]
          | inr a ↦ rw a (refl, refl, refl)
        ]

  read_string-Reads :
      (i : ℕ) (e : CfEntry) (s : Bytes) (r : Reading)
      → Reads cf_string i e s r (read_string env e s (set_check i r))
  unfolding read_string store_copy set_check add_error store
  read_string-Reads i e s r = elim (Bool-cases (checks e.str_check s)) [
    | inl a ↦ elim (Bool-cases (all_spaces s)) [
      | inl b ↦ rw (a, b) (refl, refl, refl)
      | inr b ↦ rw (a, b, has r.calls) (refl, refl, refl)
    ]
    | inr a ↦ rw a (refl, refl, refl)
  ]

  read_type-Reads :
      (ty : CfType) (i : ℕ) (e : CfEntry) (s : Bytes) (r : Reading)
      → Reads ty i e s r (read_type env ty e s (set_check i r))
  unfolding read_type set_check add_error
  read_type-Reads cf_integer i e s r = read_int-Reads i e s r
  read_type-Reads cf_int_plus i e s r = read_int-Reads i e s r
  read_type-Reads cf_string i e s r = read_string-Reads i e s r
  read_type-Reads cf_other i e s r = (refl, refl, refl)

  pub read_entries-Does :
      (es : List CfEntry) (i : ℕ) (line : Bytes) (r : Reading)
      → Does (find es i line) r (read_entries env es i line r)
  unfolding read_entries add_error
  read_entries-Does [] i line r = (refl, refl, refl)
  read_entries-Does (e ∷ es) i line r = elim (Option-cases (get_value e line)) [
    | inl p ↦ rw (p, read_entries, find) (read_entries-Does es (suc i) line r)
    | inr (s, p) ↦ rw (p, read_entries, find) (read_type-Reads e.cf_type i e s r)
  ]

  pub read_config_line-Does :
      (es : List CfEntry) (line : Bytes) (r : Reading)
      → Does (meaning es line) r (read_config_line env es line r)
  unfolding read_config_line
  read_config_line-Does es [] r = (refl, refl, refl)
  read_config_line-Does es (c ∷ s) r = elim (Bool-cases (c == b'#')) [
    | inl p ↦ rw p (refl, refl, refl)
    | inr p ↦ rw p (read_entries-Does es 0 (c ∷ s) r)
  ]
