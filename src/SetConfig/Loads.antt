-- ===== src/SetConfig/Loads.antt =====
-- msy_config.c, `set_config`: a file without errors is converted, or lacks a value.
use messasy.Base.{
  ℕ, Option, none, Bool, true, false, ◌||◌, some, List, [], ◌∷◌, ◌++◌, ◌≡◌, ◌<◌, refl, sym, ◌∙◌, ap,
  arith, inl, inr, All, Bytes, Bool-cases, ◌+◌, Ret, r_success, r_positive, r_error,
}
use mathlib.Core.Path.{subst}
use messasy.Strlist.{Store}
use messasy.Strlist.Returns.{Returns, returns, bind}
use messasy.CString.{is_empty, str_case_eq, str_eq, tolower}
use messasy.Convert.{
  str_tempfail, str_both, str_subtree, Converted, is_erroraction, is_savepolicy, is_ldapscope,
  syslog_facility, is_syslog_facility,
}
use messasy.Convert.Total.{has_pattern, IsConverted, conv_config-IsConverted}
use messasy.ReadConfig.{CfEntry, Datum, errors, read_config, all_spaces}
use messasy.ReadConfig.Lines.{IsLine, unlines}
use messasy.ReadConfig.Settings.{Settles, read_config-Settles}
use messasy.ReadConfig.Expected.{refused, missing, named}
use messasy.ReadConfig.Checked.{Settles-checked}
use messasy.SetConfig.{
  Outside, SetResult, fails, loaded, init_config, as_string, get_config, lacks, set_config,
  read_table, check_config, check_converted, after_read,
}
use messasy.SetConfig.Table.{cfe, cf_syslogfacility, cf_erroraction, cf_savepolicy, cf_ldapscope}
use messasy.SetConfig.Entries.{
  IsOther, Passes, has_offset, table-FineAt, is_erroraction-IsStrict, is_savepolicy-IsStrict,
  is_ldapscope-IsStrict, is_syslog_facility-IsStrict,
}

abbrev str_local1 : Bytes
str_local1 = b'l' ∷ b'o' ∷ b'c' ∷ b'a' ∷ b'l' ∷ b'1' ∷ []

-- The facilities of the C library: none is blank, and `local1` is one.
abbrev pub AreFacilities : List Bytes → Type 0
AreFacilities ws = All (λ w. all_spaces w ≡ false) ws × (syslog_facility ws str_local1 ≡ true)

-- The defaults pass the checks.
erroraction_default : is_erroraction str_tempfail ≡ true
unfolding is_erroraction str_case_eq tolower
erroraction_default = refl

savepolicy_default : is_savepolicy str_both ≡ true
unfolding is_savepolicy str_case_eq tolower
savepolicy_default = refl

ldapscope_default : is_ldapscope str_subtree ≡ true
unfolding is_ldapscope str_eq
ldapscope_default = refl

facility_default :
    (ws : List Bytes)
    → syslog_facility ws str_local1 ≡ true
    → is_syslog_facility ws str_local1 ≡ true
unfolding is_syslog_facility
facility_default ws h = rw h (or_true _ _)
  where
    or_true : (a b : Bool) → (a || (b || true)) ≡ true
    or_true a b = ground arith

module _ (inet_aton : Bytes → Bool) (facilities : List Bytes) (xs : List CfEntry)
    (other : IsOther xs) (ls : List Bytes) (t : ℕ → Datum)
    (no_error : refused (cfe inet_aton facilities ++ xs) ls ≡ 0)
    (settles : Settles (cfe inet_aton facilities ++ xs) ls init_config t) where
  erroraction_checked : is_erroraction (as_string (t cf_erroraction)) ≡ true
  unfolding cfe has_offset
  erroraction_checked =
      Settles-checked (Passes (is_erroraction)) cf_erroraction (cfe inet_aton facilities ++ xs) ls
        init_config t cf_erroraction
        (table-FineAt (is_erroraction) (cfe inet_aton facilities) xs cf_erroraction _ _ other
          (omega arith) refl refl refl is_erroraction-IsStrict erroraction_default)
        refl no_error settles

  savepolicy_checked : is_savepolicy (as_string (t cf_savepolicy)) ≡ true
  unfolding cfe has_offset
  savepolicy_checked =
      Settles-checked (Passes (is_savepolicy)) cf_savepolicy (cfe inet_aton facilities ++ xs) ls
        init_config t cf_savepolicy
        (table-FineAt (is_savepolicy) (cfe inet_aton facilities) xs cf_savepolicy _ _ other
          (omega arith) refl refl refl is_savepolicy-IsStrict savepolicy_default)
        refl no_error settles

  ldapscope_checked : is_ldapscope (as_string (t cf_ldapscope)) ≡ true
  unfolding cfe has_offset
  ldapscope_checked =
      Settles-checked (Passes (is_ldapscope)) cf_ldapscope (cfe inet_aton facilities ++ xs) ls
        init_config t cf_ldapscope
        (table-FineAt (is_ldapscope) (cfe inet_aton facilities) xs cf_ldapscope _ _ other
          (omega arith) refl refl refl is_ldapscope-IsStrict ldapscope_default)
        refl no_error settles

  syslogfacility_checked :
      AreFacilities facilities
      → is_syslog_facility facilities (as_string (t cf_syslogfacility)) ≡ true
  unfolding cfe has_offset
  syslogfacility_checked known =
      Settles-checked (Passes (is_syslog_facility facilities)) cf_syslogfacility
        (cfe inet_aton facilities ++ xs) ls init_config t cf_syslogfacility
        (table-FineAt (is_syslog_facility facilities) (cfe inet_aton facilities) xs
          cf_syslogfacility _ _ other (omega arith) refl refl refl
          (is_syslog_facility-IsStrict facilities (known.0))
          (facility_default facilities (known.1)))
        refl no_error settles

-- What `set_config` does with values that the checks have let pass: it fails for want of one, or
-- converts them.
abbrev pub Loads : (ℕ → Datum) → SetResult → Store → Type 0
Loads m r u =
    (lacks m ≡ true → r ≡ fails)
    × (lacks m ≡ false
        → (c : Converted) × (r ≡ loaded c) × IsConverted (get_config m) (r_success, c) u)

or_accepted : (a b : Bool) → b ≡ true → (a || b) ≡ true
or_accepted true b h = refl
or_accepted false b h = h

pattern_accepted :
    (regcomp : Bytes → Bool)
    → ((p : Bytes) → regcomp p ≡ true)
    → (pattern : Option Bytes) → has_pattern regcomp pattern ≡ true
pattern_accepted regcomp h none = refl
pattern_accepted regcomp h (some p) = or_accepted (is_empty p) (regcomp p) (h p)

check_converted-Loads :
    (o : Outside) (m : ℕ → Datum) (a : Ret × Converted) (u : Store)
    → lacks m ≡ false
    → is_syslog_facility o.facilities (as_string (m cf_syslogfacility)) ≡ true
    → IsConverted (get_config m) a u
    → Returns (Loads m) (check_converted o m a u)
unfolding check_converted
check_converted-Loads o m (r_success, c) u q fa h =
    rw fa (returns ((λ b. ground arith), λ _. (c, refl, h)))
check_converted-Loads o m (r_positive, c) u q fa (h, _, _) = ground arith
check_converted-Loads o m (r_error, c) u q fa (h, _, _) = ground arith

check_config-Loads :
    (o : Outside) (m : ℕ → Datum) (s : Store)
    → 0 < s.brk
    → ((p : Bytes) → o.regcomp p ≡ true)
    → is_erroraction (as_string (m cf_erroraction)) ≡ true
    → is_savepolicy (as_string (m cf_savepolicy)) ≡ true
    → is_ldapscope (as_string (m cf_ldapscope)) ≡ true
    → is_syslog_facility o.facilities (as_string (m cf_syslogfacility)) ≡ true
    → Returns (Loads m) (check_config o m s)
unfolding check_config get_config
check_config-Loads o m s pos re ea sp sc fa = elim (Bool-cases (lacks m)) [
  | inl q ↦ rw q (returns ((λ _. refl), λ h. ground arith))
  | inr q ↦ rw q (
      bind
        (conv_config-IsConverted o.regcomp (get_config m) s pos ea sp sc
          (pattern_accepted o.regcomp re (get_config m).saveignoreheader))
        λ a u h. check_converted-Loads o m a u q fa h)
]

module _ (o : Outside) (xs : List CfEntry) (ls : List Bytes) (s : Store) where
  abbrev table : List CfEntry
  table = cfe o.inet_aton o.facilities ++ xs

  -- A file without errors.
  set_config-read :
      (t : ℕ → Datum)
      → o.module_init ≡ some xs
      → read_config o.env (some (unlines ls)) table init_config ≡ some (errors 0, t)
      → set_config o (some (unlines ls)) s ≡ check_config o (o.modconfig t) s
  unfolding set_config read_table after_read
  set_config-read t init e =
      ap (λ x. read_table o (some (unlines ls)) x s) init ∙ ap (λ r. after_read o r s) e

  -- When every line of the file has no NUL and fits the buffer, each line names an entry and
  -- has a value that is not refused, or is passed over, no entry without a default is left out,
  -- memory lasts, the modules add entries at offsets of their own and leave the values of the
  -- table alone, every pattern compiles, and no name of a facility is blank and `local1` is
  -- one, then `set_config` fails where one of the six values that have to be set is not, and
  -- otherwise succeeds: `ErrorAction`, `SavePolicy` and `LdapScope` are converted to the values
  -- that they name, the two lists hold the pieces of `MyDomain` and of `SaveMailAddress`, each
  -- once, and the other values are as they were read.
  pub set_config-Loads :
      o.module_init ≡ some xs
      → IsOther xs
      → ((m : ℕ → Datum) (k : ℕ) → k < 23 → o.modconfig m k ≡ m k)
      → ((n : ℕ) → o.env.has_memory n ≡ true)
      → AreFacilities o.facilities
      → ((p : Bytes) → o.regcomp p ≡ true)
      → 0 < s.brk
      → All IsLine ls
      → refused (cfe o.inet_aton o.facilities ++ xs) ls ≡ 0
      → missing
          (named (cfe o.inet_aton o.facilities ++ xs) ls)
          (cfe o.inet_aton o.facilities ++ xs)
          0
        ≡ 0
      → (t : ℕ → Datum) × Settles (cfe o.inet_aton o.facilities ++ xs) ls init_config t
        × Returns (Loads (o.modconfig t)) (set_config o (some (unlines ls)) s)
  set_config-Loads init other keeps has known re pos lines no_error none_missing =
      let (t, e, st) = read_config-Settles o.env table ls init_config has lines in
      let count : missing (named table ls) table 0 + refused table ls ≡ 0 =
        ap (λ n. n + refused table ls) none_missing ∙ omega (arith, no_error) in
      let e0 : read_config o.env (some (unlines ls)) table init_config ≡ some (errors 0, t) =
        e ∙ ap (λ (n : ℕ). some (errors n, t)) count in
      let kept : (f : Bytes → Bool) (k : ℕ)
          → k < 23
          → f (as_string (t k)) ≡ true
          → f (as_string (o.modconfig t k)) ≡ true =
        λ f k h q. ap (λ d. f (as_string d)) (keeps t k h) ∙ q in
      (
        t,
        st,
        subst (Returns (Loads (o.modconfig t))) (sym (set_config-read t init e0)) (
            check_config-Loads o (o.modconfig t) s pos re
              (kept is_erroraction cf_erroraction (omega arith)
                (erroraction_checked o.inet_aton o.facilities xs other ls t no_error st))
              (kept is_savepolicy cf_savepolicy (omega arith)
                (savepolicy_checked o.inet_aton o.facilities xs other ls t no_error st))
              (kept is_ldapscope cf_ldapscope (omega arith)
                (ldapscope_checked o.inet_aton o.facilities xs other ls t no_error st))
              (kept (is_syslog_facility o.facilities) cf_syslogfacility (omega arith)
                (syslogfacility_checked o.inet_aton o.facilities xs other ls t no_error st known))),
      )
