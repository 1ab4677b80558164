-- ===== src/SetConfig/Entries.antt =====
-- msy_config.c: the entries of the table `cfe` whose values are converted, and their checks.
use messasy.Base.{
  ℕ, zero, suc, Bool, true, false, ◌||◌, none, some, List, [], ◌∷◌, ◌++◌, ◌==◌, ◌≡◌, ◌<◌, ◌≤◌, ◌⊎◌,
  refl, sym, ◌∙◌, ap, arith, inl, inr, All, Bytes,
}
use messasy.CString.{isspace, tolower, str_case_eq, str_eq}
use mathlib.Core.Path.{subst}
use messasy.CString.Laws.{str_eq_iff}
use messasy.Convert.{
  str_accept, str_reject, str_tempfail, str_both, str_onlyfrom, str_onlyto, str_none, str_onelevel,
  str_subtree, facility_stderr, facility_none, is_erroraction, is_savepolicy, is_ldapscope,
  syslog_facility, is_syslog_facility,
}
use messasy.ReadConfig.{CfEntry, Datum, copy, cf_string, all_spaces, checks}
use messasy.ReadConfig.Checked.{Fine, FineAt}
use messasy.SetConfig.{as_string}
use messasy.SetConfig.Table.{cfe_entry}

-- Modules have offsets of their own.
abbrev pub IsOther : List CfEntry → Type 0
IsOther xs = All (λ (e : CfEntry). (23 ≤ e.cf_dataoffset)) xs

abbrev pub Passes : (Bytes → Bool) → Datum → Type 0
Passes f d = f (as_string d) ≡ true

-- Whether a list has an entry of the offset.
unfoldable pub has_offset : ℕ → List CfEntry → Bool
has_offset k [] = false
has_offset k (e ∷ es) = k == e.cf_dataoffset || has_offset k es

abbrev pub take : ℕ → List CfEntry → List CfEntry
take zero es = []
take (suc n) [] = []
take (suc n) (e ∷ es) = e ∷ take n es

abbrev pub drop : ℕ → List CfEntry → List CfEntry
drop zero es = es
drop (suc n) [] = []
drop (suc n) (e ∷ es) = drop n es

module _ (P : Datum → Type 0) (k : ℕ) where
  absent-FineAt : (es : List CfEntry) → has_offset k es ≡ false → FineAt P k es
  unfolding has_offset
  absent-FineAt [] h = tt
  absent-FineAt (e ∷ es) h = (λ q. ground arith, absent-FineAt es (ground arith))

  other-FineAt : (xs : List CfEntry) → k < 23 → IsOther xs → FineAt P k xs
  other-FineAt [] h a = tt
  other-FineAt (e ∷ xs) h (a, b) = (λ q. ground arith, other-FineAt xs h b)

  append-FineAt : (a b : List CfEntry) → FineAt P k a → FineAt P k b → FineAt P k (a ++ b)
  append-FineAt [] b h g = g
  append-FineAt (e ∷ a) b (f, h) g = (f, append-FineAt a b h g)

  -- The entries around the one of an index have other offsets.
  only-FineAt :
      (n : ℕ) (es : List CfEntry)
      → has_offset k (take n es) ≡ false
      → has_offset k (drop (suc n) es) ≡ false
      → FineAt P k (take 1 (drop n es))
      → FineAt P k es
  unfolding has_offset
  only-FineAt n [] a b f = tt
  only-FineAt zero (e ∷ es) a b (f, _) = (f, absent-FineAt es b)
  only-FineAt (suc n) (e ∷ es) a b f = (λ q. ground arith, only-FineAt n es (ground arith) b f)

space-case : (x y : ℕ) → (tolower x == tolower y) ≡ true → isspace x ≡ isspace y
unfolding isspace tolower
space-case x y h = ground arith

all_spaces-case : (a b : Bytes) → str_case_eq a b ≡ true → all_spaces a ≡ all_spaces b
unfolding str_case_eq all_spaces
all_spaces-case [] [] h = refl
all_spaces-case [] (y ∷ b) h = ground arith
all_spaces-case (x ∷ a) [] h = ground arith
all_spaces-case (x ∷ a) (y ∷ b) h =
    rw (space-case x y (ground arith), all_spaces-case a b (ground arith)) refl

-- A check that lets no string of spaces pass.
unfoldable pub IsStrict : (Bytes → Bool) → Type 0
IsStrict f = (s : Bytes) → f s ≡ true → all_spaces s ≡ false

string-Fine :
    (f : Bytes → Bool) (name w : Bytes) (o : ℕ)
    → IsStrict f
    → f w ≡ true
    → Fine (Passes f) (cfe_entry name cf_string (some w) o none (some f))
unfolding IsStrict checks as_string
string-Fine f name w o strict h = (
  λ s q. let ok : f s ≡ true = ground arith in (copy s, rw (ok, strict s ok) refl, ok),
  (copy w, refl, h),
)

-- The entry of the offset `k` in the table, which stands at the index `k`.
pub table-FineAt :
    (f : Bytes → Bool) (es xs : List CfEntry) (k : ℕ) (name w : Bytes)
    → IsOther xs
    → k < 23
    → has_offset k (take k es) ≡ false
    → take 1 (drop k es) ≡ cfe_entry name cf_string (some w) k none (some f) ∷ []
    → has_offset k (drop (suc k) es) ≡ false
    → IsStrict f
    → f w ≡ true
    → FineAt (Passes f) k (es ++ xs)
table-FineAt f es xs k name w h small before at after strict ok =
    append-FineAt (Passes f) k es xs
      (only-FineAt (Passes f) k k es before after
        (subst (FineAt (Passes f) k) (sym at) (λ _. string-Fine f name w k strict ok, tt)))
      (other-FineAt (Passes f) k xs small h)

case_strict : (s w : Bytes) → all_spaces w ≡ false → str_case_eq s w ≡ true → all_spaces s ≡ false
case_strict s w h e = all_spaces-case s w e ∙ h

or_cases : (a b : Bool) → (a || b) ≡ true → (a ≡ true) ⊎ (b ≡ true)
or_cases true b h = inl refl
or_cases false b h = inr h

-- One of two strings.
strict_or :
    (s w : Bytes) (b : Bool)
    → all_spaces w ≡ false
    → (b ≡ true → all_spaces s ≡ false)
    → (str_case_eq s w || b) ≡ true
    → all_spaces s ≡ false
strict_or s w b h next q = elim (or_cases (str_case_eq s w) b q) [
  | inl e ↦ case_strict s w h e
  | inr e ↦ next e
]

pub is_erroraction-IsStrict : IsStrict is_erroraction
unfolding IsStrict is_erroraction all_spaces isspace
is_erroraction-IsStrict s =
    strict_or s str_accept _ refl (strict_or s str_reject _ refl (case_strict s str_tempfail refl))

pub is_savepolicy-IsStrict : IsStrict is_savepolicy
unfolding IsStrict is_savepolicy all_spaces isspace
is_savepolicy-IsStrict s =
    strict_or s str_both _ refl (
      strict_or s str_onlyfrom _ refl (strict_or s str_onlyto _ refl (case_strict s str_none refl)))

str_eq-all_spaces : (s w : Bytes) → all_spaces w ≡ false → str_eq s w ≡ true → all_spaces s ≡ false
str_eq-all_spaces s w h e = ap all_spaces ((str_eq_iff s w).0 e) ∙ h

pub is_ldapscope-IsStrict : IsStrict is_ldapscope
unfolding IsStrict is_ldapscope all_spaces isspace
is_ldapscope-IsStrict s q = elim (or_cases (str_eq s str_onelevel) (str_eq s str_subtree) q) [
  | inl e ↦ str_eq-all_spaces s str_onelevel refl e
  | inr e ↦ str_eq-all_spaces s str_subtree refl e
]

pub is_syslog_facility-IsStrict :
    (facilities : List Bytes)
    → All (λ w. all_spaces w ≡ false) facilities
    → IsStrict (is_syslog_facility facilities)
unfolding IsStrict is_syslog_facility all_spaces isspace
is_syslog_facility-IsStrict facilities h s =
    strict_or s facility_stderr _ refl (strict_or s facility_none _ refl (names facilities h))
  where
    names :
        (ws : List Bytes)
        → All (λ w. all_spaces w ≡ false) ws
        → syslog_facility ws s ≡ true
        → all_spaces s ≡ false
    names [] a e = ground arith
    names (w ∷ ws) (a, b) e = strict_or s w _ a (names ws b) e
