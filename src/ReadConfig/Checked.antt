-- ===== src/ReadConfig/Checked.antt =====
-- libdgconfig.c, `read_config`: a file without errors leaves only values that the checks have let
-- pass, or defaults.
use messasy.Base.{
  ℕ, suc, ◌≤◌, Bool, true, false, ◌&&◌, ◌||◌, not, Option, none, some, List, [], ◌∷◌, ◌≡◌, refl,
  sym, ◌∙◌, ap, arith, inl, inr, ◌==◌, if◌then◌else◌, All, Bytes, Bool-cases, Option-cases, ==_iff,
}
use mathlib.Core.Path.{subst}
use messasy.ReadConfig.{CfEntry, Datum, get_value}
use messasy.ReadConfig.Meaning.{
  Meaning, ignored, unknown, sets, find, meaning, setting, is_refused, add_if, line_error,
}
use messasy.ReadConfig.Settings.{Settles}
use messasy.ReadConfig.Expected.{
  or_else, last, line_setting, is_named, latest, named, refused, default_setting, defaulted,
}

-- An entry each of whose values is kept, or is an error, and satisfies the predicate when it is
-- kept; and so does its default.
abbrev pub Fine : (Datum → Type 0) → CfEntry → Type 0
Fine P e =
    ((s : Bytes)
      → is_refused e.cf_type e s ≡ false
      → (d : Datum) × (setting e.cf_type e s ≡ some d) × P d)
    × ((d : Datum) × (default_setting e.cf_type e.cf_default ≡ some d) × P d)

-- The offset of the entry of an index, where the list starts at the index `b`.
abbrev pub offset_at : List CfEntry → ℕ → ℕ → Option ℕ
offset_at [] b i = none
offset_at (e ∷ es) b i =
    let rest = offset_at es (suc b) i in if i == b then some e.cf_dataoffset else rest

-- The entries of an offset are fine.
abbrev pub FineAt : (Datum → Type 0) → ℕ → List CfEntry → Type 0
FineAt P k es = All (λ e. (k == e.cf_dataoffset) ≡ true → Fine P e) es

some-inj : {a b : ℕ} → ◌≡◌ {A = Option ℕ} (some a) (some b) → a ≡ b
some-inj h = ground arith

add_if-zero : (b : Bool) (n : ℕ) → add_if b n ≡ 0 → (b ≡ false) × (n ≡ 0)
add_if-zero true n h = ground arith
add_if-zero false n h = (refl, h)

or_right : {a b : Bool} → a ≡ false → (a || b) ≡ true → b ≡ true
or_right h k = ground arith

module _ (P : Datum → Type 0) (k : ℕ) where
  abbrev Known : Option Datum → Type 0
  Known none = Unit
  Known (some d) = P d

  abbrev Good : Option Datum → Type 0
  Good o = (d : Datum) × (o ≡ some d) × P d

  Good-Known : (o : Option Datum) → Good o → Known o
  Good-Known o (d, q, p) = subst Known (sym q) p

  last-Known : (a b : Option Datum) → Known a → Known b → Known (last a b)
  last-Known a none h k = h
  last-Known a (some d) h k = k

  last-Good : (a b : Option Datum) → Good a → Known b → Good (last a b)
  last-Good a none g k = g
  last-Good a (some d) g k = (d, refl, k)

  last-Good_right : (a b : Option Datum) → Good b → Good (last a b)
  last-Good_right a b (d, q, p) = (d, ap (last a) q, p)

  or_else-Good : (o : Option Datum) (d : Datum) → Good o → P (or_else o d)
  or_else-Good o d (e, q, p) = subst P (sym (ap (λ x. or_else x d) q)) p

  or_else-Known : (o : Option Datum) (d : Datum) → Known o → P d → P (or_else o d)
  or_else-Known none d h p = p
  or_else-Known (some e) d h p = h

  -- What is known of an entry that is found.
  abbrev Fits : List CfEntry → ℕ → Meaning → Type 0
  Fits es b (sets j e s) =
      ((k == e.cf_dataoffset) ≡ true → Fine P e)
      × (b ≤ j)
      × (offset_at es b j ≡ some e.cf_dataoffset)
  Fits es b _ = Unit

  Fits-cons :
      (e : CfEntry) (es : List CfEntry) (b : ℕ) (m : Meaning)
      → Fits es (suc b) m
      → Fits (e ∷ es) b m
  Fits-cons e es b ignored h = tt
  Fits-cons e es b unknown h = tt
  Fits-cons e es b (sets j f s) (p, q, r) =
      let ne : (j == b) ≡ false = ground arith in (p, omega arith, rw ne r)

  find-Fits : (es : List CfEntry) (b : ℕ) (l : Bytes) → FineAt P k es → Fits es b (find es b l)
  find-Fits [] b l h = tt
  find-Fits (e ∷ es) b l (p, h) = elim (Option-cases (get_value e l)) [
    | inl q ↦ rw (q, find) (Fits-cons e es b (find es (suc b) l) (find-Fits es (suc b) l h))
    | inr (s, q) ↦
        let same : (b == b) ≡ true = ground arith in rw (q, find) (p, omega arith, rw same refl)
  ]

  meaning-Fits : (es : List CfEntry) (l : Bytes) → FineAt P k es → Fits es 0 (meaning es l)
  meaning-Fits es [] h = tt
  meaning-Fits es (c ∷ s) h = elim (Bool-cases (c == b'#')) [
    | inl q ↦ rw q tt
    | inr q ↦ rw q (find-Fits es 0 (c ∷ s) h)
  ]

  -- What a line without an error writes at the offset.
  line_setting-Good :
      (es : List CfEntry) (i : ℕ) (m : Meaning)
      → Fits es 0 m
      → line_error m ≡ false
      → offset_at es 0 i ≡ some k
      → is_named i m ≡ true
      → Good (line_setting k m)
  line_setting-Good es i (sets j e s) (f, _, o) h at n =
      let q : i ≡ j = (==_iff i j).0 n in
      let r : k ≡ e.cf_dataoffset = some-inj (sym at ∙ ap (offset_at es 0) q ∙ o) in
      let same : (k == e.cf_dataoffset) ≡ true = (==_iff k e.cf_dataoffset).1 r in
      rw same ((f same).0 s h)
  line_setting-Good es i ignored f h at n = ground arith
  line_setting-Good es i unknown f h at n = ground arith

  line_setting-Known :
      (es : List CfEntry) (m : Meaning)
      → Fits es 0 m
      → line_error m ≡ false
      → Known (line_setting k m)
  line_setting-Known es ignored f h = tt
  line_setting-Known es unknown f h = tt
  line_setting-Known es (sets j e s) (f, _, _) h = elim (Bool-cases (k == e.cf_dataoffset)) [
    | inl q ↦ rw q (Good-Known _ ((f q).0 s h))
    | inr q ↦ rw q tt
  ]

  module _ (es : List CfEntry) (h : FineAt P k es) where
    latest-Known : (ls : List Bytes) → refused es ls ≡ 0 → Known (latest es k ls)
    latest-Known [] z = tt
    latest-Known (l ∷ ls) z =
        let (a, b) = add_if-zero (line_error (meaning es l)) (refused es ls) z in
        last-Known _ _ (line_setting-Known es (meaning es l) (meaning-Fits es l h) a)
          (latest-Known ls b)

    latest-Good :
        (ls : List Bytes) (i : ℕ)
        → refused es ls ≡ 0
        → offset_at es 0 i ≡ some k
        → named es ls i ≡ true
        → Good (latest es k ls)
    latest-Good [] i z at n = ground arith
    latest-Good (l ∷ ls) i z at n =
        let (a, b) = add_if-zero (line_error (meaning es l)) (refused es ls) z in
        elim (Bool-cases (named es ls i)) [
          | inl q ↦ last-Good_right _ _ (latest-Good ls i b at q)
          | inr q ↦
              last-Good _ _
                (line_setting-Good es i (meaning es l) (meaning-Fits es l h) a at (or_right q n))
                (latest-Known ls b)
        ]

  default_if :
      (b : Bool) (e : CfEntry)
      → ((k == e.cf_dataoffset) ≡ true → Fine P e)
      → Known (if b && k == e.cf_dataoffset then default_setting e.cf_type e.cf_default else none)
  default_if false e f = tt
  default_if true e f = elim (Bool-cases (k == e.cf_dataoffset)) [
    | inl q ↦ rw q (Good-Known _ ((f q).1))
    | inr q ↦ rw q tt
  ]

  defaulted-Known :
      (c : ℕ → Bool) (es : List CfEntry) (b : ℕ) → FineAt P k es → Known (defaulted c k es b)
  defaulted-Known c [] b h = tt
  defaulted-Known c (e ∷ es) b (f, h) =
      last-Known _ _ (default_if (not (c b)) e f) (defaulted-Known c es (suc b) h)

  defaulted-Good :
      (c : ℕ → Bool) (es : List CfEntry) (b i : ℕ)
      → FineAt P k es
      → c i ≡ false
      → offset_at es b i ≡ some k
      → Good (defaulted c k es b)
  defaulted-Good c [] b i h z at = ground arith
  defaulted-Good c (e ∷ es) b i (f, h) z at = elim (Bool-cases (i == b)) [
    | inl q ↦
        let r : k ≡ e.cf_dataoffset = some-inj (sym (rw q at at)) in
        let same : (k == e.cf_dataoffset) ≡ true = (==_iff k e.cf_dataoffset).1 r in
        let not_named : c b ≡ false = ap c (sym ((==_iff i b).0 q)) ∙ z in
        last-Good _ _ (rw (not_named, same) ((f same).1)) (defaulted-Known c es (suc b) h)
    | inr q ↦ last-Good_right _ _ (defaulted-Good c es (suc b) i h z (rw q at at))
  ]

  pub Settles-checked :
      (es : List CfEntry) (ls : List Bytes) (m t : ℕ → Datum) (i : ℕ)
      → FineAt P k es
      → offset_at es 0 i ≡ some k
      → refused es ls ≡ 0
      → Settles es ls m t
      → P (t k)
  Settles-checked es ls m t i h at z st = subst P (sym (st k)) (elim (Bool-cases (named es ls i)) [
    | inl q ↦
        or_else-Known _ _ (defaulted-Known (named es ls) es 0 h)
          (or_else-Good _ _ (latest-Good es h ls i z at q))
    | inr q ↦ or_else-Good _ _ (defaulted-Good (named es ls) es 0 i h q at)
  ])
