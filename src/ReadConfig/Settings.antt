-- ===== src/ReadConfig/Settings.antt =====
-- libdgconfig.c, `read_config`: the values and the number of errors that a whole file leaves.
use messasy.ReadConfig.Expected.{
  or_else, line_setting, is_named, latest, named, refused, default_setting, defaulted, is_none,
  missing, or_else-last,
}
use messasy.Base.{
  ℕ, suc, ◌+◌, Bool, true, false, ◌&&◌, ◌||◌, not, Option, none, some, List, [], ◌∷◌, ◌≡◌, refl,
  sym, ◌∙◌, ap, arith, inl, inr, ◌==◌, if◌then◌else◌, All, Bytes, Bool-cases, Option-cases,
}
use messasy.ReadConfig.{
  CfType, cf_integer, cf_int_plus, cf_string, cf_other, CfEntry, Datum, Env, Reading, errors,
  assign, mark, add_error, store, start, store_copy, default_type, set_default, set_defaults,
  end_read, read_config_line, read_config,
}
use messasy.ReadConfig.Lines.{IsLine, unlines, fold, read_config-lines}
use messasy.ReadConfig.Meaning.{
  Meaning, ignored, unknown, sets, meaning, setting, put_setting, add_if, line_at, line_check,
  read_config_line-Does,
}

put_setting-or_else :
    (o k : ℕ) (v : Option Datum) (m : ℕ → Datum)
    → put_setting o v m k ≡ or_else (if k == o then v else none) (m k)
unfolding assign
put_setting-or_else o k none m = elim (Bool-cases (k == o)) [
  | inl e ↦ rw e refl
  | inr e ↦ rw e refl
]
put_setting-or_else o k (some v) m = elim (Bool-cases (k == o)) [
  | inl e ↦ rw e refl
  | inr e ↦ rw e refl
]

line_at-or_else :
    (m : Meaning) (k : ℕ) (f : ℕ → Datum) → line_at m f k ≡ or_else (line_setting k m) (f k)
line_at-or_else ignored k f = refl
line_at-or_else unknown k f = refl
line_at-or_else (sets i e s) k f = put_setting-or_else e.cf_dataoffset k (setting e.cf_type e s) f

line_check-is_named :
    (m : Meaning) (k : ℕ) (c : ℕ → Bool) → line_check m c k ≡ (is_named k m || c k)
unfolding mark
line_check-is_named ignored k c = refl
line_check-is_named unknown k c = refl
line_check-is_named (sets i e s) k c = elim (Bool-cases (k == i)) [
  | inl e ↦ rw e refl
  | inr e ↦ rw e refl
]

or_assoc : (a b c : Bool) → ((a || b) || c) ≡ (a || (b || c))
or_assoc true b c = refl
or_assoc false b c = refl

add_if-plus : (b : Bool) (m n : ℕ) → m + add_if b n ≡ add_if b m + n
add_if-plus b m n = ground arith

module _ (env : Env) (has : (n : ℕ) → env.has_memory n ≡ true) (es : List CfEntry) where
  -- The state after the lines.
  fold-at :
      (ls : List Bytes) (r : Reading) (k : ℕ)
      → (fold env es ls r).at k ≡ or_else (latest es k ls) (r.at k)
  fold-at [] r k = refl
  fold-at (l ∷ ls) r k =
      fold-at ls (read_config_line env es l r) k
      ∙ ap (or_else (latest es k ls)) (
          ap (λ f. f k) ((read_config_line-Does env has es l r).0)
          ∙ line_at-or_else (meaning es l) k r.at)
      ∙ sym (or_else-last (line_setting k (meaning es l)) (latest es k ls) (r.at k))

  fold-check :
      (ls : List Bytes) (r : Reading) (i : ℕ)
      → (fold env es ls r).check i ≡ (named es ls i || r.check i)
  fold-check [] r i = refl
  fold-check (l ∷ ls) r i =
      fold-check ls (read_config_line env es l r) i
      ∙ ap (λ b. named es ls i || b)
          (ap (λ f. f i) ((read_config_line-Does env has es l r).1)
            ∙ line_check-is_named (meaning es l) i r.check)
      ∙ sym (or_assoc (named es ls i) (is_named i (meaning es l)) (r.check i))

  fold-error : (ls : List Bytes) (r : Reading) → (fold env es ls r).error ≡ refused es ls + r.error
  fold-error [] r = omega arith
  fold-error (l ∷ ls) r =
      fold-error ls (read_config_line env es l r)
      ∙ ap (λ n. refused es ls + n) ((read_config_line-Does env has es l r).2)
      ∙ grind arith

module _ (env : Env) (has : (n : ℕ) → env.has_memory n ≡ true) where
  -- The state after the defaults.
  store_default :
      (ty : CfType) (e : CfEntry) (s : Bytes) (r : Reading)
      → ((default_type env ty e s r).at
          ≡ put_setting e.cf_dataoffset (default_setting ty (some s)) r.at)
        × ((default_type env ty e s r).check ≡ r.check)
        × ((default_type env ty e s r).error ≡ r.error)
  unfolding default_type store_copy store add_error
  store_default cf_integer e s r = (refl, refl, refl)
  store_default cf_int_plus e s r = (refl, refl, refl)
  store_default cf_string e s r = rw (has r.calls) (refl, refl, refl)
  store_default cf_other e s r = (refl, refl, refl)

  -- One entry's default, given the test of its index.
  abbrev Defaulted : Bool → CfEntry → Reading → Reading → Type 0
  Defaulted b e r t =
      ((k : ℕ)
        → t.at k
          ≡ or_else
              (if not b && k == e.cf_dataoffset
                then default_setting e.cf_type e.cf_default
                else none)
              (r.at k))
      × (t.check ≡ r.check)
      × (t.error ≡ add_if (not b && is_none e.cf_default) r.error)

  set_default-Defaulted :
      (e : CfEntry) (i : ℕ) (r : Reading) → Defaulted (r.check i) e r (set_default env e i r)
  unfolding set_default add_error
  set_default-Defaulted e i r = elim (Bool-cases (r.check i)) [
    | inl p ↦ rw p ((λ k. refl), refl, refl)
    | inr p ↦ elim (Option-cases e.cf_default) [
      | inl q ↦
          rw (p, q, set_default)
            ((λ k. put_setting-or_else e.cf_dataoffset k none r.at), refl, refl)
      | inr (s, q) ↦
          let (x, y, z) = store_default e.cf_type e s r in
          rw (p, q, set_default)
            (
              (λ k.
                  ap (λ f. f k) x
                  ∙ put_setting-or_else e.cf_dataoffset k (default_setting e.cf_type (some s))
                      r.at),
              y,
              z,
            )
    ]
  ]

  set_defaults-at :
      (es : List CfEntry) (i : ℕ) (r : Reading) (k : ℕ)
      → (set_defaults env es i r).at k ≡ or_else (defaulted r.check k es i) (r.at k)
  unfolding set_defaults
  set_defaults-at [] i r k = refl
  set_defaults-at (e ∷ es) i r k =
      let t = set_default env e i r in
      let (x, y, z) = set_default-Defaulted e i r in
      set_defaults-at es (suc i) t k
      ∙ ap (λ c. or_else (defaulted c k es (suc i)) (t.at k)) y
      ∙ ap (or_else (defaulted r.check k es (suc i))) (x k)
      ∙ sym (or_else-last _ (defaulted r.check k es (suc i)) (r.at k))

  set_defaults-error :
      (es : List CfEntry) (i : ℕ) (r : Reading)
      → (set_defaults env es i r).error ≡ missing r.check es i + r.error
  unfolding set_defaults
  set_defaults-error [] i r = omega arith
  set_defaults-error (e ∷ es) i r =
      let t = set_default env e i r in
      let (x, y, z) = set_default-Defaulted e i r in
      set_defaults-error es (suc i) t
      ∙ ap (λ c. missing c es (suc i) + t.error) y
      ∙ ap (λ n. missing r.check es (suc i) + n) z
      ∙ add_if-plus (not (r.check i) && is_none e.cf_default) (missing r.check es (suc i)) r.error

or_false : (b : Bool) → (b || false) ≡ b
or_false true = refl
or_false false = refl

defaulted-same :
    (c d : ℕ → Bool) (k : ℕ) (es : List CfEntry) (i : ℕ)
    → ((j : ℕ) → c j ≡ d j)
    → defaulted c k es i ≡ defaulted d k es i
defaulted-same c d k [] i h = refl
defaulted-same c d k (e ∷ es) i h = rw (h i, defaulted-same c d k es (suc i) h) refl

missing-same :
    (c d : ℕ → Bool) (es : List CfEntry) (i : ℕ)
    → ((j : ℕ) → c j ≡ d j)
    → missing c es i ≡ missing d es i
missing-same c d [] i h = refl
missing-same c d (e ∷ es) i h = rw (h i, missing-same c d es (suc i) h) refl

plus_zero : (n : ℕ) → n + 0 ≡ n
plus_zero n = omega arith

-- What stands at the offsets at the end.
abbrev pub Settles : List CfEntry → List Bytes → (ℕ → Datum) → (ℕ → Datum) → Type 0
Settles es ls m t =
    (k : ℕ) → t k ≡ or_else (defaulted (named es ls) k es 0) (or_else (latest es k ls) (m k))

-- Of a file of lines that have no NUL and fit the buffer, while memory lasts, `read_config`
-- returns the number of the lines that name no entry or whose value is refused, and of the
-- entries that no line names and that have no default. At each offset it leaves the default of
-- the last entry there that no line names and that has one to store, or else the last value that
-- was accepted there, or else what was there.
pub read_config-Settles :
    (env : Env) (es : List CfEntry) (ls : List Bytes) (m : ℕ → Datum)
    → ((n : ℕ) → env.has_memory n ≡ true)
    → All IsLine ls
    → (t : ℕ → Datum) × (read_config env (some (unlines ls)) es m
        ≡ some (errors (missing (named es ls) es 0 + refused es ls), t))
      × Settles es ls m t
unfolding end_read start
read_config-Settles env es ls m has h =
    let r = fold env es ls (start m) in
    let c : (i : ℕ) → r.check i ≡ named es ls i =
      λ i. fold-check env has es ls (start m) i ∙ or_false (named es ls i) in
    let count : (set_defaults env es 0 r).error ≡ missing (named es ls) es 0 + refused es ls =
      set_defaults-error env has es 0 r
      ∙ ap (λ n. n + r.error) (missing-same r.check (named es ls) es 0 c)
      ∙ ap (λ n. missing (named es ls) es 0 + n)
          (fold-error env has es ls (start m) ∙ plus_zero (refused es ls)) in
    (
      (set_defaults env es 0 r).at,
      read_config-lines env es ls m h (has 0)
          ∙ ap (λ n. some (errors n, (set_defaults env es 0 r).at)) count,
      λ k.
          set_defaults-at env has es 0 r k
          ∙ ap (λ x. or_else x (r.at k)) (defaulted-same r.check (named es ls) k es 0 c)
          ∙ ap (or_else (defaulted (named es ls) k es 0)) (fold-at env has es ls (start m) k),
    )
