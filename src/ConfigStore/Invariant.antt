-- ===== src/ConfigStore/Invariant.antt =====
-- What holds of the configurations in memory and of those who use them.
use messasy.Base.{
  ℕ, suc, ◌-◌, ◌≤◌, ◌<◌, ◌≡◌, true, false, Option, none, some, List, [], ◌∷◌, ◌==◌, ==_iff,
  if◌then◌else◌, Bool-cases, inl, inr, ◌⊎◌, refl, ap, arith,
}
use messasy.ConfigStore.{Entry, Configs, put}

-- How often an address is among the references held.
unfoldable pub count : ℕ → List ℕ → ℕ
count c [] = 0
count c (d ∷ ds) = let rest = count c ds in if d == c then suc rest else rest

-- One reference less.
unfoldable pub drop : ℕ → List ℕ → List ℕ
drop c [] = []
drop c (d ∷ ds) = let rest = drop c ds in if d == c then ds else d ∷ rest

-- Every configuration in memory counts the references to it; only the current one may have none.
-- A configuration that is not current waits to be released, and `config_reloading` says so.
pub record IsSound (held : List ℕ) (s : Configs) : Type 0 where
  pub current : (e : Entry) × (s.at s.cur ≡ some e) × (e.reloaded ≡ false)
  pub counted : (c : ℕ) (e : Entry) → s.at c ≡ some e → e.ref_count ≡ count c held
  pub gone : (c : ℕ) → s.at c ≡ none → count c held ≡ 0
  pub waits :
      (c : ℕ) (e : Entry)
      → s.at c ≡ some e
      → (c == s.cur) ≡ false
      → (e.reloaded ≡ true) × (1 ≤ e.ref_count) × (s.reloading ≡ true)
  pub one :
      (c d : ℕ) (e f : Entry)
      → s.at c ≡ some e
      → s.at d ≡ some f
      → (c == s.cur) ≡ false
      → (d == s.cur) ≡ false
      → c ≡ d
  pub busy : s.reloading ≡ true → (c : ℕ) × (e : Entry) × (s.at c ≡ some e) × ((c == s.cur) ≡ false)
  pub fresh : (c : ℕ) → s.next ≤ c → s.at c ≡ none
  pub not_null : 0 < s.cur

-- An address is the one that was written, or keeps what it had.
pub put-cases :
    (c : ℕ) (o : Option Entry) (at : ℕ → Option Entry) (d : ℕ)
    → ((d ≡ c) × (put c o at d ≡ o)) ⊎ (((d == c) ≡ false) × (put c o at d ≡ at d))
unfolding put
put-cases c o at d = elim (Bool-cases (d == c)) [
  | inl h ↦ inl ((==_iff d c).0 h, rw h refl)
  | inr h ↦ inr (h, rw h refl)
]

pub some-inj : {e f : Entry} → (some e ≡ some f) → e ≡ f
some-inj {e} {f} h = ap (from e) h
  where
    from : Entry → Option Entry → Entry
    from d none = d
    from d (some x) = x

pub count_same : (c d : ℕ) (ds : List ℕ) → d ≡ c → count c (d ∷ ds) ≡ suc (count c ds)
unfolding count
count_same c d ds h = ground arith

pub count_other : (c d : ℕ) (ds : List ℕ) → (c == d) ≡ false → count c (d ∷ ds) ≡ count c ds
unfolding count
count_other c d ds h = ground arith

pub count-drop_same : (c : ℕ) (ds : List ℕ) → count c (drop c ds) ≡ count c ds - 1
unfolding count drop
count-drop_same c [] = refl
count-drop_same c (d ∷ ds) = ground (arith, count-drop_same c ds)

pub count-drop_other : (c d : ℕ) (ds : List ℕ) → (d == c) ≡ false → count d (drop c ds) ≡ count d ds
unfolding count drop
count-drop_other c d [] h = refl
count-drop_other c d (x ∷ ds) h = ground (arith, count-drop_other c d ds)
