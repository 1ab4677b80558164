-- ===== src/Command/Strrep.antt =====
-- msy_config.c, `cmd_strrep`: the array holds what the string holds.
use messasy.Base.{
  ℕ, suc, ◌+◌, ◌≤◌, false, some, List, [], ◌∷◌, ◌++◌, map, ◌==◌, ltb, ◌≡◌, refl, ◌∙◌, ap, sym,
  arith, inl, inr, Bytes, length, All, Bool-cases, ==_iff,
}
use messasy.CString.{has_byte}
use messasy.Command.{count_sep, starts, string_at, nulls, arguments, cmd_strrep}

-- The arguments with a separator between each two.
abbrev pub join : ℕ → List Bytes → Bytes
join sep [] = []
join sep (x ∷ []) = x
join sep (x ∷ y ∷ xs) = x ++ (sep ∷ join sep (y ∷ xs))

length-starts :
    (sep : ℕ) (s : Bytes) → length (map (string_at sep) (starts sep s)) ≡ count_sep sep s
unfolding starts count_sep
length-starts sep [] = refl
length-starts sep (c ∷ s) = elim (Bool-cases (c == sep)) [
  | inl e ↦ rw e (ap (λ (n : ℕ). suc n) (length-starts sep s))
  | inr e ↦ rw e (length-starts sep s)
]

join-cons :
    (sep c : ℕ) (x : Bytes) (xs : List Bytes) → join sep ((c ∷ x) ∷ xs) ≡ c ∷ join sep (x ∷ xs)
join-cons sep c x [] = refl
join-cons sep c x (y ∷ xs) = refl

join-arguments :
    (sep : ℕ) (s : Bytes) → join sep (string_at sep s ∷ map (string_at sep) (starts sep s)) ≡ s
unfolding starts string_at
join-arguments sep [] = refl
join-arguments sep (c ∷ s) = elim (Bool-cases (c == sep)) [
  | inl e ↦
      rw e (ap (◌∷◌ sep) (join-arguments sep s) ∙ ap (λ (x : ℕ). x ∷ s) (sym ((==_iff c sep).0 e)))
  | inr e ↦ rw e (join-cons sep c _ _ ∙ ap (◌∷◌ c) (join-arguments sep s))
]

string_at-free : (sep : ℕ) (s : Bytes) → has_byte sep (string_at sep s) ≡ false
unfolding string_at has_byte
string_at-free sep [] = refl
string_at-free sep (c ∷ s) = elim (Bool-cases (c == sep)) [
  | inl e ↦ rw e refl
  | inr e ↦ rw (e, has_byte) (rw e (string_at-free sep s))
]

map-free : (sep : ℕ) (xs : List Bytes) → All (λ x. has_byte sep x ≡ false) (map (string_at sep) xs)
map-free sep [] = tt
map-free sep (x ∷ xs) = (string_at-free sep x, map-free sep xs)

-- With at least one NULL asked for, `cmd_strrep` returns strings that hold no separator and give
-- the argument when they are joined by it, as many as the array has room for before the NULLs,
-- and then these.
pub cmd_strrep-arguments :
    (str : Bytes) (sep epoo : ℕ)
    → 1 ≤ epoo
    → (xs : List Bytes) × (cmd_strrep str sep epoo ≡ some (map some xs ++ nulls epoo))
      × (length xs ≡ 1 + count_sep sep str)
      × (join sep xs ≡ str)
      × All (λ x. has_byte sep x ≡ false) xs
unfolding cmd_strrep arguments
cmd_strrep-arguments str sep epoo h =
    let some_null : ltb epoo 1 ≡ false = ground arith in
    (
      arguments sep str,
      rw some_null refl,
      omega (arith, length-starts sep str),
      join-arguments sep str,
      map-free sep (str ∷ starts sep str),
    )
