-- ===== src/Strlist/Bounded.antt =====
-- Distinct nodes below an address are no more than that many: the walks have fuel enough.
use messasy.Base.{
  ℕ, zero, suc, ◌+◌, ◌≤◌, ◌<◌, ◌≡◌, refl, false, [], ◌∷◌, ◌==◌, arith, length, Bool-cases, inl, inr,
  if◌then◌else◌,
}
use messasy.Strlist.{Ptr, Store}
use messasy.Strlist.Chain.{Cells, has, Chain}

abbrev Bounded : ℕ → Cells → Type 0
Bounded n [] = Unit
Bounded n ((a, v) ∷ xs) = (a < n) × (has a xs ≡ false) × Bounded n xs

remove : Ptr → Cells → Cells
remove p [] = []
remove p ((a, v) ∷ xs) = if a == p then xs else (a, v) ∷ remove p xs

Bounded-pred : (n : ℕ) (xs : Cells) → Bounded (suc n) xs → has n xs ≡ false → Bounded n xs
Bounded-pred n [] b out = tt
Bounded-pred n ((a, v) ∷ xs) (lt, d, rest) out =
    (ground arith, d, Bounded-pred n xs rest (ground arith))

has-remove : (a p : Ptr) (xs : Cells) → has a xs ≡ false → has a (remove p xs) ≡ false
unfolding remove
has-remove a p [] h = refl
has-remove a p ((b, v) ∷ xs) h = ground (arith, has-remove a p xs)

Bounded-remove : (n : ℕ) (xs : Cells) → Bounded (suc n) xs → Bounded n (remove n xs)
unfolding remove
Bounded-remove n [] b = tt
Bounded-remove n ((a, v) ∷ xs) (lt, d, rest) = elim (Bool-cases (a == n)) [
  | inl e ↦ rw e (Bounded-pred n xs rest (ground arith))
  | inr e ↦ rw e (ground arith, has-remove a n xs d, Bounded-remove n xs rest)
]

length-remove : (n : ℕ) (xs : Cells) → length xs ≤ suc (length (remove n xs))
unfolding remove
length-remove n [] = omega arith
length-remove n ((a, v) ∷ xs) = ground (arith, length-remove n xs)

length-Bounded : (n : ℕ) (xs : Cells) → Bounded n xs → length xs ≤ n
length-Bounded zero [] b = omega arith
length-Bounded zero ((a, v) ∷ xs) (lt, d, rest) = absurd (omega arith)
length-Bounded (suc n) xs b =
    omega (arith, length-remove n xs, length-Bounded n (remove n xs) (Bounded-remove n xs b))

Chain-Bounded : (s : Store) (stop : Ptr) (xs : Cells) → Chain s stop xs → Bounded s.brk xs
Chain-Bounded s stop [] c = tt
Chain-Bounded s stop ((a, v) ∷ xs) (pos, lt, e, out, rest) = (lt, out, Chain-Bounded s stop xs rest)

pub length-Chain : (s : Store) (stop : Ptr) (xs : Cells) → Chain s stop xs → length xs < s.brk + 1
length-Chain s stop xs c = omega (arith, length-Bounded s.brk xs (Chain-Bounded s stop xs c))
