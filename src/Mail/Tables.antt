-- ===== src/Mail/Tables.antt =====
-- Facts about small numbers that are checked number by number, for the decoders of libdgmail.c.
use Prim.Native.Nat.{bit_or}
use messasy.Base.{
  ℕ, zero, suc, ◌*◌, ◌/◌, ◌%◌, ◌<◌, ◌≡◌, refl, Bool, true, false, ◌&&◌, Option, none, some, ◌==◌,
  ==_iff, arith,
}

-- Every number below `n` is tried.
unfoldable pub all_below : ℕ → (ℕ → Bool) → Bool
all_below zero p = true
all_below (suc n) p = p n && all_below n p

pub all_below-at : (n : ℕ) (p : ℕ → Bool) (x : ℕ) → all_below n p ≡ true → x < n → p x ≡ true
unfolding all_below
all_below-at zero p x h lt = absurd (omega arith)
all_below-at (suc n) p x h lt = ground (arith, all_below-at n p x)

-- Whether a character is decoded as `d`.
abbrev pub is_value : ℕ → Option ℕ → Bool
is_value d none = false
is_value d (some e) = e == d

pub or_two : all_below 256 (λ n. bit_or (n / 4 * 4) (n % 4) == n) ≡ true
unfolding all_below
or_two = refl

pub or_four : all_below 1024 (λ n. bit_or (n / 16 * 16) (n % 16) == n) ≡ true
unfolding all_below
or_four = refl

pub or_six : all_below 4096 (λ n. bit_or (n / 64 * 64) (n % 64) == n) ≡ true
unfolding all_below
or_six = refl

-- Two fields of a byte that do not overlap: the case of `w` low bits.
module _ (n w : ℕ) (p : all_below n (λ k. bit_or (k / w * w) (k % w) == k) ≡ true) where
  pub fields : (k x y : ℕ) → k < n → k / w ≡ x → k % w ≡ y → bit_or (x * w) y ≡ k
  fields k x y lt ex ey = rw (← ex, ← ey) ((==_iff _ k).0 (all_below-at n _ k p lt))
