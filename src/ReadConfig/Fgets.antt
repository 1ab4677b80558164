-- ===== src/ReadConfig/Fgets.antt =====
-- libdgconfig.c, `read_config`: what `fgets` reads of a line, and of bytes that have no newline.
use messasy.Base.{
  ℕ, zero, suc, ◌<◌, ◌≤◌, true, false, Option, none, some, [], ◌∷◌, ◌++◌, ◌≡◌, refl, arith, length,
  Bytes, is_some, ◌⊎◌,
}
use messasy.CString.{has_byte, strchr, c_str}
use messasy.CString.Laws.{strchr-has_byte, has_byte-append}
use messasy.ReadConfig.{fgets, cut}

pub fgets-line :
    (l s : Bytes) (n : ℕ)
    → has_byte b'\n' l ≡ false
    → length l < n
    → fgets n (l ++ (b'\n' ∷ s)) ≡ (l ++ (b'\n' ∷ []), s)
unfolding fgets has_byte
fgets-line [] s zero h b = grind arith
fgets-line (c ∷ l) s zero h b = grind arith
fgets-line [] s (suc n) h b = refl
fgets-line (c ∷ l) s (suc n) h b = grind (arith, fgets-line l s n)

pub cut-line : (l s : Bytes) → has_byte b'\n' l ≡ false → cut (l ++ (b'\n' ∷ s)) ≡ l
unfolding cut has_byte
cut-line [] s h = refl
cut-line (c ∷ l) s h = grind (arith, cut-line l s)

pub c_str-whole : (s : Bytes) → has_byte 0 s ≡ false → c_str s ≡ s
unfolding c_str has_byte
c_str-whole [] h = refl
c_str-whole (c ∷ s) h = grind (arith, c_str-whole s)

pub fgets-shorter : (n : ℕ) (s : Bytes) → length ((fgets n s).1) ≤ length s
unfolding fgets
fgets-shorter zero s = omega arith
fgets-shorter (suc n) [] = omega arith
fgets-shorter (suc n) (c ∷ s) = grind (arith, fgets-shorter n s)

pub fgets-consumes : (n c : ℕ) (s : Bytes) → length ((fgets (suc n) (c ∷ s)).1) ≤ length s
unfolding fgets
fgets-consumes n c s = grind (arith, fgets-shorter n s)

pub strchr-end : (l : Bytes) → is_some (strchr (l ++ (b'\n' ∷ [])) b'\n') ≡ true
unfolding has_byte
strchr-end l = grind (arith, strchr-has_byte, has_byte-append)

pub c_str-line : (l : Bytes) → has_byte 0 l ≡ false → c_str (l ++ (b'\n' ∷ [])) ≡ l ++ (b'\n' ∷ [])
unfolding has_byte
c_str-line l h = c_str-whole (l ++ (b'\n' ∷ [])) (grind (arith, has_byte-append))

pub is_some-some {ℓ} : {A : Type ℓ} {o : Option A} → is_some o ≡ true → (a : A) × (o ≡ some a)
is_some-some {o = some a} h = (a, refl)
is_some-some {o = none} h = ground arith

-- A tail with no newline in the buffer.
pub fgets-free :
    (n : ℕ) (a b : Bytes)
    → has_byte b'\n' a ≡ false
    → (n ≤ length a) ⊎ (b ≡ [])
    → has_byte b'\n' ((fgets n (a ++ b)).0) ≡ false
unfolding fgets has_byte
fgets-free zero a b h e = refl
fgets-free (suc n) (c ∷ a) b h e = grind (arith, fgets-free n a b)
fgets-free (suc n) [] [] h e = refl
fgets-free (suc n) [] (x ∷ b) h e = grind arith

pub c_str-free : (s : Bytes) → has_byte b'\n' s ≡ false → has_byte b'\n' (c_str s) ≡ false
unfolding c_str has_byte
c_str-free [] h = refl
c_str-free (c ∷ s) h = grind (arith, c_str-free s)

pub strchr-none : (s : Bytes) → has_byte b'\n' s ≡ false → strchr s b'\n' ≡ none
unfolding strchr has_byte
strchr-none [] h = refl
strchr-none (c ∷ s) h = grind (arith, strchr-none s)
