-- ===== src/CString/Laws.antt =====
-- Laws of the C library's string functions.
use messasy.Base.{ℕ, true, ◌||◌, [], ◌∷◌, ◌++◌, ◌≡◌, refl, ◌↔◌, arith, Bytes, is_some}
use messasy.CString.{str_eq, str_case_eq, strchr, has_byte}

pub str_eq_refl : (a : Bytes) → str_eq a a ≡ true
unfolding str_eq
str_eq_refl [] = refl
str_eq_refl (x ∷ xs) = ground (arith, str_eq_refl xs)

pub str_eq_iff : (a b : Bytes) → (str_eq a b ≡ true) ↔ (a ≡ b)
unfolding str_eq
str_eq_iff (x ∷ a) (y ∷ b) = ground (arith, str_eq_iff a b)
str_eq_iff _ _ = ground arith

pub str_eq_comm : (a b : Bytes) → str_eq a b ≡ str_eq b a
unfolding str_eq
str_eq_comm (x ∷ a) (y ∷ b) = ground (arith, str_eq_comm a b)
str_eq_comm [] [] = refl
str_eq_comm [] (y ∷ b) = refl
str_eq_comm (x ∷ a) [] = refl

pub strchr-has_byte : (s : Bytes) (c : ℕ) → is_some (strchr s c) ≡ has_byte c s
unfolding strchr has_byte
strchr-has_byte [] c = refl
strchr-has_byte (x ∷ xs) c = ground (arith, strchr-has_byte xs c)

pub has_byte-append : (c : ℕ) (a b : Bytes) → has_byte c (a ++ b) ≡ (has_byte c a || has_byte c b)
unfolding has_byte
has_byte-append c [] b = refl
has_byte-append c (x ∷ a) b = ground (arith, has_byte-append c a b)

pub str_case_eq_refl : (a : Bytes) → str_case_eq a a ≡ true
unfolding str_case_eq
str_case_eq_refl [] = refl
str_case_eq_refl (x ∷ xs) = ground (arith, str_case_eq_refl xs)
