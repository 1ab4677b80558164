-- ===== src/ReadConfig/Number.antt =====
-- libdgconfig.c, `read_config`: the integers of the file, and what becomes of them as
-- `unsigned int`.
use messasy.Base.{
  ℕ, zero, suc, ◌+◌, ◌-◌, ◌*◌, ◌/◌, ◌%◌, ◌^◌, ◌<◌, ◌≤◌, Bool, true, false, none, [], ◌∷◌, ◌++◌, ◌≡◌,
  refl, ◌∙◌, ap, sym, arith, inl, inr, ltb, if◌then◌else◌, All, Bytes, Bool-cases, append-nil,
}
use messasy.CString.{isspace, skip_blanks, is_empty}
use messasy.ReadConfig.{
  CfEntry, number, Env, Reading, store, to_unsigned, checks, is_int_plus, read_int,
}
use messasy.CString.Strtol.{
  Long, long_max, is_digit, read_digits, starts_digit, skip_spaces, clamp, read_number, read_sign,
  strtol,
}
use messasy.ReadConfig.Meaning.{not_long_max, and_false}

-- The decimal digits of a number, the first of them not 0 unless it is 0.
unfoldable pub decimal_loop : ℕ → ℕ → Bytes
decimal_loop zero n = []
decimal_loop (suc f) n =
    let rest = decimal_loop f (n / 10) in
    if ltb n 10 then (b'0' + n) ∷ [] else rest ++ ((b'0' + n % 10) ∷ [])

unfoldable pub decimal : ℕ → Bytes
unfolding decimal_loop
decimal n = decimal_loop (suc n) n

abbrev IsDigit : ℕ → Type 0
IsDigit c = is_digit c ≡ true

abbrev value : ℕ → Bytes → ℕ
value n [] = n
value n (c ∷ s) = value (n * 10 + (c - b'0')) s

value-append : (n : ℕ) (a b : Bytes) → value n (a ++ b) ≡ value (value n a) b
value-append n [] b = refl
value-append n (c ∷ a) b = value-append (n * 10 + (c - b'0')) a b

All-append : (a b : Bytes) → All IsDigit a → All IsDigit b → All IsDigit (a ++ b)
All-append [] b h k = k
All-append (c ∷ a) b (p, h) k = (p, All-append a b h k)

read_digits-append :
    (a b : Bytes) (n : ℕ) → All IsDigit a → read_digits n (a ++ b) ≡ read_digits (value n a) b
unfolding read_digits is_digit
read_digits-append [] b n h = refl
read_digits-append (c ∷ a) b n (p, h) = rw p (read_digits-append a b (n * 10 + (c - b'0')) h)

read_digits-end : (n : ℕ) (s : Bytes) → starts_digit s ≡ false → read_digits n s ≡ (n, s)
unfolding read_digits starts_digit
read_digits-end n [] h = refl
read_digits-end n (c ∷ s) h = rw h refl

char-IsDigit : (d : ℕ) → d < 10 → IsDigit (b'0' + d)
unfolding is_digit
char-IsDigit d h = ground arith

decimal_loop-digits :
    (f n : ℕ) → n < f → All IsDigit (decimal_loop f n) × (value 0 (decimal_loop f n) ≡ n)
unfolding decimal_loop
decimal_loop-digits zero n h = ground arith
decimal_loop-digits (suc f) n h = elim (Bool-cases (ltb n 10)) [
  | inl e ↦ rw e ((char-IsDigit n (ground arith), tt), omega arith)
  | inr e ↦
      let (p, q) = decimal_loop-digits f (n / 10) (ground arith) in
      rw e (
        All-append _ _ p (char-IsDigit (n % 10) (omega arith), tt),
        value-append 0 (decimal_loop f (n / 10)) ((b'0' + n % 10) ∷ [])
            ∙ ap (λ v. v * 10 + ((b'0' + n % 10) - b'0')) q
            ∙ omega arith,
      )
]

digit_start :
    (s t : Bytes)
    → All IsDigit s
    → is_empty s ≡ false
    → (starts_digit (s ++ t) ≡ true) × (skip_spaces (s ++ t) ≡ s ++ t)
unfolding starts_digit skip_spaces is_digit isspace is_empty
digit_start [] t h ne = ground arith
digit_start (c ∷ s) t (p, h) ne = (p, ground arith)

is_empty-append : (s : Bytes) (c : ℕ) → is_empty (s ++ (c ∷ [])) ≡ false
unfolding is_empty
is_empty-append [] c = refl
is_empty-append (x ∷ s) c = refl

decimal-cons : (n : ℕ) → is_empty (decimal n) ≡ false
unfolding decimal decimal_loop is_empty
decimal-cons n = elim (Bool-cases (ltb n 10)) [
  | inl e ↦ rw e refl
  | inr e ↦ rw e (is_empty-append (decimal_loop n (n / 10)) (b'0' + n % 10))
]

decimal-digits : (n : ℕ) → All IsDigit (decimal n) × (value 0 (decimal n) ≡ n)
unfolding decimal
decimal-digits n = decimal_loop-digits (suc n) n (omega arith)

clamp-small : (b : Bool) (n : ℕ) → n ≤ long_max → clamp b n ≡ n
unfolding clamp
clamp-small true n h = ground arith
clamp-small false n h = ground arith

read_number-decimal :
    (b : Bool) (start t : Bytes) (n : ℕ)
    → n ≤ long_max
    → starts_digit t ≡ false
    → read_number b start (decimal n ++ t) ≡ (record { negative = b; magnitude = n }, t)
unfolding read_number
read_number-decimal b start t n small h =
    let (p, q) = decimal-digits n in
    let d : read_digits 0 (decimal n ++ t) ≡ (n, t) =
      read_digits-append (decimal n) t 0 p ∙ read_digits-end _ t h ∙ ap (λ v. (v, t)) q in
    rw ((digit_start (decimal n) t p (decimal-cons n)).0, d, clamp-small b n small) refl

read_sign-digit :
    (start s : Bytes) → starts_digit s ≡ true → read_sign start s ≡ read_number false start s
unfolding read_sign starts_digit is_digit
read_sign-digit start [] h = refl
read_sign-digit start (c ∷ s) h = ground arith

-- What `strtol` reads of a number that a `long` can hold.
pub strtol-decimal :
    (n : ℕ) (t : Bytes)
    → n ≤ long_max
    → starts_digit t ≡ false
    → (strtol (decimal n ++ t) ≡ (record { negative = false; magnitude = n }, t))
      × (strtol (b'-' ∷ (decimal n ++ t)) ≡ (record { negative = true; magnitude = n }, t))
unfolding strtol skip_spaces isspace
strtol-decimal n t small h =
    let (p, q) = digit_start (decimal n) t ((decimal-digits n).0) (decimal-cons n) in
    (
      rw q (
          read_sign-digit (decimal n ++ t) (decimal n ++ t) p
          ∙ read_number-decimal false (decimal n ++ t) t n small h),
      unfold read_sign in read_number-decimal true (b'-' ∷ (decimal n ++ t)) t n small h,
    )

module _ (env : Env) (e : CfEntry) (r : Reading) where
  read_int-number :
      (s : Bytes) (n : Long)
      → strtol s ≡ (n, [])
      → e.int_check ≡ none
      → read_int env e s r ≡ store e.cf_dataoffset (number (to_unsigned n)) r
  unfolding read_int skip_blanks is_empty checks
  read_int-number s n h c =
      let (p, q) = not_long_max n in rw (h, c, p, q, and_false (is_int_plus e.cf_type)) refl

  -- A decimal number that a `long` holds is stored modulo 2 ^ 32, and so is its negation, also
  -- where the entry asks for a positive number, if the entry has no check of its own.
  pub read_int-decimal :
      (n : ℕ)
      → n ≤ long_max
      → e.int_check ≡ none
      → (read_int env e (decimal n) r ≡ store e.cf_dataoffset (number (n % 2 ^ 32)) r)
        × (read_int env e (b'-' ∷ decimal n) r
            ≡ store e.cf_dataoffset (number ((2 ^ 32 - n % 2 ^ 32) % 2 ^ 32)) r)
  unfolding to_unsigned starts_digit
  read_int-decimal n small c =
      let (p, q) = strtol-decimal n [] small refl in
      (
        read_int-number (decimal n) _ (ap strtol (sym (append-nil (decimal n))) ∙ p) c,
        read_int-number (b'-' ∷ decimal n) _
            (ap (λ x. strtol (b'-' ∷ x)) (sym (append-nil (decimal n))) ∙ q) c,
      )
