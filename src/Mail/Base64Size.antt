-- ===== src/Mail/Base64Size.antt =====
-- The sizes of the buffers that the Base64 functions allocate.
use messasy.Base.{
  ℕ, zero, suc, ◌+◌, ◌-◌, ◌*◌, ◌/◌, ◌%◌, ◌^◌, ◌<◌, ◌≤◌, ◌≡◌, refl, ◌||◌, Option, none, some, [],
  ◌∷◌, ◌==◌, length, Bytes, arith, Bool-cases, inl, inr, ◌⊎◌, Option-cases,
}
use messasy.CString.{isspace}
use messasy.Mail.{b64char2i, cons_some, b64_loop, decode_b64, pad, encode_loop, b64_len, encode_b64}

length-pad : (n : ℕ) → length (pad n) ≡ n
unfolding pad
length-pad zero = refl
length-pad (suc n) = omega (arith, length-pad n)

-- The buffer ends where the padding does, unless no padding is written.
length-encode_loop :
    (blen bcnt : ℕ) (s : Bytes)
    → (length s % 3 ≡ 0) ⊎ (blen ≡ bcnt + (length s + 2) / 3 * 4)
    → length (encode_loop blen bcnt s) ≡ (length s + 2) / 3 * 4
unfolding encode_loop
length-encode_loop blen bcnt [] h = omega arith
length-encode_loop blen bcnt (a ∷ []) h = omega (arith, length-pad (blen - (bcnt + 2)))
length-encode_loop blen bcnt (a ∷ b ∷ []) h = omega (arith, length-pad (blen - (bcnt + 3)))
length-encode_loop blen bcnt (a ∷ b ∷ c ∷ s) h =
    omega (arith, length-encode_loop blen (bcnt + 4) s (ground arith))

b64_len_padded : (n : ℕ) → n < 2 ^ 29 → (n % 3 ≡ 0) ⊎ (b64_len n ≡ 0 + (n + 2) / 3 * 4)
unfolding b64_len
b64_len_padded n h = ground arith

b64_len_enough : (n : ℕ) → n < 2 ^ 29 → (n + 2) / 3 * 4 ≤ b64_len n
unfolding b64_len
b64_len_enough n h = ground arith

-- Of a string of fewer than 2 ^ 29 bytes, for which the size does not overflow, `encode_b64`
-- writes four characters for every three bytes begun, and they fit its buffer.
pub length-encode_b64 :
    (s : Bytes)
    → length s < 2 ^ 29
    → (length (encode_b64 s) ≡ (length s + 2) / 3 * 4)
      × (length (encode_b64 s) ≤ b64_len (length s))
unfolding encode_b64
length-encode_b64 s h =
    let n : length (encode_loop (b64_len (length s)) 0 s) ≡ (length s + 2) / 3 * 4 =
      length-encode_loop (b64_len (length s)) 0 s (b64_len_padded (length s) h) in
    (n, omega (arith, b64_len_enough (length s) h))

abbrev Fits : ℕ → Option Bytes → Type 0
Fits n r = (cs : Bytes) → r ≡ some cs → length cs ≤ n

cons_some-Fits : (c n : ℕ) (r : Option Bytes) → Fits n r → Fits (suc n) (cons_some c r)
cons_some-Fits c n none h cs e = cc
cons_some-Fits c n (some ds) h cs e = ground (arith, h ds refl)

Fits-weaken : (n : ℕ) (r : Option Bytes) → Fits n r → Fits (suc n) r
Fits-weaken n r h cs e = omega (arith, h cs e)

b64_loop-Fits : (src : Bytes) (i d0 d1 d2 : ℕ) → Fits (length src) (b64_loop i d0 d1 d2 src)
unfolding b64_loop
b64_loop-Fits [] i d0 d1 d2 = λ cs e. ground arith
b64_loop-Fits (c ∷ src) i d0 d1 d2 = elim (Bool-cases (c == b'=' || c == b'?')) [
  | inl end ↦ rw (b64_loop, end) (λ cs e. ground arith)
  | inr end ↦ elim (Bool-cases (isspace c)) [
    | inl space ↦ rw (b64_loop, end, space) (Fits-weaken _ _ (b64_loop-Fits src i d0 d1 d2))
    | inr space ↦ elim (Option-cases (b64char2i c)) [
      | inl bad ↦ rw (b64_loop, end, space, bad) (λ cs e. cc)
      | inr (d, good) ↦ elim i as (λ k. Fits (suc (length src)) (b64_loop k d0 d1 d2 (c ∷ src))) [
        | zero ↦ rw (b64_loop, end, space, good) (Fits-weaken _ _ (b64_loop-Fits src 1 d d1 d2))
        | suc zero ↦
            rw (b64_loop, end, space, good) (cons_some-Fits _ _ _ (b64_loop-Fits src 2 d0 d d2))
        | suc (suc zero) ↦
            rw (b64_loop, end, space, good) (cons_some-Fits _ _ _ (b64_loop-Fits src 3 d0 d1 d))
        | suc (suc (suc _)) ↦
            rw (b64_loop, end, space, good) (cons_some-Fits _ _ _ (b64_loop-Fits src 0 d0 d1 d2))
      ]
    ]
  ]
]

-- `decode_b64` writes no more bytes than its text has, which is the size of its buffer.
decode_b64-length : (src cs : Bytes) → decode_b64 src ≡ some cs → length cs ≤ length src
unfolding decode_b64
decode_b64-length src cs e = b64_loop-Fits src 0 0 0 0 cs e
