-- ===== src/Address/Inside.antt =====
-- What `get_addrpart` reads of its string, and the length of what it writes.
use messasy.Base.{
  ℕ, zero, suc, ◌+◌, ◌-◌, ◌<◌, ◌≤◌, ◌≡◌, refl, Option, none, some, [], ◌∷◌, ◌==◌, if◌then◌else◌,
  length, Bytes, arith, Bool-cases, inl, inr,
}
use messasy.CString.{isspace, tolower}
use messasy.Address.Scanned.{IsSetTo, After, Beyond, Inside, Known, blank, known, scan-Known}
use messasy.Address.{
  after_bra, after_name, brackets, is_normal, char_at, Scan, scan, initial, forward, backward, copy,
  copy_from, copy_area, Area, as_is, empty, bra, name, blank_from, choose, take_area, get_addrpart,
}

forward-bounds : (str : Bytes) (n i : ℕ) → (i ≤ forward str n i) × (forward str n i ≤ i + n)
unfolding forward
forward-bounds str zero i = (omega arith, omega arith)
forward-bounds str (suc n) i =
    let (lo, hi) = forward-bounds str n (i + 1) in
    elim (Bool-cases (isspace (char_at str i))) [
      | inl h ↦ rw (forward, h) (omega arith, omega arith)
      | inr h ↦ rw (forward, h) (omega arith, omega arith)
    ]

backward-bounds :
    (str : Bytes) (n start : ℕ)
    → (start ≤ backward str n start) × (backward str n start ≤ start + n)
unfolding backward
backward-bounds str zero start = (omega arith, omega arith)
backward-bounds str (suc n) start =
    let (lo, hi) = backward-bounds str n start in
    elim (Bool-cases (isspace (char_at str (start + suc n)))) [
      | inl h ↦ rw (backward, h) (omega arith, omega arith)
      | inr h ↦ rw (backward, h) (omega arith, omega arith)
    ]

-- A copy that succeeds, of at most `n` characters.
abbrev pub Copies : ℕ → Option Bytes → Type 0
Copies n o = (r : Bytes) × (o ≡ some r) × (length r ≤ n)

copy-Copies : (n : ℕ) (str : Bytes) → n ≤ length str → Copies n (copy n str)
unfolding copy
copy-Copies zero str h = ([], refl, omega arith)
copy-Copies (suc n) [] h = absurd (omega arith)
copy-Copies (suc n) (c ∷ cs) h =
    let (r, e, l) = copy-Copies n cs (omega arith) in (tolower c ∷ r, rw e refl, omega arith)

copy_from-Copies :
    (start n : ℕ) (str : Bytes) → start + n ≤ length str → Copies n (copy_from start n str)
unfolding copy_from
copy_from-Copies zero n str h = copy-Copies n str (omega arith)
copy_from-Copies (suc start) n [] h = absurd (omega arith)
copy_from-Copies (suc start) n (c ∷ cs) h = copy_from-Copies start n cs (omega arith)

copy_area-Copies :
    (str : Bytes) (start end : ℕ)
    → start ≤ end
    → end < length str
    → Copies (length str) (copy_area str start end)
unfolding copy_area
copy_area-Copies str start end le lt =
    let (r, e, l) = copy_from-Copies start (end - start + 1) str (omega arith) in
    (r, e, omega arith)

-- Positions that are inside of a string that starts at `b`.
abbrev IsArea : ℕ → Bytes → Area → Type 0
IsArea b str as_is = Unit
IsArea b str empty = Unit
IsArea b str (bra a e) = (a + 1 < e) × (e < length str)
IsArea b str (name n) = (b < n) × (n < length str)

after_bra-IsArea :
    (str : Bytes) (b a : ℕ) (o : Option ℕ)
    → IsSetTo (λ e. Beyond (some a) e × (e < length str)) o
    → IsArea b str (after_bra str a o)
unfolding after_bra
after_bra-IsArea str b a none h = tt
after_bra-IsArea str b a (some e) (h, l) = elim (Bool-cases (blank_from str (e + 1))) [
  | inr k ↦ rw k tt
  | inl k ↦ elim (Bool-cases (a + 1 == e)) [
    | inl m ↦ rw (k, m) tt
    | inr m ↦ rw (k, m) (ground (arith, m), l)
  ]
]

after_name-IsArea :
    (str : Bytes) (b n : ℕ) (o : Option ℕ)
    → b ≤ n
    → n < length str
    → IsArea b str (after_name str b n o)
unfolding after_name
after_name-IsArea str b n none h l = tt
after_name-IsArea str b n (some m) h l = elim (Bool-cases (n == b)) [
  | inl k ↦ rw k tt
  | inr k ↦ elim (Bool-cases (blank_from str (m + 1))) [
    | inl q ↦ rw (k, q) (ground (arith, k), l)
    | inr q ↦ rw (k, q) tt
  ]
]

brackets-IsArea :
    (str : Bytes) (b : ℕ) (ao no ae ne : Option ℕ)
    → IsSetTo (λ e. Beyond ao e × (e < length str)) ae
    → IsSetTo (λ n. After (some b) n × (n < length str)) no
    → IsArea b str (brackets str b ao no ae ne)
unfolding brackets
brackets-IsArea str b (some a) (some n) ae ne h k = tt
brackets-IsArea str b (some a) none ae ne h k = after_bra-IsArea str b a ae h
brackets-IsArea str b none (some n) ae ne h (k, l) = after_name-IsArea str b n ne k l
brackets-IsArea str b none none ae ne h k = tt

take_area-Copies :
    (str : Bytes) (b : ℕ) (x : Area)
    → b < length str
    → IsArea b str x
    → Copies (length str) (take_area str b x)
unfolding take_area
take_area-Copies str b empty lt p = ([], refl, omega arith)
take_area-Copies str b as_is lt p =
    let (lo, hi) = backward-bounds str (length str - 1 - b) b in
    copy_area-Copies str b _ lo (omega arith)
take_area-Copies str b (name n) lt (bn, nl) =
    let (lo, hi) = backward-bounds str (n - 1 - b) b in copy_area-Copies str b _ lo (omega arith)
take_area-Copies str b (bra a e) lt (ae, el) =
    at_first (forward str (e - (a + 1)) (a + 1)) (forward-bounds str (e - (a + 1)) (a + 1))
  where
    at_first :
        (i : ℕ)
        → (a + 1 ≤ i) × (i ≤ a + 1 + (e - (a + 1)))
        → Copies
            (length str)
            (if i == e then some [] else copy_area str i (backward str (e - 1 - i) i))
    at_first i (lo, hi) = elim (Bool-cases (i == e)) [
      | inl k ↦ rw k ([], refl, omega arith)
      | inr k ↦
          let below : i < e = ground (arith, k) in
          let (blo, bhi) = backward-bounds str (e - 1 - i) i in
          rw k (copy_area-Copies str i _ blo (omega arith))
    ]

choose-IsArea :
    (str : Bytes) (b n : ℕ) (s : Scan)
    → n ≡ length str
    → s.bstart ≡ some b
    → Inside n s
    → IsArea b str (choose str b s)
unfolding choose
choose-IsArea str b n s same e p = elim (Bool-cases (is_normal s.mode)) [
  | inl h ↦ rw h (
      brackets-IsArea str b s.astart s.nstart s.aend s.nend (rw same at p.e_in)
        (rw (e, same) at p.n_in))
  | inr h ↦ rw h tt
]

-- For every string, `get_addrpart` reads inside of the string and returns an address that is no
-- longer than it, so that the address fits its buffer.
pub get_addrpart-Copies : (str : Bytes) → Copies (length str) (get_addrpart str)
unfolding get_addrpart
get_addrpart-Copies str = at_known (scan-Known str 0 initial (blank refl))
  where
    at_known : Known (0 + length str) (scan 0 str initial) → Copies (length str) (get_addrpart str)
    at_known (blank e) = rw (get_addrpart, e) ([], refl, omega arith)
    at_known (known b m e lt p) =
        rw (get_addrpart, e)
          (take_area-Copies str b _ (omega arith)
            (choose-IsArea str b (0 + length str) (scan 0 str initial) (omega arith) e p))
