-- ===== src/Address/Bracketed.antt =====
-- The form `name <address>`.
use messasy.Base.{
  ℕ, zero, suc, ◌+◌, ◌-◌, ◌<◌, ◌≡◌, refl, sym, ap, ◌∙◌, Bool, true, false, ◌&&◌, not, none, some,
  [], ◌∷◌, ◌++◌, map, append_assoc, ◌==◌, if◌then◌else◌, length, length-append, Bytes, All, arith,
}
use messasy.CString.{isspace, tolower}
use messasy.Address.{
  mode_n, Scan, at_normal, at_char, scan_char, scan, initial, char_at, forward, backward, copy,
  copy_from, copy_area, bra, blank_from, after_bra, brackets, is_normal, choose, take_area,
  get_addrpart,
}

-- None of the characters that `get_addrpart` looks for.
unfoldable pub is_plain : ℕ → Bool
is_plain c =
    not (c == b'\\')
    && (not (c == b'"')
        && (not (c == b'<') && (not (c == b'>') && (not (c == b'(') && not (c == b')')))))

abbrev pub IsWord : ℕ → Type 0
IsWord c = (is_plain c ≡ true) × (isspace c ≡ false)

scan-append :
    (xs ys : Bytes) (i : ℕ) (s : Scan) → scan i (xs ++ ys) s ≡ scan (i + length xs) ys (scan i xs s)
unfolding scan
scan-append [] ys i s = let same : i + 0 ≡ i = omega arith in rw same refl
scan-append (x ∷ xs) ys i s =
    let same : i + suc (length xs) ≡ i + 1 + length xs = omega arith in
    rw same (scan-append xs ys (i + 1) (scan_char i x s))

scan_char-plain : (i c : ℕ) (s : Scan) → s.mode ≡ mode_n → is_plain c ≡ true → scan_char i c s ≡ s
unfolding scan_char at_char at_normal is_plain
scan_char-plain i c s m h = ground (arith, m, h)

scan-plain :
    (cs : Bytes) (i : ℕ) (s : Scan)
    → s.mode ≡ mode_n
    → All (λ c. is_plain c ≡ true) cs
    → scan i cs s ≡ s
unfolding scan
scan-plain [] i s m h = refl
scan-plain (c ∷ cs) i s m (h, hs) =
    ap (scan (i + 1) cs) (scan_char-plain i c s m h) ∙ scan-plain cs (i + 1) s m hs

char_at-append : (xs ys : Bytes) (j : ℕ) → char_at (xs ++ ys) (length xs + j) ≡ char_at ys j
unfolding char_at
char_at-append [] ys j = let same : 0 + j ≡ j = omega arith in rw same refl
char_at-append (x ∷ xs) ys j =
    let same : suc (length xs) + j ≡ suc (length xs + j) = omega arith in
    rw same (char_at-append xs ys j)

char_at-word :
    (cs z : Bytes) (j : ℕ) → All IsWord cs → j < length cs → isspace (char_at (cs ++ z) j) ≡ false
unfolding char_at
char_at-word [] z j h lt = absurd (omega arith)
char_at-word (c ∷ cs) z zero ((p, s), hs) lt = s
char_at-word (c ∷ cs) z (suc j) (h, hs) lt = char_at-word cs z j hs (omega arith)

copy_from-append : (xs ys : Bytes) (n : ℕ) → copy_from (length xs) n (xs ++ ys) ≡ copy n ys
unfolding copy_from
copy_from-append [] ys n = refl
copy_from-append (x ∷ xs) ys n = copy_from-append xs ys n

copy-append : (xs ys : Bytes) → copy (length xs) (xs ++ ys) ≡ some (map tolower xs)
unfolding copy
copy-append [] ys = refl
copy-append (x ∷ xs) ys = rw (copy-append xs ys) refl

module _ (str : Bytes) (start : ℕ) where
  forward_stays : (n : ℕ) → isspace (char_at str start) ≡ false → forward str n start ≡ start
  unfolding forward
  forward_stays zero h = refl
  forward_stays (suc n) h = rw (forward, h) refl

  backward_stays :
      (n : ℕ) → isspace (char_at str (start + n)) ≡ false → backward str n start ≡ start + n
  unfolding backward
  backward_stays zero h = omega arith
  backward_stays (suc n) h = rw (backward, h) refl

-- The scan behind the first character, behind `<` at `m`, and behind `>` at `e`.
abbrev started : Scan
started = record initial { mode = mode_n; bstart = some 0 }

abbrev opened : ℕ → Scan
opened m = record started { astart = some m }

abbrev closed : ℕ → ℕ → Scan
closed m e = record (opened m) { aend = some e }

module _ (c : ℕ) (cs : Bytes) (hc : IsWord c) (hcs : All (λ d. is_plain d ≡ true) cs) where
  scan_char-first : scan_char 0 c initial ≡ started
  unfolding scan_char at_char at_normal is_plain
  scan_char-first = ground (arith, hc)

  scan-front : scan 0 (c ∷ cs) initial ≡ started
  unfolding scan
  scan-front = ap (scan 1 cs) scan_char-first ∙ scan-plain cs 1 started refl hcs

words_plain : (w : Bytes) → All IsWord w → All (λ d. is_plain d ≡ true) w
words_plain [] h = tt
words_plain (c ∷ cs) ((p, s), hs) = (p, words_plain cs hs)

-- `name <w>`
unfoldable pub bracketed : Bytes → Bytes → Bytes
bracketed name w = name ++ (b'<' ∷ (w ++ (b'>' ∷ [])))

scan-bracketed :
    (name w : Bytes)
    → scan 0 name initial ≡ started
    → All IsWord w
    → scan 0 (bracketed name w) initial ≡ closed (0 + length name) (0 + length name + 1 + length w)
unfolding bracketed scan scan_char at_char at_normal
scan-bracketed name w front hw =
    scan-append name (b'<' ∷ (w ++ (b'>' ∷ []))) 0 initial
    ∙ ap (scan (0 + length name) (b'<' ∷ (w ++ (b'>' ∷ [])))) front
    ∙ scan-append w (b'>' ∷ []) (0 + length name + 1) (opened (0 + length name))
    ∙ ap (scan (0 + length name + 1 + length w) (b'>' ∷ []))
        (scan-plain w (0 + length name + 1) (opened (0 + length name)) refl (words_plain w hw))

length-bracketed : (name w : Bytes) → length (bracketed name w) ≡ length name + 1 + length w + 1
unfolding bracketed
length-bracketed name w =
    omega (arith, length-append name (b'<' ∷ (w ++ (b'>' ∷ []))), length-append w (b'>' ∷ []))

-- The character at a place of the address.
at_word :
    (name w : Bytes) (j : ℕ)
    → All IsWord w
    → j < length w
    → isspace (char_at (bracketed name w) (length name + (1 + j))) ≡ false
unfolding bracketed char_at
at_word name w j h lt =
    ap isspace (char_at-append name (b'<' ∷ (w ++ (b'>' ∷ []))) (1 + j))
    ∙ (let same : 1 + j ≡ suc j = omega arith in rw same (char_at-word w (b'>' ∷ []) j h lt))

copy-bracketed :
    (name w : Bytes)
    → copy_from (length name + 1) (length w) (bracketed name w) ≡ some (map tolower w)
unfolding bracketed
copy-bracketed name w =
    let behind : length (name ++ (b'<' ∷ [])) ≡ length name + 1 =
      omega (arith, length-append name (b'<' ∷ [])) in
    ap (λ n. copy_from n (length w) (name ++ (b'<' ∷ (w ++ (b'>' ∷ []))))) (sym behind)
    ∙ ap (copy_from (length (name ++ (b'<' ∷ []))) (length w))
        (sym (append_assoc name (b'<' ∷ []) (w ++ (b'>' ∷ []))))
    ∙ copy_from-append (name ++ (b'<' ∷ [])) (w ++ (b'>' ∷ [])) (length w)
    ∙ copy-append w (b'>' ∷ [])

-- Nothing follows the bracket.
blank-bracketed :
    (name w : Bytes) → blank_from (bracketed name w) (length name + 1 + length w + 1) ≡ true
unfolding blank_from forward
blank-bracketed name w =
    let none_left : length (bracketed name w) - (length name + 1 + length w + 1) ≡ 0 =
      omega (arith, length-bracketed name w) in
    ap
      (λ n.
        forward (bracketed name w) n (length name + 1 + length w + 1) == length (bracketed name w))
      none_left
    ∙ ground (arith, length-bracketed name w)

after_bra-bra :
    (str : Bytes) (a e : ℕ)
    → blank_from str (e + 1) ≡ true
    → (a + 1 == e) ≡ false
    → after_bra str a (some e) ≡ bra a e
unfolding after_bra
after_bra-bra str a e k ne = rw (after_bra, k, ne) refl

choose-bracketed :
    (name w : Bytes)
    → 0 < length w
    → choose (bracketed name w) 0 (closed (length name) (length name + 1 + length w))
      ≡ bra (length name) (length name + 1 + length w)
unfolding choose brackets is_normal
choose-bracketed name w pos =
    after_bra-bra (bracketed name w) (length name) (length name + 1 + length w)
      (blank-bracketed name w) (ground arith)

take-bracketed :
    (name w : Bytes)
    → All IsWord w
    → 0 < length w
    → take_area (bracketed name w) 0 (bra (length name) (length name + 1 + length w))
      ≡ some (map tolower w)
unfolding take_area copy_area
take-bracketed name w h pos =
    let str = bracketed name w in
    let m = length name in
    let e = m + 1 + length w in
    let n = e - 1 - (m + 1) in
    let first : isspace (char_at str (m + 1)) ≡ false = at_word name w 0 h pos in
    let last : isspace (char_at str (m + 1 + n)) ≡ false =
      let place : m + (1 + n) ≡ m + 1 + n = omega arith in
      rw place at (at_word name w n h (omega arith)) in
    let ne : (m + 1 == e) ≡ false = ground arith in
    let count : m + 1 + n - (m + 1) + 1 ≡ length w = omega arith in
    ap (λ i. if i == e then some [] else copy_area str i (backward str (e - 1 - i) i))
      (forward_stays str (m + 1) (e - (m + 1)) first)
    ∙ ap (λ b. if b then some [] else copy_area str (m + 1) (backward str n (m + 1))) ne
    ∙ ap (copy_area str (m + 1)) (backward_stays str (m + 1) n last)
    ∙ ap (λ k. copy_from (m + 1) k str) count
    ∙ copy-bracketed name w

-- From a name that starts with no blank, and an address in angle brackets that is not empty and
-- has no blank, neither with a quote, a backslash, a bracket or a parenthesis, `get_addrpart`
-- takes the address, in lower case.
pub get_addrpart-bracketed :
    (c : ℕ) (cs w : Bytes)
    → IsWord c
    → All (λ d. is_plain d ≡ true) cs
    → All IsWord w
    → 0 < length w
    → get_addrpart (bracketed (c ∷ cs) w) ≡ some (map tolower w)
unfolding get_addrpart
get_addrpart-bracketed c cs w hc hcs hw pos =
    let str = bracketed (c ∷ cs) w in
    let m = length (c ∷ cs) in
    let none_before : 0 + m ≡ m = omega arith in
    ap (λ s. elim s.bstart [ none ↦ some [] | some b ↦ take_area str b (choose str b s) ])
      (scan-bracketed (c ∷ cs) w (scan-front c cs hc hcs) hw)
    ∙ ap (λ k. take_area str 0 (choose str 0 (closed k (k + 1 + length w)))) none_before
    ∙ ap (take_area str 0) (choose-bracketed (c ∷ cs) w pos)
    ∙ take-bracketed (c ∷ cs) w hw pos
