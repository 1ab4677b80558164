-- ===== src/Manager/Words.antt =====
-- `parse_arg` against the words of a string, and what `login`, `quit` and `reload` accept.
use messasy.Base.{
  ℕ, zero, suc, ◌+◌, ◌<◌, ◌≤◌, ◌≡◌, ◌≢◌, ◌↔◌, refl, ◌∙◌, sym, ap, true, false, Option, none, some,
  List, [], ◌∷◌, if◌then◌else◌, Bytes, length, arith, All, Bool-cases, inl, inr, ◌⊎◌,
}
use messasy.CString.{isblank, skip_blanks, str_eq}
use messasy.CString.Laws.{str_eq_iff}
use messasy.Manager.{
  authenticate, word, parse_loop, parse_arg, login_param, manager_login, at_word_end, Session,
  is_auth,
}

-- A byte in front of the words of the rest `cs`.
unfoldable pub put : ℕ → Bytes → List Bytes → List Bytes
unfolding at_word_end
put c cs [] = (c ∷ []) ∷ []
put c cs (w ∷ ws) = if at_word_end cs then (c ∷ []) ∷ w ∷ ws else (c ∷ w) ∷ ws

-- The longest runs of bytes that are not blank.
unfoldable pub words : Bytes → List Bytes
unfolding put isblank
words [] = []
words (c ∷ cs) = let rest = words cs in if isblank c then rest else put c cs rest

abbrev pub take {ℓ} : {A : Type ℓ} → ℕ → List A → List A
take zero xs = []
take (suc n) [] = []
take (suc n) (x ∷ xs) = x ∷ take n xs

Cons-cases : (s : Bytes) → (s ≡ []) ⊎ ((c : ℕ) × (cs : Bytes) × (s ≡ c ∷ cs))
Cons-cases [] = inl refl
Cons-cases (c ∷ cs) = inr (c, cs, refl)

abbrev words_left : Option Bytes → List Bytes
words_left none = []
words_left (some rest) = words rest

words-skip_blanks : (s : Bytes) → words (skip_blanks s) ≡ words s
unfolding words skip_blanks
words-skip_blanks [] = refl
words-skip_blanks (c ∷ cs) = ground (arith, words-skip_blanks cs)

skip_blanks-at_word_end :
    (s : Bytes) (c : ℕ) (cs : Bytes) → skip_blanks s ≡ c ∷ cs → isblank c ≡ false
unfolding skip_blanks
skip_blanks-at_word_end [] c cs e = cc
skip_blanks-at_word_end (d ∷ ds) c cs e = ground (arith, skip_blanks-at_word_end ds c cs)

put_end :
    (c : ℕ) (cs : Bytes) (ws : List Bytes) → at_word_end cs ≡ true → put c cs ws ≡ (c ∷ []) ∷ ws
unfolding put
put_end c cs [] h = refl
put_end c cs (w ∷ ws) h = rw h refl

put_inside :
    (c : ℕ) (cs w : Bytes) (ws : List Bytes)
    → at_word_end cs ≡ false
    → put c cs (w ∷ ws) ≡ (c ∷ w) ∷ ws
unfolding put
put_inside c cs w ws h = rw h refl

-- A string that starts with a word is that word and what `word` leaves.
words-word :
    (c : ℕ) (cs : Bytes)
    → isblank c ≡ false
    → words (c ∷ cs) ≡ (word (c ∷ cs)).0 ∷ words_left (word (c ∷ cs)).1
unfolding words word at_word_end
words-word c [] h = rw h (put_end c [] [] refl)
words-word c (d ∷ ds) h = elim (Bool-cases (isblank d)) [
  | inl b ↦ rw (h, b) (put_end c (d ∷ ds) (words ds) b)
  | inr b ↦
      let ih = words-word d ds b in
      let later : put d ds (words ds) ≡ (d ∷ (word ds).0) ∷ words_left (word ds).1 = rw b at ih in
      rw (h, b, later) (put_inside c (d ∷ ds) (d ∷ (word ds).0) _ b)
]

-- What `parse_loop` gives for a string of the words `ws`.
record Parsed (more count : ℕ) (ws : List Bytes) (r : ℕ × List Bytes) : Type 0 where
  array : r.1 ≡ take more ws
  all : length ws < more → r.0 ≡ count + length ws
  enough : more ≤ length ws → count + more ≤ r.0

-- A round of the loop, and what is left.
round : (more count : ℕ) (w : Bytes) (left : Option Bytes) → ℕ × List Bytes
round more count w none = (count + 1, w ∷ [])
round more count w (some rest) =
    let later = parse_loop more (count + 1) rest in (later.0, w ∷ later.1)

round-Parsed :
    (more count : ℕ)
    → ((s : Bytes) → Parsed more (count + 1) (words s) (parse_loop more (count + 1) s))
    → (w : Bytes) (left : Option Bytes)
    → Parsed (suc more) count (w ∷ words_left left) (round more count w left)
unfolding round
round-Parsed zero count later w none = record {
  array = refl;
  all = λ h. omega arith;
  enough = λ h. omega arith;
}
round-Parsed (suc more) count later w none = record {
  array = refl;
  all = λ h. omega arith;
  enough = λ h. absurd (omega arith);
}
round-Parsed more count later w (some rest) =
    let p = later rest in
    record {
      array = ap (◌∷◌ w) p.array;
      all = λ h. omega (arith, p.all (omega arith));
      enough = λ h. omega (arith, p.enough (omega arith));
    }

parse_loop_end :
    (more count : ℕ) (s : Bytes) → skip_blanks s ≡ [] → parse_loop (suc more) count s ≡ (count, [])
unfolding parse_loop
parse_loop_end more count s e = rw (e, parse_loop)

parse_loop-word :
    (more count : ℕ) (s : Bytes) (c : ℕ) (cs : Bytes)
    → skip_blanks s ≡ c ∷ cs
    → parse_loop (suc more) count s ≡ round more count (word (c ∷ cs)).0 (word (c ∷ cs)).1
unfolding parse_loop round
parse_loop-word more count s c cs e =
    rw (e, parse_loop) (left_by (word (c ∷ cs)).0 (word (c ∷ cs)).1)
  where
    left_by :
        (w : Bytes) (left : Option Bytes)
        → (elim left [
          | none ↦ (count + 1, w ∷ [])
          | some rest ↦ let later = parse_loop more (count + 1) rest in (later.0, w ∷ later.1)
        ])
          ≡ round more count w left
    left_by w none = refl
    left_by w (some rest) = refl

parse_loop-Parsed :
    (more count : ℕ) (s : Bytes) → Parsed more count (words s) (parse_loop more count s)
unfolding parse_loop round words
parse_loop-Parsed zero count s = record {
  array = refl;
  all = λ h. absurd (omega arith);
  enough = λ h. omega arith;
}
parse_loop-Parsed (suc more) count s = elim (Cons-cases (skip_blanks s)) [
  | inl e ↦
      let none_left : words s ≡ [] = sym (words-skip_blanks s) ∙ ap words e in
      rw (none_left, parse_loop_end more count s e)
        (record { array = refl; all = λ h. omega arith; enough = λ h. absurd (omega arith) })
  | inr (c, cs, e) ↦
      let black = skip_blanks-at_word_end s c cs e in
      let split = sym (words-skip_blanks s) ∙ ap words e ∙ words-word c cs black in
      rw (split, parse_loop-word more count s c cs e)
        (round-Parsed more count (λ t. parse_loop-Parsed more (count + 1) t) (word (c ∷ cs)).0
          (word (c ∷ cs)).1)
]

put-All :
    (c : ℕ) (cs : Bytes) (ws : List Bytes) → All (λ w. w ≢ []) ws → All (λ w. w ≢ []) (put c cs ws)
unfolding put
put-All c cs [] h = (λ e. cc, tt)
put-All c cs (w ∷ ws) (h, hs) = elim (Bool-cases (at_word_end cs)) [
  | inl b ↦ rw b ((λ e. cc), (h, hs))
  | inr b ↦ rw b ((λ e. cc), hs)
]

words-All : (s : Bytes) → All (λ w. w ≢ []) (words s)
unfolding words
words-All [] = tt
words-All (c ∷ cs) = elim (Bool-cases (isblank c)) [
  | inl b ↦ rw b (words-All cs)
  | inr b ↦ rw b (put-All c cs (words cs) (words-All cs))
]

-- The one word of a list.
unfoldable pub only : List Bytes → Option Bytes
only (w ∷ []) = some w
only _ = none

login_param-only :
    (ws : List Bytes) (r : ℕ × List Bytes)
    → Parsed 2 0 ws r
    → All (λ w. w ≢ []) ws
    → login_param r ≡ only ws
unfolding login_param only
login_param-only [] (n, vs) p h = rw (p.array, p.all (omega arith)) refl
login_param-only (w ∷ []) (n, vs) p h = rw (p.array, p.all (omega arith)) refl
login_param-only (w ∷ v ∷ ws) (n, vs) p (hw, (hv, h)) =
    rw p.array (at_count n v (p.enough (omega arith)) hv)
  where
    at_count : (n : ℕ) (v : Bytes) → 2 ≤ n → v ≢ [] → login_param (n, w ∷ v ∷ []) ≡ none
    at_count zero v l ne = absurd (omega arith)
    at_count (suc zero) v l ne = absurd (omega arith)
    at_count (suc (suc zero)) [] l ne = absurd (ne refl)
    at_count (suc (suc zero)) (c ∷ cs) l ne = refl
    at_count (suc (suc (suc n))) v l ne = refl

-- `parse_arg` stores the first `num` words of a string; its result is their number if there are
-- fewer than `num`, and at least `num` if there are not.
pub parse_arg-words :
    (s : Bytes) (num : ℕ)
    → ((parse_arg s num).1 ≡ take num (words s))
      × (length (words s) < num → (parse_arg s num).0 ≡ length (words s))
      × (num ≤ length (words s) → num ≤ (parse_arg s num).0)
unfolding parse_arg
parse_arg-words s num =
    let p = parse_loop-Parsed num 0 s in
    (p.array, (λ h. omega (arith, p.all h)), λ h. omega (arith, p.enough h))

-- `manager_login` authenticates a session that was not if, and only if, the words of its argument
-- are the password alone.
pub manager_login-is_auth :
    (password arg : Bytes) (mc : Session)
    → is_auth mc ≡ false
    → (is_auth (manager_login password arg mc).1 ≡ true) ↔ (words arg ≡ password ∷ [])
unfolding manager_login parse_arg authenticate only is_auth
manager_login-is_auth password arg mc out =
    rw (login_param-only (words arg) _ (parse_loop-Parsed 2 0 arg) (words-All arg))
      (at_words (words arg))
  where
    first : List Bytes → Bytes
    first [] = []
    first (v ∷ vs) = v

    apart : (w : Bytes) → str_eq password w ≡ false → w ≡ password → ⊥
    apart w b e = cc (b, (str_eq_iff password w).1 (sym e))

    at_words :
        (ws : List Bytes)
        → (is_auth (authenticate password (only ws) mc).1 ≡ true) ↔ (ws ≡ password ∷ [])
    at_words [] = rw out ((λ e. cc), λ e. cc)
    at_words (w ∷ []) = elim (Bool-cases (str_eq password w)) [
      | inl b ↦ rw (out, b) ((λ e. ap (λ v. v ∷ []) (sym ((str_eq_iff password w).0 b))), λ e. refl)
      | inr b ↦ rw (out, b) ((λ e. absurd (ground arith)), λ e. absurd (apart w b (ap first e)))
    ]
    at_words (w ∷ v ∷ ws) = rw out ((λ e. cc), λ e. cc)
