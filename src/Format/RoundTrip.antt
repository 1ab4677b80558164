-- ===== src/Format/RoundTrip.antt =====
-- What the replacements keep, and what undoes them.
use messasy.Base.{
  ◌⊎◌, All, sym, ℕ, ◌≡◌, ◌≢◌, refl, false, List, [], ◌∷◌, ◌++◌, ◌==◌, if◌then◌else◌, Bytes, arith,
  length, append_assoc, ==_iff, Bool-cases, inl, inr, ap, ◌∙◌, append-nil,
}
use mathlib.Core.Path.{subst}
use messasy.CString.{has_byte}
use messasy.Format.{StrFormat, replacement, format_loop, str_replace_format, replace_delimiter}

-- `replace_delimiter` leaves no old delimiter, if the new one is another, and keeps the length.
pub replace_delimiter-removes :
    (s : Bytes) (old new : ℕ)
    → old ≢ new
    → (has_byte old (replace_delimiter s old new) ≡ false)
      × (length (replace_delimiter s old new) ≡ length s)
unfolding replace_delimiter has_byte
replace_delimiter-removes [] old new ne = (refl, refl)
replace_delimiter-removes (c ∷ cs) old new ne =
    ground (arith, replace_delimiter-removes cs old new ne)

-- Where the new delimiter did not occur, `replace_delimiter` is undone by its inverse.
pub replace_delimiter-inverse :
    (s : Bytes) (old new : ℕ)
    → has_byte new s ≡ false
    → replace_delimiter (replace_delimiter s old new) new old ≡ s
unfolding replace_delimiter has_byte
replace_delimiter-inverse [] old new out = refl
replace_delimiter-inverse (c ∷ cs) old new out =
    ground (arith, replace_delimiter-inverse cs old new)

format_loop-append :
    (sf : List StrFormat) (s a b : Bytes) → format_loop sf (a ++ b) s ≡ a ++ format_loop sf b s
unfolding format_loop
format_loop-append sf [] a b = refl
format_loop-append sf (c ∷ []) a b = append_assoc a b (c ∷ [])
format_loop-append sf (c ∷ d ∷ rest) a b = elim (Bool-cases (c == b'%')) [
  | inl e ↦ rw (e, append_assoc) (format_loop-append sf rest a _)
  | inr e ↦ rw (e, append_assoc) (format_loop-append sf (d ∷ rest) a _)
]

format_plain :
    (sf : List StrFormat) (c : ℕ) (s : Bytes)
    → (c == b'%') ≡ false
    → str_replace_format (c ∷ s) sf ≡ c ∷ str_replace_format s sf
unfolding str_replace_format
format_plain sf c [] e = refl
format_plain sf c (d ∷ rest) e = rw e (format_loop-append sf (d ∷ rest) (c ∷ []) [])

format_percent :
    (sf : List StrFormat) (d : ℕ) (rest : Bytes)
    → str_replace_format (b'%' ∷ d ∷ rest) sf
      ≡ (if d == b'%' then b'%' ∷ [] else replacement sf d) ++ str_replace_format rest sf
unfolding str_replace_format
format_percent sf d rest =
    ap (λ z. format_loop sf z rest) (append-nil' _) ∙ format_loop-append sf rest _ []
  where
    append-nil' : (z : Bytes) → z ≡ z ++ []
    append-nil' z = rw append-nil

-- Each `%` doubled.
unfoldable pub escape : Bytes → Bytes
escape [] = []
escape (c ∷ cs) = if c == b'%' then b'%' ∷ b'%' ∷ escape cs else c ∷ escape cs

-- Text without `%` is copied, and what follows it is treated as if it stood alone.
pub str_replace_format-append :
    (sf : List StrFormat) (a b : Bytes)
    → has_byte b'%' a ≡ false
    → str_replace_format (a ++ b) sf ≡ a ++ str_replace_format b sf
unfolding has_byte
str_replace_format-append sf [] b out = refl
str_replace_format-append sf (c ∷ a) b out =
    format_plain sf c (a ++ b) (ground arith)
    ∙ ap (◌∷◌ c) (str_replace_format-append sf a b (ground arith))

-- A text with each `%` doubled comes out of `str_replace_format` as it was, whatever the table
-- holds.
pub str_replace_format-escape :
    (sf : List StrFormat) (s : Bytes) → str_replace_format (escape s) sf ≡ s
unfolding escape
str_replace_format-escape sf [] = unfold str_replace_format in refl
str_replace_format-escape sf (c ∷ s) = elim (Bool-cases (c == b'%')) [
  | inl e ↦
      rw (e, (==_iff c b'%').0 e)
        (format_percent sf b'%' (escape s) ∙ ap (◌∷◌ b'%') (str_replace_format-escape sf s))
  | inr e ↦ rw e (format_plain sf c (escape s) e ∙ ap (◌∷◌ c) (str_replace_format-escape sf s))
]

-- The first entry of the table for a character.
pub data FoundIn : List StrFormat → StrFormat → Type 0 where
  at_head : (f : StrFormat) (fs : List StrFormat) → FoundIn (f ∷ fs) f
  behind :
      (g f : StrFormat) (fs : List StrFormat)
      → g.formatchar ≢ f.formatchar
      → FoundIn fs f
      → FoundIn (g ∷ fs) f

-- What becomes of a text under a table, from its first byte on.
pub data Replaces (sf : List StrFormat) : Bytes → Bytes → Type 0 where
  ends : Replaces sf [] []
  -- A `%` at the end stays.
  last : Replaces sf (b'%' ∷ []) (b'%' ∷ [])
  plain : (c : ℕ) (s t : Bytes) → c ≢ b'%' → Replaces sf s t → Replaces sf (c ∷ s) (c ∷ t)
  percent : (s t : Bytes) → Replaces sf s t → Replaces sf (b'%' ∷ b'%' ∷ s) (b'%' ∷ t)
  found :
      (f : StrFormat) (s t : Bytes)
      → f.formatchar ≢ b'%'
      → FoundIn sf f
      → Replaces sf s t
      → Replaces sf (b'%' ∷ f.formatchar ∷ s) (f.replacestr ++ t)
  -- A character that the table does not hold stays behind its `%`.
  unknown :
      (c : ℕ) (s t : Bytes)
      → c ≢ b'%'
      → All (λ (g : StrFormat). g.formatchar ≢ c) sf
      → Replaces sf s t
      → Replaces sf (b'%' ∷ c ∷ s) (b'%' ∷ c ∷ t)

LookedUp : List StrFormat → ℕ → Type 0
LookedUp sf c =
    ((f : StrFormat) × (f.formatchar ≡ c) × FoundIn sf f × (replacement sf c ≡ f.replacestr))
    ⊎ (All (λ (g : StrFormat). g.formatchar ≢ c) sf × (replacement sf c ≡ b'%' ∷ c ∷ []))

look_up : (sf : List StrFormat) (c : ℕ) → LookedUp sf c
unfolding LookedUp replacement
look_up [] c = inr (tt, refl)
look_up (g ∷ sf) c = elim (Bool-cases (g.formatchar == c)) [
  | inl e ↦ inl (g, (==_iff g.formatchar c).0 e, at_head g sf, rw e refl)
  | inr e ↦
      let ne : g.formatchar ≢ c = λ q. ground (arith, q, e) in
      elim (look_up sf c) [
        | inl (f, same, at, r) ↦ inl (f, same, behind g f sf (λ q. ne (q ∙ same)) at, rw e r)
        | inr (out, r) ↦ inr ((ne, out), rw e r)
      ]
]

not_eq : (c d : ℕ) → (c == d) ≡ false → c ≢ d
not_eq c d e q = ground (arith, q, e)

at_percent :
    (sf : List StrFormat) (d : ℕ) (s t : Bytes)
    → Replaces sf s t
    → Replaces sf (b'%' ∷ d ∷ s) ((if d == b'%' then b'%' ∷ [] else replacement sf d) ++ t)
unfolding LookedUp
at_percent sf d s t r = elim (Bool-cases (d == b'%')) [
  | inl e ↦ rw (e, (==_iff d b'%').0 e) (percent s t r)
  | inr e ↦ elim (look_up sf d) [
    | inl (f, same, at, q) ↦
        let ne : f.formatchar ≢ b'%' = λ k. not_eq d b'%' e (sym same ∙ k) in
        rw (e, q)
          (subst (λ x. Replaces sf (b'%' ∷ x ∷ s) (f.replacestr ++ t)) same (found f s t ne at r))
    | inr (out, q) ↦ rw (e, q) (unknown d s t (not_eq d b'%' e) out r)
  ]
]

-- `str_replace_format` reads a text from its first byte on: `%%` becomes `%`, a `%` before a
-- character of the table becomes the string of the first entry for it, which is not read again, a
-- `%` before any other character or at the end stays, and all other bytes are copied.
pub str_replace_format-Replaces :
    (sf : List StrFormat) (s : Bytes) → Replaces sf s (str_replace_format s sf)
str_replace_format-Replaces sf [] = unfold str_replace_format in ends
str_replace_format-Replaces sf (c ∷ []) =
    unfold str_replace_format in
    elim (Bool-cases (c == b'%')) [
      | inl e ↦ rw ((==_iff c b'%').0 e) last
      | inr e ↦ plain c [] [] (not_eq c b'%' e) ends
    ]
str_replace_format-Replaces sf (c ∷ d ∷ s) = elim (Bool-cases (c == b'%')) [
  | inl e ↦
      rw ((==_iff c b'%').0 e, format_percent sf d s)
        (at_percent sf d s (str_replace_format s sf) (str_replace_format-Replaces sf s))
  | inr e ↦ rw (format_plain sf c (d ∷ s) e) (
      plain c (d ∷ s) (str_replace_format (d ∷ s) sf) (not_eq c b'%' e)
        (str_replace_format-Replaces sf (d ∷ s)))
]
