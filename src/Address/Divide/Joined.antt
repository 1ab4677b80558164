-- ===== src/Address/Divide/Joined.antt =====
-- Lists of addresses that are joined by commas.
use messasy.Base.{
  ℕ, ◌≡◌, refl, sym, ap, ◌∙◌, Bool, true, false, ◌&&◌, Option, none, some, List, [], ◌∷◌, ◌++◌,
  append_assoc, append-nil, ◌==◌, if◌then◌else◌, Bytes, All, arith, Bool-cases, inl, inr,
}
use messasy.Address.{get_addrpart}
use messasy.Address.Inside.{get_addrpart-Copies}
use messasy.Address.Divide.{
  Divide, divide_n, divide_q, divide_d, divide_dq, next_mode, at_quote, at_escape, at_comma,
  at_other, is_outside, divide_loop, divide_address_list,
}

-- A character as it stands, and one behind a backslash.
pub data Symbol : Type 0 where
  plain escaped : ℕ → Symbol

-- What a part is made of: characters outside of quotes, and quoted strings.
pub data Item : Type 0 where
  bare : Symbol → Item
  quoted : List Symbol → Item

abbrev pub symbol_text : Symbol → Bytes
symbol_text (plain c) = c ∷ []
symbol_text (escaped c) = b'\\' ∷ c ∷ []

abbrev pub symbols_text : List Symbol → Bytes
symbols_text [] = []
symbols_text (x ∷ xs) = symbol_text x ++ symbols_text xs

abbrev pub items_text : List Item → Bytes
items_text [] = []
items_text (bare x ∷ is) = symbol_text x ++ items_text is
items_text (quoted xs ∷ is) = (b'"' ∷ symbols_text xs) ++ (b'"' ∷ items_text is)

-- A quote or a backslash is escaped; a comma outside of quotes is, too.
abbrev pub IsSymbol : Symbol → Type 0
IsSymbol (plain c) = ((c == b'"') ≡ false) × ((c == b'\\') ≡ false)
IsSymbol (escaped c) = Unit

abbrev pub IsBare : Symbol → Type 0
IsBare (plain c) = ((c == b'"') ≡ false) × ((c == b'\\') ≡ false) × ((c == b',') ≡ false)
IsBare (escaped c) = Unit

abbrev pub IsItem : Item → Type 0
IsItem (bare x) = IsBare x
IsItem (quoted xs) = All IsSymbol xs

abbrev pub IsPart : Bytes → Type 0
IsPart p = (is : List Item) × (p ≡ items_text is) × All IsItem is

-- The modes in which a text is passed without a comma that divides, to its end outside of quotes.
unfoldable is_closed : Divide → Bytes → Bool
is_closed mode [] = is_outside mode
is_closed mode (c ∷ cs) =
    let rest = is_closed (next_mode c mode) cs in
    if c == b',' && is_outside mode then false else rest

unfoldable pub joined : Bytes → List Bytes → Bytes
joined p [] = p
joined p (q ∷ qs) = p ++ (b',' ∷ joined q qs)

-- The addresses of some parts; none if there is a fault in one.
unfoldable pub addresses : List Bytes → Option (List Bytes)
addresses [] = some []
addresses (p ∷ ps) =
    let rest = addresses ps in
    elim (get_addrpart p) [
      | none ↦ none
      | some a ↦ elim rest [ none ↦ none | some vs ↦ some (a ∷ vs) ]
    ]

closed_symbol :
    (x : Symbol) (rest : Bytes)
    → IsSymbol x
    → is_closed divide_d (symbol_text x ++ rest) ≡ is_closed divide_d rest
unfolding is_closed next_mode at_quote at_escape at_comma at_other is_outside
closed_symbol (plain c) rest (q, e) = ground (arith, q, e)
closed_symbol (escaped c) rest h = ground arith

closed_bare :
    (x : Symbol) (rest : Bytes)
    → IsBare x
    → is_closed divide_n (symbol_text x ++ rest) ≡ is_closed divide_n rest
unfolding is_closed next_mode at_quote at_escape at_comma at_other is_outside
closed_bare (plain c) rest (q, e, k) = ground (arith, q, e, k)
closed_bare (escaped c) rest h = ground arith

closed_quoted :
    (xs : List Symbol) (rest : Bytes)
    → All IsSymbol xs
    → is_closed divide_d (symbols_text xs ++ (b'"' ∷ rest)) ≡ is_closed divide_n rest
unfolding is_closed next_mode
closed_quoted [] rest h = refl
closed_quoted (x ∷ xs) rest (h, hs) =
    ap (is_closed divide_d) (append_assoc (symbol_text x) (symbols_text xs) (b'"' ∷ rest))
    ∙ closed_symbol x (symbols_text xs ++ (b'"' ∷ rest)) h
    ∙ closed_quoted xs rest hs

closed_items : (is : List Item) → All IsItem is → is_closed divide_n (items_text is) ≡ true
unfolding is_closed is_outside next_mode
closed_items [] h = refl
closed_items (bare x ∷ is) (h, hs) = closed_bare x (items_text is) h ∙ closed_items is hs
closed_items (quoted xs ∷ is) (h, hs) =
    opens (symbols_text xs ++ (b'"' ∷ items_text is))
    ∙ closed_quoted xs (items_text is) h
    ∙ closed_items is hs
  where
    opens : (s : Bytes) → is_closed divide_n (b'"' ∷ s) ≡ is_closed divide_d s
    opens s = refl

IsPart-closed : (p : Bytes) → IsPart p → is_closed divide_n p ≡ true
IsPart-closed p (is, e, h) = ap (is_closed divide_n) e ∙ closed_items is h

is_outside-n : (mode : Divide) → is_outside mode ≡ true → mode ≡ divide_n
unfolding is_outside
is_outside-n divide_n h = refl
is_outside-n divide_q h = cc
is_outside-n divide_d h = cc
is_outside-n divide_dq h = cc

divide_loop-part :
    (p : Bytes) (mode : Divide) (text : Bytes) (array : List Bytes) (rest : Bytes)
    → is_closed mode p ≡ true
    → divide_loop mode text array (p ++ rest) ≡ divide_loop divide_n (text ++ p) array rest
unfolding divide_loop is_closed
divide_loop-part [] mode text array rest h =
    ap (λ m. divide_loop m text array rest) (is_outside-n mode h) ∙ rw append-nil refl
divide_loop-part (c ∷ cs) mode text array rest h =
    elim (Bool-cases (c == b',' && is_outside mode)) [
      | inl k ↦ absurd (ground (arith, k, h))
      | inr k ↦
          let closed : is_closed (next_mode c mode) cs ≡ true = rw k at h in
          rw (divide_loop, k)
            (divide_loop-part cs (next_mode c mode) (text ++ (c ∷ [])) array rest closed
              ∙ rw append_assoc refl)
    ]

module _ (p a : Bytes) (array : List Bytes) (e : get_addrpart p ≡ some a) where
  last_part : divide_loop divide_n p array [] ≡ some (array ++ (a ∷ []))
  unfolding divide_loop
  last_part = rw (divide_loop, e) refl

  next_part :
      (str : Bytes)
      → divide_loop divide_n p array (b',' ∷ str) ≡ divide_loop divide_n [] (array ++ (a ∷ [])) str
  unfolding divide_loop next_mode is_outside
  next_part str = rw (divide_loop, e) refl

addresses_of :
    (p a : Bytes) (ps rs : List Bytes)
    → get_addrpart p ≡ some a
    → addresses ps ≡ some rs
    → addresses (p ∷ ps) ≡ some (a ∷ rs)
unfolding addresses
addresses_of p a ps rs e f = rw (addresses, e, f) refl

-- The loop takes the parts one after the other.
divide_loop-joined :
    (p : Bytes) (ps array : List Bytes)
    → IsPart p
    → All IsPart ps
    → (rs : List Bytes) × (addresses (p ∷ ps) ≡ some rs)
      × (divide_loop divide_n [] array (joined p ps) ≡ some (array ++ rs))
unfolding joined addresses
divide_loop-joined p [] array h hs =
    let (a, e, _) = get_addrpart-Copies p in
    (
      a ∷ [],
      addresses_of p a [] [] e refl,
      ap (divide_loop divide_n [] array) (sym (append-nil p))
          ∙ divide_loop-part p divide_n [] array [] (IsPart-closed p h)
          ∙ last_part p a array e,
    )
divide_loop-joined p (q ∷ qs) array h (hq, hs) =
    let (a, e, _) = get_addrpart-Copies p in
    let (rs, f, g) = divide_loop-joined q qs (array ++ (a ∷ [])) hq hs in
    (
      a ∷ rs,
      addresses_of p a (q ∷ qs) rs e f,
      divide_loop-part p divide_n [] array (b',' ∷ joined q qs) (IsPart-closed p h)
          ∙ next_part p a array e (joined q qs)
          ∙ g
          ∙ rw append_assoc refl,
    )

-- `divide_address_list` divides parts that are joined by commas into the addresses that
-- `get_addrpart` takes from the parts, in order, and without a fault. A part is made of
-- characters and of quoted strings; a quote or a backslash as such has a backslash before it, and
-- a comma is quoted or has one.
pub divide_address_list-joined :
    (p : Bytes) (ps : List Bytes)
    → IsPart p
    → All IsPart ps
    → (rs : List Bytes) × (divide_address_list (joined p ps) ≡ some rs)
      × (addresses (p ∷ ps) ≡ some rs)
unfolding divide_address_list
divide_address_list-joined p ps h hs =
    let (rs, f, g) = divide_loop-joined p ps [] h hs in (rs, g, f)
