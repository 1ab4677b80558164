-- ===== src/Address.antt =====
-- libdgmail.c: header fields and the addresses in them. `malloc` does not fail, so that NULL is
-- left for the end of a text. A copy that would read outside of its string gives none.
pub mod Fold
pub mod Scanned
pub mod Inside
pub mod Bracketed
pub mod Divide
use messasy.Base.{
  ℕ, zero, suc, ◌+◌, ◌-◌, Bool, true, false, ◌||◌, Option, none, some, List, [], ◌∷◌, ◌++◌, map,
  ltb, ◌==◌, if◌then◌else◌, length, Bytes,
}
use messasy.CString.{isblank, isspace, skip_blanks, tolower}

-- A line up to its LF, and what follows it.
unfoldable pub take_line : Bytes → Bytes × Option Bytes
take_line [] = ([], none)
take_line (c ∷ cs) =
    let rest = take_line cs in if c == b'\n' then ([], some cs) else (c ∷ rest.0, rest.1)

-- `if (len > 0 && *(ptr + len - 1) == '\r') { len--; }`
unfoldable pub chop_cr : Bytes → Bytes
chop_cr [] = []
chop_cr (c ∷ []) = if c == b'\r' then [] else c ∷ []
chop_cr (c ∷ d ∷ cs) = c ∷ chop_cr (d ∷ cs)

-- `isblank(*(tptr + 1))`
unfoldable pub continues : Bytes → Bool
unfolding isblank
continues [] = false
continues (c ∷ _) = isblank c

-- One line of `get_field`; `again` is the rest of the loop, and `rstr` the value so far.
unfoldable pub field_round :
    (Bytes → Bytes → Option (Bytes × Option Bytes))
    → Bytes
    → Bytes × Option Bytes
    → Option (Bytes × Option Bytes)
unfolding chop_cr skip_blanks continues
field_round again rstr (text, none) = some (rstr ++ skip_blanks (chop_cr text), none)
field_round again rstr (text, some next) =
    let rstr' = rstr ++ skip_blanks (chop_cr text) in
    elim (continues next) [ true ↦ again rstr' next | false ↦ some (rstr', some next) ]

-- None where the fuel is not enough.
unfoldable pub field_loop : ℕ → Bytes → Bytes → Option (Bytes × Option Bytes)
unfolding take_line field_round
field_loop zero rstr ptr = none
field_loop (suc fuel) rstr ptr = field_round (λ r p. field_loop fuel r p) rstr (take_line ptr)

-- The value of the field, and `*nadr`.
unfoldable pub get_field : Bytes → Option (Bytes × Option Bytes)
unfolding field_loop
get_field buftop = field_loop (length buftop + 1) [] buftop

-- `MODE_0`, `MODE_N`, `MODE_Q`, `MODE_S` and `MODE_QS`.
pub data Mode : Type 0 where
  mode_0 mode_n mode_q mode_s mode_qs : Mode

-- The variables of the first loop of `get_addrpart`; none for -1.
pub record Scan : Type 0 where
  pub mode : Mode
  pub astart : Option ℕ
  pub aend : Option ℕ
  pub nstart : Option ℕ
  pub nend : Option ℕ
  pub bstart : Option ℕ

-- An opening bracket counts if it is the first one, a closing one if there is an opening one.
unfoldable pub open_at : ℕ → Option ℕ → Option ℕ
open_at i none = some i
open_at i (some a) = some a

unfoldable pub close_at : ℕ → Option ℕ → Option ℕ → Option ℕ
close_at i none end = end
close_at i (some a) end = some i

-- A character in normal mode.
unfoldable pub at_normal : ℕ → ℕ → Scan → Scan
unfolding open_at close_at
at_normal i c s =
    if c == b'"'
    then record s { mode = mode_q }
    else if c == b'<'
    then record s { astart = open_at i s.astart }
    else if c == b'>'
    then record s { aend = close_at i s.astart s.aend }
    else if c == b'('
    then record s { nstart = open_at i s.nstart }
    else if c == b')'
    then record s { nend = close_at i s.nstart s.nend }
    else s

unfoldable pub at_backslash : Mode → Mode
at_backslash mode_q = mode_qs
at_backslash mode_s = mode_n
at_backslash mode_qs = mode_s
at_backslash _ = mode_s

-- A character that is no leading blank.
unfoldable pub at_char : ℕ → ℕ → Scan → Scan
unfolding at_normal at_backslash
at_char i c s = if c == b'\\' then record s { mode = at_backslash s.mode } else elim s.mode [
  | mode_s ↦ record s { mode = mode_n }
  | mode_qs ↦ record s { mode = mode_q }
  | mode_q ↦ if c == b'"' then record s { mode = mode_n } else s
  | _ ↦ at_normal i c s
]

-- One round of the loop.
unfoldable pub scan_char : ℕ → ℕ → Scan → Scan
unfolding at_char isspace
scan_char i c s = elim s.mode [
  | mode_0 ↦ if isspace c then s else at_char i c (record s { mode = mode_n; bstart = some i })
  | _ ↦ at_char i c s
]

unfoldable pub scan : ℕ → Bytes → Scan → Scan
unfolding scan_char
scan i [] s = s
scan i (c ∷ cs) s = scan (i + 1) cs (scan_char i c s)

abbrev pub initial : Scan
initial = record {
  mode = mode_0;
  astart = none;
  aend = none;
  nstart = none;
  nend = none;
  bstart = none;
}

-- `str[i]`; the NUL at the end and behind it.
unfoldable pub char_at : Bytes → ℕ → ℕ
char_at [] i = 0
char_at (c ∷ cs) zero = c
char_at (c ∷ cs) (suc i) = char_at cs i

-- `for (; i < i + n; i++) { if (isspace(str[i]) == 0) break; }`
unfoldable pub forward : Bytes → ℕ → ℕ → ℕ
unfolding char_at isspace
forward str zero i = i
forward str (suc n) i =
    let rest = forward str n (i + 1) in if isspace (char_at str i) then rest else i

-- The same backwards, from `start + n` down to `start`.
unfoldable pub backward : Bytes → ℕ → ℕ → ℕ
unfolding char_at isspace
backward str zero start = start
backward str (suc n) start =
    let rest = backward str n start in
    if isspace (char_at str (start + suc n)) then rest else start + suc n

-- `addr[i] = tolower(str[start + i])` for `n` characters; none for a read behind the NUL.
unfoldable pub copy : ℕ → Bytes → Option Bytes
unfolding tolower
copy zero str = some []
copy (suc n) [] = none
copy (suc n) (c ∷ cs) = elim (copy n cs) [ none ↦ none | some ds ↦ some (tolower c ∷ ds) ]

unfoldable pub copy_from : ℕ → ℕ → Bytes → Option Bytes
unfolding copy
copy_from zero n str = copy n str
copy_from (suc start) n [] = none
copy_from (suc start) n (c ∷ cs) = copy_from start n cs

-- `nlen = end - start + 1`
unfoldable pub copy_area : Bytes → ℕ → ℕ → Option Bytes
unfolding copy_from
copy_area str start end = copy_from start (end - start + 1) str

-- `ADD_ASIS`, `ADD_BRA` and `ADD_NAME`, with the positions of the brackets, or an empty address.
pub data Area : Type 0 where
  as_is empty : Area
  bra : ℕ → ℕ → Area
  name : ℕ → Area

unfoldable pub is_normal : Mode → Bool
is_normal mode_n = true
is_normal _ = false

-- Only blanks from `i` on.
unfoldable pub blank_from : Bytes → ℕ → Bool
unfolding forward
blank_from str i = forward str (length str - i) i == length str

-- Behind a `<` at `a`, with no `(`.
unfoldable pub after_bra : Bytes → ℕ → Option ℕ → Area
unfolding blank_from
after_bra str a none = as_is
after_bra str a (some e) =
    if blank_from str (e + 1) then (if a + 1 == e then empty else bra a e) else as_is

-- Behind a `(` at `n`, with no `<`.
unfoldable pub after_name : Bytes → ℕ → ℕ → Option ℕ → Area
unfolding blank_from
after_name str b n none = as_is
after_name str b n (some m) =
    if n == b then as_is else if blank_from str (m + 1) then name n else as_is

-- The tests of `astart`, `nstart`, `aend` and `nend`.
unfoldable pub brackets : Bytes → ℕ → Option ℕ → Option ℕ → Option ℕ → Option ℕ → Area
unfolding after_bra after_name
brackets str b (some a) (some n) aend nend = as_is
brackets str b (some a) none aend nend = after_bra str a aend
brackets str b none (some n) aend nend = after_name str b n nend
brackets str b none none aend nend = as_is

-- Where the address starts and ends, for a string that does not start before `b`.
unfoldable pub choose : Bytes → ℕ → Scan → Area
unfolding is_normal brackets
choose str b s = if is_normal s.mode then brackets str b s.astart s.nstart s.aend s.nend else as_is

unfoldable pub take_area : Bytes → ℕ → Area → Option Bytes
unfolding copy_area backward forward
take_area str b empty = some []
take_area str b as_is = copy_area str b (backward str (length str - 1 - b) b)
take_area str b (bra a e) =
    let i = forward str (e - (a + 1)) (a + 1) in
    if i == e then some [] else copy_area str i (backward str (e - 1 - i) i)
take_area str b (name n) = copy_area str b (backward str (n - 1 - b) b)

unfoldable pub get_addrpart : Bytes → Option Bytes
unfolding scan choose take_area
get_addrpart str =
    let s = scan 0 str initial in
    elim s.bstart [ none ↦ some [] | some b ↦ take_area str b (choose str b s) ]

-- None for a fault; NULL is not returned, since memory is always given.
unfoldable pub get_from : Bytes → Option (Bytes × Option Bytes)
unfolding get_field get_addrpart
get_from buftop = elim (get_field buftop) [
  | none ↦ none
  | some (rstr, nadr) ↦ elim (get_addrpart rstr) [ none ↦ none | some d ↦ some (d, nadr) ]
]
