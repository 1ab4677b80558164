-- ===== src/Format.antt =====
-- utils.c: `replace_delimiter` and `str_replace_format`. The loops over `strchr` are read byte by
-- byte: what lies before the byte that is looked for is copied as it is passed.
pub mod RoundTrip
use messasy.Base.{ℕ, Bool, true, false, List, [], ◌∷◌, ◌++◌, ◌==◌, if◌then◌else◌, Bytes}

pub record StrFormat : Type 0 where
  pub formatchar : ℕ
  pub replacestr : Bytes

unfoldable pub replace_delimiter : Bytes → ℕ → ℕ → Bytes
replace_delimiter [] old new = []
replace_delimiter (c ∷ cs) old new = (if c == old then new else c) ∷ replace_delimiter cs old new

-- The search through the table for the character behind `%`; `%` and the character where none fits.
unfoldable pub replacement : List StrFormat → ℕ → Bytes
replacement [] c = b'%' ∷ c ∷ []
replacement (f ∷ fs) c =
    let rest = replacement fs c in if f.formatchar == c then f.replacestr else rest

-- `ss` is what has been written, the last argument what `chaser` points at.
format_loop : List StrFormat → Bytes → Bytes → Bytes
unfolding replacement
format_loop sf ss [] = ss
format_loop sf ss (c ∷ []) = ss ++ (c ∷ [])
format_loop sf ss (c ∷ d ∷ rest) =
    let plain = format_loop sf (ss ++ (c ∷ [])) (d ∷ rest) in
    let replaced =
      format_loop sf (ss ++ (if d == b'%' then b'%' ∷ [] else replacement sf d)) rest in
    if c == b'%' then replaced else plain

unfoldable pub str_replace_format : Bytes → List StrFormat → Bytes
unfolding format_loop
str_replace_format str sf = format_loop sf [] str
