-- ===== src/Lda.antt =====
-- so/liblda/liblda.c: the mail that is written to the temporary file. `write` is a parameter: how
-- many bytes the call takes when the file has the length of its first argument and the buffer that
-- of its second, and none for an error.
pub mod Body
pub mod Header
use messasy.Base.{
  ℕ, zero, suc, ◌-◌, Bool, true, false, Option, none, some, List, [], ◌∷◌, ◌++◌, ltb, leb, ◌==◌,
  if◌then◌else◌, length, Bytes, Ret, r_success, r_error,
}

-- `md_writing_body`, `md_cr`, and what the temporary file holds.
pub record LdaState : Type 0 where
  pub writing_body : Bool
  pub cr : Bool
  pub tempfile : Bytes

abbrev pub Write : Type 0
Write = ℕ → ℕ → Option ℕ

unfoldable pub take_bytes : ℕ → Bytes → Bytes
take_bytes zero cs = []
take_bytes (suc n) [] = []
take_bytes (suc n) (c ∷ cs) = c ∷ take_bytes n cs

unfoldable pub drop_bytes : ℕ → Bytes → Bytes
drop_bytes zero cs = cs
drop_bytes (suc n) [] = []
drop_bytes (suc n) (c ∷ cs) = drop_bytes n cs

-- The write of one byte; a write that takes nothing is no error.
unfoldable pub put_byte : Write → ℕ → LdaState → Option LdaState
unfolding take_bytes
put_byte write c md = elim (write (length md.tempfile) 1) [
  | none ↦ none
  | some n ↦ some (record md { tempfile = md.tempfile ++ take_bytes n (c ∷ []) })
]

-- `if (md->md_cr) { ... }`
unfoldable pub flush_cr : Write → ℕ → LdaState → Option LdaState
unfolding put_byte
flush_cr write c md =
    if md.cr
    then if c == b'\n'
      then some (record md { cr = false })
      else elim (put_byte write b'\r' md) [ none ↦ none | some t ↦ some (record t { cr = false }) ]
    else some md

-- One round of the loop of `lda_write_body`.
unfoldable pub body_byte : Write → ℕ → LdaState → Option LdaState
unfolding flush_cr put_byte
body_byte write c md = elim (flush_cr write c md) [
  | none ↦ none
  | some t ↦ if c == b'\r' then some (record t { cr = true }) else put_byte write c t
]

unfoldable pub body_loop : Write → Bytes → LdaState → Option LdaState
unfolding body_byte
body_loop write [] md = some md
body_loop write (c ∷ cs) md = elim (body_byte write c md) [
  | none ↦ none
  | some t ↦ body_loop write cs t
]

-- None for `R_ERROR`.
unfoldable pub lda_write_body : Write → Bytes → LdaState → Option LdaState
unfolding body_loop
lda_write_body write bodyp md =
    if md.writing_body
    then body_loop write bodyp md
    else elim (body_loop write (b'\n' ∷ []) (record md { writing_body = true })) [
      | none ↦ none
      | some t ↦ body_loop write bodyp t
    ]

-- The body as the milter hands it over, in parts.
unfoldable pub write_parts : Write → List Bytes → LdaState → Option LdaState
unfolding lda_write_body
write_parts write [] md = some md
write_parts write (p ∷ ps) md = elim (lda_write_body write p md) [
  | none ↦ none
  | some t ↦ write_parts write ps t
]

-- The CR that is held back when `lda_close` closes the file. The result of the write is unsigned, so
-- an error is never seen.
unfoldable pub close_tempfile : Write → LdaState → LdaState
unfolding put_byte
close_tempfile write md =
    if md.cr
    then elim (put_byte write b'\r' md) [
      | none ↦ record md { cr = false }
      | some t ↦ record t { cr = false }
    ]
    else md

-- The loop of `lda_write_header`: `written` is `written_len`, and `left` is `header_len`. None for
-- an error, and where the fuel is not enough.
unfoldable pub header_loop : ℕ → Write → ℕ → ℕ → Bytes → Bytes → Option (Ret × Bytes)
unfolding take_bytes drop_bytes
header_loop zero write written left p tempfile = none
header_loop (suc fuel) write written left p tempfile = elim (ltb written left) [
  | false ↦ some (r_success, tempfile)
  | true ↦ elim (write (length tempfile) left) [
    | none ↦ some (r_error, tempfile)
    | some n ↦ header_loop fuel write n (left - n) (drop_bytes n p) (tempfile ++ take_bytes n p)
  ]
]

-- `sprintf(header, "%s: %s\n", ...)`
unfoldable pub header_line : Bytes → Option Bytes → Bytes
header_line field none = field ++ (b':' ∷ b' ' ∷ b'\n' ∷ [])
header_line field (some value) = field ++ (b':' ∷ b' ' ∷ (value ++ (b'\n' ∷ [])))

-- One header behind the custom headers.
unfoldable pub write_header : Write → Bytes → Option Bytes → Bytes → Option (Ret × Bytes)
unfolding header_loop header_line
write_header write field value tempfile =
    let header = header_line field value in
    header_loop (suc (suc (length header))) write 0 (length header) header tempfile
