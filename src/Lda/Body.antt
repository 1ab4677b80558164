-- ===== src/Lda/Body.antt =====
-- The line ends of a body, whatever the parts that it comes in.
use messasy.Base.{
  ℕ, ◌≡◌, refl, sym, ap, ◌∙◌, Bool, true, false, not, ◌&&◌, Option, none, some, List, [], ◌∷◌, ◌++◌,
  append_assoc, append-nil, ◌==◌, if◌then◌else◌, Bytes, arith, ==_iff, Bool-cases, inl, inr,
}
use messasy.Lda.{
  LdaState, Write, take_bytes, put_byte, flush_cr, body_byte, body_loop, lda_write_body,
  write_parts, close_tempfile,
}

-- Every byte is taken.
abbrev pub full : Write
full = λ at n. some n

-- CRLF as LF, for a text behind a CR or not; a CR at the end is held back.
unfoldable pub to_lf : Bool → Bytes → Bytes
to_lf cr [] = []
to_lf cr (c ∷ cs) =
    let plain = to_lf false cs in
    let held = to_lf true cs in
    let tail = if c == b'\r' then held else c ∷ plain in
    if cr && not (c == b'\n') then b'\r' ∷ tail else tail

-- A CR is held back at the end.
unfoldable pub ends_cr : Bool → Bytes → Bool
ends_cr cr [] = cr
ends_cr cr (c ∷ cs) = ends_cr (c == b'\r') cs

abbrev pub Written : Bool → Bytes → Bytes → LdaState
Written cr old cs = record {
  writing_body = true;
  cr = ends_cr cr cs;
  tempfile = old ++ to_lf cr cs;
}

byte-full :
    (c : ℕ) (cr : Bool) (old : Bytes) (is_lf is_cr : Bool)
    → (c == b'\n') ≡ is_lf
    → (c == b'\r') ≡ is_cr
    → body_byte full c (record { writing_body = true; cr = cr; tempfile = old })
      ≡ some (record {
        writing_body = true;
        cr = is_cr;
        tempfile =
            (old ++ (if cr && not is_lf then b'\r' ∷ [] else [])) ++ (if is_cr then [] else c ∷ []);
      })
unfolding body_byte flush_cr put_byte take_bytes
byte-full c false old is_lf true lf r = rw (r, append-nil (old ++ []), append-nil old)
byte-full c false old is_lf false lf r = rw (r, append-nil old)
byte-full c true old true true lf r =
    rw (body_byte, flush_cr, lf, r, append-nil (old ++ []), append-nil old)
byte-full c true old true false lf r = rw (body_byte, flush_cr, lf, r, append-nil old)
byte-full c true old false true lf r =
    rw (body_byte, flush_cr, lf, r, append-nil (old ++ (b'\r' ∷ [])))
byte-full c true old false false lf r = rw (body_byte, flush_cr, lf, r)

written_byte :
    (c : ℕ) (cr : Bool) (old cs : Bytes) (is_lf is_cr : Bool)
    → (c == b'\n') ≡ is_lf
    → (c == b'\r') ≡ is_cr
    → ((old ++ (if cr && not is_lf then b'\r' ∷ [] else [])) ++ (if is_cr then [] else c ∷ []))
        ++ to_lf is_cr cs
      ≡ old ++ to_lf cr (c ∷ cs)
unfolding to_lf
written_byte c false old cs is_lf true lf r = rw (r, append-nil (old ++ []), append-nil old)
written_byte c false old cs is_lf false lf r =
    rw (r, append-nil old, append_assoc old (c ∷ []) (to_lf false cs))
written_byte c true old cs true true lf r = rw (lf, r, append-nil (old ++ []), append-nil old)
written_byte c true old cs true false lf r =
    rw (lf, r, append-nil old, append_assoc old (c ∷ []) (to_lf false cs))
written_byte c true old cs false true lf r =
    rw (lf, r, append-nil (old ++ (b'\r' ∷ [])), append_assoc old (b'\r' ∷ []) (to_lf true cs))
written_byte c true old cs false false lf r = rw (
  lf,
  r,
  append_assoc (old ++ (b'\r' ∷ [])) (c ∷ []) (to_lf false cs),
  append_assoc old (b'\r' ∷ []) (c ∷ to_lf false cs),
)

loop-Written :
    (cs : Bytes) (cr : Bool) (old : Bytes)
    → body_loop full cs (record { writing_body = true; cr = cr; tempfile = old })
      ≡ some (Written cr old cs)
unfolding body_loop to_lf ends_cr
loop-Written [] cr old = rw (append-nil old) refl
loop-Written (c ∷ cs) cr old =
    rw
      (
        body_loop,
        byte-full c cr old (c == b'\n') (c == b'\r') refl refl,
        loop-Written cs (c == b'\r') (
            (old ++ (if cr && not (c == b'\n') then b'\r' ∷ [] else []))
            ++ (if c == b'\r' then [] else c ∷ [])),
      )
      (ap (λ t. some (record { writing_body = true; cr = ends_cr (c == b'\r') cs; tempfile = t }))
        (written_byte c cr old cs (c == b'\n') (c == b'\r') refl refl))

unfoldable pub joined_parts : List Bytes → Bytes
joined_parts [] = []
joined_parts (p ∷ ps) = p ++ joined_parts ps

-- A text with CRLF line ends.
unfoldable pub to_crlf : Bytes → Bytes
to_crlf [] = []
to_crlf (c ∷ cs) = let rest = to_crlf cs in if c == b'\n' then b'\r' ∷ c ∷ rest else c ∷ rest

unfoldable held : Bool → Bytes
held cr = if cr then b'\r' ∷ [] else []

unfoldable then_loop : Write → Bytes → Option LdaState → Option LdaState
then_loop write ys none = none
then_loop write ys (some md) = body_loop write ys md

loop-append :
    (xs ys : Bytes) (write : Write) (md : LdaState)
    → body_loop write (xs ++ ys) md ≡ then_loop write ys (body_loop write xs md)
unfolding body_loop then_loop
loop-append [] ys write md = refl
loop-append (c ∷ xs) ys write md = step (body_byte write c md) (λ t. loop-append xs ys write t)
  where
    step :
        (o : Option LdaState)
        → ((t : LdaState)
            → body_loop write (xs ++ ys) t ≡ then_loop write ys (body_loop write xs t))
        → (elim o [ none ↦ none | some t ↦ body_loop write (xs ++ ys) t ])
          ≡ then_loop write ys (elim o [ none ↦ none | some t ↦ body_loop write xs t ])
    step none behind = refl
    step (some t) behind = behind t

parts-loop :
    (ps : List Bytes) (cr : Bool) (old : Bytes)
    → write_parts full ps (record { writing_body = true; cr = cr; tempfile = old })
      ≡ body_loop full (joined_parts ps) (record { writing_body = true; cr = cr; tempfile = old })
unfolding write_parts lda_write_body joined_parts body_loop then_loop
parts-loop [] cr old = refl
parts-loop (p ∷ ps) cr old =
    rw
      (
        write_parts,
        lda_write_body,
        loop-append p (joined_parts ps) full
            (record { writing_body = true; cr = cr; tempfile = old }),
        loop-Written p cr old,
      )
      (parts-loop ps (ends_cr cr p) (old ++ to_lf cr p))

cr_no_lf : (c : ℕ) → c ≡ b'\n' → ¬ (c ≡ b'\r')
cr_no_lf c lf r = omega arith

crlf_lf : (c : ℕ) (cs : Bytes) → (c == b'\n') ≡ true → to_crlf (c ∷ cs) ≡ b'\r' ∷ c ∷ to_crlf cs
unfolding to_crlf
crlf_lf c cs lf = rw lf

crlf_plain : (c : ℕ) (cs : Bytes) → (c == b'\n') ≡ false → to_crlf (c ∷ cs) ≡ c ∷ to_crlf cs
unfolding to_crlf
crlf_plain c cs lf = rw lf

crlf_step :
    (c : ℕ) (cs : Bytes) (cr is_lf is_cr : Bool)
    → (c == b'\n') ≡ is_lf
    → (c == b'\r') ≡ is_cr
    → to_lf is_cr (to_crlf cs) ++ held (ends_cr is_cr (to_crlf cs)) ≡ held is_cr ++ cs
    → to_lf cr (to_crlf (c ∷ cs)) ++ held (ends_cr cr (to_crlf (c ∷ cs))) ≡ held cr ++ (c ∷ cs)
unfolding to_lf ends_cr held
crlf_step c cs cr true true lf r ih =
    absurd (cr_no_lf c ((==_iff c b'\n').0 lf) ((==_iff c b'\r').0 r))
crlf_step c cs true true false lf r ih =
    rw (crlf_lf c cs lf, lf, ends_cr, r) (ap (λ t. b'\r' ∷ c ∷ t) ih)
crlf_step c cs false true false lf r ih = rw (crlf_lf c cs lf, lf, ends_cr, r) (ap (λ t. c ∷ t) ih)
crlf_step c cs true false true lf r ih =
    rw (crlf_plain c cs lf, lf, ends_cr, r)
      (ap (λ t. b'\r' ∷ t) ih ∙ ap (λ x. b'\r' ∷ x ∷ cs) (sym ((==_iff c b'\r').0 r)))
crlf_step c cs false false true lf r ih =
    rw (crlf_plain c cs lf, ends_cr, r) (ih ∙ ap (λ x. x ∷ cs) (sym ((==_iff c b'\r').0 r)))
crlf_step c cs true false false lf r ih =
    rw (crlf_plain c cs lf, lf, ends_cr, r) (ap (λ t. b'\r' ∷ c ∷ t) ih)
crlf_step c cs false false false lf r ih = rw (crlf_plain c cs lf, ends_cr, r) (ap (λ t. c ∷ t) ih)

lf-crlf :
    (cs : Bytes) (cr : Bool)
    → to_lf cr (to_crlf cs) ++ held (ends_cr cr (to_crlf cs)) ≡ held cr ++ cs
unfolding to_lf to_crlf ends_cr held
lf-crlf [] cr = sym (append-nil (held cr))
lf-crlf (c ∷ cs) cr =
    crlf_step c cs cr (c == b'\n') (c == b'\r') refl refl (lf-crlf cs (c == b'\r'))

-- The file that `lda_close` leaves; none where the body was not written.
unfoldable pub closed : Option LdaState → Option Bytes
closed none = none
closed (some md) = some (LdaState.tempfile (close_tempfile full md))

closed-Written :
    (cr : Bool) (old cs : Bytes)
    → closed (some (Written cr old cs)) ≡ some (old ++ (to_lf cr cs ++ held (ends_cr cr cs)))
unfolding closed close_tempfile put_byte take_bytes held
closed-Written cr old cs = elim (Bool-cases (ends_cr cr cs)) [
  | inl e ↦ rw (e, append_assoc old (to_lf cr cs) (b'\r' ∷ [])) refl
  | inr e ↦ rw (e, append-nil (to_lf cr cs)) refl
]

-- A body with CRLF line ends, in one part or more, cut anywhere, is written by `lda_write_body`
-- and closed by `lda_close` as an empty line and then the text with LF line ends, a CR that ends
-- no line kept, when each write takes its byte.
pub write_parts-to_crlf :
    (text p : Bytes) (ps : List Bytes) (old : Bytes)
    → joined_parts (p ∷ ps) ≡ to_crlf text
    → closed
        (write_parts full (p ∷ ps) (record { writing_body = false; cr = false; tempfile = old }))
      ≡ some (old ++ (b'\n' ∷ text))
unfolding write_parts lda_write_body body_loop body_byte flush_cr put_byte take_bytes held
write_parts-to_crlf text p ps old cut =
    let start = old ++ (b'\n' ∷ []) in
    ap closed (
      parts-loop (p ∷ ps) false start
      ∙ ap (λ b. body_loop full b (record { writing_body = true; cr = false; tempfile = start }))
          cut
      ∙ loop-Written (to_crlf text) false start)
    ∙ closed-Written false start (to_crlf text)
    ∙ ap (λ t. some (start ++ t)) (lf-crlf text false)
    ∙ ap some (append_assoc old (b'\n' ∷ []) text)
