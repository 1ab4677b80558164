-- ===== src/Manager/Lines.antt =====
-- The lines that `read_line` takes from the socket.
use messasy.Base.{
  ℕ, zero, suc, ◌+◌, ◌-◌, ◌<◌, ◌≤◌, ◌≡◌, refl, ◌∙◌, ap, Bool, true, false, List, [], ◌∷◌, ◌++◌,
  append-nil, append_assoc, ◌==◌, if◌then◌else◌, Bytes, length, arith, inl, inr, Bool-cases, ◌&&◌,
  not,
}
use messasy.Manager.{
  Read, Crlf, check_crlf, read_dust, read_loop, read_line, too_long, line, got, none_found,
  cr_found, crlf_found, drop_last,
}

-- No LF in the line.
unfoldable pub no_lf : Bytes → Bool
no_lf [] = true
no_lf (c ∷ cs) = not (c == b'\n') && no_lf cs

-- The bytes of a line, as they are read from the socket.
abbrev pub sent : Bytes → List Read → List Read
sent [] rs = rs
sent (c ∷ cs) rs = got c ∷ sent cs rs

abbrev pub crlf : Bytes
crlf = b'\r' ∷ b'\n' ∷ []

-- The state behind a line without LF.
after : Bytes → Crlf → Crlf
after [] state = state
after (c ∷ cs) state = after cs (if c == b'\r' then cr_found else none_found)

drop_last-append : (xs : Bytes) (c : ℕ) → drop_last (xs ++ (c ∷ [])) ≡ xs
unfolding drop_last
drop_last-append [] c = refl
drop_last-append (x ∷ []) c = refl
drop_last-append (x ∷ y ∷ xs) c = ap (◌∷◌ x) (drop_last-append (y ∷ xs) c)

-- A state that does not end the line.
open_state : Crlf → Bool
open_state crlf_found = false
open_state _ = true

check_crlf-no_lf :
    (c : ℕ) (state : Crlf)
    → (c == b'\n') ≡ false
    → check_crlf c state ≡ (if c == b'\r' then cr_found else none_found)
unfolding check_crlf
check_crlf-no_lf c state h = rw h refl

read_loop-sent :
    (cs : Bytes) (left room : ℕ) (state : Crlf) (buf : Bytes) (rs : List Read)
    → left ≡ length cs + room
    → no_lf cs ≡ true
    → read_loop left state buf (sent cs rs) ≡ read_loop room (after cs state) (buf ++ cs) rs
unfolding read_loop no_lf after
read_loop-sent [] left room state buf rs e h =
    let same : left ≡ room = omega arith in rw (append-nil, same) refl
read_loop-sent (c ∷ cs) zero room state buf rs e h = absurd (omega arith)
read_loop-sent (c ∷ cs) (suc left) room state buf rs e h =
    let lf : (c == b'\n') ≡ false = ground arith in
    let later : no_lf cs ≡ true = ground arith in
    elim (Bool-cases (c == b'\r')) [
      | inl r ↦
          rw (read_loop, check_crlf-no_lf c state lf, r)
            (read_loop-sent cs left room cr_found (buf ++ (c ∷ [])) rs (omega arith) later
              ∙ rw append_assoc refl)
      | inr r ↦
          rw (read_loop, check_crlf-no_lf c state lf, r)
            (read_loop-sent cs left room none_found (buf ++ (c ∷ [])) rs (omega arith) later
              ∙ rw append_assoc refl)
    ]

read_loop-crlf :
    (room : ℕ) (state : Crlf) (buf : Bytes) (rs : List Read)
    → read_loop (suc (suc room)) state buf (sent crlf rs) ≡ (line buf, rs)
unfolding read_loop check_crlf
read_loop-crlf room state buf rs = ap (λ l. (line l, rs)) (drop_last-append buf b'\r')

read_dust-sent :
    (cs : Bytes) (state : Crlf) (rs : List Read)
    → open_state state ≡ true
    → no_lf cs ≡ true
    → read_dust state (sent cs (sent crlf rs)) ≡ rs
unfolding read_dust no_lf open_state check_crlf
read_dust-sent cs crlf_found rs o h = cc
read_dust-sent [] none_found rs o h = refl
read_dust-sent [] cr_found rs o h = refl
read_dust-sent (c ∷ cs) none_found rs o h =
    ground (arith, read_dust-sent cs none_found rs, read_dust-sent cs cr_found rs)
read_dust-sent (c ∷ cs) cr_found rs o h =
    ground (arith, read_dust-sent cs none_found rs, read_dust-sent cs cr_found rs)

read_loop-too_long :
    (cs : Bytes) (left : ℕ) (state : Crlf) (buf : Bytes) (rs : List Read)
    → left ≤ length cs + 1
    → open_state state ≡ true
    → no_lf cs ≡ true
    → read_loop left state buf (sent cs (sent crlf rs)) ≡ (too_long, rs)
unfolding read_loop no_lf open_state check_crlf read_dust
read_loop-too_long cs zero state buf rs le o h =
    ap (λ r. (too_long, r)) (read_dust-sent cs state rs o h)
read_loop-too_long [] (suc zero) state buf rs le o h = refl
read_loop-too_long [] (suc (suc left)) state buf rs le o h = absurd (omega arith)
read_loop-too_long (c ∷ cs) (suc left) state buf rs le o h =
    let lf : (c == b'\n') ≡ false = ground arith in
    let later : no_lf cs ≡ true = ground arith in
    elim (Bool-cases (c == b'\r')) [
      | inl r ↦
          rw (read_loop, check_crlf-no_lf c state lf, r)
            (read_loop-too_long cs left cr_found (buf ++ (c ∷ [])) rs (omega arith) refl later)
      | inr r ↦
          rw (read_loop, check_crlf-no_lf c state lf, r)
            (read_loop-too_long cs left none_found (buf ++ (c ∷ [])) rs (omega arith) refl later)
    ]

-- A line of fewer than 128 bytes without LF is read as it was sent, and its CRLF with it and
-- nothing more.
pub read_line-sent :
    (cs : Bytes) (rs : List Read)
    → no_lf cs ≡ true
    → length cs < 128
    → read_line (sent cs (sent crlf rs)) ≡ (line cs, rs)
unfolding read_line
read_line-sent cs rs h lt =
    read_loop-sent cs 129 (suc (suc (127 - length cs))) none_found [] (sent crlf rs) (omega arith) h
    ∙ read_loop-crlf (127 - length cs) (after cs none_found) cs rs

-- A line of 128 bytes or more without LF is refused, and what follows its CRLF is left to be read
-- as the next line.
pub read_line-too_long :
    (cs : Bytes) (rs : List Read)
    → no_lf cs ≡ true
    → 128 ≤ length cs
    → read_line (sent cs (sent crlf rs)) ≡ (too_long, rs)
unfolding read_line open_state
read_line-too_long cs rs h lt = read_loop-too_long cs 129 none_found [] rs (omega arith) refl h
