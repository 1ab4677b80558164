-- ===== src/ReadConfig/Lines.antt =====
-- libdgconfig.c, `read_config`: how the bytes of a file come apart into lines, and that the loop
-- over them ends.
use messasy.ReadConfig.Fgets.{
  fgets-line, cut-line, fgets-consumes, strchr-end, c_str-line, is_some-some, fgets-free,
  c_str-free, strchr-none,
}
use messasy.Base.{
  ℕ, zero, suc, ◌+◌, ◌<◌, ◌≤◌, Bool, true, false, Option, none, some, List, [], ◌∷◌, ◌++◌, ◌≡◌,
  refl, ◌∙◌, ap, arith, inl, inr, length, All, Bytes, is_some, Option-cases, append_assoc,
  append-nil, length-append, Bool-cases, ◌≢◌, ◌⊎◌, ◌-◌,
}
use mathlib.Core.Path.{subst}
use messasy.CString.{has_byte, strchr, c_str}
use messasy.ReadConfig.{
  CfEntry, Datum, Env, Reading, Status, failed, too_long, read_config_line, read_lines, end_read,
  read_config, start, fgets, cut, max_config_line,
}

-- A line without NUL that the buffer has room for, its newline included.
abbrev pub IsLine : Bytes → Type 0
IsLine l = (has_byte b'\n' l ≡ false) × (has_byte 0 l ≡ false) × (length l < max_config_line)

abbrev pub unlines : List Bytes → Bytes
unlines [] = []
unlines (l ∷ ls) = l ++ (b'\n' ∷ unlines ls)

unlines-length : (ls : List Bytes) (s : Bytes) → length ls ≤ length (unlines ls ++ s)
unlines-length [] s = omega arith
unlines-length (l ∷ ls) s = omega (
  arith,
  unlines-length ls s,
  length-append {0} (l ++ (b'\n' ∷ unlines ls)) s,
  length-append {0} l (b'\n' ∷ unlines ls),
  length-append {0} (unlines ls) s,
)

suc-plus : (a b : ℕ) → suc a + b ≡ suc (a + b)
suc-plus a b = omega arith

-- The lines in their order.
abbrev pub fold : Env → List CfEntry → List Bytes → Reading → Reading
fold env es [] r = r
fold env es (l ∷ ls) r = fold env es ls (read_config_line env es l r)

module _ (env : Env) (es : List CfEntry) where
  read_lines-next :
      (n c : ℕ) (s p : Bytes) (r : Reading)
      → strchr (c_str ((fgets max_config_line (c ∷ s)).0)) b'\n' ≡ some p
      → read_lines env (suc n) es (c ∷ s) r
        ≡ read_lines env n es
            ((fgets max_config_line (c ∷ s)).1)
            (read_config_line env es (cut (c_str ((fgets max_config_line (c ∷ s)).0))) r)
  unfolding read_lines
  read_lines-next n c s p r e = rw (e, read_lines) refl

  read_lines-stop :
      (n c : ℕ) (s : Bytes) (r : Reading)
      → strchr (c_str ((fgets max_config_line (c ∷ s)).0)) b'\n' ≡ none
      → read_lines env (suc n) es (c ∷ s) r ≡ some (false, r)
  unfolding read_lines
  read_lines-stop n c s r e = rw (e, read_lines) refl

  -- Enough fuel.
  pub read_lines-ends :
      (n : ℕ) (s : Bytes) (r : Reading)
      → length s < n
      → (t : Bool × Reading) × (read_lines env n es s r ≡ some t)
  unfolding read_lines
  read_lines-ends zero s r h = grind arith
  read_lines-ends (suc n) [] r h = ((true, r), refl)
  read_lines-ends (suc n) (c ∷ s) r h =
      elim (Option-cases (strchr (c_str ((fgets max_config_line (c ∷ s)).0)) b'\n')) [
        | inl e ↦ ((false, r), read_lines-stop n c s r e)
        | inr (p, e) ↦
            let f = fgets max_config_line (c ∷ s) in
            let (t, q) =
              read_lines-ends n (f.1) (read_config_line env es (cut (c_str (f.0))) r)
                (omega (arith, fgets-consumes 1023 c s)) in
            (t, read_lines-next n c s p r e ∙ q)
      ]

  -- One round of the loop at a line.
  read_lines-split :
      (n c : ℕ) (s l t : Bytes) (r : Reading)
      → IsLine l
      → fgets max_config_line (c ∷ s) ≡ (l ++ (b'\n' ∷ []), t)
      → read_lines env (suc n) es (c ∷ s) r ≡ read_lines env n es t (read_config_line env es l r)
  read_lines-split n c s l t r (h, z, _) e =
      let f = fgets max_config_line (c ∷ s) in
      let whole = ap (λ (x : Bytes × Bytes). c_str (x.0)) e ∙ c_str-line l z in
      let (p, q) = is_some-some (ap (λ x. is_some (strchr x b'\n')) whole ∙ strchr-end l) in
      read_lines-next n c s p r q
      ∙ ap
          (λ (x : Bytes × Bytes).
            read_lines env n es (x.1) (read_config_line env es (cut (c_str (f.0))) r))
          e
      ∙ ap (λ x. read_lines env n es t (read_config_line env es x r))
          (ap cut whole ∙ cut-line l [] h)

  read_lines-line :
      (l s : Bytes) (n : ℕ) (r : Reading)
      → IsLine l
      → read_lines env (suc n) es (l ++ (b'\n' ∷ s)) r
        ≡ read_lines env n es s (read_config_line env es l r)
  read_lines-line [] s n r h = read_lines-split n b'\n' s [] s r h (fgets-line [] s _ (h.0) (h.2))
  read_lines-line (c ∷ l) s n r h =
      read_lines-split n c (l ++ (b'\n' ∷ s)) (c ∷ l) s r h (fgets-line (c ∷ l) s _ (h.0) (h.2))

  pub read_lines-append :
      (ls : List Bytes) (s : Bytes) (n : ℕ) (r : Reading)
      → All IsLine ls
      → read_lines env (length ls + n) es (unlines ls ++ s) r
        ≡ read_lines env n es s (fold env es ls r)
  read_lines-append [] s n r h = ap (λ k. read_lines env k es s r) (omega arith)
  read_lines-append (l ∷ ls) s n r (h, hs) =
      ap (λ k. read_lines env k es (unlines (l ∷ ls) ++ s) r) (suc-plus (length ls) n)
      ∙ ap (λ x. read_lines env (suc (length ls + n)) es x r)
          (append_assoc l (b'\n' ∷ unlines ls) s)
      ∙ read_lines-line l (unlines ls ++ s) (length ls + n) r h
      ∙ read_lines-append ls s n (read_config_line env es l r) hs

  fold_fuel :
      (ls : List Bytes) (s : Bytes) → (n : ℕ) × (suc (length (unlines ls ++ s)) ≡ length ls + suc n)
  fold_fuel ls s = (length (unlines ls ++ s) - length ls, omega (arith, unlines-length ls s))

module _ (env : Env) (es : List CfEntry) where
  -- `read_config` ends on every file, with as many rounds of its loop as the file has bytes,
  -- and one more.
  pub read_config-ends :
      (file : Option Bytes) (m : ℕ → Datum)
      → (r : Status × (ℕ → Datum)) × (read_config env file es m ≡ some r)
  unfolding read_config
  read_config-ends none m = (_, refl)
  read_config-ends (some s) m =
      let (t, q) = read_lines-ends env es (suc (length s)) s (start m) (omega arith) in
      elim (Bool-cases (env.has_memory 0)) [
        | inl e ↦ (end_read env es t, rw (e, q) refl)
        | inr e ↦ ((failed, m), rw e refl)
      ]

  read_config-result :
      (s : Bytes) (m : ℕ → Datum) (t : Bool × Reading)
      → env.has_memory 0 ≡ true
      → read_lines env (suc (length s)) es s (start m) ≡ some t
      → read_config env (some s) es m ≡ some (end_read env es t)
  unfolding read_config
  read_config-result s m t e q = rw (e, q) refl

  pub read_config-lines :
      (ls : List Bytes) (m : ℕ → Datum)
      → All IsLine ls
      → env.has_memory 0 ≡ true
      → read_config env (some (unlines ls)) es m
        ≡ some (end_read env es (true, fold env es ls (start m)))
  unfolding read_lines
  read_config-lines ls m h e =
      let (n, q) = fold_fuel env es ls [] in
      subst
        (λ x.
          read_config env (some x) es m ≡ some (end_read env es (true, fold env es ls (start m))))
        (append-nil (unlines ls))
        (read_config-result (unlines ls ++ []) m _ e (
          ap (λ k. read_lines env k es (unlines ls ++ []) (start m)) q
          ∙ read_lines-append env es ls [] (suc n) (start m) h))

  -- Once the first memory is given, where lines that have no NUL and fit the buffer are
  -- followed by something that has no newline in the bytes that the buffer holds, or none up to
  -- the end of the file, `read_config` stops as at a line that is too long, with the values of
  -- the lines before it stored and no defaults.
  pub read_config-too_long :
      (ls : List Bytes) (a b : Bytes) (m : ℕ → Datum)
      → All IsLine ls
      → env.has_memory 0 ≡ true
      → has_byte b'\n' a ≡ false
      → a ≢ []
      → (max_config_line ≤ length a) ⊎ (b ≡ [])
      → read_config env (some (unlines ls ++ (a ++ b))) es m
        ≡ some (too_long, (fold env es ls (start m)).at)
  unfolding end_read
  read_config-too_long ls [] b m h e nl ne end = elim (ne refl) [ ]
  read_config-too_long ls (c ∷ a) b m h e nl ne end =
      let (n, q) = fold_fuel env es ls (c ∷ (a ++ b)) in
      read_config-result (unlines ls ++ (c ∷ (a ++ b))) m _ e (
        ap (λ k. read_lines env k es (unlines ls ++ (c ∷ (a ++ b))) (start m)) q
        ∙ read_lines-append env es ls (c ∷ (a ++ b)) (suc n) (start m) h
        ∙ read_lines-stop env es n c (a ++ b) (fold env es ls (start m))
            (strchr-none _ (c_str-free _ (fgets-free max_config_line (c ∷ a) b nl end))))
