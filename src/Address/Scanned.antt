-- ===== src/Address/Scanned.antt =====
-- The positions that the first loop of `get_addrpart` finds.
use messasy.Base.{
  ℕ, suc, ◌+◌, ◌<◌, ◌≤◌, ◌≡◌, refl, ◌∙◌, Bool, true, false, Option, none, some, [], ◌∷◌, ◌==◌,
  length, Bytes, arith, Bool-cases, inl, inr,
}
use messasy.CString.{isspace}
use messasy.Address.{
  Mode, mode_0, mode_n, mode_q, mode_s, mode_qs, Scan, open_at, close_at, at_backslash, at_normal,
  at_char, scan_char, scan, initial,
}

-- A field that is set.
abbrev pub IsSetTo : (ℕ → Type 0) → Option ℕ → Type 0
IsSetTo P none = Unit
IsSetTo P (some x) = P x

abbrev pub After : Option ℕ → ℕ → Type 0
After none x = ⊥
After (some b) x = b ≤ x

abbrev pub Beyond : Option ℕ → ℕ → Type 0
Beyond none x = ⊥
Beyond (some a) x = a < x

-- The positions that are set when `i` characters have been read.
pub record Inside (i : ℕ) (s : Scan) : Type 0 where
  pub a_in : IsSetTo (λ a. After s.bstart a × (a < i)) s.astart
  pub e_in : IsSetTo (λ e. Beyond s.astart e × (e < i)) s.aend
  pub n_in : IsSetTo (λ n. After s.bstart n × (n < i)) s.nstart
  pub m_in : IsSetTo (λ m. m < i) s.nend

weaken_set : (P Q : ℕ → Type 0) (o : Option ℕ) → ((x : ℕ) → P x → Q x) → IsSetTo P o → IsSetTo Q o
weaken_set P Q none f p = tt
weaken_set P Q (some x) f p = f x p

Inside-weaken : (i : ℕ) (s : Scan) → Inside i s → Inside (i + 1) s
Inside-weaken i s p = record {
  a_in = weaken_set _ _ s.astart (λ x (h, l). (h, omega arith)) p.a_in;
  e_in = weaken_set _ _ s.aend (λ x (h, l). (h, omega arith)) p.e_in;
  n_in = weaken_set _ _ s.nstart (λ x (h, l). (h, omega arith)) p.n_in;
  m_in = weaken_set _ _ s.nend (λ x h. omega arith) p.m_in;
}

-- What a bracket leaves of the conditions.
module _ (i : ℕ) where
  opened :
      (b o : Option ℕ)
      → After b i
      → IsSetTo (λ a. After b a × (a < i)) o
      → IsSetTo (λ a. After b a × (a < i + 1)) (open_at i o)
  unfolding open_at
  opened b none st h = (st, omega arith)
  opened b (some a) st (h, l) = (h, omega arith)

  Beyond-opened :
      (o e : Option ℕ)
      → IsSetTo (λ x. Beyond o x × (x < i)) e
      → IsSetTo (λ x. Beyond (open_at i o) x × (x < i + 1)) e
  unfolding open_at
  Beyond-opened o none h = tt
  Beyond-opened none (some x) (h, l) = absurd h
  Beyond-opened (some a) (some x) (h, l) = (h, omega arith)

  closed-Beyond :
      (b o e : Option ℕ)
      → IsSetTo (λ a. After b a × (a < i)) o
      → IsSetTo (λ x. Beyond o x × (x < i)) e
      → IsSetTo (λ x. Beyond o x × (x < i + 1)) (close_at i o e)
  unfolding close_at
  closed-Beyond b none none g h = tt
  closed-Beyond b none (some x) g (h, l) = absurd h
  closed-Beyond b (some a) e (g, l) h = (l, omega arith)

  closed_in : (o e : Option ℕ) → IsSetTo (λ m. m < i) e → IsSetTo (λ m. m < i + 1) (close_at i o e)
  unfolding close_at
  closed_in none none h = tt
  closed_in none (some m) h = omega arith
  closed_in (some n) e h = omega arith

module _ (i c : ℕ) (s : Scan) (p : Inside i s) (started : After s.bstart i) where
  later : Inside (i + 1) s
  later = Inside-weaken i s p

  later_in : (m : Mode) → Inside (i + 1) (record s { mode = m })
  later_in m = record { a_in = later.a_in; e_in = later.e_in; n_in = later.n_in; m_in = later.m_in }

  at_normal-Inside : Inside (i + 1) (at_normal i c s)
  unfolding at_normal
  at_normal-Inside = elim (Bool-cases (c == b'"')) [
    | inl q ↦ rw q (later_in mode_q)
    | inr q ↦ elim (Bool-cases (c == b'<')) [
      | inl k ↦
          rw (q, k)
            (record {
              a_in = opened i s.bstart s.astart started p.a_in;
              e_in = Beyond-opened i s.astart s.aend p.e_in;
              n_in = later.n_in;
              m_in = later.m_in;
            })
      | inr k ↦ elim (Bool-cases (c == b'>')) [
        | inl l ↦
            rw (q, k, l)
              (record {
                a_in = later.a_in;
                e_in = closed-Beyond i s.bstart s.astart s.aend p.a_in p.e_in;
                n_in = later.n_in;
                m_in = later.m_in;
              })
        | inr l ↦ elim (Bool-cases (c == b'(')) [
          | inl m ↦
              rw (q, k, l, m)
                (record {
                  a_in = later.a_in;
                  e_in = later.e_in;
                  n_in = opened i s.bstart s.nstart started p.n_in;
                  m_in = later.m_in;
                })
          | inr m ↦ elim (Bool-cases (c == b')')) [
            | inl n ↦
                rw (q, k, l, m, n)
                  (record {
                    a_in = later.a_in;
                    e_in = later.e_in;
                    n_in = later.n_in;
                    m_in = closed_in i s.nstart s.nend p.m_in;
                  })
            | inr n ↦ rw (q, k, l, m, n) later
          ]
        ]
      ]
    ]
  ]

  at_mode : (m : Mode) → s.mode ≡ m → Inside (i + 1) (at_char i c s)
  unfolding at_char
  at_mode mode_0 e = elim (Bool-cases (c == b'\\')) [
    | inl k ↦ rw k (later_in (at_backslash s.mode))
    | inr k ↦ rw (k, e) at_normal-Inside
  ]
  at_mode mode_n e = elim (Bool-cases (c == b'\\')) [
    | inl k ↦ rw k (later_in (at_backslash s.mode))
    | inr k ↦ rw (k, e) at_normal-Inside
  ]
  at_mode mode_s e = elim (Bool-cases (c == b'\\')) [
    | inl k ↦ rw k (later_in (at_backslash s.mode))
    | inr k ↦ rw (k, e) (later_in mode_n)
  ]
  at_mode mode_qs e = elim (Bool-cases (c == b'\\')) [
    | inl k ↦ rw k (later_in (at_backslash s.mode))
    | inr k ↦ rw (k, e) (later_in mode_q)
  ]
  at_mode mode_q e = elim (Bool-cases (c == b'\\')) [
    | inl k ↦ rw k (later_in (at_backslash s.mode))
    | inr k ↦ elim (Bool-cases (c == b'"')) [
      | inl l ↦ rw (k, e, l) (later_in mode_n)
      | inr l ↦ rw (k, e, l) later
    ]
  ]

  at_char-Inside : Inside (i + 1) (at_char i c s)
  at_char-Inside = at_mode s.mode refl

unfoldable pub begun : Mode → Bool
begun mode_0 = false
begun _ = true

at_char-begun : (i c : ℕ) (s : Scan) → begun s.mode ≡ true → begun (at_char i c s).mode ≡ true
unfolding at_char begun at_normal at_backslash
at_char-begun i c s h = ground (arith, h)

at_char-bstart : (i c : ℕ) (s : Scan) → (at_char i c s).bstart ≡ s.bstart
unfolding at_char at_normal
at_char-bstart i c s = ground arith

-- The string has only blanks so far, or its first character is known.
pub data Known (i : ℕ) (s : Scan) : Type 0 where
  blank : s ≡ initial → Known i s
  known : (b : ℕ) → begun s.mode ≡ true → s.bstart ≡ some b → b < i → Inside i s → Known i s

at_char-Known :
    (i c b : ℕ) (s : Scan)
    → begun s.mode ≡ true
    → s.bstart ≡ some b
    → b ≤ i
    → Inside i s
    → Known (i + 1) (at_char i c s)
at_char-Known i c b s m e le p =
    known b (at_char-begun i c s m) (at_char-bstart i c s ∙ e) (omega arith)
      (at_char-Inside i c s p (rw e le))

scan_char-begun : (i c : ℕ) (s : Scan) → begun s.mode ≡ true → scan_char i c s ≡ at_char i c s
unfolding scan_char begun
scan_char-begun i c s m = ground (arith, m)

scan_char-Known : (i c : ℕ) (s : Scan) → Known i s → Known (i + 1) (scan_char i c s)
unfolding scan_char begun
scan_char-Known i c s (blank e) = elim (Bool-cases (isspace c)) [
  | inl h ↦ rw (e, h) (blank refl)
  | inr h ↦
      rw (e, h)
        (at_char-Known i c i (record initial { mode = mode_n; bstart = some i }) refl refl
          (omega arith) (record { a_in = tt; e_in = tt; n_in = tt; m_in = tt }))
]
scan_char-Known i c s (known b m e lt p) =
    rw (scan_char-begun i c s m) (at_char-Known i c b s m e (omega arith) p)

pub scan-Known : (cs : Bytes) (i : ℕ) (s : Scan) → Known i s → Known (i + length cs) (scan i cs s)
unfolding scan
scan-Known [] i s k = let same : i + 0 ≡ i = omega arith in rw same k
scan-Known (c ∷ cs) i s k =
    let same : i + suc (length cs) ≡ i + 1 + length cs = omega arith in
    rw same (scan-Known cs (i + 1) (scan_char i c s) (scan_char-Known i c s k))
