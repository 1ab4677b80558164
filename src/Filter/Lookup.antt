-- ===== src/Filter/Lookup.antt =====
-- The loop of `check_ldap` over the nodes of `ldaplist`.
use messasy.Base.{
  ℕ, ◌⊎◌, zero, suc, ◌+◌, ◌<◌, ◌≡◌, refl, ◌∙◌, true, false, Option, none, some, List, [], ◌∷◌, ◌++◌,
  ◌==◌, Bytes, Ret, r_success, r_error, arith, Bool-cases, inl, inr, append-nil, append_assoc, ap,
  length, Bool, is_some, Option-cases,
}
use messasy.Config.{Config}
use messasy.Strlist.{ok, Ptr, Store, Handle, write, node}
use messasy.Strlist.Returns
use messasy.Strlist.Returns.{Returns, returns, pos_ne, load-ok, release-ok}
use messasy.Strlist.Chain.{
  Cells, head_or, has, Chain, IsStrlist, Disjoint, strings, Chain-lt, has-append, frame, has_ne,
  update_ne,
}
use messasy.Strlist.Push.{attach_strlist-Appended}
use messasy.Filter.{Ldap, mail_filter, search_ldap, ldap_loop}

module _ (ldap : Ldap) (cfg : Config) where
  abbrev pub found : ℕ → Bytes → Option ℕ
  found k v = elim cfg.ldapmailfilter [
    | none ↦ none
    | some format ↦ ldap.search k cfg.ldapbasedn cfg.ldapscope_conv (mail_filter format v)
  ]

  -- What the searches from the `k`-th on make of the addresses: whether one failed, and those that
  -- were found before that.
  unfoldable pub outcome : ℕ → List Bytes → Ret × List Bytes
  outcome k [] = (r_success, [])
  outcome k (v ∷ vs) =
      let later = outcome (k + 1) vs in
      elim (found k v) [
        | none ↦ (r_error, [])
        | some zero ↦ later
        | some (suc _) ↦ (later.0, v ∷ later.1)
      ]

-- `cf_ldapmailfilter` is not NULL.
abbrev pub has_filter : Config → Bool
has_filter cfg = is_some cfg.ldapmailfilter

pub search_ldap-found :
    (ldap : Ldap) (cfg : Config) (k : ℕ) (v : Bytes) (s : Store)
    → has_filter cfg ≡ true
    → search_ldap ldap k cfg v s ≡ ok (found ldap cfg k v) s
unfolding search_ldap
search_ldap-found ldap cfg k v s h = elim (Option-cases cfg.ldapmailfilter) [
  | inl e ↦ absurd (ground (arith, e, h))
  | inr (format, e) ↦ rw (e, search_ldap) refl
]

pub found-has_filter :
    (ldap : Ldap) (cfg : Config) (k : ℕ) (v : Bytes) (c : ℕ)
    → found ldap cfg k v ≡ some c
    → has_filter cfg ≡ true
found-has_filter ldap cfg k v c h = elim (Option-cases cfg.ldapmailfilter) [
  | inl e ↦ let f : ◌≡◌ {A = Option ℕ} none (some c) = rw e at h in cc
  | inr (format, e) ↦ rw e refl
]

module _ (ldap : Ldap) (cfg : Config) (k : ℕ) (v : Bytes) (vs : List Bytes) where
  pub outcome-error : found ldap cfg k v ≡ none → outcome ldap cfg k (v ∷ vs) ≡ (r_error, [])
  unfolding outcome
  outcome-error f = rw (f, outcome)

  pub outcome_miss :
      found ldap cfg k v ≡ some zero → outcome ldap cfg k (v ∷ vs) ≡ outcome ldap cfg (k + 1) vs
  unfolding outcome
  outcome_miss f = rw (f, outcome)

  pub outcome_hit :
      (n : ℕ)
      → found ldap cfg k v ≡ some (suc n)
      → outcome ldap cfg k (v ∷ vs)
        ≡ ((outcome ldap cfg (k + 1) vs).0, v ∷ (outcome ldap cfg (k + 1) vs).1)
  unfolding outcome
  outcome_hit n f = rw (f, outcome)

-- The save list has grown by nodes of `ys`; nothing outside of the two lists has changed.
pub record Looped (s : Store) (xs ys : Cells) (want : Ret × List Bytes) (r : Ret × Handle)
    (t : Store) : Type 0 where
  pub more : Cells
  pub ret : r.0 ≡ want.0
  pub attached : strings more ≡ want.1
  pub is : IsStrlist t r.1 (xs ++ more)
  pub moved : (a : Ptr) → has a ys ≡ false → has a more ≡ false
  pub same : (a : Ptr) → a < s.brk → has a xs ≡ false → has a ys ≡ false → t.cells a ≡ s.cells a
  pub brk : t.brk ≡ s.brk

pub not_left : (a : Ptr) (v : Bytes) (xs ys : Cells) → Disjoint xs ((a, v) ∷ ys) → has a xs ≡ false
not_left a v xs ys apart = elim (Bool-cases (has a xs)) [
  | inl h ↦ ground (arith, apart a h)
  | inr h ↦ h
]

pub Disjoint-tail : (c : Ptr × Bytes) (xs ys : Cells) → Disjoint xs (c ∷ ys) → Disjoint xs ys
Disjoint-tail c xs ys apart b h = ground (arith, apart b h)

pub Disjoint-move :
    (a : Ptr) (v : Bytes) (xs ys : Cells)
    → Disjoint xs ((a, v) ∷ ys)
    → has a ys ≡ false
    → Disjoint (xs ++ ((a, v) ∷ [])) ys
Disjoint-move a v xs ys apart out b h = elim (Bool-cases (has b ys)) [
  | inr k ↦ k
  | inl k ↦
      let ne : (a == b) ≡ false = has_ne b a ys k out in
      ground (arith, has-append b xs ((a, v) ∷ []), apart b)
]

pub other_side : (b : Ptr) (xs ys : Cells) → Disjoint xs ys → has b ys ≡ true → has b xs ≡ false
other_side b xs ys apart h = elim (Bool-cases (has b xs)) [ inl k ↦ cc (apart b k) | inr k ↦ k ]

ne_sym : (a b : ℕ) → (a == b) ≡ false → (b == a) ≡ false
ne_sym a b h = ground arith

-- The lists after the node `a` is freed.
pub kept_free :
    (s : Store) (a : Ptr) (xs : Cells)
    → Chain s 0 xs
    → has a xs ≡ false
    → Chain (write s a none) 0 xs
kept_free s a xs c out =
    frame s (write s a none) 0 xs c
      (λ b h. update_ne s.cells a b none (ne_sym a b (has_ne b a xs h out))) (omega arith)

Found-cases : (o : Option ℕ) → (o ≡ none) ⊎ (o ≡ some zero) ⊎ ((n : ℕ) × (o ≡ some (suc n)))
Found-cases none = inl refl
Found-cases (some zero) = inr (inl refl)
Found-cases (some (suc n)) = inr (inr (n, refl))

dropped :
    (s : Store) (a : Ptr) (v : Bytes) (xs ys : Cells) (want : Ret × List Bytes) (r : Ret × Handle)
    (t : Store)
    → Looped (write s a none) xs ys want r t
    → Looped s xs ((a, v) ∷ ys) want r t
dropped s a v xs ys want r t p = record {
  more = p.more;
  ret = p.ret;
  attached = p.attached;
  is = p.is;
  moved = λ b h. p.moved b (ground arith);
  same = λ b l h k. p.same b l h (ground arith) ∙ update_ne s.cells a b none (ground arith);
  brk = p.brk;
}

attached_one :
    (s u : Store) (a : Ptr) (v : Bytes) (xs ys : Cells) (ret : Ret) (zs : List Bytes)
    (r : Ret × Handle) (t : Store)
    → ((b : Ptr) → b < s.brk → has b xs ≡ false → (a == b) ≡ false → u.cells b ≡ s.cells b)
    → u.brk ≡ s.brk
    → Looped u (xs ++ ((a, v) ∷ [])) ys (ret, zs) r t
    → Looped s xs ((a, v) ∷ ys) (ret, v ∷ zs) r t
attached_one s u a v xs ys ret zs r t same eb p = record {
  more = (a, v) ∷ p.more;
  ret = p.ret;
  attached = ap (◌∷◌ v) p.attached;
  is = rw append_assoc at p.is;
  moved = λ b h. ground (arith, p.moved b);
  same = λ b l h k.
      p.same b (rw eb l) (ground (arith, has-append b xs ((a, v) ∷ []))) (ground arith)
      ∙ same b l h (ground arith);
  brk = p.brk ∙ eb;
}

module _ (ldap : Ldap) (cfg : Config) (has_one : has_filter cfg ≡ true) where
  pub ldap_loop-Looped :
      (fuel k : ℕ) (s : Store) (sv : Handle) (xs ys : Cells)
      → IsStrlist s sv xs
      → Chain s 0 ys
      → Disjoint xs ys
      → length ys < fuel
      → Returns
          (Looped s xs ys (outcome ldap cfg k (strings ys)))
          (ldap_loop ldap fuel k (head_or 0 ys) sv cfg s)
  unfolding ldap_loop outcome
  ldap_loop-Looped zero k s sv xs ys is c apart lt = absurd (omega arith)
  ldap_loop-Looped (suc fuel) k s sv xs [] is c apart lt = returns (record {
    more = [];
    ret = refl;
    attached = refl;
    is = rw append-nil is;
    moved = λ a h. refl;
    same = λ a l h i. refl;
    brk = refl;
  })
  ldap_loop-Looped (suc fuel) k s sv xs ((a, v) ∷ ys) is (pos, below, e, out, rest) apart lt =
      let left = not_left a v xs ys apart in
      let t = write s a none in
      rw (pos_ne a pos, load-ok s a pos e, search_ldap-found ldap cfg k v s has_one)
        (elim (Found-cases (found ldap cfg k v)) [
          | inl f ↦
              rw (outcome-error ldap cfg k v (strings ys) f, f)
                (returns (record {
                  more = [];
                  ret = refl;
                  attached = refl;
                  is = rw append-nil is;
                  moved = λ a h. refl;
                  same = λ a l h i. refl;
                  brk = refl;
                }))
          | inr (inl f) ↦
              rw (outcome_miss ldap cfg k v (strings ys) f, f, release-ok s a pos e)
                (Returns.weaken
                  (ldap_loop-Looped fuel (k + 1) t sv xs ys
                    (record {
                      chain = kept_free s a xs is.chain left;
                      head = is.head;
                      tail = is.tail;
                    })
                    (kept_free s a ys rest out) (Disjoint-tail (a, v) xs ys apart) (omega arith))
                  (λ r u p. dropped s a v xs ys _ r u p))
          | inr (inr (n, f)) ↦
              rw (outcome_hit ldap cfg k v (strings ys) n f, f)
                (Returns.bind
                  (attach_strlist-Appended s sv xs a (node v (head_or 0 ys)) is pos below e left)
                  λ sv' u (is', g, eb).
                    Returns.weaken
                      (ldap_loop-Looped fuel (k + 1) u sv' (xs ++ ((a, v) ∷ [])) ys is'
                        (frame s u 0 ys rest
                          (λ b h.
                            g.same b (Chain-lt s 0 ys rest b h)
                              (other_side b _ ys (Disjoint-move a v xs ys apart out) h))
                          g.grows)
                        (Disjoint-move a v xs ys apart out) (omega arith))
                      (λ r t p.
                        attached_one s u a v xs ys _ _ r t
                          (λ b l h m. g.same b l (ground (arith, has-append b xs ((a, v) ∷ [])))) eb
                          p))
        ])
