-- ===== src/Filter/Pair.antt =====
-- The two lists of `make_savelist`, apart on one store, and what `judge_mail` adds to them.
use messasy.Base.{
  ℕ, ◌+◌, ◌||◌, ◌∙◌, ◌≤◌, ◌<◌, ◌≡◌, refl, Bool, true, false, List, [], ◌∷◌, ◌++◌, ◌==◌, Bytes, Ret,
  r_success, arith, Bool-cases, inl, inr, append-nil,
}
use messasy.CString.{has_byte}
use messasy.Config.{Config}
use messasy.Strlist.{Ptr, Store, Handle, push_strlist}
use messasy.Strlist.Returns
use messasy.Strlist.Returns.{Returns, returns}
use messasy.Strlist.Chain.{
  Cells, has, IsStrlist, Frame, Disjoint, strings, strings-append, Chain-lt, has-append, frame,
}
use messasy.Strlist.Push.{push_strlist-Pushed}
use messasy.Filter.{Lists, lists, judge_address, judge_mail}
use messasy.Filter.Judge.{
  is_mine, in_entries, is_direct, is_pending, check_domain-is_mine, check_mailaddress-in_entries,
}

pub record IsPair (s : Store) (l : Lists) (xs ys : Cells) : Type 0 where
  pub save : IsStrlist s l.save xs
  pub ldap : IsStrlist s l.ldap ys
  pub apart : Disjoint xs ys
  pub pos : 0 < s.brk

-- A list that shares no node with the one that is pushed to is left alone, and stays apart.
framed :
    (s t : Store) (l : Handle) (xs ys : Cells)
    → IsStrlist s l ys
    → Disjoint xs ys
    → Frame xs s t
    → IsStrlist t l ys
framed s t l xs ys is apart f = record {
  chain =
      frame s t 0 ys is.chain (λ a h. f.same a (Chain-lt s 0 ys is.chain a h) (not_both a h))
        f.grows;
  head = is.head;
  tail = is.tail;
}
  where
    not_both : (a : ℕ) → has a ys ≡ true → has a xs ≡ false
    not_both a h = elim (Bool-cases (has a xs)) [ inl k ↦ cc (apart a k) | inr k ↦ k ]

lt_false : (a b : ℕ) → a < b → (b == a) ≡ false
lt_false a b h = ground arith

apart_concat :
    (s : Store) (l : Handle) (xs ys : Cells) (v : Bytes)
    → IsStrlist s l ys
    → Disjoint xs ys
    → Disjoint (xs ++ ((s.brk, v) ∷ [])) ys
apart_concat s l xs ys v is apart a h = elim (Bool-cases (has a ys)) [
  | inr k ↦ k
  | inl k ↦
      let below : (s.brk == a) ≡ false = lt_false a s.brk (Chain-lt s 0 ys is.chain a k) in
      ground (arith, has-append a xs ((s.brk, v) ∷ []), apart a)
]

Disjoint-sym : (xs ys : Cells) → Disjoint xs ys → Disjoint ys xs
Disjoint-sym xs ys apart a h = elim (Bool-cases (has a xs)) [ inl k ↦ cc (apart a k) | inr k ↦ k ]

-- The nodes of the two lists are all that has been allocated since `b`, and what was there is as it
-- was.
pub record Owned (b t : Store) (xs ys : Cells) : Type 0 where
  pub old : (a : Ptr) → a < b.brk → t.cells a ≡ b.cells a
  pub new : (a : Ptr) → b.brk ≤ a → a < t.brk → (has a xs || has a ys) ≡ true
  pub above : (a : Ptr) → (has a xs || has a ys) ≡ true → b.brk ≤ a
  pub grows : b.brk ≤ t.brk

Owned-sym : {b t : Store} (xs ys : Cells) → Owned b t xs ys → Owned b t ys xs
Owned-sym {b} {t} xs ys o = record {
  old = o.old;
  new = λ a h k. ground (arith, o.new a h k);
  above = λ a h. o.above a (ground arith);
  grows = o.grows;
}

-- One more node in the first list.
push-Owned :
    (b s t : Store) (xs ys : Cells) (v : Bytes)
    → Frame xs s t
    → t.brk ≡ s.brk + 1
    → Owned b s xs ys
    → Owned b t (xs ++ ((s.brk, v) ∷ [])) ys
push-Owned b s t xs ys v f e o = record {
  old = λ a h.
      let out : has a xs ≡ false = not_owned a h in
      f.same a (omega (arith, o.grows)) out ∙ o.old a h;
  new = λ a h k. elim (Bool-cases (s.brk == a)) [
    | inl q ↦ ground (arith, has-append a xs ((s.brk, v) ∷ []), q)
    | inr q ↦ ground (arith, has-append a xs ((s.brk, v) ∷ []), o.new a h (ground (arith, q)))
  ];
  above = λ a h. elim (Bool-cases (s.brk == a)) [
    | inl q ↦ ground (arith, o.grows, q)
    | inr q ↦ o.above a (ground (arith, has-append a xs ((s.brk, v) ∷ []), q))
  ];
  grows = omega (arith, o.grows);
}
  where
    not_owned : (a : ℕ) → a < b.brk → has a xs ≡ false
    not_owned a h = elim (Bool-cases (has a xs)) [
      | inl q ↦ absurd (ground (arith, o.above a (ground (arith, q))))
      | inr q ↦ q
    ]

-- The strings of the two lists after a step from `s`, which had the nodes of `os` and of `ps`.
pub record Grown (s : Store) (os ps : Cells) (sv ld : List Bytes) (l : Lists) (t : Store)
    : Type 0 where
  pub xs : Cells
  pub ys : Cells
  pub pair : IsPair t l xs ys
  pub save_strings : strings xs ≡ sv
  pub ldap_strings : strings ys ≡ ld
  pub owned : (b : Store) → Owned b s os ps → Owned b t xs ys

module _ (s : Store) (l : Lists) (xs ys : Cells) (v : Bytes) (p : IsPair s l xs ys) where
  push_save :
      Returns
        (λ h t. Grown s xs ys (strings xs ++ (v ∷ [])) (strings ys) (lists h l.ldap) t)
        (push_strlist l.save v s)
  push_save = Returns.weaken (push_strlist-Pushed s l.save xs v p.pos p.save) (λ h t (is, f, e).
      record {
        xs = xs ++ ((s.brk, v) ∷ []);
        ys = ys;
        pair = record {
          save = is;
          ldap = framed s t l.ldap xs ys p.ldap p.apart f;
          apart = apart_concat s l.ldap xs ys v p.ldap p.apart;
          pos = omega (arith, p.pos);
        };
        save_strings = strings-append xs ((s.brk, v) ∷ []);
        ldap_strings = refl;
        owned = λ b o. push-Owned b s t xs ys v f e o;
      })

  push_ldap :
      Returns
        (λ h t. Grown s xs ys (strings xs) (strings ys ++ (v ∷ [])) (lists l.save h) t)
        (push_strlist l.ldap v s)
  push_ldap = Returns.weaken (push_strlist-Pushed s l.ldap ys v p.pos p.ldap) (λ h t (is, f, e).
      record {
        xs = xs;
        ys = ys ++ ((s.brk, v) ∷ []);
        pair = record {
          save = framed s t l.save ys xs p.save (Disjoint-sym xs ys p.apart) f;
          ldap = is;
          apart =
              Disjoint-sym _ xs (apart_concat s l.save ys xs v p.save (Disjoint-sym xs ys p.apart));
          pos = omega (arith, p.pos);
        };
        save_strings = refl;
        ldap_strings = strings-append ys ((s.brk, v) ∷ []);
        owned = λ b o. Owned-sym _ xs (push-Owned b s t ys xs v f e (Owned-sym xs ys o));
      })

-- The strings that pass a test, in order.
abbrev pub when : Bool → Bytes → List Bytes
when true v = v ∷ []
when false v = []

abbrev pub Judged : Store → Cells → Cells → Config → Bytes → Ret × Lists → Store → Type 0
Judged s xs ys cfg v (ret, l) t =
    (ret ≡ r_success)
    × Grown s xs ys (strings xs ++ when (is_direct cfg v) v)
        (strings ys ++ when (is_pending cfg v) v) l t

verdict :
    (s : Store) (xs ys : Cells) (cfg : Config) (v : Bytes) (d q : Bool) (l : Lists) (t : Store)
    → is_direct cfg v ≡ d
    → is_pending cfg v ≡ q
    → Grown s xs ys (strings xs ++ when d v) (strings ys ++ when q v) l t
    → Judged s xs ys cfg v (r_success, l) t
verdict s xs ys cfg v d q l t e f g = (refl, rw (e, f) g)

-- `judge_mail`, for an address with an `@` and two lists apart, succeeds and appends it to the
-- list to be saved if its domain is ours and `SaveMailAddress` names it, to the list for LDAP if
-- only its domain is ours and LDAP is asked, and else to none.
pub judge_mail-Judged :
    (s : Store) (l : Lists) (xs ys : Cells) (v : Bytes) (cfg : Config)
    → IsPair s l xs ys
    → has_byte b'@' v ≡ true
    → Returns (Judged s xs ys cfg v) (judge_mail v l cfg s)
unfolding judge_mail judge_address is_direct is_pending
judge_mail-Judged s l xs ys v cfg p at =
    let same : Grown s xs ys (strings xs ++ []) (strings ys ++ []) l s = record {
      xs = xs;
      ys = ys;
      pair = p;
      save_strings = rw append-nil;
      ldap_strings = rw append-nil;
      owned = λ b o. o;
    } in
    rw (check_domain-is_mine s v cfg at) (elim (Bool-cases (is_mine cfg v)) [
      | inr out ↦ rw out (returns (verdict s xs ys cfg v false false l s (rw out) (rw out) same))
      | inl mine ↦
          rw (mine, check_mailaddress-in_entries s v cfg at)
            (elim (Bool-cases (in_entries v cfg.savemailaddress_list)) [
              | inl hit ↦ rw hit (
                  Returns.bind (push_save s l xs ys v p) λ h t g. returns (
                    verdict s xs ys cfg v true false (lists h l.ldap) t (rw (mine, hit))
                      (rw (mine, hit)) (rw append-nil g)))
              | inr miss ↦ rw miss (elim (Bool-cases (cfg.ldapcheck == 1)) [
                | inl ask ↦ rw ask (
                    Returns.bind (push_ldap s l xs ys v p) λ h t g. returns (
                      verdict s xs ys cfg v false true (lists l.save h) t (rw (mine, miss))
                        (rw (mine, miss, ask)) (rw append-nil g)))
                | inr done ↦ rw done (
                    returns (
                      verdict s xs ys cfg v false false l s (rw (mine, miss))
                        (rw (mine, miss, done)) same))
              ])
            ])
    ])
