-- ===== src/Filter/Saved.antt =====
-- The results of `make_savelist`: what is saved, and what becomes of it when LDAP does not answer.
use messasy.Base.{
  ◌+◌, ◌<◌, ◌≤◌, ◌||◌, none, Bool-cases, ◌≡◌, ◌≢◌, refl, sym, ◌∙◌, Bool, true, false, ◌&&◌, ◌⊎◌,
  List, [], ◌∷◌, ◌++◌, Bytes, Ret, r_success, r_error, arith, inl, inr, append-nil, ap, filter,
}
use messasy.Config.{Config}
use messasy.Strlist.{Ptr, null, Store, ok, Handle, handle}
use messasy.Strlist.Returns
use messasy.Strlist.Returns.{Returns, returns, pos_ne}
use messasy.Strlist.Bounded.{length-Chain}
use messasy.Strlist.Chain.{
  Cells, has, head_or, Chain, IsStrlist, Disjoint, strings, strings-append, frame,
}
use messasy.Strlist.Free.{Without, free_strlist-Without}
use messasy.Filter.{Ldap, Lists, check_ldap, ldap_loop, give_up, finish, make_savelist}
use messasy.Filter.Judge.{is_direct, is_pending}
use messasy.Filter.Pair.{IsPair, Owned}
use messasy.Filter.Lookup.{has_filter, outcome, Looped, ldap_loop-Looped}
use messasy.Filter.Savelist.{candidates, make_savelist-Ready}

-- The server is found, takes the timeout and lets the program bind.
unfoldable pub reachable : Ldap → Config → Bool
reachable ldap cfg =
    ldap.opens cfg.ldapserver cfg.ldapport
    && ldap.sets_timeout cfg.ldaptimeout
    && ldap.binds cfg.ldapbinddn cfg.ldapbindpassword

pub check_ldap-reachable :
    (ldap : Ldap) (cfg : Config) (s : Store) (sv : Handle) (p : Ptr)
    → reachable ldap cfg ≡ true
    → check_ldap ldap p sv cfg s ≡ ldap_loop ldap (s.brk + 1) 0 p sv cfg s
unfolding reachable check_ldap
check_ldap-reachable ldap cfg s sv p h = ground arith

check_ldap_unreachable :
    (ldap : Ldap) (cfg : Config) (s : Store) (sv : Handle) (p : Ptr)
    → reachable ldap cfg ≡ false
    → check_ldap ldap p sv cfg s ≡ ok (r_error, sv) s
unfolding reachable check_ldap
check_ldap_unreachable ldap cfg s sv p h = ground arith

-- No address waits for LDAP, or there is a filter and every search is answered.
abbrev pub Answers : Ldap → Config → List Bytes → Type 0
Answers ldap cfg ld =
    (ld ≡ [])
    ⊎ ((reachable ldap cfg ≡ true)
        × (has_filter cfg ≡ true)
        × ((outcome ldap cfg 0 ld).0 ≡ r_success))

abbrev pub Saved : List Bytes → Ret × Handle → Store → Type 0
Saved zs r t = (r.0 ≡ r_success) × (c : Cells) × IsStrlist t r.1 c × (strings c ≡ zs)

pub check_ldap-Looped :
    (ldap : Ldap) (cfg : Config) (s : Store) (sv : Handle) (xs ys : Cells)
    → reachable ldap cfg ≡ true
    → has_filter cfg ≡ true
    → IsStrlist s sv xs
    → Chain s 0 ys
    → Disjoint xs ys
    → Returns
        (Looped s xs ys (outcome ldap cfg 0 (strings ys)))
        (check_ldap ldap (head_or 0 ys) sv cfg s)
check_ldap-Looped ldap cfg s sv xs ys h one is c apart =
    rw (check_ldap-reachable ldap cfg s sv (head_or 0 ys) h)
      (ldap_loop-Looped ldap cfg one (s.brk + 1) 0 s sv xs ys is c apart (length-Chain s 0 ys c))

finish-Saved :
    (ldap : Ldap) (cfg : Config) (l : Lists) (xs ys : Cells) (t : Store)
    → IsPair t l xs ys
    → Answers ldap cfg (strings ys)
    → Returns (Saved (strings xs ++ (outcome ldap cfg 0 (strings ys)).1)) (finish ldap l cfg t)
unfolding finish outcome
finish-Saved ldap cfg l xs [] t p h = rw p.ldap.head (returns (refl, xs, p.save, rw append-nil))
finish-Saved ldap cfg l xs ((a, v) ∷ ys) t p (inl h) = cc
finish-Saved ldap cfg l xs ((a, v) ∷ ys) t p (inr (up, one, all)) =
    rw (p.ldap.head, pos_ne a p.ldap.chain.0)
      (Returns.bind
        (check_ldap-Looped ldap cfg t l.save xs ((a, v) ∷ ys) up one p.save p.ldap.chain p.apart)
        λ (ret, sv) u q. rw (q.ret ∙ all) (
          returns (
            refl,
            xs ++ q.more,
            q.is,
            strings-append xs q.more ∙ ap (◌++◌ (strings xs)) q.attached,
          )))

-- `make_savelist` from an empty list, with no address that waits for LDAP, or with
-- `LdapMailFilter` not NULL and an answer to every search, succeeds. Of the addresses of the
-- policy it leaves those whose domain is in `MyDomain` and that `SaveMailAddress` names, and
-- then, of those whose domain is in `MyDomain` only and for which LDAP is asked, the ones that
-- LDAP knows, both in their order.
pub make_savelist-Saved :
    (ldap : Ldap) (from : Bytes) (rcpts : List Bytes) (sv : Handle) (cfg : Config) (s : Store)
    → 0 < s.brk
    → IsStrlist s sv []
    → Answers ldap cfg (filter (is_pending cfg) (candidates cfg from rcpts))
    → Returns
        (Saved (
          filter (is_direct cfg) (candidates cfg from rcpts)
          ++ (outcome ldap cfg 0 (filter (is_pending cfg) (candidates cfg from rcpts))).1))
        (make_savelist ldap from rcpts sv cfg s)
make_savelist-Saved ldap from rcpts sv cfg s pos is h =
    make_savelist-Ready ldap cfg (Returns (Saved _)) from rcpts sv s pos is
      λ l xs ys t p o e f. rw (← e, ← f) (finish-Saved ldap cfg l xs ys t p (rw f h))

-- Every node that has been allocated since `s` is freed, and nothing else has changed.
abbrev pub Cleared : Store → Store → Type 0
Cleared s t =
    ((a : Ptr) → a < s.brk → t.cells a ≡ s.cells a)
    × ((a : Ptr) → s.brk ≤ a → a < t.brk → t.cells a ≡ none)

abbrev pub Failed : Store → Ret × Handle → Store → Type 0
Failed s r t = (r ≡ (r_error, handle null null)) × Cleared s t

-- Both lists freed one after the other.
freed_both :
    (b s t u : Store) (xs ys : Cells)
    → Owned b s xs ys
    → Without ys s t
    → Without xs t u
    → Cleared b u
freed_both b s t u xs ys o (gone, e) (gone', e') = (
  λ a h.
      let out : (has a xs || has a ys) ≡ false = unowned a h in
      let left : has a xs ≡ false = or_left (has a xs) (has a ys) out in
      let right : has a ys ≡ false = or_right (has a xs) (has a ys) out in
      gone' a ∙ rw (left, gone a, right) (o.old a h),
  λ a h k. elim (Bool-cases (has a xs)) [
    | inl q ↦ gone' a ∙ rw q refl
    | inr q ↦
        let r : has a ys ≡ true = ground (arith, o.new a h (omega (arith, e, e')), q) in
        gone' a ∙ rw (q, gone a, r) refl
  ],
)
  where
    unowned : (a : Ptr) → a < b.brk → (has a xs || has a ys) ≡ false
    unowned a h = elim (Bool-cases (has a xs || has a ys)) [
      | inl q ↦ absurd (ground (arith, o.above a q))
      | inr q ↦ q
    ]

    or_left : (p q : Bool) → (p || q) ≡ false → p ≡ false
    or_left false q h = refl
    or_left true q h = cc

    or_right : (p q : Bool) → (p || q) ≡ false → q ≡ false
    or_right false q h = h
    or_right true q h = cc

-- `give_up` on two lists that are apart frees both.
pub give_up-Failed :
    (b s : Store) (l : Lists) (xs ys : Cells)
    → IsPair s l xs ys
    → Owned b s xs ys
    → Returns (Failed b) (give_up l s)
unfolding give_up
give_up-Failed b s l xs ys p o =
    rw (p.ldap.head, p.save.head)
      (Returns.bind (free_strlist-Without s ys p.ldap.chain) λ _ t (gone, e).
        Returns.bind
          (free_strlist-Without t xs
            (frame s t 0 xs p.save.chain (λ a h. gone a ∙ rw (p.apart a h)) (omega arith)))
          λ _ u w. returns (refl, freed_both b s t u xs ys o (gone, e) w))

-- When an address waits for LDAP and the server cannot be reached, `make_savelist` from an empty
-- list fails: every node that it has allocated is freed, no other is changed, and the pointers of
-- the caller are NULL.
pub make_savelist-Failed :
    (ldap : Ldap) (from : Bytes) (rcpts : List Bytes) (sv : Handle) (cfg : Config) (s : Store)
    → 0 < s.brk
    → IsStrlist s sv []
    → filter (is_pending cfg) (candidates cfg from rcpts) ≢ []
    → reachable ldap cfg ≡ false
    → Returns (Failed s) (make_savelist ldap from rcpts sv cfg s)
unfolding finish
make_savelist-Failed ldap from rcpts sv cfg s pos is some_pending down =
    make_savelist-Ready ldap cfg (Returns (Failed s)) from rcpts sv s pos is
      λ l xs ys t p o e f. finish-Failed l xs ys t p o (λ h. some_pending (sym f ∙ ap strings h))
  where
    finish-Failed :
        (l : Lists) (xs ys : Cells) (t : Store)
        → IsPair t l xs ys
        → Owned s t xs ys
        → ys ≢ []
        → Returns (Failed s) (finish ldap l cfg t)
    finish-Failed l xs [] t p o ne = absurd (ne refl)
    finish-Failed l xs ((a, v) ∷ ys) t p o ne =
        rw (p.ldap.head, pos_ne a p.ldap.chain.0, check_ldap_unreachable ldap cfg t l.save a down)
          (give_up-Failed s t l xs ((a, v) ∷ ys) p o)
