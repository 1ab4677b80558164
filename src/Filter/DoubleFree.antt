-- ===== src/Filter/DoubleFree.antt =====
-- What becomes of the lists when a search fails after the first: `check_ldap` has by then freed
-- nodes of `ldaplist`, or moved them to `savelist`, and `make_savelist` frees both lists.
use messasy.Base.{
  ℕ, zero, suc, ◌+◌, ◌<◌, ◌≡◌, refl, ◌∙◌, true, false, none, some, List, [], ◌∷◌, ◌++◌, Bytes, Ret,
  r_error, arith, Bool-cases, inl, inr, append_assoc, filter,
}
use messasy.Config.{Config}
use messasy.Strlist.{Ptr, Store, fault, Handle, node, write}
use messasy.Strlist.Returns
use messasy.Strlist.Returns.{Returns, returns, pos_ne, load-ok, release-ok, bind_any}
use messasy.Strlist.Bounded.{length-Chain}
use messasy.Strlist.Chain.{
  Cells, head_or, has, IsStrlist, Disjoint, strings, frame, Chain-split, Chain-lt, update_eq,
}
use messasy.Strlist.Free.{free_strlist-Without, free_strlist-dangling}
use messasy.Filter.{Ldap, Lists, lists, give_up, finish, make_savelist, ldap_loop}
use messasy.Filter.Judge.{is_pending}
use messasy.Filter.Pair.{IsPair}
use messasy.Filter.Lookup.{
  has_filter, search_ldap-found, found-has_filter, found, outcome, Looped, not_left, Disjoint-tail,
  Disjoint-move, other_side, kept_free, ldap_loop-Looped,
}
use messasy.Strlist.Push.{attach_strlist-Appended}
use messasy.Filter.Savelist.{candidates, make_savelist-Ready}
use messasy.Filter.Saved.{reachable, check_ldap-reachable}

head_or-append :
    (stop : Ptr) (xs : Cells) (a : Ptr) (v : Bytes) (more : Cells)
    → head_or stop (xs ++ ((a, v) ∷ more)) ≡ head_or a xs
head_or-append stop [] a v more = refl
head_or-append stop (x ∷ xs) a v more = refl

other_way : (a : Ptr) (xs ys : Cells) → Disjoint xs ys → has a ys ≡ true → has a xs ≡ false
other_way a xs ys apart h = elim (Bool-cases (has a xs)) [ inl k ↦ cc (apart a k) | inr k ↦ k ]

-- The list to be freed second leads to a node of the list freed first.
give_up-fault :
    (s : Store) (l : Lists) (a : Ptr) (v : Bytes) (xs more : Cells)
    → l.ldap.head ≡ a
    → IsStrlist s l.save (xs ++ ((a, v) ∷ more))
    → give_up l s ≡ fault
unfolding give_up
give_up-fault s l a v xs more e is =
    let (front, back, apart) = Chain-split s 0 xs ((a, v) ∷ more) is.chain in
    let own : (has a ((a, v) ∷ more) ≡ true) = ground arith in
    let out : (has a xs ≡ false) = other_way a xs ((a, v) ∷ more) apart own in
    rw (e, is.head, head_or-append 0 xs a v more)
      (bind_any (λ r. r ≡ fault) (free_strlist-Without s ((a, v) ∷ more) back)
        λ _ t (gone, eb). rw (
          free_strlist-dangling t a xs
            (frame s t a xs front (λ b h. gone b ∙ rw (apart b h)) (omega arith)) back.0
            (gone a ∙ rw own) out))

-- A node that `check_ldap` has freed heads the list to be freed first.
give_up_freed :
    (s : Store) (l : Lists) → 0 < l.ldap.head → s.cells l.ldap.head ≡ none → give_up l s ≡ fault
unfolding give_up
give_up_freed s l pos gone = rw (free_strlist-dangling s l.ldap.head [] tt pos gone refl)

module _ (ldap : Ldap) (cfg : Config) (l : Lists) (xs : Cells) (a : Ptr) (v : Bytes) (ys : Cells)
    (t : Store) (p : IsPair t l xs ((a, v) ∷ ys)) (up : reachable ldap cfg ≡ true)
    (one_filter : has_filter cfg ≡ true) where
  -- The first node is freed by the loop.
  finish_miss :
      found ldap cfg 0 v ≡ some zero
      → (outcome ldap cfg 1 (strings ys)).0 ≡ r_error
      → finish ldap l cfg t ≡ fault
  unfolding finish ldap_loop
  finish_miss f err =
      let (pos, below, e, out, rest) = p.ldap.chain in
      let left = not_left a v xs ys p.apart in
      let one : t.brk + 1 ≡ suc t.brk = omega arith in
      rw
        (
          p.ldap.head,
          pos_ne a pos,
          check_ldap-reachable ldap cfg t l.save a up,
          one,
          pos_ne a pos,
          load-ok t a pos e,
          search_ldap-found ldap cfg 0 v t one_filter,
          f,
          release-ok t a pos e,
        )
        (bind_any (λ r. r ≡ fault)
          (ldap_loop-Looped ldap cfg one_filter t.brk 1 (write t a none) l.save xs ys
            (record {
              chain = kept_free t a xs p.save.chain left;
              head = p.save.head;
              tail = p.save.tail;
            })
            (kept_free t a ys rest out) (Disjoint-tail (a, v) xs ys p.apart)
            (omega (arith, length-Chain t 0 ((a, v) ∷ ys) p.ldap.chain)))
          λ (ret, sv) u q. rw (q.ret ∙ err) (
            give_up_freed u (lists sv l.ldap) (rw p.ldap.head pos)
              (rw p.ldap.head (q.same a below left out ∙ update_eq t.cells a none))))

  kept :
      (u : Store) (r : Ret × Handle) (w : Store)
      → (outcome ldap cfg 1 (strings ys)).0 ≡ r_error
      → Looped u (xs ++ ((a, v) ∷ [])) ys (outcome ldap cfg 1 (strings ys)) r w
      → (r.0 ≡ r_error) × (more : Cells) × IsStrlist w r.1 (xs ++ ((a, v) ∷ more))
  kept u r w err q = (q.ret ∙ err, q.more, rw append_assoc at q.is)

  -- The first node is moved to the list that is saved.
  finish_hit :
      (n : ℕ)
      → found ldap cfg 0 v ≡ some (suc n)
      → (outcome ldap cfg 1 (strings ys)).0 ≡ r_error
      → finish ldap l cfg t ≡ fault
  unfolding finish ldap_loop
  finish_hit n f err =
      let (pos, below, e, out, rest) = p.ldap.chain in
      let left = not_left a v xs ys p.apart in
      let one : t.brk + 1 ≡ suc t.brk = omega arith in
      rw
        (
          p.ldap.head,
          pos_ne a pos,
          check_ldap-reachable ldap cfg t l.save a up,
          one,
          pos_ne a pos,
          load-ok t a pos e,
          search_ldap-found ldap cfg 0 v t one_filter,
          f,
        )
        (bind_any (λ r. r ≡ fault)
          (Returns.bind
            (attach_strlist-Appended t l.save xs a (node v (head_or 0 ys)) p.save pos below e left)
            λ sv' u (is', g, eb).
              Returns.weaken
                (ldap_loop-Looped ldap cfg one_filter t.brk 1 u sv' (xs ++ ((a, v) ∷ [])) ys is'
                  (frame t u 0 ys rest
                    (λ b h.
                      g.same b (Chain-lt t 0 ys rest b h)
                        (other_side b _ ys (Disjoint-move a v xs ys p.apart out) h))
                    g.grows)
                  (Disjoint-move a v xs ys p.apart out)
                  (omega (arith, length-Chain t 0 ((a, v) ∷ ys) p.ldap.chain)))
                (λ r w q. kept u r w err q))
          λ (ret, sv) u (bad, more, is).
            rw bad (give_up-fault u (lists sv l.ldap) a v xs more p.ldap.head is))

fault_at :
    (ldap : Ldap) (cfg : Config) (v : Bytes) (rest : List Bytes) (c : ℕ)
    → found ldap cfg 0 v ≡ some c
    → (outcome ldap cfg 1 rest).0 ≡ r_error
    → reachable ldap cfg ≡ true
    → (l : Lists) (xs ys : Cells) (t : Store) → IsPair t l xs ys
    → strings ys ≡ v ∷ rest
    → finish ldap l cfg t ≡ fault
fault_at ldap cfg v rest c f err up l xs [] t p e = cc
fault_at ldap cfg v rest zero f err up l xs ((a, w) ∷ ys) t p e =
    let (same, tail) : (w ≡ v) × (strings ys ≡ rest) = ground arith in
    finish_miss ldap cfg l xs a w ys t p up (found-has_filter ldap cfg 0 v _ f) (rw same f)
      (rw tail err)
fault_at ldap cfg v rest (suc n) f err up l xs ((a, w) ∷ ys) t p e =
    let (same, tail) : (w ≡ v) × (strings ys ≡ rest) = ground arith in
    finish_hit ldap cfg l xs a w ys t p up (found-has_filter ldap cfg 0 v _ f) n (rw same f)
      (rw tail err)

-- When LDAP is reached, the first of several searches is answered and a later one fails,
-- `make_savelist` runs into undefined behaviour: it frees a list that leads to a node freed
-- before.
pub make_savelist-fault :
    (ldap : Ldap) (from : Bytes) (rcpts : List Bytes) (sv : Handle) (cfg : Config) (s : Store)
    (v : Bytes) (rest : List Bytes) (c : ℕ)
    → 0 < s.brk
    → IsStrlist s sv []
    → filter (is_pending cfg) (candidates cfg from rcpts) ≡ v ∷ rest
    → reachable ldap cfg ≡ true
    → found ldap cfg 0 v ≡ some c
    → (outcome ldap cfg 1 rest).0 ≡ r_error
    → make_savelist ldap from rcpts sv cfg s ≡ fault
make_savelist-fault ldap from rcpts sv cfg s v rest c pos is pending up f err =
    make_savelist-Ready ldap cfg (λ r. r ≡ fault) from rcpts sv s pos is
      λ l xs ys t p o e g. fault_at ldap cfg v rest c f err up l xs ys t p (g ∙ pending)
