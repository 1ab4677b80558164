-- ===== src/Filter/Savelist.antt =====
-- What `make_savelist` leaves in the list of addresses to be saved.
use messasy.Base.{
  ◌<◌, ◌≡◌, refl, ◌∙◌, Bool, List, [], ◌∷◌, ◌++◌, if◌then◌else◌, Bytes, Ret, r_success, arith,
  Bool-cases, inl, inr, append-nil, append_assoc, filter, map,
}
use messasy.Config.{Config, from_bit, to_bit}
use messasy.Strlist.{null, Store, Run, Handle, handle, ◌>>=◌}
use messasy.Strlist.Returns.{bind_any}
use messasy.Strlist.Chain.{Cells, IsStrlist, strings}
use messasy.Filter.{
  Ldap, Lists, lists, judge_mail, complement_address, give_up, finish, judge_rcpts, judge_to,
  make_savelist,
}
use messasy.Filter.Judge.{is_direct, is_pending, complement_address-has_at}
use messasy.Filter.Pair.{IsPair, Owned, when, judge_mail-Judged}

-- The addresses that the policy names, each with a domain.
unfoldable pub candidates : Config → Bytes → List Bytes → List Bytes
candidates cfg from rcpts =
    (if from_bit cfg.savepolicy_conv then complement_address from cfg ∷ [] else [])
    ++ (if to_bit cfg.savepolicy_conv then map (λ r. complement_address r cfg) rcpts else [])

filter-append :
    (p : Bytes → Bool) (xs ys : List Bytes) → filter p (xs ++ ys) ≡ filter p xs ++ filter p ys
filter-append p [] ys = refl
filter-append p (x ∷ xs) ys = ground (arith, filter-append p xs ys)

filter-when : (p : Bytes → Bool) (x : Bytes) → filter p (x ∷ []) ≡ when (p x) x
filter-when p x = ground arith

regroup :
    (p : Bytes → Bool) (c : Bytes) (vs old new : List Bytes)
    → new ≡ old ++ when (p c) c
    → new ++ filter p vs ≡ old ++ filter p (c ∷ vs)
regroup p c vs old new e = elim (Bool-cases (p c)) [
  | inl h ↦ rw (e, h, append_assoc)
  | inr h ↦ rw (e, h, append_assoc)
]

-- What `finish` is called with, once the addresses `vs` have been judged.
abbrev Ready :
    Store → Ldap → Config → List Bytes → List Bytes → (Run (Ret × Handle) → Type 0) → Type 0
Ready b ldap cfg sv ld P =
    (l : Lists) (xs ys : Cells) (t : Store)
    → IsPair t l xs ys
    → Owned b t xs ys
    → strings xs ≡ sv
    → strings ys ≡ ld
    → P (finish ldap l cfg t)

module _ (b : Store) (ldap : Ldap) (cfg : Config) (P : Run (Ret × Handle) → Type 0) where
  abbrev Then : List Bytes → Cells → Cells → Type 0
  Then vs xs ys =
      Ready b ldap cfg (strings xs ++ filter (is_direct cfg) vs)
        (strings ys ++ filter (is_pending cfg) vs) P

  -- One address judged, and what follows.
  judge_one :
      (s : Store) (l : Lists) (xs ys : Cells) (v : Bytes) (vs : List Bytes)
      (k : Lists → Store → Run (Ret × Handle))
      → IsPair s l xs ys
      → Owned b s xs ys
      → Then (complement_address v cfg ∷ vs) xs ys
      → ((l' : Lists) (xs' ys' : Cells) (t : Store)
          → IsPair t l' xs' ys'
          → Owned b t xs' ys'
          → Then vs xs' ys'
          → P (k l' t))
      → P (
          (judge_mail (complement_address v cfg) l cfg >>= λ (ret, l'). elim ret [
            | r_success ↦ k l'
            | _ ↦ give_up l'
          ])
            s)
  judge_one s l xs ys v vs k p own ready next =
      let c = complement_address v cfg in
      bind_any P (judge_mail-Judged s l xs ys c cfg p (complement_address-has_at v cfg))
        (λ (ret, l') t (e, g). rw e (
          next l' g.xs g.ys t g.pair (g.owned b own) (λ l'' xs'' ys'' t'' p'' own'' e1 e2.
            ready l'' xs'' ys'' t'' p'' own''
              (e1 ∙ regroup (is_direct cfg) c vs (strings xs) (strings g.xs) g.save_strings)
              (e2 ∙ regroup (is_pending cfg) c vs (strings ys) (strings g.ys) g.ldap_strings))))

  judge_rcpts-Ready :
      (rs : List Bytes) (s : Store) (l : Lists) (xs ys : Cells)
      → IsPair s l xs ys
      → Owned b s xs ys
      → Then (map (λ r. complement_address r cfg) rs) xs ys
      → P (judge_rcpts ldap rs l cfg s)
  unfolding judge_rcpts
  judge_rcpts-Ready [] s l xs ys p own ready = ready l xs ys s p own (rw append-nil) (rw append-nil)
  judge_rcpts-Ready (r ∷ rs) s l xs ys p own ready =
      judge_one s l xs ys r _ (λ l' t. judge_rcpts ldap rs l' cfg t) p own ready
        (λ l' xs' ys' t p' own' ready'. judge_rcpts-Ready rs t l' xs' ys' p' own' ready')

  abbrev recipients : List Bytes → List Bytes
  recipients rcpts =
      if to_bit cfg.savepolicy_conv then map (λ r. complement_address r cfg) rcpts else []

  judge_to-Ready :
      (rcpts : List Bytes) (s : Store) (l : Lists) (xs ys : Cells)
      → IsPair s l xs ys
      → Owned b s xs ys
      → Then (recipients rcpts) xs ys
      → P (judge_to ldap rcpts l cfg s)
  unfolding judge_to
  judge_to-Ready rcpts s l xs ys p own ready = elim (Bool-cases (to_bit cfg.savepolicy_conv)) [
    | inl g ↦ rw g (judge_rcpts-Ready rcpts s l xs ys p own (rw g at ready))
    | inr g ↦
        let none_left : Then [] xs ys = rw g at ready in
        rw g (none_left l xs ys s p own (rw append-nil) (rw append-nil))
  ]

-- `make_savelist` from an empty list comes to `finish` with the candidates sorted out.
pub make_savelist-Ready :
    (ldap : Ldap) (cfg : Config) (P : Run (Ret × Handle) → Type 0) (from : Bytes)
    (rcpts : List Bytes) (sv : Handle) (s : Store)
    → 0 < s.brk
    → IsStrlist s sv []
    → Ready s ldap cfg
        (filter (is_direct cfg) (candidates cfg from rcpts))
        (filter (is_pending cfg) (candidates cfg from rcpts))
        P
    → P (make_savelist ldap from rcpts sv cfg s)
unfolding make_savelist candidates
make_savelist-Ready ldap cfg P from rcpts sv s pos is ready =
    let l = lists sv (handle null null) in
    let p : IsPair s l [] [] = record {
      save = is;
      ldap = record { chain = tt; head = refl; tail = tt };
      apart = λ a h. cc;
      pos = pos;
    } in
    let own : Owned s s [] [] = record {
      old = λ a h. refl;
      new = λ a h k. absurd (omega arith);
      above = λ a h. cc;
      grows = omega arith;
    } in
    elim (Bool-cases (from_bit cfg.savepolicy_conv)) [
      | inl f ↦ rw f (
          judge_one s ldap cfg P s l [] [] from (recipients s ldap cfg P rcpts)
            (λ l' t. judge_to ldap rcpts l' cfg t) p own (rw f at ready)
            (λ l' xs' ys' t p' own' ready'.
              judge_to-Ready s ldap cfg P rcpts t l' xs' ys' p' own' ready'))
      | inr f ↦ rw f (judge_to-Ready s ldap cfg P rcpts s l [] [] p own (rw f at ready))
    ]
