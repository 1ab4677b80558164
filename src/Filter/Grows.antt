-- ===== src/Filter/Grows.antt =====
-- `make_savelist` takes back no address that was given out.
use messasy.Base.{
  Option-cases, ℕ, zero, suc, ◌+◌, Bool, true, false, Option, some, none, List, [], ◌∷◌, ◌==◌,
  Bytes, arith, Ret, r_success, r_positive, r_error, Option-cases, Bool-cases, inl, inr, ltb,
  if◌then◌else◌,
}
use messasy.CString.{strchr, strlen, suffix, str_case_eq}
use messasy.Config.{Config, from_bit, to_bit}
use messasy.Strlist.{
  Ptr, null, Store, Cmd, ◌>>=◌, ◌>>◌, pure, Handle, handle, load, release, attach_strlist,
  push_strlist, free_strlist,
}
use messasy.Strlist.Grows.{
  Grows, Grows-bind, load-Grows, release-Grows, push_strlist-Grows, attach_strlist-Grows,
  free_strlist-Grows,
}
use messasy.Filter.{
  Ldap, Lists, lists, search_ldap, check_domains, check_domain, case_eq_at, check_entry,
  check_entries, check_mailaddress, judge_address, judge_mail, complement_address, give_up,
  ldap_loop, check_ldap, finish, judge_rcpts, judge_to, make_savelist,
}

if-Grows :
    {A : Type 0} (s : Store) (b : Bool) (x y : Cmd A)
    → Grows s (x s)
    → Grows s (y s)
    → Grows s ((if b then x else y) s)
if-Grows s true x y g h = g
if-Grows s false x y g h = h

check_domains-Grows :
    (ptr : Option Bytes) (ds : List Bytes) (s : Store) → Grows s (check_domains ptr ds s)
unfolding check_domains
check_domains-Grows ptr [] s = omega arith
check_domains-Grows none (d ∷ ds) s = tt
check_domains-Grows (some p) (d ∷ ds) s =
    if-Grows s (str_case_eq d (suffix 1 p)) (pure true) (check_domains (some p) ds) (omega arith)
      (check_domains-Grows (some p) ds s)

case_eq_at-Grows : (v : Bytes) (ptr : Option Bytes) (s : Store) → Grows s (case_eq_at v ptr s)
unfolding case_eq_at
case_eq_at-Grows v none s = tt
case_eq_at-Grows v (some p) s = omega arith

check_entry-Grows : (e address : Bytes) (s : Store) → Grows s (check_entry e address s)
unfolding check_entry
check_entry-Grows [] address s = omega arith
check_entry-Grows (c ∷ cs) address s = elim (Option-cases (strchr (c ∷ cs) b'@')) [
  | inl e ↦
      rw (check_entry, e)
        (if-Grows s (ltb (strlen address) (strlen (c ∷ cs))) (pure false) _ (omega arith)
          (omega arith))
  | inr (p, e) ↦
      rw (check_entry, e)
        (if-Grows s (c == b'@') _ _ (case_eq_at-Grows (c ∷ cs) (strchr address b'@') s)
          (omega arith))
]

check_entries-Grows :
    (address : Bytes) (es : List Bytes) (s : Store) → Grows s (check_entries address es s)
unfolding check_entries
check_entries-Grows address [] s = omega arith
check_entries-Grows address (e ∷ es) s =
    Grows-bind s (check_entry e address s) _ (check_entry-Grows e address s) λ hit t.
      if-Grows t hit (pure true) (check_entries address es) (omega arith)
        (check_entries-Grows address es t)

judge_address-Grows :
    (v : Bytes) (l : Lists) (cfg : Config) (s : Store) → Grows s (judge_address v l cfg s)
unfolding judge_address check_mailaddress
judge_address-Grows v l cfg s =
    Grows-bind s (check_mailaddress v cfg s) _ (check_entries-Grows v cfg.savemailaddress_list s)
      λ hit t.
        if-Grows t hit _ _
          (Grows-bind t (push_strlist l.save v t) _ (push_strlist-Grows l.save v t)
            λ h u. omega arith)
          (if-Grows t (cfg.ldapcheck == 1) _ _
            (Grows-bind t (push_strlist l.ldap v t) _ (push_strlist-Grows l.ldap v t)
              λ h u. omega arith)
            (omega arith))

judge_mail-Grows :
    (v : Bytes) (l : Lists) (cfg : Config) (s : Store) → Grows s (judge_mail v l cfg s)
unfolding judge_mail check_domain
judge_mail-Grows v l cfg s =
    Grows-bind s (check_domain v cfg s) _ (check_domains-Grows (strchr v b'@') cfg.mydomain_list s)
      λ d t. if-Grows t d _ _ (judge_address-Grows v l cfg t) (omega arith)

give_up-Grows : (l : Lists) (s : Store) → Grows s (give_up l s)
unfolding give_up
give_up-Grows l s =
    Grows-bind s (free_strlist l.ldap.head s) _ (free_strlist-Grows l.ldap.head s) λ _ t.
      Grows-bind t (free_strlist l.save.head t) _ (free_strlist-Grows l.save.head t)
        λ _ u. omega arith

module _ (ldap : Ldap) where
  search_ldap-Grows :
      (k : ℕ) (cfg : Config) (v : Bytes) (s : Store) → Grows s (search_ldap ldap k cfg v s)
  unfolding search_ldap
  search_ldap-Grows k cfg v s = elim (Option-cases cfg.ldapmailfilter) [
    | inl e ↦ rw (e, search_ldap) tt
    | inr (format, e) ↦ rw (e, search_ldap) (omega arith)
  ]

  ldap_loop-Grows :
      (fuel k : ℕ) (p : Ptr) (sv : Handle) (cfg : Config) (s : Store)
      → Grows s (ldap_loop ldap fuel k p sv cfg s)
  unfolding ldap_loop
  ldap_loop-Grows zero k p sv cfg s = tt
  ldap_loop-Grows (suc fuel) k p sv cfg s = elim (Bool-cases (p == null)) [
    | inl e ↦ rw e (omega arith)
    | inr e ↦ rw e (
        Grows-bind s (load p s) _ (load-Grows p s) λ n t.
          Grows-bind t (search_ldap ldap k cfg n.str t) _ (search_ldap-Grows k cfg n.str t)
            λ count u.
              at_result n.next count u (λ h w. ldap_loop-Grows fuel (k + 1) n.next h cfg w))
  ]
    where
      at_result :
          (next : Ptr) (found : Option ℕ) (t : Store)
          → ((h : Handle) (u : Store) → Grows u (ldap_loop ldap fuel (k + 1) next h cfg u))
          → Grows t (
              (elim found as (λ x. Cmd (Ret × Handle)) [
                | none ↦ pure (r_error, sv)
                | some zero ↦ release p >> ldap_loop ldap fuel (k + 1) next sv cfg
                | some (suc _) ↦
                    attach_strlist sv p >>= λ sv'. ldap_loop ldap fuel (k + 1) next sv' cfg
              ])
                t)
      at_result next none t rest = omega arith
      at_result next (some zero) t rest =
          Grows-bind t (release p t) _ (release-Grows p t) λ _ u. rest sv u
      at_result next (some (suc n)) t rest =
          Grows-bind t (attach_strlist sv p t) _ (attach_strlist-Grows sv p t) λ h u. rest h u

  check_ldap-Grows :
      (p : Ptr) (sv : Handle) (cfg : Config) (s : Store) → Grows s (check_ldap ldap p sv cfg s)
  unfolding check_ldap
  check_ldap-Grows p sv cfg s =
      if-Grows s (ldap.opens cfg.ldapserver cfg.ldapport) _ _
        (if-Grows s (ldap.sets_timeout cfg.ldaptimeout) _ _
          (if-Grows s (ldap.binds cfg.ldapbinddn cfg.ldapbindpassword) _ _
            (ldap_loop-Grows (s.brk + 1) 0 p sv cfg s) (omega arith))
          (omega arith))
        (omega arith)

  finish-Grows : (l : Lists) (cfg : Config) (s : Store) → Grows s (finish ldap l cfg s)
  unfolding finish
  finish-Grows l cfg s = if-Grows s (l.ldap.head == null) _ _ (omega arith) (
      Grows-bind s (check_ldap ldap l.ldap.head l.save cfg s) _
        (check_ldap-Grows l.ldap.head l.save cfg s) at_ret)
    where
      at_ret :
          (r : Ret × Handle) (t : Store)
          → Grows t (
              (elim r.0 as (λ x. Cmd (Ret × Handle)) [
                | r_success ↦ pure (r_success, r.1)
                | _ ↦ give_up (record l { save = r.1 })
              ])
                t)
      at_ret (r_success, sv) t = omega arith
      at_ret (r_positive, sv) t = give_up-Grows (record l { save = sv }) t
      at_ret (r_error, sv) t = give_up-Grows (record l { save = sv }) t

  judged :
      (k : Lists → Cmd (Ret × Handle))
      → ((l : Lists) (t : Store) → Grows t (k l t))
      → (r : Ret × Lists) (t : Store)
      → Grows t ((elim r.0 as (λ x. Cmd (Ret × Handle)) [ r_success ↦ k r.1 | _ ↦ give_up r.1 ]) t)
  judged k rest (r_success, l) t = rest l t
  judged k rest (r_positive, l) t = give_up-Grows l t
  judged k rest (r_error, l) t = give_up-Grows l t

  judge_rcpts-Grows :
      (rs : List Bytes) (l : Lists) (cfg : Config) (s : Store)
      → Grows s (judge_rcpts ldap rs l cfg s)
  unfolding judge_rcpts
  judge_rcpts-Grows [] l cfg s = finish-Grows l cfg s
  judge_rcpts-Grows (r ∷ rs) l cfg s =
      Grows-bind s (judge_mail (complement_address r cfg) l cfg s) _
        (judge_mail-Grows (complement_address r cfg) l cfg s)
        (judged (λ l'. judge_rcpts ldap rs l' cfg) (λ l' t. judge_rcpts-Grows rs l' cfg t))

  judge_to-Grows :
      (rs : List Bytes) (l : Lists) (cfg : Config) (s : Store) → Grows s (judge_to ldap rs l cfg s)
  unfolding judge_to
  judge_to-Grows rs l cfg s =
      if-Grows s (to_bit cfg.savepolicy_conv) _ _ (judge_rcpts-Grows rs l cfg s)
        (finish-Grows l cfg s)

  pub make_savelist-Grows :
      (from : Bytes) (rs : List Bytes) (sv : Handle) (cfg : Config) (s : Store)
      → Grows s (make_savelist ldap from rs sv cfg s)
  unfolding make_savelist
  make_savelist-Grows from rs sv cfg s =
      let l = lists sv (handle null null) in
      if-Grows s (from_bit cfg.savepolicy_conv) _ _
        (Grows-bind s (judge_mail (complement_address from cfg) l cfg s) _
          (judge_mail-Grows (complement_address from cfg) l cfg s)
          (judged (λ l'. judge_to ldap rs l' cfg) (λ l' t. judge_to-Grows rs l' cfg t)))
        (judge_to-Grows rs l cfg s)
