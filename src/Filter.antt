-- ===== src/Filter.antt =====
-- filter.c: which mails are saved. The lists that are built and torn down (`savelist`, `ldaplist`)
-- live on the store of `Strlist`; those that are only read (`rcptlist`, and the lists of the
-- configuration) are lists of strings. Log lines are left out. `ss_str` of an address is not NULL.
pub mod Judge
pub mod Pair
pub mod Lookup
pub mod Savelist
pub mod Saved
pub mod DoubleFree
pub mod NoFilter
pub mod Grows
use messasy.Base.{
  ℕ, zero, suc, ◌+◌, ◌-◌, Bool, true, false, Option, none, some, List, [], ◌∷◌, ◌++◌, ltb, ◌==◌,
  if◌then◌else◌, Bytes, Ret, r_success, r_error,
}
use messasy.CString.{strchr, str_case_eq, strlen, suffix}
use messasy.Config.{Config, from_bit, to_bit, LdapScope}
use messasy.Format.{StrFormat, str_replace_format}
use messasy.Strlist.{
  Ptr, null, Run, fault, out_of_fuel, Cmd, pure, ◌>>=◌, ◌>>◌, load, release, Handle, handle,
  push_strlist, attach_strlist, free_strlist,
}

-- libldap: whether each call succeeds. `search k base scope filter` is the outcome of the `k`-th
-- search of a connection: none for an error, else the number of entries that were found.
pub record Ldap : Type 0 where
  pub opens : Bytes → ℕ → Bool
  pub sets_timeout : ℕ → Bool
  pub binds : Option Bytes → Option Bytes → Bool
  pub search : ℕ → Option Bytes → LdapScope → Bytes → Option ℕ

-- The comparison of `ptr + 1` with the domains; `ptr` is NULL where the address has no `@`.
check_domains : Option Bytes → List Bytes → Cmd Bool
check_domains ptr [] = pure false
check_domains none (d ∷ ds) = λ _. fault
check_domains (some p) (d ∷ ds) =
    let rest = check_domains (some p) ds in if str_case_eq d (suffix 1 p) then pure true else rest

unfoldable pub check_domain : Bytes → Config → Cmd Bool
unfolding check_domains
check_domain address cfg = check_domains (strchr address b'@') cfg.mydomain_list

-- `strcasecmp(list->ss_data.ss_str, ptr) == 0`
case_eq_at : Bytes → Option Bytes → Cmd Bool
case_eq_at s none = λ _. fault
case_eq_at s (some p) = pure (str_case_eq s p)

-- One round of the loop over `cf_savemailaddress_list`.
check_entry : Bytes → Bytes → Cmd Bool
unfolding case_eq_at
check_entry [] address = pure false
check_entry (c ∷ cs) address = elim (strchr (c ∷ cs) b'@') [
  | none ↦
      if ltb (strlen address) (strlen (c ∷ cs))
      then pure false
      else pure (str_case_eq (c ∷ cs) (suffix (strlen address - strlen (c ∷ cs)) address))
  | some _ ↦
      if c == b'@'
      then case_eq_at (c ∷ cs) (strchr address b'@')
      else pure (str_case_eq (c ∷ cs) address)
]

check_entries : Bytes → List Bytes → Cmd Bool
unfolding check_entry
check_entries address [] = pure false
check_entries address (e ∷ es) = do
  hit ← check_entry e address
  if hit then pure true else check_entries address es

unfoldable pub check_mailaddress : Bytes → Config → Cmd Bool
unfolding check_entries
check_mailaddress address cfg = check_entries address cfg.savemailaddress_list

-- The two lists that `make_savelist` builds.
pub record Lists : Type 0 where
  pub save : Handle
  pub ldap : Handle

abbrev pub lists : Handle → Handle → Lists
lists sv ld = record { save = sv; ldap = ld }

-- `judge_mail` behind the check of the domain.
judge_address : Bytes → Lists → Config → Cmd (Ret × Lists)
unfolding check_mailaddress
judge_address address l cfg = do
  hit ← check_mailaddress address cfg
  if hit
      then push_strlist l.save address >>= (λ sv. pure (r_success, lists sv l.ldap))
      else if cfg.ldapcheck == 1
      then push_strlist l.ldap address >>= (λ ld. pure (r_success, lists l.save ld))
      else pure (r_success, l)

unfoldable pub judge_mail : Bytes → Lists → Config → Cmd (Ret × Lists)
unfolding check_domain judge_address
judge_mail address l cfg = do
  domain ← check_domain address cfg
  if domain then judge_address address l cfg else pure (r_success, l)

unfoldable pub complement_address : Bytes → Config → Bytes
complement_address address cfg = elim (strchr address b'@') [
  | none ↦ address ++ (b'@' ∷ cfg.defaultdomain)
  | some _ ↦ address
]

-- The filter of one search: `%M` of `cf_ldapmailfilter` replaced by the address.
unfoldable pub mail_filter : Bytes → Bytes → Bytes
mail_filter format address =
    str_replace_format format (record { formatchar = b'M'; replacestr = address } ∷ [])

-- `free_strlist(ldaplist_h); free_strlist(*savelist_h); *savelist_h = *savelist_t = NULL;`
unfoldable pub give_up : Lists → Cmd (Ret × Handle)
give_up l = do free_strlist l.ldap.head; free_strlist l.save.head; pure (r_error, handle null null)

module _ (ldap : Ldap) where
  -- One search; `str_replace_format` reads through a `cf_ldapmailfilter` that is NULL.
  unfoldable pub search_ldap : ℕ → Config → Bytes → Cmd (Option ℕ)
  search_ldap k cfg address = elim cfg.ldapmailfilter [
    | none ↦ λ _. fault
    | some format ↦
        pure (ldap.search k cfg.ldapbasedn cfg.ldapscope_conv (mail_filter format address))
  ]

  -- The loop over the nodes of `ldaplist`: `k` counts the searches.
  pub ldap_loop : ℕ → ℕ → Ptr → Handle → Config → Cmd (Ret × Handle)
  ldap_loop zero k p sv cfg = λ _. out_of_fuel
  ldap_loop (suc fuel) k p sv cfg = if p == null then pure (r_success, sv) else do
    n ← load p
    count ← search_ldap k cfg n.str
    elim count [
      | none ↦ pure (r_error, sv)
      | some zero ↦ release p >> ldap_loop fuel (k + 1) n.next sv cfg
      | some (suc _) ↦ attach_strlist sv p >>= λ sv'. ldap_loop fuel (k + 1) n.next sv' cfg
    ]

  unfoldable pub check_ldap : Ptr → Handle → Config → Cmd (Ret × Handle)
  unfolding ldap_loop
  check_ldap ldaplist sv cfg =
      if ldap.opens cfg.ldapserver cfg.ldapport
      then if ldap.sets_timeout cfg.ldaptimeout
        then if ldap.binds cfg.ldapbinddn cfg.ldapbindpassword
          then (λ s. ldap_loop (s.brk + 1) 0 ldaplist sv cfg s)
          else pure (r_error, sv)
        else pure (r_error, sv)
      else pure (r_error, sv)

  -- What follows the two policies.
  unfoldable pub finish : Lists → Config → Cmd (Ret × Handle)
  unfolding check_ldap give_up
  finish l cfg = if l.ldap.head == null then pure (r_success, l.save) else do
    (ret, sv) ← check_ldap l.ldap.head l.save cfg
    elim ret [ r_success ↦ pure (r_success, sv) | _ ↦ give_up (record l { save = sv }) ]

  judge_rcpts : List Bytes → Lists → Config → Cmd (Ret × Handle)
  unfolding judge_mail complement_address finish
  judge_rcpts [] l cfg = finish l cfg
  judge_rcpts (r ∷ rs) l cfg = do
    (ret, l') ← judge_mail (complement_address r cfg) l cfg
    elim ret [ r_success ↦ judge_rcpts rs l' cfg | _ ↦ give_up l' ]

  -- The recipients, if the policy asks for them.
  judge_to : List Bytes → Lists → Config → Cmd (Ret × Handle)
  unfolding judge_rcpts
  judge_to rcpts l cfg =
      if to_bit cfg.savepolicy_conv then judge_rcpts rcpts l cfg else finish l cfg

  unfoldable pub make_savelist : Bytes → List Bytes → Handle → Config → Cmd (Ret × Handle)
  unfolding judge_to
  make_savelist from rcpts sv cfg =
      let l = lists sv (handle null null) in
      if from_bit cfg.savepolicy_conv
      then (do
        (ret, l') ← judge_mail (complement_address from cfg) l cfg
        elim ret [ r_success ↦ judge_to rcpts l' cfg | _ ↦ give_up l' ])
      else judge_to rcpts l cfg
