-- ===== src/Filter/NoFilter.antt =====
-- What becomes of an address that waits for LDAP when `cf_ldapmailfilter` is NULL.
use messasy.Base.{
  ◌<◌, ◌≡◌, ◌≢◌, refl, sym, ◌∙◌, none, List, [], ◌∷◌, Bytes, arith, filter, true, suc, ◌+◌,
}
use messasy.Config.{Config}
use messasy.Strlist.{Store, Handle, fault}
use messasy.Strlist.Returns.{pos_ne, load-ok}
use messasy.Strlist.Chain.{Cells, IsStrlist, strings}
use messasy.Filter.{Ldap, Lists, search_ldap, ldap_loop, finish, make_savelist}
use messasy.Filter.Judge.{is_pending}
use messasy.Filter.Pair.{IsPair}
use messasy.Filter.Savelist.{candidates, make_savelist-Ready}
use messasy.Filter.Saved.{reachable, check_ldap-reachable}

module _ (ldap : Ldap) (cfg : Config) (no_filter : cfg.ldapmailfilter ≡ none)
    (up : reachable ldap cfg ≡ true) where
  search_ldap-fault : (v : Bytes) (s : Store) → search_ldap ldap 0 cfg v s ≡ fault
  unfolding search_ldap
  search_ldap-fault v s = rw (no_filter, search_ldap) refl

  finish-fault :
      (l : Lists) (xs ys : Cells) (t : Store)
      → IsPair t l xs ys
      → strings ys ≢ []
      → finish ldap l cfg t ≡ fault
  unfolding finish ldap_loop
  finish-fault l xs [] t p ne = absurd (ne refl)
  finish-fault l xs ((a, v) ∷ ys) t p ne =
      let (pos, below, e, out, rest) = p.ldap.chain in
      let one : t.brk + 1 ≡ suc t.brk = omega arith in
      rw
        (
          p.ldap.head,
          pos_ne a pos,
          check_ldap-reachable ldap cfg t l.save a up,
          one,
          pos_ne a pos,
          load-ok t a pos e,
          search_ldap-fault v t,
        )
        refl

  pub make_savelist-no_filter :
      (from : Bytes) (rcpts : List Bytes) (sv : Handle) (s : Store)
      → 0 < s.brk
      → IsStrlist s sv []
      → filter (is_pending cfg) (candidates cfg from rcpts) ≢ []
      → make_savelist ldap from rcpts sv cfg s ≡ fault
  make_savelist-no_filter from rcpts sv s pos is some_pending =
      make_savelist-Ready ldap cfg (λ r. r ≡ fault) from rcpts sv s pos is
        λ l xs ys t p o e f. finish-fault l xs ys t p (λ h. some_pending (sym f ∙ h))
