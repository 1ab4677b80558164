-- ===== src/Session/Lost.antt =====
-- A mail of which nothing is saved, and an abort that fails.
use mathlib.Core.Path.{subst}
use messasy.Base.{
  ℕ, Bytes, ◌≤◌, ◌≡◌, refl, sym, ◌∙◌, true, false, none, some, List, [], ◌∷◌, Ret, r_success,
  r_error, filter, arith,
}
use messasy.Config.{Config, smfis_accept}
use messasy.Strlist.{Store, Run, ok, null, Handle}
use messasy.Strlist.Returns.{Returns, returns}
use messasy.Strlist.Chain.{Cells, strings, IsStrlist, head_or}
use messasy.Filter.{make_savelist}
use messasy.Filter.Judge.{is_direct, is_pending}
use messasy.Filter.Savelist.{candidates}
use messasy.Filter.Lookup.{outcome}
use messasy.Filter.Grows.{make_savelist-Grows}
use messasy.Filter.Saved.{Answers, Saved, make_savelist-Saved}
use messasy.Session.{World, Priv, Env, Hook, exec_loop}
use messasy.Session.Incoming.{
  mlfi_abort, mlfi_envfrom, mlfi_header, abort_with, find_saved, open_mail, take_header,
  check_saved,
}
use messasy.Session.Invariant.{
  grown, IsOpen, IsClosed, Holds, read_config_of-pinned, read_strlist-strings,
}
use messasy.Session.Cleanup.{emptied}
use messasy.Session.Abort.{
  at_priv, keeping, AllSucceed, mlfi_abort-IsClosed, mlfi_abort-emptied, widen,
}

no_priv :
    {M : Type 0} (env : Env M) (address : Bytes) (w : World M)
    → mlfi_envfrom env address (record w { ctx = none }) ≡ none
unfolding mlfi_envfrom
no_priv env address w = refl

module _ {M : Type 0} (env : Env M) (others : List ℕ) (cfg : Config) (w : World M) (p : Priv M)
    (is : IsOpen others cfg w p) where
  -- Where a function of a module fails to abort, `mlfi_abort` gives the configuration back and
  -- forgets the connection, so that the next `MAIL FROM` reads through NULL.
  pub mlfi_abort-lost :
      (v : World M)
      → exec_loop (env.exec_abort cfg) p (at_priv w p) ≡ some (r_error, v)
      → (u : World M) × (mlfi_abort env (at_priv w p) ≡ some (cfg.erroraction_conv, u))
        × IsClosed others u
        × ((address : Bytes) → mlfi_envfrom env address u ≡ none)
  mlfi_abort-lost v failed =
      let (u, e, closed) = mlfi_abort-IsClosed env others cfg w v p is failed in
      (
        u,
        e,
        closed,
        λ address.
            subst (λ o. mlfi_envfrom env address (record u { ctx = o }) ≡ none) (sym closed.unset)
              (no_priv env address u),
      )

  -- What `make_savelist` gives for a mail none of whose addresses is to be saved.
  nothing_saved :
      (from : Bytes)
      → filter (is_direct cfg) (candidates cfg from (strings is.rcpts.cells)) ≡ []
      → Answers env.ldap cfg
          (filter (is_pending cfg) (candidates cfg from (strings is.rcpts.cells)))
      → (outcome env.ldap cfg 0
          (filter (is_pending cfg) (candidates cfg from (strings is.rcpts.cells)))).1
        ≡ []
      → p.header_existence ≡ false
      → (t : Store) × (l : Handle) × (make_savelist env.ldap from
            (strings is.rcpts.cells)
            p.addrmatched
            cfg
            w.saved
          ≡ ok (r_success, l) t)
        × (l.head ≡ null)
        × Holds t l
  unfolding outcome
  nothing_saved from direct answered unknown first =
      let rs = strings is.rcpts.cells in
      let is_empty : IsStrlist w.saved p.addrmatched [] = record {
        chain = tt;
        head = is.not_yet first;
        tail = tt;
      } in
      empty_result
        (grown w.saved
          (make_savelist-Saved env.ldap from rs p.addrmatched cfg w.saved is.saved.pos is_empty
            answered)
          (make_savelist-Grows env.ldap from rs p.addrmatched cfg w.saved))
        (rw (direct, unknown) refl)
    where
      no_head : (c : Cells) → strings c ≡ [] → head_or null c ≡ null
      no_head [] e = refl
      no_head ((a, v) ∷ c) e = cc

      empty_result :
          {zs : List Bytes} {r : Run (Ret × Handle)}
          → Returns (λ a t. Saved zs a t × (w.saved.brk ≤ t.brk)) r
          → zs ≡ []
          → (t : Store) × (l : Handle) × (r ≡ ok (r_success, l) t) × (l.head ≡ null) × Holds t l
      empty_result (returns {a = (ret, l)} {s = t} ((good, c, list, e), le)) none_left = (
        t,
        l,
        rw good refl,
        list.head ∙ no_head c (e ∙ none_left),
        record { pos = omega (arith, is.saved.pos); cells = c; is = list },
      )

-- An abort does not depend on the functions for headers.
same_abort :
    {M : Type 0} (env : Env M) (hooks : Config → List (Bytes → Bytes → Hook M)) (w : World M)
    → mlfi_abort (record env { exec_header = hooks }) w ≡ mlfi_abort env w
unfolding mlfi_abort
same_abort env hooks w = refl

-- A mail before its first header.
abbrev pub waiting : {M : Type 0} → Priv M → Bytes → Priv M
waiting p from = record p { envfrom = some from; header_existence = false }

module _ {M : Type 0} (env : Env M) (others : List ℕ) (cfg : Config) (w : World M) (p : Priv M)
    (from : Bytes) (is : IsOpen others cfg w (waiting p from)) where
  -- At the first header of a mail, with no test of headers, where no address of the policy is
  -- both in `MyDomain` and named by `SaveMailAddress`, the searches for those that wait for
  -- LDAP are all answered, with `LdapMailFilter` not NULL, and find none, and the functions for
  -- an abort succeed, `mlfi_header` accepts the mail, whatever the functions of the modules for
  -- headers are and do.
  pub mlfi_header-accepts :
      (f v : Bytes)
      → env.regex cfg ≡ none
      → filter (is_direct cfg) (candidates cfg from (strings is.rcpts.cells)) ≡ []
      → Answers env.ldap cfg
          (filter (is_pending cfg) (candidates cfg from (strings is.rcpts.cells)))
      → (outcome env.ldap cfg 0
          (filter (is_pending cfg) (candidates cfg from (strings is.rcpts.cells)))).1
        ≡ []
      → AllSucceed (env.exec_abort cfg)
      → (x : World M) × ((hooks : Config → List (Bytes → Bytes → Hook M))
          → mlfi_header (record env { exec_header = hooks }) f v (at_priv w (waiting p from))
            ≡ some (smfis_accept, x))
  unfolding mlfi_header take_header open_mail find_saved check_saved abort_with
  mlfi_header-accepts f v regex direct answered unknown good =
      let (t, l, e, null_head, holds) =
        nothing_saved env others cfg w (waiting p from) is from direct answered unknown refl in
      let q = record (waiting p from) { header_existence = true; addrmatched = l } in
      let opened : IsOpen others cfg (record w { saved = t }) q = record {
        sound = is.sound;
        not_null = is.not_null;
        pinned = is.pinned;
        rcpts = is.rcpts;
        saved = holds;
        not_yet = λ h. cc;
      } in
      let (m, s, u, gives, _, _) =
        mlfi_abort-emptied env others cfg (record w { saved = t }) q opened good in
      (
        record w { rcpts = s; saved = u; ctx = some (emptied (keeping q m)) },
        λ hooks.
            rw
              (
                mlfi_header,
                read_config_of-pinned others cfg (at_priv w (waiting p from)) (waiting p from)
                    (widen is),
                regex,
                read_strlist-strings w.rcpts p.rcptto is.rcpts.cells is.rcpts.is,
                e,
                null_head,
                same_abort env hooks,
                gives,
              )
              refl,
      )
