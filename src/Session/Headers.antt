-- ===== src/Session/Headers.antt =====
-- The headers of a mail, the first of which opens it.
use mathlib.Core.Path.{subst}
use messasy.Base.{
  ℕ, ◌≡◌, ◌≢◌, refl, sym, Bool, true, false, Option, none, some, List, ◌∷◌, ◌++◌, ◌==◌, ap, Ret,
  r_success, r_positive, r_error, ◌⊎◌, inl, inr, Bool-cases, Option-cases, if◌then◌else◌, Bytes,
}
use messasy.Config.{Config, SfsiStat, smfis_continue, smfis_accept}
use messasy.Strlist.{null, Store, handle, Handle}
use messasy.Strlist.Chain.{strings}
use messasy.Session.{pure, ◌>>=◌, Priv, World, Env, Act, check_header_regex}
use messasy.Session.Incoming.{
  pass_header, check_saved, find_saved, open_mail, take_header, mlfi_header,
}
use messasy.Session.Invariant.{
  Holds, IsOpen, Phase, in_mail, Between, IsSteady, make_savelist-Found, read_config_of-pinned,
  read_strlist-strings,
}
use messasy.Session.Abort.{at_priv, AllSucceed, widen}
use messasy.Session.Callbacks.{
  Returns-gives, goes_on, goes_on_stop, not_positive, Goes, abort_with-Between, abort_with-Goes,
  pass_header-Goes,
}

module _ {M : Type 0} (env : Env M) (good : (c : Config) → AllSucceed (env.exec_abort c))
    (others : List ℕ) (cfg : Config) (stops : cfg.erroraction_conv ≢ smfis_continue)
    (steady : IsSteady env.ldap cfg) where
  -- Where a mail is stopped before its first header, or not.
  abbrev phase_of : Option SfsiStat → Phase
  phase_of none = in_mail
  phase_of (some r) = goes_on r

  check_saved-Between :
      (x : Ret × Handle) (w : World M) (p : Priv M)
      → IsOpen others cfg w p
      → (from : Bytes) × (p.envfrom ≡ some from)
      → (x.0 ≡ r_success) ⊎ (x.0 ≡ r_error)
      → (stop : Option SfsiStat) × (v : World M) × (check_saved env cfg x (at_priv w p)
          ≡ some (stop, v))
        × Between others cfg (phase_of stop) v
  unfolding check_saved
  check_saved-Between (r_success, l) w p o sender two = elim (Bool-cases (l.head == null)) [
    | inl e ↦
        let (v, f, b) = abort_with-Between env good others cfg smfis_accept w p o in
        (some smfis_accept, v, rw (check_saved, e, f) refl, b)
    | inr e ↦ (
      none,
      at_priv w p,
      rw (check_saved, e) refl,
      record { priv = p; set = refl; is = widen o; sender = λ h. sender },
    )
  ]
  check_saved-Between (r_positive, l) w p o sender two = absurd (not_positive two)
  check_saved-Between (r_error, l) w p o sender two =
      let (v, f, b) = abort_with-Between env good others cfg cfg.erroraction_conv w p o in
      (
        some cfg.erroraction_conv,
        v,
        rw (check_saved, f) refl,
        rw (goes_on_stop cfg.erroraction_conv stops) b,
      )

  open_mail-Between :
      (w : World M) (p : Priv M)
      → IsOpen others cfg w p
      → (from : Bytes) × (p.envfrom ≡ some from)
      → p.header_existence ≡ false
      → (stop : Option SfsiStat) × (v : World M) × (open_mail env cfg p (at_priv w p)
          ≡ some (stop, v))
        × Between others cfg (phase_of stop) v
  unfolding open_mail find_saved
  open_mail-Between w p o (from, is_from) first =
      let rs = strings o.rcpts.cells in
      let ((ret, l), t, e, (h, two)) = Returns-gives (
        make_savelist-Found env.ldap from rs p.addrmatched cfg w.saved steady o.saved.pos
          (o.not_yet first)) in
      let q = record p { header_existence = true; addrmatched = l } in
      let (stop, v, f, b) =
        check_saved-Between (ret, l) (record w { saved = t }) q (found o l t h) (from, is_from)
          (ret_of two) in
      (
        stop,
        v,
        rw
            (
              open_mail,
              is_from,
              find_saved,
              read_strlist-strings w.rcpts p.rcptto o.rcpts.cells o.rcpts.is,
              e,
              f,
            )
            refl,
        b,
      )
    where
      found :
          IsOpen others cfg w p
          → (l : Handle) (t : Store) → Holds t l
          → IsOpen others cfg
              (record w { saved = t })
              (record p { header_existence = true; addrmatched = l })
      found o l t h = record {
        sound = o.sound;
        not_null = o.not_null;
        pinned = o.pinned;
        rcpts = o.rcpts;
        saved = h;
        not_yet = λ h. cc;
      }

      ret_of :
          {x : Ret × Handle}
          → (x.0 ≡ r_success) ⊎ (x ≡ (r_error, handle null null))
          → (x.0 ≡ r_success) ⊎ (x.0 ≡ r_error)
      ret_of (inl e) = inl e
      ret_of (inr e) = inr (ap (λ y. y.0) e)

  take_header-Goes :
      (f v : Bytes) (w : World M) (p : Priv M)
      → IsOpen others cfg w p
      → (from : Bytes) × (p.envfrom ≡ some from)
      → Goes others cfg goes_on (take_header env cfg f v (at_priv w p))
  unfolding take_header
  take_header-Goes f v w p o sender = branch p.header_existence refl
    where
      at_stop :
          (stop : Option SfsiStat) (u : World M)
          → Between others cfg (phase_of stop) u
          → Goes others cfg goes_on (
              (elim stop as (λ x. Act M SfsiStat) [
                | some r ↦ pure r
                | none ↦ pass_header env cfg f v
              ])
                u)
      at_stop none u b =
          subst (λ x. Goes others cfg goes_on (pass_header env cfg f v x)) (sym b.set)
            (pass_header-Goes env good others cfg stops f v u b.priv b.is (b.sender refl))
      at_stop (some r) u b = (r, u, refl, b)

      branch :
          (b : Bool)
          → p.header_existence ≡ b
          → Goes others cfg goes_on (
              (if b
                  then pass_header env cfg f v
                  else (open_mail env cfg p >>= λ stop. elim stop [
                    | some r ↦ pure r
                    | none ↦ pass_header env cfg f v
                  ]))
                (at_priv w p))
      branch true later = pass_header-Goes env good others cfg stops f v w p o sender
      branch false first =
          let (stop, u, e, b) = open_mail-Between w p o sender first in rw e (at_stop stop u b)

  pub mlfi_header-Goes :
      (f v : Bytes) (w : World M) (p : Priv M)
      → IsOpen others cfg w p
      → (from : Bytes) × (p.envfrom ≡ some from)
      → Goes others cfg goes_on (mlfi_header env f v (at_priv w p))
  unfolding mlfi_header check_header_regex
  mlfi_header-Goes f v w p o sender = elim (Option-cases (env.regex cfg)) [
    | inl e ↦
        rw (mlfi_header, read_config_of-pinned others cfg (at_priv w p) p (widen o), e)
          (take_header-Goes f v w p o sender)
    | inr (preg, e) ↦ elim (Bool-cases (preg (f ++ (b':' ∷ b' ' ∷ v)))) [
      | inl hit ↦
          rw
            (
              mlfi_header,
              read_config_of-pinned others cfg (at_priv w p) p (widen o),
              e,
              check_header_regex,
              hit,
            )
            (abort_with-Goes env good others cfg smfis_accept w p (λ h. cc) o)
      | inr miss ↦
          rw
            (
              mlfi_header,
              read_config_of-pinned others cfg (at_priv w p) p (widen o),
              e,
              check_header_regex,
              miss,
            )
            (take_header-Goes f v w p o sender)
    ]
  ]
