-- ===== src/Session/Callbacks.antt =====
-- Each callback on an open connection: it ends, and the connection is open after it.

use messasy.Base.{
  ℕ, ◌≡◌, ◌≢◌, refl, Option, some, List, arith, Ret, r_success, r_positive, r_error, ◌⊎◌, inl, inr,
  Bytes,
}
use messasy.Config.{Config, SfsiStat, smfis_continue, smfis_accept, smfis_reject, smfis_tempfail}
use messasy.Strlist.{Store, Run, ok}
use messasy.Strlist.Returns.{Returns, returns}
use messasy.Strlist.Push.{push_strlist-Pushed}
use messasy.Address.Inside.{get_addrpart-Copies}
use messasy.Session.{then_act, pure, Priv, World, Hook, Env, Act, exec_loop, eom_cleanup}
use messasy.Session.Incoming.{
  mlfi_abort, abort_with, on_header, on_body, msy_exec_header, pass_header, mlfi_body, mlfi_eom,
  mlfi_envfrom, mlfi_envrcpt,
}
use messasy.Session.Invariant.{IsOpen, Phase, no_mail, in_mail, Between, read_config_of-pinned}
use messasy.Session.Cleanup.{emptied, eom_cleanup-emptied}
use messasy.Session.Abort.{
  at_priv, keeping, AllSucceed, exec_loop-gives, emptied-IsOpen, widen, kept, mlfi_abort-emptied,
}

pub Returns-gives :
    {A : Type 0} {P : A → Store → Type 0} {r : Run A}
    → Returns P r
    → (a : A) × (t : Store) × (r ≡ ok a t) × P a t
Returns-gives (returns {a} {s = t} p) = (a, t, refl, p)

-- No function of a module loop returns `R_POSITIVE`.
pub not_positive : ¬ ((r_positive ≡ r_success) ⊎ (r_positive ≡ r_error))
not_positive (inl e) = cc
not_positive (inr e) = cc

-- A mail goes on only where the callback returns `SMFIS_CONTINUE`.
abbrev pub goes_on : SfsiStat → Phase
goes_on smfis_continue = in_mail
goes_on _ = no_mail

pub goes_on_stop : (r : SfsiStat) → r ≢ smfis_continue → goes_on r ≡ no_mail
goes_on_stop smfis_continue h = absurd (h refl)
goes_on_stop smfis_reject h = refl
goes_on_stop smfis_accept h = refl
goes_on_stop smfis_tempfail h = refl

-- The callback ends, and the connection is open behind it.
abbrev pub Goes :
    {M : Type 0} → List ℕ → Config → (SfsiStat → Phase) → Option (SfsiStat × World M) → Type 0
Goes {M} others cfg ph o =
    (r : SfsiStat) × (v : World M) × (o ≡ some (r, v)) × Between others cfg (ph r) v

module _ {M : Type 0} (env : Env M) (good : (c : Config) → AllSucceed (env.exec_abort c)) where
  module _ (others : List ℕ) (cfg : Config) where
    -- A mail that is given up.
    pub abort_with-Between :
        (r : SfsiStat) (w : World M) (p : Priv M)
        → IsOpen others cfg w p
        → (v : World M) × (abort_with env r (at_priv w p) ≡ some (r, v))
          × Between others cfg no_mail v
    unfolding abort_with
    abort_with-Between r w p o =
        let (m, s, t, e, ps, pt) = mlfi_abort-emptied env others cfg w p o (good cfg) in
        (
          record w { rcpts = s; saved = t; ctx = some (emptied (keeping p m)) },
          rw (abort_with, e) refl,
          record {
            priv = emptied (keeping p m);
            set = refl;
            is = widen (emptied-IsOpen others cfg w (keeping p m) s t (kept o m) ps pt);
            sender = λ h. cc;
          },
        )

    pub abort_with-Goes :
        (r : SfsiStat) (w : World M) (p : Priv M)
        → r ≢ smfis_continue
        → IsOpen others cfg w p
        → Goes others cfg goes_on (abort_with env r (at_priv w p))
    abort_with-Goes r w p ne o =
        let (v, e, b) = abort_with-Between r w p o in (r, v, e, rw (goes_on_stop r ne) b)

    module _ (stops : cfg.erroraction_conv ≢ smfis_continue) where
      -- The module functions for a part of a mail, and an abort if one fails.
      exec_then :
          (fs : List (Hook M)) (w : World M) (p : Priv M)
          → IsOpen others cfg w p
          → (from : Bytes) × (p.envfrom ≡ some from)
          → Goes others cfg goes_on (
              then_act (exec_loop fs p (at_priv w p)) λ ret. elim ret [
                | r_success ↦ pure smfis_continue
                | _ ↦ abort_with env cfg.erroraction_conv
              ])
      exec_then fs w p o sender =
          let (ret, m, e, two, _) = exec_loop-gives fs p w in rw e (at_ret ret m two)
        where
          at_ret :
              (ret : Ret) (m : M)
              → (ret ≡ r_success) ⊎ (ret ≡ r_error)
              → Goes others cfg goes_on (
                  (elim ret as (λ x. Act M SfsiStat) [
                    | r_success ↦ pure smfis_continue
                    | _ ↦ abort_with env cfg.erroraction_conv
                  ])
                    (at_priv w (keeping p m)))
          at_ret r_success m two = (
            smfis_continue,
            at_priv w (keeping p m),
            refl,
            record { priv = keeping p m; set = refl; is = widen (kept o m); sender = λ h. sender },
          )
          at_ret r_positive m two = absurd (not_positive two)
          at_ret r_error m two =
              abort_with-Goes cfg.erroraction_conv w (keeping p m) stops (kept o m)

      pub pass_header-Goes :
          (f v : Bytes) (w : World M) (p : Priv M)
          → IsOpen others cfg w p
          → (from : Bytes) × (p.envfrom ≡ some from)
          → Goes others cfg goes_on (pass_header env cfg f v (at_priv w p))
      unfolding pass_header msy_exec_header
      pass_header-Goes f v w p o sender =
          exec_then (on_header env f v (env.exec_header cfg)) w p o sender

      pub mlfi_body-Goes :
          (body : Bytes) (w : World M) (p : Priv M)
          → IsOpen others cfg w p
          → (from : Bytes) × (p.envfrom ≡ some from)
          → Goes others cfg goes_on (mlfi_body env body (at_priv w p))
      unfolding mlfi_body
      mlfi_body-Goes body w p o sender =
          rw (mlfi_body, read_config_of-pinned others cfg (at_priv w p) p (widen o))
            (exec_then (on_body env body (env.exec_body cfg)) w p o sender)

    pub mlfi_eom-Goes :
        (w : World M) (p : Priv M)
        → IsOpen others cfg w p
        → Goes others cfg (λ r. no_mail) (mlfi_eom env (at_priv w p))
    unfolding mlfi_eom
    mlfi_eom-Goes w p o =
        let (ret, m, e, two, _) = exec_loop-gives (env.exec_eom cfg) p w in
        rw (mlfi_eom, read_config_of-pinned others cfg (at_priv w p) p (widen o), e)
          (at_ret ret m two)
      where
        at_ret :
            (ret : Ret) (m : M)
            → (ret ≡ r_success) ⊎ (ret ≡ r_error)
            → Goes others cfg
                (λ r. no_mail)
                ((elim ret as (λ x. Act M SfsiStat) [
                  | r_success ↦ eom_cleanup
                  | _ ↦ abort_with env cfg.erroraction_conv
                ])
                  (at_priv w (keeping p m)))
        at_ret r_success m two =
            let (s, t, e, ps, pt) = eom_cleanup-emptied (keeping p m) w o.rcpts o.saved in
            (
              smfis_continue,
              record w { rcpts = s; saved = t; ctx = some (emptied (keeping p m)) },
              e,
              record {
                priv = emptied (keeping p m);
                set = refl;
                is = widen (emptied-IsOpen others cfg w (keeping p m) s t (kept o m) ps pt);
                sender = λ h. cc;
              },
            )
        at_ret r_positive m two = absurd (not_positive two)
        at_ret r_error m two =
            let (v, e, b) = abort_with-Between cfg.erroraction_conv w (keeping p m) (kept o m) in
            (cfg.erroraction_conv, v, e, b)

    pub mlfi_abort-Goes :
        (w : World M) (p : Priv M)
        → IsOpen others cfg w p
        → Goes others cfg (λ r. no_mail) (mlfi_abort env (at_priv w p))
    mlfi_abort-Goes w p o =
        let (m, s, t, e, ps, pt) = mlfi_abort-emptied env others cfg w p o (good cfg) in
        (
          smfis_continue,
          record w { rcpts = s; saved = t; ctx = some (emptied (keeping p m)) },
          e,
          record {
            priv = emptied (keeping p m);
            set = refl;
            is = widen (emptied-IsOpen others cfg w (keeping p m) s t (kept o m) ps pt);
            sender = λ h. cc;
          },
        )

    pub mlfi_envfrom-Goes :
        (envfrom : Bytes) (w : World M) (p : Priv M)
        → IsOpen others cfg w p
        → Goes others cfg goes_on (mlfi_envfrom env envfrom (at_priv w p))
    unfolding mlfi_envfrom
    mlfi_envfrom-Goes envfrom w p o =
        let (from, e, _) = get_addrpart-Copies envfrom in
        (
          smfis_continue,
          at_priv w (record p { envfrom = some from }),
          rw (mlfi_envfrom, e) refl,
          record {
            priv = record p { envfrom = some from };
            set = refl;
            is = with_sender from;
            sender = λ h. (from, refl);
          },
        )
      where
        with_sender :
            (from : Bytes)
            → IsOpen others cfg
                (at_priv w (record p { envfrom = some from }))
                (record p { envfrom = some from })
        with_sender from = record {
          sound = o.sound;
          not_null = o.not_null;
          pinned = o.pinned;
          rcpts = o.rcpts;
          saved = o.saved;
          not_yet = o.not_yet;
        }

    pub mlfi_envrcpt-Goes :
        (rcptto : Bytes) (w : World M) (p : Priv M)
        → IsOpen others cfg w p
        → (from : Bytes) × (p.envfrom ≡ some from)
        → Goes others cfg goes_on (mlfi_envrcpt env rcptto (at_priv w p))
    unfolding mlfi_envrcpt
    mlfi_envrcpt-Goes rcptto w p o sender =
        let (to, e, _) = get_addrpart-Copies rcptto in
        let (l, t, f, (is, _, brk)) =
          Returns-gives
            (push_strlist-Pushed w.rcpts p.rcptto o.rcpts.cells to o.rcpts.pos o.rcpts.is) in
        (
          smfis_continue,
          record w { rcpts = t; ctx = some (record p { rcptto = l }) },
          rw (mlfi_envrcpt, e, f) refl,
          record {
            priv = record p { rcptto = l };
            set = refl;
            is = record {
              sound = o.sound;
              not_null = o.not_null;
              pinned = o.pinned;
              rcpts = record { pos = omega (arith, o.rcpts.pos); cells = _; is = is };
              saved = o.saved;
              not_yet = o.not_yet;
            };
            sender = λ h. sender;
          },
        )
