-- ===== src/Session/Abort.antt =====
-- The abort of a mail, and the end of a connection.
use messasy.Base.{
  ℕ, ◌<◌, ◌≡◌, refl, true, false, none, some, List, [], ◌∷◌, ◌==◌, arith, Ret, r_success, r_error,
  ◌⊎◌, inl, inr, All, Bool-cases,
}
use messasy.Config.{Config, smfis_continue, smfis_accept}
use messasy.ConfigStore.{Configs}
use messasy.ConfigStore.Invariant.{IsSound, count, drop}
use messasy.ConfigStore.Release.{config_release-IsSound}
use messasy.Strlist.{null, Store, handle}
use messasy.Session.{Priv, World, Hook, Env, exec_loop, release_config, mlfi_cleanup, mlfi_freepriv}
use messasy.Session.Incoming.{mlfi_abort}
use messasy.Session.Invariant.{IsOpen, IsClosed, read_config_of-pinned, empty-Holds}
use messasy.Session.Cleanup.{emptied, eom_cleanup-emptied, free_lists-gives}

abbrev pub at_priv : {M : Type 0} → World M → Priv M → World M
at_priv w p = record w { ctx = some p }

abbrev pub keeping : {M : Type 0} → Priv M → M → Priv M
keeping p m = record p { extrapriv = m }

-- The module functions return 0, whatever the world is.
abbrev pub AllSucceed : {M : Type 0} → List (Hook M) → Type 0
AllSucceed {M} fs = All (λ f. (w : World M) → (f w).0 ≡ true) fs

module _ {M : Type 0} where
  -- The functions of the modules change what the modules keep, and nothing else.
  pub exec_loop-gives :
      (fs : List (Hook M)) (p : Priv M) (w : World M)
      → (ret : Ret) × (m : M) × (exec_loop fs p (at_priv w p) ≡ some (ret, at_priv w (keeping p m)))
        × ((ret ≡ r_success) ⊎ (ret ≡ r_error))
        × (AllSucceed fs → ret ≡ r_success)
  unfolding exec_loop
  exec_loop-gives [] p w = (r_success, p.extrapriv, refl, inl refl, λ h. refl)
  exec_loop-gives (f ∷ fs) p w = elim (Bool-cases (f (at_priv w p)).0) [
    | inl good ↦
        let m = (f (at_priv w p)).1 in
        let (ret, m', e, two, all) = exec_loop-gives fs (keeping p m) w in
        (ret, m', rw (exec_loop, good) e, two, λ h. all h.1)
    | inr bad ↦ (
      r_error,
      (f (at_priv w p)).1,
      rw (exec_loop, bad) refl,
      inr refl,
      λ h. cc (h.0 (at_priv w p)),
    )
  ]

  pub emptied-IsOpen :
      (others : List ℕ) (cfg : Config) (w : World M) (p : Priv M) (s t : Store)
      → IsOpen others cfg w p
      → 0 < s.brk
      → 0 < t.brk
      → IsOpen others cfg (record w { rcpts = s; saved = t }) (emptied p)
  unfolding emptied
  emptied-IsOpen others cfg w p s t o hs ht = record {
    sound = o.sound;
    not_null = o.not_null;
    pinned = o.pinned;
    rcpts = empty-Holds s hs (handle null p.rcptto.tail) refl;
    saved = empty-Holds t ht (handle null p.addrmatched.tail) refl;
    not_yet = λ h. refl;
  }

  pub widen :
      {others : List ℕ} {cfg : Config} {w : World M} {p : Priv M}
      → IsOpen others cfg w p
      → IsOpen others cfg (at_priv w p) p
  widen o = record {
    sound = o.sound;
    not_null = o.not_null;
    pinned = o.pinned;
    rcpts = o.rcpts;
    saved = o.saved;
    not_yet = o.not_yet;
  }

  pub kept :
      {others : List ℕ} {cfg : Config} {w : World M} {p : Priv M}
      → IsOpen others cfg w p
      → (m : M) → IsOpen others cfg w (keeping p m)
  kept o m = record {
    sound = o.sound;
    not_null = o.not_null;
    pinned = o.pinned;
    rcpts = o.rcpts;
    saved = o.saved;
    not_yet = o.not_yet;
  }

  -- The reference of the connection is given back.
  release_config-IsSound :
      (others : List ℕ) (cfg : Config) (w : World M) (p : Priv M)
      → IsOpen others cfg w p
      → (s : Configs) × ((v : World M)
          → v.configs ≡ w.configs
          → release_config p.config v ≡ some (tt, record v { configs = s }))
        × IsSound others s
  unfolding release_config count drop
  release_config-IsSound others cfg w p o =
      let (s, e, sound) =
        config_release-IsSound (p.config ∷ others) w.configs p.config o.sound (ground arith) in
      (s, λ v same. rw (release_config, same, e) refl, rw (← dropped p.config others) sound)
    where
      dropped : (c : ℕ) (ds : List ℕ) → drop c (c ∷ ds) ≡ ds
      dropped c ds = ground arith

  config_ne :
      (others : List ℕ) (cfg : Config) (w : World M) (p : Priv M)
      → IsOpen others cfg w p
      → (p.config == 0) ≡ false
  config_ne others cfg w p o = ground (arith, o.not_null)

  -- At the end of a connection its configuration is released, once.
  pub mlfi_freepriv-IsClosed :
      (others : List ℕ) (cfg : Config) (w : World M) (p : Priv M)
      → IsOpen others cfg w p
      → (v : World M) × (mlfi_freepriv (at_priv w p) ≡ some (smfis_accept, v)) × IsClosed others v
  unfolding mlfi_freepriv
  mlfi_freepriv-IsClosed others cfg w p o =
      let (s, e, sound) = release_config-IsSound others cfg w p o in
      (
        record w { configs = s; ctx = none },
        rw (mlfi_freepriv, config_ne others cfg w p o, e (at_priv w p) refl) refl,
        record { sound = sound; rcpts = o.rcpts.pos; saved = o.saved.pos; unset = refl },
      )

  mlfi_cleanup-IsClosed :
      (others : List ℕ) (cfg : Config) (w : World M) (p : Priv M)
      → IsOpen others cfg w p
      → (v : World M) × (mlfi_cleanup (at_priv w p) ≡ some (smfis_continue, v))
        × (mlfi_freepriv v ≡ some (smfis_accept, v))
        × IsClosed others v
  unfolding mlfi_cleanup mlfi_freepriv
  mlfi_cleanup-IsClosed others cfg w p o =
      let (c, e, sound) = release_config-IsSound others cfg w p o in
      let q = record p { config = 0; envfrom = none } in
      let (s, t, f, ps, pt) =
        free_lists-gives q (record w { configs = c; ctx = some p }) o.rcpts o.saved in
      (
        record w { configs = c; rcpts = s; saved = t; ctx = none },
        rw (mlfi_cleanup, config_ne others cfg w p o, e (at_priv w p) refl, f) refl,
        refl,
        record { sound = sound; rcpts = ps; saved = pt; unset = refl },
      )

  module _ (env : Env M) where
    -- An abort whose module functions succeed leaves the connection open, with nothing of the mail.
    pub mlfi_abort-emptied :
        (others : List ℕ) (cfg : Config) (w : World M) (p : Priv M)
        → IsOpen others cfg w p
        → AllSucceed (env.exec_abort cfg)
        → (m : M) × (s : Store) × (t : Store) × (mlfi_abort env (at_priv w p)
            ≡ some (
              smfis_continue,
              record w { rcpts = s; saved = t; ctx = some (emptied (keeping p m)) },
            ))
          × (0 < s.brk)
          × (0 < t.brk)
    unfolding mlfi_abort
    mlfi_abort-emptied others cfg w p o good =
        let (ret, m, e, _, all) = exec_loop-gives (env.exec_abort cfg) p w in
        let (s, t, f, ps, pt) = eom_cleanup-emptied (keeping p m) w o.rcpts o.saved in
        (
          m,
          s,
          t,
          rw
              (
                mlfi_abort,
                read_config_of-pinned others cfg (at_priv w p) p (widen o),
                e,
                all good,
                f,
              )
              refl,
          ps,
          pt,
        )

    -- One that fails gives the configuration back and forgets the connection.
    pub mlfi_abort-IsClosed :
        (others : List ℕ) (cfg : Config) (w v : World M) (p : Priv M)
        → IsOpen others cfg w p
        → exec_loop (env.exec_abort cfg) p (at_priv w p) ≡ some (r_error, v)
        → (u : World M) × (mlfi_abort env (at_priv w p) ≡ some (cfg.erroraction_conv, u))
          × IsClosed others u
    unfolding mlfi_abort
    mlfi_abort-IsClosed others cfg w v p o bad =
        let (ret, m, e, two, _) = exec_loop-gives (env.exec_abort cfg) p w in
        let (u, f, g, closed) = mlfi_cleanup-IsClosed others cfg w (keeping p m) (kept o m) in
        (
          u,
          rw
              (
                mlfi_abort,
                read_config_of-pinned others cfg (at_priv w p) p (widen o),
                e,
                failed two e,
                f,
                g,
              )
              refl,
          closed,
        )
      where
        failed :
            {ret : Ret} {x : World M}
            → (ret ≡ r_success) ⊎ (ret ≡ r_error)
            → exec_loop (env.exec_abort cfg) p (at_priv w p) ≡ some (ret, x)
            → ret ≡ r_error
        failed (inl good) e = cc
        failed (inr is) e = is
