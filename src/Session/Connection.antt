-- ===== src/Session/Connection.antt =====
-- A connection from its start to its end: any number of mails, with the other threads between the
-- callbacks.
use mathlib.Core.Path.{subst}
use messasy.Base.{ℕ, Bytes, ◌≡◌, ◌≢◌, refl, sym, true, false, Option, none, some, List, ap}
use messasy.Config.{Config, SfsiStat, smfis_continue, smfis_accept}
use messasy.ConfigStore.{Configs}
use messasy.ConfigStore.Retrieve.{config_retrieve-IsSound}
use messasy.ConfigStore.Reachable.{one_result}
use messasy.Strlist.{null, handle}
use messasy.Serial.{get_sessid}
use messasy.Session.{Priv, World, Env, mlfi_close, read_config_of}
use messasy.Session.Incoming.{
  Call, envfrom, envrcpt, header, body, eom, abort, callback, mlfi_connect,
}
use messasy.Session.Invariant.{
  IsOpen, Phase, no_mail, in_mail, Between, IsClosed, IsSteady, empty-Holds,
}
use messasy.Session.Abort.{at_priv, AllSucceed, mlfi_freepriv-IsClosed}
use messasy.Session.Trace.{allowed, after, Trace, done, calls, changes}
use messasy.Session.Callbacks.{
  Goes, mlfi_body-Goes, mlfi_eom-Goes, mlfi_abort-Goes, mlfi_envfrom-Goes, mlfi_envrcpt-Goes,
}
use messasy.Session.Headers.{mlfi_header-Goes}
use messasy.Session.Others.{Other, Pinned, retrieve-Pinned, Other-Pinned}

module _ {M : Type 0} (env : Env M) (good : (c : Config) → AllSucceed (env.exec_abort c))
    (cfg : Config) (steady : IsSteady env.ldap cfg)
    (stops : cfg.erroraction_conv ≢ smfis_continue) where
  -- Every call that libmilter may make ends, with the connection open.
  callback-Goes :
      (others : List ℕ) (ph : Phase) (c : Call) (w : World M)
      → Between others cfg ph w
      → allowed ph c ≡ true
      → Goes others cfg (after c) (callback env c w)
  unfolding callback
  callback-Goes others ph c w b may =
      subst (λ x. Goes others cfg (after c) (callback env c x)) (sym b.set)
        (at_call ph c b.priv b.is b.sender may)
    where
      at_call :
          (ph : Phase) (c : Call) (p : Priv M)
          → IsOpen others cfg w p
          → (ph ≡ in_mail → (from : Bytes) × (p.envfrom ≡ some from))
          → allowed ph c ≡ true
          → Goes others cfg (after c) (callback env c (at_priv w p))
      at_call ph (envfrom a) p o sender may = mlfi_envfrom-Goes env good others cfg a w p o
      at_call ph abort p o sender may = mlfi_abort-Goes env good others cfg w p o
      at_call ph eom p o sender may = mlfi_eom-Goes env good others cfg w p o
      at_call in_mail (envrcpt a) p o sender may =
          mlfi_envrcpt-Goes env good others cfg a w p o (sender refl)
      at_call in_mail (header f v) p o sender may =
          mlfi_header-Goes env good others cfg stops steady f v w p o (sender refl)
      at_call in_mail (body x) p o sender may =
          mlfi_body-Goes env good others cfg stops x w p o (sender refl)
      at_call no_mail (envrcpt a) p o sender may = cc
      at_call no_mail (header f v) p o sender may = cc
      at_call no_mail (body x) p o sender may = cc

  after_call :
      {others : List ℕ} (c : Call) (r : SfsiStat) {v : World M} (o : Option (SfsiStat × World M))
      → Goes others cfg (after c) o
      → o ≡ some (r, v)
      → Between others cfg (after c r) v
  after_call {others} c r {v} o (q, u, e, b) f =
      let same = one_result o (q, u) (r, v) e f in
      subst (λ x. Between others cfg (after c x.0) x.1) same b

  -- Other threads leave the connection as it is.
  changed :
      {others more : List ℕ} {ph : Phase} {w v : World M} (t : Configs)
      → Between others cfg ph w
      → Other others w.configs more t
      → v ≡ record w { configs = t }
      → Between more cfg ph v
  changed {more = more} {ph = ph} {w = w} t b other e =
      let (sound, pinned) = Other-Pinned b.priv.config cfg other b.is.sound b.is.pinned in
      let set : (record w { configs = t } ≡ record w { configs = t; ctx = some b.priv }) =
        ap with_configs b.set in
      subst (λ x. Between more cfg ph x) (sym e)
        (record {
          priv = b.priv;
          set = set;
          is = record {
            sound = sound;
            not_null = b.is.not_null;
            pinned = pinned;
            rcpts = b.is.rcpts;
            saved = b.is.saved;
            not_yet = b.is.not_yet;
          };
          sender = b.sender;
        })
    where
      with_configs : World M → World M
      with_configs x = record x { configs = t }

  Trace-Between :
      {ph ph' : Phase} {others more : List ℕ} {w u : World M}
      → Between others cfg ph w
      → Trace env ph others w ph' more u
      → Between more cfg ph' u
  Trace-Between b done = b
  Trace-Between {ph} {others = others} {w} b (calls c r may gives rest) =
      Trace-Between (after_call c r (callback env c w) (callback-Goes others ph c w b may) gives)
        rest
  Trace-Between b (changes t other e rest) = Trace-Between (changed t b other e) rest

  -- A connection begins with no mail, under the current configuration.
  mlfi_connect-Between :
      (others : List ℕ) (hostaddr : Bytes) (time : ℕ) (w : World M)
      → IsClosed others w
      → Pinned w.configs.cur cfg w.configs
      → (v : World M) × (mlfi_connect env (some hostaddr) (some time) w ≡ some (smfis_continue, v))
        × Between others cfg no_mail v
  unfolding mlfi_connect read_config_of
  mlfi_connect-Between others hostaddr time w closed pinned =
      let (t, gives, sound) = config_retrieve-IsSound others w.configs closed.sound in
      let held = retrieve-Pinned w.configs.cur cfg w.configs pinned w.configs.cur t gives in
      let (serial, sid) = get_sessid env.pid w.serialno in
      let p : Priv M = record {
        sid = sid;
        recvtime = time;
        clientaddr = hostaddr;
        envfrom = none;
        rcptto = handle null null;
        addrmatched = handle null null;
        config = w.configs.cur;
        extrapriv = env.no_modules;
        header_existence = false;
      } in
      (
        record w { configs = t; serialno = serial; ctx = some p },
        rw (mlfi_connect, gives, read_config_of, held.1) refl,
        record {
          priv = p;
          set = refl;
          is = record {
            sound = sound;
            not_null = closed.sound.not_null;
            pinned = held;
            rcpts = empty-Holds w.rcpts closed.rcpts (handle null null) refl;
            saved = empty-Holds w.saved closed.saved (handle null null) refl;
            not_yet = λ h. refl;
          };
          sender = λ h. cc;
        },
      )

  module _ {others more : List ℕ} {ph : Phase} {w v u : World M} (hostaddr : Bytes) (time : ℕ)
      (closed : IsClosed others w) (current : Pinned w.configs.cur cfg w.configs)
      (connected : mlfi_connect env (some hostaddr) (some time) w ≡ some (smfis_continue, v))
      (trace : Trace env no_mail others v ph more u) where
    open_after : Between more cfg ph u
    open_after =
        let (v', gives, b) = mlfi_connect-Between others hostaddr time w closed current in
        let same =
          one_result (mlfi_connect env (some hostaddr) (some time) w) (smfis_continue, v')
            (smfis_continue, v) gives connected in
        Trace-Between (subst (λ x. Between others cfg no_mail x.1) same b) trace

    -- However a connection has gone on, over any number of mails and with other threads that
    -- take, release and reload configurations between the callbacks, each call that libmilter
    -- may make next ends, and uses no freed memory and no NULL, as long as the address of the
    -- client is not NULL, LDAP either cannot be reached or answers, with `LdapMailFilter` not
    -- NULL, the functions for an abort succeed, and `ErrorAction` ends a mail.
    pub Trace-callback :
        (c : Call)
        → allowed ph c ≡ true
        → (r : SfsiStat) × (x : World M) × (callback env c u ≡ some (r, x))
    Trace-callback c may = let (r, x, e, _) = callback-Goes more ph c u open_after may in (r, x, e)

    -- In the same way, the configuration that was current at the start of the connection
    -- stays in memory with its values, whatever is reloaded, and is the one that the
    -- connection uses.
    pub Trace-Pinned : (p : Priv M) × (u.ctx ≡ some p) × Pinned p.config cfg u.configs
    Trace-Pinned = (open_after.priv, ap (λ x. x.ctx) open_after.set, open_after.is.pinned)

    -- In the same way, the connection can be closed at any time, and then no reference to its
    -- configuration is left of it.
    pub Trace-mlfi_close : (x : World M) × (mlfi_close u ≡ some (smfis_accept, x)) × IsClosed more x
    unfolding mlfi_close
    Trace-mlfi_close =
        subst (λ y. (x : World M) × (mlfi_close y ≡ some (smfis_accept, x)) × IsClosed more x)
          (sym open_after.set) (mlfi_freepriv-IsClosed more cfg u open_after.priv open_after.is)
