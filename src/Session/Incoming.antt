-- ===== src/Session/Incoming.antt =====
-- The callbacks of messasy.c for the parts of a mail, and for the start of a connection.
use messasy.Base.{
  ℕ, true, false, Option, none, some, List, [], ◌∷◌, ◌==◌, if◌then◌else◌, Bytes, Ret, r_success,
  r_positive,
}
use messasy.Config.{Config, SfsiStat, smfis_continue, smfis_accept, from_bit}
use messasy.ConfigStore.{config_retrieve}
use messasy.Serial.{get_sessid}
use messasy.Address.{get_addrpart}
use messasy.Strlist.{null, Handle, handle, push_strlist}
use messasy.Filter.{make_savelist}
use messasy.Session.{
  ◌>>=◌, set_priv, Env, exec_loop, on_rcpts, pure, then_act, ◌>>◌, get_priv, mlfi_cleanup,
  check_header_regex, on_saved, Act, Hook, mlfi_freepriv, eom_cleanup, Priv, release_config,
  read_config_of, read_strlist,
}

module _ {M : Type 0} (env : Env M) where
  -- `time` is none where it fails, and `hostaddr`, the bytes of the address, where it is NULL.
  unfoldable pub mlfi_connect : Option Bytes → Option ℕ → Act M SfsiStat
  unfolding read_config_of release_config
  mlfi_connect hostaddr time w =
      let (serial, sid) = get_sessid env.pid w.serialno in
      elim (config_retrieve w.configs) [
        | none ↦ none
        | some (c, s) ↦
            let fresh : Priv M = record {
              sid = sid;
              recvtime = 0;
              clientaddr = [];
              envfrom = none;
              rcptto = handle null null;
              addrmatched = handle null null;
              config = c;
              extrapriv = env.no_modules;
              header_existence = false;
            } in
            let w' = record w { configs = s; serialno = serial } in
            then_act (read_config_of fresh w') λ cfg. elim time [
              | none ↦ release_config c >> pure cfg.erroraction_conv
              | some t ↦ elim hostaddr [
                | none ↦ λ _. none
                | some address ↦
                    set_priv (some (record fresh { recvtime = t; clientaddr = address }))
                    >> pure smfis_continue
              ]
            ]
      ]

  unfoldable pub mlfi_envfrom : Bytes → Act M SfsiStat
  mlfi_envfrom envfrom = do
    p ← get_priv
    elim (get_addrpart envfrom) [
      | none ↦ λ w. none
      | some from ↦ set_priv (some (record p { envfrom = some from })) >> pure smfis_continue
    ]

  unfoldable pub mlfi_envrcpt : Bytes → Act M SfsiStat
  mlfi_envrcpt rcptto = do
    p ← get_priv
    elim (get_addrpart rcptto) [
      | none ↦ λ w. none
      | some to ↦ on_rcpts (push_strlist p.rcptto to) >>= λ l.
          set_priv (some (record p { rcptto = l })) >> pure smfis_continue
    ]

  unfoldable pub mlfi_abort : Act M SfsiStat
  unfolding exec_loop read_config_of mlfi_cleanup mlfi_freepriv eom_cleanup
  mlfi_abort w = elim w.ctx [
    | none ↦ mlfi_cleanup w
    | some p ↦ then_act (read_config_of p w) λ cfg. exec_loop (env.exec_abort cfg) p >>= λ ret.
        elim ret [
          | r_success ↦ eom_cleanup
          | _ ↦ mlfi_cleanup >> mlfi_freepriv >> pure cfg.erroraction_conv
        ]
  ]

  -- `mlfi_abort(ctx); return r;`
  unfoldable pub abort_with : SfsiStat → Act M SfsiStat
  unfolding mlfi_abort
  abort_with r = mlfi_abort >> pure r

  abbrev pub on_header : Bytes → Bytes → List (Bytes → Bytes → Hook M) → List (Hook M)
  on_header headerf headerv [] = []
  on_header headerf headerv (f ∷ fs) = f headerf headerv ∷ on_header headerf headerv fs

  abbrev pub on_body : Bytes → List (Bytes → Hook M) → List (Hook M)
  on_body body [] = []
  on_body body (f ∷ fs) = f body ∷ on_body body fs

  unfoldable pub msy_exec_header : Config → Bytes → Bytes → Act M Ret
  unfolding exec_loop
  msy_exec_header cfg headerf headerv = do
    p ← get_priv
    exec_loop (on_header headerf headerv (env.exec_header cfg)) p

  -- The module functions for a header.
  unfoldable pub pass_header : Config → Bytes → Bytes → Act M SfsiStat
  unfolding msy_exec_header abort_with
  pass_header cfg headerf headerv = do
    ret ← msy_exec_header cfg headerf headerv
    elim ret [ r_success ↦ pure smfis_continue | _ ↦ abort_with cfg.erroraction_conv ]

  -- What becomes of a mail once its addresses have been looked for; none where it goes on.
  unfoldable pub check_saved : Config → Ret × Handle → Act M (Option SfsiStat)
  unfolding abort_with
  check_saved cfg (r_success, l) =
      if l.head == null then (abort_with smfis_accept >>= λ r. pure (some r)) else pure none
  check_saved cfg (_, l) = abort_with cfg.erroraction_conv >>= λ r. pure (some r)

  -- The addresses to be saved.
  unfoldable pub find_saved : Config → Priv M → Bytes → Act M (Option SfsiStat)
  unfolding check_saved read_strlist
  find_saved cfg p from = do
    rs ← on_rcpts (read_strlist p.rcptto.head)
    (ret, l) ← on_saved (make_savelist env.ldap from rs p.addrmatched cfg)
    set_priv (some (record p { header_existence = true; addrmatched = l }))
    check_saved cfg (ret, l)

  -- The first header of a mail. `make_savelist` reads the sender only for a policy with `FROM`.
  unfoldable pub open_mail : Config → Priv M → Act M (Option SfsiStat)
  unfolding find_saved
  open_mail cfg p = elim p.envfrom [
    | some from ↦ find_saved cfg p from
    | none ↦ if from_bit cfg.savepolicy_conv then (λ w. none) else find_saved cfg p []
  ]

  -- What follows the test of the header.
  unfoldable pub take_header : Config → Bytes → Bytes → Act M SfsiStat
  unfolding open_mail pass_header
  take_header cfg headerf headerv = do
    p ← get_priv
    if p.header_existence
        then pass_header cfg headerf headerv
        else open_mail cfg p >>= λ stop. elim stop [
          | some r ↦ pure r
          | none ↦ pass_header cfg headerf headerv
        ]

  unfoldable pub mlfi_header : Bytes → Bytes → Act M SfsiStat
  unfolding read_config_of check_header_regex abort_with take_header
  mlfi_header headerf headerv = do
    p ← get_priv
    cfg ← read_config_of p
    elim (env.regex cfg) [
      | none ↦ take_header cfg headerf headerv
      | some preg ↦ elim (check_header_regex headerf headerv preg) [
        | r_positive ↦ abort_with smfis_accept
        | _ ↦ take_header cfg headerf headerv
      ]
    ]

  unfoldable pub mlfi_body : Bytes → Act M SfsiStat
  unfolding read_config_of exec_loop abort_with
  mlfi_body body = do
    p ← get_priv
    cfg ← read_config_of p
    ret ← exec_loop (on_body body (env.exec_body cfg)) p
    elim ret [ r_success ↦ pure smfis_continue | _ ↦ abort_with cfg.erroraction_conv ]

  unfoldable pub mlfi_eom : Act M SfsiStat
  unfolding read_config_of exec_loop abort_with eom_cleanup
  mlfi_eom = do
    p ← get_priv
    cfg ← read_config_of p
    ret ← exec_loop (env.exec_eom cfg) p
    elim ret [ r_success ↦ eom_cleanup | _ ↦ abort_with cfg.erroraction_conv ]

-- `smfilter`: what libmilter calls between `mlfi_connect` and `mlfi_close`.
pub data Call : Type 0 where
  envfrom : Bytes → Call
  envrcpt : Bytes → Call
  header : Bytes → Bytes → Call
  body : Bytes → Call
  eom abort : Call

unfoldable pub callback : {M : Type 0} → Env M → Call → Act M SfsiStat
unfolding mlfi_envfrom mlfi_envrcpt mlfi_header mlfi_body mlfi_eom mlfi_abort
callback env (envfrom a) = mlfi_envfrom env a
callback env (envrcpt a) = mlfi_envrcpt env a
callback env (header f v) = mlfi_header env f v
callback env (body b) = mlfi_body env b
callback env eom = mlfi_eom env
callback env abort = mlfi_abort env
