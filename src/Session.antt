-- ===== src/Session.antt =====
-- messasy.c: the callbacks of the milter, for one connection, and the loops of msy_readmodule.c
-- over the functions of the modules. libmilter calls them; `ctx` is what it keeps of the connection.
-- `none` is undefined behaviour: a use of NULL or of freed memory. The recipients and the addresses
-- to be saved are lists on stores of their own, since no node moves from one to the other.
pub mod Incoming
pub mod Invariant
pub mod Cleanup
pub mod Abort
pub mod Callbacks
pub mod Headers
pub mod Others
pub mod Connection
pub mod Trace
pub mod Lost
use messasy.Base.{
  ℕ, zero, suc, ◌+◌, Bool, true, false, Option, none, some, List, [], ◌∷◌, ◌++◌, ◌==◌,
  if◌then◌else◌, Bytes, Ret, r_success, r_positive, r_error,
}
use messasy.Config.{Config, SfsiStat, smfis_continue, smfis_accept, from_bit}
use messasy.ConfigStore.{Configs, Entry, config_retrieve, config_release}
use messasy.Serial.{get_sessid}
use messasy.Address.{get_addrpart}
use messasy.Strlist.{
  Ptr, null, Node, Store, Run, ok, fault, out_of_fuel, Cmd, Handle, handle, load, push_strlist,
  free_strlist,
}
use messasy.Filter.{Ldap, make_savelist}

-- `struct mlfiPriv`; `extrapriv` is what the modules keep.
pub record Priv (M : Type 0) : Type 0 where
  pub sid : ℕ
  pub recvtime : ℕ
  pub clientaddr : Bytes
  pub envfrom : Option Bytes
  pub rcptto : Handle
  pub addrmatched : Handle
  pub config : ℕ
  pub extrapriv : M
  pub header_existence : Bool

pub record World (M : Type 0) : Type 0 where
  pub configs : Configs
  pub serialno : ℕ
  pub rcpts : Store
  pub saved : Store
  pub ctx : Option (Priv M)

-- What a callback returns to libmilter, with the world that it leaves.
abbrev pub Act : Type 0 → Type 0 → Type 0
Act M A = World M → Option (A × World M)

abbrev pub then_act : {M A B : Type 0} → Option (A × World M) → (A → Act M B) → Option (B × World M)
then_act none k = none
then_act (some (a, w)) k = k a w

infixl 5 ◌>>=◌ ◌>>◌
abbrev pub ◌>>=◌ : {M A B : Type 0} → Act M A → (A → Act M B) → Act M B
m >>= k = λ w. then_act (m w) k

abbrev pub ◌>>◌ : {M A B : Type 0} → Act M A → Act M B → Act M B
m >> n = m >>= λ _. n

abbrev pub pure : {M A : Type 0} → A → Act M A
pure a w = some (a, w)

-- A function of a module, without the data of the message: whether it returns 0, and what it makes
-- of what the modules keep.
abbrev pub Hook : Type 0 → Type 0
Hook M = World M → Bool × M

-- The code that is not the program's, and the lists of module functions of a configuration.
-- `regex` is none where `cf_saveignoreheader_regex` is NULL.
pub record Env (M : Type 0) : Type 0 where
  pub pid : ℕ
  pub ldap : Ldap
  pub regex : Config → Option (Bytes → Bool)
  pub no_modules : M
  pub exec_header : Config → List (Bytes → Bytes → Hook M)
  pub exec_body : Config → List (Bytes → Hook M)
  pub exec_eom : Config → List (Hook M)
  pub exec_abort : Config → List (Hook M)

unfoldable pub check_header_regex : Bytes → Bytes → (Bytes → Bool) → Ret
check_header_regex headerf headerv preg =
    if preg (headerf ++ (b':' ∷ b' ' ∷ headerv)) then r_positive else r_success

module _ {M : Type 0} where
  -- `MLFIPRIV`, where it is used.
  abbrev pub get_priv : Act M (Priv M)
  get_priv w = elim w.ctx [ none ↦ none | some p ↦ some (p, w) ]

  -- `smfi_setpriv`, and each write to a field of the private data.
  abbrev pub set_priv : Option (Priv M) → Act M (Unit {0})
  set_priv o w = some (tt, record w { ctx = o })

  -- A read of `priv->config`.
  unfoldable pub read_config_of : Priv M → Act M Config
  read_config_of p w = elim (w.configs.at p.config) [ none ↦ none | some e ↦ some (e.cfg, w) ]

  abbrev pub in_store :
      {A : Type 0} → Run A → (A → Store → Option (A × World M)) → Option (A × World M)
  in_store (ok a s) k = k a s
  in_store fault k = none
  in_store out_of_fuel k = none

  -- A command on the list of the recipients, and on that of the addresses to be saved.
  abbrev pub on_rcpts : {A : Type 0} → Cmd A → Act M A
  on_rcpts c w = in_store (c w.rcpts) λ a s. some (a, record w { rcpts = s })

  abbrev pub on_saved : {A : Type 0} → Cmd A → Act M A
  on_saved c w = in_store (c w.saved) λ a s. some (a, record w { saved = s })

  unfoldable pub release_config : ℕ → Act M (Unit {0})
  release_config c w = elim (config_release c w.configs) [
    | none ↦ none
    | some s ↦ some (tt, record w { configs = s })
  ]

  -- The loops of `msy_exec_eoh`, `msy_exec_eom` and `msy_exec_abort`: until a function fails.
  unfoldable pub exec_loop : List (Hook M) → Priv M → Act M Ret
  exec_loop [] p w = some (r_success, w)
  exec_loop (f ∷ fs) p w =
      let p' = record p { extrapriv = (f w).1 } in
      let w' = record w { ctx = some p' } in
      elim (f w).0 [ true ↦ exec_loop fs p' w' | false ↦ some (r_error, w') ]

  -- `free_strlist(...); priv->... = NULL`, where the list is not NULL.
  unfoldable pub free_rcptto : Priv M → Act M (Priv M)
  free_rcptto p =
      if p.rcptto.head == null
      then pure p
      else on_rcpts (free_strlist p.rcptto.head)
        >> pure (record p { rcptto = handle null p.rcptto.tail })

  unfoldable pub free_addrmatched : Priv M → Act M (Priv M)
  free_addrmatched p =
      if p.addrmatched.head == null
      then pure p
      else on_saved (free_strlist p.addrmatched.head)
        >> pure (record p { addrmatched = handle null p.addrmatched.tail })

  unfoldable pub free_lists : Priv M → Act M (Priv M)
  unfolding free_rcptto free_addrmatched
  free_lists p = do q ← free_rcptto p; free_addrmatched q

  unfoldable pub eom_cleanup : Act M SfsiStat
  unfolding free_lists
  eom_cleanup w = elim w.ctx [
    | none ↦ some (smfis_continue, w)
    | some p ↦
        then_act (free_lists (record p { envfrom = none }) w)
          λ q. set_priv (some (record q { header_existence = false })) >> pure smfis_continue
  ]

  unfoldable pub mlfi_cleanup : Act M SfsiStat
  unfolding free_lists release_config
  mlfi_cleanup w = elim w.ctx [
    | none ↦ some (smfis_continue, w)
    | some p ↦ then_act ((if p.config == 0 then pure tt else release_config p.config) w) λ _.
        free_lists (record p { config = 0; envfrom = none }) >>= λ q.
        set_priv none >> pure smfis_continue
  ]

  unfoldable pub mlfi_freepriv : Act M SfsiStat
  unfolding release_config
  mlfi_freepriv w = elim w.ctx [
    | none ↦ some (smfis_accept, w)
    | some p ↦
        then_act ((if p.config == 0 then pure tt else release_config p.config) w)
          λ _. set_priv none >> pure smfis_accept
  ]

  unfoldable pub mlfi_close : Act M SfsiStat
  unfolding mlfi_freepriv
  mlfi_close = mlfi_freepriv

-- The addresses of a list that is only read, by its nodes.
read_loop : ℕ → Ptr → Cmd (List Bytes)
unfolding load
read_loop zero p s = out_of_fuel
read_loop (suc k) p s = if p == null then ok [] s else elim (load p s) [
  | ok n t ↦ elim (read_loop k n.next t) [
    | ok vs u ↦ ok (n.str ∷ vs) u
    | fault ↦ fault
    | out_of_fuel ↦ out_of_fuel
  ]
  | fault ↦ fault
  | out_of_fuel ↦ out_of_fuel
]

unfoldable pub read_strlist : Ptr → Cmd (List Bytes)
unfolding read_loop
read_strlist p s = read_loop (s.brk + 1) p s
