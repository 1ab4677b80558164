-- ===== src/SetConfig.antt =====
-- msy_config.c: `set_config`, which reads the configuration file, checks the values that are
-- mandatory, and converts them.
pub mod Table
pub mod Entries
pub mod Loads
use messasy.Base.{
  ℕ, Bool, true, false, ◌||◌, not, Option, none, some, List, [], ◌∷◌, ◌++◌, ◌==◌, if◌then◌else◌,
  Bytes, Ret, r_success,
}
use messasy.Config.{Config, smfis_continue, onelevel}
use messasy.Config.{Policy}
use messasy.Strlist.{Cmd, pure, ◌>>=◌, out_of_fuel}
use messasy.Convert.{Converted, conv_config, is_syslog_facility}
use messasy.ReadConfig.{CfEntry, Datum, untouched, number, copy, Env, Status, errors, read_config}
use messasy.SetConfig.Table.{
  cfe, cf_listenport, cf_syslogfacility, cf_erroraction, cf_commandport, cf_adminpassword,
  cf_commandmaxclients, cf_savepolicy, cf_mydomain, cf_savemailaddress, cf_saveignoreheader,
  cf_defaultdomain, cf_ldapcheck, cf_ldapserver, cf_ldapport, cf_ldapbinddn, cf_ldapbindpassword,
  cf_ldapbasedn, cf_ldapmailfilter, cf_ldapscope, cf_ldaptimeout,
}

-- What is outside of the function: memory, the C library, and the functions of the modules, which
-- may fail, or add entries to the table, and change the values that are read.
pub record Outside : Type 0 where
  pub env : Env
  pub inet_aton : Bytes → Bool
  pub regcomp : Bytes → Bool
  pub facilities : List Bytes
  pub module_init : Option (List CfEntry)
  pub modconfig : (ℕ → Datum) → ℕ → Datum
  pub is_enomem : Bool

-- The process ends, `R_ERROR` with the structure freed, or `R_SUCCESS`.
pub data SetResult : Type 0 where
  exits fails : SetResult
  loaded : Converted → SetResult

-- `init_config`
unfoldable pub init_config : ℕ → Datum
init_config k = untouched

-- A test of a pointer for NULL, and of a number for 0.
unfoldable pub is_null : Datum → Bool
is_null untouched = true
is_null (number n) = n == 0
is_null (copy s) = false

-- A string that the checks leave not NULL.
unfoldable pub as_string : Datum → Bytes
as_string (copy s) = s
as_string _ = []

-- A string, or NULL.
unfoldable pub as_pointer : Datum → Option Bytes
as_pointer (copy s) = some s
as_pointer _ = none

unfoldable pub as_int : Datum → ℕ
as_int (number n) = n
as_int _ = 0

-- The structure as the other code sees it, what is not converted yet zero.
unfoldable pub get_config : (ℕ → Datum) → Config
unfolding as_string as_pointer as_int
get_config m = record {
  adminpassword = as_string (m cf_adminpassword);
  commandmaxclients = as_int (m cf_commandmaxclients);
  erroraction = as_string (m cf_erroraction);
  savepolicy = as_string (m cf_savepolicy);
  mydomain = as_string (m cf_mydomain);
  savemailaddress = as_string (m cf_savemailaddress);
  saveignoreheader = as_pointer (m cf_saveignoreheader);
  defaultdomain = as_string (m cf_defaultdomain);
  ldapcheck = as_int (m cf_ldapcheck);
  ldapserver = as_string (m cf_ldapserver);
  ldapport = as_int (m cf_ldapport);
  ldapbinddn = as_pointer (m cf_ldapbinddn);
  ldapbindpassword = as_pointer (m cf_ldapbindpassword);
  ldapbasedn = as_pointer (m cf_ldapbasedn);
  ldapmailfilter = as_pointer (m cf_ldapmailfilter);
  ldapscope = as_string (m cf_ldapscope);
  ldaptimeout = as_int (m cf_ldaptimeout);
  erroraction_conv = smfis_continue;
  savepolicy_conv = Policy.none;
  ldapscope_conv = onelevel;
  mydomain_list = [];
  savemailaddress_list = [];
}

-- A value that has to be set is not.
unfoldable pub lacks : (ℕ → Datum) → Bool
unfolding is_null
lacks m =
    is_null (m cf_adminpassword)
    || (is_null (m cf_mydomain)
        || (is_null (m cf_savemailaddress)
            || (is_null (m cf_listenport)
                || (is_null (m cf_commandport) || is_null (m cf_ldapport)))))

module _ (o : Outside) where
  -- The conversion of the values, and the last check.
  unfoldable pub check_converted : (ℕ → Datum) → Ret × Converted → Cmd SetResult
  check_converted m (r_success, c) =
      if is_syslog_facility o.facilities (as_string (m cf_syslogfacility))
      then pure (loaded c)
      else pure fails
  check_converted m (_, c) = pure fails

  unfoldable pub check_config : (ℕ → Datum) → Cmd SetResult
  unfolding lacks check_converted
  check_config m =
      if lacks m then pure fails else (conv_config o.regcomp (get_config m) >>= check_converted m)

  -- What follows `read_config`.
  unfoldable pub after_read : Option (Status × (ℕ → Datum)) → Cmd SetResult
  unfolding check_config
  after_read none = λ s. out_of_fuel
  after_read (some (errors n, m)) =
      if n == 0
      then check_config (o.modconfig m)
      else if o.is_enomem
      then pure exits
      else pure fails
  after_read (some (_, m)) = if o.is_enomem then pure exits else pure fails

  -- The table of the entries is what `msy_module_init` gives; `read_config` reads by it.
  unfoldable pub read_table : Option Bytes → Option (List CfEntry) → Cmd SetResult
  unfolding after_read
  read_table file none = pure fails
  read_table file (some xs) =
      after_read (read_config o.env file (cfe o.inet_aton o.facilities ++ xs) init_config)

  -- The contents of the file, when it can be read.
  unfoldable pub set_config : Option Bytes → Cmd SetResult
  unfolding read_table
  set_config file = read_table file o.module_init
