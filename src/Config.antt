-- ===== src/Config.antt =====
-- msy_config.h: the fields of `struct config` that the modelled code reads. The lists of modules
-- are kept with the milter, the reference count with the store of configurations.
use messasy.Base.{ℕ, Bool, Option, List, Bytes}

-- `SMFIS_CONTINUE`, `SMFIS_REJECT`, `SMFIS_ACCEPT` and `SMFIS_TEMPFAIL` of libmilter.
pub data SfsiStat : Type 0 where
  smfis_continue smfis_reject smfis_accept smfis_tempfail : SfsiStat

-- `NONE`, `ONLYFROM`, `ONLYTO` and `BOTH`; `FROM` is 1 and `TO` is 2.
pub data Policy : Type 0 where
  none only_from only_to both : Policy

-- `FROM & cf_savepolicy_conv` and `TO & cf_savepolicy_conv`
unfoldable pub from_bit : Policy → Bool
from_bit only_from = Bool.true
from_bit both = Bool.true
from_bit _ = Bool.false

unfoldable pub to_bit : Policy → Bool
to_bit only_to = Bool.true
to_bit both = Bool.true
to_bit _ = Bool.false

pub data LdapScope : Type 0 where
  onelevel subtree : LdapScope

-- The strings that may be NULL once `set_config` has succeeded are optional.
pub record Config : Type 0 where
  pub adminpassword : Bytes
  pub commandmaxclients : ℕ
  pub erroraction : Bytes
  pub savepolicy : Bytes
  pub mydomain : Bytes
  pub savemailaddress : Bytes
  pub saveignoreheader : Option Bytes
  pub defaultdomain : Bytes
  pub ldapcheck : ℕ
  pub ldapserver : Bytes
  pub ldapport : ℕ
  pub ldapbinddn : Option Bytes
  pub ldapbindpassword : Option Bytes
  pub ldapbasedn : Option Bytes
  pub ldapmailfilter : Option Bytes
  pub ldapscope : Bytes
  pub ldaptimeout : ℕ
  pub erroraction_conv : SfsiStat
  pub savepolicy_conv : Policy
  pub ldapscope_conv : LdapScope
  pub mydomain_list : List Bytes
  pub savemailaddress_list : List Bytes
