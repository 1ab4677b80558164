-- ===== src/Tests.antt =====
-- Data for the examples: a configuration, an empty store, and LDAP servers.
pub mod StrlistTests
pub mod TextTests
pub mod ManagerTests
pub mod FilterTests
pub mod ConfigTests
pub mod MailTests
pub mod AddressTests
pub mod LdaTests
pub mod ReadConfigTests
pub mod SessionTests
pub use messasy.CString.{bytes}
use messasy.Base.{ℕ, true, false, none, some, List, [], ◌∷◌, ◌==◌, if◌then◌else◌, Bytes}
use messasy.Config.{Config, smfis_tempfail, both, subtree}
use messasy.Filter.{Ldap}
use messasy.Strlist.{Store, Node, node, write}

abbrev pub empty : Store
empty = record { cells = λ a. none; brk = 1 }

-- A list of two nodes.
abbrev pub two_nodes : Store
two_nodes = record {
  cells = λ a.
      if a == 1
      then some (node (bytes "a") 2)
      else if a == 2
      then some (node (bytes "b") 0)
      else none;
  brk = 3;
}

abbrev pub test_config : Config
test_config = record {
  adminpassword = bytes "pw";
  commandmaxclients = 2;
  erroraction = bytes "Reject";
  savepolicy = bytes "both";
  mydomain = bytes "a.b,c.d,a.b";
  savemailaddress = bytes "x@a.b,";
  saveignoreheader = some [];
  defaultdomain = bytes "a.b";
  ldapcheck = 1;
  ldapserver = bytes "127.0.0.1";
  ldapport = 389;
  ldapbinddn = some [];
  ldapbindpassword = some [];
  ldapbasedn = some [];
  ldapmailfilter = some (bytes "(mail=%M)");
  ldapscope = bytes "subtree";
  ldaptimeout = 5;
  erroraction_conv = smfis_tempfail;
  savepolicy_conv = both;
  ldapscope_conv = subtree;
  mydomain_list = bytes "a.b" ∷ [];
  savemailaddress_list = bytes "x@a.b" ∷ [];
}

-- Every address is found.
abbrev pub ldap_up : Ldap
ldap_up = record {
  opens = λ server port. true;
  sets_timeout = λ t. true;
  binds = λ dn pw. true;
  search = λ k base scope filter. some 1;
}

abbrev pub ldap_down : Ldap
ldap_down = record ldap_up { opens = λ server port. false }

-- Only the first search is answered.
abbrev pub ldap_failing : Ldap
ldap_failing = record ldap_up { search = λ k base scope filter. if k == 0 then some 1 else none }
