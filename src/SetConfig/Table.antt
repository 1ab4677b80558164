-- ===== src/SetConfig/Table.antt =====
-- msy_config.c: the table `cfe` of the entries of the configuration file. The offset of a field is
-- its place in the table. `inet_aton` and the names of `facilitynames` are parameters.
use messasy.Base.{ℕ, Bool, Option, none, some, List, [], ◌∷◌, Bytes}
use messasy.CString.{bytes}
use messasy.Convert.{
  is_timeout, is_commandmaxclients, is_port, is_boolean, is_erroraction, is_savepolicy, is_not_null,
  is_ldapscope, is_ipaddr, is_syslog_facility,
}
use messasy.ReadConfig.{CfType, cf_integer, cf_int_plus, cf_string, CfEntry}

abbrev pub cf_listenip : ℕ
cf_listenip = 0

abbrev pub cf_listenport : ℕ
cf_listenport = 1

abbrev pub cf_timeout : ℕ
cf_timeout = 2

abbrev pub cf_syslogfacility : ℕ
cf_syslogfacility = 3

abbrev pub cf_erroraction : ℕ
cf_erroraction = 4

abbrev pub cf_commandport : ℕ
cf_commandport = 5

abbrev pub cf_adminpassword : ℕ
cf_adminpassword = 6

abbrev pub cf_commandmaxclients : ℕ
cf_commandmaxclients = 7

abbrev pub cf_commandtimeout : ℕ
cf_commandtimeout = 8

abbrev pub cf_savepolicy : ℕ
cf_savepolicy = 9

abbrev pub cf_mydomain : ℕ
cf_mydomain = 10

abbrev pub cf_savemailaddress : ℕ
cf_savemailaddress = 11

abbrev pub cf_saveignoreheader : ℕ
cf_saveignoreheader = 12

abbrev pub cf_defaultdomain : ℕ
cf_defaultdomain = 13

abbrev pub cf_ldapcheck : ℕ
cf_ldapcheck = 14

abbrev pub cf_ldapserver : ℕ
cf_ldapserver = 15

abbrev pub cf_ldapport : ℕ
cf_ldapport = 16

abbrev pub cf_ldapbinddn : ℕ
cf_ldapbinddn = 17

abbrev pub cf_ldapbindpassword : ℕ
cf_ldapbindpassword = 18

abbrev pub cf_ldapbasedn : ℕ
cf_ldapbasedn = 19

abbrev pub cf_ldapmailfilter : ℕ
cf_ldapmailfilter = 20

abbrev pub cf_ldapscope : ℕ
cf_ldapscope = 21

abbrev pub cf_ldaptimeout : ℕ
cf_ldaptimeout = 22

abbrev pub cfe_entry :
    Bytes → CfType → Option Bytes → ℕ → Option (ℕ → Bool) → Option (Bytes → Bool) → CfEntry
cfe_entry n t d o i s = record {
  cf_name = n;
  cf_type = t;
  cf_default = d;
  cf_dataoffset = o;
  int_check = i;
  str_check = s;
}

unfoldable pub cfe : (Bytes → Bool) → List Bytes → List CfEntry
cfe inet_aton facilities =
    cfe_entry (bytes "ListenIP") cf_string (some (bytes "127.0.0.1")) cf_listenip none
      (some (is_ipaddr inet_aton))
    ∷ cfe_entry (bytes "ListenPort") cf_int_plus (some (bytes "20026")) cf_listenport (some is_port)
        none
    ∷ cfe_entry (bytes "TimeOut") cf_int_plus (some (bytes "10")) cf_timeout (some is_timeout) none
    ∷ cfe_entry (bytes "SyslogFacility") cf_string (some (bytes "local1")) cf_syslogfacility none
        (some (is_syslog_facility facilities))
    ∷ cfe_entry (bytes "ErrorAction") cf_string (some (bytes "tempfail")) cf_erroraction none
        (some is_erroraction)
    ∷ cfe_entry (bytes "CommandPort") cf_int_plus (some (bytes "17777")) cf_commandport
        (some is_port) none
    ∷ cfe_entry (bytes "AdminPassword") cf_string none cf_adminpassword none none
    ∷ cfe_entry (bytes "CommandMaxClients") cf_int_plus (some (bytes "16")) cf_commandmaxclients
        (some is_commandmaxclients) none
    ∷ cfe_entry (bytes "CommandTimeOut") cf_int_plus (some (bytes "300")) cf_commandtimeout
        (some is_timeout) none
    ∷ cfe_entry (bytes "SavePolicy") cf_string (some (bytes "both")) cf_savepolicy none
        (some is_savepolicy)
    ∷ cfe_entry (bytes "MyDomain") cf_string none cf_mydomain none none
    ∷ cfe_entry (bytes "SaveMailAddress") cf_string none cf_savemailaddress none none
    ∷ cfe_entry (bytes "SaveIgnoreHeader") cf_string (some []) cf_saveignoreheader none none
    ∷ cfe_entry (bytes "DefaultDomain") cf_string (some (bytes "localhost.localdomain"))
        cf_defaultdomain none (some is_not_null)
    ∷ cfe_entry (bytes "LdapCheck") cf_integer (some (b'0' ∷ [])) cf_ldapcheck (some is_boolean)
        none
    ∷ cfe_entry (bytes "LdapServer") cf_string (some (bytes "127.0.0.1")) cf_ldapserver none
        (some (is_ipaddr inet_aton))
    ∷ cfe_entry (bytes "LdapPort") cf_int_plus (some (bytes "389")) cf_ldapport (some is_port) none
    ∷ cfe_entry (bytes "LdapBindDn") cf_string (some []) cf_ldapbinddn none none
    ∷ cfe_entry (bytes "LdapBindPassword") cf_string (some []) cf_ldapbindpassword none none
    ∷ cfe_entry (bytes "LdapBaseDn") cf_string (some []) cf_ldapbasedn none none
    ∷ cfe_entry (bytes "LdapMailFilter") cf_string (some (bytes "(mail=%M)")) cf_ldapmailfilter none
        none
    ∷ cfe_entry (bytes "LdapScope") cf_string (some (bytes "subtree")) cf_ldapscope none
        (some is_ldapscope)
    ∷ cfe_entry (bytes "LdapTimeout") cf_int_plus (some (b'5' ∷ [])) cf_ldaptimeout
        (some is_timeout) none
    ∷ []
