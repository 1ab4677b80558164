-- ===== src/Convert.antt =====
-- msy_config.c and libdgconfig.c: the checks of the values of the configuration file, and the
-- conversions that follow. A check gives true for NULL, which is no error. `inet_aton` and
-- `regcomp` are parameters.
pub mod Total
use messasy.Base.{
  ℕ, zero, suc, ◌+◌, Bool, true, false, ◌&&◌, ◌||◌, not, Option, none, some, List, [], ◌∷◌, leb,
  ◌==◌, if◌then◌else◌, Bytes, Ret, r_success, r_error,
}
use messasy.CString.{str_eq, str_case_eq, strchr, within, is_empty}
use messasy.Config.{
  Config, SfsiStat, Policy, LdapScope, smfis_accept, smfis_reject, smfis_tempfail, both, only_from,
  only_to, onelevel, subtree,
}
use messasy.Strlist.{Cmd, pure, ◌>>=◌, Handle, handle, null, split_comma}

abbrev pub str_accept : Bytes
str_accept = b'a' ∷ b'c' ∷ b'c' ∷ b'e' ∷ b'p' ∷ b't' ∷ []

abbrev pub str_reject : Bytes
str_reject = b'r' ∷ b'e' ∷ b'j' ∷ b'e' ∷ b'c' ∷ b't' ∷ []

abbrev pub str_tempfail : Bytes
str_tempfail = b't' ∷ b'e' ∷ b'm' ∷ b'p' ∷ b'f' ∷ b'a' ∷ b'i' ∷ b'l' ∷ []

abbrev pub str_both : Bytes
str_both = b'b' ∷ b'o' ∷ b't' ∷ b'h' ∷ []

abbrev pub str_onlyfrom : Bytes
str_onlyfrom = b'o' ∷ b'n' ∷ b'l' ∷ b'y' ∷ b'f' ∷ b'r' ∷ b'o' ∷ b'm' ∷ []

abbrev pub str_onlyto : Bytes
str_onlyto = b'o' ∷ b'n' ∷ b'l' ∷ b'y' ∷ b't' ∷ b'o' ∷ []

abbrev pub str_none : Bytes
str_none = b'n' ∷ b'o' ∷ b'n' ∷ b'e' ∷ []

abbrev pub str_onelevel : Bytes
str_onelevel = b'o' ∷ b'n' ∷ b'e' ∷ b'l' ∷ b'e' ∷ b'v' ∷ b'e' ∷ b'l' ∷ []

abbrev pub str_subtree : Bytes
str_subtree = b's' ∷ b'u' ∷ b'b' ∷ b't' ∷ b'r' ∷ b'e' ∷ b'e' ∷ []

abbrev pub facility_stderr : Bytes
facility_stderr = b's' ∷ b't' ∷ b'd' ∷ b'e' ∷ b'r' ∷ b'r' ∷ []

abbrev pub facility_none : Bytes
facility_none = b'n' ∷ b'o' ∷ b'n' ∷ b'e' ∷ []

-- Values are `int`s that are not negative; `INT_MAX` is the largest.
abbrev pub int_max : ℕ
int_max = 2147483647

unfoldable pub is_timeout : ℕ → Bool
is_timeout value = within 1 int_max value

unfoldable pub is_commandmaxclients : ℕ → Bool
is_commandmaxclients value = within 1 65535 value

unfoldable pub is_port : ℕ → Bool
is_port value = leb value 65535

unfoldable pub is_boolean : ℕ → Bool
is_boolean value = value == 0 || value == 1

unfoldable pub is_erroraction : Bytes → Bool
is_erroraction str =
    str_case_eq str str_accept || (str_case_eq str str_reject || str_case_eq str str_tempfail)

unfoldable pub is_savepolicy : Bytes → Bool
is_savepolicy str =
    str_case_eq str str_both
    || (str_case_eq str str_onlyfrom || (str_case_eq str str_onlyto || str_case_eq str str_none))

unfoldable pub is_not_null : Bytes → Bool
is_not_null [] = false
is_not_null (_ ∷ _) = true

-- It is `strcmp` here, where the conversion has `strcasecmp`.
unfoldable pub is_ldapscope : Bytes → Bool
is_ldapscope str = str_eq str str_onelevel || str_eq str str_subtree

unfoldable pub count_dots : Bytes → ℕ
count_dots [] = 0
count_dots (c ∷ cs) = let rest = count_dots cs in if c == b'.' then suc rest else rest

-- Its first argument says whether `inet_aton` accepts the string.
unfoldable pub is_ipaddr : (Bytes → Bool) → Bytes → Bool
unfolding count_dots
is_ipaddr inet_aton str = inet_aton str && count_dots str == 3

unfoldable pub is_mailaddr : Bytes → Bool
is_mailaddr str = elim (strchr str b'@') [
  | none ↦ false
  | some _ ↦ elim (strchr str b'.') [ none ↦ false | some _ ↦ true ]
]

unfoldable pub conv_erroraction : Config → Ret × Config
conv_erroraction cfg =
    if str_case_eq cfg.erroraction str_accept
    then (r_success, record cfg { erroraction_conv = smfis_accept })
    else if str_case_eq cfg.erroraction str_reject
    then (r_success, record cfg { erroraction_conv = smfis_reject })
    else if str_case_eq cfg.erroraction str_tempfail
    then (r_success, record cfg { erroraction_conv = smfis_tempfail })
    else (r_error, cfg)

unfoldable pub conv_savepolicy : Config → Ret × Config
conv_savepolicy cfg =
    if str_case_eq cfg.savepolicy str_both
    then (r_success, record cfg { savepolicy_conv = both })
    else if str_case_eq cfg.savepolicy str_onlyfrom
    then (r_success, record cfg { savepolicy_conv = only_from })
    else if str_case_eq cfg.savepolicy str_onlyto
    then (r_success, record cfg { savepolicy_conv = only_to })
    else if str_case_eq cfg.savepolicy str_none
    then (r_success, record cfg { savepolicy_conv = Policy.none })
    else (r_error, cfg)

unfoldable pub conv_ldapscope : Config → Ret × Config
conv_ldapscope cfg =
    if str_case_eq cfg.ldapscope str_onelevel
    then (r_success, record cfg { ldapscope_conv = onelevel })
    else if str_case_eq cfg.ldapscope str_subtree
    then (r_success, record cfg { ldapscope_conv = subtree })
    else (r_error, cfg)

-- Whether `regcomp` accepts the pattern; an empty one is not compiled, and neither is NULL.
unfoldable pub conv_saveignoreheader : (Bytes → Bool) → Config → Ret
conv_saveignoreheader regcomp cfg = elim cfg.saveignoreheader [
  | none ↦ r_success
  | some pattern ↦
      if is_empty pattern then r_success else if regcomp pattern then r_success else r_error
]

-- The configuration, and the two lists that are made.
pub record Converted : Type 0 where
  pub cfg : Config
  pub mydomain : Handle
  pub savemailaddress : Handle

-- The lists of a configuration that is not converted are NULL.
unfoldable pub stop : Config → Cmd (Ret × Converted)
stop cfg =
    pure (
      r_error,
      record { cfg = cfg; mydomain = handle null null; savemailaddress = handle null null },
    )

make_lists : Config → Cmd (Ret × Converted)
make_lists cfg = do
  d ← split_comma cfg.mydomain
  m ← split_comma cfg.savemailaddress
  pure (r_success, record { cfg = cfg; mydomain = d; savemailaddress = m })

-- One conversion, and what follows it.
unfoldable pub and_next : Ret × Config → (Config → Cmd (Ret × Converted)) → Cmd (Ret × Converted)
unfolding stop
and_next (r_success, cfg) next = next cfg
and_next (_, cfg) next = stop cfg

unfoldable pub conv_config : (Bytes → Bool) → Config → Cmd (Ret × Converted)
unfolding and_next make_lists
conv_config regcomp cfg = and_next (conv_erroraction cfg) (λ c1.
    and_next (conv_savepolicy c1) (λ c2.
      and_next (conv_ldapscope c2)
        (λ c3. and_next (conv_saveignoreheader regcomp c3, c3) make_lists)))

-- Whether a name is in `facilitynames`, so that `syslog_facility` is not negative.
unfoldable pub syslog_facility : List Bytes → Bytes → Bool
syslog_facility [] str = false
syslog_facility (n ∷ ns) str = str_case_eq str n || syslog_facility ns str

unfoldable pub is_syslog_facility : List Bytes → Bytes → Bool
unfolding syslog_facility
is_syslog_facility facilities str =
    str_case_eq str facility_stderr
    || (str_case_eq str facility_none || syslog_facility facilities str)
