-- ===== src/Convert/Total.antt =====
-- What the checks of the values leave for the conversions to refuse.
use messasy.Base.{
  sym, Option, none, some, r_error, false, if◌then◌else◌, [], Option-cases, ◌<◌, ◌≡◌, ◌↔◌, refl,
  Bool, true, ◌||◌, List, Bytes, Ret, r_success, arith, Bool-cases, inl, inr,
}
use mathlib.Core.Path.{subst}
use messasy.CString.{bytes, str_eq, str_case_eq, is_empty}
use messasy.CString.Laws.{str_eq_iff, str_case_eq_refl}
use messasy.Config.{
  Config, SfsiStat, Policy, LdapScope, smfis_accept, smfis_reject, smfis_tempfail, smfis_continue,
  both, only_from, only_to, onelevel, subtree,
}
use messasy.Strlist.{Store, Handle}
use messasy.Strlist.Chain.{Cells, IsStrlist, strings, frame, Chain-lt}
use messasy.Strlist.Split.{uniq_pieces, split_comma-Lists}
use messasy.Strlist.Returns
use messasy.Strlist.Returns.{Returns, returns}
use messasy.Convert.{
  is_erroraction, is_savepolicy, is_ldapscope, conv_erroraction, conv_savepolicy, conv_ldapscope,
  conv_saveignoreheader, conv_config, and_next, make_lists, Converted, str_accept, str_reject,
  str_tempfail, str_none, str_both, str_onlyfrom, str_onlyto, str_onelevel, str_subtree,
}

-- `conv_erroraction` succeeds just for the values that `is_erroraction` accepts.
conv_erroraction_iff :
    (cfg : Config)
    → ((conv_erroraction cfg).0 ≡ r_success) ↔ (is_erroraction cfg.erroraction ≡ true)
unfolding conv_erroraction is_erroraction
conv_erroraction_iff cfg = (λ h. ground (arith, h), λ h. ground (arith, h))

-- `conv_savepolicy` succeeds just for the values that `is_savepolicy` accepts.
conv_savepolicy_iff :
    (cfg : Config) → ((conv_savepolicy cfg).0 ≡ r_success) ↔ (is_savepolicy cfg.savepolicy ≡ true)
unfolding conv_savepolicy is_savepolicy
conv_savepolicy_iff cfg = (λ h. ground (arith, h), λ h. ground (arith, h))

same_case : (a b : Bytes) → str_eq a b ≡ true → str_case_eq a b ≡ true
same_case a b h = rw ((str_eq_iff a b).0 h) (str_case_eq_refl b)

-- `conv_ldapscope` succeeds for the values that `is_ldapscope` accepts.
pub conv_ldapscope-is_ldapscope :
    (cfg : Config) → is_ldapscope cfg.ldapscope ≡ true → (conv_ldapscope cfg).0 ≡ r_success
unfolding conv_ldapscope is_ldapscope
conv_ldapscope-is_ldapscope cfg h =
    ground (arith, same_case cfg.ldapscope str_onelevel, same_case cfg.ldapscope str_subtree)

-- A list of its own nodes.
abbrev pub Holds : Store → Handle → List Bytes → Type 0
Holds t l strs = (xs : Cells) × IsStrlist t l xs × (strings xs ≡ strs)

-- The names of the values, as the configuration file has them.
abbrev pub action_name : SfsiStat → Bytes
action_name smfis_accept = bytes "accept"
action_name smfis_reject = bytes "reject"
action_name smfis_tempfail = bytes "tempfail"
action_name smfis_continue = []

abbrev pub policy_name : Policy → Bytes
policy_name both = bytes "both"
policy_name only_from = bytes "onlyfrom"
policy_name only_to = bytes "onlyto"
policy_name Policy.none = bytes "none"

abbrev pub scope_name : LdapScope → Bytes
scope_name onelevel = bytes "onelevel"
scope_name subtree = bytes "subtree"

-- Each converted value is the one that the string names, and the other fields are as they were.
abbrev pub IsNamed : Config → Config → Type 0
IsNamed cfg d =
    (d ≡ record cfg {
      erroraction_conv = d.erroraction_conv;
      savepolicy_conv = d.savepolicy_conv;
      ldapscope_conv = d.ldapscope_conv;
    })
    × (str_case_eq cfg.erroraction (action_name d.erroraction_conv) ≡ true)
    × (str_case_eq cfg.savepolicy (policy_name d.savepolicy_conv) ≡ true)
    × (str_case_eq cfg.ldapscope (scope_name d.ldapscope_conv) ≡ true)

abbrev pub HasLists : Config → Converted → Store → Type 0
HasLists cfg c t =
    Holds t c.mydomain (uniq_pieces cfg.mydomain)
    × Holds t c.savemailaddress (uniq_pieces cfg.savemailaddress)

abbrev pub IsConverted : Config → Ret × Converted → Store → Type 0
IsConverted cfg r t = (r.0 ≡ r_success) × IsNamed cfg r.1.cfg × HasLists cfg r.1 t

make_lists-HasLists :
    (cfg : Config) (s : Store)
    → 0 < s.brk
    → Returns (λ r t. (r.0 ≡ r_success) × (r.1.cfg ≡ cfg) × HasLists cfg r.1 t) (make_lists cfg s)
unfolding make_lists
make_lists-HasLists cfg s pos = Returns.bind (split_comma-Lists cfg.mydomain s pos) λ d t q.
    Returns.bind (split_comma-Lists cfg.savemailaddress t (omega (arith, q.frame.grows))) λ m u r.
      returns (
        refl,
        refl,
        (
          (
            q.nodes,
            record {
              chain =
                  frame t u 0 q.nodes q.is.chain
                    (λ a h. r.frame.same a (Chain-lt t 0 q.nodes q.is.chain a h) refl)
                    r.frame.grows;
              head = q.is.head;
              tail = q.is.tail;
            },
            q.holds,
          ),
          (r.nodes, r.is, r.holds),
        ),
      )

erroraction_done :
    (cfg : Config)
    → is_erroraction cfg.erroraction ≡ true
    → (x : SfsiStat) × (conv_erroraction cfg ≡ (r_success, record cfg { erroraction_conv = x }))
      × (str_case_eq cfg.erroraction (action_name x) ≡ true)
unfolding conv_erroraction is_erroraction
erroraction_done cfg h = elim (Bool-cases (str_case_eq cfg.erroraction str_accept)) [
  | inl a ↦ (smfis_accept, rw a refl, a)
  | inr a ↦ elim (Bool-cases (str_case_eq cfg.erroraction str_reject)) [
    | inl b ↦ (smfis_reject, rw (a, b) refl, b)
    | inr b ↦
        let c : str_case_eq cfg.erroraction str_tempfail ≡ true = rw (a, b) at h in
        (smfis_tempfail, rw (a, b, c) refl, c)
  ]
]

savepolicy_done :
    (cfg : Config)
    → is_savepolicy cfg.savepolicy ≡ true
    → (x : Policy) × (conv_savepolicy cfg ≡ (r_success, record cfg { savepolicy_conv = x }))
      × (str_case_eq cfg.savepolicy (policy_name x) ≡ true)
unfolding conv_savepolicy is_savepolicy
savepolicy_done cfg h = elim (Bool-cases (str_case_eq cfg.savepolicy str_both)) [
  | inl a ↦ (both, rw a refl, a)
  | inr a ↦ elim (Bool-cases (str_case_eq cfg.savepolicy str_onlyfrom)) [
    | inl b ↦ (only_from, rw (a, b) refl, b)
    | inr b ↦ elim (Bool-cases (str_case_eq cfg.savepolicy str_onlyto)) [
      | inl c ↦ (only_to, rw (a, b, c) refl, c)
      | inr c ↦
          let d : str_case_eq cfg.savepolicy str_none ≡ true = rw (a, b, c) at h in
          (Policy.none, rw (a, b, c, d) refl, d)
    ]
  ]
]

ldapscope_done :
    (cfg : Config)
    → is_ldapscope cfg.ldapscope ≡ true
    → (x : LdapScope) × (conv_ldapscope cfg ≡ (r_success, record cfg { ldapscope_conv = x }))
      × (str_case_eq cfg.ldapscope (scope_name x) ≡ true)
unfolding conv_ldapscope is_ldapscope
ldapscope_done cfg h = elim (Bool-cases (str_case_eq cfg.ldapscope str_onelevel)) [
  | inl a ↦ (onelevel, rw a refl, a)
  | inr a ↦
      let b : str_case_eq cfg.ldapscope str_subtree ≡ true =
        ground (arith, same_case cfg.ldapscope str_onelevel, same_case cfg.ldapscope str_subtree) in
      (subtree, rw (a, b) refl, b)
]

-- `SaveIgnoreHeader` is not set, or empty, or a pattern that `regcomp` accepts.
abbrev pub has_pattern : (Bytes → Bool) → Option Bytes → Bool
has_pattern regcomp none = true
has_pattern regcomp (some pattern) = is_empty pattern || regcomp pattern

saveignoreheader_done :
    (regcomp : Bytes → Bool) (cfg : Config)
    → has_pattern regcomp cfg.saveignoreheader ≡ true
    → conv_saveignoreheader regcomp cfg ≡ r_success
unfolding conv_saveignoreheader
saveignoreheader_done regcomp cfg h = elim (Option-cases cfg.saveignoreheader) [
  | inl e ↦ rw (e, conv_saveignoreheader) refl
  | inr (p, e) ↦
      let q : (is_empty p || regcomp p) ≡ true = rw e at h in
      rw (e, conv_saveignoreheader) (accepted (is_empty p) (regcomp p) q)
]
  where
    accepted :
        (a b : Bool)
        → (a || b) ≡ true
        → (if a then r_success else if b then r_success else r_error) ≡ r_success
    accepted true b h = refl
    accepted false true h = refl
    accepted false false h = cc

-- A configuration whose values have passed their checks, and whose pattern is NULL, empty or one
-- that `regcomp` accepts, is converted: `ErrorAction`, `SavePolicy` and `LdapScope` become the
-- values that they name, in any case of letters, no other value of the file changes, and the two
-- lists hold the pieces of `MyDomain` and of `SaveMailAddress`, each once.
pub conv_config-IsConverted :
    (regcomp : Bytes → Bool) (cfg : Config) (s : Store)
    → 0 < s.brk
    → is_erroraction cfg.erroraction ≡ true
    → is_savepolicy cfg.savepolicy ≡ true
    → is_ldapscope cfg.ldapscope ≡ true
    → has_pattern regcomp cfg.saveignoreheader ≡ true
    → Returns (IsConverted cfg) (conv_config regcomp cfg s)
unfolding conv_config and_next
conv_config-IsConverted regcomp cfg s pos ea sp ls re =
    let (x, e1, n1) = erroraction_done cfg ea in
    let c1 = record cfg { erroraction_conv = x } in
    let (y, e2, n2) = savepolicy_done c1 sp in
    let c2 = record c1 { savepolicy_conv = y } in
    let (z, e3, n3) = ldapscope_done c2 ls in
    let c3 = record c2 { ldapscope_conv = z } in
    rw (e1, e2, e3, saveignoreheader_done regcomp c3 re)
      (Returns.weaken (make_lists-HasLists c3 s pos)
        λ r t (good, same, lists). (good, subst (IsNamed cfg) (sym same) (refl, n1, n2, n3), lists))
