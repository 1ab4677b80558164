-- ===== src/Filter/Judge.antt =====
-- What `judge_mail` decides of one address, as a test on the address and the configuration.
use messasy.Base.{
  ◌-◌, ◌≡◌, refl, sym, ◌∙◌, Bool, true, false, not, ◌&&◌, ◌||◌, none, some, List, [], ◌∷◌, ltb,
  ◌==◌, if◌then◌else◌, Bytes, arith, Bool-cases, Option-cases, inl, inr,
}
use messasy.CString.{strchr, str_case_eq, strlen, suffix, has_byte}
use messasy.CString.Laws.{strchr-has_byte, has_byte-append}
use messasy.Config.{Config}
use messasy.Strlist.{Store, ok}
use messasy.Filter.{
  check_domains, check_domain, check_entry, check_entries, check_mailaddress, complement_address,
}

-- The first `@` and what follows it.
unfoldable pub at_part : Bytes → Bytes
at_part address = elim (strchr address b'@') [ none ↦ [] | some p ↦ p ]

-- What follows the first `@`.
unfoldable pub domain_part : Bytes → Bytes
unfolding at_part
domain_part address = suffix 1 (at_part address)

unfoldable pub in_domains : Bytes → List Bytes → Bool
in_domains domain [] = false
in_domains domain (d ∷ ds) = str_case_eq d domain || in_domains domain ds

-- An entry of `SaveMailAddress`: a suffix, or `@` and a domain, or an address.
unfoldable pub entry_matches : Bytes → Bytes → Bool
entry_matches [] address = false
entry_matches (c ∷ cs) address =
    if has_byte b'@' (c ∷ cs)
    then if c == b'@' then str_case_eq (c ∷ cs) (at_part address) else str_case_eq (c ∷ cs) address
    else not (ltb (strlen address) (strlen (c ∷ cs)))
      && str_case_eq (c ∷ cs) (suffix (strlen address - strlen (c ∷ cs)) address)

unfoldable pub in_entries : Bytes → List Bytes → Bool
unfolding entry_matches at_part
in_entries address [] = false
in_entries address (e ∷ es) = entry_matches e address || in_entries address es

-- An address with its domain among `MyDomain`.
unfoldable pub is_mine : Config → Bytes → Bool
unfolding domain_part in_domains
is_mine cfg address = in_domains (domain_part address) cfg.mydomain_list

unfoldable pub is_direct : Config → Bytes → Bool
unfolding is_mine in_entries
is_direct cfg address = is_mine cfg address && in_entries address cfg.savemailaddress_list

unfoldable pub is_pending : Config → Bytes → Bool
unfolding is_mine in_entries
is_pending cfg address =
    is_mine cfg address && not (in_entries address cfg.savemailaddress_list) && (cfg.ldapcheck == 1)

-- An address that `complement_address` has completed has an `@`.
pub complement_address-has_at :
    (address : Bytes) (cfg : Config) → has_byte b'@' (complement_address address cfg) ≡ true
unfolding complement_address
complement_address-has_at address cfg = elim (Option-cases (strchr address b'@')) [
  | inl e ↦
      rw (e, complement_address)
        (has_byte-append b'@' address (b'@' ∷ cfg.defaultdomain) ∙ unfold has_byte in ground arith)
  | inr (p, e) ↦ rw (e, complement_address) (sym (strchr-has_byte address b'@') ∙ rw e)
]

-- The address with a domain: its own, or the default one.
pub strchr-some :
    (address : Bytes) → has_byte b'@' address ≡ true → (p : Bytes) × (strchr address b'@' ≡ some p)
strchr-some address h = elim (Option-cases (strchr address b'@')) [
  | inl e ↦ absurd (cc (strchr-has_byte address b'@'))
  | inr r ↦ r
]

check_domains-in_domains :
    (s : Store) (p : Bytes) (ds : List Bytes)
    → check_domains (some p) ds s ≡ ok (in_domains (suffix 1 p) ds) s
unfolding check_domains in_domains
check_domains-in_domains s p [] = refl
check_domains-in_domains s p (d ∷ ds) = elim (Bool-cases (str_case_eq d (suffix 1 p))) [
  | inl e ↦ rw e
  | inr e ↦ rw e (check_domains-in_domains s p ds)
]

pub check_domain-is_mine :
    (s : Store) (address : Bytes) (cfg : Config)
    → has_byte b'@' address ≡ true
    → check_domain address cfg s ≡ ok (is_mine cfg address) s
unfolding check_domain is_mine
check_domain-is_mine s address cfg h =
    let (p, e) = strchr-some address h in
    rw (e, domain_part, at_part) (check_domains-in_domains s p cfg.mydomain_list)

check_entry-entry_matches :
    (s : Store) (e address : Bytes)
    → has_byte b'@' address ≡ true
    → check_entry e address s ≡ ok (entry_matches e address) s
unfolding check_entry entry_matches at_part
check_entry-entry_matches s [] address h = refl
check_entry-entry_matches s (c ∷ cs) address h =
    ground (arith, strchr-has_byte (c ∷ cs) b'@', strchr-has_byte address b'@')

check_entries-in_entries :
    (s : Store) (address : Bytes) (es : List Bytes)
    → has_byte b'@' address ≡ true
    → check_entries address es s ≡ ok (in_entries address es) s
unfolding check_entries in_entries
check_entries-in_entries s address [] h = refl
check_entries-in_entries s address (e ∷ es) h =
    rw (check_entry-entry_matches s e address h) (elim (Bool-cases (entry_matches e address)) [
      | inl hit ↦ rw hit
      | inr miss ↦ rw miss (check_entries-in_entries s address es h)
    ])

pub check_mailaddress-in_entries :
    (s : Store) (address : Bytes) (cfg : Config)
    → has_byte b'@' address ≡ true
    → check_mailaddress address cfg s ≡ ok (in_entries address cfg.savemailaddress_list) s
unfolding check_mailaddress
check_mailaddress-in_entries s address cfg h =
    check_entries-in_entries s address cfg.savemailaddress_list h
