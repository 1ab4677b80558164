-- ===== src/Tests/FilterTests.antt =====
-- Examples of the decision which mails are saved.
use messasy.Base.{◌≡◌, ◌≢◌, refl, sym, ◌∙◌, none, List, [], ◌∷◌, ◌++◌, filter, inr, Bytes, arith}
use messasy.CString.{has_byte, str_case_eq, suffix, strchr}
use messasy.Config.{Config, from_bit, to_bit}
use messasy.Strlist.{fault, handle}
use messasy.Strlist.Chain.{IsStrlist}
use messasy.Strlist.Returns.{Returns}
use messasy.Filter.{make_savelist, judge_mail, complement_address, lists}
use messasy.Filter.Judge.{is_direct, is_pending}
use messasy.Filter.Pair.{IsPair, Judged, judge_mail-Judged}
use messasy.Filter.Lookup.{outcome}
use messasy.Filter.Savelist.{candidates}
use messasy.Filter.NoFilter.{make_savelist-no_filter}
use messasy.Filter.Saved.{reachable, Saved, Failed, make_savelist-Saved, make_savelist-Failed}
use messasy.Filter.DoubleFree.{make_savelist-fault}
use messasy.Tests.{bytes, empty, test_config, ldap_up, ldap_down, ldap_failing}

abbrev from : Bytes
from = bytes "x@a.b"

abbrev rcpts : List Bytes
rcpts = bytes "y@a.b" ∷ bytes "z" ∷ bytes "w@e.f" ∷ []

abbrev pending : List Bytes
pending = bytes "y@a.b" ∷ bytes "z@a.b" ∷ []

nothing : IsStrlist empty (handle 0 0) []
nothing = record { chain = tt; head = refl; tail = tt }

pending_are : filter (is_pending test_config) (candidates test_config from rcpts) ≡ pending
unfolding is_pending candidates complement_address from_bit to_bit str_case_eq suffix strchr
    has_byte
pending_are = refl

some_pending : filter (is_pending test_config) (candidates test_config from rcpts) ≢ []
some_pending h = cc (sym pending_are ∙ h)

make_savelist-Saved_example :
    Returns
      (Saved (
        filter (is_direct test_config) (candidates test_config from rcpts)
        ++ (outcome ldap_up test_config 0
            (filter (is_pending test_config) (candidates test_config from rcpts))).1))
      (make_savelist ldap_up from rcpts (handle 0 0) test_config empty)
unfolding is_pending candidates complement_address outcome reachable from_bit to_bit str_case_eq
    suffix strchr has_byte
make_savelist-Saved_example =
    make_savelist-Saved ldap_up from rcpts (handle 0 0) test_config empty (omega arith) nothing
      (inr (refl, refl, refl))

make_savelist-Failed_example :
    Returns (Failed empty) (make_savelist ldap_down from rcpts (handle 0 0) test_config empty)
unfolding reachable
make_savelist-Failed_example =
    make_savelist-Failed ldap_down from rcpts (handle 0 0) test_config empty (omega arith) nothing
      some_pending refl

abbrev no_filter : Config
no_filter = record test_config { ldapmailfilter = none }

no_filter_pending : filter (is_pending no_filter) (candidates no_filter from rcpts) ≢ []
unfolding is_pending candidates complement_address from_bit to_bit str_case_eq suffix strchr
    has_byte
no_filter_pending h = cc

no_filter_faults : make_savelist ldap_up from rcpts (handle 0 0) no_filter empty ≡ fault
unfolding reachable
no_filter_faults =
    make_savelist-no_filter ldap_up no_filter refl refl from rcpts (handle 0 0) empty (omega arith)
      nothing no_filter_pending

make_savelist-fault_example :
    make_savelist ldap_failing from rcpts (handle 0 0) test_config empty ≡ fault
unfolding outcome reachable
make_savelist-fault_example =
    make_savelist-fault ldap_failing from rcpts (handle 0 0) test_config empty (bytes "y@a.b")
      (bytes "z@a.b" ∷ []) 1 (omega arith) nothing pending_are refl refl refl

empty-IsPair : IsPair empty (lists (handle 0 0) (handle 0 0)) [] []
empty-IsPair = record { save = nothing; ldap = nothing; apart = λ a h. cc; pos = omega arith }

judge_mail-Judged_example :
    Returns
      (Judged empty [] [] test_config from)
      (judge_mail from (lists (handle 0 0) (handle 0 0)) test_config empty)
unfolding has_byte
judge_mail-Judged_example =
    judge_mail-Judged empty (lists (handle 0 0) (handle 0 0)) [] [] from test_config empty-IsPair
      refl
