-- ===== src/Tests/SessionTests.antt =====
-- Examples of a connection.
use messasy.Base.{
  ℕ, ◌≡◌, refl, true, false, none, some, List, [], ◌∷◌, Bytes, r_success, inl, inr, arith,
}
use messasy.Config.{Config, from_bit, to_bit, SfsiStat, smfis_continue, smfis_accept}
use messasy.ConfigStore.{Configs, Entry, put, reload_config, config_retrieve}
use messasy.ConfigStore.Reachable.{no_configs, Reachable, starts, retrieves, Reachable-IsSound}
use messasy.Strlist.{handle, null}
use messasy.Filter.{complement_address}
use messasy.Filter.Judge.{is_direct, is_pending}
use messasy.Filter.Lookup.{outcome}
use messasy.Filter.Saved.{reachable}
use messasy.Serial.{get_sessid}
use messasy.Address.{get_addrpart}
use messasy.CString.{isspace, tolower, str_case_eq, suffix, strchr}
use messasy.Filter.Savelist.{candidates}
use messasy.Session.{Priv, World, Env, Hook, mlfi_close, exec_loop}
use messasy.Session.Incoming.{
  envfrom, header, callback, mlfi_connect, mlfi_envfrom, mlfi_abort, mlfi_header,
}
use messasy.Session.Invariant.{IsOpen, IsClosed, no_mail, in_mail, IsSteady, empty-Holds}
use messasy.Session.Abort.{at_priv, AllSucceed}
use messasy.Session.Trace.{Trace, done, calls, changes}
use messasy.Session.Others.{Pinned, reloads}
use messasy.Session.Connection.{Trace-callback, Trace-Pinned, Trace-mlfi_close}
use messasy.Session.Lost.{mlfi_abort-lost, mlfi_header-accepts, waiting}
use messasy.Tests.{bytes, empty, test_config, ldap_down}

-- The modules count their calls; `failing` is a module whose abort fails.
abbrev counting : Env ℕ
counting = record {
  pid = 1;
  ldap = ldap_down;
  regex = λ cfg. none;
  no_modules = 0;
  exec_header = λ cfg. (λ f v w. (true, 1)) ∷ [];
  exec_body = λ cfg. (λ b w. (true, 2)) ∷ [];
  exec_eom = λ cfg. (λ w. (true, 3)) ∷ [];
  exec_abort = λ cfg. (λ w. (true, 0)) ∷ [];
}

abbrev failing : Env ℕ
failing = record counting { exec_abort = λ cfg. (λ w. (false, 0)) ∷ [] }

aborts_succeed : (c : Config) → AllSucceed (counting.exec_abort c)
aborts_succeed c = (λ w. refl, tt)

always_down : IsSteady ldap_down test_config
unfolding reachable
always_down [] = inl (inl refl)
always_down (a ∷ ld) = inr (λ e. cc, refl)

-- The configuration that was loaded first, and with one user.
abbrev entry : ℕ → Entry
entry n = record { ref_count = n; reloaded = false; cfg = test_config }

abbrev loaded : Configs
loaded = record { at = put 1 (some (entry 0)) no_configs.at; cur = 1; reloading = false; next = 2 }

abbrev held : Configs
held = record loaded { at = put 1 (some (entry 1)) loaded.at }

reached_loaded : Reachable [] loaded
unfolding reload_config
reached_loaded = starts test_config loaded refl

reached_held : Reachable (1 ∷ []) held
unfolding config_retrieve
reached_held = retrieves [] loaded held 1 reached_loaded refl

abbrev before : World ℕ
before = record { configs = loaded; serialno = 0; rcpts = empty; saved = empty; ctx = none }

before-IsClosed : IsClosed [] before
before-IsClosed = record {
  sound = Reachable-IsSound [] loaded reached_loaded;
  rcpts = omega arith;
  saved = omega arith;
  unset = refl;
}

abbrev address : Bytes
address = bytes "192"

abbrev connected_priv : Priv ℕ
connected_priv = record {
  sid = 65537;
  recvtime = 9;
  clientaddr = address;
  envfrom = none;
  rcptto = handle null null;
  addrmatched = handle null null;
  config = 1;
  extrapriv = 0;
  header_existence = false;
}

abbrev connected : World ℕ
connected = record before { configs = held; serialno = 1; ctx = some connected_priv }

loaded-Pinned : Pinned 1 test_config loaded
unfolding put
loaded-Pinned = (entry 0, refl, refl)

connects : mlfi_connect counting (some address) (some 9) before ≡ some (smfis_continue, connected)
unfolding mlfi_connect config_retrieve get_sessid
connects = refl

connected-IsOpen : IsOpen [] test_config connected connected_priv
unfolding put
connected-IsOpen = record {
  sound = Reachable-IsSound (1 ∷ []) held reached_held;
  not_null = omega arith;
  pinned = (entry 1, refl, refl);
  rcpts = empty-Holds empty (omega arith) (handle null null) refl;
  saved = empty-Holds empty (omega arith) (handle null null) refl;
  not_yet = λ h. refl;
}

-- `MAIL FROM`, and a reload of the file by an administrator.
abbrev mail_priv : Priv ℕ
mail_priv = record connected_priv { envfrom = some (bytes "x@a.b") }

abbrev replaced : Configs
replaced = record {
  at = put 1 (some (record (entry 1) { reloaded = true })) (put 2 (some (entry 0)) held.at);
  cur = 2;
  reloading = true;
  next = 3;
}

abbrev within : World ℕ
within = record connected { configs = replaced; ctx = some mail_priv }

mail-Trace : Trace counting no_mail [] connected in_mail [] within
unfolding callback reload_config get_addrpart isspace tolower
mail-Trace =
    calls (envfrom (bytes "<X@A.B>")) smfis_continue refl refl
      (changes replaced (reloads [] held replaced (some test_config) r_success refl) refl done)

Trace-callback_example :
    (r : SfsiStat) × (x : World ℕ) × (callback counting (header (bytes "To") (bytes "a")) within
      ≡ some (r, x))
Trace-callback_example =
    Trace-callback counting aborts_succeed test_config always_down (λ e. cc) address 9
      before-IsClosed loaded-Pinned connects mail-Trace (header (bytes "To") (bytes "a")) refl

Trace-Pinned_example :
    (p : Priv ℕ) × (within.ctx ≡ some p) × Pinned p.config test_config within.configs
Trace-Pinned_example =
    Trace-Pinned counting aborts_succeed test_config always_down (λ e. cc) address 9 before-IsClosed
      loaded-Pinned connects mail-Trace

Trace-mlfi_close_example :
    (x : World ℕ) × (mlfi_close within ≡ some (smfis_accept, x)) × IsClosed [] x
Trace-mlfi_close_example =
    Trace-mlfi_close counting aborts_succeed test_config always_down (λ e. cc) address 9
      before-IsClosed loaded-Pinned connects mail-Trace

mlfi_abort-lost_example :
    (u : World ℕ) × (mlfi_abort failing (at_priv connected connected_priv)
      ≡ some (test_config.erroraction_conv, u))
    × IsClosed [] u
    × ((address : Bytes) → mlfi_envfrom failing address u ≡ none)
unfolding exec_loop
mlfi_abort-lost_example =
    mlfi_abort-lost failing [] test_config connected connected_priv connected-IsOpen connected refl

waiting-IsOpen : IsOpen [] test_config connected (waiting connected_priv (bytes "z@q"))
waiting-IsOpen = record {
  sound = connected-IsOpen.sound;
  not_null = connected-IsOpen.not_null;
  pinned = connected-IsOpen.pinned;
  rcpts = record {
    pos = omega arith;
    cells = [];
    is = record { chain = tt; head = refl; tail = tt };
  };
  saved = connected-IsOpen.saved;
  not_yet = λ h. refl;
}

-- The sender is of another domain.
mlfi_header-accepts_example :
    (x : World ℕ) × ((hooks : Config → List (Bytes → Bytes → Hook ℕ))
      → mlfi_header
          (record counting { exec_header = hooks })
          (bytes "To")
          (bytes "a")
          (at_priv connected (waiting connected_priv (bytes "z@q")))
        ≡ some (smfis_accept, x))
unfolding is_direct is_pending candidates outcome from_bit to_bit str_case_eq suffix strchr
    complement_address waiting-IsOpen tolower
mlfi_header-accepts_example =
    mlfi_header-accepts counting [] test_config connected connected_priv (bytes "z@q")
      waiting-IsOpen (bytes "To") (bytes "a") refl refl (inl refl) refl (aborts_succeed test_config)
