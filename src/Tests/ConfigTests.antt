-- ===== src/Tests/ConfigTests.antt =====
-- Examples of the configurations in memory and of the conversions.
use messasy.Base.{ℕ, ◌≡◌, refl, Bool, true, false, some, [], ◌∷◌, r_success, r_positive, arith}
use messasy.CString.{str_eq, str_case_eq, is_empty}
use messasy.ConfigStore.{Entry, Configs, put, config_retrieve, config_release, reload_config}
use messasy.ConfigStore.Invariant.{count, drop, IsSound}
use messasy.ConfigStore.Release.{config_release-IsSound}
use messasy.ConfigStore.Reload.{Reloaded, reload_config-IsSound}
use messasy.ConfigStore.Reachable.{
  no_configs, Reachable, starts, retrieves, reloads, Reachable-IsSound, Reachable-held,
}
use messasy.Strlist.Returns.{Returns}
use messasy.Convert.{is_erroraction, is_savepolicy, is_ldapscope, conv_config}
use messasy.Convert.Total.{IsConverted, conv_config-IsConverted}
use messasy.Tests.{empty, test_config}

abbrev entry : ℕ → Bool → Entry
entry n b = record { ref_count = n; reloaded = b; cfg = test_config }

-- The first configuration, then with a user, then replaced while it is in use.
abbrev first : Configs
first = record {
  at = put 1 (some (entry 0 false)) no_configs.at;
  cur = 1;
  reloading = false;
  next = 2;
}

abbrev used : Configs
used = record first { at = put 1 (some (entry 1 false)) first.at }

abbrev replaced : Configs
replaced = record {
  at = put 1 (some (entry 1 true)) (put 2 (some (entry 0 false)) used.at);
  cur = 2;
  reloading = true;
  next = 3;
}

reached_first : Reachable [] first
unfolding reload_config
reached_first = starts test_config first refl

reached_used : Reachable (1 ∷ []) used
unfolding config_retrieve
reached_used = retrieves [] first used 1 reached_first refl

reached_replaced : Reachable (1 ∷ []) replaced
unfolding reload_config
reached_replaced = reloads (1 ∷ []) used replaced (some test_config) r_success reached_used refl

-- The old configuration is still held.
Reachable-held_example :
    ((e : Entry) × (replaced.at 1 ≡ some e) × (e.ref_count ≡ count 1 (1 ∷ [])))
    × ((t : Configs) × (config_release 1 replaced ≡ some t))
unfolding count
Reachable-held_example = Reachable-held (1 ∷ []) replaced 1 reached_replaced (omega arith)

config_release-IsSound_example :
    (t : Configs) × (config_release 1 replaced ≡ some t) × IsSound (drop 1 (1 ∷ [])) t
unfolding count
config_release-IsSound_example =
    config_release-IsSound (1 ∷ []) replaced 1
      (Reachable-IsSound (1 ∷ []) replaced reached_replaced) (omega arith)

reload_config-IsSound_example :
    (used.reloading ≡ true → reload_config (some test_config) used ≡ some (r_positive, used))
    × (used.reloading ≡ false
        → (t : Configs) × (reload_config (some test_config) used ≡ some (r_success, t))
          × Reloaded (1 ∷ []) test_config t)
reload_config-IsSound_example =
    reload_config-IsSound (1 ∷ []) used test_config (Reachable-IsSound (1 ∷ []) used reached_used)

conv_config-IsConverted_example :
    Returns (IsConverted test_config) (conv_config (λ p. true) test_config empty)
unfolding is_erroraction is_savepolicy is_ldapscope str_eq str_case_eq is_empty
conv_config-IsConverted_example =
    conv_config-IsConverted (λ p. true) test_config empty (omega arith) refl refl refl refl
