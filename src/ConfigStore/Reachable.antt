-- ===== src/ConfigStore/Reachable.antt =====
-- Every sequence of retrievals, releases and reloads, by any number of users, in any order.
use messasy.Base.{
  ℕ, ◌<◌, ◌≡◌, ◌∙◌, sym, true, false, Option, none, some, List, [], ◌∷◌, refl, ap, arith, Ret,
  r_success, r_positive, r_error, Bool-cases, Option-cases, inl, inr,
}
use messasy.Config.{Config}
use messasy.ConfigStore.{
  Entry, Configs, put, switch, config_retrieve, config_release, reload_config,
}
use messasy.ConfigStore.Invariant.{count, drop, IsSound, put-cases, some-inj}
use messasy.ConfigStore.Retrieve.{config_retrieve-IsSound}
use messasy.ConfigStore.Release.{config_release-IsSound}
use messasy.ConfigStore.Reload.{reload_config-IsSound}

-- Before the first configuration is read.
abbrev pub no_configs : Configs
no_configs = record { at = λ c. none; cur = 0; reloading = false; next = 1 }

-- The references held, and the store, once the program has read its first configuration.
pub data Reachable : List ℕ → Configs → Type 0 where
  starts :
      (cfg : Config) (t : Configs)
      → reload_config (some cfg) no_configs ≡ some (r_success, t)
      → Reachable [] t
  retrieves :
      (held : List ℕ) (s t : Configs) (c : ℕ)
      → Reachable held s
      → config_retrieve s ≡ some (c, t)
      → Reachable (c ∷ held) t
  releases :
      (held : List ℕ) (s t : Configs) (c : ℕ)
      → Reachable held s
      → 0 < count c held
      → config_release c s ≡ some t
      → Reachable (drop c held) t
  reloads :
      (held : List ℕ) (s t : Configs) (file : Option Config) (r : Ret)
      → Reachable held s
      → reload_config file s ≡ some (r, t)
      → Reachable held t

first-IsSound : (cfg : Config) → IsSound [] (switch cfg no_configs)
unfolding switch put count
first-IsSound cfg = record {
  current = (record { ref_count = 0; reloaded = false; cfg = cfg }, refl, refl);
  counted = λ c e h. counted_first c e h;
  gone = λ c h. refl;
  waits = λ c e h ne. absurd (ground (arith, h, ne));
  one = λ c d e f h k ne me. absurd (ground (arith, h, ne));
  busy = λ h. cc;
  fresh = λ c h. ground arith;
  not_null = omega arith;
}
  where
    counted_first : (c : ℕ) (e : Entry) → (switch cfg no_configs).at c ≡ some e → e.ref_count ≡ 0
    counted_first c e h =
        elim (put-cases 1 (some (record { ref_count = 0; reloaded = false; cfg = cfg }))
          no_configs.at c) [
            | inl (same, v) ↦ sym (ap (λ x. x.ref_count) (some-inj (sym v ∙ h)))
            | inr (ne, v) ↦ cc
          ]

module _ {A : Type 0} where
  or_else : A → Option A → A
  or_else a none = a
  or_else a (some b) = b

  -- A call has one result.
  pub one_result : (o : Option A) (a b : A) → o ≡ some a → o ≡ some b → a ≡ b
  unfolding or_else
  one_result o a b h k = ap (or_else a) (sym h ∙ k)

pub store_is :
    (o : Option (Ret × Configs)) (r q : Ret) (s t : Configs)
    → o ≡ some (r, s)
    → o ≡ some (q, t)
    → s ≡ t
store_is o r q s t h k = ap (λ x. x.1) (one_result o (r, s) (q, t) h k)

reload_none_busy : (s : Configs) → s.reloading ≡ true → reload_config none s ≡ some (r_positive, s)
unfolding reload_config
reload_none_busy s e = rw e refl

reload_none_idle : (s : Configs) → s.reloading ≡ false → reload_config none s ≡ some (r_error, s)
unfolding reload_config
reload_none_idle s e = rw e refl

pub reload-IsSound :
    (held : List ℕ) (s t : Configs) (file : Option Config) (r : Ret)
    → IsSound held s
    → reload_config file s ≡ some (r, t)
    → IsSound held t
reload-IsSound held s t none r p h = elim (Bool-cases s.reloading) [
  | inl e ↦ rw (← store_is (reload_config none s) r_positive r s t (reload_none_busy s e) h) p
  | inr e ↦ rw (← store_is (reload_config none s) r_error r s t (reload_none_idle s e) h) p
]
reload-IsSound held s t (some cfg) r p h =
    let (blocked, works) = reload_config-IsSound held s cfg p in
    elim (Bool-cases s.reloading) [
      | inl e ↦ rw (← store_is (reload_config (some cfg) s) r_positive r s t (blocked e) h) p
      | inr e ↦
          let (u, gives, reloaded) = works e in
          rw (← store_is (reload_config (some cfg) s) r_success r u t gives h) reloaded.0
    ]

pub retrieved-IsSound :
    (held : List ℕ) (s t : Configs) (c : ℕ)
    → IsSound held s
    → config_retrieve s ≡ some (c, t)
    → IsSound (c ∷ held) t
retrieved-IsSound held s t c p h =
    let (u, gives, sound) = config_retrieve-IsSound held s p in
    let same = one_result (config_retrieve s) (s.cur, u) (c, t) gives h in
    rw (← ap (λ x. x.0) same, ← ap (λ x. x.1) same) sound

-- In every state that is reached, the configurations in memory count their users.
pub Reachable-IsSound : (held : List ℕ) (s : Configs) → Reachable held s → IsSound held s
unfolding reload_config
Reachable-IsSound held s (starts cfg t h) =
    rw
      (← store_is (reload_config (some cfg) no_configs) r_success r_success (switch cfg no_configs)
        t refl h)
      (first-IsSound cfg)
Reachable-IsSound held s (retrieves held' s' t c r h) =
    retrieved-IsSound held' s' t c (Reachable-IsSound held' s' r) h
Reachable-IsSound held s (releases held' s' t c r has h) =
    let (u, gives, sound) = config_release-IsSound held' s' c (Reachable-IsSound held' s' r) has in
    rw (← one_result (config_release c s') u t gives h) sound
Reachable-IsSound held s (reloads held' s' t file q r h) =
    reload-IsSound held' s' t file q (Reachable-IsSound held' s' r) h

-- In every state that retrievals, releases and reloads lead to, run one at a time in any order,
-- whoever holds a configuration finds it in memory with its users counted, and can release it.
pub Reachable-held :
    (held : List ℕ) (s : Configs) (c : ℕ)
    → Reachable held s
    → 0 < count c held
    → ((e : Entry) × (s.at c ≡ some e) × (e.ref_count ≡ count c held))
      × ((t : Configs) × (config_release c s ≡ some t))
Reachable-held held s c r has =
    let p = Reachable-IsSound held s r in
    let (t, gives, _) = config_release-IsSound held s c p has in (in_memory p, (t, gives))
  where
    in_memory : IsSound held s → (e : Entry) × (s.at c ≡ some e) × (e.ref_count ≡ count c held)
    in_memory p = elim (Option-cases (s.at c)) [
      | inl h ↦ absurd (omega (arith, p.gone c h))
      | inr (e, is) ↦ (e, is, p.counted c e is)
    ]
