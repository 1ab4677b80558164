-- ===== src/Session/Others.antt =====
-- What the other threads do to the configurations while a connection holds one.
use mathlib.Core.Path.{subst}
use messasy.Base.{
  ℕ, ◌+◌, ◌-◌, ◌≤◌, ◌<◌, ◌≡◌, refl, sym, ◌∙◌, true, false, ◌&&◌, Option, none, some, List, ◌∷◌,
  ◌==◌, ltb, arith, ap, Ret, r_success, inl, inr, Bool-cases, Option-cases, ==_iff,
}
use messasy.Config.{Config}
use messasy.ConfigStore.{
  Configs, Entry, put, config_retrieve, config_release, free_config, reload_config, switch, retire,
}
use messasy.ConfigStore.Invariant.{
  IsSound, count, drop, count_same, count_other, count-drop_same, count-drop_other, put-cases,
  some-inj,
}
use messasy.ConfigStore.Release.{config_release-IsSound}
use messasy.ConfigStore.Reachable.{one_result, retrieved-IsSound, reload-IsSound}

-- A thread takes a reference, gives one back that it holds, or reloads the file.
pub data Other : List ℕ → Configs → List ℕ → Configs → Type 0 where
  retrieves :
      (others : List ℕ) (s t : Configs) (c : ℕ)
      → config_retrieve s ≡ some (c, t)
      → Other others s (c ∷ others) t
  releases :
      (others : List ℕ) (s t : Configs) (c : ℕ)
      → 0 < count c others
      → config_release c s ≡ some t
      → Other others s (drop c others) t
  reloads :
      (others : List ℕ) (s t : Configs) (file : Option Config) (r : Ret)
      → reload_config file s ≡ some (r, t)
      → Other others s others t

-- The counts do not depend on the order of the references.
IsSound-same :
    (h k : List ℕ) (s : Configs) → ((c : ℕ) → count c h ≡ count c k) → IsSound h s → IsSound k s
IsSound-same h k s same p = record {
  current = p.current;
  counted = λ c e at. p.counted c e at ∙ same c;
  gone = λ c at. sym (same c) ∙ p.gone c at;
  waits = p.waits;
  one = p.one;
  busy = p.busy;
  fresh = p.fresh;
  not_null = p.not_null;
}

abbrev pub Pinned : ℕ → Config → Configs → Type 0
Pinned c cfg s = (e : Entry) × (s.at c ≡ some e) × (e.cfg ≡ cfg)

store_of :
    {A : Type 0} {a b : A} {s t : Configs}
    → ◌≡◌ {A = Option (A × Configs)} (some (a, s)) (some (b, t))
    → s ≡ t
store_of {s} e = ap (from s) e
  where
    from : {A : Type 0} → Configs → Option (A × Configs) → Configs
    from d none = d
    from d (some x) = x.1

-- A write that keeps the values keeps them at every address.
put-Pinned :
    (c d : ℕ) (cfg : Config) (e f : Entry) (at : ℕ → Option Entry)
    → at d ≡ some e
    → f.cfg ≡ e.cfg
    → (g : Entry) × (at c ≡ some g) × (g.cfg ≡ cfg)
    → (g : Entry) × (put d (some f) at c ≡ some g) × (g.cfg ≡ cfg)
put-Pinned c d cfg e f at is same (g, h, v) = elim (put-cases d (some f) at c) [
  | inl (here, w) ↦
      let old : (at d ≡ some g) = rw here at h in
      (f, w, same ∙ ap (λ (x : Entry). x.cfg) (some-inj (sym is ∙ old)) ∙ v)
  | inr (there, w) ↦ (g, w ∙ h, v)
]

abbrev Keeps : ℕ → Config → Option Configs → Type 0
Keeps c cfg none = Unit
Keeps c cfg (some t) = Pinned c cfg t

Keeps-some :
    (c : ℕ) (cfg : Config) (o : Option Configs) (t : Configs)
    → Keeps c cfg o
    → o ≡ some t
    → Pinned c cfg t
Keeps-some c cfg o t k e = rw e at k

-- What is freed is another one.
spared :
    {c : ℕ} {cfg : Config} (d : ℕ) (s : Configs)
    → Pinned c cfg s
    → ¬ (c ≡ d)
    → (g : Entry) × (put d none s.at c ≡ some g) × (g.cfg ≡ cfg)
spared {c} d s (g, at, v) other = elim (put-cases d none s.at c) [
  | inl (here, w) ↦ absurd (other here)
  | inr (there, w) ↦ (g, w ∙ at, v)
]

module _ (c : ℕ) (cfg : Config) (s : Configs) (p : Pinned c cfg s) where
  release-Keeps :
      (d : ℕ)
      → ((e : Entry) → s.at d ≡ some e → c ≡ d → 2 ≤ e.ref_count)
      → Keeps c cfg (config_release d s)
  unfolding config_release free_config
  release-Keeps d shared = elim (Option-cases (s.at d)) [
    | inl gone ↦ rw (config_release, gone) tt
    | inr (e, is) ↦ elim (Bool-cases (e.reloaded && ltb (e.ref_count - 1) 1)) [
      | inl last ↦
          rw (config_release, is, last)
            (spared d s p λ here. (ground (arith, shared e is here, last)))
      | inr more ↦ rw (config_release, is, more) (put-Pinned c d cfg e _ s.at is refl p)
    ]
  ]

  pub retrieve-Pinned : (d : ℕ) (t : Configs) → config_retrieve s ≡ some (d, t) → Pinned c cfg t
  unfolding config_retrieve
  retrieve-Pinned d t gives = at_entry (s.at s.cur) refl gives
    where
      at_entry :
          (o : Option Entry)
          → s.at s.cur ≡ o
          → (elim o as (λ x. Option (ℕ × Configs)) [
            | none ↦ none
            | some e ↦ some (
              s.cur,
              record s { at = put s.cur (some (record e { ref_count = e.ref_count + 1 })) s.at },
            )
          ])
            ≡ some (d, t)
          → Pinned c cfg t
      at_entry none is gives = cc
      at_entry (some e) is gives = rw (← store_of gives) (put-Pinned c s.cur cfg e _ s.at is refl p)

  -- The new configuration stands at an address that was never used.
  switch-Pinned : (new : Config) → s.at s.next ≡ none → Pinned c cfg (switch new s)
  unfolding switch
  switch-Pinned new unused =
      elim (put-cases s.next (some (record { ref_count = 0; reloaded = false; cfg = new })) s.at
        c) [ inl (here, w) ↦ cc (p.1, here, unused) | inr (there, w) ↦ (p.0, w ∙ p.1, p.2) ]

  retire-Keeps :
      (d : ℕ) → ((e : Entry) → s.at d ≡ some e → c ≡ d → 1 ≤ e.ref_count) → Keeps c cfg (retire d s)
  unfolding retire free_config
  retire-Keeps d held = elim (Option-cases (s.at d)) [
    | inl gone ↦ rw (retire, gone) tt
    | inr (e, is) ↦ elim (Bool-cases (ltb e.ref_count 1)) [
      | inl unused ↦
          rw (retire, is, unused) (spared d s p λ here. ground (arith, held e is here, unused))
      | inr used ↦ rw (retire, is, used) (put-Pinned c d cfg e _ s.at is refl p)
    ]
  ]

KeepsAfter : ℕ → Config → Option (Ret × Configs) → Type 0
KeepsAfter c cfg none = Unit
KeepsAfter c cfg (some (r, t)) = Pinned c cfg t

reload-Keeps :
    (held : List ℕ) (c : ℕ) (cfg : Config) (s : Configs) (file : Option Config)
    → IsSound held s
    → Pinned c cfg s
    → 0 < count c held
    → KeepsAfter c cfg (reload_config file s)
unfolding reload_config KeepsAfter switch
reload-Keeps held c cfg s none p pin has = elim (Bool-cases s.reloading) [
  | inl busy ↦ rw (reload_config, busy) pin
  | inr idle ↦ rw (reload_config, idle) pin
]
reload-Keeps held c cfg s (some new) p pin has = elim (Bool-cases s.reloading) [
  | inl busy ↦ rw (reload_config, busy) pin
  | inr idle ↦
      rw (reload_config, idle, not_null)
        (retired (retire s.cur (switch new (record s { reloading = true }))) (
          retire-Keeps c cfg (switch new (record s { reloading = true }))
            (switch-Pinned c cfg (record s { reloading = true }) pin new
              (p.fresh s.next (omega arith)))
            s.cur λ e at here. used e at here))
]
  where
    not_null : (s.cur == 0) ≡ false
    not_null = ground (arith, p.not_null)

    used :
        (e : Entry)
        → (switch new (record s { reloading = true })).at s.cur ≡ some e
        → c ≡ s.cur
        → 1 ≤ e.ref_count
    used e at here =
        elim (put-cases s.next (some (record { ref_count = 0; reloaded = false; cfg = new })) s.at
          s.cur) [
            | inl (fresh, w) ↦ cc (p.fresh s.next (omega arith), fresh, p.current.1)
            | inr (there, w) ↦
                let has_cur : (0 < count s.cur held) = rw (← here) has in
                omega (arith, p.counted s.cur e (sym w ∙ at))
          ]

    retired :
        (o : Option Configs)
        → Keeps c cfg o
        → KeepsAfter c cfg (elim o [ none ↦ none | some t ↦ some (r_success, t) ])
    retired none k = tt
    retired (some t) k = k

count_swap : (x c d : ℕ) (ds : List ℕ) → count x (d ∷ c ∷ ds) ≡ count x (c ∷ d ∷ ds)
unfolding count
count_swap x c d ds = ground arith

dropped : (c : ℕ) (ds : List ℕ) → drop c (c ∷ ds) ≡ ds
unfolding drop
dropped c ds = ground arith

count-drop_head : (x d : ℕ) (ds : List ℕ) → 0 < count d ds → count x ds ≡ count x (d ∷ drop d ds)
count-drop_head x d ds has = elim (Bool-cases (x == d)) [
  | inl here ↦
      let e : x ≡ d = (==_iff x d).0 here in
      let less : (count x (drop d ds) ≡ count x ds - 1) = rw e (count-drop_same d ds) in
      let some_left : (0 < count x ds) = rw e has in
      omega (arith, count_same x d (drop d ds) (sym e))
  | inr there ↦ sym (count_other x d (drop d ds) there ∙ count-drop_other d x ds there)
]

count-drop_behind :
    (x c d : ℕ) (ds : List ℕ) → 0 < count d ds → count x (drop d (c ∷ ds)) ≡ count x (c ∷ drop d ds)
unfolding drop
count-drop_behind x c d ds has = elim (Bool-cases (c == d)) [
  | inl same ↦
      subst (λ b. count x (drop d (b ∷ ds)) ≡ count x (b ∷ drop d ds)) (sym ((==_iff c d).0 same))
        (ap (count x) (dropped d ds) ∙ count-drop_head x d ds has)
  | inr other ↦ rw other refl
]

-- Whatever one of the other threads does, the counts stay right, and a configuration that is held
-- stays in memory with its values.
pub Other-Pinned :
    {others more : List ℕ} {s t : Configs} (c : ℕ) (cfg : Config)
    → Other others s more t
    → IsSound (c ∷ others) s
    → Pinned c cfg s
    → IsSound (c ∷ more) t × Pinned c cfg t
unfolding count drop KeepsAfter
Other-Pinned c cfg (retrieves others s t d gives) p pin = (
  IsSound-same (d ∷ c ∷ others) (c ∷ d ∷ others) t (λ x. count_swap x c d others)
      (retrieved-IsSound (c ∷ others) s t d p gives),
  retrieve-Pinned c cfg s pin d t gives,
)
Other-Pinned c cfg (releases others s t d has gives) p pin = (
  IsSound-same (drop d (c ∷ others)) (c ∷ drop d others) t (λ x. count-drop_behind x c d others has)
      sound,
  Keeps-some c cfg (config_release d s) t (release-Keeps c cfg s pin d shared) gives,
)
  where
    sound : IsSound (drop d (c ∷ others)) t
    sound =
        let (u, gives', q) = config_release-IsSound (c ∷ others) s d p (ground arith) in
        rw (← one_result (config_release d s) u t gives' gives) q

    shared : (e : Entry) → s.at d ≡ some e → c ≡ d → 2 ≤ e.ref_count
    shared e is here = omega (arith, p.counted d e is, count_same d c others here)
Other-Pinned c cfg (reloads others s t file r gives) p pin = (
  reload-IsSound (c ∷ others) s t file r p gives,
  kept (reload_config file s) gives (reload-Keeps (c ∷ others) c cfg s file p pin (ground arith)),
)
  where
    kept : (o : Option (Ret × Configs)) → o ≡ some (r, t) → KeepsAfter c cfg o → Pinned c cfg t
    kept none e k = cc
    kept (some (q, u)) e k = rw (← store_of e) k
