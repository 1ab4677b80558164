-- ===== src/ConfigStore/Release.antt =====
-- `config_release` by one who holds a reference.
use messasy.Base.{
  ℕ, ◌-◌, ◌≤◌, ◌<◌, ◌≡◌, ◌∙◌, sym, true, false, ◌&&◌, none, some, List, ltb, ◌==◌, ==_iff,
  Bool-cases, Option-cases, inl, inr, refl, ap, arith,
}
use messasy.ConfigStore.{Entry, Configs, put, free_config, config_release}
use messasy.ConfigStore.Invariant.{
  count, drop, IsSound, put-cases, some-inj, count-drop_same, count-drop_other,
}

module _ (held : List ℕ) (s : Configs) (c : ℕ) (e : Entry) (is : s.at c ≡ some e)
    (p : IsSound held s) (has : 0 < count c held) where
  one_less : Entry
  one_less = record e { ref_count = e.ref_count - 1 }

  after : Configs
  after = record s { at = put c (some one_less) s.at }

  freed : Configs
  freed = record s { at = put c none s.at; reloading = false }

  counted_after : (d : ℕ) (f : Entry) → after.at d ≡ some f → f.ref_count ≡ count d (drop c held)
  unfolding after one_less
  counted_after d f h = elim (put-cases c (some one_less) s.at d) [
    | inl (same, v) ↦
        let f_is : one_less ≡ f = some-inj (sym v ∙ h) in
        rw (← f_is, same, count-drop_same c held) (omega (arith, p.counted c e is))
    | inr (ne, v) ↦ p.counted d f (sym v ∙ h) ∙ sym (count-drop_other c d held ne)
  ]

  gone_after : (d : ℕ) → after.at d ≡ none → count d (drop c held) ≡ 0
  unfolding after
  gone_after d h = elim (put-cases c (some one_less) s.at d) [
    | inl (same, v) ↦ cc
    | inr (ne, v) ↦ count-drop_other c d held ne ∙ p.gone d (sym v ∙ h)
  ]

  -- The entry of `c` is the only one that has changed.
  was :
      (d : ℕ) (f : Entry)
      → after.at d ≡ some f
      → (g : Entry) × (s.at d ≡ some g) × (g.reloaded ≡ f.reloaded)
  unfolding after one_less
  was d f h = elim (put-cases c (some one_less) s.at d) [
    | inl (same, v) ↦
        let f_is : one_less ≡ f = some-inj (sym v ∙ h) in (e, rw same is, ap (λ x. x.reloaded) f_is)
    | inr (ne, v) ↦ (f, sym v ∙ h, refl)
  ]

  -- The last reference to a replaced configuration is not released here.
  module _ (stays : (e.reloaded && ltb (e.ref_count - 1) 1) ≡ false) where
    waits_after :
        (d : ℕ) (f : Entry)
        → after.at d ≡ some f
        → (d == s.cur) ≡ false
        → (f.reloaded ≡ true) × (1 ≤ f.ref_count) × (s.reloading ≡ true)
    unfolding after one_less
    waits_after d f h ne = elim (put-cases c (some one_less) s.at d) [
      | inl (same, v) ↦
          let f_is : one_less ≡ f = some-inj (sym v ∙ h) in
          let (marked, some_left, busy) = p.waits c e is (rw same at ne) in
          rw (← f_is) (marked, ground (arith, marked, stays), busy)
      | inr (out, v) ↦ p.waits d f (sym v ∙ h) ne
    ]

    kept :
        (d : ℕ) (f : Entry)
        → s.at d ≡ some f
        → (g : Entry) × (after.at d ≡ some g) × (g.reloaded ≡ f.reloaded)
    unfolding after one_less
    kept d f h = elim (put-cases c (some one_less) s.at d) [
      | inl (same, v) ↦ (one_less, v, ap (λ x. x.reloaded) (some-inj (sym is ∙ rw same at h)))
      | inr (ne, v) ↦ (f, v ∙ h, refl)
    ]

    current_after : (g : Entry) × (after.at s.cur ≡ some g) × (g.reloaded ≡ false)
    current_after =
        let (f, l, unmarked) = p.current in
        let (g, m, same) = kept s.cur f l in (g, m, same ∙ unmarked)

    fresh_after : (d : ℕ) → s.next ≤ d → after.at d ≡ none
    unfolding after
    fresh_after d h = elim (put-cases c (some one_less) s.at d) [
      | inl (same, v) ↦ cc (p.fresh d h, same, is)
      | inr (ne, v) ↦ v ∙ p.fresh d h
    ]

    after-IsSound : IsSound (drop c held) after
    unfolding after
    after-IsSound = record {
      current = current_after;
      counted = counted_after;
      gone = gone_after;
      waits = waits_after;
      one = λ a b f g h k ne me.
          let (f', h', _) = was a f h in let (g', k', _) = was b g k in p.one a b f' g' h' k' ne me;
      busy = λ h. let (d, f, l, ne) = p.busy h in let (g, m, _) = kept d f l in (d, g, m, ne);
      fresh = fresh_after;
      not_null = p.not_null;
    }

  -- It is released here.
  module _ (last : (e.reloaded && ltb (e.ref_count - 1) 1) ≡ true) where
    not_current : (c == s.cur) ≡ false
    not_current = elim (Bool-cases (c == s.cur)) [
      | inr h ↦ h
      | inl h ↦
          let (f, l, unmarked) = p.current in
          let same : f ≡ e = some-inj (sym l ∙ rw (← (==_iff c s.cur).0 h) is) in
          ground (arith, ap (λ x. x.reloaded) same, unmarked, last)
    ]

    -- What is left, was there before.
    left : (d : ℕ) (f : Entry) → freed.at d ≡ some f → ((d == c) ≡ false) × (s.at d ≡ some f)
    unfolding freed
    left d f h = elim (put-cases c none s.at d) [
      | inl (same, v) ↦ cc
      | inr (ne, v) ↦ (ne, sym v ∙ h)
    ]

    -- Only the current one is left.
    alone : (d : ℕ) (f : Entry) → freed.at d ≡ some f → (d == s.cur) ≡ true
    alone d f h = elim (Bool-cases (d == s.cur)) [
      | inl k ↦ k
      | inr k ↦ let (ne, l) = left d f h in ground (arith, p.one d c f e l is k not_current)
    ]

    count_last : count c (drop c held) ≡ 0
    count_last = rw (count-drop_same c held, ← p.counted c e is) (ground arith)

    gone_freed : (d : ℕ) → freed.at d ≡ none → count d (drop c held) ≡ 0
    unfolding freed
    gone_freed d h = elim (put-cases c none s.at d) [
      | inl (same, v) ↦ rw same count_last
      | inr (ne, v) ↦ count-drop_other c d held ne ∙ p.gone d (sym v ∙ h)
    ]

    stays_current : (g : Entry) × (freed.at s.cur ≡ some g) × (g.reloaded ≡ false)
    unfolding freed put
    stays_current =
        let (g, l, unmarked) = p.current in
        let ne : (s.cur == c) ≡ false = ground (arith, not_current) in (g, rw ne l, unmarked)

    fresh_freed : (d : ℕ) → s.next ≤ d → freed.at d ≡ none
    unfolding freed
    fresh_freed d h = elim (put-cases c none s.at d) [
      | inl (same, v) ↦ v
      | inr (ne, v) ↦ v ∙ p.fresh d h
    ]

    freed-IsSound : IsSound (drop c held) freed
    unfolding freed
    freed-IsSound = record {
      current = stays_current;
      counted =
          λ d f h. let (ne, l) = left d f h in p.counted d f l ∙ sym (count-drop_other c d held ne);
      gone = gone_freed;
      waits = λ d f h ne. cc (alone d f h, ne);
      one = λ a b f g h k ne me. cc (alone a f h, ne);
      busy = λ h. cc;
      fresh = fresh_freed;
      not_null = p.not_null;
    }

-- The release of a reference that is held touches no freed memory, and the counts agree with the
-- references that are left.
pub config_release-IsSound :
    (held : List ℕ) (s : Configs) (c : ℕ)
    → IsSound held s
    → 0 < count c held
    → (t : Configs) × (config_release c s ≡ some t) × IsSound (drop c held) t
unfolding config_release free_config after freed one_less
config_release-IsSound held s c p has = elim (Option-cases (s.at c)) [
  | inl h ↦ absurd (omega (arith, p.gone c h))
  | inr (e, is) ↦ elim (Bool-cases (e.reloaded && ltb (e.ref_count - 1) 1)) [
    | inl last ↦ (
      freed held s c e is p has,
      rw (config_release, is, last) refl,
      freed-IsSound held s c e is p has last,
    )
    | inr stays ↦ (
      after held s c e is p has,
      rw (config_release, is, stays) refl,
      after-IsSound held s c e is p has stays,
    )
  ]
]
