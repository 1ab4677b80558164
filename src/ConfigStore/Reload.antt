-- ===== src/ConfigStore/Reload.antt =====
-- `reload_config` with those who use the old configuration.
use messasy.Base.{
  ℕ, ◌+◌, ◌≤◌, ◌<◌, ◌≡◌, ◌∙◌, sym, true, false, Option, none, some, List, ltb, ◌==◌, ==_iff,
  Bool-cases, Option-cases, inl, inr, refl, ap, arith, r_success, r_positive,
}
use messasy.Config.{Config}
use messasy.ConfigStore.{Entry, Configs, put, free_config, switch, retire, reload_config}
use messasy.ConfigStore.Invariant.{count, IsSound, put-cases, some-inj}

module _ (held : List ℕ) (s : Configs) (cfg : Config) (idle : s.reloading ≡ false)
    (p : IsSound held s) where
  abbrev new : Entry
  new = record { ref_count = 0; reloaded = false; cfg = cfg }

  abbrev old : Entry
  old = p.current.0

  -- Only the current configuration is in memory.
  alone : (d : ℕ) (f : Entry) → s.at d ≡ some f → d ≡ s.cur
  alone d f h = elim (Bool-cases (d == s.cur)) [
    | inl k ↦ (==_iff d s.cur).0 k
    | inr k ↦ cc ((p.waits d f h k).2, idle)
  ]

  -- Nobody holds the new address.
  unheld : count s.next held ≡ 0
  unheld = p.gone s.next (p.fresh s.next (omega arith))

  apart : (s.cur == s.next) ≡ false
  apart = elim (Bool-cases (s.cur == s.next)) [
    | inr k ↦ k
    | inl k ↦ cc (p.current.1, ap s.at ((==_iff s.cur s.next).0 k), p.fresh s.next (omega arith))
  ]

  -- The configurations once the old one is freed, or marked.
  module _ (o : Option Entry) where
    both : ℕ → Option Entry
    both = put s.cur o (put s.next (some new) s.at)

    data Place (d : ℕ) : Type 0 where
      at_old : d ≡ s.cur → both d ≡ o → Place d
      at_new : d ≡ s.next → (d == s.cur) ≡ false → both d ≡ some new → Place d
      elsewhere :
          (d == s.cur) ≡ false → (d == s.next) ≡ false → both d ≡ none → s.at d ≡ none → Place d

    places : (d : ℕ) → Place d
    unfolding both
    places d = elim (put-cases s.cur o (put s.next (some new) s.at) d) [
      | inl (same, v) ↦ at_old same v
      | inr (ne, v) ↦ elim (put-cases s.next (some new) s.at d) [
        | inl (same, w) ↦ at_new same ne (v ∙ w)
        | inr (me, w) ↦ elim (Option-cases (s.at d)) [
          | inl k ↦ elsewhere ne me (v ∙ w ∙ k) k
          | inr (f, k) ↦ ground (arith, alone d f k, ne)
        ]
      ]
    ]

  abbrev marked : Entry
  marked = record old { reloaded = true }

  replaced : Configs
  replaced = record s { at = both (some marked); cur = s.next; reloading = true; next = s.next + 1 }

  freed : Configs
  freed = record s { at = both none; cur = s.next; reloading = false; next = s.next + 1 }

  -- The old address is below the new one.
  below : s.cur < s.next
  below = elim (Bool-cases (ltb s.cur s.next)) [
    | inl k ↦ ground (arith, k)
    | inr k ↦ cc (p.current.1, p.fresh s.cur (ground (arith, k)))
  ]

  at_next : (o : Option Entry) → both o s.next ≡ some new
  at_next o = elim (places o s.next) [
    | at_old same v ↦ absurd (omega (arith, below))
    | at_new _ _ v ↦ v
    | elsewhere _ ne _ _ ↦ absurd (ground arith)
  ]

  at_cur : (o : Option Entry) → both o s.cur ≡ o
  at_cur o = elim (places o s.cur) [
    | at_old _ v ↦ v
    | at_new same _ _ ↦ absurd (omega (arith, below))
    | elsewhere ne _ _ _ ↦ absurd (ground arith)
  ]

  -- A configuration in memory that is not the new one is the old one.
  must_be_old :
      (o : Option Entry) (d : ℕ) (f : Entry) → both o d ≡ some f → (d == s.next) ≡ false → d ≡ s.cur
  must_be_old o d f h ne = elim (places o d) [
    | at_old same _ ↦ same
    | at_new same _ _ ↦ absurd (ground arith)
    | elsewhere _ _ v _ ↦ cc
  ]

  fresh_above : (o : Option Entry) (d : ℕ) → s.next + 1 ≤ d → both o d ≡ none
  fresh_above o d h = elim (places o d) [
    | at_old same _ ↦ absurd (omega (arith, below))
    | at_new same _ _ ↦ absurd (omega arith)
    | elsewhere _ _ v _ ↦ v
  ]

  gone_both :
      (o : Option Entry) (d : ℕ)
      → (o ≡ none → count s.cur held ≡ 0)
      → both o d ≡ none
      → count d held ≡ 0
  gone_both o d last h = elim (places o d) [
    | at_old same v ↦ rw same (last (sym v ∙ h))
    | at_new _ _ v ↦ cc
    | elsewhere _ _ _ k ↦ p.gone d k
  ]

  counted_both :
      (o : Option Entry) (d : ℕ) (f : Entry)
      → ((g : Entry) → o ≡ some g → g.ref_count ≡ old.ref_count)
      → both o d ≡ some f
      → f.ref_count ≡ count d held
  counted_both o d f same_count h = elim (places o d) [
    | at_old same v ↦ same_count f (sym v ∙ h) ∙ rw same (p.counted s.cur old p.current.1)
    | at_new same _ v ↦ let f_is : new ≡ f = some-inj (sym v ∙ h) in rw (← f_is, same) (sym unheld)
    | elsewhere _ _ v _ ↦ cc
  ]

  -- Somebody holds the old configuration.
  module _ (used : ltb old.ref_count 1 ≡ false) where
    replaced-IsSound : IsSound held replaced
    unfolding replaced
    replaced-IsSound = record {
      current = (new, at_next _, refl);
      counted = λ d f h. counted_both _ d f (λ g k. sym (ap (λ x. x.ref_count) (some-inj k))) h;
      gone = λ d h. gone_both _ d (λ k. cc) h;
      waits = λ d f h ne. waits_marked d f (must_be_old _ d f h ne) h;
      one = λ a b f g h k ne me. must_be_old _ a f h ne ∙ sym (must_be_old _ b g k me);
      busy = λ h. (s.cur, marked, at_cur _, apart);
      fresh = λ d h. fresh_above _ d h;
      not_null = omega (arith, below);
    }
      where
        waits_marked :
            (d : ℕ) (f : Entry)
            → d ≡ s.cur
            → both (some marked) d ≡ some f
            → (f.reloaded ≡ true) × (1 ≤ f.ref_count) × (true ≡ true)
        waits_marked d f same h =
            let f_is : marked ≡ f = some-inj (sym (at_cur _) ∙ rw same at h) in
            rw (← f_is) (refl, ground (arith, used), refl)

  -- Nobody does.
  module _ (unused : ltb old.ref_count 1 ≡ true) where
    none_held : count s.cur held ≡ 0
    none_held = rw (← p.counted s.cur old p.current.1) (ground (arith, unused))

    freed-IsSound : IsSound held freed
    unfolding freed
    freed-IsSound = record {
      current = (new, at_next _, refl);
      counted = λ d f h. counted_both _ d f (λ g k. cc) h;
      gone = λ d h. gone_both _ d (λ k. none_held) h;
      waits = λ d f h ne. cc (must_be_old _ d f h ne, at_cur none, h);
      one = λ a b f g h k ne me. must_be_old _ a f h ne ∙ sym (must_be_old _ b g k me);
      busy = λ h. cc;
      fresh = λ d h. fresh_above _ d h;
      not_null = omega (arith, below);
    }

  still_old : put s.next (some new) s.at s.cur ≡ some old
  unfolding put
  still_old = rw apart p.current.1

  retire-freed :
      ltb old.ref_count 1 ≡ true
      → retire s.cur (switch cfg (record s { reloading = true })) ≡ some freed
  unfolding retire switch free_config freed both
  retire-freed unused = rw (retire, still_old, unused) refl

  retire-replaced :
      ltb old.ref_count 1 ≡ false
      → retire s.cur (switch cfg (record s { reloading = true })) ≡ some replaced
  unfolding retire switch replaced both
  retire-replaced used = rw (retire, still_old, used) refl

  cur_ne : (s.cur == 0) ≡ false
  cur_ne = ground (arith, p.not_null)

  gives_freed : ltb old.ref_count 1 ≡ true → reload_config (some cfg) s ≡ some (r_success, freed)
  unfolding reload_config
  gives_freed unused = rw (idle, cur_ne, retire-freed unused) refl

  gives_replaced :
      ltb old.ref_count 1 ≡ false → reload_config (some cfg) s ≡ some (r_success, replaced)
  unfolding reload_config
  gives_replaced used = rw (idle, cur_ne, retire-replaced used) refl

abbrev pub Reloaded : List ℕ → Config → Configs → Type 0
Reloaded held cfg t = IsSound held t × (e : Entry) × (t.at t.cur ≡ some e) × (e.cfg ≡ cfg)

-- With `config_reloading` set, `reload_config` changes nothing; otherwise, if the file is read,
-- it succeeds, the new configuration is the current one, and the counts still agree with the
-- references held.
pub reload_config-IsSound :
    (held : List ℕ) (s : Configs) (cfg : Config)
    → IsSound held s
    → (s.reloading ≡ true → reload_config (some cfg) s ≡ some (r_positive, s))
      × (s.reloading ≡ false
          → (t : Configs) × (reload_config (some cfg) s ≡ some (r_success, t))
            × Reloaded held cfg t)
unfolding reload_config freed replaced
reload_config-IsSound held s cfg p = ((λ h. rw h refl), λ idle. at_count idle)
  where
    at_count :
        s.reloading ≡ false
        → (t : Configs) × (reload_config (some cfg) s ≡ some (r_success, t)) × Reloaded held cfg t
    at_count idle = elim (Bool-cases (ltb (old held s cfg idle p).ref_count 1)) [
      | inl unused ↦ (
        freed held s cfg idle p,
        gives_freed held s cfg idle p unused,
        (
          freed-IsSound held s cfg idle p unused,
          new held s cfg idle p,
          at_next held s cfg idle p none,
          refl,
        ),
      )
      | inr used ↦ (
        replaced held s cfg idle p,
        gives_replaced held s cfg idle p used,
        (
          replaced-IsSound held s cfg idle p used,
          new held s cfg idle p,
          at_next held s cfg idle p _,
          refl,
        ),
      )
    ]
