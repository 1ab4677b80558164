-- ===== src/ConfigStore/Retrieve.antt =====
-- `config_retrieve` and those who use a configuration.
use messasy.Base.{
  ℕ, ◌+◌, ◌≤◌, ◌≡◌, ◌∙◌, sym, false, none, some, List, ◌∷◌, ◌==◌, inl, inr, refl, ap, arith,
}
use messasy.ConfigStore.{Entry, Configs, put, config_retrieve}
use messasy.ConfigStore.Invariant.{count, IsSound, put-cases, some-inj, count_same, count_other}

module _ (held : List ℕ) (s : Configs) (e : Entry) (is : s.at s.cur ≡ some e)
    (p : IsSound held s) where
  one_more : Entry
  one_more = record e { ref_count = e.ref_count + 1 }

  after : Configs
  after = record s { at = put s.cur (some one_more) s.at }

  -- What another configuration is, it was before.
  other : (c : ℕ) (f : Entry) → after.at c ≡ some f → (c == s.cur) ≡ false → s.at c ≡ some f
  unfolding after
  other c f h ne = elim (put-cases s.cur (some one_more) s.at c) [
    | inl (same, _) ↦ ground arith
    | inr (_, e) ↦ sym e ∙ h
  ]

  counted_after : (c : ℕ) (f : Entry) → after.at c ≡ some f → f.ref_count ≡ count c (s.cur ∷ held)
  unfolding after one_more
  counted_after c f h = elim (put-cases s.cur (some one_more) s.at c) [
    | inl (same, v) ↦
        let f_is : one_more ≡ f = some-inj (sym v ∙ h) in
        rw (← f_is, count_same c s.cur held (sym same))
          (omega (arith, p.counted s.cur e is, ap (λ k. count k held) same))
    | inr (ne, v) ↦ p.counted c f (sym v ∙ h) ∙ sym (count_other c s.cur held ne)
  ]

  gone_after : (c : ℕ) → after.at c ≡ none → count c (s.cur ∷ held) ≡ 0
  unfolding after
  gone_after c h = elim (put-cases s.cur (some one_more) s.at c) [
    | inl (same, v) ↦ cc
    | inr (ne, v) ↦ count_other c s.cur held ne ∙ p.gone c (sym v ∙ h)
  ]

  at_cur : after.at s.cur ≡ some one_more
  unfolding after put
  at_cur = ground arith

  fresh_after : (c : ℕ) → s.next ≤ c → after.at c ≡ none
  unfolding after
  fresh_after c h = elim (put-cases s.cur (some one_more) s.at c) [
    | inl (same, v) ↦ cc (p.fresh c h, same, is)
    | inr (ne, v) ↦ v ∙ p.fresh c h
  ]

  kept : (c : ℕ) (f : Entry) → s.at c ≡ some f → (c == s.cur) ≡ false → after.at c ≡ some f
  unfolding after put
  kept c f h ne = rw ne h

  after-IsSound : IsSound (s.cur ∷ held) after
  unfolding after one_more
  after-IsSound = record {
    current = (one_more, at_cur, cc (p.current.2, p.current.1, is));
    counted = counted_after;
    gone = gone_after;
    waits = λ c f h ne. p.waits c f (other c f h ne) ne;
    one = λ c d f g h k ne me. p.one c d f g (other c f h ne) (other d g k me) ne me;
    busy = λ h. let (c, f, l, ne) = p.busy h in (c, f, kept c f l ne, ne);
    fresh = fresh_after;
    not_null = p.not_null;
  }

-- `config_retrieve` gives the current configuration, and the counts agree with the references
-- held and the new one.
pub config_retrieve-IsSound :
    (held : List ℕ) (s : Configs)
    → IsSound held s
    → (t : Configs) × (config_retrieve s ≡ some (s.cur, t)) × IsSound (s.cur ∷ held) t
unfolding config_retrieve after one_more
config_retrieve-IsSound held s p =
    let (e, is, unmarked) = p.current in
    (after held s e is p, rw (config_retrieve, is) refl, after-IsSound held s e is p)
