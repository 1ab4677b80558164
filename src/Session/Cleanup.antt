-- ===== src/Session/Cleanup.antt =====
-- What the end of a mail, an abort and the end of a connection leave.
use messasy.Base.{
  ◌<◌, ◌≡◌, refl, true, false, Option, none, some, ◌==◌, ap, inl, inr, Bool-cases, ==_iff,
}
use messasy.Config.{smfis_continue}
use messasy.Strlist.{null, Store, Run, ok, Handle, handle, free_strlist}
use messasy.Strlist.Returns.{Returns, returns}
use messasy.Strlist.Free.{Without, free_strlist-Without}
use messasy.Session.{Priv, World, free_rcptto, free_addrmatched, free_lists, eom_cleanup}
use messasy.Session.Invariant.{Holds}

-- Nothing of a mail is left.
unfoldable pub emptied : {M : Type 0} → Priv M → Priv M
emptied p = record p {
  envfrom = none;
  rcptto = handle null p.rcptto.tail;
  addrmatched = handle null p.addrmatched.tail;
  header_existence = false;
}

abbrev pub Freed : Run (Unit {0}) → Type 0
Freed r = (t : Store) × (r ≡ ok tt t) × (0 < t.brk)

free_strlist-Freed : (s : Store) (l : Handle) → Holds s l → Freed (free_strlist l.head s)
free_strlist-Freed s l h = rw h.is.head (brk_of (free_strlist-Without s h.cells h.is.chain))
  where
    brk_of : {r : Run (Unit {0})} → Returns (λ _. Without h.cells s) r → Freed r
    brk_of (returns {s = t} (gone, e)) = (t, refl, rw e h.pos)

-- A pointer that is NULL already.
at_null : (l : Handle) → (l.head == null) ≡ true → l ≡ handle null l.tail
at_null l e = ap (λ h. handle h l.tail) ((==_iff l.head null).0 e)

module _ {M : Type 0} where
  free_rcptto-gives :
      (p : Priv M) (w : World M)
      → Holds w.rcpts p.rcptto
      → (t : Store) × (free_rcptto p w
          ≡ some (record p { rcptto = handle null p.rcptto.tail }, record w { rcpts = t }))
        × (0 < t.brk)
  unfolding free_rcptto
  free_rcptto-gives p w h = elim (Bool-cases (p.rcptto.head == null)) [
    | inl e ↦ (w.rcpts, rw (free_rcptto, e) (ap at (at_null p.rcptto e)), h.pos)
    | inr e ↦
        let (t, gives, pos) = free_strlist-Freed w.rcpts p.rcptto h in
        (t, rw (free_rcptto, e, gives) refl, pos)
  ]
    where
      at : Handle → Option (Priv M × World M)
      at l = some (record p { rcptto = l }, w)

  free_addrmatched-gives :
      (p : Priv M) (w : World M)
      → Holds w.saved p.addrmatched
      → (t : Store) × (free_addrmatched p w
          ≡ some
              (record p { addrmatched = handle null p.addrmatched.tail }, record w { saved = t }))
        × (0 < t.brk)
  unfolding free_addrmatched
  free_addrmatched-gives p w h = elim (Bool-cases (p.addrmatched.head == null)) [
    | inl e ↦ (w.saved, rw (free_addrmatched, e) (ap at (at_null p.addrmatched e)), h.pos)
    | inr e ↦
        let (t, gives, pos) = free_strlist-Freed w.saved p.addrmatched h in
        (t, rw (free_addrmatched, e, gives) refl, pos)
  ]
    where
      at : Handle → Option (Priv M × World M)
      at l = some (record p { addrmatched = l }, w)

  -- `free_lists` frees both lists, and sets the heads to NULL.
  pub free_lists-gives :
      (p : Priv M) (w : World M)
      → Holds w.rcpts p.rcptto
      → Holds w.saved p.addrmatched
      → (s : Store) × (t : Store) × (free_lists p w
          ≡ some (
            record p {
              rcptto = handle null p.rcptto.tail;
              addrmatched = handle null p.addrmatched.tail;
            },
            record w { rcpts = s; saved = t },
          ))
        × (0 < s.brk)
        × (0 < t.brk)
  unfolding free_lists
  free_lists-gives p w hr hs =
      let (s, e, pos) = free_rcptto-gives p w hr in
      let q = record p { rcptto = handle null p.rcptto.tail } in
      let (t, f, pos') = free_addrmatched-gives q (record w { rcpts = s }) hs in
      (s, t, rw (free_lists, e, f) refl, pos, pos')

  -- `eom_cleanup` frees the lists of the mail and forgets it.
  pub eom_cleanup-emptied :
      (p : Priv M) (w : World M)
      → Holds w.rcpts p.rcptto
      → Holds w.saved p.addrmatched
      → (s : Store) × (t : Store) × (eom_cleanup (record w { ctx = some p })
          ≡ some (smfis_continue, record w { rcpts = s; saved = t; ctx = some (emptied p) }))
        × (0 < s.brk)
        × (0 < t.brk)
  unfolding eom_cleanup emptied
  eom_cleanup-emptied p w hr hs =
      let (s, t, e, pos, pos') =
        free_lists-gives (record p { envfrom = none }) (record w { ctx = some p }) hr hs in
      (s, t, rw (eom_cleanup, e) refl, pos, pos')
