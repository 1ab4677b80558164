-- ===== src/Strlist/Returns.antt =====
-- Total correctness of a command on the store: no fault, fuel enough, and a postcondition.
use messasy.Strlist.{
  Store, Run, ok, Cmd, and_then, load, set_next, release, null, node, Node, Ptr, write,
}
use messasy.Base.{◌≡◌, ◌<◌, some, none, arith, false, ◌==◌}

pub data Returns {A : Type 0} (P : A → Store → Type 0) : Run A → Type 0 where
  returns : {a : A} {s : Store} → P a s → Returns P (ok a s)

module _ {A : Type 0} {P : A → Store → Type 0} where
  -- A run that returns, and what is run on its result.
  pub bind :
      {B : Type 0} {Q : B → Store → Type 0} {r : Run A} {k : A → Cmd B}
      → Returns P r
      → ((a : A) (s : Store) → P a s → Returns Q (k a s))
      → Returns Q (and_then r k)
  bind (returns p) next = next _ _ p

  -- So for any property of the whole run, a fault among them.
  pub bind_any :
      {B : Type 0} (Q : Run B → Type 0) {r : Run A} {k : A → Cmd B}
      → Returns P r
      → ((a : A) (s : Store) → P a s → Q (k a s))
      → Q (and_then r k)
  bind_any Q (returns p) next = next _ _ p

  pub weaken :
      {Q : A → Store → Type 0} {r : Run A}
      → Returns P r
      → ((a : A) (s : Store) → P a s → Q a s)
      → Returns Q r
  weaken (returns p) imp = returns (imp _ _ p)

pub pos_ne : (p : Ptr) → 0 < p → (p == null) ≡ false
pos_ne p h = ground arith

module _ (s : Store) (p : Ptr) {v : Node} (pos : 0 < p) (live : s.cells p ≡ some v) where
  pub load-ok : load p s ≡ ok v s
  unfolding load
  load-ok = rw (pos_ne p pos, live)

  pub set_next-ok : (q : Ptr) → set_next p q s ≡ ok tt (write s p (some (node v.str q)))
  unfolding set_next
  set_next-ok q = rw load-ok

  pub release-ok : release p s ≡ ok tt (write s p none)
  unfolding release
  release-ok = rw load-ok
