-- ===== src/Strlist/Grows.antt =====
-- No operation on lists takes back an address that was given out.
use messasy.Base.{ℕ, zero, suc, ◌+◌, ◌≤◌, ◌==◌, Bytes, arith, Bool-cases, Option-cases, inl, inr}
use messasy.Strlist.{
  Ptr, null, Store, Run, ok, fault, out_of_fuel, Cmd, and_then, Handle, load, set_next, release,
  make_strlist, link_last, push_strlist, attach_strlist, free_loop, free_strlist,
}

abbrev pub Grows : {A : Type 0} → Store → Run A → Type 0
Grows s (ok a t) = s.brk ≤ t.brk
Grows s fault = Unit
Grows s out_of_fuel = Unit

Grows-after : {B : Type 0} (s t : Store) (r : Run B) → s.brk ≤ t.brk → Grows t r → Grows s r
Grows-after s t (ok a u) le g = omega arith
Grows-after s t fault le g = tt
Grows-after s t out_of_fuel le g = tt

module _ {A B : Type 0} where
  pub Grows-bind :
      (s : Store) (r : Run A) (k : A → Cmd B)
      → Grows s r
      → ((a : A) (t : Store) → Grows t (k a t))
      → Grows s (and_then r k)
  Grows-bind s (ok a t) k g next = Grows-after s t (k a t) g (next a t)
  Grows-bind s fault k g next = tt
  Grows-bind s out_of_fuel k g next = tt

pub load-Grows : (p : Ptr) (s : Store) → Grows s (load p s)
unfolding load
load-Grows p s = elim (Bool-cases (p == null)) [
  | inl e ↦ rw e tt
  | inr e ↦ elim (Option-cases (s.cells p)) [
    | inl gone ↦ rw (e, gone) tt
    | inr (n, live) ↦ rw (e, live) (omega arith)
  ]
]

pub set_next-Grows : (p q : Ptr) (s : Store) → Grows s (set_next p q s)
unfolding set_next
set_next-Grows p q s = Grows-bind s (load p s) _ (load-Grows p s) λ n t. omega arith

pub release-Grows : (p : Ptr) (s : Store) → Grows s (release p s)
unfolding release
release-Grows p s = Grows-bind s (load p s) _ (load-Grows p s) λ n t. omega arith

link_last-Grows : (l : Handle) (p : Ptr) (s : Store) → Grows s (link_last l p s)
unfolding link_last
link_last-Grows l p s = elim (Bool-cases (l.head == null)) [
  | inl e ↦ rw e (omega arith)
  | inr e ↦
      rw e (Grows-bind s (set_next l.tail p s) _ (set_next-Grows l.tail p s) λ n t. omega arith)
]

pub push_strlist-Grows : (l : Handle) (v : Bytes) (s : Store) → Grows s (push_strlist l v s)
unfolding push_strlist make_strlist
push_strlist-Grows l v s =
    Grows-bind s (make_strlist v s) (λ p. link_last l p) (omega arith) λ p t. link_last-Grows l p t

pub attach_strlist-Grows : (l : Handle) (p : Ptr) (s : Store) → Grows s (attach_strlist l p s)
unfolding attach_strlist
attach_strlist-Grows l p s =
    Grows-bind s (set_next p null s) _ (set_next-Grows p null s) λ _ t. link_last-Grows l p t

free_loop-Grows : (k : ℕ) (p : Ptr) (s : Store) → Grows s (free_loop k p s)
unfolding free_loop
free_loop-Grows zero p s = tt
free_loop-Grows (suc k) p s = elim (Bool-cases (p == null)) [
  | inl e ↦ rw e (omega arith)
  | inr e ↦ rw e (
      Grows-bind s (load p s) _ (load-Grows p s)
        λ n t. Grows-bind t (release p t) _ (release-Grows p t) λ _ u. free_loop-Grows k n.next u)
]

pub free_strlist-Grows : (p : Ptr) (s : Store) → Grows s (free_strlist p s)
unfolding free_strlist
free_strlist-Grows p s = free_loop-Grows (s.brk + 1) p s
