-- ===== src/Strlist/Chain.antt =====
-- What a chain of nodes stands for: the address and the string of each node, in order.
use messasy.Base.{
  ◌≤◌, ◌<◌, ◌≡◌, refl, sym, ◌∙◌, Bool, true, false, ◌||◌, Option, some, List, [], ◌∷◌, ◌++◌, ◌==◌,
  arith, Bytes, ap, Bool-cases, inl, inr, ==_iff,
}
use mathlib.Core.Bool.{false≢true}
use messasy.Strlist.{Ptr, null, Node, node, Store, update, write, Handle}

abbrev pub Cells : Type 0
Cells = List (Ptr × Bytes)

abbrev pub head_or : Ptr → Cells → Ptr
head_or stop [] = stop
head_or stop ((a, _) ∷ xs) = a

abbrev pub last : Ptr × Bytes → Cells → Ptr × Bytes
last c [] = c
last c (x ∷ xs) = last x xs

abbrev pub has : Ptr → Cells → Bool
has p [] = false
has p ((a, _) ∷ xs) = (a == p) || has p xs

abbrev pub strings : Cells → List Bytes
strings [] = []
strings ((_, v) ∷ xs) = v ∷ strings xs

-- The nodes of `xs` are live, distinct and below `brk`, and each leads to the next one, the last
-- one to `stop`.
abbrev pub Chain : Store → Ptr → Cells → Type 0
Chain s stop [] = Unit
Chain s stop ((a, v) ∷ xs) =
    (0 < a)
    × (a < s.brk)
    × (s.cells a ≡ some (node v (head_or stop xs)))
    × (has a xs ≡ false)
    × Chain s stop xs

abbrev pub IsTail : Ptr → Cells → Type 0
IsTail t [] = Unit
IsTail t (c ∷ xs) = t ≡ (last c xs).0

-- A pair of pointers stands for the list: NULL for the empty one, whatever its tail.
pub record IsStrlist (s : Store) (l : Handle) (xs : Cells) : Type 0 where
  pub chain : Chain s null xs
  pub head : l.head ≡ head_or null xs
  pub tail : IsTail l.tail xs

-- Nothing that `s` holds outside of `xs` differs in `t`, and `t` has given out no fewer addresses.
pub record Frame (xs : Cells) (s t : Store) : Type 0 where
  pub same : (a : Ptr) → a < s.brk → has a xs ≡ false → t.cells a ≡ s.cells a
  pub grows : s.brk ≤ t.brk

abbrev pub Disjoint : Cells → Cells → Type 0
Disjoint xs ys = (a : Ptr) → has a xs ≡ true → has a ys ≡ false

pub has-append : (a : Ptr) (xs ys : Cells) → has a (xs ++ ys) ≡ (has a xs || has a ys)
has-append a [] ys = refl
has-append a (x ∷ xs) ys = ground (arith, has-append a xs ys)

pub strings-append : (xs ys : Cells) → strings (xs ++ ys) ≡ strings xs ++ strings ys
strings-append [] ys = refl
strings-append (x ∷ xs) ys = ap (◌∷◌ (x.1)) (strings-append xs ys)

pub has-last : (c : Ptr × Bytes) (xs : Cells) → has (last c xs).0 (c ∷ xs) ≡ true
has-last c [] = ground arith
has-last c (x ∷ xs) = ground (arith, has-last x xs)

pub last-append : (c d : Ptr × Bytes) (xs : Cells) → last c (xs ++ (d ∷ [])) ≡ d
last-append c d [] = refl
last-append c d (x ∷ xs) = last-append x d xs

-- Addresses told apart by a list of nodes.
pub has_ne : (p a : Ptr) (xs : Cells) → has p xs ≡ true → has a xs ≡ false → (a == p) ≡ false
has_ne p a xs h k = elim (Bool-cases (a == p)) [
  | inl e ↦ absurd (false≢true (sym k ∙ rw ((==_iff a p).0 e) h))
  | inr e ↦ e
]

pub update_ne :
    (h : Ptr → Option Node) (p a : Ptr) (c : Option Node) → (a == p) ≡ false → update h p c a ≡ h a
unfolding update
update_ne h p a c e = rw e

pub update_eq : (h : Ptr → Option Node) (p : Ptr) (c : Option Node) → update h p c p ≡ c
unfolding update
update_eq h p c = ground arith

-- A chain survives any change that spares its nodes.
pub frame :
    (s t : Store) (stop : Ptr) (xs : Cells)
    → Chain s stop xs
    → ((a : Ptr) → has a xs ≡ true → t.cells a ≡ s.cells a)
    → s.brk ≤ t.brk
    → Chain t stop xs
frame s t stop [] c same le = tt
frame s t stop ((a, v) ∷ xs) (pos, lt, e, out, rest) same le = (
  pos,
  omega arith,
  same a (ground arith) ∙ e,
  out,
  frame s t stop xs rest (λ b h. same b (ground arith)) le,
)

pub Chain-lt :
    (s : Store) (stop : Ptr) (xs : Cells)
    → Chain s stop xs
    → (a : Ptr) → has a xs ≡ true
    → a < s.brk
Chain-lt s stop [] c a h = absurd (cc)
Chain-lt s stop ((b, v) ∷ xs) (pos, lt, e, out, rest) a h =
    ground (arith, Chain-lt s stop xs rest a)

pub last-holds :
    (s : Store) (stop : Ptr) (c : Ptr × Bytes) (xs : Cells)
    → Chain s stop (c ∷ xs)
    → (0 < (last c xs).0) × (s.cells (last c xs).0 ≡ some (node (last c xs).1 stop))
last-holds s stop c [] (pos, lt, e, out, rest) = (pos, e)
last-holds s stop c (x ∷ xs) (pos, lt, e, out, rest) = last-holds s stop x xs rest

-- Writing the `next` of the last node redirects the end of the chain.
pub relink :
    (s : Store) (stop new : Ptr) (c : Ptr × Bytes) (xs : Cells)
    → Chain s stop (c ∷ xs)
    → Chain (write s (last c xs).0 (some (node (last c xs).1 new))) new (c ∷ xs)
unfolding update
relink s stop new c [] (pos, lt, e, out, rest) = (pos, lt, ground arith, refl, tt)
relink s stop new c (x ∷ xs) (pos, lt, e, out, rest) = (
  pos,
  lt,
  update_ne s.cells _ _ _ (has_ne _ _ (x ∷ xs) (has-last x xs) out) ∙ e,
  out,
  relink s stop new x xs rest,
)

pub Chain-append :
    (s : Store) (stop : Ptr) (xs ys : Cells)
    → Chain s (head_or stop ys) xs
    → Chain s stop ys
    → Disjoint xs ys
    → Chain s stop (xs ++ ys)
Chain-append s stop [] ys c d apart = d
Chain-append s stop ((a, v) ∷ []) ys (pos, lt, e, out, rest) d apart =
    (pos, lt, e, apart a (ground arith), d)
Chain-append s stop ((a, v) ∷ (b, w) ∷ xs) ys (pos, lt, e, out, rest) d apart = (
  pos,
  lt,
  e,
  ground (arith, has-append a ((b, w) ∷ xs) ys, apart a),
  Chain-append s stop ((b, w) ∷ xs) ys rest d (λ k h. apart k (ground arith)),
)

or_false : (x y : Bool) → (x || y) ≡ false → (x ≡ false) × (y ≡ false)
or_false x y h = ground arith

has-append_false :
    (a : Ptr) (xs ys : Cells) → has a (xs ++ ys) ≡ false → (has a xs ≡ false) × (has a ys ≡ false)
has-append_false a xs ys h = or_false (has a xs) (has a ys) (sym (has-append a xs ys) ∙ h)

-- A chain is taken apart where two lists meet.
pub Chain-split :
    (s : Store) (stop : Ptr) (xs ys : Cells)
    → Chain s stop (xs ++ ys)
    → Chain s (head_or stop ys) xs × Chain s stop ys × Disjoint xs ys
Chain-split s stop [] ys c = (tt, c, λ a h. cc)
Chain-split s stop ((a, v) ∷ []) ys (pos, lt, e, out, rest) =
    ((pos, lt, e, refl, tt), rest, λ b h. rw (← (==_iff a b).0 (ground arith)) out)
Chain-split s stop ((a, v) ∷ (b, w) ∷ xs) ys (pos, lt, e, out, rest) =
    let (front, back, apart) = Chain-split s stop ((b, w) ∷ xs) ys rest in
    let (o1, o2) = has-append_false a ((b, w) ∷ xs) ys out in
    (
      (pos, lt, e, o1, front),
      back,
      λ k h. elim (Bool-cases (a == k)) [
        | inl here ↦ rw (← (==_iff a k).0 here) o2
        | inr there ↦ apart k (rw there at h)
      ],
    )
