-- ===== src/Strlist/Push.antt =====
-- `push_strlist` and `attach_strlist` append to the list.
use messasy.Base.{
  ℕ, ◌+◌, ◌<◌, ◌≡◌, refl, ◌∙◌, false, Option, some, [], ◌∷◌, ◌++◌, ◌==◌, arith, Bytes, Bool-cases,
  inl, inr,
}
use messasy.Strlist.{
  Ptr, null, Node, node, Store, update, write, Handle, link_last, push_strlist, attach_strlist,
  make_strlist,
}
use messasy.Strlist.Returns
use messasy.Strlist.Returns.{Returns, returns, load-ok, set_next-ok, release-ok, pos_ne}
use messasy.Strlist.Chain.{
  Cells, last, has, Chain, IsTail, IsStrlist, Frame, Disjoint, has-append, last-append, has-last,
  has_ne, update_ne, update_eq, frame, Chain-lt, last-holds, relink, Chain-append,
}

-- A node that no list holds: live, and the last of its chain.
pub record IsSingle (s : Store) (p : Ptr) (v : Bytes) : Type 0 where
  pub pos : 0 < p
  pub lt : p < s.brk
  pub live : s.cells p ≡ some (node v null)

-- The list has one node more at its end, and nothing outside of it has changed.
abbrev pub Appended : Store → Cells → Ptr → Bytes → Handle → Store → Type 0
Appended s xs p v l t = IsStrlist t l (xs ++ ((p, v) ∷ [])) × Frame xs s t × (t.brk ≡ s.brk)

IsTail-append : (p : Ptr) (v : Bytes) (xs : Cells) → IsTail p (xs ++ ((p, v) ∷ []))
IsTail-append p v [] = refl
IsTail-append p v (x ∷ xs) = rw last-append

Disjoint-single : (p : Ptr) (v : Bytes) (xs : Cells) → has p xs ≡ false → Disjoint xs ((p, v) ∷ [])
Disjoint-single p v xs out a h = rw (has_ne a p xs h out)

link-cons :
    (s : Store) (l : Handle) (c : Ptr × Bytes) (xs : Cells) (p : Ptr) (v : Bytes)
    → IsStrlist s l (c ∷ xs)
    → IsSingle s p v
    → has p (c ∷ xs) ≡ false
    → Returns (Appended s (c ∷ xs) p v) (link_last l p s)
unfolding link_last
link-cons s l c xs p v is one out =
    let (lp, ll) = last-holds s null c xs is.chain in
    let t = write s (last c xs).0 (some (node (last c xs).1 p)) in
    let ne : (p == (last c xs).0) ≡ false = has_ne (last c xs).0 p (c ∷ xs) (has-last c xs) out in
    let alone : (t.cells p ≡ some (node v null)) = update_ne s.cells _ p _ ne ∙ one.live in
    rw (is.head, pos_ne c.0 is.chain.0, is.tail, set_next-ok s (last c xs).0 lp ll p)
      (returns (
        record {
          chain =
              Chain-append t null (c ∷ xs) ((p, v) ∷ []) (relink s null p c xs is.chain)
                (one.pos, one.lt, alone, refl, tt) (Disjoint-single p v (c ∷ xs) out);
          head = refl;
          tail = IsTail-append p v (c ∷ xs);
        },
        record {
          same = λ a h k. update_ne s.cells _ a _ (has_ne _ a (c ∷ xs) (has-last c xs) k);
          grows = omega arith;
        },
        refl,
      ))

pub link_last-Appended :
    (s : Store) (l : Handle) (xs : Cells) (p : Ptr) (v : Bytes)
    → IsStrlist s l xs
    → IsSingle s p v
    → has p xs ≡ false
    → Returns (Appended s xs p v) (link_last l p s)
unfolding link_last
link_last-Appended s l [] p v is one out = rw is.head (
    returns (
      record { chain = (one.pos, one.lt, one.live, refl, tt); head = refl; tail = refl },
      record { same = λ a h k. refl; grows = omega arith },
      refl,
    ))
link_last-Appended s l (c ∷ xs) p v is one out = link-cons s l c xs p v is one out

-- What `push_strlist` makes of the store: one node more, at the address that was next.
abbrev pub Pushed : Store → Cells → Bytes → Handle → Store → Type 0
Pushed s xs v l t = IsStrlist t l (xs ++ ((s.brk, v) ∷ [])) × Frame xs s t × (t.brk ≡ s.brk + 1)

not-has-brk : (s : Store) (stop : Ptr) (xs : Cells) → Chain s stop xs → has s.brk xs ≡ false
not-has-brk s stop xs c = elim (Bool-cases (has s.brk xs)) [
  | inl h ↦ absurd (omega (arith, Chain-lt s stop xs c s.brk h))
  | inr h ↦ h
]

eq_sym : (a b : ℕ) → (a == b) ≡ false → (b == a) ≡ false
eq_sym a b h = ground arith

lt_ne : (a b : ℕ) → a < b → (a == b) ≡ false
lt_ne a b h = ground arith

-- A frame over an allocation and one over what follows it.
Frame-alloc :
    (xs : Cells) (s t : Store) (n : Node)
    → Frame xs (record { cells = update s.cells s.brk (some n); brk = s.brk + 1 }) t
    → Frame xs s t
Frame-alloc xs s t n f = record {
  same = λ a h k. f.same a (omega arith) k ∙ update_ne s.cells s.brk a (some n) (lt_ne a s.brk h);
  grows = omega (arith, f.grows);
}

-- `push_strlist` appends one new node with the string to a list, and changes nothing outside of
-- the list.
pub push_strlist-Pushed :
    (s : Store) (l : Handle) (xs : Cells) (v : Bytes)
    → 0 < s.brk
    → IsStrlist s l xs
    → Returns (Pushed s xs v) (push_strlist l v s)
unfolding push_strlist make_strlist
push_strlist-Pushed s l xs v pos is =
    let u : Store = record { cells = update s.cells s.brk (some (node v null)); brk = s.brk + 1 } in
    let out = not-has-brk s null xs is.chain in
    let kept =
      frame s u null xs is.chain
        (λ a h. update_ne s.cells s.brk a _ (lt_ne a s.brk (Chain-lt s null xs is.chain a h)))
        (omega arith) in
    Returns.weaken
      (link_last-Appended u l xs s.brk v (record { chain = kept; head = is.head; tail = is.tail })
        (record { pos = pos; lt = omega arith; live = update_eq s.cells s.brk _ }) out)
      (λ l' t (is', f, e). (is', Frame-alloc xs s t (node v null) f, e))

has-concat :
    (a p : Ptr) (v : Bytes) (xs : Cells)
    → has a (xs ++ ((p, v) ∷ [])) ≡ false
    → (has a xs ≡ false) × ((a == p) ≡ false)
has-concat a p v xs h = ground (arith, has-append a xs ((p, v) ∷ []))

Frame-append :
    (xs : Cells) (s t : Store) (p : Ptr) (v : Bytes) (c : Option Node)
    → Frame xs (write s p c) t
    → Frame (xs ++ ((p, v) ∷ [])) s t
Frame-append xs s t p v c f = record {
  same = λ a h k.
      f.same a h (has-concat a p v xs k).0 ∙ update_ne s.cells p a c (has-concat a p v xs k).1;
  grows = f.grows;
}

-- `attach_strlist` appends a live node that is not in the list, whatever its `next` was, and
-- changes nothing outside of the list and the node.
pub attach_strlist-Appended :
    (s : Store) (l : Handle) (xs : Cells) (p : Ptr) (n : Node)
    → IsStrlist s l xs
    → 0 < p
    → p < s.brk
    → s.cells p ≡ some n
    → has p xs ≡ false
    → Returns
        (λ l' t.
          IsStrlist t l' (xs ++ ((p, n.str) ∷ []))
          × Frame (xs ++ ((p, n.str) ∷ [])) s t
          × (t.brk ≡ s.brk))
        (attach_strlist l p s)
unfolding attach_strlist
attach_strlist-Appended s l xs p n is pos lt live out =
    let u = write s p (some (node n.str null)) in
    let kept =
      frame s u null xs is.chain (λ a h. update_ne s.cells p a _ (eq_sym p a (has_ne a p xs h out)))
        (omega arith) in
    rw (set_next-ok s p pos live null) (
      Returns.weaken
        (link_last-Appended u l xs p n.str (record { chain = kept; head = is.head; tail = is.tail })
          (record { pos = pos; lt = lt; live = update_eq s.cells p _ }) out)
        (λ l' t (is', f, e). (is', Frame-append xs s t p n.str (some (node n.str null)) f, e)))
