-- ===== src/Strlist/Search.antt =====
-- `search_strlist` decides membership, and `uniq_push_strlist` keeps a list without duplicates.
use messasy.Base.{
  ℕ, zero, suc, ◌+◌, ◌<◌, ◌≡◌, refl, ◌∙◌, Bool, false, ◌||◌, List, [], ◌∷◌, ◌++◌, arith, Bytes,
  length, Bool-cases, inl, inr, if◌then◌else◌,
}
use messasy.CString.{str_eq}
use messasy.Strlist.{null, Store, ok, Handle, search_loop, search_strlist, uniq_push_strlist}
use messasy.Strlist.Returns
use messasy.Strlist.Returns.{Returns, returns, load-ok, pos_ne}
use messasy.Strlist.Chain.{
  Cells, head_or, has, Chain, IsStrlist, Frame, strings, strings-append, has-append,
}
use messasy.Strlist.Bounded.{length-Chain}
use messasy.Strlist.Push.{push_strlist-Pushed}

-- Membership by `strcmp`.
unfoldable pub member : Bytes → List Bytes → Bool
member x [] = false
member x (y ∷ ys) = str_eq x y || member x ys

search_loop-member :
    (k : ℕ) (s : Store) (xs : Cells) (str : Bytes)
    → Chain s null xs
    → length xs < k
    → search_loop k (head_or null xs) str s ≡ ok (member str (strings xs)) s
unfolding search_loop member
search_loop-member zero s xs str c fuel = absurd (omega arith)
search_loop-member (suc k) s [] str c fuel = refl
search_loop-member (suc k) s ((a, v) ∷ xs) str (pos, lt, e, out, rest) fuel =
    rw (pos_ne a pos, load-ok s a pos e)
      (elim (Bool-cases (str_eq str v)) [
        | inl hit ↦ rw hit
        | inr miss ↦ rw miss (search_loop-member k s xs str rest (omega arith))
      ])

-- `search_strlist` tells whether a string is in a list, and changes nothing.
search_strlist-member :
    (s : Store) (l : Handle) (xs : Cells) (str : Bytes)
    → IsStrlist s l xs
    → search_strlist l.head str s ≡ ok (member str (strings xs)) s
unfolding search_strlist
search_strlist-member s l xs str is =
    rw is.head (search_loop-member (s.brk + 1) s xs str is.chain (length-Chain s null xs is.chain))

-- The list that `uniq_push_strlist` leaves.
unfoldable pub uniq_push : List Bytes → Bytes → List Bytes
unfolding member
uniq_push xs v = if member v xs then xs else xs ++ (v ∷ [])

-- Some nodes that hold the strings, on a store that has changed at nodes of `xs` at most.
pub record Lists (s : Store) (xs : Cells) (strs : List Bytes) (l : Handle) (t : Store)
    : Type 0 where
  pub nodes : Cells
  pub is : IsStrlist t l nodes
  pub holds : strings nodes ≡ strs
  pub frame : Frame xs s t
  pub new : (a : ℕ) → a < s.brk → has a xs ≡ false → has a nodes ≡ false

pub Lists-trans :
    (s t u : Store) (xs : Cells) (strs strs' : List Bytes) (l l' : Handle)
    → (p : Lists s xs strs l t) → Lists t p.nodes strs' l' u
    → Lists s xs strs' l' u
Lists-trans s t u xs strs strs' l l' p q = record {
  nodes = q.nodes;
  is = q.is;
  holds = q.holds;
  frame = record {
    same =
        λ a h k. q.frame.same a (omega (arith, p.frame.grows)) (p.new a h k) ∙ p.frame.same a h k;
    grows = omega (arith, p.frame.grows, q.frame.grows);
  };
  new = λ a h k. q.new a (omega (arith, p.frame.grows)) (p.new a h k);
}

-- `uniq_push_strlist` appends a string to a list unless it is in it, and changes nothing outside
-- of the list.
pub uniq_push_strlist-Lists :
    (s : Store) (l : Handle) (xs : Cells) (v : Bytes)
    → 0 < s.brk
    → IsStrlist s l xs
    → Returns (Lists s xs (uniq_push (strings xs) v)) (uniq_push_strlist l v s)
unfolding uniq_push_strlist uniq_push
uniq_push_strlist-Lists s l xs v pos is =
    rw (search_strlist-member s l xs v is) (elim (Bool-cases (member v (strings xs))) [
      | inl hit ↦ rw hit (
          returns (record {
            nodes = xs;
            is = is;
            holds = refl;
            frame = record { same = λ a h k. refl; grows = omega arith };
            new = λ a h k. k;
          }))
      | inr miss ↦ rw miss (
          Returns.weaken (push_strlist-Pushed s l xs v pos is) (λ l' t (is', f, e). record {
            nodes = xs ++ ((s.brk, v) ∷ []);
            is = is';
            holds = strings-append xs ((s.brk, v) ∷ []);
            frame = f;
            new = λ a h k. ground (arith, has-append a xs ((s.brk, v) ∷ []));
          }))
    ])
