-- ===== src/Strlist/Split.antt =====
-- `split_comma`: the pieces between the commas, each once, in the order of their first occurrence.
use messasy.Base.{
  ℕ, ◌<◌, ◌≡◌, refl, List, [], ◌∷◌, ◌++◌, ◌==◌, arith, Bytes, Bool-cases, inl, inr, if◌then◌else◌,
  append-nil, append_assoc,
}
use messasy.Strlist.{Store, Handle, handle, split_loop, split_comma}
use messasy.Strlist.Returns
use messasy.Strlist.Returns.{Returns, returns}
use messasy.Strlist.Chain.{Cells, IsStrlist, strings}
use messasy.Strlist.Search.{uniq_push, Lists, Lists-trans, uniq_push_strlist-Lists}

on_first : ℕ → List Bytes → List Bytes
on_first c [] = (c ∷ []) ∷ []
on_first c (w ∷ ws) = (c ∷ w) ∷ ws

-- The pieces of a string between its commas; one more than there are commas.
unfoldable pub pieces : Bytes → List Bytes
unfolding on_first
pieces [] = [] ∷ []
pieces (c ∷ cs) = if c == b',' then [] ∷ pieces cs else on_first c (pieces cs)

-- The first occurrence of each string.
unfoldable pub uniq_onto : List Bytes → List Bytes → List Bytes
unfolding uniq_push
uniq_onto acc [] = acc
uniq_onto acc (w ∷ ws) = uniq_onto (uniq_push acc w) ws

prefix_first : Bytes → List Bytes → List Bytes
prefix_first w [] = w ∷ []
prefix_first w (p ∷ ps) = (w ++ p) ∷ ps

prefix_first-on_first :
    (w : Bytes) (c : ℕ) (ps : List Bytes)
    → prefix_first w (on_first c ps) ≡ prefix_first (w ++ (c ∷ [])) ps
unfolding prefix_first on_first
prefix_first-on_first w c [] = refl
prefix_first-on_first w c (p ∷ ps) = simp append_assoc

prefix_first-nil : (ps : List Bytes) (c : ℕ) → prefix_first [] (on_first c ps) ≡ on_first c ps
unfolding prefix_first on_first
prefix_first-nil [] c = refl
prefix_first-nil (p ∷ ps) c = refl

prefix_first-pieces : (s : Bytes) → prefix_first [] (pieces s) ≡ pieces s
unfolding prefix_first pieces
prefix_first-pieces [] = refl
prefix_first-pieces (c ∷ cs) = ground (arith, prefix_first-nil (pieces cs) c)

prefix_first-cons : (w : Bytes) (ps : List Bytes) → prefix_first w ([] ∷ ps) ≡ w ∷ ps
unfolding prefix_first
prefix_first-cons w ps = rw append-nil

split_loop-Lists :
    (rest : Bytes) (s : Store) (l : Handle) (xs : Cells) (word : Bytes)
    → 0 < s.brk
    → IsStrlist s l xs
    → Returns
        (Lists s xs (uniq_onto (strings xs) (prefix_first word (pieces rest))))
        (split_loop l word rest s)
unfolding split_loop pieces uniq_onto
split_loop-Lists [] s l xs word pos is =
    rw prefix_first-cons (uniq_push_strlist-Lists s l xs word pos is)
split_loop-Lists (c ∷ cs) s l xs word pos is = elim (Bool-cases (c == b',')) [
  | inl e ↦
      rw (e, prefix_first-cons)
        ((Returns.bind (uniq_push_strlist-Lists s l xs word pos is) λ l' t q.
          Returns.weaken (split_loop-Lists cs t l' q.nodes [] (omega (arith, q.frame.grows)) q.is)
            λ l'' u r. Lists-trans s t u xs _ _ l' l'' q (rw (q.holds, prefix_first-pieces) at r)))
  | inr e ↦ rw (e, prefix_first-on_first) (split_loop-Lists cs s l xs (word ++ (c ∷ [])) pos is)
]

-- The list of the first occurrences of the pieces.
unfoldable pub uniq_pieces : Bytes → List Bytes
unfolding pieces uniq_onto
uniq_pieces str = uniq_onto [] (pieces str)

-- `split_comma` returns a list of new nodes that holds the first occurrence of each piece of the
-- string, in order, and leaves all that the store held as it was.
pub split_comma-Lists :
    (str : Bytes) (s : Store)
    → 0 < s.brk
    → Returns (Lists s [] (uniq_pieces str)) (split_comma str s)
unfolding split_comma uniq_pieces
split_comma-Lists str s pos =
    rw (← prefix_first-pieces str) (
      split_loop-Lists str s (handle 0 0) [] [] pos (record { chain = tt; head = refl; tail = tt }))
