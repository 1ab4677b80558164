-- ===== src/Strlist/Uniq.antt =====
-- The pieces that `split_comma` keeps.
use messasy.Base.{
  ◌≡◌, ◌<◌, refl, true, false, ◌||◌, List, [], ◌∷◌, ◌++◌, arith, Bytes, Bool-cases, inl, inr,
}
use messasy.CString.{str_eq}
use messasy.CString.Laws.{str_eq_iff, str_eq_comm}
use messasy.Strlist.{Store, split_comma}
use messasy.Strlist.Chain.{Cells, IsStrlist, strings}
use messasy.Strlist.Returns
use messasy.Strlist.Returns.{Returns}
use messasy.Strlist.Search.{member, uniq_push}
use messasy.Strlist.Split.{pieces, uniq_onto, uniq_pieces, split_comma-Lists}

-- No string occurs twice.
abbrev pub IsUnique : List Bytes → Type 0
IsUnique [] = Unit
IsUnique (x ∷ xs) = (member x xs ≡ false) × IsUnique xs

member-append :
    (x : Bytes) (xs ys : List Bytes) → member x (xs ++ ys) ≡ (member x xs || member x ys)
unfolding member
member-append x [] ys = refl
member-append x (y ∷ xs) ys = ground (arith, member-append x xs ys)

member-subst :
    (x y : Bytes) (ys : List Bytes) → str_eq x y ≡ true → member y ys ≡ true → member x ys ≡ true
member-subst x y ys e h = rw ((str_eq_iff x y).0 e) h

member-uniq_push :
    (x v : Bytes) (acc : List Bytes) → member x (uniq_push acc v) ≡ (member x acc || str_eq x v)
unfolding uniq_push member
member-uniq_push x v acc = ground (arith, member-append x acc (v ∷ []), member-subst x v acc)

member-uniq_onto :
    (x : Bytes) (acc ws : List Bytes) → member x (uniq_onto acc ws) ≡ (member x acc || member x ws)
unfolding uniq_onto member
member-uniq_onto x acc [] = ground arith
member-uniq_onto x acc (w ∷ ws) =
    ground (arith, member-uniq_onto x (uniq_push acc w) ws, member-uniq_push x w acc)

IsUnique-concat :
    (acc : List Bytes) (v : Bytes)
    → IsUnique acc
    → member v acc ≡ false
    → IsUnique (acc ++ (v ∷ []))
unfolding member
IsUnique-concat [] v u out = (refl, tt)
IsUnique-concat (x ∷ acc) v (d, u) out = (
  ground (arith, member-append x acc (v ∷ []), str_eq_comm v x),
  IsUnique-concat acc v u (ground arith),
)

IsUnique-uniq_push : (acc : List Bytes) (v : Bytes) → IsUnique acc → IsUnique (uniq_push acc v)
unfolding uniq_push
IsUnique-uniq_push acc v u = elim (Bool-cases (member v acc)) [
  | inl hit ↦ rw hit u
  | inr miss ↦ rw miss (IsUnique-concat acc v u miss)
]

IsUnique-uniq_onto : (acc ws : List Bytes) → IsUnique acc → IsUnique (uniq_onto acc ws)
unfolding uniq_onto
IsUnique-uniq_onto acc [] u = u
IsUnique-uniq_onto acc (w ∷ ws) u =
    IsUnique-uniq_onto (uniq_push acc w) ws (IsUnique-uniq_push acc w u)

pub uniq_pieces-IsUnique : (str : Bytes) → IsUnique (uniq_pieces str)
unfolding uniq_pieces
uniq_pieces-IsUnique str = IsUnique-uniq_onto [] (pieces str) tt

pub member-uniq_pieces : (x str : Bytes) → member x (uniq_pieces str) ≡ member x (pieces str)
unfolding uniq_pieces
member-uniq_pieces x str = member-uniq_onto x [] (pieces str)

-- The list that `split_comma` returns holds no string twice, and just the pieces of its argument.
pub split_comma-IsUnique :
    (str : Bytes) (s : Store)
    → 0 < s.brk
    → Returns
        (λ l t.
          (xs : Cells) × IsStrlist t l xs
          × IsUnique (strings xs)
          × ((v : Bytes) → member v (strings xs) ≡ member v (pieces str)))
        (split_comma str s)
split_comma-IsUnique str s pos = Returns.weaken (split_comma-Lists str s pos) λ l t p. (
  p.nodes,
  p.is,
  rw p.holds (uniq_pieces-IsUnique str),
  λ v. rw p.holds (member-uniq_pieces v str),
)
