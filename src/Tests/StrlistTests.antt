-- ===== src/Tests/StrlistTests.antt =====
-- Examples of the lists of strings.
use messasy.Base.{◌≡◌, refl, [], ◌∷◌, Bytes, arith}
use messasy.CString.{str_eq}
use messasy.Strlist.{handle, free_strlist, split_comma}
use messasy.Strlist.Chain.{Cells, IsStrlist, strings}
use messasy.Strlist.Returns.{Returns}
use messasy.Strlist.Search.{Lists, member}
use messasy.Strlist.Free.{Without, free_strlist-Without}
use messasy.Strlist.Split.{pieces, uniq_pieces, split_comma-Lists}
use messasy.Strlist.Uniq.{IsUnique, split_comma-IsUnique}
use messasy.Tests.{bytes, empty, two_nodes}

abbrev cells : Cells
cells = (1, bytes "a") ∷ (2, bytes "b") ∷ []

is_list : IsStrlist two_nodes (handle 1 2) cells
is_list = record {
  chain = (omega arith, omega arith, refl, refl, (omega arith, omega arith, refl, refl, tt));
  head = refl;
  tail = refl;
}

pieces_are : uniq_pieces (bytes "a,b,a") ≡ bytes "a" ∷ bytes "b" ∷ []
unfolding uniq_pieces str_eq
pieces_are = refl

free_strlist-Without_example : Returns (λ _. Without cells two_nodes) (free_strlist 1 two_nodes)
free_strlist-Without_example = free_strlist-Without two_nodes cells is_list.chain

split_comma-Lists_example :
    Returns (Lists empty [] (uniq_pieces (bytes "a,b,a"))) (split_comma (bytes "a,b,a") empty)
split_comma-Lists_example = split_comma-Lists (bytes "a,b,a") empty (omega arith)

split_comma-IsUnique_example :
    Returns
      (λ l t.
        (xs : Cells) × IsStrlist t l xs
        × IsUnique (strings xs)
        × ((v : Bytes) → member v (strings xs) ≡ member v (pieces (bytes "a,b,a"))))
      (split_comma (bytes "a,b,a") empty)
split_comma-IsUnique_example = split_comma-IsUnique (bytes "a,b,a") empty (omega arith)
