-- ===== src/Strlist/Free.antt =====
-- `free_strlist` gives every node of a list back, and nothing else.
use messasy.Base.{
  ℕ, zero, suc, ◌+◌, ◌<◌, ◌≡◌, refl, ◌∙◌, false, none, [], ◌∷◌, ◌==◌, arith, Bytes, length,
  if◌then◌else◌,
}
use messasy.Strlist.{Ptr, null, Store, update, write, Run, fault, free_loop, free_strlist, load}
use messasy.Strlist.Returns.{Returns, returns, load-ok, release-ok, pos_ne}
use messasy.Strlist.Bounded.{length-Chain}
use messasy.Strlist.Chain.{Cells, head_or, has, Chain, has_ne, update_ne, frame}

-- `t` is `s` less the nodes of `xs`.
abbrev pub Without : Cells → Store → Store → Type 0
Without xs s t = ((a : Ptr) → t.cells a ≡ (if has a xs then none else s.cells a)) × (t.brk ≡ s.brk)

Without-cons :
    (a : Ptr) (v : Bytes) (xs : Cells) (s t : Store)
    → Without xs (write s a none) t
    → Without ((a, v) ∷ xs) s t
unfolding update
Without-cons a v xs s t (gone, e) = (λ b. ground (arith, gone b), e)

ne_sym : (a b : ℕ) → (a == b) ≡ false → (b == a) ≡ false
ne_sym a b h = ground arith

free_loop-Without :
    (k : ℕ) (s : Store) (xs : Cells)
    → Chain s null xs
    → length xs < k
    → Returns (λ _. Without xs s) (free_loop k (head_or null xs) s)
unfolding free_loop
free_loop-Without zero s xs c fuel = absurd (omega arith)
free_loop-Without (suc k) s [] c fuel = returns (λ a. refl, refl)
free_loop-Without (suc k) s ((a, v) ∷ xs) (pos, lt, e, out, rest) fuel =
    let t = write s a none in
    let kept =
      frame s t null xs rest (λ b h. update_ne s.cells a b none (ne_sym a b (has_ne b a xs h out)))
        (omega arith) in
    rw (pos_ne a pos, load-ok s a pos e, release-ok s a pos e)
      (weaken_cons a v xs s (free_loop-Without k t xs kept (omega arith)))
  where
    weaken_cons :
        {A : Type 0} (a : Ptr) (v : Bytes) (xs : Cells) (s : Store) {r : Run A}
        → Returns (λ _. Without xs (write s a none)) r
        → Returns (λ _. Without ((a, v) ∷ xs) s) r
    weaken_cons a v xs s (returns {s = t} w) = returns (Without-cons a v xs s t w)

-- `free_strlist` frees the nodes of a list, each once, and nothing else.
pub free_strlist-Without :
    (s : Store) (xs : Cells)
    → Chain s null xs
    → Returns (λ _. Without xs s) (free_strlist (head_or null xs) s)
unfolding free_strlist
free_strlist-Without s xs c = free_loop-Without (s.brk + 1) s xs c (length-Chain s null xs c)

free_loop-dangling :
    (k : ℕ) (s : Store) (p : Ptr) (xs : Cells)
    → Chain s p xs
    → 0 < p
    → s.cells p ≡ none
    → has p xs ≡ false
    → length xs < k
    → free_loop k (head_or p xs) s ≡ fault
unfolding free_loop
free_loop-dangling zero s p xs c pos gone out fuel = absurd (omega arith)
free_loop-dangling (suc k) s p [] c pos gone out fuel =
    unfold load in rw (pos_ne p pos, gone, pos_ne p pos)
free_loop-dangling (suc k) s p ((a, v) ∷ xs) (posa, lt, e, fresh, rest) pos gone out fuel =
    let t = write s a none in
    let kept =
      frame s t p xs rest (λ b h. update_ne s.cells a b none (ne_sym a b (has_ne b a xs h fresh)))
        (omega arith) in
    let dead : (t.cells p ≡ none) = update_ne s.cells a p none (ground arith) ∙ gone in
    rw (pos_ne a posa, load-ok s a posa e, release-ok s a posa e)
      (free_loop-dangling k t p xs kept pos dead (ground arith) (omega arith))

-- A list that leads to a node freed before cannot be freed: `free_strlist` runs into undefined
-- behaviour.
pub free_strlist-dangling :
    (s : Store) (p : Ptr) (xs : Cells)
    → Chain s p xs
    → 0 < p
    → s.cells p ≡ none
    → has p xs ≡ false
    → free_strlist (head_or p xs) s ≡ fault
unfolding free_strlist
free_strlist-dangling s p xs c pos gone out =
    free_loop-dangling (s.brk + 1) s p xs c pos gone out (length-Chain s p xs c)
