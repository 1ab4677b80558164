-- ===== src/Strlist.antt =====
-- utils.c: `struct strlist` on an explicit store. A list is a pair of pointers, to its first node
-- and to its last one; a node holds a string and the pointer to the next node. Every access goes
-- through a pointer, so that a read through NULL or through a freed node, and a second free, are
-- faults. `malloc` gives an address that was never given before, which keeps a dangling pointer
-- recognisable. `strset_set` of a copy stores the string itself.
pub mod Returns
pub mod Bounded
pub mod Chain
pub mod Push
pub mod Search
pub mod Free
pub mod Split
pub mod Uniq
pub mod Grows
use messasy.Base.{
  ℕ, zero, suc, ◌+◌, Bool, true, false, Option, none, some, List, [], ◌∷◌, ◌++◌, ◌==◌,
  if◌then◌else◌, Bytes,
}
use messasy.CString.{str_eq}

abbrev pub Ptr : Type 0
Ptr = ℕ

abbrev pub null : Ptr
null = 0

pub record Node : Type 0 where
  pub str : Bytes
  pub next : Ptr

abbrev pub node : Bytes → Ptr → Node
node v q = record { str = v; next = q }

-- `brk` is the next address to be given out; no address from there on is in use.
pub record Store : Type 0 where
  pub cells : Ptr → Option Node
  pub brk : Ptr

unfoldable pub update : (Ptr → Option Node) → Ptr → Option Node → Ptr → Option Node
update h p c a = if a == p then c else h a

abbrev pub write : Store → Ptr → Option Node → Store
write s p c = record s { cells = update s.cells p c }

-- `fault`: undefined behaviour. `out_of_fuel`: a walk longer than the nodes ever allocated.
pub data Run {ℓ} (A : Type ℓ) : Type ℓ where
  ok : A → Store → Run A
  fault : Run A
  out_of_fuel : Run A

abbrev pub Cmd : Type 0 → Type 0
Cmd A = Store → Run A

abbrev pub and_then : {A B : Type 0} → Run A → (A → Cmd B) → Run B
and_then (ok a s) k = k a s
and_then fault k = fault
and_then out_of_fuel k = out_of_fuel

infixl 5 ◌>>=◌ ◌>>◌
abbrev pub ◌>>=◌ : {A B : Type 0} → Cmd A → (A → Cmd B) → Cmd B
m >>= k = λ s. and_then (m s) k

abbrev pub ◌>>◌ : {A B : Type 0} → Cmd A → Cmd B → Cmd B
m >> n = m >>= λ _. n

abbrev pub pure : {A : Type 0} → A → Cmd A
pure a s = ok a s

unfoldable pub load : Ptr → Cmd Node
load p s = if p == null then fault else elim (s.cells p) [ none ↦ fault | some n ↦ ok n s ]

-- `p->next = q`
unfoldable pub set_next : Ptr → Ptr → Cmd (Unit {0})
unfolding load
set_next p q = do n ← load p; λ s. ok tt (write s p (some (record n { next = q })))

-- `strset_free(&p->ss_data); free(p)`
unfoldable pub release : Ptr → Cmd (Unit {0})
unfolding load
release p = do n ← load p; λ s. ok tt (write s p none)

-- The node of `malloc` is given its string at once; `next` is NULL.
unfoldable pub make_strlist : Bytes → Cmd Ptr
make_strlist str s =
    ok s.brk (record { cells = update s.cells s.brk (some (node str null)); brk = s.brk + 1 })

-- The two pointers that the callers pass by reference.
pub record Handle : Type 0 where
  pub head : Ptr
  pub tail : Ptr

abbrev pub handle : Ptr → Ptr → Handle
handle h t = record { head = h; tail = t }

-- What `push_strlist` and `attach_strlist` do with the node at hand.
unfoldable pub link_last : Handle → Ptr → Cmd Handle
unfolding set_next
link_last l p =
    if l.head == null then pure (handle p p) else do set_next l.tail p; pure (handle l.head p)

unfoldable pub push_strlist : Handle → Bytes → Cmd Handle
unfolding make_strlist link_last
push_strlist l str = do p ← make_strlist str; link_last l p

unfoldable pub attach_strlist : Handle → Ptr → Cmd Handle
unfolding set_next link_last
attach_strlist l p = do set_next p null; link_last l p

search_loop : ℕ → Ptr → Bytes → Cmd Bool
unfolding load
search_loop zero p str = λ _. out_of_fuel
search_loop (suc k) p str =
    if p == null
    then pure false
    else do n ← load p; if str_eq str n.str then pure true else search_loop k n.next str

-- The loops are given one round more than the nodes ever allocated.
unfoldable pub search_strlist : Ptr → Bytes → Cmd Bool
unfolding search_loop
search_strlist p str s = search_loop (s.brk + 1) p str s

unfoldable pub uniq_push_strlist : Handle → Bytes → Cmd Handle
unfolding search_strlist push_strlist
uniq_push_strlist l str = do
  found ← search_strlist l.head str
  if found then pure l else push_strlist l str

free_loop : ℕ → Ptr → Cmd (Unit {0})
unfolding load release
free_loop zero p = λ _. out_of_fuel
free_loop (suc k) p = if p == null then pure tt else do n ← load p; release p; free_loop k n.next

unfoldable pub free_strlist : Ptr → Cmd (Unit {0})
unfolding free_loop
free_strlist p s = free_loop (s.brk + 1) p s

-- The loop over `strchr(head, ',')`: `word` is what lies between `head` and the byte at hand.
split_loop : Handle → Bytes → Bytes → Cmd Handle
unfolding uniq_push_strlist
split_loop l word [] = uniq_push_strlist l word
split_loop l word (c ∷ cs) =
    if c == b','
    then uniq_push_strlist l word >>= (λ l'. split_loop l' [] cs)
    else split_loop l (word ++ (c ∷ [])) cs

unfoldable pub split_comma : Bytes → Cmd Handle
unfolding split_loop
split_comma str = split_loop (handle null null) [] str
