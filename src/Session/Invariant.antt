-- ===== src/Session/Invariant.antt =====
-- What holds between two callbacks of a connection.
use messasy.Base.{
  ℕ, zero, suc, ◌+◌, ◌≤◌, ◌<◌, ◌≡◌, refl, false, Option, none, some, List, [], ◌∷◌, Bytes, arith,
  length, Ret, r_success, r_error, ◌⊎◌, inl, inr, ◌≢◌, filter,
}
use messasy.Config.{Config}
use messasy.ConfigStore.{Entry}
use messasy.ConfigStore.Invariant.{IsSound}
use messasy.Strlist.{null, Store, Run, ok, Handle, handle}
use messasy.Strlist.Returns.{Returns, returns, pos_ne}
use messasy.Strlist.Grows.{Grows}
use messasy.Strlist.Bounded.{length-Chain}
use messasy.Strlist.Chain.{Cells, head_or, Chain, IsStrlist, strings}
use messasy.Filter.{Ldap, make_savelist}
use messasy.Filter.Grows.{make_savelist-Grows}
use messasy.Filter.Judge.{is_pending}
use messasy.Filter.Savelist.{candidates}
use messasy.Filter.Saved.{
  Answers, Saved, reachable, Failed, make_savelist-Saved, make_savelist-Failed,
}
use messasy.Session.{read_loop, read_strlist, Priv, World, Act, then_act, read_config_of}

-- A callback ends with a result and a world that satisfy `P`, and not in undefined behaviour.
pub data Ends {M A : Type 0} (P : A → World M → Type 0) : Option (A × World M) → Type 0 where
  ends : {a : A} {w : World M} → P a w → Ends P (some (a, w))

module _ {M A B : Type 0} {P : A → World M → Type 0} {Q : B → World M → Type 0} where
  pub Ends-bind :
      {r : Option (A × World M)} {k : A → Act M B}
      → Ends P r
      → ((a : A) (w : World M) → P a w → Ends Q (k a w))
      → Ends Q (then_act r k)
  Ends-bind (ends p) next = next _ _ p

module _ {M A : Type 0} {P Q : A → World M → Type 0} where
  pub Ends-weaken :
      {r : Option (A × World M)} → Ends P r → ((a : A) (w : World M) → P a w → Q a w) → Ends Q r
  Ends-weaken (ends p) imp = ends (imp _ _ p)

-- A list on a store, whatever it holds.
pub record Holds (s : Store) (l : Handle) : Type 0 where
  pub pos : 0 < s.brk
  pub cells : Cells
  pub is : IsStrlist s l cells

-- The private data of a connection: its configuration is in memory and holds `cfg`, and is counted
-- beside the references of `others`; its lists are lists; before the first header of a mail no
-- address is to be saved.
pub record IsOpen {M : Type 0} (others : List ℕ) (cfg : Config) (w : World M) (p : Priv M)
    : Type 0 where
  pub sound : IsSound (p.config ∷ others) w.configs
  pub not_null : 0 < p.config
  pub pinned : (e : Entry) × (w.configs.at p.config ≡ some e) × (e.cfg ≡ cfg)
  pub rcpts : Holds w.rcpts p.rcptto
  pub saved : Holds w.saved p.addrmatched
  pub not_yet : p.header_existence ≡ false → p.addrmatched.head ≡ null

-- Between two mails, or within one, behind its `MAIL FROM`.
pub data Phase : Type 0 where
  no_mail in_mail : Phase

-- The connection is open between two callbacks; within a mail its sender is known.
pub record Between {M : Type 0} (others : List ℕ) (cfg : Config) (ph : Phase) (w : World M)
    : Type 0 where
  pub priv : Priv M
  pub set : w ≡ record w { ctx = some priv }
  pub is : IsOpen others cfg w priv
  pub sender : ph ≡ in_mail → (from : Bytes) × (priv.envfrom ≡ some from)

-- No connection.
pub record IsClosed {M : Type 0} (others : List ℕ) (w : World M) : Type 0 where
  pub sound : IsSound others w.configs
  pub rcpts : 0 < w.rcpts.brk
  pub saved : 0 < w.saved.brk
  pub unset : w.ctx ≡ none

read_loop-strings :
    (k : ℕ) (s : Store) (xs : Cells)
    → Chain s null xs
    → length xs < k
    → read_loop k (head_or null xs) s ≡ ok (strings xs) s
unfolding read_loop
read_loop-strings zero s xs c fuel = absurd (omega arith)
read_loop-strings (suc k) s [] c fuel = refl
read_loop-strings (suc k) s ((a, v) ∷ xs) (pos, lt, e, out, rest) fuel =
    rw (pos_ne a pos, e, read_loop-strings k s xs rest (omega arith)) refl

-- The strings of a list are read from its nodes, and the store is left as it is.
pub read_strlist-strings :
    (s : Store) (l : Handle) (xs : Cells)
    → IsStrlist s l xs
    → read_strlist l.head s ≡ ok (strings xs) s
unfolding read_strlist
read_strlist-strings s l xs is =
    rw is.head (read_loop-strings (s.brk + 1) s xs is.chain (length-Chain s null xs is.chain))

pub read_config_of-pinned :
    {M : Type 0} (others : List ℕ) (cfg : Config) (w : World M) (p : Priv M)
    → IsOpen others cfg w p
    → read_config_of p w ≡ some (cfg, w)
unfolding read_config_of
read_config_of-pinned others cfg w p is =
    let (e, at, same) = is.pinned in rw (read_config_of, at, same) refl

-- LDAP either answers every search under a configuration, with a filter, or cannot be reached.
abbrev pub IsSteady : Ldap → Config → Type 0
IsSteady ldap cfg =
    (ld : List Bytes) → Answers ldap cfg ld ⊎ ((ld ≢ []) × (reachable ldap cfg ≡ false))

-- Either a list, or an error with the pointers at NULL.
abbrev pub Found : Ret × Handle → Store → Type 0
Found r t = Holds t r.1 × ((r.0 ≡ r_success) ⊎ (r ≡ (r_error, handle null null)))

pub empty-Holds : (s : Store) → 0 < s.brk → (l : Handle) → l.head ≡ null → Holds s l
empty-Holds s pos l e = record {
  pos = pos;
  cells = [];
  is = record { chain = tt; head = e; tail = tt };
}

pub grown :
    {A : Type 0} {P : A → Store → Type 0} (s : Store) {r : Run A}
    → Returns P r
    → Grows s r
    → Returns (λ a t. P a t × (s.brk ≤ t.brk)) r
grown s (returns p) g = returns (p, g)

-- `make_savelist` from an empty list ends, with a list or with none.
pub make_savelist-Found :
    (ldap : Ldap) (from : Bytes) (rs : List Bytes) (sv : Handle) (cfg : Config) (s : Store)
    → IsSteady ldap cfg
    → 0 < s.brk
    → sv.head ≡ null
    → Returns Found (make_savelist ldap from rs sv cfg s)
make_savelist-Found ldap from rs sv cfg s steady pos e =
    elim (steady (filter (is_pending cfg) (candidates cfg from rs))) [
      | inl answers ↦
          answered (grown s (make_savelist-Saved ldap from rs sv cfg s pos empty answers) grows)
      | inr (waits, down) ↦
          failed (grown s (make_savelist-Failed ldap from rs sv cfg s pos empty waits down) grows)
    ]
  where
    empty : IsStrlist s sv []
    empty = record { chain = tt; head = e; tail = tt }

    grows : Grows s (make_savelist ldap from rs sv cfg s)
    grows = make_savelist-Grows ldap from rs sv cfg s

    answered :
        {zs : List Bytes} {r : Run (Ret × Handle)}
        → Returns (λ a t. Saved zs a t × (s.brk ≤ t.brk)) r
        → Returns Found r
    answered (returns ((good, c, is, _), le)) =
        returns (record { pos = omega arith; cells = c; is = is }, inl good)

    failed :
        {r : Run (Ret × Handle)}
        → Returns (λ a t. Failed s a t × (s.brk ≤ t.brk)) r
        → Returns Found r
    failed (returns {a} {s = t} ((bad, _), le)) =
        returns (rw bad (empty-Holds t (omega arith) (handle null null) refl), inr bad)
