-- ===== src/Manager/Clients.antt =====
-- `manager_main` of client_side.c and the threads that it starts: how many connections there are.
-- The thread of `manager_main` reads the counter without a lock and increments it later; other
-- threads end in between. What `hosts_ctl` says is part of a step. The counter is changed under
-- `tc_lock`, so that each change is one step. Where there are too many connections the code unlocks
-- `tc_lock`, which it does not hold: that is undefined behaviour, and `admit_client` gives none.
-- Where `pthread_create` fails the process ends, so that there is no step.
use messasy.Base.{
  ℕ, ◌+◌, ◌-◌, ◌%◌, ◌^◌, ◌<◌, ◌≤◌, ◌≡◌, refl, Bool, true, false, Option, none, some, leb,
  if◌then◌else◌, arith, List, [], ◌∷◌, Bool-cases, inl, inr,
}
use mathlib.Core.Path.{subst}
use messasy.Manager.{Reply, banner}

unfoldable pub increment_tc : ℕ → ℕ
increment_tc n = (n + 1) % 2 ^ 32

unfoldable pub decrement_tc : ℕ → ℕ
decrement_tc n = (n + 2 ^ 32 - 1) % 2 ^ 32

-- Where `manager_main` is: before `accept`, behind the test of the counter, behind `increment_tc`.
pub data Turn : Type 0 where
  accepting admitted counted : Turn

-- `thread_count`, where `manager_main` is, and the threads that have not ended.
pub record Clients : Type 0 where
  pub thread_count : ℕ
  pub turn : Turn
  pub threads : ℕ

-- A connection is accepted, and tested with the `cf_commandmaxclients` at hand. `allowed` is what
-- `hosts_ctl` says.
unfoldable pub admit_client : Bool → ℕ → Clients → Option Clients
admit_client allowed max s =
    if allowed
    then if leb max s.thread_count then none else some (record s { turn = admitted })
    else some s

unfoldable pub count_client : Clients → Clients
unfolding increment_tc
count_client s = record s { thread_count = increment_tc s.thread_count; turn = counted }

-- The banner is sent and the thread started.
unfoldable pub start_thread : Clients → List Reply × Clients
start_thread s = (banner ∷ [], record s { turn = accepting; threads = s.threads + 1 })

-- A thread is at the end of `request_handler`.
unfoldable pub end_thread : Clients → Clients
unfolding decrement_tc
end_thread s = record s { thread_count = decrement_tc s.thread_count; threads = s.threads - 1 }

abbrev pub no_clients : Clients
no_clients = record { thread_count = 0; turn = accepting; threads = 0 }

-- The states that the steps lead to, in any order in which a thread that runs may end.
pub data Reachable (max : ℕ) : Clients → Type 0 where
  begins : Reachable max no_clients
  accepts :
      (s t : Clients) (allowed : Bool)
      → Reachable max s
      → s.turn ≡ accepting
      → admit_client allowed max s ≡ some t
      → Reachable max t
  counts : (s : Clients) → Reachable max s → s.turn ≡ admitted → Reachable max (count_client s)
  starts : (s : Clients) → Reachable max s → s.turn ≡ counted → Reachable max (start_thread s).1
  ends : (s : Clients) → Reachable max s → 0 < s.threads → Reachable max (end_thread s)

-- One more connection, where one has been admitted.
unfoldable room : Turn → ℕ
room accepting = 0
room admitted = 1
room counted = 0

-- A connection that is counted and has no thread yet.
abbrev pub waiting : Turn → ℕ
waiting counted = 1
waiting _ = 0

record IsCounted (max : ℕ) (s : Clients) : Type 0 where
  counted_are : s.thread_count ≡ s.threads + waiting s.turn
  bound : s.thread_count + room s.turn ≤ max

some_same : (a b : Clients) → ◌≡◌ {A = Option Clients} (some a) (some b) → a ≡ b
some_same a b h = cc

admit_client-IsCounted :
    (max : ℕ) (s t : Clients) (allowed : Bool)
    → s.turn ≡ accepting
    → IsCounted max s
    → admit_client allowed max s ≡ some t
    → IsCounted max t
unfolding admit_client room
admit_client-IsCounted max s t false e p h = subst (IsCounted max) (some_same s t h) p
admit_client-IsCounted max s t true e p h = elim (Bool-cases (leb max s.thread_count)) [
  | inl q ↦ let bad : ◌≡◌ {A = Option Clients} none (some t) = rw q at h in cc
  | inr q ↦
      let same : ◌≡◌ {A = Option Clients} (some (record s { turn = admitted })) (some t) =
        rw q at h in
      let c : s.thread_count ≡ s.threads + 0 = rw e at p.counted_are in
      subst (IsCounted max) (some_same (record s { turn = admitted }) t same)
        (record { counted_are = c; bound = ground (arith, q) })
]

Reachable-IsCounted : (max : ℕ) (s : Clients) → max ≤ 65535 → Reachable max s → IsCounted max s
unfolding count_client start_thread end_thread room increment_tc decrement_tc
Reachable-IsCounted max s le begins = record { counted_are = refl; bound = omega arith }
Reachable-IsCounted max s le (accepts s' t allowed r e h) =
    admit_client-IsCounted max s' t allowed e (Reachable-IsCounted max s' le r) h
Reachable-IsCounted max s le (counts s' r e) =
    let p = Reachable-IsCounted max s' le r in
    let b : s'.thread_count + 1 ≤ max = rw e at p.bound in
    let c : s'.thread_count ≡ s'.threads + 0 = rw e at p.counted_are in
    record { counted_are = omega arith; bound = omega arith }
Reachable-IsCounted max s le (starts s' r e) =
    let p = Reachable-IsCounted max s' le r in
    let b : s'.thread_count + 0 ≤ max = rw e at p.bound in
    let c : s'.thread_count ≡ s'.threads + 1 = rw e at p.counted_are in
    record { counted_are = omega arith; bound = omega arith }
Reachable-IsCounted max s le (ends s' r lt) =
    let p = Reachable-IsCounted max s' le r in
    record {
      counted_are = omega (arith, p.counted_are, p.bound);
      bound = omega (arith, p.counted_are, p.bound);
    }

-- As long as no connection is refused for their number, with a limit of at most 65535 connections
-- that stays the same, `thread_count` is the number of the threads that have not counted down,
-- and of the connection that has been counted and has no thread yet, and no more than the limit,
-- whenever threads end.
pub thread_count-bounded :
    (max : ℕ) (s : Clients)
    → max ≤ 65535
    → Reachable max s
    → (s.thread_count ≡ s.threads + waiting s.turn) × (s.thread_count ≤ max)
thread_count-bounded max s le r =
    let p = Reachable-IsCounted max s le r in (p.counted_are, omega (arith, p.bound))
