-- ===== src/Serial/Distinct.antt =====
-- Session ids carry the pid above a serial number, and do not repeat within 65536 calls.
use messasy.Base.{
  ℕ, zero, suc, ◌+◌, ◌*◌, ◌/◌, ◌%◌, ◌^◌, ◌<◌, ◌≤◌, ◌≡◌, ◌≢◌, List, [], ◌∷◌, arith, All,
}
use messasy.Serial.{get_serialno, get_sessid, sessids}

-- A session id is the low half of the pid and the serial number, each of 16 bits.
get_sessid_fields :
    (pid serialno : ℕ)
    → serialno < 2 ^ 16
    → ((get_sessid pid serialno).1 / 2 ^ 16 ≡ pid % 2 ^ 16)
      × ((get_sessid pid serialno).1 % 2 ^ 16 ≡ get_serialno serialno)
      × (get_serialno serialno < 2 ^ 16)
unfolding get_sessid
get_sessid_fields pid serialno h = omega arith

-- No two ids of the list are the same.
abbrev pub Distinct : List ℕ → Type 0
Distinct [] = Unit
Distinct (x ∷ xs) = All (λ y. x ≢ y) xs × Distinct xs

-- ids of later calls differ from that of serial number `s`, up to a whole turn.
later_ne :
    (pid s c n k : ℕ)
    → s < 2 ^ 16
    → c < 2 ^ 16
    → c ≡ (s + k) % 2 ^ 16
    → k + n < 2 ^ 16
    → All (λ y. (s + (pid * 2 ^ 16) % 2 ^ 32) % 2 ^ 32 ≢ y) (sessids pid c n)
unfolding sessids
later_ne pid s c zero k hs hc e h = tt
later_ne pid s c (suc n) k hs hc e h = (
  omega arith,
  later_ne pid s ((c + 1) % 2 ^ 32 % 2 ^ 16) n (suc k) hs (omega arith) (omega arith) (omega arith),
)

-- Up to 65536 session ids of one process, given out one after the other, are all distinct.
pub sessids-Distinct :
    (pid serialno n : ℕ) → serialno < 2 ^ 16 → n ≤ 2 ^ 16 → Distinct (sessids pid serialno n)
unfolding sessids
sessids-Distinct pid serialno zero h le = tt
sessids-Distinct pid serialno (suc n) h le = (
  later_ne pid (get_serialno serialno) (get_serialno serialno) n 0 (omega arith) (omega arith)
      (omega arith) (omega arith),
  sessids-Distinct pid (get_serialno serialno) n (omega arith) (omega arith),
)
