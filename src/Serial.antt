-- ===== src/Serial.antt =====
-- utils.c: serial numbers and session ids. `serialno` is the static counter; each call holds its
-- lock from the read to the write, so a call is one step. `pid` is what `getpid` returns.
pub mod Distinct
use messasy.Base.{ℕ, zero, suc, ◌+◌, ◌*◌, ◌%◌, ◌^◌, List, [], ◌∷◌}

-- The new counter, which is also the number given out; 32-bit arithmetic, then the mask 0x0000ffff, whose
-- value is the remainder by 2 ^ 16.
unfoldable pub get_serialno : ℕ → ℕ
get_serialno serialno = (serialno + 1) % 2 ^ 32 % 2 ^ 16

-- The new counter, and the session id.
unfoldable pub get_sessid : ℕ → ℕ → ℕ × ℕ
unfolding get_serialno
get_sessid pid serialno =
    let serial = get_serialno serialno in
    let high = (pid * 2 ^ 16) % 2 ^ 32 in (serial, (serial + high) % 2 ^ 32)

-- The session ids of `n` calls one after the other, from the counter `serialno`.
unfoldable pub sessids : ℕ → ℕ → ℕ → List ℕ
unfolding get_sessid
sessids pid serialno zero = []
sessids pid serialno (suc n) =
    (get_sessid pid serialno).1 ∷ sessids pid (get_sessid pid serialno).0 n
