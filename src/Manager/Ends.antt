-- ===== src/Manager/Ends.antt =====
-- The end of the thread of a connection.
use messasy.Base.{
  ℕ, zero, suc, ◌+◌, ◌<◌, ◌≤◌, ◌≡◌, refl, Bool, true, false, Option, some, List, [], ◌∷◌, ◌++◌,
  Bytes, length, arith, inl, inr, Bool-cases,
}
use messasy.Manager.{
  Read, Crlf, check_crlf, read_dust, Line, read_loop, read_line, timeout, error, eof, too_long,
  line, got, would_block, failed, closed, none_found, cr_found, crlf_found, too_long_string,
  Session, say,
}
use messasy.Manager.Handler.{World, after_line, handle_line, request_loop}

read_dust-length : (state : Crlf) (rs : List Read) → length (read_dust state rs) ≤ length rs
unfolding read_dust
read_dust-length crlf_found rs = omega arith
read_dust-length none_found [] = omega arith
read_dust-length cr_found [] = omega arith
read_dust-length none_found ((got c) ∷ rs) =
    omega (arith, read_dust-length (check_crlf c none_found) rs)
read_dust-length cr_found ((got c) ∷ rs) =
    omega (arith, read_dust-length (check_crlf c cr_found) rs)
read_dust-length none_found (would_block ∷ rs) = omega arith
read_dust-length none_found (failed ∷ rs) = omega arith
read_dust-length none_found (closed ∷ rs) = omega arith
read_dust-length cr_found (would_block ∷ rs) = omega arith
read_dust-length cr_found (failed ∷ rs) = omega arith
read_dust-length cr_found (closed ∷ rs) = omega arith

read_loop-length :
    (room : ℕ) (state : Crlf) (buf : Bytes) (rs : List Read)
    → length (read_loop room state buf rs).1 ≤ length rs
unfolding read_loop
read_loop-length zero state buf rs = read_dust-length state rs
read_loop-length (suc room) state buf [] = omega arith
read_loop-length (suc room) state buf (would_block ∷ rs) = omega arith
read_loop-length (suc room) state buf (failed ∷ rs) = omega arith
read_loop-length (suc room) state buf (closed ∷ rs) = omega arith
read_loop-length (suc room) state buf ((got c) ∷ rs) = grind (
  arith,
  read_loop-length room none_found (buf ++ (c ∷ [])) rs,
  read_loop-length room cr_found (buf ++ (c ∷ [])) rs,
)

stops : Line → Bool
stops timeout = true
stops error = true
stops eof = true
stops _ = false

read_loop-suc-length :
    (room : ℕ) (rs : List Read)
    → stops (read_loop (suc room) none_found [] rs).0 ≡ false
    → length (read_loop (suc room) none_found [] rs).1 < length rs
unfolding stops read_loop
read_loop-suc-length room [] h = cc
read_loop-suc-length room (would_block ∷ rs) h = cc
read_loop-suc-length room (failed ∷ rs) h = cc
read_loop-suc-length room (closed ∷ rs) h = cc
read_loop-suc-length room ((got c) ∷ rs) h = grind (
  arith,
  read_loop-length room none_found (c ∷ []) rs,
  read_loop-length room cr_found (c ∷ []) rs,
)

-- A line that does not stop the loop has been read from the socket.
read_line-length :
    (rs : List Read) → stops (read_line rs).0 ≡ false → length (read_line rs).1 < length rs
unfolding read_line
read_line-length rs h = read_loop-suc-length 128 rs h

-- The sessions that a run ends with and that satisfy `P`.
abbrev pub Ends : (Session → Type 0) → Option Session → Type 0
Ends P r = (mc' : Session) × (r ≡ some mc') × P mc'

after_line-Ends :
    (P : Session → Type 0) (world : World) (k : ℕ)
    → ((readbuf : Bytes) (mc : Session) → P mc → P (handle_line world k readbuf mc).1)
    → ((mc : Session) → P mc → P (say too_long_string mc))
    → (again : Session → Option Session) (l : Line) (mc : Session)
    → (stops l ≡ false → (mc' : Session) → P mc' → Ends P (again mc'))
    → P mc
    → Ends P (after_line world k again l mc)
unfolding after_line stops
after_line-Ends P world k keeps long again timeout mc next p = (mc, refl, p)
after_line-Ends P world k keeps long again error mc next p = (mc, refl, p)
after_line-Ends P world k keeps long again eof mc next p = (mc, refl, p)
after_line-Ends P world k keeps long again too_long mc next p = next refl _ (long mc p)
after_line-Ends P world k keeps long again (line readbuf) mc next p =
    elim (Bool-cases (handle_line world k readbuf mc).0) [
      | inl e ↦ rw (e, after_line) (next refl _ (keeps readbuf mc p))
      | inr e ↦ rw (e, after_line) (_, refl, keeps readbuf mc p)
    ]

-- A property that every line keeps holds at the end, which is reached.
pub request_loop-Ends :
    (P : Session → Type 0) (world : World)
    → ((k : ℕ) (readbuf : Bytes) (mc : Session) → P mc → P (handle_line world k readbuf mc).1)
    → ((mc : Session) → P mc → P (say too_long_string mc))
    → (fuel k : ℕ) (rs : List Read) (mc : Session) → length rs < fuel
    → P mc
    → Ends P (request_loop fuel world k rs mc)
unfolding request_loop
request_loop-Ends P world keeps long zero k rs mc lt p = absurd (omega arith)
request_loop-Ends P world keeps long (suc fuel) k rs mc lt p =
    after_line-Ends P world k (keeps k) long _ (read_line rs).0 mc
      (λ h mc' p'.
        request_loop-Ends P world keeps long fuel (k + 1) (read_line rs).1 mc'
          (omega (arith, read_line-length rs h)) p')
      p
