-- ===== src/Lda/Header.antt =====
-- A header that is not written in one go.
use messasy.Base.{
  ℕ, suc, ◌+◌, ◌-◌, ◌<◌, ◌≤◌, ◌≡◌, refl, true, false, some, ◌++◌, length, Bytes, ltb, Option,
  r_success, arith,
}
use messasy.Lda.{Write, take_bytes, header_loop, header_line, write_header}

two_rounds :
    (fuel : ℕ) (write : Write) (left : ℕ) (p tempfile : Bytes) (n : ℕ)
    → write (length tempfile) left ≡ some n
    → ltb 0 left ≡ true
    → ltb n (left - n) ≡ false
    → header_loop (suc (suc fuel)) write 0 left p tempfile
      ≡ some (r_success, tempfile ++ take_bytes n p)
unfolding header_loop
two_rounds fuel write left p tempfile n wrote more stop =
    rw (header_loop, more, wrote, header_loop, stop) refl

-- A write of a header that takes at least half of the line, but not all of it, makes
-- `lda_write_header` report success with the rest of the line left out.
pub write_header-short :
    (write : Write) (field : Bytes) (value : Option Bytes) (tempfile : Bytes) (n : ℕ)
    → write (length tempfile) (length (header_line field value)) ≡ some n
    → n < length (header_line field value)
    → length (header_line field value) ≤ n + n
    → write_header write field value tempfile
      ≡ some (r_success, tempfile ++ take_bytes n (header_line field value))
unfolding write_header
write_header-short write field value tempfile n wrote short half =
    let left = length (header_line field value) in
    (two_rounds left write left (header_line field value) tempfile n wrote (ground arith)
      (ground arith))
