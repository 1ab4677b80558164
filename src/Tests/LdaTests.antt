-- ===== src/Tests/LdaTests.antt =====
-- Examples of a mail written by the local delivery module.
use messasy.Base.{◌≡◌, refl, false, some, [], ◌∷◌, ◌++◌, r_success, arith}
use messasy.Lda.{close_tempfile, Write, take_bytes, write_parts, write_header, header_line}
use messasy.Lda.Body.{full, closed, joined_parts, to_crlf, write_parts-to_crlf}
use messasy.Lda.Header.{write_header-short}
use messasy.Tests.{bytes}

-- A CR between two letters stays.
cr_test :
    closed (
      write_parts full
        (bytes "a\rb\r" ∷ bytes "\nc" ∷ [])
        (record { writing_body = false; cr = false; tempfile = [] }))
    ≡ some (bytes "\na\rb\nc")
unfolding closed write_parts close_tempfile
cr_test = refl

write_parts-to_crlf_example :
    closed (
      write_parts full
        (bytes "a\r" ∷ bytes "\nb" ∷ [])
        (record { writing_body = false; cr = false; tempfile = bytes "To: a\n" }))
    ≡ some (bytes "To: a\n" ++ (b'\n' ∷ bytes "a\nb"))
unfolding joined_parts to_crlf
write_parts-to_crlf_example =
    write_parts-to_crlf (bytes "a\nb") (bytes "a\r") (bytes "\nb" ∷ []) (bytes "To: a\n") refl

abbrev four : Write
four = λ at n. some 4

write_header-short_example :
    write_header four (bytes "To") (some (bytes "a")) []
    ≡ some (r_success, [] ++ take_bytes 4 (header_line (bytes "To") (some (bytes "a"))))
unfolding header_line
write_header-short_example =
    write_header-short four (bytes "To") (some (bytes "a")) [] 4 refl (omega arith) (omega arith)
