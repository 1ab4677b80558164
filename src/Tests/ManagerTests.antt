-- ===== src/Tests/ManagerTests.antt =====
-- Examples of the administration interface.
use messasy.Base.{
  none, ◌+◌, ◌<◌, ◌≤◌, ◌≡◌, ◌↔◌, refl, true, some, List, [], ◌∷◌, length, Bytes, arith,
}
use messasy.CString.{skip_blanks, str_eq, strip_case, c_str}
use messasy.Manager.{
  check_crlf, manager_reload, manager_quit, Read, would_block, read_line, line, too_long, parse_arg,
  manager_login, Session, is_auth, says, calls_reload, ok_login_string, ok_reload_string,
  syntax_err_string, unknown_string, goodby_string, auth_err_string,
}
use messasy.Manager.Handler.{World, request_handler}
use messasy.Manager.Ends.{Ends}
use messasy.Manager.Lines.{no_lf, sent, crlf, read_line-sent, read_line-too_long}
use messasy.Manager.Secure.{is_ordered, request_handler-is_ordered}
use messasy.Manager.Words.{words, parse_arg-words, take, manager_login-is_auth}
use messasy.Manager.Clients.{
  Clients, accepting, admitted, counted, admit_client, count_client, start_thread, increment_tc,
  no_clients, Reachable, begins, accepts, counts, starts, waiting, thread_count-bounded,
}
use messasy.Tests.{bytes}

abbrev world : World
world = record { password = λ k. bytes "pw"; reload = λ k. true }

abbrev fresh : Session
fresh = record { state = 0; log = [] }

-- A client that logs in, reloads, mistypes and quits.
abbrev client : List Read
client = sent (bytes "login pw") (
    sent crlf (
      sent (bytes " RELOAD ") (
        sent crlf (
          sent (bytes "reload x") (
            sent crlf (sent (bytes "loginpw") (sent crlf (sent (bytes "Quit") (sent crlf [])))))))))

session_test :
    request_handler world client fresh
    ≡ some (record {
      state = 1;
      log =
          says goodby_string
          ∷ says unknown_string
          ∷ says syntax_err_string
          ∷ says ok_reload_string
          ∷ calls_reload
          ∷ says ok_login_string
          ∷ [];
    })
unfolding request_handler read_line check_crlf strip_case skip_blanks c_str manager_login str_eq
    manager_reload manager_quit
session_test = refl

-- Without a login, the connection is closed.
refused_test :
    request_handler world (sent (bytes "reload") (sent crlf [])) fresh
    ≡ some (record { state = 0; log = says auth_err_string ∷ [] })
unfolding request_handler read_line check_crlf strip_case skip_blanks c_str manager_reload
refused_test = refl

request_handler-is_ordered_example :
    Ends (λ mc. is_ordered mc.log ≡ true) (request_handler world client fresh)
request_handler-is_ordered_example = request_handler-is_ordered world client

manager_login-is_auth_example :
    (is_auth (manager_login (bytes "pw") (bytes " pw ") fresh).1 ≡ true)
    ↔ (words (bytes " pw ") ≡ bytes "pw" ∷ [])
unfolding is_auth
manager_login-is_auth_example = manager_login-is_auth (bytes "pw") (bytes " pw ") fresh refl

parse_arg-words_example :
    ((parse_arg (bytes "a  b c") 2).1 ≡ take 2 (words (bytes "a  b c")))
    × (length (words (bytes "a  b c")) < 2
        → (parse_arg (bytes "a  b c") 2).0 ≡ length (words (bytes "a  b c")))
    × (2 ≤ length (words (bytes "a  b c")) → 2 ≤ (parse_arg (bytes "a  b c") 2).0)
parse_arg-words_example = parse_arg-words (bytes "a  b c") 2

read_line-sent_example :
    read_line (sent (bytes "quit") (sent crlf (would_block ∷ [])))
    ≡ (line (bytes "quit"), would_block ∷ [])
unfolding no_lf
read_line-sent_example = read_line-sent (bytes "quit") (would_block ∷ []) refl (omega arith)

-- 128 bytes.
abbrev long_line : Bytes
long_line =
    bytes
      "0123456789abcdef0123456789abcdef0123456789abcdef0123456789abcdef0123456789abcdef0123456789abcdef0123456789abcdef0123456789abcdef"

read_line-too_long_example :
    read_line (sent long_line (sent crlf (sent (bytes "quit") [])))
    ≡ (too_long, sent (bytes "quit") [])
unfolding no_lf
read_line-too_long_example =
    read_line-too_long long_line (sent (bytes "quit") []) refl (omega arith)

-- One connection, where one is allowed.
abbrev one_client : Clients
one_client = record { thread_count = 1; turn = accepting; threads = 1 }

reached_one : Reachable 1 one_client
unfolding admit_client count_client start_thread increment_tc
reached_one =
    starts (record { thread_count = 1; turn = counted; threads = 0 })
      (counts (record { thread_count = 0; turn = admitted; threads = 0 })
        (accepts no_clients (record no_clients { turn = admitted }) true begins refl refl) refl)
      refl

-- One too many.
second_test : admit_client true 1 one_client ≡ none
unfolding admit_client
second_test = refl

thread_count-bounded_example :
    (one_client.thread_count ≡ one_client.threads + waiting one_client.turn)
    × (one_client.thread_count ≤ 1)
thread_count-bounded_example = thread_count-bounded 1 one_client (omega arith) reached_one
