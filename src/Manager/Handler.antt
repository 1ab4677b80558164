-- ===== src/Manager/Handler.antt =====
-- `request_handler` of client_side.c: the commands of one connection, from the first read to the
-- end of the thread.
use messasy.Base.{
  ℕ, zero, suc, ◌+◌, Bool, true, false, Option, none, some, List, [], ◌∷◌, if◌then◌else◌, Bytes,
  length,
}
use messasy.CString.{skip_blanks, strip_case, c_str}
use messasy.Manager.{
  at_word_end, Read, Line, read_line, too_long, line, too_long_string, unknown_string, Session, say,
  Done, ended, manager_login, manager_quit, manager_reload,
}

-- What the configuration makes of the `k`-th line: the password, and whether a reload succeeds.
pub record World : Type 0 where
  pub password : ℕ → Bytes
  pub reload : ℕ → Bool

pub data Command : Type 0 where
  login reload quit : Command

-- `manager_command`
abbrev pub dc_command : Command → Bytes
dc_command login = b'L' ∷ b'O' ∷ b'G' ∷ b'I' ∷ b'N' ∷ []
dc_command reload = b'R' ∷ b'E' ∷ b'L' ∷ b'O' ∷ b'A' ∷ b'D' ∷ []
dc_command quit = b'Q' ∷ b'U' ∷ b'I' ∷ b'T' ∷ []

unfoldable pub dc_func : World → ℕ → Command → Bytes → Session → Done × Session
dc_func world k login = manager_login (world.password k)
dc_func world k reload = manager_reload (world.reload k)
dc_func world k quit = manager_quit

-- The search through `manager_command`, with the argument of the command that is found.
unfoldable pub find_command : List Command → Bytes → Option (Command × Bytes)
unfolding at_word_end
find_command [] bufp = none
find_command (d ∷ ds) bufp =
    let rest = find_command ds bufp in
    elim (strip_case (dc_command d) bufp) [
      | none ↦ rest
      | some arg ↦ if at_word_end arg then some (d, arg) else rest
    ]

abbrev pub manager_command : List Command
manager_command = login ∷ reload ∷ quit ∷ []

unfoldable pub goes_on : Done × Session → Bool × Session
goes_on (ended, mc) = (false, mc)
goes_on (_, mc) = (true, mc)

-- The command that was found, with its argument.
unfoldable pub run_command : World → ℕ → Option (Command × Bytes) → Session → Bool × Session
unfolding dc_func goes_on
run_command world k none mc = (true, say unknown_string mc)
run_command world k (some (d, arg)) mc = goes_on (dc_func world k d arg mc)

-- One line: whether the loop goes on.
unfoldable pub handle_line : World → ℕ → Bytes → Session → Bool × Session
unfolding find_command run_command
handle_line world k readbuf mc =
    run_command world k (find_command manager_command (skip_blanks (c_str readbuf))) mc

-- What follows a call of `read_line`; `again` is the rest of the loop.
unfoldable pub after_line : World → ℕ → (Session → Option Session) → Line → Session → Option Session
unfolding handle_line
after_line world k again too_long mc = again (say too_long_string mc)
after_line world k again (line readbuf) mc =
    let (on, mc') = handle_line world k readbuf mc in
    let later = again mc' in elim on [ true ↦ later | false ↦ some mc' ]
after_line world k again _ mc = some mc

-- The loop; none where the fuel is not enough.
unfoldable pub request_loop : ℕ → World → ℕ → List Read → Session → Option Session
unfolding after_line
request_loop zero world k rs mc = none
request_loop (suc fuel) world k rs mc =
    let (got_line, rest) = read_line rs in
    after_line world k (λ mc'. request_loop fuel world (k + 1) rest mc') got_line mc

unfoldable pub request_handler : World → List Read → Session → Option Session
unfolding request_loop
request_handler world rs mc = request_loop (length rs + 1) world 0 rs mc
