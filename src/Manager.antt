-- ===== src/Manager.antt =====
-- client_side.c: the administration interface, one thread for each connection. The socket is the
-- sequence of what its reads give; what a thread does is a log of the replies it writes and of its
-- calls of `reload_config`. Other threads may load a new configuration between any two commands,
-- so that the password and the result of a reload depend on the number of the command. Writes to
-- the socket are not checked by the code and take nothing from the model.
pub mod Handler
pub mod Words
pub mod Ends
pub mod Secure
pub mod Lines
pub mod Clients
use messasy.Base.{
  ℕ, zero, suc, ◌+◌, ◌-◌, ◌%◌, Bool, true, false, ◌&&◌, ◌||◌, Option, none, some, List, [], ◌∷◌,
  ◌++◌, ◌==◌, leb, if◌then◌else◌, Bytes,
}
use messasy.CString.{isblank, skip_blanks, strip_case, str_eq, c_str}

-- What one `read` of one byte gives: a byte, EWOULDBLOCK, another error, or the end. A socket that
-- has nothing left is closed.
pub data Read : Type 0 where
  got : ℕ → Read
  would_block failed closed : Read

abbrev pub read : List Read → Read × List Read
read [] = (closed, [])
read (r ∷ rs) = (r, rs)

-- `NONE`, `CR_FOUND` and `CRLF_FOUND`.
pub data Crlf : Type 0 where
  none_found cr_found crlf_found : Crlf

unfoldable pub check_crlf : ℕ → Crlf → Crlf
check_crlf c state =
    if c == b'\r'
    then cr_found
    else if c == b'\n'
    then (elim state [ cr_found ↦ crlf_found | _ ↦ none_found ])
    else none_found

-- `read_dust`, which leaves the rest of the socket.
unfoldable pub read_dust : Crlf → List Read → List Read
unfolding check_crlf
read_dust crlf_found rs = rs
read_dust _ [] = []
read_dust state ((got c) ∷ rs) = read_dust (check_crlf c state) rs
read_dust state (_ ∷ rs) = rs

-- The results of `read_line`, with the line where there is one.
pub data Line : Type 0 where
  timeout error eof too_long : Line
  line : Bytes → Line

-- `mv--`: the CR of a CRLF is overwritten by the NUL.
unfoldable pub drop_last : Bytes → Bytes
drop_last [] = []
drop_last (c ∷ []) = []
drop_last (c ∷ d ∷ cs) = c ∷ drop_last (d ∷ cs)

abbrev pub max_cmd_len : ℕ
max_cmd_len = 128

-- The loop of `read_line`; `room` is `MAX_CMD_LEN + 1 - len`, and `buf` what has been read.
unfoldable pub read_loop : ℕ → Crlf → Bytes → List Read → Line × List Read
unfolding drop_last
read_loop zero state buf rs = (too_long, read_dust state rs)
read_loop (suc room) state buf [] = (eof, [])
read_loop (suc room) state buf (would_block ∷ rs) = (timeout, rs)
read_loop (suc room) state buf (failed ∷ rs) = (error, rs)
read_loop (suc room) state buf (closed ∷ rs) = (eof, rs)
read_loop (suc room) state buf ((got c) ∷ rs) = elim (check_crlf c state) [
  | crlf_found ↦ (line (drop_last buf), rs)
  | state' ↦ read_loop room state' (buf ++ (c ∷ [])) rs
]

unfoldable pub read_line : List Read → Line × List Read
unfolding read_loop
read_line rs = read_loop (max_cmd_len + 1) none_found [] rs

-- A blank, or the end of the string.
unfoldable pub at_word_end : Bytes → Bool
at_word_end [] = true
at_word_end (c ∷ _) = isblank c

-- A word up to a blank, with what follows the blank, or up to the end of the string.
unfoldable pub word : Bytes → Bytes × Option Bytes
unfolding isblank
word [] = ([], none)
word (c ∷ cs) = let rest = word cs in if isblank c then ([], some cs) else (c ∷ rest.0, rest.1)

-- The loop of `parse_arg`, with `more` words to take and `count` taken: its result and `array`.
unfoldable pub parse_loop : ℕ → ℕ → Bytes → ℕ × List Bytes
unfolding word skip_blanks
parse_loop zero count string = (count + 1, [])
parse_loop (suc more) count string = elim (skip_blanks string) [
  | [] ↦ (count, [])
  | c ∷ cs ↦
      let (w, left) = word (c ∷ cs) in
      elim left [
        | none ↦ (count + 1, w ∷ [])
        | some rest ↦ let later = parse_loop more (count + 1) rest in (later.0, w ∷ later.1)
      ]
]

unfoldable pub parse_arg : Bytes → ℕ → ℕ × List Bytes
unfolding parse_loop
parse_arg string num = parse_loop num 0 string

pub data Reply : Type 0 where
  banner too_long_string syntax_err_string auth_err_string unknown_string ng_string : Reply
  many_connect_string goodby_string ok_reload_string ok_login_string ok_already_login_string : Reply

pub data Action : Type 0 where
  says : Reply → Action
  calls_reload : Action

-- `R_SUCCESS`, `R_SYNTAX_ERROR` and `R_ERROR` of a command.
pub data Done : Type 0 where
  done syntax_error ended : Done

-- `mc_state`, and what the thread has done, the last first.
pub record Session : Type 0 where
  pub state : ℕ
  pub log : List Action

abbrev pub say : Reply → Session → Session
say r mc = record mc { log = says r ∷ mc.log }

abbrev pub login_state_auth : ℕ
login_state_auth = 1

-- `mc_state & LOGIN_STATE_AUTH`
unfoldable pub is_auth : Session → Bool
is_auth mc = mc.state % 2 == login_state_auth

-- The `switch` of `manager_login`: `param[0]`, or none for a syntax error.
unfoldable pub login_param : ℕ × List Bytes → Option Bytes
login_param (suc zero, w ∷ _) = some w
login_param (suc (suc zero), w ∷ [] ∷ _) = some w
login_param _ = none

-- What `manager_login` does behind the `switch`.
unfoldable pub authenticate : Bytes → Option Bytes → Session → Done × Session
unfolding is_auth
authenticate password none mc = (syntax_error, say syntax_err_string mc)
authenticate password (some w) mc =
    let kept = record mc { state = mc.state % 2 } in
    if is_auth mc
    then (done, say ok_already_login_string kept)
    else if str_eq password w
    then (done, say ok_login_string (record kept { state = login_state_auth }))
    else (ended, say auth_err_string kept)

-- Its first argument is `cf_adminpassword`.
unfoldable pub manager_login : Bytes → Bytes → Session → Done × Session
unfolding parse_arg login_param authenticate
manager_login password arg mc = authenticate password (login_param (parse_arg arg 2)) mc

-- The `switch` of `manager_quit` and `manager_reload`: whether it is no syntax error.
unfoldable pub no_param : ℕ × List Bytes → Bool
no_param (zero, _) = true
no_param (suc zero, [] ∷ _) = true
no_param _ = false

unfoldable pub no_argument : Bytes → Bool
unfolding parse_arg no_param
no_argument arg = no_param (parse_arg arg 1)

unfoldable pub manager_quit : Bytes → Session → Done × Session
unfolding no_argument
manager_quit arg mc =
    if no_argument arg
    then (ended, say goodby_string mc)
    else (syntax_error, say syntax_err_string mc)

-- Its first argument says whether `reload_config` succeeds.
unfoldable pub manager_reload : Bool → Bytes → Session → Done × Session
unfolding no_argument is_auth
manager_reload works arg mc =
    if no_argument arg
    then if is_auth mc then reload else (ended, say auth_err_string mc)
    else (syntax_error, say syntax_err_string mc)
  where
    called : Session
    called = record mc { log = calls_reload ∷ mc.log }

    reload : Done × Session
    reload = if works then (done, say ok_reload_string called) else (ended, say ng_string called)
