-- ===== src/Manager/Secure.antt =====
-- What a connection must have done before its thread calls `reload_config`.
use messasy.Base.{
  ℕ, ◌+◌, ◌≡◌, refl, Bool, true, false, ◌&&◌, ◌||◌, Option, none, some, List, [], ◌∷◌, Bytes,
  length, arith, inl, inr, Bool-cases,
}
use messasy.CString.{str_eq, skip_blanks, c_str}
use messasy.Manager.{
  Read, Reply, Action, says, calls_reload, ok_reload_string, ng_string, ok_login_string,
  too_long_string, unknown_string, done, ended, syntax_error, Session, say, Done, is_auth,
  authenticate, no_argument, manager_login, manager_quit, manager_reload,
}
use messasy.Manager.Handler.{
  World, Command, login, reload, quit, dc_func, goes_on, run_command, find_command, manager_command,
  handle_line, request_handler,
}
use messasy.Manager.Ends.{Ends, request_loop-Ends}

is_login : Action → Bool
is_login (says ok_login_string) = true
is_login _ = false

-- The login has been acknowledged; the log has its last action first.
unfoldable pub has_login : List Action → Bool
unfolding is_login
has_login [] = false
has_login (a ∷ older) = is_login a || has_login older

-- No call of `reload_config` comes before a login.
unfoldable pub is_ordered : List Action → Bool
unfolding has_login
is_ordered [] = true
is_ordered (calls_reload ∷ older) = has_login older && is_ordered older
is_ordered (says r ∷ older) = is_ordered older

record Secure (mc : Session) : Type 0 where
  known : is_auth mc ≡ true → has_login mc.log ≡ true
  ordered : is_ordered mc.log ≡ true

-- Another reply.
Secure-say : (r : Reply) (mc : Session) → Secure mc → Secure (say r mc)
unfolding has_login is_ordered is_auth
Secure-say r mc p = record { known = λ h. ground (arith, p.known h); ordered = p.ordered }

authenticate-Secure :
    (password : Bytes) (param : Option Bytes) (mc : Session)
    → Secure mc
    → Secure (authenticate password param mc).1
unfolding authenticate is_auth has_login is_ordered is_login
authenticate-Secure password none mc p = Secure-say _ mc p
authenticate-Secure password (some w) mc p = elim (Bool-cases (is_auth mc)) [
  | inl a ↦ rw a (record { known = λ h. p.known a; ordered = p.ordered })
  | inr a ↦ elim (Bool-cases (str_eq password w)) [
    | inl b ↦ rw (a, b) (record { known = λ h. refl; ordered = p.ordered })
    | inr b ↦ rw (a, b) (record { known = λ h. p.known (ground (arith, h)); ordered = p.ordered })
  ]
]

manager_reload-Secure :
    (works : Bool) (arg : Bytes) (mc : Session) → Secure mc → Secure (manager_reload works arg mc).1
unfolding manager_reload is_auth is_ordered has_login
manager_reload-Secure works arg mc p = elim (Bool-cases (no_argument arg)) [
  | inr e ↦ rw e (Secure-say _ mc p)
  | inl e ↦ elim (Bool-cases (is_auth mc)) [
    | inr a ↦ rw (e, a) (Secure-say _ mc p)
    | inl a ↦ elim (Bool-cases works) [
      | inl w ↦ rw (e, a, w) (called_by ok_reload_string a)
      | inr w ↦ rw (e, a, w) (called_by ng_string a)
    ]
  ]
]
  where
    called_by :
        (r : Reply) → is_auth mc ≡ true → Secure (say r (record mc { log = calls_reload ∷ mc.log }))
    called_by r a = record {
      known = λ h. ground (arith, p.known a);
      ordered = rw (p.known a, p.ordered) refl;
    }

dc_func-Secure :
    (world : World) (k : ℕ) (d : Command) (arg : Bytes) (mc : Session)
    → Secure mc
    → Secure (dc_func world k d arg mc).1
unfolding dc_func manager_login manager_quit
dc_func-Secure world k login arg mc p = authenticate-Secure _ _ mc p
dc_func-Secure world k reload arg mc p = manager_reload-Secure _ arg mc p
dc_func-Secure world k quit arg mc p = elim (Bool-cases (no_argument arg)) [
  | inl e ↦ rw e (Secure-say _ mc p)
  | inr e ↦ rw e (Secure-say _ mc p)
]

handle_line-Secure :
    (world : World) (k : ℕ) (readbuf : Bytes) (mc : Session)
    → Secure mc
    → Secure (handle_line world k readbuf mc).1
unfolding handle_line goes_on run_command
handle_line-Secure world k readbuf mc p =
    at_command (find_command manager_command (skip_blanks (c_str readbuf)))
  where
    at_done : (r : Done × Session) → Secure r.1 → Secure (goes_on r).1
    at_done (done, mc') q = q
    at_done (syntax_error, mc') q = q
    at_done (ended, mc') q = q

    at_command : (o : Option (Command × Bytes)) → Secure (run_command world k o mc).1
    at_command none = Secure-say unknown_string mc p
    at_command (some (d, arg)) = at_done _ (dc_func-Secure world k d arg mc p)

-- The thread of a connection ends whatever its socket gives, and it calls `reload_config` only
-- after it has acknowledged a login.
pub request_handler-is_ordered :
    (world : World) (rs : List Read)
    → Ends
        (λ mc'. is_ordered mc'.log ≡ true)
        (request_handler world rs (record { state = 0; log = [] }))
unfolding request_handler is_ordered is_auth
request_handler-is_ordered world rs =
    let (mc', e, p) =
      request_loop-Ends Secure world (λ k b mc p. handle_line-Secure world k b mc p)
        (λ mc p. Secure-say too_long_string mc p) (length rs + 1) 0 rs
        (record { state = 0; log = [] }) (omega arith) fresh in
    (mc', e, p.ordered)
  where
    fresh : Secure (record { state = 0; log = [] })
    fresh = record { known = λ h. cc; ordered = refl }
