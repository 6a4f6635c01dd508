-- ===== src/Sessions/Manager.antt =====
-- `SessionManager` of remote_ssh_mcp/sessions.py. `connect` is cut at its waits: `ensure_accepting`,
-- then `claim_server` once the server is known, then `finish_connect` when the start task is done.
-- Other calls may run between the parts. `key_digest` stands for `_key_digest`.
pub mod Unique
pub mod Valid
pub mod Stays
pub mod World
pub mod Keys
pub mod Authorize
pub mod Tokens
pub mod Listing
pub mod Listed
pub mod Exact
pub mod Lists
use remote_ssh_mcp_server.Prelude.Lists.{length}
use remote_ssh_mcp_server.Prelude.Text.{Text, text_eq}
use remote_ssh_mcp_server.Prelude.{
  ℕ, suc, Bool, true, false, not, ◌||◌, Option, none, some, List, [], ◌∷◌, ◌++◌, leb, if◌then◌else◌,
}
use remote_ssh_mcp_server.Errors.{
  Raised, remote, cancelled_error, Result, ok, err, server_closing, session_limit_reached,
  already_connected, session_closed, session_not_found, invalid_session_key, session_closing,
  session_not_ready,
}
use remote_ssh_mcp_server.Sessions.Identity.{ServerIdentity, same_server}
use remote_ssh_mcp_server.Sessions.Session.{
  ConnectionState, new, StartTask, waiting, succeeded, cancelled, raised, RemoteSession, accepts,
}

-- `sessions` is the dict, in insertion order, keyed by `session_id`; `created` counts the sessions that
-- have been made.
pub record SessionManager : Type 0 where
  pub max_sessions : ℕ
  pub sessions : List RemoteSession
  pub closed : Bool
  pub created : ℕ

-- `_ensure_accepting`
unfoldable pub ensure_accepting : SessionManager → Result (Unit {0})
ensure_accepting m =
    if m.closed
    then err (remote server_closing)
    else if leb m.max_sessions (length m.sessions)
    then err (remote session_limit_reached)
    else ok tt

-- `self._sessions.get(session_id)`
unfoldable pub find_session : Text → List RemoteSession → Option RemoteSession
unfolding text_eq
find_session id [] = none
find_session id (s ∷ ss) = if text_eq s.session_id id then some s else find_session id ss

-- `_owner`
unfoldable pub owner : ServerIdentity → List RemoteSession → Option RemoteSession
unfolding same_server
owner server [] = none
owner server (s ∷ ss) = if same_server s.server server then some s else owner server ss

-- `_new_session_id`, on the tokens that `secrets.token_hex` gives one after another
unfoldable pub new_session_id : List Text → List RemoteSession → Option Text
unfolding find_session
new_session_id [] ss = none
new_session_id (candidate ∷ candidates) ss = elim (find_session candidate ss) [
  | none ↦ some candidate
  | some s ↦ new_session_id candidates ss
]

-- A change of one session object, which is the one in the dict.
unfoldable pub change :
    (RemoteSession → RemoteSession) → Text → List RemoteSession → List RemoteSession
unfolding text_eq
change f id [] = []
change f id (s ∷ ss) = if text_eq s.session_id id then f s ∷ ss else s ∷ change f id ss

-- `self._sessions.pop(session_id, None)`
unfoldable pub pop : Text → List RemoteSession → List RemoteSession
unfolding text_eq
pop id [] = []
pop id (s ∷ ss) = if text_eq s.session_id id then ss else s ∷ pop id ss

-- What `_close` does before it waits: the close task is created once.
unfoldable pub begin_close : RemoteSession → RemoteSession
begin_close s = if s.close_task then s else record s { closing = true; close_task = true }

-- What the loop of `connect` finds: another session that closes and is waited for, an error, a
-- session under a new id, or no token left.
pub data Claim : Type 0 where
  wait_for : Text → Claim
  refused : Raised → Claim
  registered : Text → Claim
  no_token : Claim

unfoldable pub new_session : (Text → Text) → ServerIdentity → Text → Text → ℕ → RemoteSession
new_session key_digest server key id serial = record {
  serial = serial;
  session_id = id;
  server = server;
  master = new;
  key_digest = key_digest key;
  last_used_at = none;
  services = false;
  closing = false;
  start_task = waiting;
  close_task = false;
}

-- `self._sessions[session.session_id] = session`, under an id that is not in the dict
insert : RemoteSession → SessionManager → SessionManager
insert s m = record m { sessions = m.sessions ++ (s ∷ []); created = suc m.created }

unfoldable register :
    (Text → Text) → ServerIdentity → Text → List Text → SessionManager → Claim × SessionManager
unfolding new_session_id new_session insert
register key_digest server key tokens m = elim (new_session_id tokens m.sessions) [
  | none ↦ (no_token, m)
  | some id ↦ (registered id, insert (new_session key_digest server key id m.created) m)
]

-- One turn of `connect`'s loop, and what follows it up to the start task.
unfoldable pub claim_server :
    (Text → Text) → ServerIdentity → Text → List Text → SessionManager → Claim × SessionManager
unfolding owner ensure_accepting register
claim_server key_digest server key tokens m = elim (owner server m.sessions) [
  | some s ↦
      if s.closing
      then (
        wait_for s.session_id,
        record m { sessions = change begin_close s.session_id m.sessions },
      )
      else (refused (remote already_connected), m)
  | none ↦ elim (ensure_accepting m) [
    | err e ↦ (refused e, m)
    | ok _ ↦ register key_digest server key tokens m
  ]
]

-- The end of the start task: `_start` has created the services, or it has raised.
unfoldable pub started : Result (Unit {0}) → RemoteSession → RemoteSession
started (ok _) s = record s { services = true; start_task = succeeded }
started (err cancelled_error) s = record s { start_task = cancelled }
started (err e) s = record s { start_task = raised e }

-- What is raised for a start task that is done.
start_error : StartTask → Option Raised
start_error (raised e) = some e
start_error cancelled = some (remote session_closed)
start_error waiting = none
start_error succeeded = none

close_on_error : RemoteSession → Option Raised → Option Raised × RemoteSession
unfolding begin_close
close_on_error s none = (none, s)
close_on_error s (some e) = (some e, begin_close s)

-- The end of `connect`: `none` when the session and its key are returned, else the exception, which
-- comes with `_close`. `interrupted` says that the caller has been cancelled in its wait.
unfoldable pub finish_connect : Bool → RemoteSession → Option Raised × RemoteSession
unfolding start_error close_on_error
finish_connect interrupted s = close_on_error s (
    if interrupted
    then some cancelled_error
    else if s.closing
    then some (remote session_closed)
    else start_error s.start_task)

-- The tests of `authorize` on the session that it has found.
unfoldable pub check_session : (Text → Text) → Text → RemoteSession → Result (Unit {0})
unfolding accepts
check_session key_digest key s =
    if not (accepts key_digest key s)
    then err (remote invalid_session_key)
    else if s.closing
    then err (remote session_closing)
    else if not s.services
    then err (remote session_not_ready)
    else ok tt

-- `session.last_used_at = _timestamp()`
abbrev pub mark_used : ℕ → RemoteSession → RemoteSession
mark_used now s = record s { last_used_at = some now }

-- `authorize`
unfoldable pub authorize :
    (Text → Text) → ℕ → Text → Text → SessionManager → Result RemoteSession × SessionManager
unfolding find_session check_session change
authorize key_digest now id key m = elim (find_session id m.sessions) [
  | none ↦ (err (remote session_not_found), m)
  | some s ↦ elim (check_session key_digest key s) [
    | err e ↦ (err e, m)
    | ok _ ↦ (ok (mark_used now s), record m { sessions = change (mark_used now) id m.sessions })
  ]
]

-- `disconnect`, up to its wait
unfoldable pub disconnect : Text → SessionManager → Result (Unit {0}) × SessionManager
unfolding find_session change
disconnect id m = elim (find_session id m.sessions) [
  | none ↦ (err (remote session_not_found), m)
  | some s ↦ (ok tt, record m { sessions = change begin_close id m.sessions })
]

-- The end of `_shutdown`.
unfoldable pub forget : Text → SessionManager → SessionManager
forget id m = record m { sessions = pop id m.sessions }

unfoldable pub begin_all : List RemoteSession → List RemoteSession
unfolding begin_close
begin_all [] = []
begin_all (s ∷ ss) = begin_close s ∷ begin_all ss

-- `close`, up to its wait
unfoldable pub close : SessionManager → SessionManager
unfolding begin_all
close m = record m { closed = true; sessions = begin_all m.sessions }

-- `__init__`
unfoldable pub new_manager : ℕ → SessionManager
new_manager max_sessions = record {
  max_sessions = max_sessions;
  sessions = [];
  closed = false;
  created = 0;
}
