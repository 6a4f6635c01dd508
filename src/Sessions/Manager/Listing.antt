-- ===== src/Sessions/Manager/Listing.antt =====
-- `list_sessions` of remote_ssh_mcp/sessions.py, cut at its wait: `begin_list` is the list that it makes
-- of the dict, `refresh` what becomes of `_refresh` for a session, `finish_list` what follows the wait.
-- The status of a session is left to the caller.
use remote_ssh_mcp_server.Prelude.Text.{Text}
use remote_ssh_mcp_server.Prelude.{
  ℕ, Bool, true, false, not, ◌||◌, none, some, List, [], ◌∷◌, ◌==◌, if◌then◌else◌,
}
use remote_ssh_mcp_server.Errors.{remote, cancelled_error, other_error, Result, ok, err}
use remote_ssh_mcp_server.Sessions.Session.{
  ConnectionState, new, ready, closed, another, RemoteSession,
}
use remote_ssh_mcp_server.Sessions.Manager.{SessionManager, find_session}

-- An object of the list: the id that it is looked up by, and which object it is.
abbrev pub Tag : Type 0
Tag = Text × ℕ

unfoldable pub tags : List RemoteSession → List Tag
tags [] = []
tags (s ∷ ss) = (s.session_id, s.serial) ∷ tags ss

unfoldable pub begin_list : SessionManager → List Tag
unfolding tags
begin_list m = tags m.sessions

is_ready : ConnectionState → Bool
is_ready ready = true
is_ready new = false
is_ready closed = false
is_ready (another name) = false

-- `except RemoteMCPError: pass`
unfoldable pub swallow : Result (Unit {0}) → Result (Unit {0})
swallow (ok _) = ok tt
swallow (err (remote code)) = ok tt
swallow (err cancelled_error) = err cancelled_error
swallow (err other_error) = err other_error

-- `_refresh`, for what `ensure_ready` gives or raises
unfoldable pub refresh : Result (Unit {0}) → RemoteSession → Result (Unit {0})
unfolding is_ready swallow
refresh outcome s =
    if s.closing || not s.services || not (is_ready s.master) then ok tt else swallow outcome

-- The refreshes of the list, each with what it meets: what `ensure_ready` gives, and the session.
unfoldable pub refresh_all : List (Result (Unit {0}) × RemoteSession) → List (Result (Unit {0}))
unfolding refresh
refresh_all [] = []
refresh_all ((outcome, s) ∷ met) = refresh outcome s ∷ refresh_all met

-- `asyncio.gather`, for the results of its coroutines as they come in
unfoldable pub gather : List (Result (Unit {0})) → Result (Unit {0})
gather [] = ok tt
gather (ok _ ∷ results) = gather results
gather (err e ∷ results) = err e

-- `if self._sessions.get(session.session_id) is session`
unfoldable pub still_there : List Tag → List RemoteSession → List RemoteSession
unfolding find_session
still_there [] ss = []
still_there ((id, serial) ∷ listed) ss =
    let rest = still_there listed ss in
    elim (find_session id ss) [
      | none ↦ rest
      | some s ↦ if s.serial == serial then s ∷ rest else rest
    ]

unfoldable pub finish_list :
    List Tag → List (Result (Unit {0})) → SessionManager → Result (List RemoteSession)
unfolding gather still_there
finish_list listed results m = elim (gather results) [
  | ok _ ↦ ok (still_there listed m.sessions)
  | err e ↦ err e
]
