-- ===== src/Sessions/Session.antt =====
-- `RemoteSession` of remote_ssh_mcp/sessions.py.
use remote_ssh_mcp_server.Prelude.Text.{Text, codes, text_eq}
use remote_ssh_mcp_server.Prelude.{ℕ, Bool, Option, if◌then◌else◌}
use remote_ssh_mcp_server.Errors.{Raised}
use remote_ssh_mcp_server.Sessions.Identity.{ServerIdentity}

-- The members of ssh_wrapper's `ConnectionState` that the code names, and any other by its value.
pub data ConnectionState : Type 0 where
  new ready closed : ConnectionState
  another : Text → ConnectionState

-- The task that `connect` creates: it runs `_start`.
pub data StartTask : Type 0 where
  waiting succeeded cancelled : StartTask
  raised : Raised → StartTask

-- `master` is the state of the session's master. `services` and `close_task` say whether the object
-- exists. `serial` tells the objects apart: it is the number of the sessions that were made before.
pub record RemoteSession : Type 0 where
  pub serial : ℕ
  pub session_id : Text
  pub server : ServerIdentity
  pub master : ConnectionState
  pub key_digest : Text
  pub last_used_at : Option ℕ
  pub services : Bool
  pub closing : Bool
  pub start_task : StartTask
  pub close_task : Bool

-- `accepts`, with `_key_digest` as a parameter
unfoldable pub accepts : (Text → Text) → Text → RemoteSession → Bool
unfolding text_eq
accepts key_digest key s = text_eq (key_digest key) s.key_digest

-- The property `state`. `value` gives the `.value` of the members.
unfoldable pub state : (ConnectionState → Text) → RemoteSession → Text
state value s = elim s.master [
  | closed ↦ codes "closed"
  | new ↦ if s.closing then codes "closing" else codes "starting"
  | ready ↦ if s.closing then codes "closing" else value ready
  | another name ↦ if s.closing then codes "closing" else value (another name)
]
