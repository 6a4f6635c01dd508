-- ===== src/Sessions/Manager/Lists.antt =====
-- What `list_sessions` answers.
use remote_ssh_mcp_server.Prelude.Text.{Text}
use remote_ssh_mcp_server.Prelude.{◌≡◌, ◌⊎◌}
use remote_ssh_mcp_server.Errors.{cancelled_error, other_error, Result, ok, err}
use remote_ssh_mcp_server.Sessions.Manager.World.{World}

-- The result of a refresh is no `RemoteMCPError`.
abbrev IsSwallowed : Result (Unit {0}) → Type 0
IsSwallowed r = (r ≡ ok tt) ⊎ ((r ≡ err cancelled_error) ⊎ (r ≡ err other_error))
