-- ===== src/Transfers/Upload/Verified.antt =====
-- An upload ends, gives its reservation back, and publishes verified bytes only.
use remote_ssh_mcp_server.Prelude.Text.{Text}
use remote_ssh_mcp_server.Prelude.{◌≡◌, Bool, true, false}
use remote_ssh_mcp_server.Errors.{Raised, ok}
use remote_ssh_mcp_server.Errors
use remote_ssh_mcp_server.Transfers.Operation.{Reservations}
use remote_ssh_mcp_server.Transfers.Task.{Job, ◌>>=◌, ◌>>◌}
use remote_ssh_mcp_server.Transfers.Task.Active.{Clean}
use remote_ssh_mcp_server.Transfers.Task.Ending.{Safe, Published, End}
use remote_ssh_mcp_server.Transfers.Remote.{remote_sha256}
use remote_ssh_mcp_server.Transfers.Upload.{UploadEnv}

-- The local file and the remote partial have the digest `h`.
pub record Agreed (w : UploadEnv) (h : Text) : Type 0 where
  pub local : w.local_hash ≡ ok h
  pub remote_side : Errors.◌>>=◌ w.remote_hash remote_sha256 ≡ ok h

-- The destination of the operation.
abbrev pub Target : Text → Text → Type 0
Target remote_path path = path ≡ remote_path

module _ (key : Text) (claimed : Reservations) (path : Text) (w : UploadEnv) where
  abbrev C : Job → Type 0
  C = Clean key claimed

  abbrev S : Job → Type 0
  S = Safe key claimed (Agreed w) (Target path)

  abbrev P : Text → Job → Type 0
  P h = Published key claimed (Agreed w) (Target path) h path

  abbrev E : Job → Type 0
  E = End key claimed (Agreed w) (Target path)

  -- The state between the script's effect and its reply.
  Moved : Bool → Text → Job → Type 0
  Moved true h j = P h j
  Moved false h j = C j
