-- ===== src/Transfers/Download/Verified.antt =====
-- A download ends, gives its reservation back, and publishes verified bytes only.
use remote_ssh_mcp_server.Prelude.Text.{Text}
use remote_ssh_mcp_server.Prelude.{◌≡◌}
use remote_ssh_mcp_server.Errors.{Raised, ok}
use remote_ssh_mcp_server.Errors
use remote_ssh_mcp_server.Transfers.Operation.{Reservations}
use remote_ssh_mcp_server.Transfers.Task.{Job, ◌>>=◌, ◌>>◌}
use remote_ssh_mcp_server.Transfers.Task.Active.{Clean}
use remote_ssh_mcp_server.Transfers.Task.Ending.{Safe, Published, End}
use remote_ssh_mcp_server.Transfers.Remote.{remote_sha256}
use remote_ssh_mcp_server.Transfers.Download.{DownloadEnv}

-- The remote host and the local partial have the digest `h`.
pub record Agreed (w : DownloadEnv) (h : Text) : Type 0 where
  pub local : w.local_hash ≡ ok h
  pub remote_side : Errors.◌>>=◌ w.remote_hash remote_sha256 ≡ ok h

abbrev pub Target : DownloadEnv → Text → Type 0
Target w path = w.destination ≡ ok path

module _ (key : Text) (claimed : Reservations) (w : DownloadEnv) where
  abbrev C : Job → Type 0
  C = Clean key claimed

  abbrev S : Job → Type 0
  S = Safe key claimed (Agreed w) (Target w)

  abbrev P : Text → Text → Job → Type 0
  P = Published key claimed (Agreed w) (Target w)

  abbrev E : Job → Type 0
  E = End key claimed (Agreed w) (Target w)
