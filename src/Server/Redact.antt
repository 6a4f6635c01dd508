-- ===== src/Server/Redact.antt =====
-- `RemoteSSHApplication.public_transfer` of remote_ssh_mcp/server.py with `TransferOperation.to_dict`.
-- `decode` is `bytes.decode` with replacement. As in Transfers/Operation an operation has no
-- `created_at`, and an error is its code.
pub mod Hidden
use remote_ssh_mcp_server.Prelude.Int.{ℤ}
use remote_ssh_mcp_server.Prelude.Lists.{length}
use remote_ssh_mcp_server.Prelude.Text.{Text, codes, starts_with}
use remote_ssh_mcp_server.Prelude.{
  ℕ, zero, suc, ◌-◌, Bool, true, false, Option, none, some, List, [], ◌∷◌, ◌++◌,
}
use remote_ssh_mcp_server.Errors.{Code}
use remote_ssh_mcp_server.Transfers.Operation.{Direction, TransferState, TransferOperation}

-- What is left of `t.replace(old, new)` when the next `skip` characters belong to an occurrence that
-- has been replaced; `old` is not empty.
unfoldable pub replace_from : Text → Text → ℕ → Text → Text
unfolding starts_with
replace_from old new skip [] = []
replace_from old new (suc skip) (c ∷ t) = replace_from old new skip t
replace_from old new zero (c ∷ t) = elim (starts_with (c ∷ t) old) [
  | true ↦ new ++ replace_from old new (length old - 1) t
  | false ↦ c ∷ replace_from old new zero t
]

-- `t.replace(old, new)`
unfoldable pub replace : Text → Text → Text → Text
unfolding replace_from
replace old new t = replace_from old new zero t

abbrev pub repository_mark : Text
repository_mark = codes "<repository>"

abbrev pub runtime_mark : Text
runtime_mark = codes "<runtime-dir>"

abbrev pub control_mark : Text
control_mark = codes "<control-path>"

-- What the master of a session has: its private directory and its socket, once it has been started.
pub record Master : Type 0 where
  pub runtime_dir : Option Text
  pub control_path : Option Text

unfoldable pub replace_known : Option Text → Text → Text → Text
unfolding replace
replace_known none mark t = t
replace_known (some sensitive) mark t = replace sensitive mark t

-- The loop over `replacements`, for one field.
unfoldable pub sanitize : Text → Master → Text → Text
unfolding replace replace_known
sanitize root master t =
    replace_known master.control_path control_mark
      (replace_known master.runtime_dir runtime_mark (replace root repository_mark t))

-- `TransferData`
pub record TransferData : Type 0 where
  pub operation_id : Text
  pub direction : Direction
  pub state : TransferState
  pub local_path : Text
  pub remote_path : Text
  pub overwrite : Bool
  pub started_at : Option ℕ
  pub finished_at : Option ℕ
  pub bytes_transferred : ℕ
  pub total_bytes : Option ℕ
  pub sha256 : Option Text
  pub exit_code : Option ℤ
  pub stdout_tail : Text
  pub stderr_tail : Text
  pub error : Option Code

-- `to_dict`
unfoldable pub transfer_dict : (Text → Text) → TransferOperation → TransferData
transfer_dict decode op = record {
  operation_id = op.operation_id;
  direction = op.direction;
  state = op.state;
  local_path = op.local_path;
  remote_path = op.remote_path;
  overwrite = op.overwrite;
  started_at = op.started_at;
  finished_at = op.finished_at;
  bytes_transferred = op.bytes_transferred;
  total_bytes = op.total_bytes;
  sha256 = op.sha256;
  exit_code = op.exit_code;
  stdout_tail = decode op.stdout_tail;
  stderr_tail = decode op.stderr_tail;
  error = op.error;
}

-- `public_transfer`, on what `to_dict` gives
unfoldable pub public_transfer : Text → Master → TransferData → TransferData
unfolding sanitize
public_transfer root master value = record value {
  stdout_tail = sanitize root master value.stdout_tail;
  stderr_tail = sanitize root master value.stderr_tail;
}
