-- ===== src/Transfers/Upload.antt =====
-- `_publish_upload` and `_run_upload` of remote_ssh_mcp/transfers.py.
pub mod Verified
use remote_ssh_mcp_server.Prelude.Int.{ℤ, pos, is_status}
use remote_ssh_mcp_server.Prelude.Text.{Text, text_eq}
use remote_ssh_mcp_server.Prelude.{
  ℕ, Bool, true, false, not, ◌&&◌, ◌||◌, Option, none, some, List, [], ◌∷◌, if◌then◌else◌,
}
use remote_ssh_mcp_server.Errors.{
  Code, Raised, remote, cancelled_error, other_error, Result, ok, err, invalid_local_path,
  remote_path_exists, verification_failed, transfer_publish_failed, transfer_internal_error,
}
use remote_ssh_mcp_server.Errors
use remote_ssh_mcp_server.Commands.Runner.{CommandResult}
use remote_ssh_mcp_server.Transfers.Operation.{
  TransferOperation, TransferState, running, verifying, completed, failed, cancelled,
}
use remote_ssh_mcp_server.Transfers.Task.{Job, Task, ◌>>=◌, ◌>>◌, lift, modify, ensure, enter}
use remote_ssh_mcp_server.Transfers.Remote.{
  Rsync, run_rsync, remote_sha256, remote_exists, prepare_remote_partial,
}

-- What the commands of the publishing script do on the remote host. `reply` says whether the
-- result of the script comes back.
pub record RemotePublish : Type 0 where
  pub mv : ℤ
  pub ln : Bool
  pub final_exists : Bool
  pub rm : Bool
  pub reply : Result (Unit {0})

-- The exit status of the script. In the last `else` branch `$?` is the status of `test`, which is 1.
unfoldable pub publish_status : Bool → RemotePublish → ℤ
publish_status true r = r.mv
publish_status false r =
    if r.ln
    then (if r.rm then pos 0 else pos 79)
    else if r.final_exists
    then (if r.rm then pos 80 else pos 79)
    else pos 1

-- Whether the script has put the partial in the place of the destination.
unfoldable pub moves : Bool → RemotePublish → Bool
moves true r = is_status 0 r.mv
moves false r = r.ln

note_moved : Bool → Text → Task (Unit {0})
note_moved true path j = (ok tt, record j { published = path ∷ j.published })
note_moved false path j = (ok tt, j)

-- The tests of `_publish_upload` on the exit status.
publish_result : Bool → ℤ → Result (Unit {0})
publish_result overwrite status =
    if is_status 0 status
    then ok tt
    else if not overwrite && is_status 80 status
    then err (remote remote_path_exists)
    else err (remote transfer_publish_failed)

-- `_publish_upload`
unfoldable pub publish_upload : Bool → Text → RemotePublish → Task (Unit {0})
unfolding note_moved publish_result publish_status moves
publish_upload overwrite path r = do
  note_moved (moves overwrite r) path
  lift r.reply
  lift (publish_result overwrite (publish_status overwrite r))

-- The answers of the environment to one run, in the order of the calls.
pub record UploadEnv : Type 0 where
  pub started : ℕ
  pub stat_size : Result ℕ
  pub is_file : Bool
  pub exists : Result CommandResult
  pub prepared : Result CommandResult
  pub local_hash : Result Text
  pub rsync : Rsync
  pub verified : ℕ
  pub remote_hash : Result CommandResult
  pub publish : RemotePublish
  pub ended : ℕ

set_total : ℕ → TransferOperation → TransferOperation
set_total n op = record op { total_bytes = some n }

set_bytes : ℕ → TransferOperation → TransferOperation
set_bytes n op = record op { bytes_transferred = n }

set_digest : Text → TransferOperation → TransferOperation
set_digest digest op = record op { sha256 = some digest }

-- `if not operation.overwrite and await self._remote_exists(…): raise …`
refuse_existing : Bool → Result CommandResult → Result (Unit {0})
refuse_existing true exists = ok tt
refuse_existing false exists =
    Errors.◌>>=◌ exists (λ r. if remote_exists r then err (remote remote_path_exists) else ok tt)

-- The body of the `try` up to the hashes: it gives the digest that both sides have.
unfoldable pub send : Bool → UploadEnv → Task Text
unfolding set_total set_bytes refuse_existing
send overwrite w = do
  size ← lift w.stat_size
  ensure w.is_file invalid_local_path
  modify (set_total size)
  lift (refuse_existing overwrite w.exists)
  lift (Errors.◌>>=◌ w.prepared prepare_remote_partial)
  local_hash ← lift w.local_hash
  run_rsync w.rsync
  modify (set_bytes size)
  enter w.verified verifying
  remote_hash ← lift (Errors.◌>>=◌ w.remote_hash remote_sha256)
  ensure (text_eq local_hash remote_hash) verification_failed
  lift (ok local_hash)

-- The rest of the body.
unfoldable pub complete : Bool → Text → UploadEnv → Text → Task (Unit {0})
unfolding set_digest
complete overwrite path w local_hash = do
  publish_upload overwrite path w.publish
  modify (set_digest local_hash)
  enter w.ended completed

set_error : Code → TransferOperation → TransferOperation
set_error c op = record op { error = some c }

-- The `except` clauses.
unfoldable pub handle : UploadEnv → Result (Unit {0}) × Job → Result (Unit {0}) × Job
unfolding set_error
handle w (ok _, j) = (ok tt, j)
handle w (err cancelled_error, j) = enter w.ended cancelled j
handle w (err (remote c), j) = (do modify (set_error c); enter w.ended failed) j
handle w (err other_error, j) =
    (do modify (set_error transfer_internal_error); enter w.ended failed) j

-- `_run_upload`
unfoldable pub run_upload : UploadEnv → Job → Job
run_upload w j =
    let (_, j') = enter w.started running j in
    let op = j'.operation in
    (handle w
      ((do digest ← send op.overwrite w; complete op.overwrite op.remote_path w digest) j')).1
