-- ===== src/Transfers/Download.antt =====
-- `_validate_partial` and `_run_download` of remote_ssh_mcp/transfers.py.
pub mod Verified
use remote_ssh_mcp_server.Prelude.Text.{Text, codes, text_eq}
use remote_ssh_mcp_server.Prelude.{
  ℕ, ◌-◌, Bool, true, false, not, ◌&&◌, ◌||◌, Option, none, some, List, [], ◌∷◌, leb, ltb,
  if◌then◌else◌,
}
use remote_ssh_mcp_server.Errors.{
  Code, Raised, remote, cancelled_error, other_error, Result, ok, err, invalid_remote_type,
  invalid_transfer_partial, insufficient_local_space, verification_failed, local_path_exists,
  transfer_publish_failed, transfer_internal_error,
}
use remote_ssh_mcp_server.Errors
use remote_ssh_mcp_server.Commands.Runner.{CommandResult}
use remote_ssh_mcp_server.Transfers.Operation.{
  TransferOperation, TransferState, running, verifying, completed, failed, cancelled,
}
use remote_ssh_mcp_server.Transfers.Task.{Job, Task, ◌>>=◌, ◌>>◌, lift, modify, ensure, enter}
use remote_ssh_mcp_server.Transfers.Remote.{Rsync, run_rsync, remote_sha256}

-- What `lstat` and the tests of the partial show.
pub data Partial : Type 0 where
  missing : Partial
  found : (is_symlink is_file is_owned : Bool) → (size : ℕ) → Partial

-- `_validate_partial`. A partial that is longer than the remote file is unlinked.
unfoldable pub validate_partial : Partial → ℕ → Result ℕ
validate_partial missing remote_size = ok 0
validate_partial (found is_symlink is_file is_owned size) remote_size =
    if is_symlink || not is_file || not is_owned
    then err (remote invalid_transfer_partial)
    else ok (if ltb remote_size size then 0 else size)

-- What `os.replace`, `os.link` and `unlink` give.
pub data OsCall : Type 0 where
  done file_exists os_error : OsCall

-- The answers of the environment to one run, in the order of the calls. `at_end` is the size of
-- the partial if it is a file when an exception is handled.
pub record DownloadEnv : Type 0 where
  pub started : ℕ
  pub stat_type : Result Text
  pub stat_size : ℕ
  pub partial : Partial
  pub free_bytes : Result ℕ
  pub rsync : Rsync
  pub partial_size : Result ℕ
  pub verified : ℕ
  pub remote_hash : Result CommandResult
  pub local_hash : Result Text
  pub destination : Result Text
  pub replace : OsCall
  pub link : OsCall
  pub unlink : OsCall
  pub at_end : Option ℕ
  pub ended : ℕ

-- `except FileExistsError` and `except OSError` around the publication
os_result : OsCall → Result (Unit {0})
os_result done = ok tt
os_result file_exists = err (remote local_path_exists)
os_result os_error = err (remote transfer_publish_failed)

note_published : Text → OsCall → Task (Unit {0})
unfolding os_result
note_published path done j = (ok tt, record j { published = path ∷ j.published })
note_published path call j = (os_result call, j)

-- `os.replace(partial, destination)`, or `os.link(partial, destination)` and `unlink`
unfoldable pub publish : Bool → DownloadEnv → Text → Task (Unit {0})
unfolding note_published
publish true w path = note_published path w.replace
publish false w path = do note_published path w.link; lift (os_result w.unlink)

set_total : ℕ → TransferOperation → TransferOperation
set_total n op = record op { total_bytes = some n }

set_bytes : ℕ → TransferOperation → TransferOperation
set_bytes n op = record op { bytes_transferred = n }

set_result : Text → ℕ → TransferOperation → TransferOperation
set_result digest n op = record op { sha256 = some digest; bytes_transferred = n }

-- The body of the `try` up to the hashes: it gives the digest that both sides have.
unfoldable pub fetch : DownloadEnv → Task Text
unfolding set_total set_bytes
fetch w = do
  stat_type ← lift w.stat_type
  ensure (text_eq stat_type (codes "regular file")) invalid_remote_type
  modify (set_total w.stat_size)
  partial_size ← lift (validate_partial w.partial w.stat_size)
  modify (set_bytes partial_size)
  free_bytes ← lift w.free_bytes
  ensure (leb (w.stat_size - partial_size) free_bytes) insufficient_local_space
  run_rsync w.rsync
  size ← lift w.partial_size
  modify (set_bytes size)
  enter w.verified verifying
  remote_hash ← lift (Errors.◌>>=◌ w.remote_hash remote_sha256)
  local_hash ← lift w.local_hash
  ensure (text_eq local_hash remote_hash) verification_failed
  lift (ok local_hash)

-- The rest of the body.
unfoldable pub complete : Bool → DownloadEnv → Text → Task (Unit {0})
unfolding set_result
complete overwrite w local_hash = do
  destination ← lift w.destination
  publish overwrite w destination
  modify (set_result local_hash w.stat_size)
  enter w.ended completed

set_error : Option ℕ → Code → TransferOperation → TransferOperation
set_error none c op = record op { error = some c }
set_error (some n) c op = record op { error = some c; bytes_transferred = n }

set_size : Option ℕ → TransferOperation → TransferOperation
set_size none op = op
set_size (some n) op = record op { bytes_transferred = n }

-- The `except` clauses.
unfoldable pub handle : DownloadEnv → Result (Unit {0}) × Job → Result (Unit {0}) × Job
unfolding set_error set_size
handle w (ok _, j) = (ok tt, j)
handle w (err cancelled_error, j) = (do modify (set_size w.at_end); enter w.ended cancelled) j
handle w (err (remote c), j) = (do modify (set_error w.at_end c); enter w.ended failed) j
handle w (err other_error, j) =
    (do modify (set_error none transfer_internal_error); enter w.ended failed) j

-- `_run_download`
unfoldable pub run_download : DownloadEnv → Job → Job
run_download w j =
    let (_, j') = enter w.started running j in
    (handle w ((do digest ← fetch w; complete j'.operation.overwrite w digest) j')).1
