-- ===== src/Transfers/Remote.antt =====
-- What both kinds of transfer ask of rsync and of the remote host: `_run_rsync`, `_remote_sha256`,
-- `_remote_exists`, `_prepare_remote_partial` and the checks of a remote path.
pub mod Rsyncs
use remote_ssh_mcp_server.Prelude.Int.{ℤ, is_status}
use remote_ssh_mcp_server.Prelude.Lists.{length, take, drop, all, is_nil}
use remote_ssh_mcp_server.Prelude.Text.{Text, codes, text_eq, has_char}
use remote_ssh_mcp_server.Prelude.Chars.{lower, is_digit}
use remote_ssh_mcp_server.Prelude.{
  ℕ, Bool, true, false, not, ◌&&◌, ◌||◌, Option, none, some, List, [], ◌∷◌, ◌++◌, leb, ◌==◌,
  if◌then◌else◌,
}
use remote_ssh_mcp_server.Errors.{
  Code, Raised, remote, Result, ok, err, require, connection_lost, transfer_failed,
  remote_hash_unavailable, remote_hash_failed, remote_protocol_error, invalid_remote_path,
  invalid_transfer_partial,
}
use remote_ssh_mcp_server.Errors
use remote_ssh_mcp_server.Commands.Runner.{CommandResult}
use remote_ssh_mcp_server.Transfers.Operation.{TransferOperation}
use remote_ssh_mcp_server.Transfers.Progress.{Reading, read_rsync_stream}
use remote_ssh_mcp_server.Transfers.Task.{Task, ◌>>=◌, ◌>>◌, lift, modify}

-- `_remote_path`
unfoldable pub check_remote_path : Text → Result Text
check_remote_path value =
    if is_nil value || has_char 0 value then err (remote invalid_remote_path) else ok value

ends_with_slash : Text → Bool
ends_with_slash [] = false
ends_with_slash (c ∷ []) = c == b'/'
ends_with_slash (c ∷ d ∷ t) = ends_with_slash (d ∷ t)

-- `_remote_destination`
unfoldable pub check_remote_destination : Text → Result Text
unfolding check_remote_path ends_with_slash
check_remote_destination value = Errors.◌>>=◌ (check_remote_path value) λ path.
    if ends_with_slash path || text_eq path (codes ".") || text_eq path (codes "..")
    then err (remote invalid_remote_path)
    else ok path

-- One run of rsync: `ready` and `ready_again` are what `master.ensure_ready()` gives before it and
-- after a failure, `spawned` and `waited` what `create_subprocess_exec` and `process.wait()` give.
pub record Rsync : Type 0 where
  pub ready : Result (Unit {0})
  pub spawned : Result (Unit {0})
  pub waited : Result ℤ
  pub stdout : List Text
  pub stderr : List Text
  pub ready_again : Result (Unit {0})

store_progress : Option ℕ → TransferOperation → TransferOperation
store_progress none op = op
store_progress (some n) op = record op { bytes_transferred = n }

store_exit : Text → Text → ℤ → TransferOperation → TransferOperation
store_exit stdout_tail stderr_tail status op = record op {
  stdout_tail = stdout_tail;
  stderr_tail = stderr_tail;
  exit_code = some status;
}

-- `if process.returncode != 0:`
rsync_failure : ℤ → Result (Unit {0}) → Result (Unit {0})
rsync_failure status ready_again = if is_status 0 status then ok tt else elim ready_again [
  | ok _ ↦ err (remote transfer_failed)
  | err (remote c) ↦ err (remote connection_lost)
  | err other ↦ err other
]

-- `_run_rsync`
unfoldable pub run_rsync : Rsync → Task (Unit {0})
unfolding store_progress store_exit rsync_failure
run_rsync w =
    let out = read_rsync_stream true w.stdout in
    let errors = read_rsync_stream false w.stderr in
    do
      lift w.ready
      lift w.spawned
      modify (store_progress out.bytes_transferred)
      status ← lift w.waited
      modify (store_exit out.tail errors.tail status)
      lift (rsync_failure status w.ready_again)

is_hex : ℕ → Bool
is_hex c = is_digit c || (leb b'a' c && leb c b'f') || (leb b'A' c && leb c b'F')

-- `HASH_PATTERN.match(raw)`, and the first group in lower case.
unfoldable pub parse_hash : Text → Option Text
unfolding is_hex
parse_hash raw =
    let digest = take 64 raw in
    if length digest == 64 && all is_hex digest && before_blank (drop 64 raw)
    then some (lower digest)
    else none
  where
    before_blank : Text → Bool
    before_blank [] = false
    before_blank (c ∷ t) = c == 32 || c == 9

-- `_remote_sha256`, from the result of the command.
unfoldable pub remote_sha256 : CommandResult → Result Text
unfolding parse_hash
remote_sha256 result =
    if not (is_status 0 result.exit_code)
    then err (
        remote
          (if is_status 127 result.exit_code then remote_hash_unavailable else remote_hash_failed))
    else elim (parse_hash result.stdout.raw) [
      | none ↦ err (remote remote_protocol_error)
      | some digest ↦ ok digest
    ]

-- `_remote_exists`
unfoldable pub remote_exists : CommandResult → Bool
remote_exists result = is_status 0 result.exit_code

-- `_prepare_remote_partial`, from the result of the script.
unfoldable pub prepare_remote_partial : CommandResult → Result (Unit {0})
prepare_remote_partial result = require (is_status 0 result.exit_code) invalid_transfer_partial
