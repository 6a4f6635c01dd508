-- ===== src/Commands/Runner.antt =====
-- `CommandResult` and `CommandRunner` of remote_ssh_mcp/commands.py. `run_script` is cut at its
-- waits: `open_script` up to the spawned process, `close_script` when the process has ended, and
-- `script_outcome` for what is returned. Other calls may run between the parts.
pub mod Closing
use remote_ssh_mcp_server.Prelude.Int.{ℤ, pos, is_status}
use remote_ssh_mcp_server.Prelude.Lists.{length}
use remote_ssh_mcp_server.Prelude.Text.{Text}
use remote_ssh_mcp_server.Prelude.{
  ℕ, Bool, true, false, not, ◌&&◌, Option, none, some, List, [], ◌∷◌, ◌++◌, leb, ◌==◌,
  if◌then◌else◌,
}
use remote_ssh_mcp_server.Errors.{
  Raised, remote, Result, ok, err, ◌>>=◌, ◌>>◌, require, invalid_command, connection_lost,
}
use remote_ssh_mcp_server.Commands.Capture.{CapturedStream}
use remote_ssh_mcp_server.Commands.Script.{validate_script, wire_payload, cwd_prefix}

pub record CommandResult : Type 0 where
  pub exit_code : ℤ
  pub stdout : CapturedStream
  pub stderr : CapturedStream
  pub timed_out : Bool

-- A process is known by its number.
pub record Runner : Type 0 where
  pub closed : Bool
  pub processes : List ℕ

-- `active_count`
unfoldable pub active_count : Runner → ℕ
active_count r = length r.processes

-- `deadline = self.config.command_timeout if timeout is None else timeout`, in milliseconds.
unfoldable pub deadline : ℕ → Option ℕ → ℕ
deadline command_timeout none = command_timeout
deadline command_timeout (some timeout) = timeout

-- The checks of `run_script` before it spawns: `ready` is what `master.ensure_ready()` gives.
-- The result is what will be written to the process's input.
unfoldable pub check_script : ℕ → Text → Option ℕ → Result (Unit {0}) → Result Text
unfolding deadline
check_script command_timeout script timeout ready = do
  payload ← validate_script script
  let milliseconds = deadline command_timeout timeout
  require (leb 100 milliseconds && leb milliseconds 86_400_000) invalid_command
  ready
  ok (wire_payload payload)

-- `async with self._process_lock: if self._closed: raise …; self._processes.add(process)`
unfoldable pub spawn : ℕ → Runner → Result (Unit {0}) × Runner
spawn pid r =
    if r.closed
    then (err (remote connection_lost), r)
    else (ok tt, record r { processes = pid ∷ r.processes })

spawn_checked : ℕ → Runner → Result Text → Result Text × Runner
unfolding spawn
spawn_checked pid r (err e) = (err e, r)
spawn_checked pid r (ok wire) = let (done, r') = spawn pid r in (done >> ok wire, r')

-- The part of `run_script` up to the spawned process.
unfoldable pub open_script :
    ℕ → Text → Option ℕ → Result (Unit {0}) → ℕ → Runner → Result Text × Runner
unfolding check_script spawn_checked
open_script command_timeout script timeout ready pid r =
    spawn_checked pid r (check_script command_timeout script timeout ready)

-- `self._processes.discard(process)`
unfoldable pub discard : ℕ → List ℕ → List ℕ
discard pid [] = []
discard pid (p ∷ ps) = let rest = discard pid ps in if p == pid then rest else p ∷ rest

unfoldable pub close_script : ℕ → Runner → Runner
unfolding discard
close_script pid r = record r { processes = discard pid r.processes }

-- `process.returncode if process.returncode is not None else 255`
exit_of : Option ℤ → ℤ
exit_of none = pos 255
exit_of (some status) = status

-- `except RemoteMCPError as error: raise RemoteMCPError("connection_lost")`
lost : Result (Unit {0}) → Result (Unit {0})
lost (err (remote c)) = err (remote connection_lost)
lost r = r

-- What `run_script` returns, from the `_closed` flag as it is then and from what a second
-- `master.ensure_ready()` gives.
unfoldable pub script_outcome :
    Bool
    → Option ℤ
    → CapturedStream
    → CapturedStream
    → Bool
    → Result (Unit {0})
    → Result CommandResult
unfolding exit_of lost
script_outcome closed returncode stdout stderr timed_out ready_again =
    let result : CommandResult = record {
      exit_code = exit_of returncode;
      stdout = stdout;
      stderr = stderr;
      timed_out = timed_out;
    } in
    if closed
    then err (remote connection_lost)
    else if timed_out
    then ok result
    else if is_status 255 result.exit_code
    then (do lost ready_again; ok result)
    else ok result

-- `close`: the runner and the processes that are terminated.
unfoldable pub close : Runner → List ℕ × Runner
close r = if r.closed then ([], r) else (r.processes, record r { closed = true })

-- `execute`: the script that it runs.
unfoldable pub execute_script : Text → Option Text → Result Text
execute_script command cwd = do prefix ← cwd_prefix cwd; ok (prefix ++ command)
