-- ===== src/Tests/Supervisor.antt =====
-- The remote supervisor of remote_ssh_mcp/commands.py at concrete inputs.
use remote_ssh_mcp_server.Prelude.{ℕ, zero, suc, ◌≡◌, refl, true, false, List, [], ◌∷◌, ◌++◌}
use remote_ssh_mcp_server.Commands.Supervisor.{read_size, exited, Answer}
use remote_ssh_mcp_server.Commands.Supervisor.World.{
  Event, goes_on, gets_signal, child_ends, watcher_detaches, supervise, start,
}

-- Each command succeeds, and the command of the user has the status.
abbrev success : ℕ → Answer
success status = record {
  result = status;
  payload_made = true;
  gate_made = true;
  pid_pipe_made = true;
  is_number = true;
}

abbrev often : ℕ → Answer → List Answer
often zero a = []
often (suc n) a = a ∷ often n a

abbrev commands : ℕ → List Event
commands zero = []
commands (suc n) = goes_on (success 0) ∷ commands n

-- A signal comes when the child has been started and its number is not stored yet.
abbrev early_signal : List Event
early_signal = commands 13 ++ (gets_signal ∷ [])

-- The run without signals has the status of the child, and the one above that of an interruption.
whole_run :
    (supervise
      (commands 21 ++ (watcher_detaches ∷ child_ends ∷ goes_on (success 3) ∷ commands 3))
      read_size
      (start false)).0
    ≡ exited 3
unfolding supervise
whole_run = refl

interrupted_run : (supervise (early_signal ++ commands 3) read_size (start false)).0 ≡ exited 255
unfolding supervise
interrupted_run = refl
