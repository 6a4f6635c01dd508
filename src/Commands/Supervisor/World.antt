-- ===== src/Commands/Supervisor/World.antt =====
-- What happens to the supervisor: its commands, signals, and what its child, the watcher (the programs
-- `watcher` and `watcher_launcher`) and the channel do.
use remote_ssh_mcp_server.Prelude.{Bool, true, false, not, ◌&&◌, List, [], ◌∷◌, if◌then◌else◌}
use remote_ssh_mcp_server.Commands.Supervisor.{
  Position, exited, absent, foreign, Watcher, stopped, armed, detached, Host, unset, Supervisor,
  Answer, remove_directory, step, interrupted,
}

unfoldable pub is_armed : Watcher → Bool
is_armed armed = true
is_armed _ = false

unfoldable pub is_detached : Watcher → Bool
is_detached detached = true
is_detached _ = false

-- The armed watcher goes on: it removes the gate and leaves the group.
unfoldable pub detach : Host → Host
unfolding is_armed
detach h = record h {
  watcher = if is_armed h.watcher then detached else h.watcher;
  watcher_gate = h.watcher_gate && not (is_armed h.watcher);
}

-- The input of the supervisor ends. A watcher that has left the group kills the group and removes the
-- files and the directory, and ends.
unfoldable pub lose_channel : Host → Host
unfolding is_detached remove_directory
lose_channel h =
    let acts = is_detached h.watcher in
    record {
      directory = remove_directory acts h.directory;
      payload_pipe = h.payload_pipe && not acts;
      watcher_gate = h.watcher_gate && not acts;
      watcher_pid_pipe = h.watcher_pid_pipe && not acts;
      child = h.child && not acts;
      watcher = if acts then stopped else h.watcher;
    }

pub data Event : Type 0 where
  goes_on : Answer → Event
  gets_signal child_ends watcher_detaches channel_ends : Event

unfoldable pub is_exited : Position → Bool
is_exited (exited n) = true
is_exited _ = false

unfoldable pub happen : Event → Position → Supervisor → Position × Supervisor
unfolding step interrupted detach lose_channel is_exited
happen (goes_on a) p s = step p a s
happen gets_signal p s = if is_exited p then (p, s) else interrupted p s
happen child_ends p s = (p, record s { host = record s.host { child = false } })
happen watcher_detaches p s = (p, record s { host = detach s.host })
happen channel_ends p s = (p, record s { host = lose_channel s.host })

unfoldable pub supervise : List Event → Position → Supervisor → Position × Supervisor
unfolding happen
supervise [] p s = (p, s)
supervise (e ∷ events) p s = let (q, after) = happen e p s in supervise events q after

-- The program as it starts; `taken` says that the directory is there already.
abbrev pub start : Bool → Supervisor
start taken = record {
  runtime_dir = false;
  runtime_status = 0;
  payload_named = false;
  gate_named = false;
  pid_pipe_named = false;
  child_pid = false;
  watcher_pid = unset;
  startup_critical = false;
  interruption_pending = false;
  status = 0;
  host = record {
    directory = if taken then foreign else absent;
    payload_pipe = false;
    watcher_gate = false;
    watcher_pid_pipe = false;
    child = false;
    watcher = stopped;
  };
}
