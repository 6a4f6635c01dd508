-- ===== src/Commands/Supervisor/Invariant.antt =====
-- What the variables of the supervisor and the host have to do with each other at each command.
use remote_ssh_mcp_server.Prelude.{◌≡◌, Bool, true, false, not, ◌||◌, ◌==◌}
use remote_ssh_mcp_server.Commands.Supervisor.{
  Position, make_directory, adopt_directory, leave_directory, check_pending, check_directory,
  name_pipes, make_pipes, open_pipes, enter_child, start_child, adopt_child, leave_child,
  check_pending_child, read_watcher, check_watcher, remove_pid_pipe, send_payload, arm_watcher,
  wait_child, forget_child, dismiss_watcher, exited, Supervisor, is_known,
}
use remote_ssh_mcp_server.Commands.Supervisor.Clean.{IsClean, implies, is_released, Covers}

abbrev pub adopting : Position → Bool
adopting adopt_directory = true
adopting _ = false

abbrev pub starting : Position → Bool
starting adopt_child = true
starting _ = false

abbrev pub is_critical : Position → Bool
is_critical make_directory = true
is_critical adopt_directory = true
is_critical leave_directory = true
is_critical start_child = true
is_critical adopt_child = true
is_critical leave_child = true
is_critical _ = false

-- Whether `runtime_status` says if the directory has been made.
abbrev pub has_status : Position → Bool
has_status leave_directory = true
has_status check_pending = true
has_status check_directory = true
has_status _ = false

-- From the first command behind the wait for the child back to `name_pipes`.
abbrev pub after_wait : Position → Bool
after_wait forget_child = true
after_wait dismiss_watcher = true
after_wait _ = false

abbrev pub after_arming : Position → Bool
after_arming wait_child = true
after_arming p = after_wait p

abbrev pub needs_watcher : Position → Bool
needs_watcher remove_pid_pipe = true
needs_watcher send_payload = true
needs_watcher arm_watcher = true
needs_watcher p = after_arming p

abbrev pub has_child : Position → Bool
has_child leave_child = true
has_child check_pending_child = true
has_child read_watcher = true
has_child check_watcher = true
has_child remove_pid_pipe = true
has_child send_payload = true
has_child arm_watcher = true
has_child wait_child = true
has_child _ = false

abbrev pub in_directory : Position → Bool
in_directory name_pipes = true
in_directory make_pipes = true
in_directory open_pipes = true
in_directory enter_child = true
in_directory start_child = true
in_directory adopt_child = true
in_directory p = has_child p || after_wait p

abbrev pub is_making : Position → Bool
is_making make_pipes = true
is_making _ = false

-- The invariant at a command of the program.
pub record Holds (taken : Bool) (p : Position) (s : Supervisor) : Type 0 where
  pub covers : Covers taken (adopting p) (starting p) s
  pub critical : implies (is_critical p) s.startup_critical ≡ true
  pub made : implies (in_directory p) s.runtime_dir ≡ true
  pub fresh : implies (adopting p) (not taken) ≡ true
  pub result : implies (has_status p) (s.runtime_dir || not (s.runtime_status == 0)) ≡ true
  pub owns_child : implies (has_child p) s.child_pid ≡ true
  pub unreleased : implies (is_released s.host.watcher) (after_arming p) ≡ true
  pub knows_watcher : implies (needs_watcher p) (is_known s.watcher_pid) ≡ true
  pub payload_named : implies (is_making p) s.payload_named ≡ true
  pub gate_named : implies (is_making p) s.gate_named ≡ true
  pub pid_pipe_named : implies (is_making p) s.pid_pipe_named ≡ true
  pub childless : implies (after_wait p) (not s.host.child) ≡ true

abbrev pub Outcome : Bool → Position → Supervisor → Type 0
Outcome taken (exited n) s = IsClean taken s.host
Outcome taken p s = Holds taken p s

abbrev pub Results : Bool → Position × Supervisor → Type 0
Results taken r = Outcome taken r.0 r.1
