-- ===== src/Commands/Supervisor/Ending.antt =====
-- The supervisor comes to an end.
use remote_ssh_mcp_server.Prelude.{ℕ, List, [], ◌∷◌, ◌≤◌}
use remote_ssh_mcp_server.Commands.Supervisor.{
  Position, read_size, check_size, enter_directory, make_directory, adopt_directory,
  leave_directory, check_pending, check_directory, name_pipes, make_pipes, open_pipes, enter_child,
  start_child, adopt_child, leave_child, check_pending_child, read_watcher, check_watcher,
  remove_pid_pipe, send_payload, arm_watcher, wait_child, forget_child, dismiss_watcher,
  leave_program, exited, Supervisor, Answer,
}
use remote_ssh_mcp_server.Commands.Supervisor.World.{Event, goes_on, child_ends}

-- The commands that are left, at most.
abbrev rank : Position → ℕ
rank read_size = 25
rank check_size = 24
rank enter_directory = 23
rank make_directory = 22
rank adopt_directory = 21
rank leave_directory = 20
rank check_pending = 19
rank check_directory = 18
rank name_pipes = 17
rank make_pipes = 16
rank open_pipes = 15
rank enter_child = 14
rank start_child = 13
rank adopt_child = 12
rank leave_child = 11
rank check_pending_child = 10
rank read_watcher = 9
rank check_watcher = 8
rank remove_pid_pipe = 7
rank send_payload = 6
rank arm_watcher = 5
rank wait_child = 4
rank forget_child = 3
rank dismiss_watcher = 2
rank leave_program = 1
rank (exited n) = 0

abbrev Below : ℕ → Position × Supervisor → Type 0
Below n r = rank r.0 ≤ n

-- The child has ended, and the next command is run, again and again.
abbrev pub rounds : List Answer → List Event
rounds [] = []
rounds (a ∷ answers) = child_ends ∷ goes_on a ∷ rounds answers
