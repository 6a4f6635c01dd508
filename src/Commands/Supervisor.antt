-- ===== src/Commands/Supervisor.antt =====
-- The remote supervisor, the shell program of `_supervised_remote_program` in
-- remote_ssh_mcp/commands.py, and its watcher. A position is the next command of the program; a signal
-- comes between two commands. What it reads of its input is in Commands/Script. A signal that comes
-- while `cleanup` runs is left out.
pub mod World
pub mod Clean
pub mod Invariant
pub mod Steps
pub mod Events
pub mod Ending
use remote_ssh_mcp_server.Prelude.{
  ℕ, zero, suc, Bool, true, false, not, ◌&&◌, ◌||◌, List, [], ◌∷◌, ◌==◌, if◌then◌else◌,
}

pub data Position : Type 0 where
  read_size check_size : Position
  enter_directory make_directory adopt_directory leave_directory : Position
  check_pending check_directory name_pipes make_pipes open_pipes : Position
  enter_child start_child adopt_child leave_child check_pending_child : Position
  read_watcher check_watcher remove_pid_pipe send_payload arm_watcher : Position
  wait_child forget_child dismiss_watcher leave_program : Position
  exited : ℕ → Position

-- The directory at `runtime_candidate`: that of another, or the one that `mkdir` has made.
pub data RuntimeDirectory : Type 0 where
  absent foreign own : RuntimeDirectory

-- The watcher: not running, in the group of the command, armed there, or in a session of its own.
pub data Watcher : Type 0 where
  stopped in_group armed detached : Watcher

-- What is on the remote host: which files are there and which processes run. `child` is the process
-- that the supervisor waits for.
pub record Host : Type 0 where
  pub directory : RuntimeDirectory
  pub payload_pipe : Bool
  pub watcher_gate : Bool
  pub watcher_pid_pipe : Bool
  pub child : Bool
  pub watcher : Watcher

-- What the variable holds: nothing, no number, or the watcher's number.
pub data WatcherPid : Type 0 where
  unset malformed known : WatcherPid

-- The variables of the program; `child_pid`, `runtime_dir` and the names of the pipes are set or empty.
pub record Supervisor : Type 0 where
  pub runtime_dir : Bool
  pub runtime_status : ℕ
  pub payload_named : Bool
  pub gate_named : Bool
  pub pid_pipe_named : Bool
  pub child_pid : Bool
  pub watcher_pid : WatcherPid
  pub startup_critical : Bool
  pub interruption_pending : Bool
  pub status : ℕ
  pub host : Host

-- The status of a command; which pipes `mkfifo` makes if it fails, and whether the line that is read for
-- `watcher_pid` is a number.
pub record Answer : Type 0 where
  pub result : ℕ
  pub payload_made : Bool
  pub gate_made : Bool
  pub pid_pipe_made : Bool
  pub is_number : Bool

unfoldable pub kill_in_group : Watcher → Watcher
kill_in_group detached = detached
kill_in_group _ = stopped

-- `terminate_child`: if there is a child, its group gets TERM and then KILL, and it is waited for.
unfoldable pub terminate_child : Supervisor → Supervisor
unfolding kill_in_group
terminate_child s =
    let watcher = s.host.watcher in
    record s {
      child_pid = false;
      host = record s.host {
        child = s.host.child && not s.child_pid;
        watcher = if s.child_pid then kill_in_group watcher else watcher;
      };
    }

-- `kill -TERM "$watcher_pid" || true`
unfoldable pub kill_watcher : WatcherPid → Watcher → Watcher
kill_watcher known w = stopped
kill_watcher _ w = w

-- `stop_watcher`
unfoldable pub stop_watcher : Supervisor → Supervisor
unfolding kill_watcher
stop_watcher s = record s {
  watcher_pid = unset;
  host = record s.host { watcher = kill_watcher s.watcher_pid s.host.watcher };
}

-- `rmdir`, which removes an empty directory only
unfoldable pub remove_directory : Bool → RuntimeDirectory → RuntimeDirectory
remove_directory true d = absent
remove_directory false d = d

unfoldable pub remove_files : Supervisor → Supervisor
unfolding remove_directory
remove_files s =
    let payload_pipe = s.host.payload_pipe && not s.payload_named in
    let watcher_gate = s.host.watcher_gate && not s.gate_named in
    let watcher_pid_pipe = s.host.watcher_pid_pipe && not s.pid_pipe_named in
    record s {
      host = record s.host {
        payload_pipe = payload_pipe;
        watcher_gate = watcher_gate;
        watcher_pid_pipe = watcher_pid_pipe;
        directory =
            remove_directory
              (s.runtime_dir && not (payload_pipe || (watcher_gate || watcher_pid_pipe)))
              s.host.directory;
      };
    }

-- `cleanup`
unfoldable pub cleanup : Supervisor → Supervisor
unfolding terminate_child stop_watcher remove_files
cleanup s = remove_files (stop_watcher (terminate_child s))

-- `exit n`, with the trap on EXIT
unfoldable pub exit : ℕ → Supervisor → Position × Supervisor
unfolding cleanup
exit n s = (exited n, cleanup s)

-- A command that is followed by `|| exit n`
unfoldable pub or_exit : ℕ → ℕ → Position → Supervisor → Position × Supervisor
unfolding exit
or_exit zero n p s = (p, s)
or_exit (suc failed) n p s = exit n s

-- `mkdir` fails where there is something already.
unfoldable pub mkdir_status : ℕ → RuntimeDirectory → ℕ
mkdir_status zero absent = 0
mkdir_status zero d = 1
mkdir_status (suc n) d = suc n

-- `setsid mkdir -m 700 -- "$runtime_candidate"`
unfoldable pub mkdir : ℕ → Supervisor → Position × Supervisor
unfolding mkdir_status
mkdir result s =
    let status = mkdir_status result s.host.directory in
    if status == 0
    then (adopt_directory, record s { host = record s.host { directory = own } })
    else (leave_directory, record s { runtime_status = status })

-- `mkfifo … || exit 73`
unfoldable pub mkfifo : Answer → Supervisor → Position × Supervisor
unfolding or_exit
mkfifo a s =
    let all_made = a.result == 0 in
    or_exit a.result 73 open_pipes (record s {
      host = record s.host {
        payload_pipe = all_made || a.payload_made;
        watcher_gate = all_made || a.gate_made;
        watcher_pid_pipe = all_made || a.pid_pipe_made;
      };
    })

-- `IFS= read -r watcher_pid <&7 || exit 76`
unfoldable pub read_pid : Answer → Supervisor → Position × Supervisor
unfolding or_exit
read_pid a s =
    or_exit a.result 76 check_watcher
      (record s { watcher_pid = if a.result == 0 && a.is_number then known else malformed })

unfoldable pub arm : Watcher → Watcher
arm in_group = armed
arm w = w

-- `case "$watcher_pid" in ''|*[!0-9]*) … esac`
unfoldable pub is_known : WatcherPid → Bool
is_known known = true
is_known _ = false

-- The next command of the program.
unfoldable pub step : Position → Answer → Supervisor → Position × Supervisor
unfolding exit or_exit mkdir mkfifo read_pid stop_watcher arm is_known
step read_size a s = or_exit a.result 70 check_size s
step check_size a s = or_exit a.result 71 enter_directory s
step enter_directory a s = (make_directory, record s { startup_critical = true })
step make_directory a s = mkdir a.result s
step adopt_directory a s = (leave_directory, record s { runtime_dir = true; runtime_status = 0 })
step leave_directory a s = (check_pending, record s { startup_critical = false })
step check_pending a s = if s.interruption_pending then exit 255 s else (check_directory, s)
step check_directory a s = or_exit s.runtime_status 72 name_pipes s
step name_pipes a s =
    (make_pipes, record s { payload_named = true; gate_named = true; pid_pipe_named = true })
step make_pipes a s = mkfifo a s
step open_pipes a s = or_exit a.result 73 enter_child s
step enter_child a s = (start_child, record s { startup_critical = true })
step start_child a s =
    (adopt_child, record s { host = record s.host { child = true; watcher = in_group } })
step adopt_child a s = (leave_child, record s { child_pid = true })
step leave_child a s = (check_pending_child, record s { startup_critical = false })
step check_pending_child a s = if s.interruption_pending then exit 255 s else (read_watcher, s)
step read_watcher a s = read_pid a s
step check_watcher a s = if is_known s.watcher_pid then (remove_pid_pipe, s) else exit 76 s
step remove_pid_pipe a s =
    (send_payload, record s { host = record s.host { watcher_pid_pipe = false } })
step send_payload a s = or_exit a.result 74 arm_watcher s
step arm_watcher a s = or_exit a.result 75 wait_child (record s {
  host = record s.host { watcher = if a.result == 0 then arm s.host.watcher else s.host.watcher };
})
step wait_child a s =
    if s.host.child then (wait_child, s) else (forget_child, record s { status = a.result })
step forget_child a s = (dismiss_watcher, record s { child_pid = false })
step dismiss_watcher a s = (leave_program, stop_watcher s)
step leave_program a s = exit s.status s
step (exited n) a s = (exited n, s)

-- `interrupted`, the trap on HUP, INT and TERM
unfoldable pub interrupted : Position → Supervisor → Position × Supervisor
unfolding terminate_child exit
interrupted p s =
    if s.startup_critical
    then (p, record s { interruption_pending = true })
    else exit 255 (terminate_child s)
