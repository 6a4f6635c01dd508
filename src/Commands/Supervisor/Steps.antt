-- ===== src/Commands/Supervisor/Steps.antt =====
-- Each command keeps the invariant, or the program ends and leaves nothing behind.
use remote_ssh_mcp_server.Prelude.{
  ℕ, zero, suc, ◌≡◌, refl, Bool, true, false, ◌==◌, arith, if-cases,
}
use remote_ssh_mcp_server.Commands.Supervisor.{
  Position, read_size, check_size, enter_directory, make_directory, adopt_directory,
  leave_directory, check_pending, check_directory, name_pipes, make_pipes, open_pipes, enter_child,
  start_child, adopt_child, leave_child, check_pending_child, read_watcher, check_watcher,
  remove_pid_pipe, send_payload, arm_watcher, wait_child, forget_child, dismiss_watcher,
  leave_program, exited, RuntimeDirectory, absent, foreign, own, Watcher, stopped, WatcherPid,
  unset, malformed, known, Supervisor, Answer, kill_watcher, stop_watcher, exit, or_exit,
  mkdir_status, mkdir, mkfifo, read_pid, step, is_known,
}
use remote_ssh_mcp_server.Commands.Supervisor.Clean.{
  implies, is_own, is_foreign, is_grouped, is_released, Covers, cleanup-IsClean,
}
use remote_ssh_mcp_server.Commands.Supervisor.Invariant.{Outcome, Results}

pub exit-Outcome :
    (taken : Bool) (n : ℕ) (s : Supervisor)
    → Covers taken false false s
    → Outcome taken (exit n s).0 (exit n s).1
unfolding exit
exit-Outcome taken n s c = cleanup-IsClean taken s c

or_exit-Outcome :
    (taken : Bool) (r n : ℕ) (p : Position) (s : Supervisor)
    → Covers taken false false s
    → (r ≡ 0 → Outcome taken p s)
    → Outcome taken (or_exit r n p s).0 (or_exit r n p s).1
unfolding or_exit
or_exit-Outcome taken zero n p s c h = h refl
or_exit-Outcome taken (suc r) n p s c h = exit-Outcome taken n s c

mkdir_status-absent :
    (r : ℕ) (d : RuntimeDirectory) → (mkdir_status r d == 0) ≡ true → is_foreign d ≡ false
unfolding mkdir_status is_foreign
mkdir_status-absent zero absent h = refl
mkdir_status-absent zero foreign h = absurd (cc)
mkdir_status-absent zero own h = refl
mkdir_status-absent (suc r) d h = absurd (ground (arith, h))

kill_watcher-known :
    (pid : WatcherPid) (w : Watcher) → is_known pid ≡ true → kill_watcher pid w ≡ stopped
unfolding kill_watcher is_known
kill_watcher-known known w h = refl
kill_watcher-known unset w h = absurd (cc)
kill_watcher-known malformed w h = absurd (cc)

pub step-Outcome :
    (taken : Bool) (p : Position) (a : Answer) (s : Supervisor)
    → Outcome taken p s
    → Outcome taken (step p a s).0 (step p a s).1
unfolding step implies
step-Outcome taken read_size a s h =
    or_exit-Outcome taken a.result 70 check_size s h.covers (λ e. ground (arith, h))
step-Outcome taken check_size a s h =
    or_exit-Outcome taken a.result 71 enter_directory s h.covers (λ e. ground (arith, h))
step-Outcome taken enter_directory a s h = ground (arith, h)
step-Outcome taken make_directory a s h =
    unfold mkdir in
    if-cases (Results taken) (mkdir_status a.result s.host.directory == 0)
      (λ made.
        unfold is_foreign is_own in
        ground (arith, h, mkdir_status-absent a.result s.host.directory made))
      (λ failed. ground (arith, h, failed))
step-Outcome taken adopt_directory a s h = ground (arith, h)
step-Outcome taken leave_directory a s h = ground (arith, h)
step-Outcome taken check_pending a s h =
    if-cases (Results taken) s.interruption_pending (λ _. exit-Outcome taken 255 s h.covers)
      (λ _. ground (arith, h))
step-Outcome taken check_directory a s h =
    or_exit-Outcome taken s.runtime_status 72 name_pipes s h.covers (λ e. ground (arith, h, e))
step-Outcome taken name_pipes a s h = ground (arith, h)
step-Outcome taken make_pipes a s h =
    unfold mkfifo in
    or_exit-Outcome taken a.result 73 open_pipes _ (ground (arith, h)) (λ e. ground (arith, h))
step-Outcome taken open_pipes a s h =
    or_exit-Outcome taken a.result 73 enter_child s h.covers (λ e. ground (arith, h))
step-Outcome taken enter_child a s h = ground (arith, h)
step-Outcome taken start_child a s h = unfold is_grouped is_released in ground (arith, h)
step-Outcome taken adopt_child a s h = ground (arith, h)
step-Outcome taken leave_child a s h = ground (arith, h)
step-Outcome taken check_pending_child a s h =
    if-cases (Results taken) s.interruption_pending (λ _. exit-Outcome taken 255 s h.covers)
      (λ _. ground (arith, h))
step-Outcome taken read_watcher a s h =
    unfold read_pid in
    or_exit-Outcome taken a.result 76 check_watcher _ (ground (arith, h)) (λ e. ground (arith, h))
step-Outcome taken check_watcher a s h =
    if-cases (Results taken) (is_known s.watcher_pid) (λ number. ground (arith, h, number))
      (λ _. exit-Outcome taken 76 s h.covers)
step-Outcome taken remove_pid_pipe a s h = ground (arith, h)
step-Outcome taken send_payload a s h =
    or_exit-Outcome taken a.result 74 arm_watcher s h.covers (λ e. ground (arith, h))
step-Outcome taken arm_watcher a s h =
    or_exit-Outcome taken a.result 75 wait_child _ (ground (arith, h)) (λ e. ground (arith, h))
step-Outcome taken wait_child a s h =
    if-cases (Results taken) s.host.child (λ _. h) (λ ended. ground (arith, h, ended))
step-Outcome taken forget_child a s h = ground (arith, h)
step-Outcome taken dismiss_watcher a s h =
    unfold stop_watcher is_grouped is_released in
    ground (arith, h, kill_watcher-known s.watcher_pid s.host.watcher)
step-Outcome taken leave_program a s h = exit-Outcome taken s.status s h.covers
step-Outcome taken (exited n) a s h = h
