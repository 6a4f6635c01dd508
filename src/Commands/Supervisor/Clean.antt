-- ===== src/Commands/Supervisor/Clean.antt =====
-- What the supervisor leaves behind.
use remote_ssh_mcp_server.Prelude.{
  ◌≡◌, refl, ap, sym, ◌∙◌, Bool, true, false, not, ◌&&◌, ◌||◌, if◌then◌else◌,
}
use remote_ssh_mcp_server.Commands.Supervisor.{
  RuntimeDirectory, absent, foreign, own, Watcher, stopped, in_group, armed, detached, Host,
  WatcherPid, unset, malformed, known, Supervisor, kill_in_group, terminate_child, kill_watcher,
  stop_watcher, remove_directory, remove_files, cleanup, is_known,
}

-- No process of the supervisor runs, its files and its directory are gone, and the directory of another
-- is as it was.
pub record IsClean (taken : Bool) (h : Host) : Type 0 where
  pub ended : h.child ≡ false
  pub dismissed : h.watcher ≡ stopped
  pub payload_removed : h.payload_pipe ≡ false
  pub gate_removed : h.watcher_gate ≡ false
  pub pid_pipe_removed : h.watcher_pid_pipe ≡ false
  pub same_directory : h.directory ≡ (if taken then foreign else absent)

unfoldable pub implies : Bool → Bool → Bool
implies a b = not a || b

unfoldable pub is_own : RuntimeDirectory → Bool
is_own own = true
is_own _ = false

unfoldable pub is_foreign : RuntimeDirectory → Bool
is_foreign foreign = true
is_foreign _ = false

unfoldable pub is_grouped : Watcher → Bool
is_grouped in_group = true
is_grouped armed = true
is_grouped _ = false

unfoldable pub is_released : Watcher → Bool
is_released armed = true
is_released detached = true
is_released _ = false

-- What a variable has to say of the host where the program may exit: `adopting` and `starting` are the
-- commands whose result no variable holds yet.
pub record Covers (taken adopting starting : Bool) (s : Supervisor) : Type 0 where
  pub child : implies s.host.child (s.child_pid || starting) ≡ true
  pub grouped :
      implies (is_grouped s.host.watcher) (s.child_pid || (starting || is_known s.watcher_pid))
      ≡ true
  pub released : implies (is_released s.host.watcher) (is_known s.watcher_pid) ≡ true
  pub payload : implies s.host.payload_pipe s.payload_named ≡ true
  pub gate : implies s.host.watcher_gate s.gate_named ≡ true
  pub pid_pipe : implies s.host.watcher_pid_pipe s.pid_pipe_named ≡ true
  pub foreign_kept : is_foreign s.host.directory ≡ taken
  pub own_named : implies (is_own s.host.directory) (s.runtime_dir || adopting) ≡ true
  pub not_taken : implies s.runtime_dir (not taken) ≡ true

-- The watcher behind `terminate_child` and `stop_watcher`.
watcher_dismissed :
    (child_pid : Bool) (pid : WatcherPid) (w : Watcher)
    → implies (is_grouped w) (child_pid || is_known pid) ≡ true
    → implies (is_released w) (is_known pid) ≡ true
    → kill_watcher pid (if child_pid then kill_in_group w else w) ≡ stopped
unfolding kill_watcher kill_in_group implies is_grouped is_released is_known
watcher_dismissed c known w g r = refl
watcher_dismissed true unset stopped g r = refl
watcher_dismissed true unset in_group g r = refl
watcher_dismissed true unset armed g r = absurd (cc)
watcher_dismissed true unset detached g r = absurd (cc)
watcher_dismissed true malformed stopped g r = refl
watcher_dismissed true malformed in_group g r = refl
watcher_dismissed true malformed armed g r = absurd (cc)
watcher_dismissed true malformed detached g r = absurd (cc)
watcher_dismissed false unset stopped g r = refl
watcher_dismissed false unset in_group g r = absurd (cc)
watcher_dismissed false unset armed g r = absurd (cc)
watcher_dismissed false unset detached g r = absurd (cc)
watcher_dismissed false malformed stopped g r = refl
watcher_dismissed false malformed in_group g r = absurd (cc)
watcher_dismissed false malformed armed g r = absurd (cc)
watcher_dismissed false malformed detached g r = absurd (cc)

directory_removed :
    (taken runtime_dir : Bool) (d : RuntimeDirectory)
    → is_foreign d ≡ taken
    → implies (is_own d) runtime_dir ≡ true
    → implies runtime_dir (not taken) ≡ true
    → remove_directory runtime_dir d ≡ (if taken then foreign else absent)
unfolding remove_directory implies is_own is_foreign
directory_removed taken true d f o n = rw (the_other taken n) refl
  where
    the_other : (b : Bool) → not true || not b ≡ true → b ≡ false
    the_other true e = absurd (cc)
    the_other false e = refl
directory_removed taken false absent f o n = rw (sym f) refl
directory_removed taken false foreign f o n = rw (sym f) refl
directory_removed taken false own f o n = absurd (cc)

pipe_removed : (there named : Bool) → implies there named ≡ true → there && not named ≡ false
unfolding implies
pipe_removed true true h = refl
pipe_removed true false h = absurd (cc)
pipe_removed false named h = refl

pub cleanup-IsClean :
    (taken : Bool) (s : Supervisor) → Covers taken false false s → IsClean taken (cleanup s).host
unfolding cleanup terminate_child stop_watcher remove_files
cleanup-IsClean taken s c =
    let payload = pipe_removed s.host.payload_pipe s.payload_named c.payload in
    let gate = pipe_removed s.host.watcher_gate s.gate_named c.gate in
    let pid_pipe = pipe_removed s.host.watcher_pid_pipe s.pid_pipe_named c.pid_pipe in
    record {
      ended =
          pipe_removed s.host.child s.child_pid
            (ap (implies s.host.child) (or_false s.child_pid) ∙ c.child);
      dismissed = watcher_dismissed s.child_pid s.watcher_pid s.host.watcher c.grouped c.released;
      payload_removed = payload;
      gate_removed = gate;
      pid_pipe_removed = pid_pipe;
      same_directory =
          ap (λ b. remove_directory b s.host.directory)
            (no_files s.runtime_dir payload gate pid_pipe)
          ∙ directory_removed taken s.runtime_dir s.host.directory c.foreign_kept
              (ap (implies (is_own s.host.directory)) (or_false s.runtime_dir) ∙ c.own_named)
              c.not_taken;
    }
  where
    or_false : (b : Bool) → b ≡ b || false
    or_false true = refl
    or_false false = refl

    no_files :
        {x y z : Bool} (r : Bool) → x ≡ false → y ≡ false → z ≡ false → r && not (x || (y || z)) ≡ r
    no_files true hx hy hz = rw (hx, hy, hz) refl
    no_files false hx hy hz = refl
