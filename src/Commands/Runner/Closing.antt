-- ===== src/Commands/Runner/Closing.antt =====
-- A runner that is closed.
use remote_ssh_mcp_server.Prelude.Int.{ℤ, is_status}
use remote_ssh_mcp_server.Prelude.Text.{Text, has_char}
use remote_ssh_mcp_server.Prelude.Lists.{All}
use remote_ssh_mcp_server.Prelude.{
  ℕ, ◌≡◌, ◌≢◌, refl, ◌⊎◌, inl, inr, Bool, true, false, Option, List, [], ◌∷◌, ◌++◌, arith,
  Bool-cases, ◌||◌,
}
use remote_ssh_mcp_server.Errors.{Result, ok, err}
use remote_ssh_mcp_server.Commands.Capture.{CapturedStream}
use remote_ssh_mcp_server.Commands.Runner.{
  Runner, CommandResult, check_script, open_script, close_script, script_outcome, close, discard,
  spawn_checked,
}

-- One call on the runner, with what its environment gives.
pub data Event : Type 0 where
  opens : (command_timeout : ℕ) → Text → Option ℕ → Result (Unit {0}) → (pid : ℕ) → Event
  ends : (pid : ℕ) → Event
  closes : Event

-- The runner after a call, and the processes that the call starts and terminates.
pub record Effect : Type 0 where
  pub runner : Runner
  pub started : List ℕ
  pub terminated : List ℕ

started_by : ℕ → Result Text → List ℕ
started_by pid (ok wire) = pid ∷ []
started_by pid (err e) = []

unfoldable pub step : Event → Runner → Effect
unfolding started_by
step (opens command_timeout script timeout ready pid) r =
    let (result, r') = open_script command_timeout script timeout ready pid r in
    record { runner = r'; started = started_by pid result; terminated = [] }
step (ends pid) r = record { runner = close_script pid r; started = []; terminated = [] }
step closes r =
    let (terminated, r') = close r in record { runner = r'; started = []; terminated = terminated }

unfoldable pub run : List Event → Runner → Effect
run [] r = record { runner = r; started = []; terminated = [] }
run (e ∷ es) r =
    let first = step e r in
    let later = run es first.runner in
    record {
      runner = later.runner;
      started = first.started ++ later.started;
      terminated = first.terminated ++ later.terminated;
    }

abbrev IsIdle : Effect → Type 0
IsIdle e = (e.runner.closed ≡ true) × (e.started ≡ []) × (e.terminated ≡ [])

spawn_checked-closed :
    (pid : ℕ) (r : Runner) (result : Result Text)
    → r.closed ≡ true
    → ((spawn_checked pid r result).1.closed ≡ true)
      × (started_by pid (spawn_checked pid r result).0 ≡ [])
unfolding spawn_checked started_by
spawn_checked-closed pid r (ok wire) h = ground arith
spawn_checked-closed pid r (err e) h = ground arith

step-closed : (e : Event) (r : Runner) → r.closed ≡ true → IsIdle (step e r)
unfolding step open_script close_script close
step-closed (opens command_timeout script timeout ready pid) r h =
    let (closed, none_started) =
      spawn_checked-closed pid r (check_script command_timeout script timeout ready) h in
    (closed, none_started, refl)
step-closed (ends pid) r h = (h, refl, refl)
step-closed closes r h = ground arith

run-closed : (es : List Event) (r : Runner) → r.closed ≡ true → IsIdle (run es r)
unfolding run
run-closed [] r h = (h, refl, refl)
run-closed (e ∷ es) r h =
    let (closed, none_started, none_terminated) = step-closed e r h in
    let (closed', none_started', none_terminated') = run-closed es (step e r).runner closed in
    (closed', rw (none_started, none_started'), rw (none_terminated, none_terminated'))

-- The process `pid` is not reported as ended.
abbrev Runs : ℕ → Event → Type 0
Runs pid (opens command_timeout script timeout ready other) = Unit
Runs pid (ends other) = other ≢ pid
Runs pid closes = Unit

discard-keeps :
    (pid other : ℕ) (ps : List ℕ)
    → other ≢ pid
    → has_char pid ps ≡ true
    → has_char pid (discard other ps) ≡ true
unfolding discard has_char
discard-keeps pid other [] ne h = h
discard-keeps pid other (p ∷ ps) ne h = ground (arith, discard-keeps pid other ps)

spawn_checked-keeps :
    (pid other : ℕ) (r : Runner) (result : Result Text)
    → has_char pid r.processes ≡ true
    → has_char pid (spawn_checked other r result).1.processes ≡ true
unfolding spawn_checked has_char
spawn_checked-keeps pid other r (ok wire) h = ground arith
spawn_checked-keeps pid other r (err e) h = h

step-keeps :
    (pid : ℕ) (e : Event) (r : Runner)
    → Runs pid e
    → has_char pid r.processes ≡ true
    → has_char pid (step e r).runner.processes ≡ true
unfolding step open_script close_script close
step-keeps pid (opens command_timeout script timeout ready other) r runs h =
    spawn_checked-keeps pid other r (check_script command_timeout script timeout ready) h
step-keeps pid (ends other) r runs h = discard-keeps pid other r.processes runs h
step-keeps pid closes r runs h = ground arith

spawn_checked-started :
    (pid other : ℕ) (r : Runner) (result : Result Text)
    → has_char pid (started_by other (spawn_checked other r result).0) ≡ true
    → has_char pid (spawn_checked other r result).1.processes ≡ true
unfolding spawn_checked started_by has_char
spawn_checked-started pid other r (ok wire) h = ground arith
spawn_checked-started pid other r (err e) h = absurd (cc)

step-started :
    (pid : ℕ) (e : Event) (r : Runner)
    → has_char pid (step e r).started ≡ true
    → has_char pid (step e r).runner.processes ≡ true
unfolding step open_script close_script close has_char
step-started pid (opens command_timeout script timeout ready other) r h =
    spawn_checked-started pid other r (check_script command_timeout script timeout ready) h
step-started pid (ends other) r h = absurd (cc)
step-started pid closes r h = absurd (cc)

run-keeps :
    (pid : ℕ) (es : List Event) (r : Runner)
    → All (Runs pid) es
    → has_char pid r.processes ≡ true
    → has_char pid (run es r).runner.processes ≡ true
unfolding run
run-keeps pid [] r runs h = h
run-keeps pid (e ∷ es) r runs h =
    run-keeps pid es (step e r).runner runs.1 (step-keeps pid e r runs.0 h)

has_char-append : (c : ℕ) (s t : List ℕ) → has_char c (s ++ t) ≡ (has_char c s || has_char c t)
unfolding has_char
has_char-append c [] t = refl
has_char-append c (x ∷ s) t = ground (arith, has_char-append c s t)

run-started :
    (pid : ℕ) (es : List Event) (r : Runner)
    → All (Runs pid) es
    → has_char pid (run es r).started ≡ true
    → has_char pid (run es r).runner.processes ≡ true
unfolding run
run-started pid [] r runs h = absurd (unfold has_char in cc)
run-started pid (e ∷ es) r runs h = elim (Bool-cases (has_char pid (step e r).started)) [
  | inl now ↦ run-keeps pid es (step e r).runner runs.1 (step-started pid e r now)
  | inr later ↦
      run-started pid es (step e r).runner runs.1
        (ground (arith, has_char-append pid (step e r).started (run es (step e r).runner).started))
]

-- Closing an open runner, whatever ran before: each process that was started and has not ended is
-- terminated, and whatever is called later, no process is started and the runner stays closed.
pub run-closes :
    (pid : ℕ) (es later : List Event) (r : Runner)
    → (run es r).runner.closed ≡ false
    → All (Runs pid) es
    → has_char pid (run es r).started ≡ true
    → let e = run (closes ∷ later) (run es r).runner in
      (has_char pid e.terminated ≡ true) × (e.started ≡ []) × (e.runner.closed ≡ true)
unfolding run step close
run-closes pid es later r opened runs started =
    let before = (run es r).runner in
    let e : IsIdle (run later (close before).1) =
      run-closed later (close before).1 (ground arith) in
    (
      ground (
        arith,
        run-started pid es r runs started,
        has_char-append pid (close before).0 (run later (close before).1).terminated,
      ),
      e.1,
      e.0,
    )

-- `run_script` returns a result only while the runner is open. A result that did not time out and
-- has the status 255 comes with a master that is still ready; on a lost master the status 255 of
-- `ssh` becomes `connection_lost`.
pub script_outcome_lem :
    (closed : Bool) (returncode : Option ℤ) (stdout stderr : CapturedStream) (timed_out : Bool)
    (ready_again : Result (Unit {0})) (result : CommandResult)
    → script_outcome closed returncode stdout stderr timed_out ready_again ≡ ok result
    → (closed ≡ false)
      × (result.timed_out ≡ timed_out)
      × ((timed_out ≡ true) ⊎ (is_status 255 result.exit_code ≡ false) ⊎ (ready_again ≡ ok tt))
unfolding script_outcome
script_outcome_lem closed returncode stdout stderr timed_out ready_again result h = ground arith
