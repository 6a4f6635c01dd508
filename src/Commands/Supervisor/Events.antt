-- ===== src/Commands/Supervisor/Events.antt =====
-- Whatever happens to the supervisor, it leaves nothing behind.
use remote_ssh_mcp_server.Prelude.{
  ◌≡◌, refl, subst, Bool, true, false, ◌||◌, List, [], ◌∷◌, if◌then◌else◌, arith, inl, inr,
  Bool-cases, if-cases,
}
use remote_ssh_mcp_server.Commands.Supervisor.{
  Position, read_size, adopt_directory, adopt_child, wait_child, forget_child, dismiss_watcher,
  exited, Watcher, stopped, in_group, armed, detached, Host, Supervisor, kill_in_group,
  terminate_child, remove_directory, interrupted, is_known,
}
use remote_ssh_mcp_server.Commands.Supervisor.World.{
  detach, lose_channel, Event, goes_on, gets_signal, child_ends, watcher_detaches, channel_ends,
  is_exited, is_armed, is_detached, happen, supervise, start,
}
use remote_ssh_mcp_server.Commands.Supervisor.Clean.{
  IsClean, implies, is_own, is_foreign, is_grouped, is_released, Covers,
}
use remote_ssh_mcp_server.Commands.Supervisor.Invariant.{
  adopting, starting, is_critical, after_arming, in_directory, Holds, Outcome, Results,
}
use remote_ssh_mcp_server.Commands.Supervisor.Steps.{exit-Outcome, step-Outcome}

to-Holds :
    (taken : Bool) (p : Position) (s : Supervisor)
    → is_exited p ≡ false
    → Outcome taken p s
    → Holds taken p s
unfolding is_exited
to-Holds taken (exited n) s e h = absurd (cc)
to-Holds taken p s e h = h

of-Holds :
    (taken : Bool) (p : Position) (s : Supervisor)
    → is_exited p ≡ false
    → Holds taken p s
    → Outcome taken p s
unfolding is_exited
of-Holds taken (exited n) s e h = absurd (cc)
of-Holds taken p s e h = h

is_grouped-kill :
    (c : Bool) (k : Bool) (w : Watcher)
    → implies (is_grouped w) (c || k) ≡ true
    → implies (is_grouped (if c then kill_in_group w else w)) k ≡ true
unfolding is_grouped kill_in_group implies
is_grouped-kill true k stopped h = refl
is_grouped-kill true k in_group h = refl
is_grouped-kill true k armed h = refl
is_grouped-kill true k detached h = refl
is_grouped-kill false k w h = h

is_released-kill :
    (c : Bool) (k : Bool) (w : Watcher)
    → implies (is_released w) k ≡ true
    → implies (is_released (if c then kill_in_group w else w)) k ≡ true
unfolding is_released kill_in_group implies
is_released-kill true k stopped h = refl
is_released-kill true k in_group h = refl
is_released-kill true k armed h = refl
is_released-kill true k detached h = h
is_released-kill false k w h = h

terminate_child-Covers :
    (taken : Bool) (s : Supervisor)
    → Covers taken false false s
    → Covers taken false false (terminate_child s)
unfolding terminate_child implies
terminate_child-Covers taken s c = ground (
  arith,
  c,
  is_grouped-kill s.child_pid (is_known s.watcher_pid) s.host.watcher c.grouped,
  is_released-kill s.child_pid (is_known s.watcher_pid) s.host.watcher c.released,
)

-- No command between the start of a critical section and its end lets a signal through.
not_critical : (p : Position) → is_critical p ≡ false → (adopting p ≡ false) × (starting p ≡ false)
not_critical adopt_directory h = absurd (cc)
not_critical adopt_child h = absurd (cc)
not_critical p h = (refl, refl)

interrupted-Outcome :
    (taken : Bool) (p : Position) (s : Supervisor)
    → is_exited p ≡ false
    → Holds taken p s
    → Results taken (interrupted p s)
unfolding interrupted
interrupted-Outcome taken p s e h =
    if-cases (Results taken) s.startup_critical (λ _. of-Holds taken p _ e (ground (arith, h)))
      (λ free.
        let (no_directory, no_child) = not_critical p (unfold implies in ground (arith, h, free)) in
        exit-Outcome taken 255 (terminate_child s) (
          terminate_child-Covers taken s (
            subst (λ b. Covers taken b false s) no_directory
              (subst (λ b. Covers taken (adopting p) b s) no_child h.covers))))

is_armed-released : (w : Watcher) → is_armed w ≡ true → is_released w ≡ true
unfolding is_armed is_released
is_armed-released armed h = refl
is_armed-released stopped h = absurd (cc)
is_armed-released in_group h = absurd (cc)
is_armed-released detached h = absurd (cc)

is_detached-released : (w : Watcher) → is_detached w ≡ true → is_released w ≡ true
unfolding is_detached is_released
is_detached-released detached h = refl
is_detached-released stopped h = absurd (cc)
is_detached-released in_group h = absurd (cc)
is_detached-released armed h = absurd (cc)

-- A watcher that acts has its directory.
released-in_directory : (p : Position) → after_arming p ≡ true → in_directory p ≡ true
released-in_directory wait_child h = refl
released-in_directory forget_child h = refl
released-in_directory dismiss_watcher h = refl
released-in_directory p h = absurd (cc)

detach-Holds :
    (taken : Bool) (p : Position) (s : Supervisor)
    → Holds taken p s
    → Holds taken p (record s { host = detach s.host })
unfolding detach implies is_grouped is_released
detach-Holds taken p s h = ground (arith, h, is_armed-released s.host.watcher)

lose_channel-Holds :
    (taken : Bool) (p : Position) (s : Supervisor)
    → Holds taken p s
    → Holds taken p (record s { host = lose_channel s.host })
unfolding lose_channel implies remove_directory is_foreign is_own is_grouped is_released
lose_channel-Holds taken p s h =
    ground (arith, h, is_detached-released s.host.watcher, released-in_directory p)

to-IsClean :
    (taken : Bool) (p : Position) (s : Supervisor)
    → is_exited p ≡ true
    → Outcome taken p s
    → IsClean taken s.host
unfolding is_exited
to-IsClean taken (exited n) s e h = h
to-IsClean taken p s e h = absurd (cc)

of-IsClean :
    (taken : Bool) (p : Position) (s : Supervisor)
    → is_exited p ≡ true
    → IsClean taken s.host
    → Outcome taken p s
unfolding is_exited
of-IsClean taken (exited n) s e h = h
of-IsClean taken p s e h = absurd (cc)

-- What happens on the host, if it keeps the invariant and what has been left.
host-Outcome :
    (taken : Bool) (p : Position) (s : Supervisor) (change : Host → Host)
    → (Holds taken p s → Holds taken p (record s { host = change s.host }))
    → (IsClean taken s.host → IsClean taken (change s.host))
    → Outcome taken p s
    → Outcome taken p (record s { host = change s.host })
host-Outcome taken p s change running left h = elim (Bool-cases (is_exited p)) [
  | inl e ↦ of-IsClean taken p _ e (left (to-IsClean taken p s e h))
  | inr e ↦ of-Holds taken p _ e (running (to-Holds taken p s e h))
]

abbrev end_child : Host → Host
end_child h = record h { child = false }

child_ends-Holds :
    (taken : Bool) (p : Position) (s : Supervisor)
    → Holds taken p s
    → Holds taken p (record s { host = end_child s.host })
unfolding implies
child_ends-Holds taken p s h = ground (arith, h)

detach-IsClean : (taken : Bool) (h : Host) → IsClean taken h → IsClean taken (detach h)
unfolding detach is_armed
detach-IsClean taken h c = ground (arith, c)

lose_channel-IsClean : (taken : Bool) (h : Host) → IsClean taken h → IsClean taken (lose_channel h)
unfolding lose_channel is_detached remove_directory
lose_channel-IsClean taken h c = ground (arith, c)

happen-Outcome :
    (taken : Bool) (e : Event) (p : Position) (s : Supervisor)
    → Outcome taken p s
    → Results taken (happen e p s)
unfolding happen
happen-Outcome taken (goes_on a) p s h = step-Outcome taken p a s h
happen-Outcome taken gets_signal p s h =
    if-cases (Results taken) (is_exited p) (λ _. h)
      (λ e. interrupted-Outcome taken p s e (to-Holds taken p s e h))
happen-Outcome taken child_ends p s h =
    host-Outcome taken p s end_child (child_ends-Holds taken p s) (λ c. ground (arith, c)) h
happen-Outcome taken watcher_detaches p s h =
    host-Outcome taken p s detach (detach-Holds taken p s) (detach-IsClean taken s.host) h
happen-Outcome taken channel_ends p s h =
    host-Outcome taken p s lose_channel (lose_channel-Holds taken p s)
      (lose_channel-IsClean taken s.host) h

supervise-Outcome :
    (taken : Bool) (events : List Event) (p : Position) (s : Supervisor)
    → Outcome taken p s
    → Results taken (supervise events p s)
unfolding supervise
supervise-Outcome taken [] p s h = h
supervise-Outcome taken (e ∷ events) p s h =
    supervise-Outcome taken events (happen e p s).0 (happen e p s).1 (happen-Outcome taken e p s h)

start-Holds : (taken : Bool) → Holds taken read_size (start taken)
unfolding implies is_foreign is_own is_grouped is_released
start-Holds true = ground arith
start-Holds false = ground arith

-- Where the supervisor has ended, nothing is left.
pub exited-IsClean :
    (taken : Bool) (events : List Event)
    → is_exited (supervise events read_size (start taken)).0 ≡ true
    → IsClean taken (supervise events read_size (start taken)).1.host
exited-IsClean taken events e =
    let (p, s) = supervise events read_size (start taken) in
    to-IsClean taken p s e
      (supervise-Outcome taken events read_size (start taken) (start-Holds taken))
