-- ===== src/Sessions/Shutdown.antt =====
-- `_shutdown` of remote_ssh_mcp/sessions.py, with what its calls raise as arguments.
use remote_ssh_mcp_server.Prelude.{Bool, true, false, List, [], ◌∷◌, ◌++◌, if◌then◌else◌}
use remote_ssh_mcp_server.Errors.{Result, ok, err}

-- The calls that `_shutdown` makes.
pub data Effect : Type 0 where
  cancel_start close_transfers close_runner close_master forget_session : Effect

abbrev pub Run : Type 0
Run = List Effect × Result (Unit {0})

-- `try: body finally: last`
finally : Run → Run → Run
finally (before, r) (after, err e) = (before ++ after, err e)
finally (before, r) (after, ok _) = (before ++ after, r)

-- One call.
call : Effect → Result (Unit {0}) → Run
call e r = (e ∷ [], r)

-- `if services is not None: …`
when : Bool → Run → Run
when true r = r
when false r = ([], ok tt)

-- `_shutdown`: `done` says whether there is no start task left to cancel.
unfoldable pub shutdown :
    (done services : Bool) → Result (Unit {0}) → Result (Unit {0}) → Result (Unit {0}) → Run
unfolding finally call when
shutdown done services transfers runner master =
    let closed =
      finally (when services (call close_transfers transfers))
        (finally (when services (call close_runner runner)) (call close_master master)) in
    let (start, _) = if done then ([], ok tt) else call cancel_start (ok tt) in
    finally (start ++ closed.0, closed.1) (call forget_session (ok tt))

-- The last exception, which is the one that is raised.
abbrev pub last_raised : List (Result (Unit {0})) → Result (Unit {0})
last_raised [] = ok tt
last_raised (r ∷ rs) = elim (last_raised rs) [ err e ↦ err e | ok _ ↦ r ]
