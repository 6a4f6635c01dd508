-- ===== src/Sessions/Manager/World.antt =====
-- All that can happen to a manager, in any order: the parts of its calls between their waits, and
-- what the masters and start tasks do.
use remote_ssh_mcp_server.Prelude.Lists.{length}
use remote_ssh_mcp_server.Prelude.Text.{Text}
use remote_ssh_mcp_server.Prelude.{ℕ, ◌≤◌, ◌≡◌, refl, Bool, true, List, [], ◌∷◌, arith}
use remote_ssh_mcp_server.Errors.{Result}
use remote_ssh_mcp_server.Sessions.Identity.{ServerIdentity}
use remote_ssh_mcp_server.Sessions.Session.{ConnectionState, RemoteSession}
use remote_ssh_mcp_server.Sessions.Manager.{
  SessionManager, Claim, registered, change, claim_server, started, finish_connect, authorize,
  disconnect, forget, close, new_manager,
}
use remote_ssh_mcp_server.Sessions.Manager.Unique.{UniqueSessions, length-pop, Unique-pop}
use remote_ssh_mcp_server.Sessions.Manager.Stays.{
  Stays, Stays-same, Stays-change, Stays-claim_server, Stays-authorize, Stays-disconnect,
  Stays-forget, Stays-close, Stays-trans,
}
use remote_ssh_mcp_server.Sessions.Manager.Valid.{
  IsValid, started-fixed, finish_connect-fixed, change-IsValid, claim_server-IsValid,
  authorize-IsValid, disconnect-IsValid, close-IsValid,
}

-- `issued` holds the id and the key of every registered session, the latest first.
pub record World : Type 0 where
  pub manager : SessionManager
  pub issued : List (Text × Text)

-- The key that a claim hands out.
abbrev pub note_key : Text → Claim → List (Text × Text) → List (Text × Text)
note_key key (registered id) issued = (id, key) ∷ issued
note_key key _ issued = issued

-- What happens to the session `id` alone.
abbrev touch : (RemoteSession → RemoteSession) → Text → World → World
touch f id w = record w { manager = record w.manager { sessions = change f id w.manager.sessions } }

module _ (key_digest : Text → Text) where
  pub data Step (w : World) : World → Type 0 where
    claims :
        (server : ServerIdentity) (key : Text) (tokens : List Text)
        → Step w (
            let (claim, m) = claim_server key_digest server key tokens w.manager in
            record { manager = m; issued = note_key key claim w.issued })
    starts : (r : Result (Unit {0})) (id : Text) → Step w (touch (started r) id w)
    finishes :
        (interrupted : Bool) (id : Text)
        → Step w (touch (λ s. (finish_connect interrupted s).1) id w)
    connects :
        (state : ConnectionState) (id : Text)
        → Step w (touch (λ s. record s { master = state }) id w)
    authorizes :
        (now : ℕ) (id key : Text)
        → Step w (record w { manager = (authorize key_digest now id key w.manager).1 })
    disconnects : (id : Text) → Step w (record w { manager = (disconnect id w.manager).1 })
    forgets : (id : Text) → Step w (record w { manager = forget id w.manager })
    closes : Step w (record w { manager = close w.manager })

  pub data Reach (v : World) : World → Type 0 where
    here : Reach v v
    next : {w x : World} → Reach v w → Step w x → Reach v x

-- The world that a server process starts with.
unfoldable pub new_world : ℕ → World
new_world max_sessions = record { manager = new_manager max_sessions; issued = [] }

forget-IsValid : (id : Text) (m : SessionManager) → IsValid m → IsValid (forget id m)
unfolding forget
forget-IsValid id m v = record {
  unique = Unique-pop id m.sessions v.unique;
  limited = omega (arith, v.limited, length-pop id m.sessions);
}

module _ (key_digest : Text → Text) where
  Step-IsValid : {w x : World} → Step key_digest w x → IsValid w.manager → IsValid x.manager
  Step-IsValid {w} (claims server key tokens) v =
      claim_server-IsValid key_digest server key tokens w.manager v
  Step-IsValid {w} (starts r id) v = change-IsValid (started r) id w.manager (started-fixed r) v
  Step-IsValid {w} (finishes interrupted id) v =
      change-IsValid _ id w.manager (finish_connect-fixed interrupted) v
  Step-IsValid {w} (connects state id) v = change-IsValid _ id w.manager (λ s. refl) v
  Step-IsValid {w} (authorizes now id key) v = authorize-IsValid key_digest now id key w.manager v
  Step-IsValid {w} (disconnects id) v = disconnect-IsValid id w.manager v
  Step-IsValid {w} (forgets id) v = forget-IsValid id w.manager v
  Step-IsValid {w} closes v = close-IsValid w.manager v

  Reach-IsValid : {v w : World} → IsValid v.manager → Reach key_digest v w → IsValid w.manager
  Reach-IsValid h here = h
  Reach-IsValid h (next r st) = Step-IsValid st (Reach-IsValid h r)

  Step-Stays : {w x : World} → Step key_digest w x → Stays w.manager x.manager
  Step-Stays {w} (claims server key tokens) =
      Stays-claim_server key_digest server key tokens w.manager
  Step-Stays {w} (starts r id) = Stays-change (started r) id w.manager
  Step-Stays {w} (finishes interrupted id) = Stays-change _ id w.manager
  Step-Stays {w} (connects state id) = Stays-change _ id w.manager
  Step-Stays {w} (authorizes now id key) = Stays-authorize key_digest now id key w.manager
  Step-Stays {w} (disconnects id) = Stays-disconnect id w.manager
  Step-Stays {w} (forgets id) = Stays-forget id w.manager
  Step-Stays {w} closes = Stays-close w.manager

  Reach-Stays : {v w : World} → Reach key_digest v w → Stays v.manager w.manager
  Reach-Stays {v} here = Stays-same v.manager
  Reach-Stays (next r st) = Stays-trans (Reach-Stays r) (Step-Stays st)

-- Whatever the callers do and in whatever order, the sessions of a server process have different ids
-- and different servers, a session that is being closed included, and there are at most
-- `max_sessions` of them.
pub Reach-distinct :
    (key_digest : Text → Text) (max_sessions : ℕ) (w : World)
    → Reach key_digest (new_world max_sessions) w
    → UniqueSessions w.manager.sessions × (length w.manager.sessions ≤ max_sessions)
unfolding new_world new_manager
Reach-distinct key_digest max_sessions w r =
    let v = Reach-IsValid key_digest (record { unique = tt; limited = omega arith }) r in
    (v.unique, omega (arith, v.limited, (Reach-Stays key_digest r).same_limit))

-- Once `close` has been called no new session comes up, whatever else is called or is still running:
-- the manager stays closed and its sessions only become fewer.
pub Reach-closed :
    (key_digest : Text → Text) (w x : World)
    → w.manager.closed ≡ true
    → Reach key_digest w x
    → (x.manager.closed ≡ true) × (length x.manager.sessions ≤ length w.manager.sessions)
Reach-closed key_digest w x h r =
    let s = Reach-Stays key_digest r in (s.stays_closed h, s.no_more h)
