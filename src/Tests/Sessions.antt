-- ===== src/Tests/Sessions.antt =====
-- remote_ssh_mcp/sessions.py at concrete inputs.
use remote_ssh_mcp_server.Prelude.Lists.{length}
use remote_ssh_mcp_server.Prelude.Text.{Text, codes, text_eq, mem_text}
use remote_ssh_mcp_server.Prelude.{◌≤◌, ◌≡◌, refl, true, false, some, List, [], ◌∷◌, ◌++◌, arith}
use remote_ssh_mcp_server.Errors.{remote, invalid_session_key, ok, err}
use remote_ssh_mcp_server.Sessions.Identity.{ServerIdentity}
use remote_ssh_mcp_server.Sessions.Session.{RemoteSession}
use remote_ssh_mcp_server.Sessions.Manager.{
  SessionManager, new_session, change, claim_server, started, authorize, mark_used, close,
  new_manager, ensure_accepting, owner, find_session, registered,
}
use remote_ssh_mcp_server.Sessions.Manager.Unique.{UniqueSessions}
use remote_ssh_mcp_server.Sessions.Manager.World.{
  World, note_key, claims, starts, Reach, here, next, new_world, Reach-distinct, Reach-closed,
}
use remote_ssh_mcp_server.Sessions.Manager.Keys.{last_key}
use remote_ssh_mcp_server.Sessions.Manager.Authorize.{Reach-authorize, authorize-claim_server}
use remote_ssh_mcp_server.Sessions.Manager.Tokens.{claim_server-registers}

abbrev pub host : ServerIdentity
host = record { host = codes "host.example"; port = 22 }

-- The digest is the key itself.
abbrev pub digest : Text → Text
digest key = key

abbrev pub key : Text
key = codes "k1"

abbrev pub empty : SessionManager
empty = record { max_sessions = 2; sessions = []; closed = false; created = 0 }

-- One session has been claimed, and its start task is done.
abbrev pub session : RemoteSession
session = started (ok tt) (new_session digest host key (codes "id1") 0)

abbrev pub connected : World
connected = record {
  manager = record empty { sessions = session ∷ []; created = 1 };
  issued = (codes "id1", key) ∷ [];
}

pub connected-Reach : Reach digest (new_world 2) connected
unfolding new_world new_manager claim_server change started new_session owner ensure_accepting
    find_session text_eq
connected-Reach =
    next (next here (claims host key (codes "id1" ∷ []))) (starts (ok tt) (codes "id1"))

Reach-distinct_example :
    UniqueSessions connected.manager.sessions × (length connected.manager.sessions ≤ 2)
Reach-distinct_example = Reach-distinct digest 2 connected connected-Reach

Reach-authorize_example :
    (last_key (codes "id1") connected.issued ≡ some key)
    × ((mark_used 5 session).session_id ≡ codes "id1")
    × ((mark_used 5 session).closing ≡ false)
    × ((mark_used 5 session).services ≡ true)
unfolding authorize started new_session text_eq
Reach-authorize_example =
    Reach-authorize digest 2 connected 5 (codes "id1") key (mark_used 5 session) (λ k l e. e)
      connected-Reach refl

abbrev closed_world : World
closed_world = record connected { manager = close connected.manager }

-- A connection that comes too late.
abbrev later : World
later =
    let (claim, m) =
      claim_server digest (record host { port = 23 }) key (codes "id2" ∷ []) closed_world.manager in
    record { manager = m; issued = note_key key claim closed_world.issued }

Reach-closed_example :
    (later.manager.closed ≡ true)
    × (length later.manager.sessions ≤ length closed_world.manager.sessions)
unfolding close
Reach-closed_example =
    Reach-closed digest closed_world later refl
      (next here (claims (record host { port = 23 }) key (codes "id2" ∷ [])))

authorize-claim_server_example :
    let m = (claim_server digest host key (codes "id1" ∷ []) empty).1 in
    let ready = record m { sessions = change (started (ok tt)) (codes "id1") m.sessions } in
    ((authorize digest 5 (codes "id1") key ready).0
      ≡ ok (mark_used 5 (started (ok tt) (new_session digest host key (codes "id1") 0))))
    × ((authorize digest 5 (codes "id1") (codes "k2") ready).0 ≡ err (remote invalid_session_key))
unfolding claim_server owner ensure_accepting find_session
authorize-claim_server_example =
    authorize-claim_server digest host key (codes "k2") (codes "id1" ∷ []) empty (codes "id1") 5
      refl (λ e. ground arith)

-- The first token is taken.
abbrev tokens : List Text
tokens = codes "id1" ∷ codes "id2" ∷ []

abbrev other_host : ServerIdentity
other_host = record { host = codes "other.example"; port = 22 }

claim_server-registers_example :
    (id : Text) × ((claim_server digest other_host key tokens connected.manager).0 ≡ registered id)
    × ((claim_server digest other_host key tokens connected.manager).1.sessions
        ≡ connected.manager.sessions ++ (new_session digest other_host key id 1 ∷ []))
unfolding owner started new_session text_eq mem_text
claim_server-registers_example =
    claim_server-registers digest other_host key tokens connected.manager refl refl (omega arith)
      (refl, (refl, tt)) (omega arith)

-- While the listing waits, its session goes and its id is given to a session for another server.
abbrev meanwhile : World
meanwhile = record {
  manager = record empty {
    sessions = new_session digest other_host key (codes "id1") 1 ∷ [];
    created = 2;
  };
  issued = (codes "id1", key) ∷ (codes "id1", key) ∷ [];
}
