-- ===== src/Sessions/Manager/Tokens.antt =====
-- `_new_session_id` comes to an end: among more distinct tokens than there are sessions one is free.
use remote_ssh_mcp_server.Prelude.Lists.{length}
use remote_ssh_mcp_server.Prelude.Text.{Text, text_eq, text_eq_iff, mem_text}
use remote_ssh_mcp_server.Prelude.{
  suc, ◌≤◌, ◌<◌, ◌≡◌, refl, ap, ◌∙◌, inl, inr, false, none, some, List, [], ◌∷◌, ◌++◌, Bool-cases,
  Option-cases, arith,
}
use remote_ssh_mcp_server.Errors.{ok}
use remote_ssh_mcp_server.Sessions.Identity.{ServerIdentity}
use remote_ssh_mcp_server.Sessions.Session.{RemoteSession}
use remote_ssh_mcp_server.Sessions.Manager.{
  SessionManager, registered, find_session, owner, new_session_id, pop, ensure_accepting,
  claim_server, register, new_session, insert,
}

-- No token comes twice.
abbrev pub Distinct : List Text → Type 0
Distinct [] = Unit
Distinct (t ∷ ts) = (mem_text t ts ≡ false) × Distinct ts

-- Every token is the id of a session.
abbrev AllTaken : List Text → List RemoteSession → Type 0
AllTaken [] ss = Unit
AllTaken (t ∷ ts) ss = ((s : RemoteSession) × (find_session t ss ≡ some s)) × AllTaken ts ss

length-pop_found :
    (t : Text) (ss : List RemoteSession) (s : RemoteSession)
    → find_session t ss ≡ some s
    → length ss ≡ suc (length (pop t ss))
unfolding find_session pop
length-pop_found t [] s h = absurd (cc)
length-pop_found t (r ∷ ss) s h = elim (Bool-cases (text_eq r.session_id t)) [
  | inl e ↦ rw e
  | inr e ↦ rw e (ap suc (length-pop_found t ss s (ground arith)))
]

find_session-pop :
    (t u : Text) (ss : List RemoteSession)
    → text_eq t u ≡ false
    → find_session u (pop t ss) ≡ find_session u ss
unfolding find_session pop
find_session-pop t u [] h = refl
find_session-pop t u (r ∷ ss) h = ground (
  arith,
  find_session-pop t u ss,
  text_eq_iff r.session_id t,
  text_eq_iff r.session_id u,
  text_eq_iff t u,
)

AllTaken-pop :
    (t : Text) (ts : List Text) (ss : List RemoteSession)
    → mem_text t ts ≡ false
    → AllTaken ts ss
    → AllTaken ts (pop t ss)
unfolding mem_text
AllTaken-pop t [] ss h a = tt
AllTaken-pop t (u ∷ ts) ss h a = (
  (a.0.0, find_session-pop t u ss (ground arith) ∙ a.0.1),
  AllTaken-pop t ts ss (ground arith) a.1,
)

AllTaken-length :
    (ts : List Text) (ss : List RemoteSession)
    → Distinct ts
    → AllTaken ts ss
    → length ts ≤ length ss
AllTaken-length [] ss d a = omega arith
AllTaken-length (t ∷ ts) ss d a = omega (
  arith,
  length-pop_found t ss a.0.0 a.0.1,
  AllTaken-length ts (pop t ss) d.1 (AllTaken-pop t ts ss d.0 a.1),
)

new_session_id-AllTaken :
    (ts : List Text) (ss : List RemoteSession) → new_session_id ts ss ≡ none → AllTaken ts ss
unfolding new_session_id
new_session_id-AllTaken [] ss h = tt
new_session_id-AllTaken (t ∷ ts) ss h = elim (Option-cases (find_session t ss)) [
  | inl free ↦ absurd (ground (arith, free))
  | inr (s, taken) ↦ ((s, taken), new_session_id-AllTaken ts ss (ground (arith, taken)))
]

-- `connect` gets its session: when no session has the server, the manager is open and there is room,
-- the search for an id ends when more different tokens can be drawn than there are sessions, and a new
-- session is in the dict, behind the others.
pub claim_server-registers :
    (key_digest : Text → Text) (server : ServerIdentity) (key : Text) (tokens : List Text)
    (m : SessionManager)
    → owner server m.sessions ≡ none
    → m.closed ≡ false
    → length m.sessions < m.max_sessions
    → Distinct tokens
    → length m.sessions < length tokens
    → (id : Text) × ((claim_server key_digest server key tokens m).0 ≡ registered id)
      × ((claim_server key_digest server key tokens m).1.sessions
          ≡ m.sessions ++ (new_session key_digest server key id m.created ∷ []))
unfolding claim_server register insert
claim_server-registers key_digest server key tokens m unowned opened room distinct more =
    let accepted : ensure_accepting m ≡ ok tt = unfold ensure_accepting in ground arith in
    elim (Option-cases (new_session_id tokens m.sessions)) [
      | inl exhausted ↦
          let short =
            AllTaken-length tokens m.sessions distinct
              (new_session_id-AllTaken tokens m.sessions exhausted) in
          absurd (omega arith)
      | inr (id, token) ↦ (
        id,
        rw (unowned, claim_server, accepted, token, register),
        rw (unowned, claim_server, accepted, token, register),
      )
    ]
