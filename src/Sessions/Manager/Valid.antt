-- ===== src/Sessions/Manager/Valid.antt =====
-- What every call keeps of a manager: its ids and its servers are distinct, and there are at most
-- `max_sessions` of them.
use mathlib.Core.List.{map}
use remote_ssh_mcp_server.Prelude.Lists.{length, length-append}
use remote_ssh_mcp_server.Prelude.Text.{Text}
use remote_ssh_mcp_server.Prelude.{
  ℕ, suc, ◌≤◌, ◌<◌, ◌≡◌, refl, ap, subst, sym, ◌∙◌, inl, inr, Bool, false, Option, none, some, List,
  [], ◌∷◌, Option-cases, if-cases, arith,
}
use remote_ssh_mcp_server.Errors.{
  Raised, remote, cancelled_error, other_error, Result, ok, err, Result-cases,
}
use remote_ssh_mcp_server.Sessions.Identity.{ServerIdentity}
use remote_ssh_mcp_server.Sessions.Session.{RemoteSession}
use remote_ssh_mcp_server.Sessions.Manager.{
  SessionManager, Claim, ensure_accepting, find_session, owner, new_session_id, new_session, change,
  begin_close, claim_server, started, finish_connect, close_on_error, begin_all, insert, authorize,
  check_session, mark_used, disconnect, close, register,
}
use remote_ssh_mcp_server.Sessions.Manager.Unique.{
  identity, fixed, UniqueSessions, Unique, map-change, length-change, Unique-insert,
}

-- What the calls keep of a manager.
pub record IsValid (m : SessionManager) : Type 0 where
  pub unique : UniqueSessions m.sessions
  pub limited : length m.sessions ≤ m.max_sessions

pub started-fixed : (r : Result (Unit {0})) (s : RemoteSession) → fixed (started r s) ≡ fixed s
unfolding started
started-fixed (ok u) s = refl
started-fixed (err cancelled_error) s = refl
started-fixed (err (remote c)) s = refl
started-fixed (err other_error) s = refl

pub begin_close-fixed : (s : RemoteSession) → fixed (begin_close s) ≡ fixed s
unfolding begin_close
begin_close-fixed s = if-cases (λ t. fixed t ≡ fixed s) s.close_task (λ _. refl) (λ _. refl)

close_on_error-fixed :
    (s : RemoteSession) (e : Option Raised) → fixed (close_on_error s e).1 ≡ fixed s
unfolding close_on_error
close_on_error-fixed s none = refl
close_on_error-fixed s (some e) = begin_close-fixed s

pub finish_connect-fixed :
    (interrupted : Bool) (s : RemoteSession) → fixed (finish_connect interrupted s).1 ≡ fixed s
unfolding finish_connect
finish_connect-fixed interrupted s = close_on_error-fixed s _

pub change-IsValid :
    (f : RemoteSession → RemoteSession) (id : Text) (m : SessionManager)
    → ((s : RemoteSession) → fixed (f s) ≡ fixed s)
    → IsValid m
    → IsValid (record m { sessions = change f id m.sessions })
change-IsValid f id m k v = record {
  unique = subst Unique (sym (map-change f id m.sessions k)) v.unique;
  limited = omega (arith, v.limited, length-change f id m.sessions);
}

begin_all-identity : (ss : List RemoteSession) → map identity (begin_all ss) ≡ map identity ss
unfolding begin_all
begin_all-identity [] = refl
begin_all-identity (s ∷ ss) =
    ap (λ p. p.0 ∷ map identity (begin_all ss)) (begin_close-fixed s)
    ∙ ap (◌∷◌ (identity s)) (begin_all-identity ss)

pub new_session_id-fresh :
    (tokens : List Text) (ss : List RemoteSession) (id : Text)
    → new_session_id tokens ss ≡ some id
    → find_session id ss ≡ none
unfolding new_session_id
new_session_id-fresh [] ss id h = absurd (cc)
new_session_id-fresh (t ∷ tokens) ss id h = elim (Option-cases (find_session t ss)) [
  | inl free ↦ ground arith
  | inr (s, taken) ↦ new_session_id-fresh tokens ss id (ground (arith, taken))
]

pub ensure_accepting-ok :
    (m : SessionManager) (u : Unit {0})
    → ensure_accepting m ≡ ok u
    → (m.closed ≡ false) × (length m.sessions < m.max_sessions)
unfolding ensure_accepting
ensure_accepting-ok m u h = (ground arith, ground arith)

pub claim_server-IsValid :
    (key_digest : Text → Text) (server : ServerIdentity) (key : Text) (tokens : List Text)
    (m : SessionManager)
    → IsValid m
    → IsValid (claim_server key_digest server key tokens m).1
unfolding claim_server register new_session insert
claim_server-IsValid key_digest server key tokens m v =
    elim (Option-cases (owner server m.sessions)) [
      | inr (s, owned) ↦
          rw (owned, claim_server)
            (if-cases (λ (r : Claim × SessionManager). IsValid r.1) s.closing
              (λ _. change-IsValid begin_close s.session_id m begin_close-fixed v) (λ _. v))
      | inl unowned ↦
          rw (unowned, claim_server)
            (elim (Result-cases (ensure_accepting m)) [
              | inr (e, refusal) ↦ rw refusal v
              | inl (u, accepted) ↦
                  rw accepted (elim (Option-cases (new_session_id tokens m.sessions)) [
                    | inl none_left ↦ rw (none_left, register) v
                    | inr (id, token) ↦
                        rw (token, register)
                          (record {
                            unique =
                                Unique-insert _ m.sessions
                                  (new_session_id-fresh tokens m.sessions id token) unowned
                                  v.unique;
                            limited = omega (
                              arith,
                              length-append m.sessions
                                  (new_session key_digest server key id m.created ∷ []),
                              (ensure_accepting-ok m u accepted).1,
                            );
                          })
                  ])
            ])
    ]

pub authorize-IsValid :
    (key_digest : Text → Text) (now : ℕ) (id key : Text) (m : SessionManager)
    → IsValid m
    → IsValid (authorize key_digest now id key m).1
unfolding authorize
authorize-IsValid key_digest now id key m v = elim (Option-cases (find_session id m.sessions)) [
  | inl missing ↦ rw (missing, authorize) v
  | inr (s, found) ↦
      rw (found, authorize)
        (elim (Result-cases (check_session key_digest key s)) [
          | inr (e, refusal) ↦ rw refusal v
          | inl (u, accepted) ↦ rw accepted (change-IsValid (mark_used now) id m (λ t. refl) v)
        ])
]

pub disconnect-IsValid : (id : Text) (m : SessionManager) → IsValid m → IsValid (disconnect id m).1
unfolding disconnect
disconnect-IsValid id m v = elim (Option-cases (find_session id m.sessions)) [
  | inl missing ↦ rw (missing, disconnect) v
  | inr (s, found) ↦ rw (found, disconnect) (change-IsValid begin_close id m begin_close-fixed v)
]

pub length-begin_all : (ss : List RemoteSession) → length (begin_all ss) ≡ length ss
unfolding begin_all
length-begin_all [] = refl
length-begin_all (s ∷ ss) = ap suc (length-begin_all ss)

pub close-IsValid : (m : SessionManager) → IsValid m → IsValid (close m)
unfolding close
close-IsValid m v = record {
  unique = subst Unique (sym (begin_all-identity m.sessions)) v.unique;
  limited = omega (arith, v.limited, length-begin_all m.sessions);
}
