-- ===== src/Sessions/Manager/Stays.antt =====
-- What no call does to a manager: change its limit, open it again, or let it grow when closed.
use remote_ssh_mcp_server.Prelude.Lists.{length}
use remote_ssh_mcp_server.Prelude.Text.{Text}
use remote_ssh_mcp_server.Prelude.{
  ℕ, ◌≤◌, ◌≡◌, refl, ◌∙◌, inl, inr, true, List, Option-cases, if-cases, arith,
}
use remote_ssh_mcp_server.Errors.{Result-cases}
use remote_ssh_mcp_server.Sessions.Identity.{ServerIdentity}
use remote_ssh_mcp_server.Sessions.Session.{RemoteSession}
use remote_ssh_mcp_server.Sessions.Manager.{
  SessionManager, Claim, ensure_accepting, find_session, owner, new_session_id, change, begin_close,
  claim_server, insert, authorize, disconnect, forget, close, check_session, mark_used, register,
}
use remote_ssh_mcp_server.Sessions.Manager.Unique.{length-change, length-pop}
use remote_ssh_mcp_server.Sessions.Manager.Valid.{ensure_accepting-ok, length-begin_all}

-- What the calls never do to a manager: change the limit, open it again, or let it grow when closed.
pub record Stays (m n : SessionManager) : Type 0 where
  pub same_limit : n.max_sessions ≡ m.max_sessions
  pub stays_closed : m.closed ≡ true → n.closed ≡ true
  pub no_more : m.closed ≡ true → length n.sessions ≤ length m.sessions

pub Stays-same : (m : SessionManager) → Stays m m
Stays-same m = record { same_limit = refl; stays_closed = λ h. h; no_more = λ h. omega arith }

pub Stays-change :
    (f : RemoteSession → RemoteSession) (id : Text) (m : SessionManager)
    → Stays m (record m { sessions = change f id m.sessions })
Stays-change f id m = record {
  same_limit = refl;
  stays_closed = λ h. h;
  no_more = λ h. omega (arith, length-change f id m.sessions);
}

pub Stays-claim_server :
    (key_digest : Text → Text) (server : ServerIdentity) (key : Text) (tokens : List Text)
    (m : SessionManager)
    → Stays m (claim_server key_digest server key tokens m).1
unfolding claim_server register insert
Stays-claim_server key_digest server key tokens m = elim (Option-cases (owner server m.sessions)) [
  | inr (s, owned) ↦
      rw (owned, claim_server)
        (if-cases (λ (r : Claim × SessionManager). Stays m r.1) s.closing
          (λ _. Stays-change begin_close s.session_id m) (λ _. Stays-same m))
  | inl unowned ↦
      rw (unowned, claim_server)
        (elim (Result-cases (ensure_accepting m)) [
          | inr (e, refusal) ↦ rw refusal (Stays-same m)
          | inl (u, accepted) ↦
              let is_open = (ensure_accepting-ok m u accepted).0 in
              rw accepted (elim (Option-cases (new_session_id tokens m.sessions)) [
                | inl none_left ↦ rw (none_left, register) (Stays-same m)
                | inr (id, token) ↦
                    rw (token, register)
                      (record {
                        same_limit = refl;
                        stays_closed = λ h. h;
                        no_more = λ h. absurd (cc);
                      })
              ])
        ])
]

pub Stays-authorize :
    (key_digest : Text → Text) (now : ℕ) (id key : Text) (m : SessionManager)
    → Stays m (authorize key_digest now id key m).1
unfolding authorize
Stays-authorize key_digest now id key m = elim (Option-cases (find_session id m.sessions)) [
  | inl missing ↦ rw (missing, authorize) (Stays-same m)
  | inr (s, found) ↦
      rw (found, authorize)
        (elim (Result-cases (check_session key_digest key s)) [
          | inr (e, refusal) ↦ rw refusal (Stays-same m)
          | inl (u, accepted) ↦ rw accepted (Stays-change (mark_used now) id m)
        ])
]

pub Stays-disconnect : (id : Text) (m : SessionManager) → Stays m (disconnect id m).1
unfolding disconnect
Stays-disconnect id m = elim (Option-cases (find_session id m.sessions)) [
  | inl missing ↦ rw (missing, disconnect) (Stays-same m)
  | inr (s, found) ↦ rw (found, disconnect) (Stays-change begin_close id m)
]

pub Stays-forget : (id : Text) (m : SessionManager) → Stays m (forget id m)
unfolding forget
Stays-forget id m = record {
  same_limit = refl;
  stays_closed = λ h. h;
  no_more = λ h. omega (arith, length-pop id m.sessions);
}

pub Stays-close : (m : SessionManager) → Stays m (close m)
unfolding close
Stays-close m = record {
  same_limit = refl;
  stays_closed = λ h. refl;
  no_more = λ h. omega (arith, length-begin_all m.sessions);
}

pub Stays-trans : {m n o : SessionManager} → Stays m n → Stays n o → Stays m o
Stays-trans {m} {n} {o} a b = record {
  same_limit = b.same_limit ∙ a.same_limit;
  stays_closed = λ h. b.stays_closed (a.stays_closed h);
  no_more = λ h. omega (arith, a.no_more h, b.no_more (a.stays_closed h));
}
