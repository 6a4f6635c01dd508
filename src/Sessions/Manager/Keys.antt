-- ===== src/Sessions/Manager/Keys.antt =====
-- Who may use a session: the keys that `connect` issues and `authorize` accepts.
use remote_ssh_mcp_server.Prelude.Lists.{All}
use remote_ssh_mcp_server.Prelude.Text.{Text, text_eq, text_eq_iff}
use remote_ssh_mcp_server.Prelude.{
  ℕ, ◌≡◌, refl, ap, sym, ◌∙◌, inl, inr, Option, none, some, List, [], ◌∷◌, Option-cases, if-cases,
  if◌then◌else◌, arith,
}
use remote_ssh_mcp_server.Errors.{Result-cases}
use remote_ssh_mcp_server.Sessions.Identity.{ServerIdentity}
use remote_ssh_mcp_server.Sessions.Session.{RemoteSession}
use remote_ssh_mcp_server.Sessions.Manager.{
  SessionManager, Claim, ensure_accepting, find_session, owner, new_session_id, new_session, insert,
  register, change, begin_close, begin_all, claim_server, started, authorize, check_session,
  mark_used, disconnect, forget, close,
}
use remote_ssh_mcp_server.Sessions.Manager.Unique.{fixed, All-append_one, All-pop, All-change}
use remote_ssh_mcp_server.Sessions.Manager.Valid.{
  started-fixed, begin_close-fixed, finish_connect-fixed, new_session_id-fresh,
}
use remote_ssh_mcp_server.Sessions.Manager.World.{
  World, note_key, Step, claims, starts, finishes, connects, authorizes, disconnects, forgets,
  closes, Reach, here, next,
}

-- The key that was issued last under an id.
abbrev pub last_key : Text → List (Text × Text) → Option Text
last_key id [] = none
last_key id (e ∷ issued) = if text_eq e.0 id then some e.1 else last_key id issued

module _ (key_digest : Text → Text) where
  -- The session belongs to the key that was issued last under its id.
  pub record Issued (issued : List (Text × Text)) (s : RemoteSession) : Type 0 where
    pub key : Text
    pub is_last : last_key s.session_id issued ≡ some key
    pub same_digest : key_digest key ≡ s.key_digest

  abbrev pub AllIssued : List (Text × Text) → SessionManager → Type 0
  AllIssued issued m = All (Issued issued) m.sessions

  Issued-fixed :
      (issued : List (Text × Text)) (s t : RemoteSession)
      → fixed t ≡ fixed s
      → Issued issued s
      → Issued issued t
  Issued-fixed issued s t e h = record {
    key = h.key;
    is_last = ap (λ p. last_key p.0.0 issued) e ∙ h.is_last;
    same_digest = h.same_digest ∙ sym (ap (λ p. p.1.0) e);
  }

  AllIssued-change :
      (issued : List (Text × Text)) (f : RemoteSession → RemoteSession) (id : Text)
      (m : SessionManager)
      → ((s : RemoteSession) → fixed (f s) ≡ fixed s)
      → AllIssued issued m
      → AllIssued issued (record m { sessions = change f id m.sessions })
  AllIssued-change issued f id m k h =
      All-change (Issued issued) f id m.sessions (λ s. Issued-fixed issued s (f s) (k s)) h

  begin_all-Issued :
      (issued : List (Text × Text)) (ss : List RemoteSession)
      → All (Issued issued) ss
      → All (Issued issued) (begin_all ss)
  unfolding begin_all
  begin_all-Issued issued [] h = tt
  begin_all-Issued issued (s ∷ ss) h = (
    Issued-fixed issued s (begin_close s) (begin_close-fixed s) h.0,
    begin_all-Issued issued ss h.1,
  )

  -- A new id leaves the keys of the other sessions alone.
  Issued-more :
      (issued : List (Text × Text)) (id key : Text) (ss : List RemoteSession)
      → find_session id ss ≡ none
      → All (Issued issued) ss
      → All (Issued ((id, key) ∷ issued)) ss
  unfolding find_session
  Issued-more issued id key [] e h = tt
  Issued-more issued id key (s ∷ ss) e h = (
    record {
      key = h.0.key;
      is_last =
          ground (arith, h.0.is_last, text_eq_iff id s.session_id, text_eq_iff s.session_id id);
      same_digest = h.0.same_digest;
    },
    Issued-more issued id key ss (ground arith) h.1,
  )

  claim_server-Issued :
      (server : ServerIdentity) (key : Text) (tokens : List Text) (issued : List (Text × Text))
      (m : SessionManager)
      → AllIssued issued m
      → AllIssued
          (note_key key (claim_server key_digest server key tokens m).0 issued)
          (claim_server key_digest server key tokens m).1
  unfolding claim_server register insert new_session
  claim_server-Issued server key tokens issued m h = elim (Option-cases (owner server m.sessions)) [
    | inr (s, owned) ↦
        rw (owned, claim_server)
          (if-cases (λ (r : Claim × SessionManager). AllIssued (note_key key r.0 issued) r.1)
            s.closing (λ _. AllIssued-change issued begin_close s.session_id m begin_close-fixed h)
            (λ _. h))
    | inl unowned ↦
        rw (unowned, claim_server)
          (elim (Result-cases (ensure_accepting m)) [
            | inr (e, refusal) ↦ rw refusal h
            | inl (u, accepted) ↦
                rw accepted (elim (Option-cases (new_session_id tokens m.sessions)) [
                  | inl none_left ↦ rw (none_left, register) h
                  | inr (id, token) ↦
                      rw (token, register)
                        (All-append_one (Issued ((id, key) ∷ issued)) m.sessions _
                          (Issued-more issued id key m.sessions
                            (new_session_id-fresh tokens m.sessions id token) h)
                          (record {
                            key = key;
                            is_last = rw ((text_eq_iff id id).1 refl);
                            same_digest = refl;
                          }))
                ])
          ])
  ]

  authorize-Issued :
      (now : ℕ) (id key : Text) (issued : List (Text × Text)) (m : SessionManager)
      → AllIssued issued m
      → AllIssued issued (authorize key_digest now id key m).1
  unfolding authorize
  authorize-Issued now id key issued m h = elim (Option-cases (find_session id m.sessions)) [
    | inl missing ↦ rw (missing, authorize) h
    | inr (s, found) ↦
        rw (found, authorize)
          (elim (Result-cases (check_session key_digest key s)) [
            | inr (e, refusal) ↦ rw refusal h
            | inl (u, accepted) ↦
                rw accepted (AllIssued-change issued (mark_used now) id m (λ t. refl) h)
          ])
  ]

  disconnect-Issued :
      (id : Text) (issued : List (Text × Text)) (m : SessionManager)
      → AllIssued issued m
      → AllIssued issued (disconnect id m).1
  unfolding disconnect
  disconnect-Issued id issued m h = elim (Option-cases (find_session id m.sessions)) [
    | inl missing ↦ rw (missing, disconnect) h
    | inr (s, found) ↦
        rw (found, disconnect) (AllIssued-change issued begin_close id m begin_close-fixed h)
  ]

  Step-Issued :
      {w x : World}
      → Step key_digest w x
      → AllIssued w.issued w.manager
      → AllIssued x.issued x.manager
  unfolding forget close
  Step-Issued {w} (claims server key tokens) h =
      claim_server-Issued server key tokens w.issued w.manager h
  Step-Issued {w} (starts r id) h =
      AllIssued-change w.issued (started r) id w.manager (started-fixed r) h
  Step-Issued {w} (finishes interrupted id) h =
      AllIssued-change w.issued _ id w.manager (finish_connect-fixed interrupted) h
  Step-Issued {w} (connects state id) h = AllIssued-change w.issued _ id w.manager (λ s. refl) h
  Step-Issued {w} (authorizes now id key) h = authorize-Issued now id key w.issued w.manager h
  Step-Issued {w} (disconnects id) h = disconnect-Issued id w.issued w.manager h
  Step-Issued {w} (forgets id) h = All-pop (Issued w.issued) id w.manager.sessions h
  Step-Issued {w} closes h = begin_all-Issued w.issued w.manager.sessions h

  pub Reach-Issued :
      {v w : World}
      → AllIssued v.issued v.manager
      → Reach key_digest v w
      → AllIssued w.issued w.manager
  Reach-Issued h here = h
  Reach-Issued h (next r st) = Step-Issued st (Reach-Issued h r)
