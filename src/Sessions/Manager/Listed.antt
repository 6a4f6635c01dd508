-- ===== src/Sessions/Manager/Listed.antt =====
-- What becomes of the sessions of a list while it waits.
use remote_ssh_mcp_server.Prelude.Lists.{All}
use remote_ssh_mcp_server.Prelude.Text.{Text}
use remote_ssh_mcp_server.Prelude.{
  ℕ, suc, ◌≤◌, ◌<◌, ◌≡◌, ◌⊎◌, refl, sym, subst, inl, inr, List, [], ◌∷◌, Option-cases, if-cases,
  arith,
}
use remote_ssh_mcp_server.Errors.{Result-cases}
use remote_ssh_mcp_server.Sessions.Identity.{ServerIdentity}
use remote_ssh_mcp_server.Sessions.Session.{RemoteSession}
use remote_ssh_mcp_server.Sessions.Manager.{
  SessionManager, Claim, ensure_accepting, find_session, owner, new_session_id, new_session, insert,
  register, change, begin_close, begin_all, claim_server, started, authorize, check_session,
  mark_used, disconnect, forget, close,
}
use remote_ssh_mcp_server.Sessions.Manager.Unique.{fixed, All-append_one, All-pop, All-change}
use remote_ssh_mcp_server.Sessions.Manager.Valid.{
  started-fixed, begin_close-fixed, finish_connect-fixed,
}
use remote_ssh_mcp_server.Sessions.Manager.World.{
  World, Step, claims, starts, finishes, connects, authorizes, disconnects, forgets, closes, Reach,
  here, next,
}
use remote_ssh_mcp_server.Sessions.Manager.Listing.{Tag}

abbrev pub Listed : Tag → List Tag → Type 0
Listed t [] = ⊥
Listed t (u ∷ us) = (u ≡ t) ⊎ Listed t us

-- A session that is on the list, or has been made since.
abbrev pub Known : ℕ → List Tag → RemoteSession → Type 0
Known limit listed s = (limit ≤ s.serial) ⊎ Listed (s.session_id, s.serial) listed

-- All sessions are known, and fewer have been made than the manager has counted.
pub record IsKnown (limit : ℕ) (listed : List Tag) (m : SessionManager) : Type 0 where
  pub sessions : All (Known limit listed) m.sessions
  pub counted : All (λ s. s.serial < m.created) m.sessions
  pub later : limit ≤ m.created

Known-fixed :
    (limit : ℕ) (listed : List Tag) (s t : RemoteSession)
    → fixed t ≡ fixed s
    → Known limit listed s
    → Known limit listed t
Known-fixed limit listed s t e h =
    subst (λ p. (limit ≤ p.1.1) ⊎ Listed (p.0.0, p.1.1) listed) (sym e) h

counted-fixed : (n : ℕ) (s t : RemoteSession) → fixed t ≡ fixed s → s.serial < n → t.serial < n
counted-fixed n s t e h = subst (λ p. p.1.1 < n) (sym e) h

begin_all-All :
    (P : RemoteSession → Type 0) (ss : List RemoteSession)
    → ((s : RemoteSession) → P s → P (begin_close s))
    → All P ss
    → All P (begin_all ss)
unfolding begin_all
begin_all-All P [] k h = tt
begin_all-All P (s ∷ ss) k h = (k s h.0, begin_all-All P ss k h.1)

All-weaken :
    (P Q : RemoteSession → Type 0) (ss : List RemoteSession)
    → ((s : RemoteSession) → P s → Q s)
    → All P ss
    → All Q ss
All-weaken P Q [] k h = tt
All-weaken P Q (s ∷ ss) k h = (k s h.0, All-weaken P Q ss k h.1)

module _ (limit : ℕ) (listed : List Tag) where
  change-IsKnown :
      (f : RemoteSession → RemoteSession) (id : Text) (m : SessionManager)
      → ((s : RemoteSession) → fixed (f s) ≡ fixed s)
      → IsKnown limit listed m
      → IsKnown limit listed (record m { sessions = change f id m.sessions })
  change-IsKnown f id m k h = record {
    sessions =
        All-change (Known limit listed) f id m.sessions
          (λ s. Known-fixed limit listed s (f s) (k s)) h.sessions;
    counted =
        All-change (λ s. s.serial < m.created) f id m.sessions
          (λ s. counted-fixed m.created s (f s) (k s)) h.counted;
    later = h.later;
  }

  insert-IsKnown :
      (s : RemoteSession) (m : SessionManager)
      → s.serial ≡ m.created
      → IsKnown limit listed m
      → IsKnown limit listed (insert s m)
  unfolding insert
  insert-IsKnown s m e h = record {
    sessions =
        All-append_one (Known limit listed) m.sessions s h.sessions
          (inl (omega (arith, e, h.later)));
    counted =
        All-append_one (λ t. t.serial < suc m.created) m.sessions s
          (All-weaken (λ t. t.serial < m.created) (λ t. t.serial < suc m.created) m.sessions
            (λ t l. omega (arith, l)) h.counted)
          (omega (arith, e));
    later = omega (arith, h.later);
  }

  claim_server-IsKnown :
      (key_digest : Text → Text) (server : ServerIdentity) (key : Text) (tokens : List Text)
      (m : SessionManager)
      → IsKnown limit listed m
      → IsKnown limit listed (claim_server key_digest server key tokens m).1
  unfolding claim_server register new_session
  claim_server-IsKnown key_digest server key tokens m h =
      elim (Option-cases (owner server m.sessions)) [
        | inr (s, owned) ↦
            rw (owned, claim_server)
              (if-cases (λ (r : Claim × SessionManager). IsKnown limit listed r.1) s.closing
                (λ _. change-IsKnown begin_close s.session_id m begin_close-fixed h) (λ _. h))
        | inl unowned ↦
            rw (unowned, claim_server)
              (elim (Result-cases (ensure_accepting m)) [
                | inr (e, refusal) ↦ rw refusal h
                | inl (u, accepted) ↦
                    rw accepted (elim (Option-cases (new_session_id tokens m.sessions)) [
                      | inl none_left ↦ rw (none_left, register) h
                      | inr (id, token) ↦ rw (token, register) (insert-IsKnown _ m refl h)
                    ])
              ])
      ]

  authorize-IsKnown :
      (key_digest : Text → Text) (now : ℕ) (id key : Text) (m : SessionManager)
      → IsKnown limit listed m
      → IsKnown limit listed (authorize key_digest now id key m).1
  unfolding authorize
  authorize-IsKnown key_digest now id key m h = elim (Option-cases (find_session id m.sessions)) [
    | inl missing ↦ rw (missing, authorize) h
    | inr (s, found) ↦
        rw (found, authorize)
          (elim (Result-cases (check_session key_digest key s)) [
            | inr (e, refusal) ↦ rw refusal h
            | inl (u, accepted) ↦ rw accepted (change-IsKnown (mark_used now) id m (λ t. refl) h)
          ])
  ]

  disconnect-IsKnown :
      (id : Text) (m : SessionManager)
      → IsKnown limit listed m
      → IsKnown limit listed (disconnect id m).1
  unfolding disconnect
  disconnect-IsKnown id m h = elim (Option-cases (find_session id m.sessions)) [
    | inl missing ↦ rw (missing, disconnect) h
    | inr (s, found) ↦ rw (found, disconnect) (change-IsKnown begin_close id m begin_close-fixed h)
  ]

  Step-IsKnown :
      (key_digest : Text → Text) {w x : World}
      → Step key_digest w x
      → IsKnown limit listed w.manager
      → IsKnown limit listed x.manager
  unfolding forget close
  Step-IsKnown key_digest {w} (claims server key tokens) h =
      claim_server-IsKnown key_digest server key tokens w.manager h
  Step-IsKnown key_digest {w} (starts r id) h =
      change-IsKnown (started r) id w.manager (started-fixed r) h
  Step-IsKnown key_digest {w} (finishes interrupted id) h =
      change-IsKnown _ id w.manager (finish_connect-fixed interrupted) h
  Step-IsKnown key_digest {w} (connects state id) h = change-IsKnown _ id w.manager (λ s. refl) h
  Step-IsKnown key_digest {w} (authorizes now id key) h =
      authorize-IsKnown key_digest now id key w.manager h
  Step-IsKnown key_digest {w} (disconnects id) h = disconnect-IsKnown id w.manager h
  Step-IsKnown key_digest {w} (forgets id) h = record {
    sessions = All-pop (Known limit listed) id w.manager.sessions h.sessions;
    counted = All-pop (λ s. s.serial < w.manager.created) id w.manager.sessions h.counted;
    later = h.later;
  }
  Step-IsKnown key_digest {w} closes h = record {
    sessions =
        begin_all-All (Known limit listed) w.manager.sessions
          (λ s. Known-fixed limit listed s (begin_close s) (begin_close-fixed s)) h.sessions;
    counted =
        begin_all-All (λ s. s.serial < w.manager.created) w.manager.sessions
          (λ s. counted-fixed w.manager.created s (begin_close s) (begin_close-fixed s)) h.counted;
    later = h.later;
  }

  pub Reach-IsKnown :
      (key_digest : Text → Text) {v w : World}
      → IsKnown limit listed v.manager
      → Reach key_digest v w
      → IsKnown limit listed w.manager
  Reach-IsKnown key_digest h here = h
  Reach-IsKnown key_digest h (next r st) = Step-IsKnown key_digest st (Reach-IsKnown key_digest h r)
