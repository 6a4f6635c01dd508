-- ===== src/Sessions/Manager/Authorize.antt =====
-- `authorize` against the keys that `connect` has issued.
use remote_ssh_mcp_server.Prelude.Text.{Text, text_eq, text_eq_iff}
use remote_ssh_mcp_server.Prelude.{
  ℕ, ◌≡◌, ◌≢◌, refl, ap, sym, ◌∙◌, inl, inr, true, false, none, some, List, [], ◌∷◌, ◌++◌,
  Bool-cases, Option-cases, arith,
}
use remote_ssh_mcp_server.Errors.{remote, invalid_session_key, ok, err, Result-cases}
use remote_ssh_mcp_server.Sessions.Identity.{ServerIdentity}
use remote_ssh_mcp_server.Sessions.Session.{RemoteSession, accepts}
use remote_ssh_mcp_server.Sessions.Manager.{
  SessionManager, registered, ensure_accepting, find_session, owner, new_session_id, new_session,
  insert, register, change, claim_server, started, authorize, check_session, mark_used, new_manager,
}
use remote_ssh_mcp_server.Sessions.Manager.Unique.{find_session-All}
use remote_ssh_mcp_server.Sessions.Manager.Valid.{new_session_id-fresh}
use remote_ssh_mcp_server.Sessions.Manager.World.{World, Reach, new_world}
use remote_ssh_mcp_server.Sessions.Manager.Keys.{last_key, Issued, Reach-Issued}

check_session-ok :
    (key_digest : Text → Text) (key : Text) (s : RemoteSession) (u : Unit {0})
    → check_session key_digest key s ≡ ok u
    → (key_digest key ≡ s.key_digest) × (s.closing ≡ false) × (s.services ≡ true)
unfolding check_session accepts
check_session-ok key_digest key s u h =
    (ground (arith, text_eq_iff (key_digest key) s.key_digest), ground arith, ground arith)

-- `authorize` gives the session that it finds, marked as used, when the tests pass.
authorize-ok :
    (key_digest : Text → Text) (now : ℕ) (id key : Text) (m : SessionManager) (t : RemoteSession)
    → (authorize key_digest now id key m).0 ≡ ok t
    → (s : RemoteSession) × (find_session id m.sessions ≡ some s)
      × (check_session key_digest key s ≡ ok tt)
      × (t ≡ mark_used now s)
unfolding authorize
authorize-ok key_digest now id key m t h = elim (Option-cases (find_session id m.sessions)) [
  | inl missing ↦ absurd (cc)
  | inr (s, found) ↦ elim (Result-cases (check_session key_digest key s)) [
    | inr (e, refusal) ↦ absurd (ground (arith, found, refusal))
    | inl (tt, accepted) ↦ (s, found, accepted, ground (arith, found, accepted))
  ]
]

-- A call is authorized only with the key that `connect` has issued last under the session's id, for
-- a session that is ready and not being closed, whatever has happened before. SHA-256 is taken to
-- tell the keys apart.
pub Reach-authorize :
    (key_digest : Text → Text) (max_sessions : ℕ) (w : World) (now : ℕ) (id key : Text)
    (s : RemoteSession)
    → ((k l : Text) → key_digest k ≡ key_digest l → k ≡ l)
    → Reach key_digest (new_world max_sessions) w
    → (authorize key_digest now id key w.manager).0 ≡ ok s
    → (last_key id w.issued ≡ some key)
      × (s.session_id ≡ id)
      × (s.closing ≡ false)
      × (s.services ≡ true)
unfolding new_world new_manager
Reach-authorize key_digest max_sessions w now id key s apart r h =
    let (t, found, accepted, same) = authorize-ok key_digest now id key w.manager s h in
    let (issued, same_id) =
      find_session-All (Issued key_digest w.issued) id w.manager.sessions t
        (Reach-Issued key_digest tt r) found in
    let (same_digest, unclosed, ready) = check_session-ok key_digest key t tt accepted in
    (
      ap (λ i. last_key i w.issued) (sym same_id)
          ∙ issued.is_last
          ∙ ap some (apart issued.key key (issued.same_digest ∙ sym same_digest)),
      ap (λ u. u.session_id) same ∙ same_id,
      ap (λ u. u.closing) same ∙ unclosed,
      ap (λ u. u.services) same ∙ ready,
    )

find_session-change_last :
    (f : RemoteSession → RemoteSession) (id : Text) (ss : List RemoteSession) (new : RemoteSession)
    → find_session id ss ≡ none
    → text_eq new.session_id id ≡ true
    → text_eq (f new).session_id id ≡ true
    → find_session id (change f id (ss ++ (new ∷ []))) ≡ some (f new)
unfolding find_session change
find_session-change_last f id [] new h e k = rw (e, k)
find_session-change_last f id (s ∷ ss) new h e k =
    ground (arith, find_session-change_last f id ss new (ground arith) e k)

-- What a claim that registers a session has done.
claim_server-registered :
    (key_digest : Text → Text) (server : ServerIdentity) (key : Text) (tokens : List Text)
    (m : SessionManager) (id : Text)
    → (claim_server key_digest server key tokens m).0 ≡ registered id
    → (find_session id m.sessions ≡ none)
      × ((claim_server key_digest server key tokens m).1
          ≡ insert (new_session key_digest server key id m.created) m)
unfolding claim_server register
claim_server-registered key_digest server key tokens m id h =
    elim (Option-cases (owner server m.sessions)) [
      | inr (s, owned) ↦ absurd (elim (Bool-cases s.closing) [
        | inl c ↦ ground (arith, owned, c)
        | inr c ↦ ground (arith, owned, c)
      ])
      | inl unowned ↦ elim (Result-cases (ensure_accepting m)) [
        | inr (e, refusal) ↦ absurd (ground (arith, unowned, refusal))
        | inl (u, accepted) ↦ elim (Option-cases (new_session_id tokens m.sessions)) [
          | inl none_left ↦ absurd (ground (arith, unowned, accepted, none_left))
          | inr (i, token) ↦
              let same : i ≡ id = ground (arith, unowned, accepted, token) in
              (
                new_session_id-fresh tokens m.sessions id (token ∙ ap some same),
                rw (unowned, claim_server, accepted, token, register, same),
              )
        ]
      ]
    ]

-- `connect` and `authorize` fit: once the session that `connect` has registered is ready, its key
-- authorizes calls of it, and a key with another digest does not.
pub authorize-claim_server :
    (key_digest : Text → Text) (server : ServerIdentity) (key other : Text) (tokens : List Text)
    (m : SessionManager) (id : Text) (now : ℕ)
    → (claim_server key_digest server key tokens m).0 ≡ registered id
    → key_digest other ≢ key_digest key
    → let m' = (claim_server key_digest server key tokens m).1 in
      let ready = record m' { sessions = change (started (ok tt)) id m'.sessions } in
      ((authorize key_digest now id key ready).0
        ≡ ok (mark_used now (started (ok tt) (new_session key_digest server key id m.created))))
      × ((authorize key_digest now id other ready).0 ≡ err (remote invalid_session_key))
unfolding authorize insert new_session started check_session accepts
authorize-claim_server key_digest server key other tokens m id now h differ =
    let (fresh, made) = claim_server-registered key_digest server key tokens m id h in
    let same = (text_eq_iff id id).1 refl in
    let found =
      find_session-change_last (started (ok tt)) id m.sessions
        (new_session key_digest server key id m.created) fresh same same in
    (
      rw (made, authorize, found, (text_eq_iff (key_digest key) (key_digest key)).1 refl),
      rw (made, authorize, found) (ground (arith, text_eq_iff (key_digest other) (key_digest key))),
    )
