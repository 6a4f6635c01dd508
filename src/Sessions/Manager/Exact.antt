-- ===== src/Sessions/Manager/Exact.antt =====
-- Which sessions a listing shows.
use mathlib.Core.List.{map}
use remote_ssh_mcp_server.Prelude.Lists.{All}
use remote_ssh_mcp_server.Prelude.Text.{Text, text_eq, text_eq_iff}
use remote_ssh_mcp_server.Prelude.{
  ℕ, ◌≤◌, ◌<◌, ◌≡◌, ◌⊎◌, refl, ap, sym, ◌∙◌, subst, inl, inr, false, some, List, [], ◌∷◌, ◌==◌,
  ==_iff, Bool-cases, Option-cases, if-cases, arith,
}
use remote_ssh_mcp_server.Sessions.Session.{RemoteSession}
use remote_ssh_mcp_server.Sessions.Manager.{SessionManager, find_session, new_manager}
use remote_ssh_mcp_server.Sessions.Manager.Unique.{identity, Apart, UniqueSessions}
use remote_ssh_mcp_server.Sessions.Manager.World.{World, Reach, new_world}
use remote_ssh_mcp_server.Sessions.Manager.Listing.{Tag, tags, begin_list, still_there}
use remote_ssh_mcp_server.Sessions.Manager.Listed.{Listed, Known, IsKnown, Reach-IsKnown}

abbrev pub Among : RemoteSession → List RemoteSession → Type 0
Among s [] = ⊥
Among s (t ∷ ts) = (t ≡ s) ⊎ Among s ts

All-Among :
    (P : RemoteSession → Type 0) (ss : List RemoteSession)
    → ((s : RemoteSession) → Among s ss → P s)
    → All P ss
All-Among P [] f = tt
All-Among P (s ∷ ss) f = (f s (inl refl), All-Among P ss (λ t h. f t (inr h)))

Among-All :
    (P : RemoteSession → Type 0) (ss : List RemoteSession) (s : RemoteSession)
    → All P ss
    → Among s ss
    → P s
Among-All P [] s all h = absurd h
Among-All P (t ∷ ts) s all (inl e) = subst P e all.0
Among-All P (t ∷ ts) s all (inr h) = Among-All P ts s all.1 h

-- What is shown: the sessions of the dict that are older than `limit`, and all of these.
pub record IsExact (limit : ℕ) (current shown : List RemoteSession) : Type 0 where
  pub sound : All (λ s. (s.serial < limit) × Among s current) shown
  pub complete : All (λ s. (limit ≤ s.serial) ⊎ Among s shown) current

find_session-Among :
    (id : Text) (ss : List RemoteSession) (s : RemoteSession)
    → find_session id ss ≡ some s
    → Among s ss
unfolding find_session
find_session-Among id [] s h = absurd (cc)
find_session-Among id (t ∷ ts) s h = elim (Bool-cases (text_eq t.session_id id)) [
  | inl same ↦ inl (ground (arith, same))
  | inr other ↦ inr (find_session-Among id ts s (ground (arith, other)))
]

Apart-Among :
    (t : RemoteSession) (ss : List RemoteSession) (s : RemoteSession)
    → All (Apart (identity t)) (map identity ss)
    → Among s ss
    → text_eq t.session_id s.session_id ≡ false
Apart-Among t [] s h among = absurd among
Apart-Among t (u ∷ us) s h (inl e) =
    subst (λ (v : RemoteSession). text_eq t.session_id v.session_id ≡ false) e h.0.ids
Apart-Among t (u ∷ us) s h (inr later) = Apart-Among t us s h.1 later

-- A session of the dict is found under its id.
find_session-own :
    (ss : List RemoteSession) (s : RemoteSession)
    → UniqueSessions ss
    → Among s ss
    → find_session s.session_id ss ≡ some s
unfolding find_session
find_session-own [] s u h = absurd h
find_session-own (t ∷ ts) s u (inl e) =
    subst (λ (v : RemoteSession). find_session v.session_id (t ∷ ts) ≡ some v) e
      (rw (find_session, (text_eq_iff t.session_id t.session_id).1 refl) refl)
find_session-own (t ∷ ts) s u (inr later) =
    rw (find_session, Apart-Among t ts s u.0 later) (find_session-own ts s u.1 later)

still_there_sound :
    (limit : ℕ) (listed : List Tag) (ss : List RemoteSession)
    → All (λ t. t.1 < limit) listed
    → All (λ s. (s.serial < limit) × Among s ss) (still_there listed ss)
unfolding still_there
still_there_sound limit [] ss h = tt
still_there_sound limit ((id, serial) ∷ listed) ss h =
    let rest = still_there_sound limit listed ss h.1 in
    elim (Option-cases (find_session id ss)) [
      | inl gone ↦ rw (gone, still_there) rest
      | inr (s, found) ↦
          rw (found, still_there)
            (if-cases (All (λ t. (t.serial < limit) × Among t ss)) (s.serial == serial)
              (λ same. (
                (
                  omega (arith, (==_iff s.serial serial).0 same, h.0),
                  find_session-Among id ss s found,
                ),
                rest,
              ))
              (λ _. rest))
    ]

still_there_complete :
    (listed : List Tag) (ss : List RemoteSession) (s : RemoteSession)
    → find_session s.session_id ss ≡ some s
    → Listed (s.session_id, s.serial) listed
    → Among s (still_there listed ss)
unfolding still_there
still_there_complete [] ss s found h = absurd h
still_there_complete ((id, serial) ∷ listed) ss s found (inl e) =
    let here = ap (λ (t : Tag). find_session t.0 ss) e ∙ found in
    let same = (==_iff s.serial serial).1 (sym (ap (λ (t : Tag). t.1) e)) in
    rw (here, still_there, same) (inl refl)
still_there_complete ((id, serial) ∷ listed) ss s found (inr later) =
    let rest = still_there_complete listed ss s found later in
    elim (Option-cases (find_session id ss)) [
      | inl gone ↦ rw (gone, still_there) rest
      | inr (t, other) ↦
          rw (other, still_there)
            (if-cases (Among s) (t.serial == serial) (λ _. inr rest) (λ _. rest))
    ]

pub tags-All :
    (limit : ℕ) (ss : List RemoteSession)
    → All (λ s. s.serial < limit) ss
    → All (λ t. t.1 < limit) (tags ss)
unfolding tags
tags-All limit [] h = tt
tags-All limit (s ∷ ss) h = (h.0, tags-All limit ss h.1)

tags-Listed :
    (ss : List RemoteSession) (s : RemoteSession)
    → Among s ss
    → Listed (s.session_id, s.serial) (tags ss)
unfolding tags
tags-Listed [] s h = absurd h
tags-Listed (t ∷ ts) s (inl e) = inl (ap (λ u. (u.session_id, u.serial)) e)
tags-Listed (t ∷ ts) s (inr later) = inr (tags-Listed ts s later)

-- At the start every session is on the list.
pub begin_list-IsKnown :
    (m : SessionManager)
    → All (λ s. s.serial < m.created) m.sessions
    → IsKnown m.created (begin_list m) m
unfolding begin_list
begin_list-IsKnown m counted = record {
  sessions =
      All-Among (Known m.created (tags m.sessions)) m.sessions
        (λ s h. inr (tags-Listed m.sessions s h));
  counted = counted;
  later = omega arith;
}

pub new_world-counted :
    (key_digest : Text → Text) (max_sessions : ℕ) (w : World)
    → Reach key_digest (new_world max_sessions) w
    → All (λ s. s.serial < w.manager.created) w.manager.sessions
unfolding new_world new_manager
new_world-counted key_digest max_sessions w r =
    (Reach-IsKnown 0 [] key_digest (record { sessions = tt; counted = tt; later = omega arith })
      r).counted

pub still_there-IsExact :
    (limit : ℕ) (listed : List Tag) (m : SessionManager)
    → All (λ t. t.1 < limit) listed
    → IsKnown limit listed m
    → UniqueSessions m.sessions
    → IsExact limit m.sessions (still_there listed m.sessions)
still_there-IsExact limit listed m old known unique = record {
  sound = still_there_sound limit listed m.sessions old;
  complete =
      All-Among _ m.sessions
        (λ s h. shown s h (Among-All (Known limit listed) m.sessions s known.sessions h));
}
  where
    shown :
        (s : RemoteSession)
        → Among s m.sessions
        → Known limit listed s
        → (limit ≤ s.serial) ⊎ Among s (still_there listed m.sessions)
    shown s h (inl later) = inl later
    shown s h (inr on_list) =
        inr (
          still_there_complete listed m.sessions s (find_session-own m.sessions s unique h) on_list)
