-- ===== src/Sessions/Manager/Unique.antt =====
-- The sessions of a manager under their two keys, the id and the server.
use remote_ssh_mcp_server.Prelude.Lists.{length, All}
use remote_ssh_mcp_server.Prelude.Text.{Text, text_eq, text_eq_iff}
use remote_ssh_mcp_server.Prelude.{
  ℕ, ◌≤◌, ◌≡◌, refl, ap, subst, sym, ◌∙◌, inl, inr, false, none, some, List, [], ◌∷◌, ◌++◌,
  Bool-cases, arith,
}
use mathlib.Core.List.{map}
use remote_ssh_mcp_server.Sessions.Identity.{ServerIdentity, same_server}
use remote_ssh_mcp_server.Sessions.Session.{RemoteSession}
use remote_ssh_mcp_server.Sessions.Manager.{find_session, owner, change, pop}

abbrev pub IdServer : Type 0
IdServer = Text × ServerIdentity

abbrev pub identity : RemoteSession → IdServer
identity s = (s.session_id, s.server)

-- What no call changes of a session.
abbrev pub fixed : RemoteSession → IdServer × (Text × ℕ)
fixed s = (identity s, (s.key_digest, s.serial))

-- Neither the id nor the server is shared.
pub record Apart (a b : IdServer) : Type 0 where
  pub ids : text_eq a.0 b.0 ≡ false
  pub servers : same_server a.1 b.1 ≡ false

abbrev pub Unique : List IdServer → Type 0
Unique [] = Unit
Unique (i ∷ is) = All (Apart i) is × Unique is

abbrev pub UniqueSessions : List RemoteSession → Type 0
UniqueSessions ss = Unique (map identity ss)

pub All-append_one {ℓ κ} :
    {A : Type ℓ} (P : A → Type κ) (xs : List A) (y : A) → All P xs → P y → All P (xs ++ (y ∷ []))
All-append_one P [] y h p = (p, tt)
All-append_one P (x ∷ xs) y h p = (h.0, All-append_one P xs y h.1 p)

pub All-pop {κ} :
    (P : RemoteSession → Type κ) (id : Text) (ss : List RemoteSession)
    → All P ss
    → All P (pop id ss)
unfolding pop
All-pop P id [] h = tt
All-pop P id (s ∷ ss) h = elim (Bool-cases (text_eq s.session_id id)) [
  | inl e ↦ rw e h.1
  | inr e ↦ rw e (h.0, All-pop P id ss h.1)
]

pub All-change {κ} :
    (P : RemoteSession → Type κ) (f : RemoteSession → RemoteSession) (id : Text)
    (ss : List RemoteSession)
    → ((s : RemoteSession) → P s → P (f s))
    → All P ss
    → All P (change f id ss)
unfolding change
All-change P f id [] k h = tt
All-change P f id (s ∷ ss) k h = elim (Bool-cases (text_eq s.session_id id)) [
  | inl e ↦ rw e (k s h.0, h.1)
  | inr e ↦ rw e (h.0, All-change P f id ss k h.1)
]

pub map-change :
    (f : RemoteSession → RemoteSession) (id : Text) (ss : List RemoteSession)
    → ((s : RemoteSession) → fixed (f s) ≡ fixed s)
    → map identity (change f id ss) ≡ map identity ss
unfolding change
map-change f id [] k = refl
map-change f id (s ∷ ss) k = elim (Bool-cases (text_eq s.session_id id)) [
  | inl e ↦ rw e (ap (λ p. p.0 ∷ map identity ss) (k s))
  | inr e ↦ rw e (ap (◌∷◌ (identity s)) (map-change f id ss k))
]

pub length-pop : (id : Text) (ss : List RemoteSession) → length (pop id ss) ≤ length ss
unfolding pop
length-pop id [] = omega arith
length-pop id (s ∷ ss) = ground (arith, length-pop id ss)

pub length-change :
    (f : RemoteSession → RemoteSession) (id : Text) (ss : List RemoteSession)
    → length (change f id ss) ≡ length ss
unfolding change
length-change f id [] = refl
length-change f id (s ∷ ss) = ground (arith, length-change f id ss)

All-map-pop :
    (P : IdServer → Type 0) (id : Text) (ss : List RemoteSession)
    → All P (map identity ss)
    → All P (map identity (pop id ss))
unfolding pop
All-map-pop P id [] h = tt
All-map-pop P id (s ∷ ss) h = elim (Bool-cases (text_eq s.session_id id)) [
  | inl e ↦ rw e h.1
  | inr e ↦ rw e (h.0, All-map-pop P id ss h.1)
]

pub Unique-pop :
    (id : Text) (ss : List RemoteSession) → UniqueSessions ss → UniqueSessions (pop id ss)
unfolding pop
Unique-pop id [] h = tt
Unique-pop id (s ∷ ss) h = elim (Bool-cases (text_eq s.session_id id)) [
  | inl e ↦ rw e h.1
  | inr e ↦ rw e (All-map-pop (Apart (identity s)) id ss h.0, Unique-pop id ss h.1)
]

-- A session that is found neither by its id nor by its server is new.
pub Apart-insert :
    (new : RemoteSession) (ss : List RemoteSession)
    → find_session new.session_id ss ≡ none
    → owner new.server ss ≡ none
    → All (λ i. Apart i (identity new)) (map identity ss)
unfolding find_session owner
Apart-insert new [] hi ho = tt
Apart-insert new (s ∷ ss) hi ho = (
  record { ids = ground arith; servers = ground arith },
  Apart-insert new ss (ground arith) (ground arith),
)

Unique-append :
    (is : List IdServer) (i : IdServer)
    → All (λ j. Apart j i) is
    → Unique is
    → Unique (is ++ (i ∷ []))
Unique-append [] i a u = (tt, tt)
Unique-append (j ∷ is) i a u = (All-append_one (Apart j) is i u.0 a.0, Unique-append is i a.1 u.1)

map-append :
    (ss : List RemoteSession) (s : RemoteSession)
    → map identity (ss ++ (s ∷ [])) ≡ map identity ss ++ (identity s ∷ [])
map-append [] s = refl
map-append (t ∷ ss) s = ap (◌∷◌ (identity t)) (map-append ss s)

pub Unique-insert :
    (new : RemoteSession) (ss : List RemoteSession)
    → find_session new.session_id ss ≡ none
    → owner new.server ss ≡ none
    → UniqueSessions ss
    → UniqueSessions (ss ++ (new ∷ []))
Unique-insert new ss hi ho u =
    subst Unique (sym (map-append ss new))
      (Unique-append (map identity ss) (identity new) (Apart-insert new ss hi ho) u)

-- What is found is a session of the dict, under the id.
pub find_session-All {κ} :
    (P : RemoteSession → Type κ) (id : Text) (ss : List RemoteSession) (s : RemoteSession)
    → All P ss
    → find_session id ss ≡ some s
    → P s × (s.session_id ≡ id)
unfolding find_session
find_session-All P id [] s h e = absurd (cc)
find_session-All P id (t ∷ ss) s h e = elim (Bool-cases (text_eq t.session_id id)) [
  | inl same ↦
      let p : t ≡ s = ground arith in
      (subst P p h.0, ap (λ r. r.session_id) (sym p) ∙ (text_eq_iff t.session_id id).0 same)
  | inr other ↦ find_session-All P id ss s h.1 (ground arith)
]
