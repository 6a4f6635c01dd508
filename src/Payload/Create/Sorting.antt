-- ===== src/Payload/Create/Sorting.antt =====
-- What sorting the frozen entries keeps.
use remote_ssh_mcp_server.Prelude.Lists.{length, take, All}
use remote_ssh_mcp_server.Prelude.Text.{Text, text_lt}
use remote_ssh_mcp_server.Prelude.{
  if-cases, ℕ, suc, ◌+◌, ◌≡◌, ◌⊎◌, refl, inl, inr, ap, false, List, [], ◌∷◌, arith,
}
use remote_ssh_mcp_server.LocalPaths.{parts_of}
use remote_ssh_mcp_server.Payload.Extract.{is_prefix}
use remote_ssh_mcp_server.Payload.Create.{FrozenEntry, insert_frozen, sort_frozen}

-- The paths of two names, neither of them at or below the other.
pub record Apart (a b : Text) : Type 0 where
  pub not_below : is_prefix (parts_of a) (parts_of b) ≡ false
  pub not_above : is_prefix (parts_of b) (parts_of a) ≡ false

pub Apart-sym : {a b : Text} → Apart a b → Apart b a
Apart-sym h = record { not_below = h.not_above; not_above = h.not_below }

abbrev pub names_of : List FrozenEntry → List Text
names_of [] = []
names_of (f ∷ fs) = f.archive_path ∷ names_of fs

-- Names of which none lies below another.
abbrev pub AreApart : List Text → Type 0
AreApart [] = Unit
AreApart (a ∷ names) = All (Apart a) names × AreApart names

-- A name with a content in a list of such pairs.
abbrev pub Has : List (Text × Text) → Text → Text → Type 0
Has [] name bytes = ⊥
Has (p ∷ pairs) name bytes = ((p.0 ≡ name) × (p.1 ≡ bytes)) ⊎ Has pairs name bytes

abbrev pub frozen_bytes : FrozenEntry → Text
frozen_bytes f = take f.details.size f.source.bytes

abbrev pub frozen_pairs : List FrozenEntry → List (Text × Text)
frozen_pairs [] = []
frozen_pairs (f ∷ fs) = (f.archive_path, frozen_bytes f) ∷ frozen_pairs fs

abbrev pub total_size : List FrozenEntry → ℕ
total_size [] = 0
total_size (f ∷ fs) = f.details.size + total_size fs

module _ (fsencode : Text → Text) where
  insert_frozen-All :
      (P : FrozenEntry → Type 0) (f : FrozenEntry) (fs : List FrozenEntry)
      → P f
      → All P fs
      → All P (insert_frozen fsencode f fs)
  unfolding insert_frozen
  insert_frozen-All P f [] p h = (p, tt)
  insert_frozen-All P f (g ∷ gs) p h =
      if-cases (All P) (text_lt (fsencode g.archive_path) (fsencode f.archive_path))
        (λ _. (h.0, insert_frozen-All P f gs p h.1)) (λ _. (p, h))

  pub sort_frozen-All :
      (P : FrozenEntry → Type 0) (fs : List FrozenEntry)
      → All P fs
      → All P (sort_frozen fsencode fs)
  unfolding sort_frozen
  sort_frozen-All P [] h = tt
  sort_frozen-All P (f ∷ fs) h =
      insert_frozen-All P f (sort_frozen fsencode fs) h.0 (sort_frozen-All P fs h.1)

  insert_frozen-names :
      (Q : Text → Type 0) (f : FrozenEntry) (fs : List FrozenEntry)
      → Q f.archive_path
      → All Q (names_of fs)
      → All Q (names_of (insert_frozen fsencode f fs))
  unfolding insert_frozen
  insert_frozen-names Q f [] p h = (p, tt)
  insert_frozen-names Q f (g ∷ gs) p h =
      if-cases (λ l. All Q (names_of l))
        (text_lt (fsencode g.archive_path) (fsencode f.archive_path))
        (λ _. (h.0, insert_frozen-names Q f gs p h.1)) (λ _. (p, h))

  insert_frozen-AreApart :
      (f : FrozenEntry) (fs : List FrozenEntry)
      → All (Apart f.archive_path) (names_of fs)
      → AreApart (names_of fs)
      → AreApart (names_of (insert_frozen fsencode f fs))
  unfolding insert_frozen
  insert_frozen-AreApart f [] p h = (tt, tt)
  insert_frozen-AreApart f (g ∷ gs) p h =
      if-cases (λ l. AreApart (names_of l))
        (text_lt (fsencode g.archive_path) (fsencode f.archive_path))
        (λ _. (
          insert_frozen-names (Apart g.archive_path) f gs (Apart-sym p.0) h.0,
          insert_frozen-AreApart f gs p.1 h.1,
        ))
        (λ _. (p, h))

  sort_frozen-names :
      (Q : Text → Type 0) (fs : List FrozenEntry)
      → All Q (names_of fs)
      → All Q (names_of (sort_frozen fsencode fs))
  unfolding sort_frozen
  sort_frozen-names Q [] h = tt
  sort_frozen-names Q (f ∷ fs) h =
      insert_frozen-names Q f (sort_frozen fsencode fs) h.0 (sort_frozen-names Q fs h.1)

  pub sort_frozen-AreApart :
      (fs : List FrozenEntry)
      → AreApart (names_of fs)
      → AreApart (names_of (sort_frozen fsencode fs))
  unfolding sort_frozen
  sort_frozen-AreApart [] h = tt
  sort_frozen-AreApart (f ∷ fs) h =
      insert_frozen-AreApart f (sort_frozen fsencode fs)
        (sort_frozen-names (Apart f.archive_path) fs h.0) (sort_frozen-AreApart fs h.1)

  insert_frozen-total :
      (f : FrozenEntry) (fs : List FrozenEntry)
      → total_size (insert_frozen fsencode f fs) ≡ f.details.size + total_size fs
  unfolding insert_frozen
  insert_frozen-total f [] = refl
  insert_frozen-total f (g ∷ gs) =
      if-cases (λ l. total_size l ≡ f.details.size + (g.details.size + total_size gs))
        (text_lt (fsencode g.archive_path) (fsencode f.archive_path))
        (λ _. omega (arith, insert_frozen-total f gs)) (λ _. refl)

  pub sort_frozen-total :
      (fs : List FrozenEntry) → total_size (sort_frozen fsencode fs) ≡ total_size fs
  unfolding sort_frozen
  sort_frozen-total [] = refl
  sort_frozen-total (f ∷ fs) =
      omega (arith, insert_frozen-total f (sort_frozen fsencode fs), sort_frozen-total fs)

  length-insert_frozen :
      (f : FrozenEntry) (fs : List FrozenEntry)
      → length (insert_frozen fsencode f fs) ≡ suc (length fs)
  unfolding insert_frozen
  length-insert_frozen f [] = refl
  length-insert_frozen f (g ∷ gs) =
      if-cases {A = List FrozenEntry} (λ l. length l ≡ suc (suc (length gs)))
        (text_lt (fsencode g.archive_path) (fsencode f.archive_path))
        (λ _. ap suc (length-insert_frozen f gs)) (λ _. refl)

  pub length-sort_frozen : (fs : List FrozenEntry) → length (sort_frozen fsencode fs) ≡ length fs
  unfolding sort_frozen
  length-sort_frozen [] = refl
  length-sort_frozen (f ∷ fs) =
      omega (arith, length-insert_frozen f (sort_frozen fsencode fs), length-sort_frozen fs)

  insert_frozen-Has :
      (f : FrozenEntry) (fs : List FrozenEntry) (name bytes : Text)
      → Has (frozen_pairs (f ∷ fs)) name bytes
      → Has (frozen_pairs (insert_frozen fsencode f fs)) name bytes
  unfolding insert_frozen
  insert_frozen-Has f [] name bytes h = h
  insert_frozen-Has f (g ∷ gs) name bytes h =
      if-cases (λ l. Has (frozen_pairs l) name bytes)
        (text_lt (fsencode g.archive_path) (fsencode f.archive_path))
        (λ _. behind (insert_frozen-Has f gs name bytes) h) (λ _. h)
    where
      behind :
          (Has (frozen_pairs (f ∷ gs)) name bytes
            → Has (frozen_pairs (insert_frozen fsencode f gs)) name bytes)
          → Has (frozen_pairs (f ∷ g ∷ gs)) name bytes
          → Has (frozen_pairs (g ∷ insert_frozen fsencode f gs)) name bytes
      behind ih (inl here) = inr (ih (inl here))
      behind ih (inr (inl there)) = inl there
      behind ih (inr (inr later)) = inr (ih (inr later))

  pub sort_frozen-Has :
      (fs : List FrozenEntry) (name bytes : Text)
      → Has (frozen_pairs fs) name bytes
      → Has (frozen_pairs (sort_frozen fsencode fs)) name bytes
  unfolding sort_frozen
  sort_frozen-Has [] name bytes h = h
  sort_frozen-Has (f ∷ fs) name bytes (inl here) =
      insert_frozen-Has f (sort_frozen fsencode fs) name bytes (inl here)
  sort_frozen-Has (f ∷ fs) name bytes (inr later) =
      insert_frozen-Has f (sort_frozen fsencode fs) name bytes
        (inr (sort_frozen-Has fs name bytes later))
