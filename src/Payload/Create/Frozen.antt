-- ===== src/Payload/Create/Frozen.antt =====
-- What `_freeze_entries` lets through.
use remote_ssh_mcp_server.Prelude.Fallible.{check, >>=-some, some-inj, check-some}
use remote_ssh_mcp_server.Prelude.Lists.{length, take, is_nil, All}
use remote_ssh_mcp_server.Prelude.Text.{Text, mem_text}
use remote_ssh_mcp_server.Prelude.{
  Bool, ℕ, suc, ◌+◌, ◌≤◌, ◌≡◌, ◌⊎◌, refl, inl, inr, ap, sym, ◌∙◌, subst, true, false, not, ◌||◌,
  ◌==◌, leb, ltb, some, List, [], ◌∷◌, arith,
}
use remote_ssh_mcp_server.LocalPaths.{parts_of}
use remote_ssh_mcp_server.Payload.Names.{safe_archive_path}
use remote_ssh_mcp_server.Payload.Create.{
  Details, PayloadEntry, FrozenEntry, freeze, freeze_entries, sort_frozen,
}
use remote_ssh_mcp_server.Payload.Create.Sorting.{
  names_of, AreApart, Has, frozen_pairs, total_size, sort_frozen-All, sort_frozen-AreApart,
  sort_frozen-total, length-sort_frozen, sort_frozen-Has,
}

-- The name of an entry is safe.
abbrev pub IsNamed : FrozenEntry → Type 0
IsNamed f = safe_archive_path f.archive_path ≡ some (parts_of f.archive_path)

-- The entries that are given, the names as they stand.
abbrev pub entry_names : List PayloadEntry → List Text
entry_names [] = []
entry_names (e ∷ es) = e.archive_path ∷ entry_names es

-- Each entry with the bytes that its source had when it was frozen.
abbrev pub Holds : List (Text × Text) → PayloadEntry → Type 0
Holds pairs e =
    (d : Details) × (e.source.frozen ≡ some d)
    × Has pairs e.archive_path (take d.size e.source.bytes)

-- What freezing gives: the entries under their names, within the limits.
record IsFrozen (max_members max_bytes count total : ℕ) (es : List PayloadEntry)
    (fs : List FrozenEntry) : Type 0 where
  names : names_of fs ≡ entry_names es
  named : All IsNamed fs
  few : count + length fs ≤ max_members
  small : total + total_size fs ≤ max_bytes
  held : All (Holds (frozen_pairs fs)) es

safe-parts_of :
    (raw : Text) (parts : List Text)
    → safe_archive_path raw ≡ some parts
    → safe_archive_path raw ≡ some (parts_of raw)
unfolding safe_archive_path
safe-parts_of raw parts h = ground arith

Holds-later :
    (p : Text × Text) (pairs : List (Text × Text)) (es : List PayloadEntry)
    → All (Holds pairs) es
    → All (Holds (p ∷ pairs)) es
Holds-later p pairs [] h = tt
Holds-later p pairs (e ∷ es) h = ((h.0.0, h.0.1, inr h.0.2), Holds-later p pairs es h.1)

freeze-IsFrozen :
    (max_members max_bytes count total : ℕ) (names : List Text) (es : List PayloadEntry)
    (fs : List FrozenEntry)
    → count ≤ max_members
    → total ≤ max_bytes
    → freeze max_members max_bytes count total names es ≡ some fs
    → IsFrozen max_members max_bytes count total es fs
unfolding freeze
freeze-IsFrozen mm mb count total names [] fs c t h =
    subst (IsFrozen mm mb count total []) (some-inj h)
      (record { names = refl; named = tt; few = omega arith; small = omega arith; held = tt })
freeze-IsFrozen mm mb count total names (e ∷ es) fs c t h =
    let (path, e1, h1) = >>=-some (safe_archive_path e.archive_path) _ fs h in
    let (u2, e2, h2) = >>=-some (check (not (mem_text e.archive_path names))) _ fs h1 in
    let (details, e3, h3) = >>=-some e.source.frozen _ fs h2 in
    let (u4, e4, h4) = >>=-some (check details.is_reg) _ fs h3 in
    let (u5, e5, h5) = >>=-some (check (details.nlink == 1)) _ fs h4 in
    let (u6, e6, h6) = >>=-some (check (not (leb mm count))) _ fs h5 in
    let (u7, e7, h7) = >>=-some (check (not (ltb mb (total + details.size)))) _ fs h6 in
    let (rest, e8, h8) =
      >>=-some (freeze mm mb (suc count) (total + details.size) (e.archive_path ∷ names) es) _ fs
        h7 in
    let few = check-some (not (leb mm count)) u6 e6 in
    let small = check-some (not (ltb mb (total + details.size))) u7 e7 in
    let frozen =
      freeze-IsFrozen mm mb (suc count) (total + details.size) (e.archive_path ∷ names) es rest
        (ground (arith, few)) (ground (arith, small)) e8 in
    subst (IsFrozen mm mb count total (e ∷ es)) (some-inj h8) (record {
      names = ap (◌∷◌ e.archive_path) frozen.names;
      named = (safe-parts_of e.archive_path path e1, frozen.named);
      few = omega (arith, frozen.few);
      small = omega (arith, frozen.small);
      held = ((details, e3, inl (refl, refl)), Holds-later _ (frozen_pairs rest) es frozen.held);
    })

-- A plan within the limits, under the names that were given.
pub record IsPlan (max_members max_bytes : ℕ) (allow_empty : Bool) (es : List PayloadEntry)
    (fs : List FrozenEntry) : Type 0 where
  pub named : All IsNamed fs
  pub apart : AreApart (names_of fs)
  pub few : length fs ≤ max_members
  pub small : total_size fs ≤ max_bytes
  pub held : All (Holds (frozen_pairs fs)) es
  pub same : length fs ≡ length es
  pub possible : (max_members == 0) ≡ false
  pub given : (allow_empty ≡ true) ⊎ (1 ≤ length fs)

length-names :
    (fs : List FrozenEntry) (es : List PayloadEntry)
    → names_of fs ≡ entry_names es
    → length fs ≡ length es
length-names [] [] h = refl
length-names [] (e ∷ es) h = absurd (cc)
length-names (f ∷ fs) [] h = absurd (cc)
length-names (f ∷ fs) (e ∷ es) h = ap suc (length-names fs es (ground arith))

Holds-sorted :
    (fsencode : Text → Text) (fs : List FrozenEntry) (es : List PayloadEntry)
    → All (Holds (frozen_pairs fs)) es
    → All (Holds (frozen_pairs (sort_frozen fsencode fs))) es
Holds-sorted fsencode fs [] h = tt
Holds-sorted fsencode fs (e ∷ es) h =
    ((h.0.0, h.0.1, sort_frozen-Has fsencode fs _ _ h.0.2), Holds-sorted fsencode fs es h.1)

not_nil :
    (allow_empty : Bool) (fs : List FrozenEntry)
    → (not (is_nil fs) || allow_empty) ≡ true
    → (allow_empty ≡ true) ⊎ (1 ≤ length fs)
not_nil allow_empty [] h = inl h
not_nil allow_empty (f ∷ fs) h = inr (omega arith)

pub freeze_entries-IsPlan :
    (fsencode : Text → Text) (max_members max_bytes : ℕ) (allow_empty : Bool)
    (es : List PayloadEntry) (fs : List FrozenEntry)
    → AreApart (entry_names es)
    → freeze_entries fsencode max_members max_bytes allow_empty es ≡ some fs
    → IsPlan max_members max_bytes allow_empty es fs
unfolding freeze_entries
freeze_entries-IsPlan fsencode mm mb allow_empty es fs apart h =
    let (u1, e1, h1) = >>=-some (check (not (mm == 0))) _ fs h in
    let (found, e2, h2) = >>=-some (freeze mm mb 0 0 [] es) _ fs h1 in
    let (u3, e3, h3) = >>=-some (check (not (is_nil found) || allow_empty)) _ fs h2 in
    let frozen = freeze-IsFrozen mm mb 0 0 [] es found (omega arith) (omega arith) e2 in
    let count = length-sort_frozen fsencode found in
    subst (IsPlan mm mb allow_empty es) (some-inj h3) (record {
      named = sort_frozen-All fsencode IsNamed found frozen.named;
      apart = sort_frozen-AreApart fsencode found (subst AreApart (sym frozen.names) apart);
      few = omega (arith, frozen.few, count);
      small = omega (arith, frozen.small, sort_frozen-total fsencode found);
      held = Holds-sorted fsencode found es frozen.held;
      same = count ∙ length-names found es frozen.names;
      possible = ground (arith, check-some _ u1 e1);
      given =
          subst (λ n. (allow_empty ≡ true) ⊎ (1 ≤ n)) (sym count)
            (not_nil allow_empty found (check-some _ u3 e3));
    })
