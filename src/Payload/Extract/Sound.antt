-- ===== src/Payload/Extract/Sound.antt =====
-- What has been extracted when `extract_archive` succeeds, and what is left when it does not.
use remote_ssh_mcp_server.Prelude.Fallible.{check, >>=-some, some-inj, check-some}
use remote_ssh_mcp_server.Prelude.Lists.{length, is_nil, all}
use remote_ssh_mcp_server.Prelude.Text.{Text}
use remote_ssh_mcp_server.Prelude.{
  Bool, ℕ, suc, ◌+◌, ◌≤◌, ◌≡◌, ◌⊎◌, inl, inr, refl, ap, subst, ◌∙◌, true, false, not, ◌||◌, Option,
  none, some, List, [], ◌∷◌, Bool-cases, ltb, ◌==◌, arith,
}
use remote_ssh_mcp_server.Payload.Extract.Members.{IsStored, write_member-IsStored}
use remote_ssh_mcp_server.Payload.Extract.{
  TarInfo, Stored, is_vacant, write_member, add_size, has_name, unpack, Archive, Place, exists,
  digests, unpack_archive, settle, extract_archive,
}

-- The members that have been read, the last first, and their files.
abbrev pub AreStored : List TarInfo → List Stored → Type 0
AreStored [] [] = Unit
AreStored [] (s ∷ ss) = ⊥
AreStored (info ∷ infos) [] = ⊥
AreStored (info ∷ infos) (s ∷ ss) = IsStored info s × AreStored infos ss

-- No file stands at, above or below another.
abbrev pub AreSeparate : List Stored → Type 0
AreSeparate [] = Unit
AreSeparate (s ∷ ss) = (is_vacant s.path ss ≡ true) × AreSeparate ss

abbrev pub last_first : List TarInfo → List TarInfo → List TarInfo
last_first [] done = done
last_first (info ∷ infos) done = last_first infos (info ∷ done)

abbrev pub sum_bytes : List Stored → ℕ
sum_bytes [] = 0
sum_bytes (s ∷ ss) = length s.bytes + sum_bytes ss

-- A tree within the limits that holds the members.
pub record IsUnpacked (max_members max_bytes : ℕ) (members : List TarInfo) (tree : List Stored)
    : Type 0 where
  pub files : AreStored members tree
  pub separate : AreSeparate tree
  pub few : length tree ≤ max_members
  pub small : sum_bytes tree ≤ max_bytes

unpack-IsUnpacked :
    (max_members max_bytes count total : ℕ) (written : List Stored) (done infos : List TarInfo)
    (tree : List Stored)
    → IsUnpacked max_members max_bytes done written
    → length written ≡ count
    → sum_bytes written ≡ total
    → unpack max_members max_bytes count total written infos ≡ some tree
    → IsUnpacked max_members max_bytes (last_first infos done) tree
unfolding unpack add_size
unpack-IsUnpacked mm mb count total written done [] tree u c t h =
    subst (IsUnpacked mm mb done) (some-inj h) u
unpack-IsUnpacked mm mb count total written done (info ∷ infos) tree u c t h =
    let (u1, e1, h1) = >>=-some (check (not (ltb mm (suc count)))) _ tree h in
    let (u2, e2, h2) = >>=-some (check (not (ltb mb (add_size total info.size)))) _ tree h1 in
    let (s, e3, h3) = >>=-some (write_member written info) _ tree h2 in
    let (u4, e4, h4) = >>=-some (check (not (has_name info.name written))) _ tree h3 in
    let (is_stored, vacant) = write_member-IsStored written info s e3 in
    let grown : add_size total info.size ≡ length s.bytes + total =
      ap (add_size total) is_stored.size ∙ omega arith in
    unpack-IsUnpacked mm mb (suc count) (add_size total info.size) (s ∷ written) (info ∷ done) infos
      tree
      (record {
        files = (is_stored, u.files);
        separate = (vacant, u.separate);
        few = ground (arith, check-some _ u1 e1, c);
        small = ground (arith, check-some _ u2 e2, grown, t);
      })
      (ap suc c) (ground (arith, grown, t)) h4

unpack_archive-IsUnpacked :
    (max_members max_bytes : ℕ) (allow_empty : Bool) (archive : Archive) (tree : List Stored)
    → unpack_archive max_members max_bytes allow_empty archive ≡ some tree
    → IsUnpacked max_members max_bytes (last_first archive.members []) tree
unfolding unpack_archive
unpack_archive-IsUnpacked mm mb allow_empty archive tree h =
    let (t, e1, h1) = >>=-some (unpack mm mb 0 0 [] archive.members) _ tree h in
    let (u2, e2, h2) = >>=-some (check (not archive.invalid)) _ tree h1 in
    let (u3, e3, h3) = >>=-some (check (allow_empty || not (is_nil t))) _ tree h2 in
    let (rest, e4, h4) = >>=-some archive.trailing _ tree h3 in
    let (u5, e5, h5) = >>=-some (check (all (λ c. c == 0) rest)) _ tree h4 in
    subst (IsUnpacked mm mb (last_first archive.members [])) (some-inj h5) (
      unpack-IsUnpacked mm mb 0 0 [] [] archive.members t
        (record { files = tt; separate = tt; few = omega arith; small = omega arith }) refl refl e1)

-- The destination is new, and holds the members of the archive and nothing else.
pub record IsExtracted (sha256 : Text → Text) (max_members max_bytes : ℕ) (archive : Archive)
    (before after : Place) (found : List (Text × Text)) : Type 0 where
  pub was_absent : before.destination ≡ none
  pub tree : List Stored
  pub placed : after.destination ≡ some tree
  pub unpacked : IsUnpacked max_members max_bytes (last_first archive.members []) tree
  pub digested : found ≡ digests sha256 tree

-- How an extraction ends.
abbrev pub Ends :
    (Text → Text)
    → (max_members max_bytes : ℕ) → Archive
    → Place
    → Option (List (Text × Text)) × Place
    → Type 0
Ends sha256 max_members max_bytes archive place (answer, after) =
    ((answer ≡ none)
      × (after.destination ≡ place.destination)
      × ((after.partial ≡ none) ⊎ (after.partial ≡ place.partial)))
    ⊎ ((found : List (Text × Text)) × (answer ≡ some found)
        × (after.partial ≡ none)
        × IsExtracted sha256 max_members max_bytes archive place after found)

settle-Ends :
    (sha256 : Text → Text) (max_members max_bytes : ℕ) (archive : Archive) (place : Place)
    (outcome : Option (List Stored))
    → place.destination ≡ none
    → ((tree : List Stored)
        → outcome ≡ some tree
        → IsUnpacked max_members max_bytes (last_first archive.members []) tree)
    → Ends sha256 max_members max_bytes archive place (settle sha256 outcome place)
unfolding settle
settle-Ends sha256 mm mb archive place none d u = inl (refl, refl, inl refl)
settle-Ends sha256 mm mb archive place (some tree) d u = elim (Bool-cases place.replaced) [
  | inr failed ↦ rw failed (inl (refl, refl, inl refl))
  | inl done ↦ rw done (
      inr (
        digests sha256 tree,
        refl,
        refl,
        record {
          was_absent = d;
          tree = tree;
          placed = refl;
          unpacked = u tree refl;
          digested = refl;
        },
      ))
]

-- An extraction is whole or leaves nothing. If it fails, the destination is as it was, and no partial
-- directory is left but one that was there before. If it succeeds, the destination is new and holds
-- the members of the archive and nothing else, each an ordinary file with the content of the member, of
-- the size that the member declares, at the path below the destination that its name spells; no file
-- stands at, above or below another, and their number and the sum of their sizes are within the limits.
pub extract_archive-IsExtracted :
    (sha256 : Text → Text) (max_members max_bytes : ℕ) (allow_empty : Bool) (archive : Archive)
    (place : Place)
    → Ends sha256 max_members max_bytes archive place
        (extract_archive sha256 max_members max_bytes allow_empty archive place)
unfolding extract_archive exists
extract_archive-IsExtracted sha256 mm mb allow_empty archive place =
    elim (Bool-cases
      (mm == 0 || exists place.destination || not place.parent || exists place.partial)) [
        | inl refused ↦ rw refused (inl (refl, refl, inr refl))
        | inr free ↦ rw free (
            settle-Ends sha256 mm mb archive place (unpack_archive mm mb allow_empty archive)
              (absent place.destination (ground arith))
              (unpack_archive-IsUnpacked mm mb allow_empty archive))
      ]
  where
    absent : (tree : Option (List Stored)) → exists tree ≡ false → tree ≡ none
    absent none e = refl
    absent (some t) e = absurd (cc)
