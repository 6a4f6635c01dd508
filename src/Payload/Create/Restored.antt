-- ===== src/Payload/Create/Restored.antt =====
-- What the loop over the members unpacks of an archive that was written.
use remote_ssh_mcp_server.Prelude.Lists.{length, All}
use remote_ssh_mcp_server.Prelude.Text.{Text, text_eq, text_eq_iff}
use remote_ssh_mcp_server.Prelude.{
  ℕ, suc, ◌+◌, ◌≤◌, ◌≡◌, ◌⊎◌, refl, inl, inr, ap, sym, ◌∙◌, true, false, ltb, some, List, [], ◌∷◌,
  Bool-cases, arith,
}
use remote_ssh_mcp_server.LocalPaths.{parts_of}
use remote_ssh_mcp_server.Payload.Extract.{
  TarInfo, Stored, permissions, is_prefix, is_vacant, write_member, add_size, has_name, unpack,
}
use remote_ssh_mcp_server.Payload.Extract.Members.{is_prefix_refl}
use remote_ssh_mcp_server.Payload.Create.{FrozenEntry}
use remote_ssh_mcp_server.Payload.Create.Sorting.{
  Apart, names_of, AreApart, Has, frozen_bytes, frozen_pairs, total_size,
}
use remote_ssh_mcp_server.Payload.Create.Frozen.{IsNamed}
use remote_ssh_mcp_server.Payload.Create.Written.{AreCopied}
use remote_ssh_mcp_server.Payload.Create.ReadBack.{
  AreReadBack, write_member-restored, size-read, name-read,
}

-- The file tree, by the names of the members.
abbrev pub pairs_of : List Stored → List (Text × Text)
pairs_of [] = []
pairs_of (s ∷ ss) = (s.name, s.bytes) ∷ pairs_of ss

-- No name that is still to come lies at, above or below a file that is there.
abbrev pub Clear : List FrozenEntry → List Stored → Type 0
Clear fs written = All (λ s. (s.path ≡ parts_of s.name) × All (Apart s.name) (names_of fs)) written

Clear-later :
    (f : FrozenEntry) (fs : List FrozenEntry) (written : List Stored)
    → Clear (f ∷ fs) written
    → Clear fs written
Clear-later f fs [] h = tt
Clear-later f fs (s ∷ ss) h = ((h.0.0, h.0.1.1), Clear-later f fs ss h.1)

Clear-vacant :
    (f : FrozenEntry) (fs : List FrozenEntry) (written : List Stored)
    → Clear (f ∷ fs) written
    → is_vacant (parts_of f.archive_path) written ≡ true
unfolding is_vacant
Clear-vacant f fs [] h = refl
Clear-vacant f fs (s ∷ ss) h =
    rw (h.0.0, h.0.1.0.not_below, h.0.1.0.not_above) (Clear-vacant f fs ss h.1)

Apart-names : (a b : Text) → Apart a b → text_eq a b ≡ false
Apart-names a b h = elim (Bool-cases (text_eq a b)) [
  | inr other ↦ other
  | inl same ↦ absurd (
      cc (
        is_prefix_refl (parts_of a),
        h.not_below,
        ap (λ c. is_prefix (parts_of a) (parts_of c)) ((text_eq_iff a b).0 same),
      ))
]

Clear-has_name :
    (f : FrozenEntry) (fs : List FrozenEntry) (written : List Stored)
    → Clear (f ∷ fs) written
    → has_name f.archive_path written ≡ false
unfolding has_name
Clear-has_name f fs [] h = refl
Clear-has_name f fs (s ∷ ss) h =
    rw (Apart-names s.name f.archive_path h.0.1.0) (Clear-has_name f fs ss h.1)

unpack-step :
    (max_members max_bytes count total : ℕ) (written : List Stored) (info : TarInfo)
    (infos : List TarInfo) (s : Stored)
    → suc count ≤ max_members
    → add_size total info.size ≤ max_bytes
    → write_member written info ≡ some s
    → has_name info.name written ≡ false
    → unpack max_members max_bytes count total written (info ∷ infos)
      ≡ unpack max_members max_bytes (suc count) (add_size total info.size) (s ∷ written) infos
unfolding unpack
unpack-step mm mb count total written info infos s few small made other =
    let room : ltb mm (suc count) ≡ false = ground arith in
    let space : ltb mb (add_size total info.size) ≡ false = ground arith in
    rw (room, space, made, other) refl

entry-moved :
    (f : FrozenEntry) (fs : List FrozenEntry) (s : Stored) (written : List Stored)
    → f.archive_path ≡ s.name
    → frozen_bytes f ≡ s.bytes
    → (name bytes : Text)
    → Has (frozen_pairs (f ∷ fs)) name bytes ⊎ Has (pairs_of written) name bytes
    → Has (frozen_pairs fs) name bytes ⊎ Has (pairs_of (s ∷ written)) name bytes
entry-moved f fs s written n b name bytes (inl (inl here)) =
    inr (inl (sym n ∙ here.0, sym b ∙ here.1))
entry-moved f fs s written n b name bytes (inl (inr later)) = inl later
entry-moved f fs s written n b name bytes (inr before) = inr (inr before)

-- The tree that comes of unpacking: what was there, and the entries.
pub record IsRestored (fs : List FrozenEntry) (written tree : List Stored) : Type 0 where
  pub entries :
      (name bytes : Text)
      → Has (frozen_pairs fs) name bytes ⊎ Has (pairs_of written) name bytes
      → Has (pairs_of tree) name bytes
  pub number : length tree ≡ length fs + length written

pub unpack-IsRestored :
    (max_members max_bytes count total : ℕ) (fs : List FrozenEntry) (infos found : List TarInfo)
    (written : List Stored)
    → All IsNamed fs
    → AreApart (names_of fs)
    → Clear fs written
    → count + length fs ≤ max_members
    → total + total_size fs ≤ max_bytes
    → AreCopied fs infos
    → AreReadBack infos found
    → (tree : List Stored) × (unpack max_members max_bytes count total written found ≡ some tree)
      × IsRestored fs written tree
unfolding unpack
unpack-IsRestored mm mb count total [] [] [] written named apart clear few small copied back =
    (written, refl, record { entries = none_left; number = omega arith })
  where
    none_left :
        (name bytes : Text)
        → ⊥ ⊎ Has (pairs_of written) name bytes
        → Has (pairs_of written) name bytes
    none_left name bytes (inl h) = absurd h
    none_left name bytes (inr h) = h
unpack-IsRestored mm mb count total [] (i ∷ is) found written named apart clear few small copied
      back =
    absurd copied
unpack-IsRestored mm mb count total (f ∷ fs) [] found written named apart clear few small copied
      back =
    absurd copied
unpack-IsRestored mm mb count total [] [] (j ∷ js) written named apart clear few small copied back =
    absurd back
unpack-IsRestored mm mb count total (f ∷ fs) (i ∷ is) [] written named apart clear few small copied
      back =
    absurd back
unpack-IsRestored mm mb count total (f ∷ fs) (i ∷ is) (j ∷ js) written named apart clear few small
      copied back =
    let size = size-read total f i j copied.0 back.0 in
    let s : Stored = record {
      name = f.archive_path;
      path = parts_of f.archive_path;
      mode = permissions i.mode;
      bytes = frozen_bytes f;
    } in
    let (tree, e, r) =
      unpack-IsRestored mm mb (suc count) (total + f.details.size) fs is js (s ∷ written) named.1
        apart.1 ((refl, apart.0), Clear-later f fs written clear) (omega (arith, few))
        (omega (arith, small)) copied.1 back.1 in
    (
      tree,
      unpack-step mm mb count total written j js s (omega (arith, few)) (omega (arith, small, size))
            (write_member-restored f i j written named.0 copied.0 back.0
              (Clear-vacant f fs written clear))
            (ap (λ n. has_name n written) (name-read f i j copied.0 back.0)
              ∙ Clear-has_name f fs written clear)
          ∙ ap (λ t. unpack mm mb (suc count) t (s ∷ written) js) size
          ∙ e,
      record {
        entries = λ name bytes h.
            r.entries name bytes (entry-moved f fs s written refl refl name bytes h);
        number = omega (arith, r.number);
      },
    )
