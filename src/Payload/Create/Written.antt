-- ===== src/Payload/Create/Written.antt =====
-- What the first loop of `write_archive` has put into an archive.
use Prim.Native.Nat.{◌/◌, ◌%◌}
use remote_ssh_mcp_server.Prelude.Fallible.{check, >>=-some, some-inj, check-some}
use remote_ssh_mcp_server.Prelude.Int.{pos}
use remote_ssh_mcp_server.Prelude.Lists.{length, take, length-take}
use remote_ssh_mcp_server.Prelude.{
  Bool, ◌≡◌, refl, ap, subst, true, ◌||◌, ◌==◌, ==_iff, leb, leb→le, some, List, [], ◌∷◌, arith,
  if-cases,
}
use remote_ssh_mcp_server.Payload.Extract.{TarInfo, permissions, valid_metadata}
use remote_ssh_mcp_server.Payload.Create.{Details, FrozenEntry, member, is_unchanged, write_members}
use remote_ssh_mcp_server.Payload.Create.Sorting.{frozen_bytes}

-- A member of a frozen entry: its metadata are those that an extraction accepts, and its content is what
-- the source had when it was frozen.
pub record IsCopied (f : FrozenEntry) (info : TarInfo) : Type 0 where
  pub name : info.name ≡ f.archive_path
  pub valid : valid_metadata info ≡ true
  pub content : info.content ≡ some (frozen_bytes f ∷ [])
  pub size : info.size ≡ pos f.details.size
  pub whole : length (frozen_bytes f) ≡ f.details.size

abbrev pub AreCopied : List FrozenEntry → List TarInfo → Type 0
AreCopied [] [] = Unit
AreCopied [] (info ∷ infos) = ⊥
AreCopied (f ∷ fs) [] = ⊥
AreCopied (f ∷ fs) (info ∷ infos) = IsCopied f info × AreCopied fs infos

member-valid : (f : FrozenEntry) (d : Details) → valid_metadata (member f d) ≡ true
unfolding valid_metadata member
member-valid f d =
    if-cases (λ m. (permissions m == 384 || permissions m == 448) ≡ true) (d.mode / 64 % 2 == 1)
      (λ _. refl) (λ _. refl)

member-IsCopied :
    (f : FrozenEntry) (d : Details)
    → is_unchanged f.details d ≡ true
    → leb d.size (length f.source.bytes) ≡ true
    → IsCopied f (member f d)
unfolding is_unchanged member
member-IsCopied f d same long =
    let size : d.size ≡ f.details.size = (==_iff d.size f.details.size).0 (ground arith) in
    record {
      name = refl;
      valid = member-valid f d;
      content = ap (λ n. some (take n f.source.bytes ∷ [])) size;
      size = ap pos size;
      whole = omega (arith, length-take f.details.size f.source.bytes, size, leb→le d.size _ long);
    }

pub write_members-AreCopied :
    (fits : TarInfo → Bool) (fs : List FrozenEntry) (infos : List TarInfo)
    → write_members fits fs ≡ some infos
    → AreCopied fs infos
unfolding write_members
write_members-AreCopied fits [] infos h = subst (AreCopied []) (some-inj h) tt
write_members-AreCopied fits (f ∷ fs) infos h =
    let (current, e1, h1) = >>=-some f.source.opened _ infos h in
    let (u2, e2, h2) = >>=-some (check (is_unchanged f.details current)) _ infos h1 in
    let (u3, e3, h3) = >>=-some (check (fits (member f current))) _ infos h2 in
    let (u4, e4, h4) = >>=-some (check (leb current.size (length f.source.bytes))) _ infos h3 in
    let (rest, e5, h5) = >>=-some (write_members fits fs) _ infos h4 in
    subst (AreCopied (f ∷ fs)) (some-inj h5) (
      member-IsCopied f current (check-some _ u2 e2) (check-some _ u4 e4),
      write_members-AreCopied fits fs rest e5,
    )
