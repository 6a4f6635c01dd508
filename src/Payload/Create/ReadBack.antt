-- ===== src/Payload/Create/ReadBack.antt =====
-- What `_write_member` stores of a member that was written and read back.
use remote_ssh_mcp_server.Prelude.Int.{pos}
use remote_ssh_mcp_server.Prelude.Lists.{length, length-append}
use remote_ssh_mcp_server.Prelude.Text.{Text}
use remote_ssh_mcp_server.Prelude.{
  ℕ, ◌+◌, ◌≤◌, ◌≡◌, refl, ap, ◌∙◌, true, false, ==_iff, ltb, some, List, [], ◌∷◌, arith,
}
use remote_ssh_mcp_server.Commands.Capture.Bounded.{received}
use remote_ssh_mcp_server.LocalPaths.{parts_of}
use remote_ssh_mcp_server.Payload.Names.{safe_archive_path}
use remote_ssh_mcp_server.Payload.Extract.{
  TarInfo, Stored, permissions, valid_metadata, size_of, is_vacant, write_blocks, write_member,
  add_size,
}
use remote_ssh_mcp_server.Payload.Extract.Members.{stored}
use remote_ssh_mcp_server.Payload.Create.{FrozenEntry}
use remote_ssh_mcp_server.Payload.Create.Sorting.{frozen_bytes}
use remote_ssh_mcp_server.Payload.Create.Frozen.{IsNamed}
use remote_ssh_mcp_server.Payload.Create.Written.{IsCopied}

write_blocks-fits :
    (limit size : ℕ) (blocks : List Text)
    → size + length (received blocks) ≤ limit
    → write_blocks limit size blocks ≡ some (received blocks)
unfolding write_blocks received
write_blocks-fits limit size [] h = refl
write_blocks-fits limit size ([] ∷ blocks) h = refl
write_blocks-fits limit size ((c ∷ block) ∷ blocks) h =
    let rest =
      write_blocks-fits limit (size + length (c ∷ block)) blocks
        (omega (arith, length-append (c ∷ block) (received blocks), h)) in
    let room : ltb limit (size + length (c ∷ block)) ≡ false =
      ground (arith, length-append (c ∷ block) (received blocks)) in
    rw (room, rest) refl

-- A member that an extraction stores.
write_member-stored :
    (written : List Stored) (info : TarInfo) (path : List Text) (size : ℕ) (blocks : List Text)
    → safe_archive_path info.name ≡ some path
    → valid_metadata info ≡ true
    → info.size ≡ pos size
    → is_vacant path written ≡ true
    → info.content ≡ some blocks
    → info.broken ≡ false
    → length (received blocks) ≡ size
    → write_member written info ≡ some (stored info path (received blocks))
unfolding write_member size_of
write_member-stored written info path size blocks safe valid declared vacant content whole same =
    rw
      (
        safe,
        valid,
        declared,
        vacant,
        content,
        write_blocks-fits size 0 blocks (omega (arith, same)),
        whole,
        (==_iff _ _).1 same,
      )
      refl

-- What `tarfile` reads of a member that it has written: the header, and the content in blocks.
abbrev pub IsReadBack : TarInfo → TarInfo → Type 0
IsReadBack info found =
    (blocks : List Text) × (info.content ≡ some (received blocks ∷ []))
    × (found ≡ record info { content = some blocks; broken = false })

abbrev pub AreReadBack : List TarInfo → List TarInfo → Type 0
AreReadBack [] [] = Unit
AreReadBack [] (found ∷ rest) = ⊥
AreReadBack (info ∷ infos) [] = ⊥
AreReadBack (info ∷ infos) (found ∷ rest) = IsReadBack info found × AreReadBack infos rest

pub write_member-restored :
    (f : FrozenEntry) (info found : TarInfo) (written : List Stored)
    → IsNamed f
    → IsCopied f info
    → IsReadBack info found
    → is_vacant (parts_of f.archive_path) written ≡ true
    → write_member written found
      ≡ some (record {
        name = f.archive_path;
        path = parts_of f.archive_path;
        mode = permissions info.mode;
        bytes = frozen_bytes f;
      })
unfolding valid_metadata
write_member-restored f info found written named copied (blocks, content, back) vacant =
    let bytes : received blocks ≡ frozen_bytes f = ground (arith, content, copied.content) in
    let read = record info { content = some blocks; broken = false } in
    ap (write_member written) back
    ∙ write_member-stored written read (parts_of f.archive_path) f.details.size blocks
        (ap safe_archive_path copied.name ∙ named) copied.valid copied.size vacant refl refl
        (ap length bytes ∙ copied.whole)
    ∙ ap some (
        ap (λ n. stored (record read { name = n }) (parts_of f.archive_path) (received blocks))
          copied.name
        ∙ ap (stored (record read { name = f.archive_path }) (parts_of f.archive_path)) bytes)

pub size-read :
    (total : ℕ) (f : FrozenEntry) (info found : TarInfo)
    → IsCopied f info
    → IsReadBack info found
    → add_size total found.size ≡ total + f.details.size
unfolding add_size
size-read total f info found copied (blocks, content, back) =
    ap (λ (i : TarInfo). add_size total i.size) back ∙ ap (add_size total) copied.size

pub name-read :
    (f : FrozenEntry) (info found : TarInfo)
    → IsCopied f info
    → IsReadBack info found
    → found.name ≡ f.archive_path
name-read f info found copied (blocks, content, back) =
    ap (λ (i : TarInfo). i.name) back ∙ copied.name
