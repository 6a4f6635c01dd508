-- ===== src/Payload/Extract/Members.antt =====
-- What `_write_member` stores of a member.
use remote_ssh_mcp_server.Prelude.Fallible.{>>=-some, some-inj, check-some, check}
use remote_ssh_mcp_server.Prelude.Int.{ℤ, pos, negsuc}
use remote_ssh_mcp_server.Prelude.Lists.{length}
use remote_ssh_mcp_server.Prelude.Text.{Text, text_eq_iff}
use remote_ssh_mcp_server.Prelude.{
  ℕ, ◌+◌, ◌≡◌, ◌⊎◌, inl, inr, refl, ap, sym, subst, ◌∙◌, true, false, not, some, List, [], ◌∷◌,
  Bool-cases, ltb, ◌==◌, ==_iff, arith,
}
use remote_ssh_mcp_server.Commands.Capture.Bounded.{received}
use remote_ssh_mcp_server.Payload.Names.{safe_archive_path}
use remote_ssh_mcp_server.Payload.Names.Safe.{IsSafe, safe_archive_path-IsSafe}
use remote_ssh_mcp_server.Payload.Extract.{
  TarInfo, Stored, permissions, valid_metadata, size_of, is_prefix, is_vacant, write_blocks,
  write_member,
}

write_blocks-received :
    (limit size : ℕ) (blocks : List Text) (bytes : Text)
    → write_blocks limit size blocks ≡ some bytes
    → bytes ≡ received blocks
unfolding write_blocks received
write_blocks-received limit size [] bytes h = ground arith
write_blocks-received limit size ([] ∷ blocks) bytes h = ground arith
write_blocks-received limit size ((c ∷ block) ∷ blocks) bytes h =
    let (u, e, h1) = >>=-some (check (not (ltb limit (size + length (c ∷ block))))) _ bytes h in
    let (rest, f, h2) =
      >>=-some (write_blocks limit (size + length (c ∷ block)) blocks) _ bytes h1 in
    ground (arith, write_blocks-received limit (size + length (c ∷ block)) blocks rest f)

-- What is stored of a member: an ordinary file at the safe path that its name spells, with the content
-- of the member, which has the size that the member declares.
pub record IsStored (info : TarInfo) (s : Stored) : Type 0 where
  pub name : s.name ≡ info.name
  pub path : IsSafe info.name s.path
  pub size : info.size ≡ pos (length s.bytes)
  pub blocks : List Text
  pub content : info.content ≡ some blocks
  pub bytes : s.bytes ≡ received blocks
  pub regular : info.is_reg ≡ true
  pub mode : (s.mode ≡ 384) ⊎ (s.mode ≡ 448)

size_of-some : (size : ℤ) (n : ℕ) → size_of size ≡ some n → size ≡ pos n
unfolding size_of
size_of-some (pos m) n h = ap pos (ground arith)
size_of-some (negsuc m) n h = absurd (cc)

abbrev pub stored : TarInfo → List Text → Text → Stored
stored info path bytes = record {
  name = info.name;
  path = path;
  mode = permissions info.mode;
  bytes = bytes;
}

stored-IsStored :
    (info : TarInfo) (path : List Text) (size : ℕ) (blocks : List Text) (bytes : Text)
    → safe_archive_path info.name ≡ some path
    → valid_metadata info ≡ true
    → size_of info.size ≡ some size
    → info.content ≡ some blocks
    → write_blocks size 0 blocks ≡ some bytes
    → (length bytes == size) ≡ true
    → IsStored info (stored info path bytes)
unfolding valid_metadata
stored-IsStored info path size blocks bytes safe valid declared content written whole = record {
  name = refl;
  path = safe_archive_path-IsSafe info.name path safe;
  size = size_of-some info.size size declared ∙ ap pos (sym ((==_iff (length bytes) size).0 whole));
  blocks = blocks;
  content = content;
  bytes = write_blocks-received size 0 blocks bytes written;
  regular = ground arith;
  mode = modes (Bool-cases (permissions info.mode == 384));
}
  where
    modes :
        (permissions info.mode == 384) ≡ true ⊎ (permissions info.mode == 384) ≡ false
        → (permissions info.mode ≡ 384) ⊎ (permissions info.mode ≡ 448)
    modes (inl e) = inl ((==_iff (permissions info.mode) 384).0 e)
    modes (inr e) = inr ((==_iff (permissions info.mode) 448).0 (ground arith))

pub write_member-IsStored :
    (written : List Stored) (info : TarInfo) (s : Stored)
    → write_member written info ≡ some s
    → IsStored info s × (is_vacant s.path written ≡ true)
unfolding write_member
write_member-IsStored written info s h =
    let (path, e1, h1) = >>=-some (safe_archive_path info.name) _ s h in
    let (u2, e2, h2) = >>=-some (check (valid_metadata info)) _ s h1 in
    let (size, e3, h3) = >>=-some (size_of info.size) _ s h2 in
    let (u4, e4, h4) = >>=-some (check (is_vacant path written)) _ s h3 in
    let (blocks, e5, h5) = >>=-some info.content _ s h4 in
    let (bytes, e6, h6) = >>=-some (write_blocks size 0 blocks) _ s h5 in
    let (u7, e7, h7) = >>=-some (check (not info.broken)) _ s h6 in
    let (u8, e8, h8) = >>=-some (check (length bytes == size)) _ s h7 in
    subst (λ t. IsStored info t × (is_vacant t.path written ≡ true)) (some-inj h8)
      (
        stored-IsStored info path size blocks bytes e1 (check-some _ u2 e2) e3 e5 e6
            (check-some _ u8 e8),
        check-some _ u4 e4,
      )

pub is_prefix_refl : (ps : List Text) → is_prefix ps ps ≡ true
unfolding is_prefix
is_prefix_refl [] = refl
is_prefix_refl (p ∷ ps) = rw ((text_eq_iff p p).1 refl) (is_prefix_refl ps)
