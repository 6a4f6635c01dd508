-- ===== src/Payload/Create.antt =====
-- `_freeze_entries`, `_member` and `write_archive` of tools/container_payload.py. What the file system
-- says of a source, and what it holds, is given with the entry. An exception of `tarfile`, which wants
-- a header to fit, is `none` as well.
pub mod Sorting
pub mod Frozen
pub mod Written
pub mod ReadBack
pub mod Restored
pub mod RoundTrip
use Prim.Native.Nat.{◌/◌, ◌%◌}
use remote_ssh_mcp_server.Prelude.Fallible.{◌>>=◌, ◌>>◌, check}
use remote_ssh_mcp_server.Prelude.Int.{pos}
use remote_ssh_mcp_server.Prelude.Lists.{length, take, is_nil}
use remote_ssh_mcp_server.Prelude.Text.{Text, text_lt, mem_text}
use remote_ssh_mcp_server.Prelude.{
  ℕ, suc, ◌+◌, Bool, true, false, not, ◌&&◌, ◌||◌, Option, none, some, List, [], ◌∷◌, ltb, leb,
  ◌==◌, if◌then◌else◌,
}
use remote_ssh_mcp_server.Payload.Names.{safe_archive_path}
use remote_ssh_mcp_server.Payload.Extract.{TarInfo}

-- `os.stat_result`
pub record Details : Type 0 where
  pub is_reg : Bool
  pub dev : ℕ
  pub ino : ℕ
  pub mode : ℕ
  pub nlink : ℕ
  pub size : ℕ
  pub mtime_ns : ℕ
  pub ctime_ns : ℕ

-- The source of an entry: what `lstat` gives when it is frozen, `fstat` when it has been opened and
-- `lstat` at the end, none for an `OSError`, and the bytes that can be read of it.
pub record Source : Type 0 where
  pub frozen : Option Details
  pub opened : Option Details
  pub afterwards : Option Details
  pub bytes : Text

pub record PayloadEntry : Type 0 where
  pub source : Source
  pub archive_path : Text

-- `_FrozenEntry`
pub record FrozenEntry : Type 0 where
  pub source : Source
  pub archive_path : Text
  pub details : Details

-- The loop of `_freeze_entries`.
unfoldable pub freeze :
    (max_members max_bytes count total : ℕ)
    → List Text
    → List PayloadEntry
    → Option (List FrozenEntry)
unfolding safe_archive_path mem_text
freeze max_members max_bytes count total names [] = some []
freeze max_members max_bytes count total names (entry ∷ entries) = do
  path ← safe_archive_path entry.archive_path
  check (not (mem_text entry.archive_path names))
  details ← entry.source.frozen
  check details.is_reg
  check (details.nlink == 1)
  check (not (leb max_members count))
  check (not (ltb max_bytes (total + details.size)))
  rest ←
      freeze max_members max_bytes (suc count) (total + details.size) (entry.archive_path ∷ names)
        entries
  some (
      record { source = entry.source; archive_path = entry.archive_path; details = details } ∷ rest)

-- `frozen.sort(key=…)`, with `os.fsencode` as a parameter
unfoldable pub insert_frozen : (Text → Text) → FrozenEntry → List FrozenEntry → List FrozenEntry
unfolding text_lt
insert_frozen fsencode f [] = f ∷ []
insert_frozen fsencode f (g ∷ gs) =
    let rest = insert_frozen fsencode f gs in
    if text_lt (fsencode g.archive_path) (fsencode f.archive_path) then g ∷ rest else f ∷ g ∷ gs

unfoldable pub sort_frozen : (Text → Text) → List FrozenEntry → List FrozenEntry
unfolding insert_frozen
sort_frozen fsencode [] = []
sort_frozen fsencode (f ∷ fs) = insert_frozen fsencode f (sort_frozen fsencode fs)

-- `_freeze_entries`
unfoldable pub freeze_entries :
    (Text → Text)
    → (max_members max_bytes : ℕ) → Bool
    → List PayloadEntry
    → Option (List FrozenEntry)
unfolding freeze sort_frozen
freeze_entries fsencode max_members max_bytes allow_empty entries = do
  check (not (max_members == 0))
  frozen ← freeze max_members max_bytes 0 0 [] entries
  check (not (is_nil frozen) || allow_empty)
  some (sort_frozen fsencode frozen)

-- `_member`: the mode is 0o700 for a source that its owner can execute, else 0o600. The content of the
-- member is what `archive.addfile` copies, as many bytes as the header says.
unfoldable pub member : FrozenEntry → Details → TarInfo
member f details = record {
  name = f.archive_path;
  is_reg = true;
  is_sparse = false;
  pax_headers = false;
  size = pos details.size;
  uid = 0;
  gid = 0;
  uname = [];
  gname = [];
  mtime = 0;
  mode = if details.mode / 64 % 2 == 1 then 448 else 384;
  content = some (take details.size f.source.bytes ∷ []);
  broken = false;
}

-- The test on the opened file, and that at the end, which looks at the mode as well.
unfoldable pub is_unchanged : Details → Details → Bool
is_unchanged old current =
    current.is_reg
    && current.dev == old.dev
    && current.ino == old.ino
    && current.nlink == 1
    && current.size == old.size
    && current.mtime_ns == old.mtime_ns
    && current.ctime_ns == old.ctime_ns

unfoldable pub is_same_file : Details → Details → Bool
is_same_file old current =
    current.dev == old.dev
    && current.ino == old.ino
    && current.mode == old.mode
    && current.nlink == 1
    && current.size == old.size
    && current.mtime_ns == old.mtime_ns
    && current.ctime_ns == old.ctime_ns

-- The first loop of `write_archive`; a source that is shorter than its header raises an `OSError`.
unfoldable pub write_members : (TarInfo → Bool) → List FrozenEntry → Option (List TarInfo)
unfolding is_unchanged member
write_members fits [] = some []
write_members fits (f ∷ fs) = do
  current ← f.source.opened
  check (is_unchanged f.details current)
  check (fits (member f current))
  check (leb current.size (length f.source.bytes))
  rest ← write_members fits fs
  some (member f current ∷ rest)

-- The second loop.
unfoldable pub recheck : List FrozenEntry → Option (Unit {0})
unfolding is_same_file
recheck [] = some tt
recheck (f ∷ fs) = do
  current ← f.source.afterwards
  check (is_same_file f.details current)
  recheck fs

-- `write_archive`: the members that are in the archive when it returns.
unfoldable pub write_archive :
    (Text → Text)
    → (TarInfo → Bool)
    → (max_members max_bytes : ℕ) → Bool
    → List PayloadEntry
    → Option (List TarInfo)
unfolding freeze_entries write_members recheck
write_archive fsencode fits max_members max_bytes allow_empty entries = do
  frozen ← freeze_entries fsencode max_members max_bytes allow_empty entries
  members ← write_members fits frozen
  recheck frozen
  some members
