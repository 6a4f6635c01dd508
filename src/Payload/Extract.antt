-- ===== src/Payload/Extract.antt =====
-- `extract_archive` of tools/container_payload.py. The members that `tarfile` finds in the stream, what
-- it reads of each, and what is left behind them are given. A directory tree is its regular files, by
-- the parts of their paths: there is a directory exactly where a file stands below.
pub mod Members
pub mod Sound
use Prim.Native.Nat.{◌%◌}
use remote_ssh_mcp_server.Prelude.Int.{ℤ, pos, negsuc}
use remote_ssh_mcp_server.Prelude.Lists.{length, is_nil, all}
use remote_ssh_mcp_server.Prelude.Text.{Text, text_eq, mem_text}
use remote_ssh_mcp_server.Prelude.{
  ℕ, suc, ◌+◌, Bool, true, false, not, ◌&&◌, ◌||◌, Option, none, some, List, [], ◌∷◌, ◌++◌, ltb,
  ◌==◌, if◌then◌else◌,
}
use remote_ssh_mcp_server.Prelude.Fallible.{◌>>=◌, ◌>>◌, check}
use remote_ssh_mcp_server.Payload.Names.{safe_archive_path}

-- The `TarInfo` of a member and what `extractfile` gives: the blocks, and whether reading then fails.
pub record TarInfo : Type 0 where
  pub name : Text
  pub is_reg : Bool
  pub is_sparse : Bool
  pub pax_headers : Bool
  pub size : ℤ
  pub uid : ℕ
  pub gid : ℕ
  pub uname : Text
  pub gname : Text
  pub mtime : ℕ
  pub mode : ℕ
  pub content : Option (List Text)
  pub broken : Bool

-- A file below the partial directory.
pub record Stored : Type 0 where
  pub name : Text
  pub path : List Text
  pub mode : ℕ
  pub bytes : Text

-- `stat.S_IMODE`
abbrev pub permissions : ℕ → ℕ
permissions mode = mode % 4096

-- The metadata that `_write_member` accepts, less the size.
unfoldable pub valid_metadata : TarInfo → Bool
valid_metadata info =
    info.is_reg
    && not info.is_sparse
    && not info.pax_headers
    && info.uid == 0
    && info.gid == 0
    && is_nil info.uname
    && is_nil info.gname
    && info.mtime == 0
    && (permissions info.mode == 384 || permissions info.mode == 448)

-- `if info.size < 0`
unfoldable pub size_of : ℤ → Option ℕ
size_of (pos n) = some n
size_of (negsuc n) = none

unfoldable pub is_prefix : List Text → List Text → Bool
unfolding text_eq
is_prefix [] qs = true
is_prefix (p ∷ ps) [] = false
is_prefix (p ∷ ps) (q ∷ qs) = text_eq p q && is_prefix ps qs

-- Where the parents of the target can be made and nothing stands at the target: no file is at one of
-- its parents or at the target, or below it.
unfoldable pub is_vacant : List Text → List Stored → Bool
unfolding is_prefix
is_vacant target [] = true
is_vacant target (s ∷ ss) =
    not (is_prefix s.path target) && not (is_prefix target s.path) && is_vacant target ss

-- The loop that writes the blocks: `size` bytes have been written. It ends at an empty block.
unfoldable pub write_blocks : ℕ → ℕ → List Text → Option Text
write_blocks limit size [] = some []
write_blocks limit size ([] ∷ blocks) = some []
write_blocks limit size ((c ∷ block) ∷ blocks) = do
  check (not (ltb limit (size + length (c ∷ block))))
  rest ← write_blocks limit (size + length (c ∷ block)) blocks
  some ((c ∷ block) ++ rest)

-- `_write_member`, for the files that have been written before
unfoldable pub write_member : List Stored → TarInfo → Option Stored
unfolding safe_archive_path valid_metadata size_of is_vacant write_blocks
write_member written info = do
  path ← safe_archive_path info.name
  check (valid_metadata info)
  size ← size_of info.size
  check (is_vacant path written)
  blocks ← info.content
  bytes ← write_blocks size 0 blocks
  check (not info.broken)
  check (length bytes == size)
  some (record { name = info.name; path = path; mode = permissions info.mode; bytes = bytes })

-- `total += info.size`; a negative size, which is refused next, adds nothing here.
unfoldable pub add_size : ℕ → ℤ → ℕ
add_size total (pos n) = total + n
add_size total (negsuc n) = total

unfoldable pub has_name : Text → List Stored → Bool
unfolding text_eq
has_name name [] = false
has_name name (s ∷ ss) = text_eq s.name name || has_name name ss

-- The loop over the members: what it writes, the last member first.
unfoldable pub unpack :
    (max_members max_bytes count total : ℕ) → List Stored → List TarInfo → Option (List Stored)
unfolding write_member add_size has_name
unpack max_members max_bytes count total written [] = some written
unpack max_members max_bytes count total written (info ∷ infos) = do
  check (not (ltb max_members (suc count)))
  check (not (ltb max_bytes (add_size total info.size)))
  stored ← write_member written info
  check (not (has_name info.name written))
  unpack max_members max_bytes (suc count) (add_size total info.size) (stored ∷ written) infos

-- What `tarfile` and the reader find: the members, whether an exception follows them, which may be the
-- reader's for an archive that is too long, and what `reader.read()` gives behind them.
pub record Archive : Type 0 where
  pub members : List TarInfo
  pub invalid : Bool
  pub trailing : Option Text

-- The destination and the partial directory beside it; a parent that is a real directory. `replaced`
-- says whether `os.replace` succeeds.
pub record Place : Type 0 where
  pub destination : Option (List Stored)
  pub partial : Option (List Stored)
  pub parent : Bool
  pub replaced : Bool

unfoldable pub exists : Option (List Stored) → Bool
exists none = false
exists (some tree) = true

-- `digests`, with the digest as a parameter
unfoldable pub digests : (Text → Text) → List Stored → List (Text × Text)
digests sha256 [] = []
digests sha256 (s ∷ ss) = (s.name, sha256 s.bytes) ∷ digests sha256 ss

-- What stands between the creation of the partial directory and its end.
unfoldable pub unpack_archive : (max_members max_bytes : ℕ) → Bool → Archive → Option (List Stored)
unfolding unpack all
unpack_archive max_members max_bytes allow_empty archive = do
  tree ← unpack max_members max_bytes 0 0 [] archive.members
  check (not archive.invalid)
  check (allow_empty || not (is_nil tree))
  trailing ← archive.trailing
  check (all (λ c. c == 0) trailing)
  some tree

-- The end: the partial directory is put in place or removed.
unfoldable pub settle :
    (Text → Text) → Option (List Stored) → Place → Option (List (Text × Text)) × Place
unfolding digests
settle sha256 none place = (none, record place { partial = none })
settle sha256 (some tree) place =
    if place.replaced
    then (some (digests sha256 tree), record place { destination = some tree; partial = none })
    else (none, record place { partial = none })

-- `extract_archive`
unfoldable pub extract_archive :
    (Text → Text)
    → (max_members max_bytes : ℕ) → Bool
    → Archive
    → Place
    → Option (List (Text × Text)) × Place
unfolding unpack_archive settle exists
extract_archive sha256 max_members max_bytes allow_empty archive place =
    if max_members == 0 || exists place.destination || not place.parent || exists place.partial
    then (none, place)
    else settle sha256 (unpack_archive max_members max_bytes allow_empty archive) place
