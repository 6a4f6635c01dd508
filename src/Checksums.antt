-- ===== src/Checksums.antt =====
-- tools/checksums.py: the inventory of a release. A directory is its regular files, with their bytes.
-- `sha256` stands for `hexdigest` of hashlib, and `none` for a `ChecksumError` or an `OSError`.
pub mod Written
pub mod RoundTrip
use remote_ssh_mcp_server.Prelude.Fallible.{◌>>=◌, ◌>>◌, check}
use remote_ssh_mcp_server.Prelude.Lists.{length, drop, all}
use remote_ssh_mcp_server.Prelude.Text.{Text, codes, text_eq, starts_with, mem_text}
use remote_ssh_mcp_server.Prelude.Lines.{split_lines}
use remote_ssh_mcp_server.Prelude.{
  ℕ, Bool, true, false, not, ◌&&◌, ◌||◌, Option, none, some, List, [], ◌∷◌, ◌++◌, leb, ◌==◌,
  if◌then◌else◌,
}

abbrev pub Files : Type 0
Files = List (Text × Text)

abbrev pub sums : Text
sums = codes "SHA256SUMS.txt"

abbrev pub expected_names : List Text
expected_names = codes "remote-ssh-mcp-linux-amd64" ∷ codes "remote-ssh-mcp-linux-arm64" ∷ []

-- `==` on sets
unfoldable pub all_in : List Text → List Text → Bool
unfolding mem_text
all_in [] names = true
all_in (n ∷ ns) names = mem_text n names && all_in ns names

unfoldable pub same_names : List Text → List Text → Bool
unfolding all_in
same_names a b = all_in a b && all_in b a

unfoldable pub actual : Files → List Text
actual [] = []
actual ((name, bytes) ∷ files) = name ∷ actual files

-- The files less the checksums
unfoldable pub artifacts : Files → List Text
unfolding text_eq
artifacts [] = []
artifacts ((name, bytes) ∷ files) =
    let rest = artifacts files in if text_eq name sums then rest else name ∷ rest

-- `read_bytes`, and a dict by its items
unfoldable pub content : Text → Files → Option Text
unfolding text_eq
content name [] = none
content name ((n, bytes) ∷ files) = if text_eq n name then some bytes else content name files

-- `write_text`
unfoldable pub put_file : Text → Text → Files → Files
unfolding text_eq
put_file name bytes [] = (name, bytes) ∷ []
put_file name bytes ((n, old) ∷ files) =
    let rest = put_file name bytes files in
    if text_eq n name then (n, bytes) ∷ files else (n, old) ∷ rest

unfoldable pub sums_text : (Text → Text) → Files → List Text → Option Text
unfolding content
sums_text sha256 files [] = some []
sums_text sha256 files (name ∷ names) = do
  bytes ← content name files
  rest ← sums_text sha256 files names
  some (sha256 bytes ++ (codes "  " ++ (name ++ (10 ∷ rest))))

-- `write`: the directory that it leaves
unfoldable pub write : (Text → Text) → Files → Option Files
unfolding same_names artifacts sums_text put_file
write sha256 files = do
  check (same_names (artifacts files) expected_names)
  text ← sums_text sha256 files expected_names
  some (put_file sums text files)

-- `line.partition("  ")`; there is no rest if there is no separator.
unfoldable pub partition_spaces : Text → Text × Option Text
unfolding starts_with
partition_spaces [] = ([], none)
partition_spaces (c ∷ t) =
    let (digest, rest) = partition_spaces t in
    if starts_with (c ∷ t) (codes "  ") then ([], some (drop 1 t)) else (c ∷ digest, rest)

unfoldable pub is_lower_hex : ℕ → Bool
is_lower_hex c = (leb 48 c && leb c 57) || (leb 97 c && leb c 102)

-- `SHA256.fullmatch(digest)`
unfoldable pub is_sha256 : Text → Bool
unfolding is_lower_hex all
is_sha256 digest = length digest == 64 && all is_lower_hex digest

abbrev pub is_free : Option Text → Bool
is_free none = true
is_free (some digest) = false

-- The loop over the lines: `parsed`, the latest first
unfoldable pub parse_lines : Files → List Text → Option Files
unfolding partition_spaces is_sha256 content text_eq
parse_lines parsed [] = some parsed
parse_lines parsed (line ∷ lines) = do
  name ← (partition_spaces line).1
  check (is_sha256 (partition_spaces line).0 && not (text_eq name []))
  check (is_free (content name parsed))
  parse_lines ((name, (partition_spaces line).0) ∷ parsed) lines

-- The last loop
unfoldable pub check_digests : (Text → Text) → Files → Files → Option (Unit {0})
unfolding content text_eq
check_digests sha256 files [] = some tt
check_digests sha256 files ((name, digest) ∷ parsed) = do
  bytes ← content name files
  check (text_eq (sha256 bytes) digest)
  check_digests sha256 files parsed

-- `verify`
unfoldable pub verify : (Text → Text) → Files → Option (Unit {0})
unfolding same_names actual content parse_lines check_digests split_lines
verify sha256 files = do
  check (same_names (actual files) (sums ∷ expected_names))
  text ← content sums files
  parsed ← parse_lines [] (split_lines false text)
  check (same_names (actual parsed) expected_names)
  check_digests sha256 files parsed
