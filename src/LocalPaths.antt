-- ===== src/LocalPaths.antt =====
-- `LocalPathPolicy` of remote_ssh_mcp/local_paths.py. A path is absolute and a list of parts below
-- the file system's root; what `pathlib` asks the file system for is a parameter.
pub mod Relative
pub mod Contained
pub mod Private
use remote_ssh_mcp_server.Prelude.Lists.{all, is_nil}
use remote_ssh_mcp_server.Prelude.Text.{
  Text, codes, text_eq, starts_with, has_char, mem_text, split_on,
}
use remote_ssh_mcp_server.Prelude.{
  Bool, true, false, not, ◌&&◌, ◌||◌, Option, none, some, List, [], ◌∷◌, ◌++◌, leb, if◌then◌else◌,
}
use remote_ssh_mcp_server.Errors.{
  Raised, remote, other_error, Result, ok, err, ◌>>=◌, ◌>>◌, require, invalid_local_path,
  local_path_exists,
}

abbrev pub LocalPath : Type 0
LocalPath = List Text

abbrev pub internal_directory : Text
internal_directory = codes ".remote-ssh-mcp"

-- `Path.resolve(strict=True)`, `Path.resolve(strict=False)` and the tests on paths. An error of the
-- first is an `OSError` or a `RuntimeError`.
pub record FileSystem : Type 0 where
  pub resolve : LocalPath → Option LocalPath
  pub resolve_lenient : LocalPath → Result LocalPath
  pub is_file : LocalPath → Result Bool
  pub is_dir : LocalPath → Result Bool
  pub is_symlink : LocalPath → Result Bool
  pub exists : LocalPath → Result Bool

unfoldable pub drop_dots : List Text → List Text
drop_dots [] = []
drop_dots (p ∷ ps) =
    let rest = drop_dots ps in if is_nil p || text_eq p (codes ".") then rest else p ∷ rest

-- The `parts` of `Path(value)` for a value that is not absolute.
unfoldable pub parts_of : Text → List Text
unfolding drop_dots
parts_of value = drop_dots (split_on b'/' value)

-- The tests of `_relative` on the parts.
check_parts : List Text → Result (List Text)
check_parts [] = err (remote invalid_local_path)
check_parts (p ∷ ps) =
    if mem_text (codes "..") (p ∷ ps)
    then err (remote invalid_local_path)
    else if text_eq p internal_directory
    then err (remote invalid_local_path)
    else ok (p ∷ ps)

-- `_relative`
unfoldable pub relative : Text → Result (List Text)
unfolding parts_of check_parts
relative value =
    if is_nil value || has_char 0 value
    then err (remote invalid_local_path)
    else if starts_with value (codes "/")
    then err (remote invalid_local_path)
    else check_parts (parts_of value)

-- `path.relative_to(base)`: the parts behind those of the base.
unfoldable pub relative_to : LocalPath → LocalPath → Option LocalPath
relative_to base [] = if is_nil base then some [] else none
relative_to [] (p ∷ ps) = some (p ∷ ps)
relative_to (b ∷ bs) (p ∷ ps) = let rest = relative_to bs ps in if text_eq b p then rest else none

-- `_contained`
unfoldable pub contained : LocalPath → LocalPath → Result LocalPath
unfolding relative_to
contained repository path = elim (relative_to repository path) [
  | none ↦ err (remote invalid_local_path)
  | some rest ↦ ok path
]

-- `path.parent` and `path.name`
unfoldable pub parent_of : LocalPath → LocalPath
parent_of [] = []
parent_of (p ∷ ps) = let rest = parent_of ps in if is_nil ps then [] else p ∷ rest

unfoldable pub name_of : LocalPath → Text
name_of [] = []
name_of (p ∷ ps) = let rest = name_of ps in if is_nil ps then p else rest

-- `try: path.resolve(strict=True) except (OSError, RuntimeError): raise …`
resolved : FileSystem → LocalPath → Result LocalPath
resolved fs path = elim (fs.resolve path) [ none ↦ err (remote invalid_local_path) | some p ↦ ok p ]

require_file_at : Bool → FileSystem → LocalPath → Result (Unit {0})
require_file_at false fs path = ok tt
require_file_at true fs path = do is_file ← fs.is_file path; require is_file invalid_local_path

-- `resolve_existing`
unfoldable pub resolve_existing : FileSystem → LocalPath → Bool → Text → Result LocalPath
unfolding relative resolved contained require_file_at
resolve_existing fs repository require_file value = do
  parts ← relative value
  path ← resolved fs (repository ++ parts)
  _ ← contained repository path
  require_file_at require_file fs path
  ok path

-- `if destination.exists() and not overwrite: raise …`, then the same for a directory.
check_existing : FileSystem → Bool → LocalPath → Bool → Result (Unit {0})
check_existing fs overwrite destination false = ok tt
check_existing fs overwrite destination true = do
  require overwrite local_path_exists
  is_dir ← fs.is_dir destination
  require (not is_dir) invalid_local_path

-- `resolve_destination`
unfoldable pub resolve_destination : FileSystem → LocalPath → Bool → Text → Result LocalPath
unfolding relative resolved contained check_existing parent_of name_of
resolve_destination fs repository overwrite value = do
  parts ← relative value
  let candidate = repository ++ parts
  parent ← resolved fs (parent_of candidate)
  _ ← contained repository parent
  let destination = parent ++ (name_of candidate ∷ [])
  is_symlink ← fs.is_symlink destination
  require (not is_symlink) invalid_local_path
  exists ← fs.exists destination
  check_existing fs overwrite destination exists
  ok destination

is_hex : Text → Bool
is_hex = all (λ c. (leb b'0' c && leb c b'9') || (leb b'a' c && leb c b'f'))

-- `internal_path`: a `ValueError` for a category or a token that is not allowed.
unfoldable pub internal_path : LocalPath → Text → Text → Text → Result LocalPath
unfolding is_hex contained parts_of mem_text
internal_path repository category token suffix =
    if not (mem_text category (codes "spool" ∷ codes "partials" ∷ []))
    then err other_error
    else if is_nil token || not (is_hex token)
    then err other_error
    else contained repository
        (repository ++ (internal_directory ∷ category ∷ parts_of (token ++ suffix)))

-- `new_spool_path`: `token` is what `secrets.token_hex(16)` gives.
unfoldable pub new_spool_path : LocalPath → Text → Text → Result LocalPath
unfolding internal_path mem_text
new_spool_path repository token stream_name =
    if mem_text stream_name (codes "stdout" ∷ codes "stderr" ∷ [])
    then internal_path repository (codes "spool") token (codes "." ++ stream_name)
    else err other_error

unfoldable pub join : List Text → Text
join [] = codes "."
join (p ∷ []) = p
join (p ∷ q ∷ ps) = p ++ (b'/' ∷ join (q ∷ ps))

-- `display`: `str` of the path below the repository.
unfoldable pub display : FileSystem → LocalPath → LocalPath → Result Text
unfolding relative_to join
display fs repository path = do
  p ← fs.resolve_lenient path
  elim (relative_to repository p) [
    | none ↦ err (remote invalid_local_path)
    | some rest ↦ ok (join rest)
  ]
