-- ===== src/LocalPaths/Private.antt =====
-- `_ensure_private_directory` and `initialize` of remote_ssh_mcp/local_paths.py, against what the
-- calls of the file system give for each directory.
use remote_ssh_mcp_server.Prelude.Text.{codes}
use remote_ssh_mcp_server.Prelude.{
  ℕ, ◌≡◌, Bool, true, false, not, ◌&&◌, Option, none, some, [], ◌∷◌, ◌++◌, ◌==◌,
}
use remote_ssh_mcp_server.Errors.{
  Raised, remote, Result, ok, err, ◌>>=◌, ◌>>◌, require, invalid_local_path,
}
use remote_ssh_mcp_server.LocalPaths.{LocalPath, internal_directory}

-- What `lstat` says of a path.
pub record Metadata : Type 0 where
  pub is_dir : Bool
  pub is_link : Bool
  pub owner : ℕ

-- The answers for a path: `mkdir` raises nothing, `FileExistsError` or another error, `lstat` gives
-- nothing for an `OSError`, and `chmod` may raise.
pub data Mkdir : Type 0 where
  made exists : Mkdir
  fails : Raised → Mkdir

pub record Directory : Type 0 where
  pub mkdir : Mkdir
  pub lstat : Option Metadata
  pub chmod : Result (Unit {0})

mkdir_result : Mkdir → Result (Unit {0})
mkdir_result made = ok tt
mkdir_result exists = ok tt
mkdir_result (fails e) = err e

metadata_of : Option Metadata → Result Metadata
metadata_of none = err (remote invalid_local_path)
metadata_of (some m) = ok m

-- `_ensure_private_directory`: the call of `chmod` sets the mode 0700.
unfoldable pub ensure_private_directory : ℕ → Directory → Result (Unit {0})
unfolding mkdir_result metadata_of
ensure_private_directory uid d = do
  mkdir_result d.mkdir
  metadata ← metadata_of d.lstat
  require (metadata.is_dir && not metadata.is_link) invalid_local_path
  require (metadata.owner == uid) invalid_local_path
  d.chmod

-- `initialize`: the internal root, then `spool` and `partials` in it.
unfoldable pub initialize : ℕ → LocalPath → (LocalPath → Directory) → Result (Unit {0})
unfolding ensure_private_directory
initialize uid repository directory = do
  let internal_root = repository ++ (internal_directory ∷ [])
  ensure_private_directory uid (directory internal_root)
  ensure_private_directory uid (directory (internal_root ++ (codes "spool" ∷ [])))
  ensure_private_directory uid (directory (internal_root ++ (codes "partials" ∷ [])))

-- A real directory of the user, whose mode has been set.
pub record IsPrivate (uid : ℕ) (d : Directory) : Type 0 where
  pub metadata : Metadata
  pub seen : d.lstat ≡ some metadata
  pub real : (metadata.is_dir ≡ true) × (metadata.is_link ≡ false)
  pub owned : metadata.owner ≡ uid
  pub mode_set : d.chmod ≡ ok tt
