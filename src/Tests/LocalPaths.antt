-- ===== src/Tests/LocalPaths.antt =====
-- remote_ssh_mcp/local_paths.py at concrete inputs.
use remote_ssh_mcp_server.Prelude.Text.{codes, has_char, starts_with, split_on, text_eq, mem_text}
use remote_ssh_mcp_server.Prelude.{◌≡◌, ◌⊎◌, refl, true, false, some, [], ◌∷◌, ◌++◌}
use remote_ssh_mcp_server.Errors.{ok}
use remote_ssh_mcp_server.LocalPaths.{
  LocalPath, FileSystem, internal_directory, relative, resolve_existing, resolve_destination,
}
use remote_ssh_mcp_server.LocalPaths.Private.{Directory, made}
use remote_ssh_mcp_server.LocalPaths.Contained.{
  IsBelow, resolve_existing-contained, IsDestination, resolve_destination-contained,
  resolve_existing-internal,
}

abbrev root : LocalPath
root = codes "home" ∷ codes "work" ∷ []

-- No symbolic links, and every path is a regular file.
abbrev plain : FileSystem
plain = record {
  resolve = some;
  resolve_lenient = ok;
  is_file = λ p. ok true;
  is_dir = λ p. ok false;
  is_symlink = λ p. ok false;
  exists = λ p. ok true;
}

-- `link` is a symbolic link to the internal directory.
abbrev linked : FileSystem
linked = record plain { resolve = λ p. some (root ++ (internal_directory ∷ codes "spool" ∷ [])) }

resolve_existing-contained_example :
    IsBelow root (root ++ (codes "a" ∷ []))
    × ((parts : LocalPath) × (relative (codes "a") ≡ ok parts)
        × (plain.resolve (root ++ parts) ≡ some (root ++ (codes "a" ∷ []))))
    × ((true ≡ false) ⊎ (plain.is_file (root ++ (codes "a" ∷ [])) ≡ ok true))
unfolding relative resolve_existing has_char starts_with split_on text_eq mem_text
resolve_existing-contained_example =
    resolve_existing-contained plain root true (codes "a") (root ++ (codes "a" ∷ [])) refl

resolve_destination-contained_example :
    (parts : LocalPath) × (relative (codes "a/b") ≡ ok parts)
    × IsDestination plain root true parts (root ++ (codes "a" ∷ codes "b" ∷ []))
unfolding relative resolve_destination has_char starts_with split_on text_eq mem_text
resolve_destination-contained_example =
    resolve_destination-contained plain root true (codes "a/b")
      (root ++ (codes "a" ∷ codes "b" ∷ [])) refl

resolve_existing-internal_example :
    resolve_existing linked root false (codes "link")
    ≡ ok (root ++ (internal_directory ∷ codes "spool" ∷ []))
unfolding relative has_char starts_with split_on text_eq mem_text
resolve_existing-internal_example =
    resolve_existing-internal linked root (codes "link") (codes "link" ∷ []) (codes "spool" ∷ [])
      refl refl

-- Every directory can be made.
abbrev private : LocalPath → Directory
private path = record {
  mkdir = made;
  lstat = some (record { is_dir = true; is_link = false; owner = 1000 });
  chmod = ok tt;
}
