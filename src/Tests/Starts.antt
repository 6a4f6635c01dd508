-- ===== src/Tests/Starts.antt =====
-- `start_download` and `start_upload` of remote_ssh_mcp/transfers.py at concrete inputs.
use remote_ssh_mcp_server.Prelude.Lists.{all}
use remote_ssh_mcp_server.Prelude.Text.{
  Text, codes, has_char, starts_with, split_on, text_eq, mem_text,
}
use remote_ssh_mcp_server.Prelude.{◌≡◌, ◌≢◌, ◌↔◌, refl, true, false, some, [], ◌∷◌}
use remote_ssh_mcp_server.Errors.{Result, ok, err}
use remote_ssh_mcp_server.LocalPaths.{
  FileSystem, LocalPath, relative, resolve_existing, resolve_destination, contained, display,
  internal_path,
}
use remote_ssh_mcp_server.Transfers.Operation.{TransferOperation, download}
use remote_ssh_mcp_server.Transfers.Remote.{check_remote_destination}
use remote_ssh_mcp_server.Transfers.Start.{Start, new_operation, prepare_download, prepare_upload}
use remote_ssh_mcp_server.Transfers.Start.Conflicts.{
  prepare_upload-conflicts, prepare_download-conflicts,
}

abbrev hash : Text
hash = codes "00112233445566778899aabbccddeeff00112233445566778899aabbccddeeff"

abbrev root : LocalPath
root = codes "home" ∷ []

-- Every path is a regular file and no link.
abbrev plain : FileSystem
plain = record {
  resolve = some;
  resolve_lenient = ok;
  is_file = λ p. ok true;
  is_dir = λ p. ok false;
  is_symlink = λ p. ok false;
  exists = λ p. ok true;
}

-- Every text has the same digest.
abbrev start_env : Text → Start
start_env cache_key = record {
  sha256_hex = λ t. hash;
  fs = plain;
  repository = root;
  cache_key = cache_key;
  ready = ok tt;
  operation_id = codes "op";
  now = 1;
}

-- The operation that is prepared.
abbrev get : Result TransferOperation → TransferOperation
get (ok op) = op
get (err e) = new_operation [] download [] [] false []

abbrev to_host : Text → TransferOperation
to_host cache_key = get (prepare_upload (start_env cache_key) (codes "a") (codes "/r/a") false)

prepare_upload-conflicts_example :
    ((to_host (codes "h1")).resource_key ≡ (to_host (codes "h2")).resource_key) ↔ (
      (codes "h1" ≡ codes "h2")
      × ((to_host (codes "h1")).remote_path ≡ (to_host (codes "h2")).remote_path))
unfolding prepare_upload relative has_char starts_with split_on text_eq mem_text resolve_existing
    check_remote_destination contained display
prepare_upload-conflicts_example =
    prepare_upload-conflicts (start_env (codes "h1")) (start_env (codes "h2")) (codes "a")
      (codes "/r/a") (codes "a") (codes "/r/a") false false (to_host (codes "h1"))
      (to_host (codes "h2")) refl refl refl refl

abbrev from_host : Text → TransferOperation
from_host cache_key = get (prepare_download (start_env cache_key) (codes "/r/a") (codes "a") true)

prepare_download-conflicts_example :
    (((from_host (codes "h1")).resource_key ≡ (from_host (codes "h2")).resource_key)
      ↔ ((from_host (codes "h1")).local_path ≡ (from_host (codes "h2")).local_path))
    × ((from_host (codes "h1")).resource_key ≢ (to_host (codes "h1")).resource_key)
unfolding prepare_download prepare_upload relative has_char starts_with split_on text_eq mem_text
    resolve_existing resolve_destination internal_path all check_remote_destination contained
    display
prepare_download-conflicts_example =
    prepare_download-conflicts (start_env (codes "h1")) (start_env (codes "h2"))
      (start_env (codes "h1")) (codes "/r/a") (codes "a") (codes "/r/a") (codes "a") (codes "/r/a")
      (codes "a") true true false (from_host (codes "h1")) (from_host (codes "h2"))
      (to_host (codes "h1")) refl refl refl
