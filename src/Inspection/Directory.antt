-- ===== src/Inspection/Directory.antt =====
-- `list_directory` of remote_ssh_mcp/inspection.py. `is_float` says which texts `float` takes; a
-- modification time is the text that it is read from.
pub mod Numbers
pub mod Listing
use Prim.Native.Nat.{◌%◌}
use remote_ssh_mcp_server.Prelude.Int.{ℤ, is_status}
use remote_ssh_mcp_server.Prelude.Lists.{length}
use remote_ssh_mcp_server.Prelude.Text.{Text, codes, text_eq, split_on}
use remote_ssh_mcp_server.Prelude.Encoding.{ascii_replace}
use remote_ssh_mcp_server.Prelude.{ℕ, Bool, not, List, [], ◌∷◌, ◌==◌, if◌then◌else◌}
use remote_ssh_mcp_server.Errors.{
  remote, Result, ok, err, ◌>>=◌, ◌>>◌, require, invalid_remote_type, remote_path_not_found,
  output_limit_exceeded, remote_protocol_error,
}
use remote_ssh_mcp_server.Commands.Runner.{CommandResult}
use remote_ssh_mcp_server.Commands.Encoded.{EncodedData, encoded_bytes}
use remote_ssh_mcp_server.Transfers.Remote.{check_remote_path}
use remote_ssh_mcp_server.Inspection.{Stat, int_of, or_protocol_error}

pub record DirectoryEntry : Type 0 where
  pub name : EncodedData
  pub kind : Text
  pub size : ℤ
  pub mtime : Text

pub record Directory : Type 0 where
  pub path : Text
  pub entries : List DirectoryEntry
  pub count : ℕ

-- `if fields and fields[-1] == b"": fields.pop()`
unfoldable pub pop_empty : List Text → List Text
unfolding text_eq
pop_empty [] = []
pop_empty (field ∷ []) = if text_eq field [] then [] else field ∷ []
pop_empty (field ∷ next ∷ fields) = field ∷ pop_empty (next ∷ fields)

-- The loop over the fields, four at a time. Fewer are left only where their number has been refused.
unfoldable pub read_entries : (Text → Bool) → List Text → Result (List DirectoryEntry)
unfolding int_of or_protocol_error encoded_bytes ascii_replace
read_entries is_float [] = ok []
read_entries is_float (a ∷ b ∷ c ∷ d ∷ fields) = do
  size ← or_protocol_error (int_of 10 c)
  require (is_float d) remote_protocol_error
  entries ← read_entries is_float fields
  ok (record { name = encoded_bytes a; kind = ascii_replace b; size = size; mtime = d } ∷ entries)
read_entries is_float _ = err (remote remote_protocol_error)

-- `list_directory`: `metadata` is what `stat` gives, and `answer` what the `find` command gives.
unfoldable pub list_directory :
    (Text → Bool) → Text → Result Stat → Result CommandResult → Result Directory
unfolding check_remote_path text_eq pop_empty split_on read_entries
list_directory is_float remote_path metadata answer = do
  path ← check_remote_path remote_path
  found ← metadata
  require (text_eq found.kind (codes "directory")) invalid_remote_type
  result ← answer
  require (is_status 0 result.exit_code) remote_path_not_found
  require (not result.stdout.truncated) output_limit_exceeded
  let fields = pop_empty (split_on 0 result.stdout.raw)
  require (length fields % 4 == 0) remote_protocol_error
  entries ← read_entries is_float fields
  ok (record { path = path; entries = entries; count = length entries })
