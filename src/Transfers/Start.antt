-- ===== src/Transfers/Start.antt =====
-- `start_download` and `start_upload` of remote_ssh_mcp/transfers.py, the resource keys by which
-- operations conflict, and `_partial_token`. `sha256_hex` is the `hexdigest` of hashlib.
pub mod Conflicts
use remote_ssh_mcp_server.Prelude.Lists.{take}
use remote_ssh_mcp_server.Prelude.Text.{Text, codes}
use remote_ssh_mcp_server.Prelude.Chars.{encode}
use remote_ssh_mcp_server.Prelude.{ℕ, Bool, true, false, Option, none, some, List, [], ◌∷◌, ◌++◌}
use remote_ssh_mcp_server.Errors.{Raised, Result, ok, err, ◌>>=◌, ◌>>◌}
use remote_ssh_mcp_server.LocalPaths.{
  LocalPath, FileSystem, resolve_existing, resolve_destination, internal_path, display,
}
use remote_ssh_mcp_server.Transfers.Operation.{
  Direction, download, upload, pending, TransferOperation,
}
use remote_ssh_mcp_server.Transfers.Manager.{
  TransferManager, Shared, register, find_operation, store,
}
use remote_ssh_mcp_server.Transfers.Remote.{check_remote_path, check_remote_destination}

-- `f"download\0{display}"`
unfoldable pub download_key : Text → Text
download_key shown = codes "download" ++ (0 ∷ shown)

-- `f"upload\0{cache_key}\0{remote}"`
unfoldable pub upload_key : Text → Text → Text
upload_key cache_key remote = codes "upload" ++ (0 ∷ (cache_key ++ (0 ∷ remote)))

token_input : List Text → Text
token_input [] = []
token_input (value ∷ values) = encode value ++ (0 ∷ token_input values)

-- `_partial_token`
unfoldable pub partial_token : (Text → Text) → List Text → Text
unfolding token_input
partial_token sha256_hex values = take 32 (sha256_hex (token_input values))

-- A new `TransferOperation`.
unfoldable pub new_operation : Text → Direction → Text → Text → Bool → Text → TransferOperation
new_operation id direction local remote overwrite key = record {
  operation_id = id;
  direction = direction;
  local_path = local;
  remote_path = remote;
  overwrite = overwrite;
  state = pending;
  started_at = none;
  finished_at = none;
  bytes_transferred = 0;
  total_bytes = none;
  sha256 = none;
  exit_code = none;
  stdout_tail = [];
  stderr_tail = [];
  error = none;
  resource_key = key;
  partial_path = [];
  task = false;
  cancel_event = false;
  finished_monotonic = none;
  reserved = false;
}

-- What the policy, the master and the process give to a start.
pub record Start : Type 0 where
  pub sha256_hex : Text → Text
  pub fs : FileSystem
  pub repository : LocalPath
  pub cache_key : Text
  pub ready : Result (Unit {0})
  pub operation_id : Text
  pub now : ℕ

path_text : List Text → Text
path_text [] = []
path_text (p ∷ ps) = b'/' ∷ (p ++ path_text ps)

-- The operation of `start_download` before it is registered.
unfoldable pub prepare_download : Start → Text → Text → Bool → Result TransferOperation
unfolding check_remote_path resolve_destination display internal_path partial_token download_key
    path_text new_operation
prepare_download c remote_path local_path overwrite = do
  remote ← check_remote_path remote_path
  destination ← resolve_destination c.fs c.repository overwrite local_path
  shown ← display c.fs c.repository destination
  c.ready
  let token = partial_token c.sha256_hex (codes "download" ∷ c.cache_key ∷ remote ∷ shown ∷ [])
  partial ← internal_path c.repository (codes "partials") token (codes ".download")
  ok (record (new_operation c.operation_id download shown remote overwrite (download_key shown)) {
    partial_path = path_text partial;
  })

-- The operation of `start_upload` before it is registered; `partial_path` is `_remote_partial`.
unfoldable pub prepare_upload : Start → Text → Text → Bool → Result TransferOperation
unfolding check_remote_destination resolve_existing display partial_token upload_key new_operation
prepare_upload c local_path remote_path overwrite = do
  source ← resolve_existing c.fs c.repository true local_path
  remote ← check_remote_destination remote_path
  shown ← display c.fs c.repository source
  c.ready
  let token = partial_token c.sha256_hex (codes "upload" ∷ c.cache_key ∷ shown ∷ remote ∷ [])
  ok
      (record (new_operation c.operation_id upload shown remote overwrite
        (upload_key c.cache_key remote)) {
          partial_path = remote ++ (codes ".remote-ssh-mcp-" ++ (token ++ codes ".partial"));
        })

-- `operation._task = asyncio.create_task(…)`
with_task : TransferOperation → Shared → Shared
with_task op s = record s {
  manager = record s.manager {
    operations = store (record op { reserved = true; task = true }) s.manager.operations;
  };
}

-- `self._register(operation)` and the start of the task.
unfoldable pub launch : ℕ → Result TransferOperation → Shared → Result (Unit {0}) × Shared
unfolding register with_task store
launch now (err e) s = (err e, s)
launch now (ok op) s = started (register now op s)
  where
    started : Result (Unit {0}) × Shared → Result (Unit {0}) × Shared
    started (ok _, t) = (ok tt, with_task op t)
    started (err e, t) = (err e, t)

-- `start_download`
unfoldable pub start_download : Start → Text → Text → Bool → Shared → Result (Unit {0}) × Shared
unfolding prepare_download launch
start_download c remote_path local_path overwrite s =
    launch c.now (prepare_download c remote_path local_path overwrite) s

-- `start_upload`
unfoldable pub start_upload : Start → Text → Text → Bool → Shared → Result (Unit {0}) × Shared
unfolding prepare_upload launch
start_upload c local_path remote_path overwrite s =
    launch c.now (prepare_upload c local_path remote_path overwrite) s
