-- ===== src/Tests/Transfers.antt =====
-- remote_ssh_mcp/transfers.py at concrete inputs.
use remote_ssh_mcp_server.Prelude.Int.{pos}
use remote_ssh_mcp_server.Prelude.Lists.{length}
use remote_ssh_mcp_server.Prelude.Text.{Text, codes, text_eq, mem_text}
use remote_ssh_mcp_server.Prelude.{◌≡◌, refl, true, false, none, some, [], ◌∷◌, ◌++◌, arith}
use remote_ssh_mcp_server.Errors.{ok}
use remote_ssh_mcp_server.Commands.Runner.{CommandResult}
use remote_ssh_mcp_server.Transfers.Operation.{
  set_state, TransferOperation, download, upload, cancelled, is_final,
}
use remote_ssh_mcp_server.Transfers.Manager.{Shared, find_operation}
use remote_ssh_mcp_server.Transfers.Manager.World.{World}
use remote_ssh_mcp_server.Transfers.Manager.Calls.{begin_close, end_close}
use remote_ssh_mcp_server.Transfers.Manager.Calls.Ended.{stays, end_close-ends}
use remote_ssh_mcp_server.Transfers.Task.{Job}
use remote_ssh_mcp_server.Prelude.Chars.{value}
use remote_ssh_mcp_server.Transfers.Progress.{last_progress}
use remote_ssh_mcp_server.Transfers.Progress.Finds.{Finds}
use remote_ssh_mcp_server.Transfers.Remote.{Rsync}
use remote_ssh_mcp_server.Transfers.Download.{DownloadEnv, missing, done}
use remote_ssh_mcp_server.Transfers.Download.Verified as Download
use remote_ssh_mcp_server.Transfers.Upload.{UploadEnv}
use remote_ssh_mcp_server.Transfers.Upload.Verified as Upload
use remote_ssh_mcp_server.Transfers.Start.{new_operation, download_key, upload_key}

abbrev rsync_window : Text
rsync_window = codes "  1,024  50%\r  2,048 100%"

last_progress_window : last_progress rsync_window ≡ some 2048
unfolding last_progress value
last_progress_window = refl

-- A file in two reads, and no cancellation.
abbrev digest : Text
digest = codes "00112233445566778899aabbccddeeff00112233445566778899aabbccddeeff"

abbrev output : Text → CommandResult
output raw = record {
  exit_code = pos 0;
  stdout = record { raw = raw; total_bytes = length raw; truncated = false; spool_path = none };
  stderr = record { raw = []; total_bytes = 0; truncated = false; spool_path = none };
  timed_out = false;
}

abbrev rsync : Rsync
rsync = record {
  ready = ok tt;
  spawned = ok tt;
  waited = ok (pos 0);
  stdout = [];
  stderr = [];
  ready_again = ok tt;
}

abbrev operation : TransferOperation
operation =
    record (new_operation (codes "op1") download (codes "a") (codes "/r/a") false
      (download_key (codes "a"))) { reserved = true; task = true }

abbrev job : Job
job = record { operation = operation; claimed = operation.resource_key ∷ []; published = [] }

abbrev download_env : DownloadEnv
download_env = record {
  started = 1;
  stat_type = ok (codes "regular file");
  stat_size = 3;
  partial = missing;
  free_bytes = ok 1000;
  rsync = rsync;
  partial_size = ok 3;
  verified = 2;
  remote_hash = ok (output (digest ++ codes "  /r/a"));
  local_hash = ok digest;
  destination = ok (codes "/home/a");
  replace = done;
  link = done;
  unlink = done;
  at_end = none;
  ended = 3;
}

abbrev upload_env : UploadEnv
upload_env = record {
  started = 1;
  stat_size = ok 3;
  is_file = true;
  exists = ok (output []);
  prepared = ok (output (codes "0"));
  local_hash = ok digest;
  rsync = rsync;
  verified = 2;
  remote_hash = ok (output (digest ++ codes "  /r/a.partial"));
  publish = record { mv = pos 0; ln = true; final_exists = false; rm = true; reply = ok tt };
  ended = 3;
}

abbrev up_operation : TransferOperation
up_operation =
    record (new_operation (codes "op2") upload (codes "a") (codes "/r/a") false
      (upload_key (codes "host") (codes "/r/a"))) { reserved = true; task = true }

abbrev up_job : Job
up_job = record {
  operation = up_operation;
  claimed = up_operation.resource_key ∷ [];
  published = [];
}

abbrev fresh : TransferOperation
fresh = record operation { reserved = false }

-- Another session holds one key when the operation is registered.
abbrev registered : World
registered = record {
  shared = record {
    manager = record {
      max_transfers = 2;
      completed_ttl = 3600;
      operations = record fresh { reserved = true } ∷ [];
      closed = false;
    };
    claimed = operation.resource_key ∷ codes "other" ∷ [];
  };
  others = codes "other" ∷ [];
}

abbrev closing : TransferOperation
closing = record operation {
  state = cancelled;
  cancel_event = true;
  reserved = false;
  finished_at = some 9;
  finished_monotonic = some 9;
}

-- Every operation of the registered world has its task.
abbrev closed : Shared
closed = record registered.shared { manager = (begin_close registered.shared.manager).1 }

closed-task :
    (j : Text) (o : TransferOperation)
    → find_operation j closed.manager.operations ≡ some o
    → o.task ≡ true
unfolding begin_close find_operation new_operation mem_text text_eq
closed-task j o h = ground arith

end_close-ends_example : is_final closing.state ≡ true
unfolding begin_close find_operation new_operation mem_text text_eq end_close set_state
end_close-ends_example =
    end_close-ends 9 registered.shared closed (codes "op1") closing refl closed-task stays refl
