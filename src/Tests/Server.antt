-- ===== src/Tests/Server.antt =====
-- remote_ssh_mcp/server.py at concrete inputs.
use remote_ssh_mcp_server.Prelude.Text.{Text, codes, starts_with, has_char, text_eq}
use remote_ssh_mcp_server.Prelude.{ℕ, suc, ◌≡◌, ◌⊎◌, refl, true, false, none, some, [], ◌∷◌}
use remote_ssh_mcp_server.Errors.{remote, ok, err, connection_lost, invalid_session_key}
use remote_ssh_mcp_server.Transfers.Operation.{download, running}
use remote_ssh_mcp_server.Server.Models.{InputModel, stat_model, stat_input}
use remote_ssh_mcp_server.Sessions.Manager.{authorize, started, new_session}
use remote_ssh_mcp_server.Server.Validation.{validation_message}
use remote_ssh_mcp_server.Server.Validation.Silent.{
  no_details, both_extra, validation_message-Alike,
}
use remote_ssh_mcp_server.Server.Tools.{stat_response, tool_definitions, find_tool}
use remote_ssh_mcp_server.Server.Environment.{App, Call, Environment}
use remote_ssh_mcp_server.Server.Dispatch.{Validated, instance_of, error_result, call_tool}
use remote_ssh_mcp_server.Server.Dispatch.Answers.{expected, IsAnswered, call_tool-IsAnswered}
use remote_ssh_mcp_server.Server.Dispatch.Guarded.{
  IsOpenName, IsRejected, HoldsKey, call_tool-guarded,
}
use remote_ssh_mcp_server.Tests.Sessions.{digest, key, connected, connected-Reach}
use remote_ssh_mcp_server.Server.Redact.{Master, TransferData, public_transfer}
use remote_ssh_mcp_server.Server.Redact.Hidden.{IsPlain, IsHidden, public_transfer-hides}

-- A directory of the master in the local root.
abbrev root : Text
root = codes "/srv/x"

abbrev master : Master
master = record { runtime_dir = some (codes "/run/u/m"); control_path = some (codes "/run/u/m/c") }

abbrev progress : TransferData
progress = record {
  operation_id = codes "op";
  direction = download;
  state = running;
  local_path = codes "a";
  remote_path = codes "/b";
  overwrite = false;
  started_at = some 1;
  finished_at = none;
  bytes_transferred = 0;
  total_bytes = none;
  sha256 = none;
  exit_code = none;
  stdout_tail = codes "to /srv/x/a";
  stderr_tail = codes "ssh -S /run/u/m/c /run/u//srv/xm";
  error = none;
}

abbrev shown : TransferData
shown = public_transfer root master progress

root-IsPlain : IsPlain root
unfolding has_char
root-IsPlain = record { rest = codes "srv/x"; absolute = refl; unmarked = refl }

runtime-IsPlain : IsPlain (codes "/run/u/m")
unfolding has_char
runtime-IsPlain = record { rest = codes "run/u/m"; absolute = refl; unmarked = refl }

control-IsPlain : IsPlain (codes "/run/u/m/c")
unfolding has_char
control-IsPlain = record { rest = codes "run/u/m/c"; absolute = refl; unmarked = refl }

public_transfer-hides_example :
    IsHidden root master shown.stdout_tail
    × IsHidden root master shown.stderr_tail
    × (record shown { stdout_tail = progress.stdout_tail; stderr_tail = progress.stderr_tail }
        ≡ progress)
public_transfer-hides_example =
    public_transfer-hides root master progress root-IsPlain runtime-IsPlain control-IsPlain

public_transfer_shows : shown.stdout_tail ≡ codes "to <repository>/a"
unfolding public_transfer starts_with
public_transfer_shows = refl

-- Every service answers `connection_lost`, and the services' state counts the calls.
abbrev no_connection : {A : Type 0} → Call ℕ A
no_connection app = (err (remote connection_lost), record app { services = suc app.services })

abbrev env : Environment Text ℕ
env = record {
  key_digest = digest;
  now = λ app. 5;
  repository_root = root;
  max_output_bytes = 1024;
  decode = λ t. t;
  connections = record { from_alias = ok; from_direct = λ host user port. ok host };
  state_value = λ state. codes "ready";
  facts = λ app s. record {
    connection = codes "h";
    pid = none;
    created_at = 0;
    active_commands = 0;
    active_transfers = 0;
  };
  master = λ app s. master;
  connect = λ spec. no_connection;
  disconnect = λ id. no_connection;
  list_sessions = no_connection;
  execute = λ s r. no_connection;
  sudo_execute = λ s r. no_connection;
  stat = λ s path. no_connection;
  list_directory = λ s path. no_connection;
  read_file_range = λ s path offset max_bytes. no_connection;
  start_download = λ s r. no_connection;
  start_upload = λ s r. no_connection;
  transfer_status = λ s id. no_connection;
  cancel = λ s id. no_connection;
  list_transfers = λ s. no_connection;
}

-- The arguments are the key that is passed with the session's id.
abbrev validate : InputModel → Text → Validated
validate model passed = instance_of (
    stat_input (record {
      session = record { session_id = codes "id1"; session_key = passed };
      remote_path = codes "/etc";
    }))

abbrev app : App ℕ
app = record { manager = connected.manager; services = 0 }

call_tool-guarded_example :
    IsOpenName (codes "stat")
    ⊎ IsRejected validate env (codes "stat") key app
    ⊎ HoldsKey validate env (codes "stat") key app connected.issued
call_tool-guarded_example =
    call_tool-guarded validate env (λ k l e. e) 2 connected connected-Reach (codes "stat") key app
      refl

-- With another key the service is not called.
call_tool_refuses :
    call_tool validate env (codes "stat") (codes "k2") app
    ≡ (ok (error_result stat_response invalid_session_key none), app)
unfolding call_tool authorize started new_session text_eq
call_tool_refuses = refl

-- With the key it is.
call_tool_calls : (call_tool validate env (codes "stat") key app).1.services ≡ 1
unfolding call_tool authorize started new_session text_eq
call_tool_calls = refl

call_tool-IsAnswered_example :
    IsAnswered
      (expected (find_tool (codes "stat") tool_definitions))
      (call_tool validate env (codes "stat") key app).0
call_tool-IsAnswered_example = call_tool-IsAnswered validate env (codes "stat") key app

validation_message-Alike_example :
    validation_message stat_model
      (record { loc = some (codes "secret"); extra_forbidden = true } ∷ [])
    ≡ validation_message stat_model (record { loc = some (codes "x"); extra_forbidden = true } ∷ [])
validation_message-Alike_example =
    validation_message-Alike stat_model
      (record { loc = some (codes "secret"); extra_forbidden = true } ∷ [])
      (record { loc = some (codes "x"); extra_forbidden = true } ∷ [])
      (both_extra (record { loc = some (codes "secret"); extra_forbidden = true })
        (record { loc = some (codes "x"); extra_forbidden = true }) refl refl no_details)
