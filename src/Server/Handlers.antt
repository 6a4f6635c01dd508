-- ===== src/Server/Handlers.antt =====
-- `RemoteSSHApplication` and the handlers of remote_ssh_mcp/server.py.
pub mod Answered
pub mod Answers
pub mod Refused
use remote_ssh_mcp_server.Prelude.Text.{Text}
use remote_ssh_mcp_server.Prelude.{
  ℕ, min, Bool, true, Option, none, some, List, [], ◌∷◌, if◌then◌else◌,
}
use mathlib.Core.List.{map}
use remote_ssh_mcp_server.Errors.{Code, other_error, Result, ok, err}
use remote_ssh_mcp_server.Commands.Runner.{CommandResult}
use remote_ssh_mcp_server.Commands.Encoded.{result_dict}
use remote_ssh_mcp_server.Inspection.{Stat, FileRange}
use remote_ssh_mcp_server.Inspection.Directory.{Directory}
use remote_ssh_mcp_server.Sessions.Session.{ConnectionState, RemoteSession}
use remote_ssh_mcp_server.Sessions.Manager.{SessionManager, authorize}
use remote_ssh_mcp_server.Transfers.Operation.{TransferOperation}
use remote_ssh_mcp_server.Server.Models.{
  SessionInput, ConnectInput, ExecInput, ReadFileRangeInput, TransferStartInput, Request,
  empty_input, connect_input, disconnect_input, session_input, exec_input, stat_input,
  list_directory_input, read_file_range_input, download_start_input, upload_start_input,
  transfer_id_input, session_of, Connections, connection_spec, Facts, SessionData, status,
}
use remote_ssh_mcp_server.Server.Redact.{Master, TransferData, transfer_dict, public_transfer}
use remote_ssh_mcp_server.Server.Tools.{
  OutputModel, connect_response, session_response, session_list_response, command_response,
  stat_response, directory_response, read_file_range_response, transfer_response,
  transfer_list_response, Handler, on_connect, on_disconnect, on_session_list, on_exec,
  on_sudo_exec, on_stat, on_list_directory, on_read_file_range, on_download_start, on_upload_start,
  on_transfer_status, on_transfer_cancel, on_transfer_list,
}
use remote_ssh_mcp_server.Server.Environment.{
  App, Call, resume, ◌>>=◌, Environment, Data, connect_data, session_data, session_list_data,
  command_data, stat_data, directory_data, read_file_range_data, transfer_data, transfer_list_data,
  PublicError, Response,
}

module _ {Spec S : Type 0} (env : Environment Spec S) where
  abbrev pub Handling : Type 0
  Handling = Call S (Response Spec)

  unfoldable pub respond : OutputModel → Data Spec → Handling
  respond model value app =
      (ok (record { model = model; succeeded = true; result = some value; error = none }), app)

  -- `assert isinstance(request, …)`, when it fails
  unfoldable pub assertion_error : Handling
  assertion_error app = (err other_error, app)

  -- `require_session`
  unfoldable pub require_session : SessionInput → Call S RemoteSession
  unfolding authorize
  require_session request app =
      let (outcome, manager) =
        authorize env.key_digest (env.now app) request.session_id request.session_key app.manager in
      (outcome, record app { manager = manager })

  shown : App S → RemoteSession → SessionData Spec
  unfolding status
  shown app session = status env.state_value (env.facts app session) session

  -- `_session_list`
  unfoldable pub session_list_tool : Request → Handling
  unfolding respond assertion_error shown
  session_list_tool empty_input = do
    sessions ← env.list_sessions
    λ app. respond session_list_response (session_list_data (map (shown app) sessions)) app
  session_list_tool _ = assertion_error

  connect_answer : RemoteSession × Text → Handling
  unfolding respond shown
  connect_answer (session, key) app =
      respond connect_response (connect_data (shown app session) key) app

  -- `_connect`
  unfoldable pub connect_tool : Request → Handling
  unfolding assertion_error connect_answer connection_spec
  connect_tool (connect_input request) = do
    spec ← λ app. (connection_spec env.connections request, app)
    pair ← env.connect spec
    connect_answer pair
  connect_tool _ = assertion_error

  -- `_disconnect`
  unfoldable pub disconnect_tool : Request → Handling
  unfolding respond assertion_error shown
  disconnect_tool (disconnect_input session_id) = do
    session ← env.disconnect session_id
    λ app. respond session_response (session_data (shown app session)) app
  disconnect_tool _ = assertion_error

  -- `_exec`
  unfoldable pub exec_tool : Request → Handling
  unfolding respond assertion_error require_session
  exec_tool (exec_input request) = do
    session ← require_session request.session
    result ← env.execute session request
    respond command_response (command_data (result_dict result))
  exec_tool _ = assertion_error

  -- `_sudo_exec`
  unfoldable pub sudo_exec_tool : Request → Handling
  unfolding respond assertion_error require_session
  sudo_exec_tool (exec_input request) = do
    session ← require_session request.session
    result ← env.sudo_execute session request
    respond command_response (command_data (result_dict result))
  sudo_exec_tool _ = assertion_error

  -- `_stat`
  unfoldable pub stat_tool : Request → Handling
  unfolding respond assertion_error require_session
  stat_tool (stat_input request) = do
    session ← require_session request.session
    found ← env.stat session request.remote_path
    respond stat_response (stat_data found)
  stat_tool _ = assertion_error

  -- `_list_directory`
  unfoldable pub list_directory_tool : Request → Handling
  unfolding respond assertion_error require_session
  list_directory_tool (list_directory_input request) = do
    session ← require_session request.session
    listing ← env.list_directory session request.remote_path
    respond directory_response (directory_data listing)
  list_directory_tool _ = assertion_error

  -- The `max_bytes` of `_read_file_range`: the default yields to the configured limit.
  unfoldable pub range_limit : ReadFileRangeInput → ℕ
  range_limit request =
      if request.max_bytes_set
      then request.max_bytes
      else min request.max_bytes env.max_output_bytes

  -- `_read_file_range`
  unfoldable pub read_file_range_tool : Request → Handling
  unfolding respond assertion_error require_session range_limit
  read_file_range_tool (read_file_range_input request) = do
    session ← require_session request.session
    range ← env.read_file_range session request.remote_path request.offset (range_limit request)
    respond read_file_range_response (read_file_range_data range)
  read_file_range_tool _ = assertion_error

  -- What a client sees of an operation.
  unfoldable pub seen : App S → RemoteSession → TransferOperation → TransferData
  unfolding public_transfer transfer_dict
  seen app session op =
      public_transfer env.repository_root (env.master app session) (transfer_dict env.decode op)

  transfer_answer : RemoteSession → TransferOperation → Handling
  unfolding respond seen
  transfer_answer session op app =
      respond transfer_response (transfer_data (seen app session op)) app

  -- `_download_start`
  unfoldable pub download_start_tool : Request → Handling
  unfolding assertion_error require_session transfer_answer
  download_start_tool (download_start_input request) = do
    session ← require_session request.session
    op ← env.start_download session request
    transfer_answer session op
  download_start_tool _ = assertion_error

  -- `_upload_start`
  unfoldable pub upload_start_tool : Request → Handling
  unfolding assertion_error require_session transfer_answer
  upload_start_tool (upload_start_input request) = do
    session ← require_session request.session
    op ← env.start_upload session request
    transfer_answer session op
  upload_start_tool _ = assertion_error

  -- `_transfer_status`
  unfoldable pub transfer_status_tool : Request → Handling
  unfolding assertion_error require_session transfer_answer
  transfer_status_tool (transfer_id_input request) = do
    session ← require_session request.session
    op ← env.transfer_status session request.operation_id
    transfer_answer session op
  transfer_status_tool _ = assertion_error

  -- `_transfer_cancel`
  unfoldable pub transfer_cancel_tool : Request → Handling
  unfolding assertion_error require_session transfer_answer
  transfer_cancel_tool (transfer_id_input request) = do
    session ← require_session request.session
    op ← env.cancel session request.operation_id
    transfer_answer session op
  transfer_cancel_tool _ = assertion_error

  unfoldable pub list_for : Option SessionInput → Handling
  unfolding respond assertion_error require_session seen
  list_for none = assertion_error
  list_for (some request) = do
    session ← require_session request
    operations ← env.list_transfers session
    λ app.
        respond transfer_list_response (transfer_list_data (map (seen app session) operations)) app

  -- `_transfer_list`, which takes an instance of any class below `SessionInput`
  unfoldable pub transfer_list_tool : Request → Handling
  unfolding session_of list_for
  transfer_list_tool request = list_for (session_of request)

  -- `definition.handler`
  unfoldable pub handle : Handler → Request → Handling
  unfolding connect_tool disconnect_tool session_list_tool exec_tool sudo_exec_tool stat_tool
      list_directory_tool read_file_range_tool download_start_tool upload_start_tool
      transfer_status_tool transfer_cancel_tool transfer_list_tool
  handle on_connect = connect_tool
  handle on_disconnect = disconnect_tool
  handle on_session_list = session_list_tool
  handle on_exec = exec_tool
  handle on_sudo_exec = sudo_exec_tool
  handle on_stat = stat_tool
  handle on_list_directory = list_directory_tool
  handle on_read_file_range = read_file_range_tool
  handle on_download_start = download_start_tool
  handle on_upload_start = upload_start_tool
  handle on_transfer_status = transfer_status_tool
  handle on_transfer_cancel = transfer_cancel_tool
  handle on_transfer_list = transfer_list_tool
