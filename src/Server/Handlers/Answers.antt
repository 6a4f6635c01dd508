-- ===== src/Server/Handlers/Answers.antt =====
-- The form of what the handlers return.
use remote_ssh_mcp_server.Prelude.Text.{Text}
use remote_ssh_mcp_server.Prelude.{refl, Option, none, some}
use mathlib.Core.List.{map}
use remote_ssh_mcp_server.Sessions.Session.{RemoteSession}
use remote_ssh_mcp_server.Transfers.Operation.{TransferOperation}
use remote_ssh_mcp_server.Commands.Encoded.{result_dict}
use remote_ssh_mcp_server.Server.Models.{
  Request, SessionInput, session_of, connection_spec, empty_input, connect_input, disconnect_input,
  exec_input, stat_input, list_directory_input, read_file_range_input, download_start_input,
  upload_start_input, transfer_id_input,
}
use remote_ssh_mcp_server.Server.Tools.{
  OutputModel, connect_response, session_response, session_list_response, command_response,
  stat_response, directory_response, read_file_range_response, transfer_response,
  transfer_list_response, Handler, on_connect, on_disconnect, on_session_list, on_exec,
  on_sudo_exec, on_stat, on_list_directory, on_read_file_range, on_download_start, on_upload_start,
  on_transfer_status, on_transfer_cancel, on_transfer_list,
}
use remote_ssh_mcp_server.Server.Environment.{
  Call, ◌>>=◌, Environment, connect_data, session_data, session_list_data, command_data, stat_data,
  directory_data, read_file_range_data, transfer_data, transfer_list_data, Response,
}
use remote_ssh_mcp_server.Server.Handlers.{
  respond, require_session, seen, shown, range_limit, transfer_answer, connect_answer, handle,
  session_list_tool, connect_tool, disconnect_tool, exec_tool, sudo_exec_tool, stat_tool,
  list_directory_tool, read_file_range_tool, download_start_tool, upload_start_tool,
  transfer_status_tool, transfer_cancel_tool, transfer_list_tool, list_for,
}
use remote_ssh_mcp_server.Server.Handlers.Answered.{
  IsAnswer, bind-IsAnswer, respond-IsAnswer, assertion_error-IsAnswer, answer_model,
}

module _ {Spec S : Type 0} (env : Environment Spec S) where
  -- A handler that asks for the session, calls a service and answers.
  keyed-IsAnswer :
      {A : Type 0} (model : OutputModel) (request : SessionInput) (call : RemoteSession → Call S A)
      (rest : RemoteSession → A → Call S (Response Spec))
      → ((s : RemoteSession) (a : A) → IsAnswer env model (rest s a))
      → IsAnswer env model (require_session env request >>= λ s. call s >>= rest s)
  keyed-IsAnswer model request call rest h =
      bind-IsAnswer env model (require_session env request) (λ s. call s >>= rest s)
        λ s. bind-IsAnswer env model (call s) (rest s) (h s)

  exec-IsAnswer : (r : Request) → IsAnswer env command_response (exec_tool env r)
  unfolding exec_tool
  exec-IsAnswer (exec_input r) =
      keyed-IsAnswer command_response r.session (λ s. env.execute s r)
        (λ s a. respond env command_response (command_data (result_dict a)))
        (λ s a. respond-IsAnswer env command_response (command_data (result_dict a)) refl)
  exec-IsAnswer _ = assertion_error-IsAnswer env command_response

  sudo_exec-IsAnswer : (r : Request) → IsAnswer env command_response (sudo_exec_tool env r)
  unfolding sudo_exec_tool
  sudo_exec-IsAnswer (exec_input r) =
      keyed-IsAnswer command_response r.session (λ s. env.sudo_execute s r)
        (λ s a. respond env command_response (command_data (result_dict a)))
        (λ s a. respond-IsAnswer env command_response (command_data (result_dict a)) refl)
  sudo_exec-IsAnswer _ = assertion_error-IsAnswer env command_response

  stat-IsAnswer : (r : Request) → IsAnswer env stat_response (stat_tool env r)
  unfolding stat_tool
  stat-IsAnswer (stat_input r) =
      keyed-IsAnswer stat_response r.session (λ s. env.stat s r.remote_path)
        (λ s a. respond env stat_response (stat_data a))
        (λ s a. respond-IsAnswer env stat_response (stat_data a) refl)
  stat-IsAnswer _ = assertion_error-IsAnswer env stat_response

  list_directory-IsAnswer :
      (r : Request) → IsAnswer env directory_response (list_directory_tool env r)
  unfolding list_directory_tool
  list_directory-IsAnswer (list_directory_input r) =
      keyed-IsAnswer directory_response r.session (λ s. env.list_directory s r.remote_path)
        (λ s a. respond env directory_response (directory_data a))
        (λ s a. respond-IsAnswer env directory_response (directory_data a) refl)
  list_directory-IsAnswer _ = assertion_error-IsAnswer env directory_response

  read_file_range-IsAnswer :
      (r : Request) → IsAnswer env read_file_range_response (read_file_range_tool env r)
  unfolding read_file_range_tool
  read_file_range-IsAnswer (read_file_range_input r) =
      keyed-IsAnswer read_file_range_response r.session
        (λ s. env.read_file_range s r.remote_path r.offset (range_limit env r))
        (λ s a. respond env read_file_range_response (read_file_range_data a))
        (λ s a. respond-IsAnswer env read_file_range_response (read_file_range_data a) refl)
  read_file_range-IsAnswer _ = assertion_error-IsAnswer env read_file_range_response

  transfer_answer-IsAnswer :
      (s : RemoteSession) (op : TransferOperation)
      → IsAnswer env transfer_response (transfer_answer env s op)
  unfolding transfer_answer
  transfer_answer-IsAnswer s op app =
      respond-IsAnswer env transfer_response (transfer_data (seen env app s op)) refl app

  download_start-IsAnswer :
      (r : Request) → IsAnswer env transfer_response (download_start_tool env r)
  unfolding download_start_tool
  download_start-IsAnswer (download_start_input r) =
      keyed-IsAnswer transfer_response r.session (λ s. env.start_download s r) (transfer_answer env)
        transfer_answer-IsAnswer
  download_start-IsAnswer _ = assertion_error-IsAnswer env transfer_response

  upload_start-IsAnswer : (r : Request) → IsAnswer env transfer_response (upload_start_tool env r)
  unfolding upload_start_tool
  upload_start-IsAnswer (upload_start_input r) =
      keyed-IsAnswer transfer_response r.session (λ s. env.start_upload s r) (transfer_answer env)
        transfer_answer-IsAnswer
  upload_start-IsAnswer _ = assertion_error-IsAnswer env transfer_response

  transfer_status-IsAnswer :
      (r : Request) → IsAnswer env transfer_response (transfer_status_tool env r)
  unfolding transfer_status_tool
  transfer_status-IsAnswer (transfer_id_input r) =
      keyed-IsAnswer transfer_response r.session (λ s. env.transfer_status s r.operation_id)
        (transfer_answer env) transfer_answer-IsAnswer
  transfer_status-IsAnswer _ = assertion_error-IsAnswer env transfer_response

  transfer_cancel-IsAnswer :
      (r : Request) → IsAnswer env transfer_response (transfer_cancel_tool env r)
  unfolding transfer_cancel_tool
  transfer_cancel-IsAnswer (transfer_id_input r) =
      keyed-IsAnswer transfer_response r.session (λ s. env.cancel s r.operation_id)
        (transfer_answer env) transfer_answer-IsAnswer
  transfer_cancel-IsAnswer _ = assertion_error-IsAnswer env transfer_response

  transfer_list-IsAnswer :
      (r : Request) → IsAnswer env transfer_list_response (transfer_list_tool env r)
  unfolding transfer_list_tool
  transfer_list-IsAnswer r = for_session (session_of r)
    where
      for_session : (o : Option SessionInput) → IsAnswer env transfer_list_response (list_for env o)
      for_session none = assertion_error-IsAnswer env transfer_list_response
      for_session (some request) =
          keyed-IsAnswer transfer_list_response request env.list_transfers
            (λ s ops app.
              respond env transfer_list_response (transfer_list_data (map (seen env app s) ops))
                app)
            (λ s ops app.
              respond-IsAnswer env transfer_list_response
                (transfer_list_data (map (seen env app s) ops)) refl app)

  session_list-IsAnswer :
      (r : Request) → IsAnswer env session_list_response (session_list_tool env r)
  unfolding session_list_tool
  session_list-IsAnswer empty_input =
      bind-IsAnswer env session_list_response env.list_sessions
        (λ ss app.
          respond env session_list_response (session_list_data (map (shown env app) ss)) app)
        (λ ss app.
          respond-IsAnswer env session_list_response (session_list_data (map (shown env app) ss))
            refl app)
  session_list-IsAnswer _ = assertion_error-IsAnswer env session_list_response

  disconnect-IsAnswer : (r : Request) → IsAnswer env session_response (disconnect_tool env r)
  unfolding disconnect_tool
  disconnect-IsAnswer (disconnect_input id) =
      bind-IsAnswer env session_response (env.disconnect id)
        (λ s app. respond env session_response (session_data (shown env app s)) app)
        (λ s app. respond-IsAnswer env session_response (session_data (shown env app s)) refl app)
  disconnect-IsAnswer _ = assertion_error-IsAnswer env session_response

  connect_answer-IsAnswer :
      (pair : RemoteSession × Text) → IsAnswer env connect_response (connect_answer env pair)
  unfolding connect_answer
  connect_answer-IsAnswer (session, key) app =
      respond-IsAnswer env connect_response (connect_data (shown env app session) key) refl app

  connect-IsAnswer : (r : Request) → IsAnswer env connect_response (connect_tool env r)
  unfolding connect_tool
  connect-IsAnswer (connect_input r) =
      bind-IsAnswer env connect_response (λ app. (connection_spec env.connections r, app))
        (λ spec. env.connect spec >>= connect_answer env)
        (λ spec.
          bind-IsAnswer env connect_response (env.connect spec) (connect_answer env)
            connect_answer-IsAnswer)
  connect-IsAnswer _ = assertion_error-IsAnswer env connect_response

  pub handle-IsAnswer : (h : Handler) (r : Request) → IsAnswer env (answer_model h) (handle env h r)
  unfolding handle
  handle-IsAnswer on_connect = connect-IsAnswer
  handle-IsAnswer on_disconnect = disconnect-IsAnswer
  handle-IsAnswer on_session_list = session_list-IsAnswer
  handle-IsAnswer on_exec = exec-IsAnswer
  handle-IsAnswer on_sudo_exec = sudo_exec-IsAnswer
  handle-IsAnswer on_stat = stat-IsAnswer
  handle-IsAnswer on_list_directory = list_directory-IsAnswer
  handle-IsAnswer on_read_file_range = read_file_range-IsAnswer
  handle-IsAnswer on_download_start = download_start-IsAnswer
  handle-IsAnswer on_upload_start = upload_start-IsAnswer
  handle-IsAnswer on_transfer_status = transfer_status-IsAnswer
  handle-IsAnswer on_transfer_cancel = transfer_cancel-IsAnswer
  handle-IsAnswer on_transfer_list = transfer_list-IsAnswer
