-- ===== src/Server/Handlers/Answered.antt =====
-- What a handler answers, and what its parts keep of this.
use remote_ssh_mcp_server.Prelude.{◌≡◌, refl, true, none, some}
use remote_ssh_mcp_server.Errors.{Result, ok, err}
use remote_ssh_mcp_server.Server.Tools.{
  OutputModel, connect_response, session_response, session_list_response, command_response,
  stat_response, directory_response, read_file_range_response, transfer_response,
  transfer_list_response, Handler, on_connect, on_disconnect, on_session_list, on_exec,
  on_sudo_exec, on_stat, on_list_directory, on_read_file_range, on_download_start, on_upload_start,
  on_transfer_status, on_transfer_cancel, on_transfer_list,
}
use remote_ssh_mcp_server.Server.Environment.{
  App, Call, resume, ◌>>=◌, Environment, Data, connect_data, session_data, session_list_data,
  command_data, stat_data, directory_data, read_file_range_data, transfer_data, transfer_list_data,
  Response,
}
use remote_ssh_mcp_server.Server.Handlers.{respond, assertion_error}

-- The data that a response model holds.
abbrev pub Fits : {Spec : Type 0} → OutputModel → Data Spec → Type 0
Fits model (connect_data d key) = model ≡ connect_response
Fits model (session_data d) = model ≡ session_response
Fits model (session_list_data ds) = model ≡ session_list_response
Fits model (command_data d) = model ≡ command_response
Fits model (stat_data d) = model ≡ stat_response
Fits model (directory_data d) = model ≡ directory_response
Fits model (read_file_range_data d) = model ≡ read_file_range_response
Fits model (transfer_data d) = model ≡ transfer_response
Fits model (transfer_list_data ds) = model ≡ transfer_list_response

-- A result of the model, and no error.
pub record IsSuccess {Spec : Type 0} (model : OutputModel) (r : Response Spec) : Type 0 where
  pub of_model : r.model ≡ model
  pub says_so : r.succeeded ≡ true
  pub no_error : r.error ≡ none
  pub value : Data Spec
  pub is_result : r.result ≡ some value
  pub fits : Fits model value

-- What a call returns has the property; it may raise.
abbrev pub Ensures : {S A : Type 0} → (A → Type 0) → Result A × App S → Type 0
Ensures P (ok a, app) = P a
Ensures P (err e, app) = Unit

module _ {Spec S : Type 0} (env : Environment Spec S) (model : OutputModel) where
  abbrev pub IsAnswer : Call S (Response Spec) → Type 0
  IsAnswer call = (app : App S) → Ensures (IsSuccess model) (call app)

  pub bind-IsAnswer :
      {A : Type 0} (call : Call S A) (rest : A → Call S (Response Spec))
      → ((a : A) → IsAnswer (rest a))
      → IsAnswer (call >>= rest)
  bind-IsAnswer {A} call rest h app = on_outcome (call app)
    where
      on_outcome : (o : Result A × App S) → Ensures (IsSuccess model) (resume o rest)
      on_outcome (ok a, app') = h a app'
      on_outcome (err e, app') = tt

  pub respond-IsAnswer : (d : Data Spec) → Fits model d → IsAnswer (respond env model d)
  unfolding respond
  respond-IsAnswer d h app = record {
    of_model = refl;
    says_so = refl;
    no_error = refl;
    value = d;
    is_result = refl;
    fits = h;
  }

  pub assertion_error-IsAnswer : IsAnswer (assertion_error env)
  unfolding assertion_error
  assertion_error-IsAnswer app = tt

-- The model that each handler returns.
abbrev pub answer_model : Handler → OutputModel
answer_model on_connect = connect_response
answer_model on_disconnect = session_response
answer_model on_session_list = session_list_response
answer_model on_exec = command_response
answer_model on_sudo_exec = command_response
answer_model on_stat = stat_response
answer_model on_list_directory = directory_response
answer_model on_read_file_range = read_file_range_response
answer_model on_download_start = transfer_response
answer_model on_upload_start = transfer_response
answer_model on_transfer_status = transfer_response
answer_model on_transfer_cancel = transfer_response
answer_model on_transfer_list = transfer_list_response
