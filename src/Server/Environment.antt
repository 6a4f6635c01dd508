-- ===== src/Server/Environment.antt =====
-- What the handlers of remote_ssh_mcp/server.py work on: the application, what they ask of the session
-- manager, beyond `authorize`, and of a session's services, and the responses that they give. Such a
-- call may change everything, since other callers run while it waits.
use remote_ssh_mcp_server.Prelude.Text.{Text}
use remote_ssh_mcp_server.Prelude.{ℕ, Bool, Option, List}
use remote_ssh_mcp_server.Errors.{Code, Result, ok, err}
use remote_ssh_mcp_server.Commands.Runner.{CommandResult}
use remote_ssh_mcp_server.Commands.Encoded.{CommandData}
use remote_ssh_mcp_server.Inspection.{Stat, FileRange}
use remote_ssh_mcp_server.Inspection.Directory.{Directory}
use remote_ssh_mcp_server.Sessions.Session.{ConnectionState, RemoteSession}
use remote_ssh_mcp_server.Sessions.Manager.{SessionManager}
use remote_ssh_mcp_server.Transfers.Operation.{TransferOperation}
use remote_ssh_mcp_server.Server.Models.{
  ExecInput, TransferStartInput, Connections, Facts, SessionData,
}
use remote_ssh_mcp_server.Server.Redact.{Master, TransferData}
use remote_ssh_mcp_server.Server.Tools.{OutputModel}

-- `services` is the state of everything behind the sessions.
pub record App (S : Type 0) : Type 0 where
  pub manager : SessionManager
  pub services : S

-- A coroutine that changes the application, be it that it returns or that it raises.
abbrev pub Call : Type 0 → Type 0 → Type 0
Call S A = App S → Result A × App S

abbrev pub resume : {S A B : Type 0} → Result A × App S → (A → Call S B) → Result B × App S
resume (ok a, app) rest = rest a app
resume (err e, app) rest = (err e, app)

infixl 5 ◌>>=◌
abbrev pub ◌>>=◌ : {S A B : Type 0} → Call S A → (A → Call S B) → Call S B
(call >>= rest) app = resume (call app) rest

-- What the handlers call.
pub record Environment (Spec S : Type 0) : Type 0 where
  pub key_digest : Text → Text
  pub now : App S → ℕ
  pub repository_root : Text
  pub max_output_bytes : ℕ
  pub decode : Text → Text
  pub connections : Connections Spec
  pub state_value : ConnectionState → Text
  pub facts : App S → RemoteSession → Facts Spec
  pub master : App S → RemoteSession → Master
  pub connect : Spec → Call S (RemoteSession × Text)
  pub disconnect : Text → Call S RemoteSession
  pub list_sessions : Call S (List RemoteSession)
  pub execute : RemoteSession → ExecInput → Call S CommandResult
  pub sudo_execute : RemoteSession → ExecInput → Call S CommandResult
  pub stat : RemoteSession → Text → Call S Stat
  pub list_directory : RemoteSession → Text → Call S Directory
  pub read_file_range : RemoteSession → Text → ℕ → ℕ → Call S FileRange
  pub start_download : RemoteSession → TransferStartInput → Call S TransferOperation
  pub start_upload : RemoteSession → TransferStartInput → Call S TransferOperation
  pub transfer_status : RemoteSession → Text → Call S TransferOperation
  pub cancel : RemoteSession → Text → Call S TransferOperation
  pub list_transfers : RemoteSession → Call S (List TransferOperation)

-- The results of the response models.
pub data Data (Spec : Type 0) : Type 0 where
  connect_data : SessionData Spec → Text → Data Spec
  session_data : SessionData Spec → Data Spec
  session_list_data : List (SessionData Spec) → Data Spec
  command_data : CommandData → Data Spec
  stat_data : Stat → Data Spec
  directory_data : Directory → Data Spec
  read_file_range_data : FileRange → Data Spec
  transfer_data : TransferData → Data Spec
  transfer_list_data : List TransferData → Data Spec

-- A message is `none` where it is that of the exception.
pub record PublicError : Type 0 where
  pub code : Code
  pub message : Option Text

-- An instance of a response model.
pub record Response (Spec : Type 0) : Type 0 where
  pub model : OutputModel
  pub succeeded : Bool
  pub result : Option (Data Spec)
  pub error : Option PublicError
