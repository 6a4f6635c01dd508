-- ===== src/Server/Models.antt =====
-- The input models of remote_ssh_mcp/mcp_models.py and `RemoteSession.status` of
-- remote_ssh_mcp/sessions.py, whose `SessionData` is an output model. `ConnectionSpec` belongs to
-- ssh_wrapper and is a type that is given.
use remote_ssh_mcp_server.Prelude.Text.{Text, codes, text_eq}
use remote_ssh_mcp_server.Prelude.{ℕ, Bool, Option, none, some, ◌==◌, if◌then◌else◌}
use remote_ssh_mcp_server.Errors.{remote, Result, err, invalid_connection}
use remote_ssh_mcp_server.Sessions.Session.{ConnectionState, RemoteSession, state}

pub record SessionInput : Type 0 where
  pub session_id : Text
  pub session_key : Text

pub record ConnectInput : Type 0 where
  pub ssh_alias : Option Text
  pub host : Option Text
  pub user : Option Text
  pub port : Option ℕ

-- `timeout` is in ticks.
pub record ExecInput : Type 0 where
  pub session : SessionInput
  pub command : Text
  pub cwd : Option Text
  pub timeout : Option ℕ
  pub spool_output : Bool

-- `StatInput` and `ListDirectoryInput`
pub record PathInput : Type 0 where
  pub session : SessionInput
  pub remote_path : Text

-- `max_bytes_set` says whether "max_bytes" is in `model_fields_set`.
pub record ReadFileRangeInput : Type 0 where
  pub session : SessionInput
  pub remote_path : Text
  pub offset : ℕ
  pub max_bytes : ℕ
  pub max_bytes_set : Bool

-- `DownloadStartInput` and `UploadStartInput`
pub record TransferStartInput : Type 0 where
  pub session : SessionInput
  pub remote_path : Text
  pub local_path : Text
  pub overwrite : Bool

pub record TransferIdInput : Type 0 where
  pub session : SessionInput
  pub operation_id : Text

-- The classes of the input models, by which a tool names its own.
pub data InputModel : Type 0 where
  empty_model connect_model disconnect_model session_model exec_model stat_model : InputModel
  list_directory_model read_file_range_model download_start_model upload_start_model : InputModel
  transfer_id_model : InputModel

-- An instance of one of them.
pub data Request : Type 0 where
  empty_input : Request
  connect_input : ConnectInput → Request
  disconnect_input : Text → Request
  session_input : SessionInput → Request
  exec_input : ExecInput → Request
  stat_input list_directory_input : PathInput → Request
  read_file_range_input : ReadFileRangeInput → Request
  download_start_input upload_start_input : TransferStartInput → Request
  transfer_id_input : TransferIdInput → Request

-- The fields of `SessionInput`, which all models have but three.
unfoldable pub session_of : Request → Option SessionInput
session_of empty_input = none
session_of (connect_input r) = none
session_of (disconnect_input r) = none
session_of (session_input r) = some r
session_of (exec_input r) = some r.session
session_of (stat_input r) = some r.session
session_of (list_directory_input r) = some r.session
session_of (read_file_range_input r) = some r.session
session_of (download_start_input r) = some r.session
session_of (upload_start_input r) = some r.session
session_of (transfer_id_input r) = some r.session

-- `ConnectionSpec.from_alias` and `ConnectionSpec.from_direct`
pub record Connections (Spec : Type 0) : Type 0 where
  pub from_alias : Text → Result Spec
  pub from_direct : Text → Text → ℕ → Result Spec

-- `self.port or 22`
abbrev port_or_default : Option ℕ → ℕ
port_or_default none = 22
port_or_default (some port) = if port == 0 then 22 else port

direct : {Spec : Type 0} → Connections Spec → Option Text → Option Text → Option ℕ → Result Spec
direct c (some host) (some user) port = c.from_direct host user (port_or_default port)
direct c (some host) none port = err (remote invalid_connection)
direct c none user port = err (remote invalid_connection)

by_alias :
    {Spec : Type 0} → Connections Spec → Text → Option Text → Option Text → Option ℕ → Result Spec
by_alias c alias none none none = c.from_alias alias
by_alias c alias _ _ _ = err (remote invalid_connection)

-- `connection_spec`; `validate_mode` asks whether it raises.
unfoldable pub connection_spec : {Spec : Type 0} → Connections Spec → ConnectInput → Result Spec
unfolding by_alias direct
connection_spec c r = elim r.ssh_alias [
  | some alias ↦ by_alias c alias r.host r.user r.port
  | none ↦ direct c r.host r.user r.port
]

-- What `status` asks of the master and of the services of a session.
pub record Facts (Spec : Type 0) : Type 0 where
  pub connection : Spec
  pub pid : Option ℕ
  pub created_at : ℕ
  pub active_commands : ℕ
  pub active_transfers : ℕ

-- `SessionData`; the fields that show the connection are one here.
pub record SessionData (Spec : Type 0) : Type 0 where
  pub session_id : Text
  pub state : Text
  pub connection : Spec
  pub server_host : Text
  pub server_port : ℕ
  pub master_pid : Option ℕ
  pub created_at : ℕ
  pub last_used_at : Option ℕ
  pub active_commands : ℕ
  pub active_transfers : ℕ

-- `RemoteSession.status`
unfoldable pub status :
    {Spec : Type 0} → (ConnectionState → Text) → Facts Spec → RemoteSession → SessionData Spec
unfolding state text_eq
status value facts s = record {
  session_id = s.session_id;
  state = state value s;
  connection = facts.connection;
  server_host = s.server.host;
  server_port = s.server.port;
  master_pid = if text_eq (state value s) (codes "closed") then none else facts.pid;
  created_at = facts.created_at;
  last_used_at = s.last_used_at;
  active_commands = if s.services then facts.active_commands else 0;
  active_transfers = if s.services then facts.active_transfers else 0;
}
