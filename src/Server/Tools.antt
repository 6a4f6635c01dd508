-- ===== src/Server/Tools.antt =====
-- `ToolDefinition` and `TOOL_DEFINITIONS` of remote_ssh_mcp/server.py.
use Prim.Native.String.{String}
use remote_ssh_mcp_server.Prelude.Text.{Text, codes, text_eq}
use remote_ssh_mcp_server.Prelude.{
  Bool, true, false, Option, none, some, List, [], ◌∷◌, if◌then◌else◌,
}
use remote_ssh_mcp_server.Server.Models.{
  InputModel, empty_model, connect_model, disconnect_model, session_model, exec_model, stat_model,
  list_directory_model, read_file_range_model, download_start_model, upload_start_model,
  transfer_id_model,
}

-- The classes of the responses.
pub data OutputModel : Type 0 where
  connect_response session_response session_list_response command_response : OutputModel
  stat_response directory_response read_file_range_response : OutputModel
  transfer_response transfer_list_response : OutputModel

-- `ToolAnnotations`
pub record ToolAnnotations : Type 0 where
  pub read_only_hint : Bool
  pub destructive_hint : Bool
  pub idempotent_hint : Bool
  pub open_world_hint : Bool

abbrev pub read_only : ToolAnnotations
read_only = record {
  read_only_hint = true;
  destructive_hint = false;
  idempotent_hint = true;
  open_world_hint = true;
}

abbrev pub connecting : ToolAnnotations
connecting = record {
  read_only_hint = false;
  destructive_hint = false;
  idempotent_hint = false;
  open_world_hint = true;
}

abbrev pub mutating : ToolAnnotations
mutating = record {
  read_only_hint = false;
  destructive_hint = true;
  idempotent_hint = false;
  open_world_hint = true;
}

abbrev pub cancelling : ToolAnnotations
cancelling = record {
  read_only_hint = false;
  destructive_hint = true;
  idempotent_hint = true;
  open_world_hint = true;
}

-- The handlers, by the tools that have them.
pub data Handler : Type 0 where
  on_connect on_disconnect on_session_list on_exec on_sudo_exec on_stat on_list_directory : Handler
  on_read_file_range on_download_start on_upload_start on_transfer_status : Handler
  on_transfer_cancel on_transfer_list : Handler

pub record ToolDefinition : Type 0 where
  pub name : Text
  pub description : String
  pub input_model : InputModel
  pub output_model : OutputModel
  pub annotations : ToolAnnotations
  pub handler : Handler

tool : Text → String → InputModel → OutputModel → ToolAnnotations → Handler → ToolDefinition
tool name description input output annotations handler = record {
  name = name;
  description = description;
  input_model = input;
  output_model = output;
  annotations = annotations;
  handler = handler;
}

-- `TOOL_DEFINITIONS`
unfoldable pub tool_definitions : List ToolDefinition
unfolding tool
tool_definitions =
    tool (codes "connect")
      "Open a new independent SSH session using an alias or host/user with an optional port; returns its session_id and a one-time secret session_key."
      connect_model connect_response connecting on_connect
    ∷ tool (codes "disconnect")
        "Close any SSH session by session_id without its key, cancelling its active commands and transfers."
        disconnect_model session_response cancelling on_disconnect
    ∷ tool (codes "session_list")
        "List every SSH session without keys; states are starting, ready, lost, or closing."
        empty_model session_list_response read_only on_session_list
    ∷ tool (codes "exec") "Run one bounded non-PTY command in one keyed session." exec_model
        command_response mutating on_exec
    ∷ tool (codes "sudo_exec")
        "Run one command through passwordless-only sudo -n -k in one keyed session." exec_model
        command_response mutating on_sudo_exec
    ∷ tool (codes "stat") "Inspect metadata for one remote path in one keyed session." stat_model
        stat_response read_only on_stat
    ∷ tool (codes "list_directory")
        "List one remote directory with bounded machine-readable metadata." list_directory_model
        directory_response read_only on_list_directory
    ∷ tool (codes "read_file_range") "Read a bounded byte range from one remote regular file."
        read_file_range_model read_file_range_response read_only on_read_file_range
    ∷ tool (codes "download_start")
        "Start a verified background rsync download into the server's local root."
        download_start_model transfer_response mutating on_download_start
    ∷ tool (codes "upload_start") "Start a verified background rsync upload without sudo."
        upload_start_model transfer_response mutating on_upload_start
    ∷ tool (codes "transfer_status")
        "Return metadata for one background transfer of the keyed session." transfer_id_model
        transfer_response read_only on_transfer_status
    ∷ tool (codes "transfer_cancel")
        "Cancel one transfer of the keyed session while preserving its partial." transfer_id_model
        transfer_response cancelling on_transfer_cancel
    ∷ tool (codes "transfer_list")
        "List retained background transfer metadata of the keyed session." session_model
        transfer_list_response read_only on_transfer_list
    ∷ []

-- `TOOLS_BY_NAME.get(name)`; no two tools have one name.
unfoldable pub find_tool : Text → List ToolDefinition → Option ToolDefinition
unfolding text_eq
find_tool name [] = none
find_tool name (tool ∷ tools) = if text_eq tool.name name then some tool else find_tool name tools
