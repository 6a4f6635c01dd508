-- ===== src/Server/Dispatch.antt =====
-- `call_tool` of remote_ssh_mcp/server.py, with `_error_response` and `_tool_result`. The JSON text of
-- a response is its structured content and is left out. Validation is pydantic's and is given.
pub mod Answers
pub mod Guarded
use remote_ssh_mcp_server.Prelude.Text.{Text, codes}
use remote_ssh_mcp_server.Prelude.{Bool, true, false, Option, none, some, List}
use remote_ssh_mcp_server.Errors.{
  Code, Raised, remote, cancelled_error, other_error, Result, ok, err, unknown_tool,
  invalid_arguments, internal_error,
}
use remote_ssh_mcp_server.Server.Models.{InputModel, Request}
use remote_ssh_mcp_server.Server.Validation.{Detail, validation_message}
use remote_ssh_mcp_server.Server.Tools.{
  OutputModel, transfer_response, ToolDefinition, tool_definitions, find_tool,
}
use remote_ssh_mcp_server.Server.Environment.{App, Call, Environment, Response, PublicError}
use remote_ssh_mcp_server.Server.Handlers.{handle}

-- `model_validate`: an instance, or the details of a `ValidationError`.
pub data Validated : Type 0 where
  instance_of : Request → Validated
  invalid : List Detail → Validated

pub record CallToolResult (Spec : Type 0) : Type 0 where
  pub payload : Response Spec
  pub is_error : Bool

-- `_error_response` under `_tool_result`
unfoldable pub error_result :
    {Spec : Type 0} → OutputModel → Code → Option Text → CallToolResult Spec
error_result model code message = record {
  payload = record {
    model = model;
    succeeded = false;
    result = none;
    error = some (record { code = code; message = message });
  };
  is_error = true;
}

-- The `except` clauses: `asyncio.CancelledError` is no `Exception`.
unfoldable pub tool_result :
    {Spec : Type 0} → OutputModel → Result (Response Spec) → Result (CallToolResult Spec)
unfolding error_result
tool_result model (ok payload) = ok (record { payload = payload; is_error = false })
tool_result model (err (remote code)) = ok (error_result model code none)
tool_result model (err cancelled_error) = err cancelled_error
tool_result model (err other_error) =
    ok (error_result model internal_error (some (codes "tool failed internally")))

module _ {Arguments Spec S : Type 0} (model_validate : InputModel → Arguments → Validated)
    (env : Environment Spec S) where
  -- What `call_tool` does with the outcome of the validation.
  unfoldable pub run_tool : ToolDefinition → Validated → Call S (CallToolResult Spec)
  unfolding tool_result error_result validation_message handle
  run_tool definition (invalid details) app = (
    ok (
        error_result definition.output_model invalid_arguments
          (some (validation_message definition.input_model details))),
    app,
  )
  run_tool definition (instance_of request) app =
      let (outcome, app') = handle env definition.handler request app in
      (tool_result definition.output_model outcome, app')

  -- `call_tool`
  unfoldable pub call_tool : Text → Arguments → Call S (CallToolResult Spec)
  unfolding find_tool tool_definitions error_result run_tool
  call_tool name arguments app = elim (find_tool name tool_definitions) [
    | none ↦ (
      ok (
          error_result transfer_response unknown_tool
            (some (codes "requested tool is not available"))),
      app,
    )
    | some definition ↦ run_tool definition (model_validate definition.input_model arguments) app
  ]
