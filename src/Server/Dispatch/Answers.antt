-- ===== src/Server/Dispatch/Answers.antt =====
-- The form of the answers of `call_tool`.
use remote_ssh_mcp_server.Prelude.Lists.{All}
use remote_ssh_mcp_server.Prelude.Text.{Text, codes, text_eq}
use remote_ssh_mcp_server.Prelude.{
  ◌≡◌, ◌⊎◌, inl, inr, refl, false, Option, none, some, List, [], ◌∷◌, Bool-cases, Option-cases,
  subst, arith,
}
use remote_ssh_mcp_server.Errors.{
  Code, remote, cancelled_error, other_error, Result, ok, err, unknown_tool, invalid_arguments,
  internal_error,
}
use remote_ssh_mcp_server.Server.Models.{InputModel}
use remote_ssh_mcp_server.Server.Validation.{validation_message}
use remote_ssh_mcp_server.Server.Tools.{
  OutputModel, transfer_response, ToolDefinition, tool_definitions, find_tool,
}
use remote_ssh_mcp_server.Server.Environment.{App, Environment, Response}
use remote_ssh_mcp_server.Server.Handlers.{handle}
use remote_ssh_mcp_server.Server.Handlers.Answered.{IsSuccess, Ensures, answer_model}
use remote_ssh_mcp_server.Server.Handlers.Answers.{handle-IsAnswer}
use remote_ssh_mcp_server.Server.Dispatch.{
  Validated, instance_of, invalid, CallToolResult, error_result, tool_result, run_tool, call_tool,
}

-- The response model that a client expects of a tool.
abbrev pub expected : Option ToolDefinition → OutputModel
expected none = transfer_response
expected (some definition) = definition.output_model

-- A result of the tool's model, or an error and nothing else.
abbrev pub IsWellFormed : {Spec : Type 0} → OutputModel → CallToolResult Spec → Type 0
IsWellFormed model result =
    ((result.is_error ≡ false) × IsSuccess model result.payload)
    ⊎ ((code : Code) × (message : Option Text) × (result ≡ error_result model code message))

-- An answer, unless the call has been cancelled.
abbrev pub IsAnswered : {Spec : Type 0} → OutputModel → Result (CallToolResult Spec) → Type 0
IsAnswered {Spec} model answer =
    (answer ≡ err cancelled_error)
    ⊎ ((result : CallToolResult Spec) × (answer ≡ ok result) × IsWellFormed model result)

find_tool-All :
    (P : ToolDefinition → Type 0) (name : Text) (ds : List ToolDefinition) (d : ToolDefinition)
    → All P ds
    → find_tool name ds ≡ some d
    → P d
unfolding find_tool
find_tool-All P name [] d all h = absurd (cc)
find_tool-All P name (e ∷ ds) d all h = elim (Bool-cases (text_eq e.name name)) [
  | inl same ↦ subst P (ground (arith, same)) all.0
  | inr other ↦ find_tool-All P name ds d all.1 (ground (arith, other))
]

-- Every tool names the model that its handler returns.
abbrev IsDeclared : ToolDefinition → Type 0
IsDeclared d = answer_model d.handler ≡ d.output_model

tool_definitions-IsDeclared : All IsDeclared tool_definitions
unfolding tool_definitions
tool_definitions-IsDeclared = (
  refl,
  (
    refl,
    (refl, (refl, (refl, (refl, (refl, (refl, (refl, (refl, (refl, (refl, (refl, tt))))))))))),
  ),
)

tool_result-IsAnswered :
    {Spec S : Type 0} (model : OutputModel) (o : Result (Response Spec) × App S)
    → Ensures (IsSuccess model) o
    → IsAnswered model (tool_result model o.0)
unfolding tool_result
tool_result-IsAnswered model (ok payload, app) s =
    inr (record { payload = payload; is_error = false }, refl, inl (refl, s))
tool_result-IsAnswered model (err (remote code), app) s =
    inr (error_result model code none, refl, inr (code, none, refl))
tool_result-IsAnswered model (err cancelled_error, app) s = inl refl
tool_result-IsAnswered model (err other_error, app) s =
    let message = some (codes "tool failed internally") in
    inr (error_result model internal_error message, refl, inr (internal_error, message, refl))

module _ {Arguments Spec S : Type 0} (model_validate : InputModel → Arguments → Validated)
    (env : Environment Spec S) where
  run_tool-IsAnswered :
      (definition : ToolDefinition) (v : Validated) (app : App S)
      → IsDeclared definition
      → IsAnswered definition.output_model (run_tool model_validate env definition v app).0
  unfolding run_tool
  run_tool-IsAnswered definition (invalid details) app h =
      let message = some (validation_message definition.input_model details) in
      inr (
        error_result definition.output_model invalid_arguments message,
        refl,
        inr (invalid_arguments, message, refl),
      )
  run_tool-IsAnswered definition (instance_of r) app h =
      tool_result-IsAnswered definition.output_model (handle env definition.handler r app) (
        subst (λ m. Ensures (IsSuccess m) (handle env definition.handler r app)) h
          (handle-IsAnswer env definition.handler r app))

  -- Whatever the sessions and their services do, a call that is not cancelled is answered: by a result
  -- of the response model that the tool declares, marked as a success and without an error, or by an
  -- error, marked as such and without a result.
  pub call_tool-IsAnswered :
      (name : Text) (arguments : Arguments) (app : App S)
      → IsAnswered
          (expected (find_tool name tool_definitions))
          (call_tool model_validate env name arguments app).0
  unfolding call_tool
  call_tool-IsAnswered name arguments app = elim (Option-cases (find_tool name tool_definitions)) [
    | inl missing ↦
        let message = some (codes "requested tool is not available") in
        rw (missing, call_tool)
          (inr (
            error_result transfer_response unknown_tool message,
            refl,
            inr (unknown_tool, message, refl),
          ))
    | inr (definition, found) ↦
        rw (found, call_tool)
          (run_tool-IsAnswered definition (model_validate definition.input_model arguments) app (
            find_tool-All IsDeclared name tool_definitions definition tool_definitions-IsDeclared
              found))
  ]
