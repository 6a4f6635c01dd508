-- ===== src/Server/Dispatch/Guarded.antt =====
-- What a caller without the key of a session can do.
use remote_ssh_mcp_server.Prelude.Lists.{All, drop}
use remote_ssh_mcp_server.Prelude.Text.{Text, codes, text_eq, text_eq_iff}
use remote_ssh_mcp_server.Prelude.{
  ℕ, ◌≡◌, ◌⊎◌, inl, inr, refl, sym, true, false, Option, none, some, List, [], ◌∷◌, Bool-cases,
  Option-cases, subst, arith,
}
use remote_ssh_mcp_server.Errors.{
  Code, internal_error, invalid_arguments, unknown_tool, ok, Result-cases,
}
use remote_ssh_mcp_server.Sessions.Session.{RemoteSession}
use remote_ssh_mcp_server.Sessions.Manager.{authorize}
use remote_ssh_mcp_server.Sessions.Manager.World.{World, Reach, new_world}
use remote_ssh_mcp_server.Sessions.Manager.Keys.{last_key}
use remote_ssh_mcp_server.Sessions.Manager.Authorize.{Reach-authorize}
use remote_ssh_mcp_server.Server.Models.{InputModel, Request, SessionInput, session_of}
use remote_ssh_mcp_server.Server.Validation.{validation_message}
use remote_ssh_mcp_server.Server.Tools.{
  ToolDefinition, tool_definitions, OutputModel, transfer_response, find_tool,
}
use remote_ssh_mcp_server.Server.Environment.{App, Environment}
use remote_ssh_mcp_server.Server.Handlers.{handle}
use remote_ssh_mcp_server.Server.Handlers.Refused.{
  is_open, authorize-refused, checked, Refused, IsRefused, handle-IsRefused,
}
use remote_ssh_mcp_server.Server.Dispatch.{
  Validated, instance_of, invalid, error_result, tool_result, run_tool, call_tool,
}

abbrev pub IsOpenName : Text → Type 0
IsOpenName name =
    (name ≡ codes "connect") ⊎ (name ≡ codes "disconnect") ⊎ (name ≡ codes "session_list")

abbrev OpenByName : ToolDefinition → Type 0
OpenByName d = (is_open d.handler ≡ false) ⊎ IsOpenName d.name

find_tool-OpenByName :
    (name : Text) (ds : List ToolDefinition) (d : ToolDefinition)
    → All OpenByName ds
    → find_tool name ds ≡ some d
    → (is_open d.handler ≡ false) ⊎ IsOpenName name
unfolding find_tool
find_tool-OpenByName name [] d all h = absurd (cc)
find_tool-OpenByName name (e ∷ ds) d all h = elim (Bool-cases (text_eq e.name name)) [
  | inr other ↦ find_tool-OpenByName name ds d all.1 (ground (arith, other))
  | inl same ↦
      let e_is_d : e ≡ d = ground (arith, same) in
      subst (λ n. (is_open d.handler ≡ false) ⊎ IsOpenName n)
        ((text_eq_iff d.name name).0
          (subst (λ (x : ToolDefinition). text_eq x.name name ≡ true) e_is_d same))
        (subst OpenByName e_is_d all.0)
]

tool_definitions-OpenByName : All OpenByName tool_definitions
unfolding tool_definitions
tool_definitions-OpenByName =
    (inr (inl refl), (inr (inr (inl refl)), (inr (inr (inr refl)), keyed)))
  where
    keyed : All OpenByName (drop 3 tool_definitions)
    keyed = (
      inl refl,
      (
        inl refl,
        (
          inl refl,
          (inl refl, (inl refl, (inl refl, (inl refl, (inl refl, (inl refl, (inl refl, tt))))))),
        ),
      ),
    )

module _ {Arguments Spec S : Type 0} (model_validate : InputModel → Arguments → Validated)
    (env : Environment Spec S) where
  -- A call that has done nothing but to answer with an error.
  abbrev pub IsRejected : Text → Arguments → App S → Type 0
  IsRejected name arguments app =
      (model : OutputModel) × (code : Code) × (message : Option Text) × (call_tool model_validate
          env name arguments app
        ≡ (ok (error_result model code message), app))

  -- The tool's arguments hold the key that `connect` has issued last under their session's id, and
  -- that session is ready and not being closed.
  abbrev pub HoldsKey : Text → Arguments → App S → List (Text × Text) → Type 0
  HoldsKey name arguments app issued =
      (definition : ToolDefinition) × (r : Request) × (request : SessionInput) × (s : RemoteSession)
      × (find_tool name tool_definitions ≡ some definition)
      × (model_validate definition.input_model arguments ≡ instance_of r)
      × (session_of r ≡ some request)
      × (last_key request.session_id issued ≡ some request.session_key)
      × (s.session_id ≡ request.session_id)
      × (s.closing ≡ false)
      × (s.services ≡ true)

  run_tool-refused :
      (definition : ToolDefinition) (r : Request) (code : Code) (app : App S)
      → IsRefused env app code (handle env definition.handler r app)
      → (c : Code) × (message : Option Text) × (run_tool model_validate env definition
            (instance_of r)
            app
          ≡ (ok (error_result definition.output_model c message), app))
  unfolding run_tool tool_result
  run_tool-refused definition r code app (inl e) = (code, none, rw e)
  run_tool-refused definition r code app (inr e) =
      (internal_error, some (codes "tool failed internally"), rw e)

  rejected :
      (name : Text) (arguments : Arguments) (app : App S) (definition : ToolDefinition)
      (r : Request) (code : Code)
      → find_tool name tool_definitions ≡ some definition
      → model_validate definition.input_model arguments ≡ instance_of r
      → is_open definition.handler ≡ false
      → Refused env app (session_of r) code
      → IsRejected name arguments app
  unfolding call_tool
  rejected name arguments app definition r code found instance keyed refused =
      let (c, message, answer) =
        run_tool-refused definition r code app
          (handle-IsRefused env app code definition.handler r keyed refused) in
      (definition.output_model, c, message, rw (found, call_tool, instance) answer)

  module _ (apart : (k l : Text) → env.key_digest k ≡ env.key_digest l → k ≡ l) (max_sessions : ℕ)
      (w : World) (reached : Reach env.key_digest (new_world max_sessions) w) (name : Text)
      (arguments : Arguments) (app : App S) (current : app.manager ≡ w.manager) where
    by_session :
        (definition : ToolDefinition) (r : Request)
        → find_tool name tool_definitions ≡ some definition
        → model_validate definition.input_model arguments ≡ instance_of r
        → is_open definition.handler ≡ false
        → IsRejected name arguments app ⊎ HoldsKey name arguments app w.issued
    by_session definition r found instance keyed = elim (Option-cases (session_of r)) [
      | inl missing ↦ inl (
          rejected name arguments app definition r internal_error found instance keyed
            (subst (λ o. Refused env app o internal_error) (sym missing) tt))
      | inr (request, there) ↦ elim (Result-cases (checked env app request).0) [
        | inr (e, refusal) ↦
            let (code, same, whole) =
              authorize-refused env.key_digest (env.now app) request.session_id request.session_key
                app.manager e refusal in
            inl (
              rejected name arguments app definition r code found instance keyed
                (subst (λ o. Refused env app o code) (sym there) whole))
        | inl (s, accepted) ↦
            let (key, id, unclosed, ready) =
              Reach-authorize env.key_digest max_sessions w (env.now app) request.session_id
                request.session_key s apart reached
                (subst
                  (λ m.
                    (authorize env.key_digest (env.now app) request.session_id request.session_key
                      m).0
                    ≡ ok s)
                  current accepted) in
            inr (definition, r, request, s, found, instance, there, key, id, unclosed, ready)
      ]
    ]

    by_validation :
        (definition : ToolDefinition) (v : Validated)
        → find_tool name tool_definitions ≡ some definition
        → model_validate definition.input_model arguments ≡ v
        → is_open definition.handler ≡ false
        → IsRejected name arguments app ⊎ HoldsKey name arguments app w.issued
    unfolding call_tool run_tool
    by_validation definition (instance_of r) found e keyed = by_session definition r found e keyed
    by_validation definition (invalid details) found e keyed = inl (
      definition.output_model,
      invalid_arguments,
      some (validation_message definition.input_model details),
      rw (found, call_tool, e),
    )

    -- In every state that the callers can bring about, whoever calls a tool other than `connect`,
    -- `disconnect` and `session_list` either holds the key that `connect` has issued last for the
    -- session, which is ready and not being closed, or gets an error, and then no service has been
    -- called and nothing has changed. So it is whatever the services do, and however the arguments
    -- are validated. SHA-256 is taken to tell the keys apart.
    pub call_tool-guarded :
        IsOpenName name ⊎ IsRejected name arguments app ⊎ HoldsKey name arguments app w.issued
    unfolding call_tool
    call_tool-guarded = elim (Option-cases (find_tool name tool_definitions)) [
      | inl missing ↦ inr (
          inl (
            transfer_response,
            unknown_tool,
            some (codes "requested tool is not available"),
            rw missing,
          ))
      | inr (definition, found) ↦
          elim (find_tool-OpenByName name tool_definitions definition tool_definitions-OpenByName
            found) [
              | inr open_tool ↦ inl open_tool
              | inl keyed ↦ inr (
                  by_validation definition (model_validate definition.input_model arguments) found
                    refl keyed)
            ]
    ]
