-- ===== src/Server/Handlers/Refused.antt =====
-- What the handlers do when `authorize` refuses.
use remote_ssh_mcp_server.Prelude.Text.{Text}
use remote_ssh_mcp_server.Prelude.{
  ℕ, ◌≡◌, ◌⊎◌, inl, inr, refl, ap, true, false, Option, none, some, Bool, Option-cases, arith,
}
use remote_ssh_mcp_server.Errors.{
  Code, Raised, remote, cancelled_error, other_error, session_not_found, Result, err, Result-cases,
}
use remote_ssh_mcp_server.Sessions.Session.{RemoteSession}
use remote_ssh_mcp_server.Sessions.Manager.{SessionManager, authorize, find_session, check_session}
use remote_ssh_mcp_server.Server.Models.{
  Request, SessionInput, session_of, exec_input, stat_input, list_directory_input,
  read_file_range_input, download_start_input, upload_start_input, transfer_id_input,
}
use remote_ssh_mcp_server.Server.Tools.{
  Handler, on_connect, on_disconnect, on_session_list, on_exec, on_sudo_exec, on_stat,
  on_list_directory, on_read_file_range, on_download_start, on_upload_start, on_transfer_status,
  on_transfer_cancel, on_transfer_list,
}
use remote_ssh_mcp_server.Server.Environment.{App, Call, resume, ◌>>=◌, Environment, Response}
use remote_ssh_mcp_server.Server.Handlers.{
  require_session, assertion_error, handle, exec_tool, sudo_exec_tool, stat_tool,
  list_directory_tool, read_file_range_tool, download_start_tool, upload_start_tool,
  transfer_status_tool, transfer_cancel_tool, transfer_list_tool, list_for,
}

check_session-refused :
    (key_digest : Text → Text) (key : Text) (s : RemoteSession) (e : Raised)
    → check_session key_digest key s ≡ err e
    → (code : Code) × (e ≡ remote code)
unfolding check_session
check_session-refused key_digest key s (remote code) h = (code, refl)
check_session-refused key_digest key s cancelled_error h = absurd (ground arith)
check_session-refused key_digest key s other_error h = absurd (ground arith)

-- `authorize` raises errors of the program only, and changes nothing when it refuses.
pub authorize-refused :
    (key_digest : Text → Text) (now : ℕ) (id key : Text) (m : SessionManager) (e : Raised)
    → (authorize key_digest now id key m).0 ≡ err e
    → (code : Code) × (e ≡ remote code)
      × (authorize key_digest now id key m ≡ (err (remote code), m))
unfolding authorize
authorize-refused key_digest now id key m e h = elim (Option-cases (find_session id m.sessions)) [
  | inl missing ↦ (session_not_found, ground (arith, missing), ground (arith, missing))
  | inr (s, found) ↦ elim (Result-cases (check_session key_digest key s)) [
    | inl (u, accepted) ↦ absurd (ground (arith, found, accepted))
    | inr (f, refusal) ↦
        let (code, same) = check_session-refused key_digest key s f refusal in
        (code, ground (arith, found, refusal), ground (arith, found, refusal, same))
  ]
]

-- The tools that need no key.
abbrev pub is_open : Handler → Bool
is_open on_connect = true
is_open on_disconnect = true
is_open on_session_list = true
is_open _ = false

module _ {Spec S : Type 0} (env : Environment Spec S) (app : App S) where
  abbrev pub checked : SessionInput → Result RemoteSession × SessionManager
  checked request =
      authorize env.key_digest (env.now app) request.session_id request.session_key app.manager

  -- `authorize` refuses the session of the request, be it that there is none.
  abbrev pub Refused : Option SessionInput → Code → Type 0
  Refused none code = Unit
  Refused (some request) code = checked request ≡ (err (remote code), app.manager)

  bind-Refused :
      {B : Type 0} (request : SessionInput) (code : Code) (rest : RemoteSession → Call S B)
      → Refused (some request) code
      → (require_session env request >>= rest) app ≡ (err (remote code), app)
  unfolding require_session
  bind-Refused request code rest h =
      ap
        (λ (c : Result RemoteSession × SessionManager).
          resume (c.0, record app { manager = c.1 }) rest)
        h

  -- Either the refusal of `authorize` or a failed assertion, and nothing has changed.
  abbrev pub IsRefused : Code → Result (Response Spec) × App S → Type 0
  IsRefused code answer = (answer ≡ (err (remote code), app)) ⊎ (answer ≡ (err other_error, app))

  module _ (code : Code) where
    exec-IsRefused :
        (r : Request) → Refused (session_of r) code → IsRefused code (exec_tool env r app)
    unfolding exec_tool session_of assertion_error
    exec-IsRefused (exec_input r) h = inl (bind-Refused r.session code _ h)
    exec-IsRefused _ h = inr refl

    sudo_exec-IsRefused :
        (r : Request) → Refused (session_of r) code → IsRefused code (sudo_exec_tool env r app)
    unfolding sudo_exec_tool session_of assertion_error
    sudo_exec-IsRefused (exec_input r) h = inl (bind-Refused r.session code _ h)
    sudo_exec-IsRefused _ h = inr refl

    stat-IsRefused :
        (r : Request) → Refused (session_of r) code → IsRefused code (stat_tool env r app)
    unfolding stat_tool session_of assertion_error
    stat-IsRefused (stat_input r) h = inl (bind-Refused r.session code _ h)
    stat-IsRefused _ h = inr refl

    list_directory-IsRefused :
        (r : Request) → Refused (session_of r) code → IsRefused code (list_directory_tool env r app)
    unfolding list_directory_tool session_of assertion_error
    list_directory-IsRefused (list_directory_input r) h = inl (bind-Refused r.session code _ h)
    list_directory-IsRefused _ h = inr refl

    read_file_range-IsRefused :
        (r : Request)
        → Refused (session_of r) code
        → IsRefused code (read_file_range_tool env r app)
    unfolding read_file_range_tool session_of assertion_error
    read_file_range-IsRefused (read_file_range_input r) h = inl (bind-Refused r.session code _ h)
    read_file_range-IsRefused _ h = inr refl

    download_start-IsRefused :
        (r : Request) → Refused (session_of r) code → IsRefused code (download_start_tool env r app)
    unfolding download_start_tool session_of assertion_error
    download_start-IsRefused (download_start_input r) h = inl (bind-Refused r.session code _ h)
    download_start-IsRefused _ h = inr refl

    upload_start-IsRefused :
        (r : Request) → Refused (session_of r) code → IsRefused code (upload_start_tool env r app)
    unfolding upload_start_tool session_of assertion_error
    upload_start-IsRefused (upload_start_input r) h = inl (bind-Refused r.session code _ h)
    upload_start-IsRefused _ h = inr refl

    transfer_status-IsRefused :
        (r : Request)
        → Refused (session_of r) code
        → IsRefused code (transfer_status_tool env r app)
    unfolding transfer_status_tool session_of assertion_error
    transfer_status-IsRefused (transfer_id_input r) h = inl (bind-Refused r.session code _ h)
    transfer_status-IsRefused _ h = inr refl

    transfer_cancel-IsRefused :
        (r : Request)
        → Refused (session_of r) code
        → IsRefused code (transfer_cancel_tool env r app)
    unfolding transfer_cancel_tool session_of assertion_error
    transfer_cancel-IsRefused (transfer_id_input r) h = inl (bind-Refused r.session code _ h)
    transfer_cancel-IsRefused _ h = inr refl

    transfer_list-IsRefused :
        (r : Request) → Refused (session_of r) code → IsRefused code (transfer_list_tool env r app)
    unfolding transfer_list_tool assertion_error
    transfer_list-IsRefused r h = for_session (session_of r) h
      where
        for_session :
            (o : Option SessionInput) → Refused o code → IsRefused code (list_for env o app)
        for_session none h = inr refl
        for_session (some request) h = inl (bind-Refused request code _ h)

    -- The handlers that ask for a session's key.
    pub handle-IsRefused :
        (h : Handler) (r : Request)
        → is_open h ≡ false
        → Refused (session_of r) code
        → IsRefused code (handle env h r app)
    unfolding handle
    handle-IsRefused on_connect r k h = absurd (cc)
    handle-IsRefused on_disconnect r k h = absurd (cc)
    handle-IsRefused on_session_list r k h = absurd (cc)
    handle-IsRefused on_exec r k h = exec-IsRefused r h
    handle-IsRefused on_sudo_exec r k h = sudo_exec-IsRefused r h
    handle-IsRefused on_stat r k h = stat-IsRefused r h
    handle-IsRefused on_list_directory r k h = list_directory-IsRefused r h
    handle-IsRefused on_read_file_range r k h = read_file_range-IsRefused r h
    handle-IsRefused on_download_start r k h = download_start-IsRefused r h
    handle-IsRefused on_upload_start r k h = upload_start-IsRefused r h
    handle-IsRefused on_transfer_status r k h = transfer_status-IsRefused r h
    handle-IsRefused on_transfer_cancel r k h = transfer_cancel-IsRefused r h
    handle-IsRefused on_transfer_list r k h = transfer_list-IsRefused r h
