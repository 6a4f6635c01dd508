-- ===== src/Server/Validation.antt =====
-- `_validation_message` of remote_ssh_mcp/server.py. The details of a `ValidationError` are what
-- pydantic gives.
pub mod Silent
use Prim.Native.Nat.{compare, Ordering}
use remote_ssh_mcp_server.Prelude.Lists.{is_nil}
use remote_ssh_mcp_server.Prelude.Text.{Text, codes, text_eq, text_lt, mem_text}
use remote_ssh_mcp_server.Prelude.{
  Bool, true, false, not, ◌&&◌, ◌||◌, Option, none, some, List, [], ◌∷◌, ◌++◌, ltb, ◌==◌,
  if◌then◌else◌,
}
use remote_ssh_mcp_server.Server.Models.{
  InputModel, empty_model, connect_model, disconnect_model, session_model, exec_model, stat_model,
  list_directory_model, read_file_range_model, download_start_model, upload_start_model,
  transfer_id_model,
}

-- One of `error.errors(…)`: the first entry of "loc", if there is one, and whether "type" is
-- "extra_forbidden". The rest is not looked at.
pub record Detail : Type 0 where
  pub loc : Option Text
  pub extra_forbidden : Bool

abbrev session_fields : List Text
session_fields = codes "session_id" ∷ codes "session_key" ∷ []

-- `model.model_fields`
unfoldable pub model_fields : InputModel → List Text
model_fields empty_model = []
model_fields connect_model = codes "ssh_alias" ∷ codes "host" ∷ codes "user" ∷ codes "port" ∷ []
model_fields disconnect_model = codes "session_id" ∷ []
model_fields session_model = session_fields
model_fields exec_model =
    session_fields ++ (codes "command" ∷ codes "cwd" ∷ codes "timeout" ∷ codes "spool_output" ∷ [])
model_fields stat_model = session_fields ++ (codes "remote_path" ∷ [])
model_fields list_directory_model = session_fields ++ (codes "remote_path" ∷ [])
model_fields read_file_range_model =
    session_fields ++ (codes "remote_path" ∷ codes "offset" ∷ codes "max_bytes" ∷ [])
model_fields download_start_model =
    session_fields ++ (codes "remote_path" ∷ codes "local_path" ∷ codes "overwrite" ∷ [])
model_fields upload_start_model =
    session_fields ++ (codes "local_path" ∷ codes "remote_path" ∷ codes "overwrite" ∷ [])
model_fields transfer_id_model = session_fields ++ (codes "operation_id" ∷ [])

-- A sorted list without repetitions, with one more name.
unfoldable pub add_name : Text → List Text → List Text
unfolding text_eq text_lt
add_name name [] = name ∷ []
add_name name (other ∷ names) =
    let rest = add_name name names in
    if text_eq name other
    then other ∷ names
    else if text_lt name other
    then name ∷ other ∷ names
    else other ∷ rest

-- The tests of the comprehension on one detail: the name that it adds.
unfoldable pub named_field : InputModel → Detail → Option Text
unfolding model_fields mem_text
named_field model detail = elim detail.loc [
  | none ↦ none
  | some name ↦
      if not detail.extra_forbidden && mem_text name (model_fields model) then some name else none
]

-- `fields`
unfoldable pub invalid_fields : InputModel → List Detail → List Text
unfolding named_field add_name
invalid_fields model [] = []
invalid_fields model (detail ∷ details) = elim (named_field model detail) [
  | none ↦ invalid_fields model details
  | some name ↦ add_name name (invalid_fields model details)
]

-- `any(detail["type"] == "extra_forbidden" …)`
unfoldable pub any_extra : List Detail → Bool
any_extra [] = false
any_extra (detail ∷ details) = detail.extra_forbidden || any_extra details

-- `", ".join(…)`
unfoldable pub join_names : List Text → Text
join_names [] = []
join_names (name ∷ []) = name
join_names (name ∷ next ∷ names) = name ++ (codes ", " ++ join_names (next ∷ names))

abbrev when : Bool → Text → Text
when test t = if test then t else []

-- `_validation_message`
unfoldable pub validation_message : InputModel → List Detail → Text
unfolding invalid_fields any_extra join_names mem_text
validation_message model details =
    let fields = invalid_fields model details in
    codes "tool arguments failed strict validation"
    ++ (when (not (is_nil fields)) (codes "; missing or invalid fields: " ++ join_names fields)
        ++ (when (any_extra details) (codes "; unknown fields are not allowed")
            ++ when (mem_text (codes "session_id") fields || mem_text (codes "session_key") fields)
                (codes "; pass the session_id and session_key returned by connect")))
