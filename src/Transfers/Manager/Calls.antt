-- ===== src/Transfers/Manager/Calls.antt =====
-- `status`, `list`, `cancel` and `close` of `TransferManager` in remote_ssh_mcp/transfers.py. `cancel`
-- and `close` are cut at their waits for the tasks. What `to_dict` shows is read from the operation.
pub mod Lookup
pub mod Ended
use remote_ssh_mcp_server.Prelude.Text.{Text, text_eq, mem_text}
use remote_ssh_mcp_server.Prelude.{
  ℕ, Bool, true, false, not, ◌&&◌, ◌||◌, Option, none, some, List, [], ◌∷◌, if◌then◌else◌,
}
use remote_ssh_mcp_server.Errors.{Raised, remote, Result, ok, err, transfer_not_found}
use remote_ssh_mcp_server.Transfers.Operation.{
  Direction, download, upload, cancelled, is_final, TransferOperation,
}
use remote_ssh_mcp_server.Transfers.Manager.{
  TransferManager, Shared, prune, find_operation, store, change_state, shut,
}

with_size : Option ℕ → TransferOperation → TransferOperation
with_size none op = op
with_size (some size) op = record op { bytes_transferred = size }

-- A download that is not over takes the size of its partial, where `stat` gives one.
refresh : Option ℕ → TransferOperation → TransferOperation
unfolding with_size
refresh partial_size op = elim op.direction [
  | upload ↦ op
  | download ↦ if is_final op.state then op else with_size partial_size op
]

-- `status`
unfoldable pub status :
    ℕ → Text → Option ℕ → TransferManager → Result TransferOperation × TransferManager
unfolding prune find_operation store refresh
status now id partial_size m =
    let m' = prune now m in
    elim (find_operation id m'.operations) [
      | none ↦ (err (remote transfer_not_found), m')
      | some op ↦
          let op' = refresh partial_size op in
          (ok op', record m' { operations = store op' m'.operations })
    ]

-- `list`
unfoldable pub list_operations : ℕ → TransferManager → List TransferOperation × TransferManager
unfolding prune
list_operations now m = let m' = prune now m in (m'.operations, m')

-- `operation._cancel_event.set()`
abbrev pub note_cancel : TransferOperation → TransferOperation
note_cancel op = record op { cancel_event = true }

-- `cancel` up to its wait: whether it waits, or else returns the operation as it is.
unfoldable pub begin_cancel : Text → TransferManager → Result Bool × TransferManager
unfolding find_operation store
begin_cancel id m = elim (find_operation id m.operations) [
  | none ↦ (err (remote transfer_not_found), m)
  | some op ↦
      if is_final op.state || not op.task
      then (ok false, m)
      else (ok true, record m { operations = store (note_cancel op) m.operations })
]

-- `if operation.state not in FINAL_STATES: self._set_state(operation, CANCELLED)`, after the wait
unfoldable pub end_cancel : ℕ → Text → Shared → Shared
unfolding find_operation change_state
end_cancel now id s = elim (find_operation id s.manager.operations) [
  | none ↦ s
  | some op ↦ if is_final op.state then s else change_state now id cancelled s
]

-- The operations whose tasks `close` cancels, by their ids.
unfoldable pub running_tasks : List TransferOperation → List Text
running_tasks [] = []
running_tasks (op ∷ ops) =
    let rest = running_tasks ops in
    if op.task && not (is_final op.state) then op.operation_id ∷ rest else rest

note_all : List Text → List TransferOperation → List TransferOperation
unfolding mem_text
note_all ids [] = []
note_all ids (op ∷ ops) =
    let rest = note_all ids ops in
    if mem_text op.operation_id ids then note_cancel op ∷ rest else op ∷ rest

-- `close` up to its wait: the tasks that are cancelled, and the manager.
unfoldable pub begin_close : TransferManager → List Text × TransferManager
unfolding running_tasks note_all shut
begin_close m = if m.closed then ([], m) else (
  running_tasks m.operations,
  shut (record m { operations = note_all (running_tasks m.operations) m.operations }),
)

-- `close` after its wait.
unfoldable pub end_close : ℕ → List Text → Shared → Shared
unfolding end_cancel
end_close now [] s = s
end_close now (id ∷ ids) s = end_close now ids (end_cancel now id s)
