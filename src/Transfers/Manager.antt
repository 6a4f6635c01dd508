-- ===== src/Transfers/Manager.antt =====
-- `TransferManager` of remote_ssh_mcp/transfers.py: the registry of one session's operations.
pub mod Reserved
pub mod Steps
pub mod World
pub mod Calls
use remote_ssh_mcp_server.Prelude.Lists.{length}
use remote_ssh_mcp_server.Prelude.Text.{Text, text_eq}
use remote_ssh_mcp_server.Prelude.{
  ℕ, zero, suc, ◌+◌, ◌-◌, Bool, true, false, not, ◌&&◌, ◌||◌, Option, none, some, List, [], ◌∷◌,
  ◌++◌, leb, if◌then◌else◌,
}
use remote_ssh_mcp_server.Errors.{
  Raised, remote, Result, ok, err, transfer_manager_closed, transfer_limit_reached,
  transfer_conflict, transfer_not_found,
}
use remote_ssh_mcp_server.Transfers.Operation.{
  Direction, TransferState, cancelled, is_final, TransferOperation, Reservations, claim, set_state,
}

-- `operations` is the dict, in insertion order, keyed by `operation_id`.
pub record TransferManager : Type 0 where
  pub max_transfers : ℕ
  pub completed_ttl : ℕ
  pub operations : List TransferOperation
  pub closed : Bool

-- A manager and the reservations that it shares.
pub record Shared : Type 0 where
  pub manager : TransferManager
  pub claimed : Reservations

-- `operation._finished_monotonic is not None and now - operation._finished_monotonic >= ttl`
is_expired : ℕ → ℕ → Option ℕ → Bool
is_expired now ttl none = false
is_expired now ttl (some finished) = leb (finished + ttl) now

keep_fresh : ℕ → ℕ → List TransferOperation → List TransferOperation
unfolding is_expired
keep_fresh now ttl [] = []
keep_fresh now ttl (op ∷ ops) =
    let rest = keep_fresh now ttl ops in
    if is_expired now ttl op.finished_monotonic then rest else op ∷ rest

-- `_prune`
unfoldable pub prune : ℕ → TransferManager → TransferManager
unfolding keep_fresh
prune now m = record m { operations = keep_fresh now m.completed_ttl m.operations }

pub count_active : List TransferOperation → ℕ
count_active [] = 0
count_active (op ∷ ops) = (if is_final op.state then 0 else 1) + count_active ops

-- `active_count`
unfoldable pub active_count : TransferManager → ℕ
unfolding count_active
active_count m = count_active m.operations

-- `self._operations.get(operation_id)`
unfoldable pub find_operation : Text → List TransferOperation → Option TransferOperation
unfolding text_eq
find_operation id [] = none
find_operation id (op ∷ ops) = if text_eq op.operation_id id then some op else find_operation id ops

-- `self._operations[operation.operation_id] = operation`
unfoldable pub store : TransferOperation → List TransferOperation → List TransferOperation
unfolding text_eq
store op [] = op ∷ []
store op (o ∷ ops) = if text_eq o.operation_id op.operation_id then op ∷ ops else o ∷ store op ops

-- `_register`
unfoldable pub register : ℕ → TransferOperation → Shared → Result (Unit {0}) × Shared
register now op s =
    if s.manager.closed
    then (err (remote transfer_manager_closed), s)
    else (let m = prune now s.manager in
        if leb m.max_transfers (active_count m)
        then (err (remote transfer_limit_reached), record s { manager = m })
        else (let (free, claimed) = claim op.resource_key s.claimed in
            if free
            then (
              ok tt,
              record {
                manager = record m {
                  operations = store (record op { reserved = true }) m.operations;
                };
                claimed = claimed;
              },
            )
            else (err (remote transfer_conflict), record { manager = m; claimed = claimed })))

-- What a task does to its operation by `_set_state`. The object is the one in the dict.
unfoldable pub change_state : ℕ → Text → TransferState → Shared → Shared
unfolding find_operation store
change_state now id state s = elim (find_operation id s.manager.operations) [
  | none ↦ s
  | some op ↦
      let (op', claimed) = set_state now state op s.claimed in
      record {
        manager = record s.manager { operations = store op' s.manager.operations };
        claimed = claimed;
      }
]

-- `__init__`
unfoldable pub new_manager : ℕ → ℕ → TransferManager
new_manager max_transfers ttl = record {
  max_transfers = max_transfers;
  completed_ttl = ttl;
  operations = [];
  closed = false;
}

-- `self._closed = True` of `close`
unfoldable pub shut : TransferManager → TransferManager
shut m = record m { closed = true }
