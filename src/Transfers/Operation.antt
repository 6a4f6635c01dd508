-- ===== src/Transfers/Operation.antt =====
-- `TransferOperation`, its states and `_set_state` of remote_ssh_mcp/transfers.py, with the
-- `TransferReservations` that all sessions of a process share.
use remote_ssh_mcp_server.Prelude.Int.{ℤ}
use remote_ssh_mcp_server.Prelude.Text.{Text, text_eq, mem_text}
use remote_ssh_mcp_server.Prelude.{
  ℕ, Bool, true, false, Option, none, some, List, [], ◌∷◌, if◌then◌else◌,
}
use remote_ssh_mcp_server.Errors.{Code}

pub data Direction : Type 0 where
  download upload : Direction

pub data TransferState : Type 0 where
  pending running verifying completed failed cancelled : TransferState

-- `state in FINAL_STATES`
abbrev pub is_final : TransferState → Bool
is_final completed = true
is_final failed = true
is_final cancelled = true
is_final _ = false

-- Times are ticks of one clock; paths are texts. `task` says whether the task exists.
pub record TransferOperation : Type 0 where
  pub operation_id : Text
  pub direction : Direction
  pub local_path : Text
  pub remote_path : Text
  pub overwrite : Bool
  pub state : TransferState
  pub started_at : Option ℕ
  pub finished_at : Option ℕ
  pub bytes_transferred : ℕ
  pub total_bytes : Option ℕ
  pub sha256 : Option Text
  pub exit_code : Option ℤ
  pub stdout_tail : Text
  pub stderr_tail : Text
  pub error : Option Code
  pub resource_key : Text
  pub partial_path : Text
  pub task : Bool
  pub cancel_event : Bool
  pub finished_monotonic : Option ℕ
  pub reserved : Bool

-- `TransferReservations._claimed`, a set
abbrev pub Reservations : Type 0
Reservations = List Text

-- `claim`: whether the key was free, and the set with it.
unfoldable pub claim : Text → Reservations → Bool × Reservations
unfolding mem_text
claim key claimed = if mem_text key claimed then (false, claimed) else (true, key ∷ claimed)

-- `release`: `set.discard`
unfoldable pub release : Text → Reservations → Reservations
unfolding text_eq
release key [] = []
release key (k ∷ ks) = let rest = release key ks in if text_eq key k then rest else k ∷ rest

-- `if state is TransferState.RUNNING and operation.started_at is None`
stamp_start : ℕ → TransferState → Option ℕ → Option ℕ
stamp_start now running none = some now
stamp_start now state started_at = started_at

finish : ℕ → TransferOperation → Reservations → TransferOperation × Reservations
finish now op claimed =
    let finished = record op { finished_at = some now; finished_monotonic = some now } in
    if op.reserved
    then (record finished { reserved = false }, release op.resource_key claimed)
    else (finished, claimed)

-- `_set_state`
unfoldable pub set_state :
    ℕ → TransferState → TransferOperation → Reservations → TransferOperation × Reservations
unfolding stamp_start finish
set_state now state op claimed =
    let op' = record op { state = state; started_at = stamp_start now state op.started_at } in
    if is_final state then finish now op' claimed else (op', claimed)
