-- ===== src/Transfers/Task/Active.antt =====
-- An operation whose task is running, and how it comes to an end.
use remote_ssh_mcp_server.Prelude.Text.{Text}
use remote_ssh_mcp_server.Prelude.{ℕ, ◌≡◌, true, false, none, [], arith}
use remote_ssh_mcp_server.Transfers.Operation.{
  TransferOperation, TransferState, Reservations, set_state, is_final,
}
use remote_ssh_mcp_server.Transfers.Task.{Job, modify, enter}
use remote_ssh_mcp_server.Transfers.Task.Triples.{Triple, Triple-modify}

-- The operation holds its reservation of `key` in the set `claimed`, and nothing has been published.
pub record Active (key : Text) (claimed : Reservations) (j : Job) : Type 0 where
  pub active : is_final j.operation.state ≡ false
  pub holds : j.operation.reserved ≡ true
  pub same_key : j.operation.resource_key ≡ key
  pub same_claimed : j.claimed ≡ claimed
  pub no_digest : j.operation.sha256 ≡ none

-- A change that leaves these fields alone.
pub record Frame (f : TransferOperation → TransferOperation) : Type 0 where
  pub state : (op : TransferOperation) → (f op).state ≡ op.state
  pub reserved : (op : TransferOperation) → (f op).reserved ≡ op.reserved
  pub resource_key : (op : TransferOperation) → (f op).resource_key ≡ op.resource_key
  pub sha256 : (op : TransferOperation) → (f op).sha256 ≡ op.sha256

-- Nothing has been put in the destination's place.
pub record Clean (key : Text) (claimed : Reservations) (j : Job) : Type 0 where
  pub operation : Active key claimed j
  pub unpublished : j.published ≡ []

module _ {key : Text} {claimed : Reservations} where
  pub Active-frame :
      (f : TransferOperation → TransferOperation) (j : Job)
      → Frame f
      → Active key claimed j
      → Active key claimed (record j { operation = f j.operation })
  Active-frame f j fr a = record {
    active = rw fr.state a.active;
    holds = rw fr.reserved a.holds;
    same_key = rw fr.resource_key a.same_key;
    same_claimed = a.same_claimed;
    no_digest = rw fr.sha256 a.no_digest;
  }

  pub Clean-modify :
      (f : TransferOperation → TransferOperation)
      → Frame f
      → Triple (Clean key claimed) (modify f) (λ _. Clean key claimed) (Clean key claimed)
  Clean-modify f fr =
      Triple-modify f
        λ j c. record { operation = Active-frame f j fr c.operation; unpublished = c.unpublished }

  Active-enter :
      (now : ℕ) (state : TransferState) (j : Job)
      → is_final state ≡ false
      → Active key claimed j
      → Active key claimed (enter now state j).1
  unfolding enter set_state
  Active-enter now state j h a = ground arith

  pub Clean-enter :
      (now : ℕ) (state : TransferState)
      → is_final state ≡ false
      → Triple (Clean key claimed) (enter now state) (λ _. Clean key claimed) (Clean key claimed)
  unfolding enter
  Clean-enter now state h = record {
    at = λ j c. record {
      operation = Active-enter now state j h c.operation;
      unpublished = c.unpublished;
    };
  }
