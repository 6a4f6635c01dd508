-- ===== src/Transfers/Task.antt =====
-- The bodies of the background tasks: they change their operation and the shared reservations, and
-- a raised exception leaves what has been changed.
pub mod Triples
pub mod Active
pub mod Ending
use remote_ssh_mcp_server.Prelude.Text.{Text}
use remote_ssh_mcp_server.Prelude.{ℕ, Bool, true, false, Option, none, some, List}
use remote_ssh_mcp_server.Errors.{Code, Raised, remote, Result, ok, err}
use remote_ssh_mcp_server.Transfers.Operation.{
  TransferOperation, TransferState, Reservations, set_state,
}

-- `published` lists what was put in the place of a destination.
pub record Job : Type 0 where
  pub operation : TransferOperation
  pub claimed : Reservations
  pub published : List Text

abbrev pub Task : Type 0 → Type 0
Task A = Job → Result A × Job

abbrev pub continue : {A B : Type 0} → Result A → (A → Task B) → Task B
continue (ok a) f j = f a j
continue (err e) f j = (err e, j)

infixl 5 ◌>>=◌ ◌>>◌
unfoldable pub ◌>>=◌ : {A B : Type 0} → Task A → (A → Task B) → Task B
◌>>=◌ m f j = let (r, j') = m j in continue r f j'

abbrev pub ◌>>◌ : {B : Type 0} → Task (Unit {0}) → Task B → Task B
m >> n = m >>= λ _. n

-- A call that changes nothing here, from what it gives.
unfoldable pub lift : {A : Type 0} → Result A → Task A
lift r j = (r, j)

unfoldable pub modify : (TransferOperation → TransferOperation) → Task (Unit {0})
modify f j = (ok tt, record j { operation = f j.operation })

-- `if not test: raise RemoteMCPError(code)`
check : Bool → Code → Result (Unit {0})
check true c = ok tt
check false c = err (remote c)

unfoldable pub ensure : Bool → Code → Task (Unit {0})
unfolding check
ensure test c j = (check test c, j)

-- `self._set_state(operation, state)`
unfoldable pub enter : ℕ → TransferState → Task (Unit {0})
enter now state j =
    let (operation, claimed) = set_state now state j.operation j.claimed in
    (ok tt, record j { operation = operation; claimed = claimed })
