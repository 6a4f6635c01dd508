-- ===== src/Transfers/Manager/Calls/Lookup.antt =====
-- What a lookup finds after a change of state.
use remote_ssh_mcp_server.Prelude.Text.{Text, text_eq, text_eq_iff}
use remote_ssh_mcp_server.Prelude.{
  ℕ, ◌≡◌, sym, ap, ◌∙◌, inl, inr, some, List, [], ◌∷◌, Bool-cases, arith, if◌then◌else◌,
}
use remote_ssh_mcp_server.Transfers.Operation.{
  TransferState, TransferOperation, set_state, Reservations,
}
use remote_ssh_mcp_server.Transfers.Manager.{Shared, find_operation, store, change_state}

-- What is found in a dict after a known key has been stored again.
find-store :
    (i : Text) (op old : TransferOperation) (ops : List TransferOperation)
    → find_operation op.operation_id ops ≡ some old
    → find_operation i (store op ops)
      ≡ (if text_eq op.operation_id i then some op else find_operation i ops)
unfolding find_operation store
find-store i op old [] h = absurd (cc)
find-store i op old (o ∷ ops) h = elim (Bool-cases (text_eq o.operation_id op.operation_id)) [
  | inl same ↦ rw same (rw ((text_eq_iff o.operation_id op.operation_id).0 same) (ground arith))
  | inr other ↦ rw other (
      ground (
        arith,
        find-store i op old ops (ground arith),
        text_eq_iff o.operation_id i,
        text_eq_iff op.operation_id i,
        text_eq_iff o.operation_id op.operation_id,
      ))
]

find_operation-id :
    (id : Text) (op : TransferOperation) (ops : List TransferOperation)
    → find_operation id ops ≡ some op
    → op.operation_id ≡ id
unfolding find_operation
find_operation-id id op [] h = absurd (cc)
find_operation-id id op (o ∷ ops) h = elim (Bool-cases (text_eq o.operation_id id)) [
  | inl same ↦
      let e : o ≡ op = ground arith in
      ap (λ p. p.operation_id) (sym e) ∙ (text_eq_iff o.operation_id id).0 same
  | inr other ↦ find_operation-id id op ops (ground arith)
]

set_state-id :
    (now : ℕ) (state : TransferState) (op : TransferOperation) (claimed : Reservations)
    → (set_state now state op claimed).0.operation_id ≡ op.operation_id
unfolding set_state
set_state-id now state op claimed = ground arith

pub set_state-state :
    (now : ℕ) (state : TransferState) (op : TransferOperation) (claimed : Reservations)
    → (set_state now state op claimed).0.state ≡ state
unfolding set_state
set_state-state now state op claimed = ground arith

-- What is found after a change of state.
pub find-change_state :
    (now : ℕ) (i id : Text) (state : TransferState) (op : TransferOperation) (s : Shared)
    → find_operation id s.manager.operations ≡ some op
    → find_operation i (change_state now id state s).manager.operations ≡ (
        if text_eq id i
        then some (set_state now state op s.claimed).0
        else find_operation i s.manager.operations)
unfolding change_state
find-change_state now i id state op s found =
    let op' = (set_state now state op s.claimed).0 in
    let same : op'.operation_id ≡ id =
      set_state-id now state op s.claimed ∙ find_operation-id id op s.manager.operations found in
    rw (found, change_state)
      (find-store i op' op s.manager.operations
          (ap (λ k. find_operation k s.manager.operations) same ∙ found)
        ∙ ap (λ k. if text_eq k i then some op' else find_operation i s.manager.operations) same)
