-- ===== src/Transfers/Task/Ending.antt =====
-- How a task that is running comes to an end, for both kinds of transfer. `Agreed h` says that both
-- sides have the digest `h`, and `Target path` that `path` is where the bytes are to go.
use remote_ssh_mcp_server.Prelude.Text.{Text}
use remote_ssh_mcp_server.Prelude.{
  ℕ, ◌≡◌, ◌⊎◌, refl, sym, subst, ◌∙◌, true, false, none, some, [], ◌∷◌, arith,
}
use remote_ssh_mcp_server.Transfers.Operation.{
  TransferOperation, TransferState, completed, failed, cancelled, Reservations, release, set_state,
  is_final,
}
use remote_ssh_mcp_server.Transfers.Task.{Job, enter}
use remote_ssh_mcp_server.Transfers.Task.Active.{Active, Frame, Active-frame}

module _ (key : Text) (claimed : Reservations) (Agreed Target : Text → Type 0) where
  -- Nothing has been published, or the digests agreed before.
  abbrev pub Safe : Job → Type 0
  Safe j = Active key claimed j × ((j.published ≡ []) ⊎ ((h : Text) × Agreed h))

  -- The bytes with the digest `h` are at `path`, and nothing else has been published.
  pub record Published (h path : Text) (j : Job) : Type 0 where
    pub agreed : Agreed h
    pub target : Target path
    pub operation : Active key claimed j
    pub published : j.published ≡ path ∷ []

  -- The operation is over and its reservation given back.
  pub record Over (state : TransferState) (j : Job) : Type 0 where
    pub reached : j.operation.state ≡ state
    pub unreserved : j.operation.reserved ≡ false
    pub released : j.claimed ≡ release key claimed

  pub data End (j : Job) : Type 0 where
    succeeds :
        (h path : Text)
        → Agreed h
        → Target path
        → Over completed j
        → j.operation.sha256 ≡ some h
        → j.published ≡ path ∷ []
        → End j
    fails :
        (state : TransferState)
        → (state ≡ failed) ⊎ (state ≡ cancelled)
        → Over state j
        → j.operation.sha256 ≡ none
        → (j.published ≡ []) ⊎ ((h : Text) × Agreed h)
        → End j

  Over-enter :
      (now : ℕ) (state : TransferState) (j : Job)
      → is_final state ≡ true
      → j.operation.reserved ≡ true
      → j.operation.resource_key ≡ key
      → j.claimed ≡ claimed
      → Over state (enter now state j).1
  unfolding enter set_state
  Over-enter now state j final holds same_key same_claimed = record {
    reached = ground arith;
    unreserved = ground arith;
    released = ground arith;
  }

  sha256-enter :
      (now : ℕ) (state : TransferState) (j : Job)
      → ((enter now state j).1.operation.sha256 ≡ j.operation.sha256)
        × ((enter now state j).1.published ≡ j.published)
  unfolding enter set_state
  sha256-enter now state j = (ground arith, refl)

  -- An operation whose bytes have been published is given its digest and completed.
  pub finish :
      (f : TransferOperation → TransferOperation) (now : ℕ) (h path : Text) (j : Job)
      → ((op : TransferOperation) → (f op).sha256 ≡ some h)
      → ((op : TransferOperation) → (f op).reserved ≡ op.reserved)
      → ((op : TransferOperation) → (f op).resource_key ≡ op.resource_key)
      → Published h path j
      → End (enter now completed (record j { operation = f j.operation })).1
  finish f now h path j digest reserved resource_key p =
      let k : Job = record j { operation = f j.operation } in
      succeeds h path p.agreed p.target
        (Over-enter now completed k refl (reserved j.operation ∙ p.operation.holds)
          (resource_key j.operation ∙ p.operation.same_key) p.operation.same_claimed)
        ((sha256-enter now completed k).0 ∙ digest j.operation)
        ((sha256-enter now completed k).1 ∙ p.published)

  -- The `except` clauses end an operation whose body has raised.
  pub fail :
      (f : TransferOperation → TransferOperation) (now : ℕ) (state : TransferState) (j : Job)
      → Frame f
      → is_final state ≡ true
      → (state ≡ failed) ⊎ (state ≡ cancelled)
      → Safe j
      → End (enter now state (record j { operation = f j.operation })).1
  fail f now state j fr final named (a, safe) =
      let k : Job = record j { operation = f j.operation } in
      let b = Active-frame f j fr a in
      let (digest, published) = sha256-enter now state k in
      fails state named (Over-enter now state k final b.holds b.same_key b.same_claimed)
        (digest ∙ b.no_digest)
        (subst (λ ps. (ps ≡ []) ⊎ ((h : Text) × Agreed h)) (sym published) safe)
