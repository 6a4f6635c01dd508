-- ===== src/Transfers/Manager/Steps.antt =====
-- Every step of a manager and of the other sessions keeps the reservations exact.
use remote_ssh_mcp_server.Prelude.Lists.{All}
use remote_ssh_mcp_server.Prelude.Text.{Text, text_eq, text_eq_iff}
use remote_ssh_mcp_server.Prelude.{
  ℕ, ◌+◌, ◌≤◌, ◌<◌, ◌≡◌, refl, ap, ◌∙◌, inl, inr, true, false, none, some, List, [], ◌∷◌, leb,
  arith, Bool-cases, if-cases, subst,
}
use remote_ssh_mcp_server.Errors.{Result}
use remote_ssh_mcp_server.Transfers.Operation.{
  TransferState, pending, is_final, TransferOperation, Reservations, claim, set_state,
}
use remote_ssh_mcp_server.Transfers.Manager.{
  TransferManager, Shared, prune, keep_fresh, active_count, find_operation, store, register,
  change_state,
}
use remote_ssh_mcp_server.Transfers.Manager.Reserved.{
  count, IsConsistent, Inv, count-claim, count-release, Stored, store-fresh, store-known, prune-Inv,
  IsNew, own, active, own-le-holders,
}

find_operation-keep_fresh :
    (now ttl : ℕ) (id : Text) (ops : List TransferOperation)
    → find_operation id ops ≡ none
    → find_operation id (keep_fresh now ttl ops) ≡ none
unfolding find_operation keep_fresh
find_operation-keep_fresh now ttl id [] h = refl
find_operation-keep_fresh now ttl id (op ∷ ops) h =
    ground (arith, find_operation-keep_fresh now ttl id ops)

-- The last part of `register`: the key is claimed or it is not.
admit-Inv :
    (others : List Text) (op : TransferOperation) (s : Shared)
    → op.state ≡ pending
    → op.finished_monotonic ≡ none
    → find_operation op.operation_id s.manager.operations ≡ none
    → active_count s.manager < s.manager.max_transfers
    → (claim op.resource_key s.claimed).0 ≡ true
    → Inv others s
    → Inv others (record {
      manager = record s.manager {
        operations = store (record op { reserved = true }) s.manager.operations;
      };
      claimed = (claim op.resource_key s.claimed).1;
    })
unfolding active_count
admit-Inv others op s is_pending unfinished fresh room free v =
    let kept : Stored (record op { reserved = true }) 0 (λ k. 0) s.manager.operations =
      store-fresh (record op { reserved = true }) s.manager.operations
        (record { holds = rw is_pending; ended = rw (unfinished, is_pending) }) v.consistent
        fresh in
    record {
      balanced = λ k.
          ground (arith, v.balanced k, kept.held k, count-claim k op.resource_key s.claimed free);
      single = λ k. ground (
        arith,
        v.single k,
        text_eq_iff k op.resource_key,
        count-claim k op.resource_key s.claimed free,
      );
      consistent = kept.consistent;
      limited = ground (arith, v.limited, kept.counted);
    }

fresh-prune :
    (now : ℕ) (op : TransferOperation) (m : TransferManager)
    → find_operation op.operation_id m.operations ≡ none
    → find_operation op.operation_id (prune now m).operations ≡ none
unfolding prune
fresh-prune now op m h =
    find_operation-keep_fresh now m.completed_ttl op.operation_id m.operations h

claim-taken :
    (key : Text) (claimed : Reservations)
    → (claim key claimed).0 ≡ false
    → (claim key claimed).1 ≡ claimed
unfolding claim
claim-taken key claimed h = ground arith

abbrev Kept : List Text → Result (Unit {0}) × Shared → Type 0
Kept others r = Inv others r.1

pub register-Inv :
    (others : List Text) (now : ℕ) (op : TransferOperation) (s : Shared)
    → IsNew op s.manager
    → Inv others s
    → Inv others (register now op s).1
unfolding register
register-Inv others now op s new v =
    let m = prune now s.manager in
    let pruned : Inv others (record s { manager = m }) = prune-Inv others now s v in
    if-cases (Kept others) s.manager.closed (λ _. v)
      (λ _.
        if-cases (Kept others) (leb m.max_transfers (active_count m)) (λ _. pruned)
          (λ room.
            if-cases (Kept others) (claim op.resource_key s.claimed).0
              (λ free.
                admit-Inv others op (record s { manager = m }) new.is_pending new.unfinished
                  (fresh-prune now op s.manager new.fresh) (ground (arith, room)) free pruned)
              (λ taken. rw (claim-taken op.resource_key s.claimed taken) pruned)))

-- What `_set_state` does to a consistent active operation and the set.
record Moved (others : List Text) (op op' : TransferOperation) (claimed claimed' : Reservations)
    : Type 0 where
  same_id : op'.operation_id ≡ op.operation_id
  moved : IsConsistent op'
  less : active op' ≤ active op
  fewer : (k : Text) → own k op' ≤ own k op
  same_count :
      (k : Text)
      → count k claimed ≤ 1
      → own k op ≤ count k claimed
      → count k claimed' + own k op ≡ count k claimed + own k op'

set_state-Moved :
    (others : List Text) (now : ℕ) (state : TransferState) (op : TransferOperation)
    (claimed : Reservations)
    → is_final op.state ≡ false
    → IsConsistent op
    → let (op', claimed') = set_state now state op claimed in Moved others op op' claimed claimed'
unfolding set_state
set_state-Moved others now state op claimed h c = record {
  same_id = ground arith;
  moved = ground arith;
  less = ground arith;
  fewer = λ k. ground arith;
  same_count = λ k single mine. ground (
    arith,
    count-release k op.resource_key claimed,
    text_eq_iff k op.resource_key,
    text_eq_iff op.resource_key k,
  );
}

find_operation-IsConsistent :
    (id : Text) (op : TransferOperation) (ops : List TransferOperation)
    → find_operation id ops ≡ some op
    → All IsConsistent ops
    → IsConsistent op × (op.operation_id ≡ id)
unfolding find_operation
find_operation-IsConsistent id op [] h cs = absurd (cc)
find_operation-IsConsistent id op (o ∷ ops) h (c, cs) =
    elim (Bool-cases (text_eq o.operation_id id)) [
      | inl same ↦
          let e : o ≡ op = ground arith in
          (subst IsConsistent e c, ground (arith, text_eq_iff o.operation_id id))
      | inr other ↦ find_operation-IsConsistent id op ops (ground arith) cs
    ]

move-Inv :
    (others : List Text) (s : Shared) (op op' : TransferOperation) (claimed' : Reservations)
    → find_operation op.operation_id s.manager.operations ≡ some op
    → Moved others op op' s.claimed claimed'
    → Inv others s
    → Inv others (record {
      manager = record s.manager { operations = store op' s.manager.operations };
      claimed = claimed';
    })
unfolding active_count
move-Inv others s op op' claimed' found mv v =
    let kept : Stored op' (active op) (λ k. own k op) s.manager.operations =
      store-known op' op s.manager.operations mv.moved v.consistent (rw mv.same_id found) in
    record {
      balanced =
          λ k. omega (arith, kept.held k, mv.same_count k (v.single k) (bound k), v.balanced k);
      single = λ k. omega (arith, mv.fewer k, mv.same_count k (v.single k) (bound k), v.single k);
      consistent = kept.consistent;
      limited = omega (arith, kept.counted, mv.less, v.limited);
    }
  where
    bound : (k : Text) → own k op ≤ count k s.claimed
    bound k =
        omega (arith, own-le-holders k op.operation_id op s.manager.operations found, v.balanced k)

pub change_state-Inv :
    (others : List Text) (now : ℕ) (id : Text) (state : TransferState) (op : TransferOperation)
    (s : Shared)
    → find_operation id s.manager.operations ≡ some op
    → is_final op.state ≡ false
    → Inv others s
    → Inv others (change_state now id state s)
unfolding change_state
change_state-Inv others now id state op s found running v =
    let (c, same) = find_operation-IsConsistent id op s.manager.operations found v.consistent in
    rw (found, change_state)
      (move-Inv others s op _ _ (ap (λ i. find_operation i s.manager.operations) same ∙ found)
        (set_state-Moved others now state op s.claimed running c) v)
