-- ===== src/Transfers/Manager/Reserved.antt =====
-- Reservations against operations: the shared set holds the destination of each active operation
-- of every session, once, and nothing else.
use remote_ssh_mcp_server.Prelude.Lists.{All}
use remote_ssh_mcp_server.Prelude.Text.{Text, text_eq, text_eq_iff, mem_text}
use remote_ssh_mcp_server.Prelude.{
  ℕ, ◌+◌, ◌≤◌, ◌≡◌, refl, sym, ap, ◌∙◌, inl, inr, Bool, true, false, not, ◌&&◌, Option, none, some,
  List, [], ◌∷◌, if◌then◌else◌, arith, Bool-cases,
}
use remote_ssh_mcp_server.Transfers.Operation.{
  pending, is_final, TransferOperation, Reservations, claim, release,
}
use remote_ssh_mcp_server.Transfers.Manager.{
  TransferManager, Shared, prune, keep_fresh, is_expired, active_count, count_active,
  find_operation, store,
}

-- How often a key is claimed.
unfoldable pub count : Text → List Text → ℕ
count k [] = 0
count k (x ∷ xs) = (if text_eq k x then 1 else 0) + count k xs

-- How many operations hold a reservation of the key.
unfoldable pub holders : Text → List TransferOperation → ℕ
holders k [] = 0
holders k (op ∷ ops) = (if op.reserved && text_eq k op.resource_key then 1 else 0) + holders k ops

abbrev pub is_some {ℓ} : {A : Type ℓ} → Option A → Bool
is_some none = false
is_some (some a) = true

-- An operation holds its reservation while it is active, and the time of its end after that.
pub record IsConsistent (op : TransferOperation) : Type 0 where
  pub holds : op.reserved ≡ not (is_final op.state)
  pub ended : is_some op.finished_monotonic ≡ is_final op.state

-- `others` are the keys that the other sessions of the process hold.
pub record Inv (others : List Text) (s : Shared) : Type 0 where
  pub balanced : (k : Text) → count k s.claimed ≡ holders k s.manager.operations + count k others
  pub single : (k : Text) → count k s.claimed ≤ 1
  pub consistent : All IsConsistent s.manager.operations
  pub limited : active_count s.manager ≤ s.manager.max_transfers

count-absent : (key : Text) (keys : List Text) → mem_text key keys ≡ false → count key keys ≡ 0
unfolding mem_text count
count-absent key [] h = refl
count-absent key (x ∷ xs) h = ground (arith, count-absent key xs)

pub count-claim :
    (k key : Text) (claimed : Reservations)
    → (claim key claimed).0 ≡ true
    → (count k (claim key claimed).1 ≡ (if text_eq k key then 1 else 0) + count k claimed)
      × (count key claimed ≡ 0)
unfolding claim count
count-claim k key claimed h = ground (arith, count-absent key claimed)

pub count-release :
    (k key : Text) (claimed : Reservations)
    → count k (release key claimed) ≡ (if text_eq key k then 0 else count k claimed)
unfolding release count
count-release k key [] = ground arith
count-release k key (x ∷ xs) =
    ground (arith, count-release k key xs, text_eq_iff key x, text_eq_iff k x, text_eq_iff key k)

not_expired :
    (now ttl : ℕ) (finished : Option ℕ)
    → is_some finished ≡ false
    → is_expired now ttl finished ≡ false
unfolding is_expired
not_expired now ttl none h = refl
not_expired now ttl (some t) h = absurd (cc)

keep_fresh-Inv :
    (now ttl : ℕ) (ops : List TransferOperation)
    → All IsConsistent ops
    → All IsConsistent (keep_fresh now ttl ops)
      × (count_active (keep_fresh now ttl ops) ≡ count_active ops)
      × ((k : Text) → holders k (keep_fresh now ttl ops) ≡ holders k ops)
unfolding keep_fresh count_active holders
keep_fresh-Inv now ttl [] c = (tt, refl, λ k. refl)
keep_fresh-Inv now ttl (op ∷ ops) (c, cs) =
    let (rest, active, held) = keep_fresh-Inv now ttl ops cs in
    let ending = not_expired now ttl op.finished_monotonic in
    (
      ground (arith, rest, c),
      ground (arith, active, c.ended, ending),
      λ k. ground (arith, held k, c.ended, c.holds, ending),
    )

-- What one operation adds to the counts.
abbrev pub own : Text → TransferOperation → ℕ
own k op = if op.reserved && text_eq k op.resource_key then 1 else 0

abbrev pub active : TransferOperation → ℕ
active op = if is_final op.state then 0 else 1

pub record Stored (op : TransferOperation) (old : ℕ) (old_own : Text → ℕ)
    (ops : List TransferOperation) : Type 0 where
  pub consistent : All IsConsistent (store op ops)
  pub counted : count_active (store op ops) + old ≡ count_active ops + active op
  pub held : (k : Text) → holders k (store op ops) + old_own k ≡ holders k ops + own k op

pub store-fresh :
    (op : TransferOperation) (ops : List TransferOperation)
    → IsConsistent op
    → All IsConsistent ops
    → find_operation op.operation_id ops ≡ none
    → Stored op 0 (λ k. 0) ops
unfolding store find_operation count_active holders
store-fresh op [] c cs h = record {
  consistent = (c, tt);
  counted = omega arith;
  held = λ k. omega arith;
}
store-fresh op (o ∷ ops) c (c', cs) h = elim (Bool-cases (text_eq o.operation_id op.operation_id)) [
  | inl same ↦ absurd (ground arith)
  | inr other ↦
      let rest = store-fresh op ops c cs (ground arith) in
      record {
        consistent = rw other (c', rest.consistent);
        counted = rw other (omega (arith, rest.counted));
        held = λ k. rw other (omega (arith, rest.held k));
      }
]

pub store-known :
    (op old : TransferOperation) (ops : List TransferOperation)
    → IsConsistent op
    → All IsConsistent ops
    → find_operation op.operation_id ops ≡ some old
    → Stored op (active old) (λ k. own k old) ops
unfolding store find_operation count_active holders
store-known op old [] c cs h = absurd (cc)
store-known op old (o ∷ ops) c (c', cs) h =
    elim (Bool-cases (text_eq o.operation_id op.operation_id)) [
      | inl same ↦
          let e : o ≡ old = ground arith in
          record {
            consistent = rw same (c, cs);
            counted = rw (same, e) (omega arith);
            held = λ k. rw (same, e) (omega arith);
          }
      | inr other ↦
          let rest = store-known op old ops c cs (ground arith) in
          record {
            consistent = rw other (c', rest.consistent);
            counted = rw other (omega (arith, rest.counted));
            held = λ k. rw other (omega (arith, rest.held k));
          }
    ]

pub prune-Inv :
    (others : List Text) (now : ℕ) (s : Shared)
    → Inv others s
    → Inv others (record s { manager = prune now s.manager })
unfolding prune active_count
prune-Inv others now s v =
    let (rest, active, held) =
      keep_fresh-Inv now s.manager.completed_ttl s.manager.operations v.consistent in
    record {
      balanced = λ k. v.balanced k ∙ ap (λ n. n + count k others) (sym (held k));
      single = v.single;
      consistent = rest;
      limited = omega (arith, v.limited, active);
    }

-- The operation that `start_download` and `start_upload` make.
pub record IsNew (op : TransferOperation) (m : TransferManager) : Type 0 where
  pub is_pending : op.state ≡ pending
  pub unfinished : op.finished_monotonic ≡ none
  pub fresh : find_operation op.operation_id m.operations ≡ none

-- An operation in the dict counts among the holders.
pub own-le-holders :
    (k id : Text) (op : TransferOperation) (ops : List TransferOperation)
    → find_operation id ops ≡ some op
    → own k op ≤ holders k ops
unfolding find_operation holders
own-le-holders k id op [] h = absurd (cc)
own-le-holders k id op (o ∷ ops) h = elim (Bool-cases (text_eq o.operation_id id)) [
  | inl same ↦ let e : o ≡ op = ground arith in rw e (omega arith)
  | inr other ↦ omega (arith, own-le-holders k id op ops (ground arith))
]
