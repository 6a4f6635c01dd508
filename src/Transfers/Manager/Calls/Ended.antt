-- ===== src/Transfers/Manager/Calls/Ended.antt =====
-- After `cancel` and `close` the operations are over.
use remote_ssh_mcp_server.Prelude.Text.{Text, text_eq, text_eq_iff, mem_text}
use remote_ssh_mcp_server.Prelude.{
  ℕ, ◌≡◌, sym, subst, ap, ◌∙◌, inl, inr, ◌⊎◌, true, false, none, some, List, [], ◌∷◌, Bool-cases,
  Option-cases, arith,
}
use remote_ssh_mcp_server.Transfers.Operation.{
  TransferState, cancelled, is_final, TransferOperation, set_state,
}
use remote_ssh_mcp_server.Transfers.Manager.{Shared, find_operation, change_state, shut}
use remote_ssh_mcp_server.Transfers.Manager.Calls.{
  end_cancel, running_tasks, note_all, begin_close, end_close,
}
use remote_ssh_mcp_server.Transfers.Manager.Calls.Lookup.{set_state-state, find-change_state}

-- The operations that are not over are among the ids.
abbrev pub Covered : List Text → Shared → Type 0
Covered ids s =
    (i : Text) (op : TransferOperation)
    → find_operation i s.manager.operations ≡ some op
    → (is_final op.state ≡ true) ⊎ (mem_text i ids ≡ true)

-- What `i` names is `op`.
abbrev pub Finds : Text → TransferOperation → Shared → Type 0
Finds i op s = find_operation i s.manager.operations ≡ some op

end_cancel-missing :
    (now : ℕ) (id : Text) (s : Shared)
    → find_operation id s.manager.operations ≡ none
    → end_cancel now id s ≡ s
unfolding end_cancel
end_cancel-missing now id s h = rw (h, end_cancel)

end_cancel-final :
    (now : ℕ) (id : Text) (o : TransferOperation) (s : Shared)
    → Finds id o s
    → is_final o.state ≡ true
    → end_cancel now id s ≡ s
unfolding end_cancel
end_cancel-final now id o s h e = rw (h, end_cancel, e)

end_cancel-active :
    (now : ℕ) (id : Text) (o : TransferOperation) (s : Shared)
    → Finds id o s
    → is_final o.state ≡ false
    → end_cancel now id s ≡ change_state now id cancelled s
unfolding end_cancel
end_cancel-active now id o s h e = rw (h, end_cancel, e)

-- After `end_cancel` its operation is over, and the others are as before.
find-end_cancel :
    (now : ℕ) (i id : Text) (op : TransferOperation) (s : Shared)
    → Finds i op (end_cancel now id s)
    → ((text_eq id i ≡ true) × (is_final op.state ≡ true)) ⊎ ((text_eq id i ≡ false) × Finds i op s)
find-end_cancel now i id op s h = elim (Bool-cases (text_eq id i)) [
  | inl same ↦ inl (same, own i ((text_eq_iff id i).0 same) h)
  | inr other ↦ inr (
    other,
    elim (Option-cases (find_operation id s.manager.operations)) [
      | inl missing ↦ subst (Finds i op) (end_cancel-missing now id s missing) h
      | inr (o, found) ↦ elim (Bool-cases (is_final o.state)) [
        | inl final ↦ subst (Finds i op) (end_cancel-final now id o s found final) h
        | inr active ↦
            let h' = subst (Finds i op) (end_cancel-active now id o s found active) h in
            ground (arith, find-change_state now i id cancelled o s found)
      ]
    ],
  )
]
  where
    own : (i : Text) → id ≡ i → Finds i op (end_cancel now id s) → is_final op.state ≡ true
    own i e h0 =
        let h : Finds id op (end_cancel now id s) =
          subst (λ j. Finds j op (end_cancel now id s)) (sym e) h0 in
        elim (Option-cases (find_operation id s.manager.operations)) [
          | inl missing ↦
              let h' = subst (Finds id op) (end_cancel-missing now id s missing) h in absurd (cc)
          | inr (o, found) ↦ elim (Bool-cases (is_final o.state)) [
            | inl final ↦
                let h' = subst (Finds id op) (end_cancel-final now id o s found final) h in
                let same : o ≡ op = ground arith in ap (λ p. is_final p.state) (sym same) ∙ final
            | inr active ↦
                let h' = subst (Finds id op) (end_cancel-active now id o s found active) h in
                let same : (set_state now cancelled o s.claimed).0 ≡ op =
                  ground
                    (arith, find-change_state now id id cancelled o s found, text_eq_iff id id) in
                ap (λ p. is_final p.state) (sym same)
                ∙ ap is_final (set_state-state now cancelled o s.claimed)
          ]
        ]

end_close-Covered :
    (now : ℕ) (ids : List Text) (s : Shared) → Covered ids s → Covered [] (end_close now ids s)
unfolding end_close mem_text
end_close-Covered now [] s c = c
end_close-Covered now (id ∷ ids) s c = end_close-Covered now ids (end_cancel now id s) λ i op h.
    elim (find-end_cancel now i id op s h) [
      | inl (same, final) ↦ inl final
      | inr (other, before) ↦ elim (c i op before) [
        | inl final ↦ inl final
        | inr listed ↦ inr (ground (arith, text_eq_iff i id, text_eq_iff id i))
      ]
    ]

-- What the tasks do while `close` waits for them: changes of state of operations that are not over.
pub data Tasks (s : Shared) : Shared → Type 0 where
  stays : Tasks s s
  moves :
      {t : Shared} (now : ℕ) (id : Text) (state : TransferState) (op : TransferOperation)
      → Tasks s t
      → Finds id op t
      → is_final op.state ≡ false
      → Tasks s (change_state now id state t)

Tasks-Covered : {s t : Shared} (ids : List Text) → Tasks s t → Covered ids s → Covered ids t
Tasks-Covered ids stays c i op h = c i op h
Tasks-Covered ids (moves {t} now id state o r found active) c i op h =
    let before = Tasks-Covered ids r c in
    elim (Bool-cases (text_eq id i)) [
      | inl same ↦
          elim (before i o (
            ap (λ j. find_operation j t.manager.operations) (sym ((text_eq_iff id i).0 same))
            ∙ found)) [ inl final ↦ absurd (cc) | inr listed ↦ inr listed ]
      | inr other ↦ before i op (ground (arith, find-change_state now i id state o t found))
    ]

running_tasks-listed :
    (ids : List Text) (i : Text) (op : TransferOperation) (ops : List TransferOperation)
    → find_operation i (note_all ids ops) ≡ some op
    → op.task ≡ true
    → (is_final op.state ≡ true) ⊎ (mem_text i (running_tasks ops) ≡ true)
unfolding note_all running_tasks find_operation mem_text
running_tasks-listed ids i op [] h t = absurd (cc)
running_tasks-listed ids i op (o ∷ ops) h t = elim (Bool-cases (is_final op.state)) [
  | inl final ↦ inl final
  | inr active ↦ inr (elim (Bool-cases (text_eq o.operation_id i)) [
    | inl same ↦ ground (arith, text_eq_iff i o.operation_id, text_eq_iff o.operation_id i)
    | inr other ↦ elim (running_tasks-listed ids i op ops (ground arith) t) [
      | inl final ↦ absurd (cc)
      | inr listed ↦ ground arith
    ]
  ])
]

-- When `close` returns, no operation is left that is not over: the tasks have ended some, in whatever
-- way and order, and `close` has cancelled the others. Every operation has its task, which
-- `start_download` and `start_upload` see to.
pub end_close-ends :
    (now : ℕ) (s t : Shared) (i : Text) (op : TransferOperation)
    → s.manager.closed ≡ false
    → ((j : Text) (o : TransferOperation)
        → find_operation j (begin_close s.manager).1.operations ≡ some o
        → o.task ≡ true)
    → Tasks (record s { manager = (begin_close s.manager).1 }) t
    → Finds i op (end_close now (begin_close s.manager).0 t)
    → is_final op.state ≡ true
unfolding begin_close shut mem_text
end_close-ends now s t i op is_open has_task r h =
    elim (end_close-Covered now ids t (Tasks-Covered ids r covered) i op h) [
      | inl final ↦ final
      | inr listed ↦ absurd (cc)
    ]
  where
    ids : List Text
    ids = (begin_close s.manager).0

    covered : Covered ids (record s { manager = (begin_close s.manager).1 })
    covered j o found = rw is_open (
        running_tasks-listed (running_tasks s.manager.operations) j o s.manager.operations
          (ground arith) (has_task j o found))
