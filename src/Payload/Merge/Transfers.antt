-- ===== src/Payload/Merge/Transfers.antt =====
-- What the second loop of `merge_archive` does.
use remote_ssh_mcp_server.Prelude.{
  Bool, ◌≡◌, ◌⊎◌, refl, inl, inr, sym, ◌∙◌, subst, true, ◌&&◌, Option, none, some, List, [], ◌∷◌,
  Bool-cases, if-cases,
}
use remote_ssh_mcp_server.Payload.Extract.{Stored}
use remote_ssh_mcp_server.Payload.Merge.{
  Node, directory, Tree, same_parts, at, put, Disk, make_parents, replaceable, transfer,
  transfer_all,
}
use remote_ssh_mcp_server.Payload.Merge.Trees.{
  same_parts_eq, at-put, at-put_other, some-not-none, Among, file_of, IsPut, Change, Changes,
  Changes-trans, Grows, make_parents-Grows,
}

-- What one transfer does, whether it succeeds or not.
record IsTransfer (files : List Stored) (s : Stored) (before : Tree) (r : Bool × Tree)
    : Type 0 where
  changes : Changes files before r.1
  placed : r.0 ≡ true → at s.path r.1 ≡ some (file_of s)

Grows-Changes : (files : List Stored) (a b : Tree) → Grows a b → Changes files a b
Grows-Changes files a b g path = kept (g path)
  where
    kept :
        (at path b ≡ at path a) ⊎ ((at path a ≡ none) × (at path b ≡ some directory))
        → Change files path (at path a) (at path b)
    kept (inl e) = inl e
    kept (inr made) = inr (inl made)

put-Changes :
    (files : List Stored) (s : Stored) (tree : Tree)
    → Among s files
    → Changes files tree (put s.path (file_of s) tree)
put-Changes files s tree among path = elim (Bool-cases (same_parts s.path path)) [
  | inl same ↦
      let e = same_parts_eq s.path path same in
      inr (
        inr (record {
          file = s;
          among = among;
          placed = e;
          node =
              subst (λ p. at p (put s.path (file_of s) tree) ≡ some (file_of s)) e
                (at-put s.path (file_of s) tree);
        }))
  | inr other ↦ inl (at-put_other s.path path (file_of s) tree other)
]

transfer-IsTransfer :
    (files : List Stored) (disk : Disk) (s : Stored) (tree : Tree)
    → Among s files
    → IsTransfer files s tree (transfer disk s tree)
unfolding transfer
transfer-IsTransfer files disk s tree among =
    let (made, tree') = make_parents disk [] s.path tree in
    let grown = Grows-Changes files tree tree' (make_parents-Grows disk [] s.path tree) in
    if-cases (IsTransfer files s tree)
      (made && replaceable (at s.path tree') && disk.replace s.path)
      (λ _. record {
        changes =
            Changes-trans files tree tree' (put s.path (file_of s) tree') grown
              (put-Changes files s tree' among);
        placed = λ _. at-put s.path (file_of s) tree';
      })
      (λ _. record { changes = grown; placed = λ e. absurd (cc) })

-- What the second loop does for the files `ss`.
pub record AreTransferred (files ss : List Stored) (before : Tree) (r : Bool × Tree) : Type 0 where
  pub changes : Changes files before r.1
  pub placed : r.0 ≡ true → (s : Stored) → Among s ss → IsPut files s.path (at s.path r.1)

IsPut-stays :
    (files : List Stored) (s : Stored) (before after : Option Node)
    → Among s files
    → before ≡ some (file_of s)
    → Change files s.path before after
    → IsPut files s.path after
IsPut-stays files s before after among e (inl same) = record {
  file = s;
  among = among;
  placed = refl;
  node = same ∙ e;
}
IsPut-stays files s before after among e (inr (inl made)) = absurd (some-not-none (sym e ∙ made.0))
IsPut-stays files s before after among e (inr (inr put)) = put

IsPut-either :
    (files : List Stored) (s : Stored) (ss : List Stored) (between after : Tree)
    → Among s files
    → at s.path between ≡ some (file_of s)
    → Changes files between after
    → ((t : Stored) → Among t ss → IsPut files t.path (at t.path after))
    → (t : Stored) → Among t (s ∷ ss)
    → IsPut files t.path (at t.path after)
IsPut-either files s ss between after among e changes later t (inl same) =
    subst (λ (u : Stored). IsPut files u.path (at u.path after)) same
      (IsPut-stays files s _ _ among e (changes s.path))
IsPut-either files s ss between after among e changes later t (inr h) = later t h

pub transfer_all-AreTransferred :
    (files : List Stored) (disk : Disk) (ss : List Stored) (tree : Tree)
    → ((s : Stored) → Among s ss → Among s files)
    → AreTransferred files ss tree (transfer_all disk ss tree)
unfolding transfer_all
transfer_all-AreTransferred files disk [] tree among = record {
  changes = λ path. inl refl;
  placed = λ e s h. absurd h;
}
transfer_all-AreTransferred files disk (s ∷ ss) tree among =
    let first = transfer-IsTransfer files disk s tree (among s (inl refl)) in
    let tree' = (transfer disk s tree).1 in
    let rest = transfer_all-AreTransferred files disk ss tree' (λ t h. among t (inr h)) in
    elim (Bool-cases (transfer disk s tree).0) [
      | inr failed ↦
          rw (transfer_all, failed) (record { changes = first.changes; placed = λ e. absurd (cc) })
      | inl done ↦
          rw (transfer_all, done)
            (record {
              changes = Changes-trans files tree tree' _ first.changes rest.changes;
              placed = λ e.
                  IsPut-either files s ss tree' _ (among s (inl refl)) (first.placed done)
                    rest.changes (rest.placed e);
            })
    ]
