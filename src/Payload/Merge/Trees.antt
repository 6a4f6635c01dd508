-- ===== src/Payload/Merge/Trees.antt =====
-- What the steps of a merge change in a tree.
use remote_ssh_mcp_server.Prelude.Text.{Text, text_eq_iff}
use remote_ssh_mcp_server.Prelude.{
  Bool, ◌≡◌, ◌⊎◌, refl, inl, inr, sym, ◌∙◌, subst, true, false, Option, none, some, List, [], ◌∷◌,
  ◌++◌, Bool-cases, Option-cases, if-cases, arith,
}
use remote_ssh_mcp_server.Payload.Extract.{Stored}
use remote_ssh_mcp_server.Payload.Merge.{
  Node, directory, link, special, regular, Tree, same_parts, at, put, Disk, make_parents,
}

pub same_parts_eq : (ps qs : List Text) → same_parts ps qs ≡ true → ps ≡ qs
unfolding same_parts
same_parts_eq [] [] h = refl
same_parts_eq [] (q ∷ qs) h = absurd (cc)
same_parts_eq (p ∷ ps) [] h = absurd (cc)
same_parts_eq (p ∷ ps) (q ∷ qs) h =
    let e : p ≡ q = (text_eq_iff p q).0 (ground arith) in
    let f : ps ≡ qs = same_parts_eq ps qs (ground arith) in cc (e, f)

pub same_parts_refl : (ps : List Text) → same_parts ps ps ≡ true
unfolding same_parts
same_parts_refl [] = refl
same_parts_refl (p ∷ ps) = rw ((text_eq_iff p p).1 refl) (same_parts_refl ps)

pub at-put :
    (path : List Text) (node : Node) (tree : Tree) → at path (put path node tree) ≡ some node
unfolding at put
at-put path node [] = rw (same_parts_refl path) refl
at-put path node ((p, old) ∷ tree) = elim (Bool-cases (same_parts p path)) [
  | inl same ↦ rw (same, same) refl
  | inr other ↦ rw (other, other) (at-put path node tree)
]

pub at-put_other :
    (path other : List Text) (node : Node) (tree : Tree)
    → same_parts path other ≡ false
    → at other (put path node tree) ≡ at other tree
unfolding at put
at-put_other path other node [] h = rw h refl
at-put_other path other node ((p, old) ∷ tree) h = elim (Bool-cases (same_parts p path)) [
  | inl same ↦
      let apart : same_parts p other ≡ false =
        subst (λ q. same_parts q other ≡ false) (sym (same_parts_eq p path same)) h in
      rw (same, apart) refl
  | inr differs ↦
      let rest = at-put_other path other node tree h in
      rw (differs) (elim (Bool-cases (same_parts p other)) [
        | inl here ↦ rw here refl
        | inr later ↦ rw later rest
      ])
]

pub some-not-none : {A : Type 0} {a : A} → some a ≡ none → ⊥
some-not-none e = ground arith

-- What may happen at a path: nothing, a new directory, or a file that is put there.
abbrev pub Among : Stored → List Stored → Type 0
Among s [] = ⊥
Among s (t ∷ ts) = (t ≡ s) ⊎ Among s ts

abbrev pub file_of : Stored → Node
file_of s = regular s.mode s.bytes

-- A path where one of the files has been put.
pub record IsPut (files : List Stored) (path : List Text) (found : Option Node) : Type 0 where
  pub file : Stored
  pub among : Among file files
  pub placed : file.path ≡ path
  pub node : found ≡ some (file_of file)

abbrev pub Change : List Stored → List Text → Option Node → Option Node → Type 0
Change files path before after =
    (after ≡ before) ⊎ (((before ≡ none) × (after ≡ some directory)) ⊎ IsPut files path after)

abbrev pub Changes : List Stored → Tree → Tree → Type 0
Changes files before after = (path : List Text) → Change files path (at path before) (at path after)

pub Change-trans :
    (files : List Stored) (path : List Text) (x y z : Option Node)
    → Change files path x y
    → Change files path y z
    → Change files path x z
Change-trans files path x y z first (inl e) = subst (Change files path x) (sym e) first
Change-trans files path x y z first (inr (inr put)) = inr (inr put)
Change-trans files path x y z (inl e) (inr (inl made)) = inr (inl (sym e ∙ made.0, made.1))
Change-trans files path x y z (inr (inl earlier)) (inr (inl made)) =
    absurd (some-not-none (sym earlier.1 ∙ made.0))
Change-trans files path x y z (inr (inr put)) (inr (inl made)) =
    absurd (some-not-none (sym put.node ∙ made.0))

pub Changes-trans :
    (files : List Stored) (a b c : Tree) → Changes files a b → Changes files b c → Changes files a c
Changes-trans files a b c f g path = Change-trans files path _ _ _ (f path) (g path)

-- Nothing that is there is changed by the making of parents.
abbrev pub Grows : Tree → Tree → Type 0
Grows before after =
    (path : List Text)
    → (at path after ≡ at path before)
      ⊎ ((at path before ≡ none) × (at path after ≡ some directory))

Grows-put :
    (here : List Text) (tree : Tree) → at here tree ≡ none → Grows tree (put here directory tree)
Grows-put here tree h path = elim (Bool-cases (same_parts here path)) [
  | inl same ↦
      subst
        (λ q.
          (at q (put here directory tree) ≡ at q tree)
          ⊎ ((at q tree ≡ none) × (at q (put here directory tree) ≡ some directory)))
        (same_parts_eq here path same) (inr (h, at-put here directory tree))
  | inr other ↦ inl (at-put_other here path directory tree other)
]

Grows-trans : (a b c : Tree) → Grows a b → Grows b c → Grows a c
Grows-trans a b c f g path = both (f path) (g path)
  where
    both :
        (at path b ≡ at path a) ⊎ ((at path a ≡ none) × (at path b ≡ some directory))
        → (at path c ≡ at path b) ⊎ ((at path b ≡ none) × (at path c ≡ some directory))
        → (at path c ≡ at path a) ⊎ ((at path a ≡ none) × (at path c ≡ some directory))
    both (inl e) (inl d) = inl (d ∙ e)
    both (inl e) (inr made) = inr (sym e ∙ made.0, made.1)
    both (inr made) (inl d) = inr (made.0, d ∙ made.1)
    both (inr made) (inr again) = absurd (some-not-none (sym made.1 ∙ again.0))

pub make_parents-Grows :
    (disk : Disk) (current parts : List Text) (tree : Tree)
    → Grows tree (make_parents disk current parts tree).1
unfolding make_parents
make_parents-Grows disk current [] tree = λ path. inl refl
make_parents-Grows disk current (part ∷ []) tree = λ path. inl refl
make_parents-Grows disk current (part ∷ next ∷ parts) tree =
    let here = current ++ (part ∷ []) in
    elim (Option-cases (at here tree)) [
      | inl absent ↦
          rw (absent, make_parents)
            (if-cases (λ (r : Bool × Tree). Grows tree r.1) (disk.mkdir here)
              (λ _.
                Grows-trans tree (put here directory tree) _ (Grows-put here tree absent)
                  (make_parents-Grows disk here (next ∷ parts) (put here directory tree)))
              (λ _ path. inl refl))
      | inr (directory, found) ↦
          rw (found, make_parents) (make_parents-Grows disk here (next ∷ parts) tree)
      | inr (link, found) ↦ rw (found, make_parents) (λ path. inl refl)
      | inr (special, found) ↦ rw (found, make_parents) (λ path. inl refl)
      | inr (regular mode bytes, found) ↦ rw (found, make_parents) (λ path. inl refl)
    ]
