-- ===== src/Payload/Merge.antt =====
-- `merge_archive` of tools/container_payload.py. A tree is what stands below the destination, by the
-- parts of its paths; the scratch directory, which has a new name and is removed at the end, is left out
-- of it. A link is a node of its own.
pub mod Trees
pub mod Order
pub mod Transfers
pub mod Merged
use remote_ssh_mcp_server.Prelude.Text.{Text, text_eq, text_lt}
use remote_ssh_mcp_server.Prelude.{
  ℕ, Bool, true, false, ◌&&◌, ◌||◌, Option, none, some, List, [], ◌∷◌, ◌++◌, if◌then◌else◌,
}
use remote_ssh_mcp_server.Payload.Extract.{Stored, Archive, Place, extract_archive}

pub data Node : Type 0 where
  directory link special : Node
  regular : ℕ → Text → Node

abbrev pub Tree : Type 0
Tree = List (List Text × Node)

unfoldable pub same_parts : List Text → List Text → Bool
unfolding text_eq
same_parts [] [] = true
same_parts [] (q ∷ qs) = false
same_parts (p ∷ ps) [] = false
same_parts (p ∷ ps) (q ∷ qs) = text_eq p q && same_parts ps qs

unfoldable pub at : List Text → Tree → Option Node
unfolding same_parts
at path [] = none
at path ((p, node) ∷ tree) = if same_parts p path then some node else at path tree

unfoldable pub put : List Text → Node → Tree → Tree
unfolding same_parts
put path node [] = (path, node) ∷ []
put path node ((p, old) ∷ tree) =
    let rest = put path node tree in if same_parts p path then (p, node) ∷ tree else (p, old) ∷ rest

-- The order of paths, by their parts, and `sorted`
unfoldable pub path_lt : List Text → List Text → Bool
unfolding text_lt text_eq
path_lt ps [] = false
path_lt [] (q ∷ qs) = true
path_lt (p ∷ ps) (q ∷ qs) = text_lt p q || (text_eq p q && path_lt ps qs)

unfoldable pub insert_path : Stored → List Stored → List Stored
unfolding path_lt
insert_path s [] = s ∷ []
insert_path s (t ∷ ts) =
    let rest = insert_path s ts in if path_lt t.path s.path then t ∷ rest else s ∷ t ∷ ts

unfoldable pub sort_paths : List Stored → List Stored
unfolding insert_path
sort_paths [] = []
sort_paths (s ∷ ss) = insert_path s (sort_paths ss)

-- `not (current.is_symlink() or (current.exists() and not current.is_dir()))`
unfoldable pub safe_parent : Option Node → Bool
safe_parent none = true
safe_parent (some directory) = true
safe_parent (some _) = false

-- `not (target.is_symlink() or (target.exists() and not target.is_file()))`
unfoldable pub safe_target : Option Node → Bool
safe_target none = true
safe_target (some (regular mode bytes)) = true
safe_target (some _) = false

-- The loop over `relative.parts[:-1]`, below `current`
unfoldable pub check_parents : List Text → List Text → Tree → Bool
unfolding safe_parent at
check_parents current [] tree = true
check_parents current (part ∷ []) tree = true
check_parents current (part ∷ next ∷ parts) tree =
    let here = current ++ (part ∷ []) in
    safe_parent (at here tree) && check_parents here (next ∷ parts) tree

-- The first loop: what is to be moved has a safe target.
unfoldable pub check_transfers : List Stored → Tree → Bool
unfolding check_parents safe_target at
check_transfers [] tree = true
check_transfers (s ∷ ss) tree =
    check_parents [] s.path tree && safe_target (at s.path tree) && check_transfers ss tree

-- Whether the file system makes a directory, and whether it replaces a file.
pub record Disk : Type 0 where
  pub mkdir : List Text → Bool
  pub replace : List Text → Bool

-- `target.parent.mkdir(mode=0o700, parents=True, exist_ok=True)`: whether it succeeds, and what it has
-- made until it ends.
unfoldable pub make_parents : Disk → List Text → List Text → Tree → Bool × Tree
unfolding at put
make_parents disk current [] tree = (true, tree)
make_parents disk current (part ∷ []) tree = (true, tree)
make_parents disk current (part ∷ next ∷ parts) tree =
    let here = current ++ (part ∷ []) in
    elim (at here tree) [
      | none ↦
          let made = put here directory tree in
          let rest = make_parents disk here (next ∷ parts) made in
          if disk.mkdir here then rest else (false, tree)
      | some directory ↦ make_parents disk here (next ∷ parts) tree
      | some link ↦ (false, tree)
      | some special ↦ (false, tree)
      | some (regular mode bytes) ↦ (false, tree)
    ]

-- A file cannot replace a directory.
unfoldable pub replaceable : Option Node → Bool
replaceable (some directory) = false
replaceable _ = true

-- The body of the second loop
unfoldable pub transfer : Disk → Stored → Tree → Bool × Tree
unfolding make_parents replaceable at put
transfer disk s tree =
    let (made, tree') = make_parents disk [] s.path tree in
    if made && replaceable (at s.path tree') && disk.replace s.path
    then (true, put s.path (regular s.mode s.bytes) tree')
    else (false, tree')

unfoldable pub transfer_all : Disk → List Stored → Tree → Bool × Tree
unfolding transfer
transfer_all disk [] tree = (true, tree)
transfer_all disk (s ∷ ss) tree =
    let (done, tree') = transfer disk s tree in
    let rest = transfer_all disk ss tree' in if done then rest else (false, tree')

-- The end of `merge_archive`, for what `extract_archive` has put into the scratch directory.
unfoldable pub merge_files : Disk → Option (List Stored) → Tree → Bool × Tree
unfolding sort_paths check_transfers transfer_all
merge_files disk none tree = (false, tree)
merge_files disk (some files) tree =
    let sources = sort_paths files in
    let rest = transfer_all disk sources tree in
    if check_transfers sources tree then rest else (false, tree)

-- The scratch directory is new; `replaced` says whether the extraction can be put there.
abbrev pub scratch : Bool → Place
scratch replaced = record { destination = none; partial = none; parent = true; replaced = replaced }

-- `merge_archive`, whose destination is a real directory if `is_real`: whether it returns, and the tree
unfoldable pub merge_archive :
    (Text → Text)
    → (max_members max_bytes : ℕ) → Bool
    → Archive
    → (is_real replaced : Bool) → Disk
    → Tree
    → Bool × Tree
unfolding extract_archive merge_files
merge_archive sha256 max_members max_bytes allow_empty archive is_real replaced disk tree =
    let (found, place) =
      extract_archive sha256 max_members max_bytes allow_empty archive (scratch replaced) in
    let rest = merge_files disk place.destination tree in if is_real then rest else (false, tree)
