-- ===== src/LocalPaths/Contained.antt =====
-- Where the paths that `LocalPathPolicy` gives lie.
use remote_ssh_mcp_server.Prelude.Text.{Text, text_eq, text_eq_iff}
use remote_ssh_mcp_server.Prelude.{
  ◌≡◌, refl, ap, ◌∙◌, inl, inr, Bool, true, false, not, some, [], ◌∷◌, ◌++◌, ◌⊎◌, Bool-cases,
  Option-cases, arith,
}
use remote_ssh_mcp_server.Errors.{
  ok, require, bind-ok, require-ok, invalid_local_path, local_path_exists,
}
use remote_ssh_mcp_server.LocalPaths.{
  LocalPath, internal_directory, FileSystem, relative, relative_to, contained, parent_of, name_of,
  resolved, require_file_at, resolve_existing, check_existing, resolve_destination,
}

-- The path lies in the directory.
abbrev pub IsBelow : LocalPath → LocalPath → Type 0
IsBelow base path = (rest : LocalPath) × (path ≡ base ++ rest)

relative_to-ok :
    (base path rest : LocalPath) → relative_to base path ≡ some rest → path ≡ base ++ rest
unfolding relative_to
relative_to-ok [] [] rest h = ground arith
relative_to-ok [] (p ∷ ps) rest h = ground arith
relative_to-ok (b ∷ bs) [] rest h = absurd (cc)
relative_to-ok (b ∷ bs) (p ∷ ps) rest h = elim (Bool-cases (text_eq b p)) [
  | inl same ↦ rw ((text_eq_iff b p).0 same) (ap (◌∷◌ p) (relative_to-ok bs ps rest (ground arith)))
  | inr other ↦ absurd (ground arith)
]

relative_to-append : (base rest : LocalPath) → relative_to base (base ++ rest) ≡ some rest
unfolding relative_to
relative_to-append [] [] = refl
relative_to-append [] (p ∷ ps) = refl
relative_to-append (b ∷ bs) rest = rw ((text_eq_iff b b).1 refl) (relative_to-append bs rest)

contained_below : (base rest : LocalPath) → contained base (base ++ rest) ≡ ok (base ++ rest)
unfolding contained
contained_below base rest = rw (contained, relative_to-append base rest)

contained-ok :
    (base path p : LocalPath) → contained base path ≡ ok p → (p ≡ path) × IsBelow base path
unfolding contained
contained-ok base path p h = elim (Option-cases (relative_to base path)) [
  | inl outside ↦ absurd (ground (arith, outside))
  | inr (rest, inside) ↦ (ground (arith, inside), (rest, relative_to-ok base path rest inside))
]

resolved-ok :
    (fs : FileSystem) (path p : LocalPath) → resolved fs path ≡ ok p → fs.resolve path ≡ some p
unfolding resolved
resolved-ok fs path p h = elim (Option-cases (fs.resolve path)) [
  | inl missing ↦ absurd (ground (arith, missing))
  | inr (q, found) ↦ ground (arith, found)
]

resolved-some :
    (fs : FileSystem) (path p : LocalPath) → fs.resolve path ≡ some p → resolved fs path ≡ ok p
unfolding resolved
resolved-some fs path p h = rw (resolved, h)

-- A local path that is accepted as existing is what the file system resolves the value to, symbolic
-- links followed, and lies in the local root; it is a regular file when that is asked for.
pub resolve_existing-contained :
    (fs : FileSystem) (repository : LocalPath) (require_file : Bool) (value : Text)
    (path : LocalPath)
    → resolve_existing fs repository require_file value ≡ ok path
    → IsBelow repository path
      × ((parts : LocalPath) × (relative value ≡ ok parts)
          × (fs.resolve (repository ++ parts) ≡ some path))
      × ((require_file ≡ false) ⊎ (fs.is_file path ≡ ok true))
unfolding resolve_existing
resolve_existing-contained fs repository require_file value path h =
    let (parts, e, h1) = bind-ok (relative value) _ path h in
    let (p, r, h2) = bind-ok (resolved fs (repository ++ parts)) _ path h1 in
    let (q, c, h3) = bind-ok (contained repository p) _ path h2 in
    let (u, f, h4) = bind-ok (require_file_at require_file fs p) _ path h3 in
    let same : p ≡ path = ground arith in
    rw (← same) (
      (contained-ok repository p q c).1,
      (parts, e, resolved-ok fs (repository ++ parts) p r),
      is_required require_file u f,
    )
  where
    is_required :
        (b : Bool) (u : Unit {0}) {p : LocalPath}
        → require_file_at b fs p ≡ ok u
        → (b ≡ false) ⊎ (fs.is_file p ≡ ok true)
    is_required false u f = inl refl
    is_required true u {p} f =
        let (yes_file, e, r) = bind-ok (fs.is_file p) _ u f in
        inr (e ∙ ap ok (require-ok yes_file invalid_local_path u r))

-- What holds of a destination that is accepted: its parent is what the file system resolves the
-- value's parent to and lies in the local root, and it is not a symbolic link. It exists only where
-- it may be overwritten, and then it is not a directory.
pub record IsDestination (fs : FileSystem) (repository : LocalPath) (overwrite : Bool)
    (parts destination : LocalPath) : Type 0 where
  pub parent : LocalPath
  pub resolves : fs.resolve (parent_of (repository ++ parts)) ≡ some parent
  pub below : IsBelow repository parent
  pub named : destination ≡ parent ++ (name_of (repository ++ parts) ∷ [])
  pub no_link : fs.is_symlink destination ≡ ok false
  pub replaced :
      (fs.exists destination ≡ ok false) ⊎ ((overwrite ≡ true) × (fs.is_dir destination ≡ ok false))

check_existing-ok :
    (fs : FileSystem) (overwrite : Bool) (destination : LocalPath) (found : Bool) (u : Unit {0})
    → check_existing fs overwrite destination found ≡ ok u
    → (found ≡ false) ⊎ ((overwrite ≡ true) × (fs.is_dir destination ≡ ok false))
unfolding check_existing
check_existing-ok fs overwrite destination false u h = inl refl
check_existing-ok fs overwrite destination true u h =
    let (a, e, h1) = bind-ok (require overwrite local_path_exists) _ u h in
    let (is_dir, e2, h2) = bind-ok (fs.is_dir destination) _ u h1 in
    inr (
      require-ok overwrite local_path_exists a e,
      e2 ∙ ap ok (not_true is_dir (require-ok _ invalid_local_path u h2)),
    )
  where
    not_true : (b : Bool) → not b ≡ true → b ≡ false
    not_true true h = absurd (cc)
    not_true false h = refl

-- A destination that is accepted lies in the local root, as a direct child of a directory that exists
-- and is resolved; it is no symbolic link, and it is absent or a file that may be overwritten.
pub resolve_destination-contained :
    (fs : FileSystem) (repository : LocalPath) (overwrite : Bool) (value : Text) (path : LocalPath)
    → resolve_destination fs repository overwrite value ≡ ok path
    → (parts : LocalPath) × (relative value ≡ ok parts)
      × IsDestination fs repository overwrite parts path
unfolding resolve_destination
resolve_destination-contained fs repository overwrite value path h =
    let (parts, e, h1) = bind-ok (relative value) _ path h in
    let (parent, r, h2) = bind-ok (resolved fs (parent_of (repository ++ parts))) _ path h1 in
    let (q, c, h3) = bind-ok (contained repository parent) _ path h2 in
    let destination = parent ++ (name_of (repository ++ parts) ∷ []) in
    let (link, l, h4) = bind-ok (fs.is_symlink destination) _ path h3 in
    let (u, nl, h5) = bind-ok (require (not link) invalid_local_path) _ path h4 in
    let (found, x, h6) = bind-ok (fs.exists destination) _ path h5 in
    let (v, k, h7) = bind-ok (check_existing fs overwrite destination found) _ path h6 in
    let same : destination ≡ path = ground arith in
    rw (← same) (
      parts,
      e,
      record {
        parent = parent;
        resolves = resolved-ok fs (parent_of (repository ++ parts)) parent r;
        below = (contained-ok repository parent q c).1;
        named = refl;
        no_link = l ∙ ap ok (ground (arith, require-ok (not link) invalid_local_path u nl));
        replaced = elim (check_existing-ok fs overwrite destination found v k) [
          | inl absent ↦ inl (x ∙ ap ok absent)
          | inr replaced ↦ inr replaced
        ];
      },
    )

-- The guard on `.remote-ssh-mcp` looks at the value only: a value that the file system resolves into
-- the internal directory, by a symbolic link in the local root, is accepted.
pub resolve_existing-internal :
    (fs : FileSystem) (repository : LocalPath) (value : Text) (parts rest : LocalPath)
    → relative value ≡ ok parts
    → fs.resolve (repository ++ parts) ≡ some (repository ++ (internal_directory ∷ rest))
    → resolve_existing fs repository false value ≡ ok (repository ++ (internal_directory ∷ rest))
unfolding resolve_existing require_file_at
resolve_existing-internal fs repository value parts rest e r =
    rw (e, resolved-some fs _ _ r, contained_below repository (internal_directory ∷ rest)) refl
