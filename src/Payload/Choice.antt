-- ===== src/Payload/Choice.antt =====
-- The choice of the files in tools/container_payload.py: `entries_from_null`, `mapped_entries_from_null`,
-- `_root_mapping`, and what `main` makes of the arguments of `create`. An absolute path is its parts.
-- What `os.fsdecode` and `Path.absolute` give, and which paths are real directories, is a parameter.
pub mod Roots
pub mod Below
use remote_ssh_mcp_server.Prelude.Fallible.{◌>>=◌, ◌>>◌, check}
use remote_ssh_mcp_server.Prelude.Lists.{length, is_nil}
use remote_ssh_mcp_server.Prelude.Text.{Text, text_eq, split_on}
use remote_ssh_mcp_server.Prelude.{
  ℕ, ◌+◌, Bool, true, false, not, ◌&&◌, Option, none, some, List, [], ◌∷◌, ◌++◌, ltb, ◌==◌,
  if◌then◌else◌,
}
use remote_ssh_mcp_server.Payload.Names.{safe_archive_path}

-- A `PayloadEntry`, with the path of its source.
pub record Chosen : Type 0 where
  pub source : List Text
  pub archive_path : Text

-- The arguments of `create` that choose files.
pub record CreateArguments : Type 0 where
  pub root : Option Text
  pub map_root : List Text
  pub paths : List Text
  pub null_files_from_stdin : Bool
  pub null_mapped_files_from_stdin : Bool

-- `value.partition("=")`; there is no rest if there is no separator.
unfoldable pub partition_equals : Text → Text × Option Text
partition_equals [] = ([], none)
partition_equals (c ∷ t) =
    let (prefix, rest) = partition_equals t in if c == 61 then ([], some t) else (c ∷ prefix, rest)

-- A dict by its items, the latest first
unfoldable pub lookup : {A : Type 0} → Text → List (Text × A) → Option A
unfolding text_eq
lookup key [] = none
lookup key ((k, value) ∷ items) = if text_eq k key then some value else lookup key items

abbrev pub is_none : {A : Type 0} → Option A → Bool
is_none none = true
is_none (some a) = false

-- The loop of `_root_mapping`
unfoldable pub collect_roots : List (Text × Text) → List Text → Option (List (Text × Text))
unfolding partition_equals lookup
collect_roots roots [] = some roots
collect_roots roots (value ∷ values) = do
  raw_root ← (partition_equals value).1
  check (not (is_nil raw_root) && is_none (lookup (partition_equals value).0 roots))
  collect_roots (((partition_equals value).0, raw_root) ∷ roots) values

-- `_root_mapping`
unfoldable pub root_mapping : List Text → Option (List (Text × Text))
unfolding collect_roots
root_mapping values = do roots ← collect_roots [] values; check (not (is_nil roots)); some roots

abbrev pub count : Bool → ℕ
count true = 1
count false = 0

module _ (fsdecode : Text → Option Text) (absolute : Text → List Text)
    (is_real : List Text → Bool) where
  -- The loop of `entries_from_null`
  unfoldable pub entries_below : List Text → List Text → Option (List Chosen)
  unfolding safe_archive_path
  entries_below root [] = some []
  entries_below root (raw ∷ raws) =
      let rest = entries_below root raws in
      if is_nil raw then rest else (do
        text ← fsdecode raw
        parts ← safe_archive_path text
        entries ← rest
        some (record { source = root ++ parts; archive_path = text } ∷ entries))

  -- `entries_from_null`, for the bytes that the stream gives
  unfoldable pub entries_from_null : Text → List Text → Option (List Chosen)
  unfolding entries_below split_on
  entries_from_null value root = do check (is_real root); entries_below root (split_on 0 value)

  -- The first loop of `mapped_entries_from_null`
  unfoldable pub normalize :
      List (Text × List Text) → List (Text × Text) → Option (List (Text × List Text))
  unfolding safe_archive_path lookup
  normalize normalized [] = some normalized
  normalize normalized ((prefix, root) ∷ roots) = do
    parts ← safe_archive_path prefix
    check (length parts == 1 && is_none (lookup prefix normalized))
    check (is_real (absolute root))
    normalize ((prefix, absolute root) ∷ normalized) roots

  -- The entry of a name with its first part and the others.
  unfoldable pub mapped_entry : List (Text × List Text) → Text → List Text → Option Chosen
  unfolding lookup
  mapped_entry normalized text [] = none
  mapped_entry normalized text (prefix ∷ relative) = do
    root ← lookup prefix normalized
    check (not (is_nil relative))
    some (record { source = root ++ relative; archive_path = text })

  -- The second loop
  unfoldable pub mapped_entries : List (Text × List Text) → List Text → Option (List Chosen)
  unfolding safe_archive_path mapped_entry
  mapped_entries normalized [] = some []
  mapped_entries normalized (raw ∷ raws) =
      let rest = mapped_entries normalized raws in
      if is_nil raw then rest else (do
        text ← fsdecode raw
        parts ← safe_archive_path text
        entry ← mapped_entry normalized text parts
        entries ← rest
        some (entry ∷ entries))

  -- `mapped_entries_from_null`
  unfoldable pub mapped_entries_from_null : Text → List (Text × Text) → Option (List Chosen)
  unfolding normalize mapped_entries split_on
  mapped_entries_from_null value roots = do
    normalized ← normalize [] roots
    mapped_entries normalized (split_on 0 value)

  -- The paths that are arguments
  unfoldable pub named_entries : List Text → List Text → Option (List Chosen)
  unfolding safe_archive_path
  named_entries root [] = some []
  named_entries root (path ∷ paths) = do
    parts ← safe_archive_path path
    entries ← named_entries root paths
    some (record { source = root ++ parts; archive_path = path } ∷ entries)

  -- The branches of `main` for `create`
  unfoldable pub mapped_mode : CreateArguments → Text → Option (List Chosen)
  unfolding root_mapping mapped_entries_from_null
  mapped_mode args value = do
    check (is_none args.root)
    roots ← root_mapping args.map_root
    mapped_entries_from_null value roots

  unfoldable pub ordinary_mode : CreateArguments → Text → Option (List Chosen)
  unfolding entries_from_null named_entries
  ordinary_mode args value = do
    root ← args.root
    check (is_nil args.map_root)
    if args.null_files_from_stdin
        then entries_from_null value (absolute root)
        else named_entries (absolute root) args.paths

  -- What `main` archives for `create`, for the bytes that the standard input gives
  unfoldable pub create_entries : CreateArguments → Text → Option (List Chosen)
  unfolding mapped_mode ordinary_mode
  create_entries args value = do
    check (
        not (
          ltb 1 (
            count (not (is_nil args.paths))
            + count args.null_files_from_stdin
            + count args.null_mapped_files_from_stdin)))
    if args.null_mapped_files_from_stdin then mapped_mode args value else ordinary_mode args value
