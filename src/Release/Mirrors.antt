-- ===== src/Release/Mirrors.antt =====
-- `_sync_mirrors` of .github/scripts/version.py, and the search of `_read_module_version`: the copies of
-- the version in pyproject.toml and in remote_ssh_mcp/__init__.py.
pub mod Matches
pub mod Replaced
pub mod Lines
pub mod ReadBack
pub mod Synced
use remote_ssh_mcp_server.Prelude.Lists.{length, take, drop, is_nil}
use remote_ssh_mcp_server.Prelude.Text.{Text, codes, text_eq, split_on}
use remote_ssh_mcp_server.Prelude.Chars.{lstrip}
use remote_ssh_mcp_server.Prelude.Fallible.{◌>>=◌, ◌>>◌, check}
use remote_ssh_mcp_server.Prelude.{
  ℕ, zero, suc, ◌-◌, Bool, true, false, not, ◌&&◌, Option, none, some, List, [], ◌∷◌, ◌++◌, ◌==◌,
  if◌then◌else◌,
}
use remote_ssh_mcp_server.Release.{Version, of_parts, show, read_version}

pub data Mirror : Type 0 where
  pyproject_mirror module_mirror : Mirror

-- A literal part of a pattern: what follows it in the text.
unfoldable pub literal : Text → Text → Option Text
literal [] t = some t
literal (p ∷ ps) [] = none
literal (p ∷ ps) (c ∷ t) = let rest = literal ps t in if c == p then rest else none

abbrev pub module_prefix : Text
module_prefix = codes "__version__ = "

-- What stands in front of the quotes, `version\s*=\s*` or `__version__ = `: what follows it.
unfoldable pub read_head : Mirror → Text → Option Text
unfolding literal lstrip
read_head module_mirror t = literal module_prefix t
read_head pyproject_mirror t = do
  name ← literal (codes "version") t
  equals ← literal (codes "=") (lstrip name)
  some (lstrip equals)

unfoldable pub first_line : Text → Text
first_line [] = []
first_line (c ∷ t) = let rest = first_line t in if c == 10 then [] else c ∷ rest

-- `[^"\n]*"$` in a line: what stands in front of the quote.
unfoldable pub until_quote : Text → Option Text
until_quote [] = none
until_quote (c ∷ []) = if c == b'"' then some [] else none
until_quote (c ∷ d ∷ t) =
    let rest = until_quote (d ∷ t) in
    if c == b'"' then none else (elim rest [ none ↦ none | some inside ↦ some (c ∷ inside) ])

-- `"[^"\n]*"$` in a line: what stands between the quotes.
unfoldable pub in_quotes : Text → Option Text
unfolding until_quote
in_quotes [] = none
in_quotes (c ∷ t) = if c == b'"' then until_quote t else none

-- The pattern of a mirror at the start of a line: its first part, and what follows the match.
unfoldable pub mirror_at : Mirror → Text → Option (Text × Text)
unfolding read_head first_line in_quotes
mirror_at m t = do
  behind ← read_head m t
  old ← in_quotes (first_line behind)
  check (not (is_nil old))
  some (take (length t - length behind) t, drop (length (first_line behind)) behind)

abbrev pub quoted : Text → Text → Text
quoted text rest = b'"' ∷ (text ++ (b'"' ∷ rest))

-- `pattern.subn(replacement, content)` from a place on, `skip` characters of which belong to a match.
-- A match ends with a quote, so no line starts behind it.
unfoldable pub subn : Mirror → Text → Bool → ℕ → Text → Text × ℕ
unfolding mirror_at
subn m version starts skip [] = ([], 0)
subn m version starts (suc skip) (c ∷ t) = subn m version false skip t
subn m version starts zero (c ∷ t) = elim (if starts then mirror_at m (c ∷ t) else none) [
  | none ↦ let (updated, count) = subn m version (c == 10) zero t in (c ∷ updated, count)
  | some (head, behind) ↦
      let (updated, count) = subn m version false (length t - length behind) t in
      (head ++ quoted version updated, suc count)
]

-- `_replace_exactly_once`
unfoldable pub replace_exactly_once : Mirror → Text → Text → Option Text
unfolding subn
replace_exactly_once m version content =
    let (updated, count) = subn m version true zero content in
    if count == 1 then some updated else none

-- What the files hold, none where one cannot be read.
pub record VersionFiles : Type 0 where
  pub version : Option Text
  pub pyproject : Option Text
  pub module_text : Option Text

-- The loop over the replacements: what the files are to hold.
unfoldable pub updates : VersionFiles → Option (Version × VersionFiles)
unfolding read_version replace_exactly_once show
updates files = do
  v ← read_version files.version
  pyproject ← files.pyproject
  new_pyproject ← replace_exactly_once pyproject_mirror (show v) pyproject
  module_text ← files.module_text
  new_module ← replace_exactly_once module_mirror (show v) module_text
  some (v, record files { pyproject = some new_pyproject; module_text = some new_module })

same_text : Option Text → Option Text → Bool
unfolding text_eq
same_text (some a) (some b) = text_eq a b
same_text none none = true
same_text _ _ = false

-- `changed` is empty
unfoldable pub unchanged : VersionFiles → VersionFiles → Bool
unfolding same_text
unchanged a b = same_text a.pyproject b.pyproject && same_text a.module_text b.module_text

-- `_sync_mirrors`: the version that it returns, none where it raises, and the files behind it.
unfoldable pub sync_mirrors : Bool → VersionFiles → Option Version × VersionFiles
unfolding updates unchanged
sync_mirrors only_check files = elim (updates files) [
  | none ↦ (none, files)
  | some (v, updated) ↦
      if only_check
      then (if unchanged files updated then some v else none, files)
      else (some v, updated)
]

-- `MODULE_VERSION_PATTERN` in a line: the version.
unfoldable pub version_line : Text → Option Text
unfolding literal in_quotes of_parts split_on
version_line line = do
  behind ← literal module_prefix line
  text ← in_quotes behind
  _ ← of_parts (split_on b'.' text)
  some text

-- `MODULE_VERSION_PATTERN.findall(content)`
unfoldable pub find_versions : Bool → Text → List Text
unfolding version_line first_line
find_versions starts [] = []
find_versions starts (c ∷ t) =
    let rest = find_versions (c == 10) t in
    elim (if starts then version_line (first_line (c ∷ t)) else none) [
      | none ↦ rest
      | some text ↦ text ∷ rest
    ]

the_one : List Text → Option Text
the_one (text ∷ []) = some text
the_one _ = none

-- `_read_module_version`
unfoldable pub read_module_version : Option Text → Option Version
unfolding find_versions the_one read_version
read_module_version none = none
read_module_version (some content) = read_version (the_one (find_versions true content))
