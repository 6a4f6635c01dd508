-- ===== src/Release.antt =====
-- .github/scripts/version.py: the version of a release, its mirrors and its notes. A `VersionError` is
-- `none`; what a file holds is an argument, `none` where it cannot be read.
pub mod Canonical
pub mod Mirrors
use remote_ssh_mcp_server.Prelude.Lists.{length, drop, all, is_nil}
use remote_ssh_mcp_server.Prelude.Text.{Text, codes, text_eq, starts_with, split_on}
use remote_ssh_mcp_server.Prelude.Chars.{strip, is_digit, decimal, value}
use remote_ssh_mcp_server.Prelude.{
  ℕ, Bool, true, false, not, ◌&&◌, ◌||◌, Option, none, some, List, [], ◌∷◌, ◌++◌, ltb, leb, ◌==◌,
  if◌then◌else◌,
}

pub record Version : Type 0 where
  pub major : ℕ
  pub minor : ℕ
  pub patch : ℕ

-- `0|[1-9][0-9]*`
unfoldable pub is_numeral : Text → Bool
unfolding all
is_numeral [] = false
is_numeral (c ∷ []) = is_digit c
is_numeral (c ∷ d ∷ t) = leb b'1' c && leb c b'9' && all is_digit (d ∷ t)

-- The three groups of `VERSION_PATTERN`.
unfoldable pub of_parts : List Text → Option Version
unfolding is_numeral value
of_parts (a ∷ b ∷ c ∷ []) =
    if is_numeral a && (is_numeral b && is_numeral c)
    then some (record { major = value 0 a; minor = value 0 b; patch = value 0 c })
    else none
of_parts _ = none

-- `Version.parse`
unfoldable pub parse : Text → Option Version
unfolding of_parts strip split_on
parse text = of_parts (split_on b'.' (strip text))

-- `Version.__str__`
unfoldable pub show : Version → Text
unfolding decimal
show v = decimal v.major ++ (b'.' ∷ (decimal v.minor ++ (b'.' ∷ decimal v.patch)))

-- `==` and `<=` of the ordered dataclass
unfoldable pub same : Version → Version → Bool
same a b = a.major == b.major && (a.minor == b.minor && a.patch == b.patch)

unfoldable pub at_most : Version → Version → Bool
at_most a b =
    ltb a.major b.major
    || (a.major == b.major && (ltb a.minor b.minor || (a.minor == b.minor && leb a.patch b.patch)))

-- `_require_increment`: whether it passes.
unfoldable pub require_increment : Version → Version → Option Version → Bool
unfolding same at_most
require_increment current base none = not (at_most current base)
require_increment current base (some unpublished) =
    not (at_most current (if same current base then unpublished else base))

-- The date behind the version in a heading.
is_date : Text → Bool
is_date (a ∷ b ∷ c ∷ d ∷ h1 ∷ e ∷ f ∷ h2 ∷ g ∷ h ∷ []) =
    all is_digit (a ∷ b ∷ c ∷ d ∷ e ∷ f ∷ g ∷ h ∷ []) && h1 == b'-' && h2 == b'-'
is_date _ = false

-- `## X.Y.Z - YYYY-MM-DD`
unfoldable pub is_heading : Version → Text → Bool
unfolding is_date starts_with show
is_heading v line =
    let prefix = codes "## " ++ (show v ++ codes " - ") in
    starts_with line prefix && is_date (drop (length prefix) line)

-- The lines up to the next heading, each behind its line break.
section : List Text → Text
unfolding starts_with
section [] = []
section (line ∷ lines) =
    let rest = section lines in if starts_with line (codes "## ") then [] else 10 ∷ (line ++ rest)

-- The sections under headings of the version.
unfoldable pub sections : Version → List Text → List Text
unfolding is_heading section
sections v [] = []
sections v (line ∷ lines) =
    let rest = sections v lines in if is_heading v line then section lines ∷ rest else rest

has_entry : List Text → Bool
unfolding starts_with
has_entry [] = false
has_entry (line ∷ lines) = starts_with line (codes "- ") || has_entry lines

-- The body of the one section, if it has release entries.
body_of : List Text → Option Text
unfolding strip has_entry split_on
body_of (text ∷ []) =
    let body = strip text in
    if not (is_nil body) && has_entry (split_on 10 body) then some body else none
body_of _ = none

-- `_changelog_body`
unfoldable pub changelog_body : Option Text → Version → Option Text
unfolding sections body_of split_on
changelog_body none v = none
changelog_body (some changelog) v = body_of (sections v (split_on 10 changelog))

same_as : Version → Option Version → Bool
unfolding same
same_as v none = false
same_as v (some w) = same w v

-- `_read_version`, `_read_pyproject_version` and `_read_module_version`, from the text that they find
unfoldable pub read_version : Option Text → Option Version
unfolding parse
read_version none = none
read_version (some text) = parse text

-- `_validate_current`
unfoldable pub validate_current :
    (version pyproject module_text changelog : Option Text) → Option Version
unfolding read_version same_as changelog_body
validate_current version pyproject module_text changelog = elim (read_version version) [
  | none ↦ none
  | some v ↦
      if same_as v (read_version pyproject) && same_as v (read_version module_text)
      then (elim (changelog_body changelog v) [ none ↦ none | some body ↦ some v ])
      else none
]

-- `_release_notes`
unfoldable pub release_notes : Option Text → Version → Option Text
unfolding changelog_body show
release_notes changelog v = elim (changelog_body changelog v) [
  | none ↦ none
  | some body ↦ some (
      body
      ++ (codes "\n\nFull changelog: https://github.com/kogeler/remote-ssh-mcp-server/blob/"
          ++ (show v ++ codes "/CHANGELOG.md\n")))
]

-- What `check` is told to compare with: nothing, a tree with what its `.version`, if it is a file, and
-- its `pyproject.toml` hold, or a version.
pub data Base : Type 0 where
  no_base : Base
  base_tree : (version : Option Text) (pyproject : Option Text) → Base
  base_version : Text → Base

or_pyproject : Option Text → Option Text → Option Version
unfolding read_version
or_pyproject none pyproject = read_version pyproject
or_pyproject (some text) pyproject = read_version (some text)

passes : Version → Bool → Option Version
passes v true = some v
passes v false = none

-- The comparison with a base that has been read.
compare_with : Version → Option Text → Option Version → Option Version
unfolding require_increment passes parse
compare_with v unpublished none = none
compare_with v none (some base) = passes v (require_increment v base none)
compare_with v (some text) (some base) = elim (parse text) [
  | none ↦ none
  | some last ↦ passes v (require_increment v base (some last))
]

-- The `check` command of `_run`, behind `_validate_current`.
unfoldable pub check_release : Version → Base → Option Text → Option Version
unfolding or_pyproject compare_with parse
check_release v no_base none = some v
check_release v no_base (some unpublished) = none
check_release v (base_tree version pyproject) unpublished =
    compare_with v unpublished (or_pyproject version pyproject)
check_release v (base_version text) unpublished = compare_with v unpublished (parse text)
