-- ===== src/Inspection.antt =====
-- `RemoteInspector` of remote_ssh_mcp/inspection.py: `stat` and `read_file_range`, from the results of
-- the remote commands. `decode` is `bytes.decode` with replacement; `_remote_path` is as in transfers.py.
pub mod Directory
pub mod Range
use remote_ssh_mcp_server.Prelude.Int.{ℤ, pos, negsuc, is_status}
use remote_ssh_mcp_server.Prelude.Lists.{length, take, all, is_nil}
use remote_ssh_mcp_server.Prelude.Text.{Text, codes, text_eq, split_on}
use remote_ssh_mcp_server.Prelude.{
  ℕ, zero, suc, ◌+◌, ◌-◌, ◌*◌, Bool, true, false, not, ◌&&◌, ◌||◌, Option, none, some, List, [],
  ◌∷◌, ◌++◌, ltb, leb, ◌==◌, if◌then◌else◌,
}
use remote_ssh_mcp_server.Errors.{
  Raised, remote, Result, ok, err, ◌>>=◌, ◌>>◌, require, remote_path_not_found,
  remote_protocol_error, invalid_range, invalid_remote_type,
}
use remote_ssh_mcp_server.Commands.Runner.{CommandResult}
use remote_ssh_mcp_server.Commands.Encoded.{EncodedData, encoded_bytes}
use remote_ssh_mcp_server.Transfers.Remote.{check_remote_path}

is_blank : ℕ → Bool
is_blank c = (leb 9 c && leb c 13) || c == 32

skip_blank : Text → Text
unfolding is_blank
skip_blank [] = []
skip_blank (c ∷ t) = let rest = skip_blank t in if is_blank c then rest else c ∷ t

-- The value of a digit in a base of at most 16.
digit_of : ℕ → ℕ → Option ℕ
digit_of base c =
    let n =
      if leb b'0' c && leb c b'9'
      then c - b'0'
      else if leb b'a' c && leb c b'f'
      then (c - b'a') + 10
      else if leb b'A' c && leb c b'F'
      then (c - b'A') + 10
      else base in
    if ltb n base then some n else none

-- Digits with single underscores between them, and white space at the end. `need` says that a digit
-- has to come.
number : ℕ → Bool → ℕ → Text → Option ℕ
unfolding digit_of all is_blank
number base need n [] = if need then none else some n
number base need n (c ∷ t) = elim (digit_of base c) [
  | some d ↦ number base false (n * base + d) t
  | none ↦
      if need
      then none
      else if c == b'_'
      then number base true n t
      else if all is_blank (c ∷ t)
      then some n
      else none
]

-- The prefix "0x" that base 16 may have, with an underscore behind it.
skip_prefix : ℕ → Text → Text
skip_prefix base (z ∷ x ∷ t) =
    if base == 16 && (z == b'0' && (x == b'x' || x == b'X')) then behind t else z ∷ x ∷ t
  where
    behind : Text → Text
    behind [] = []
    behind (c ∷ t) = if c == b'_' then t else c ∷ t
skip_prefix base t = t

negate : ℕ → ℤ
negate zero = pos 0
negate (suc n) = negsuc n

signed : ℕ → Text → Option ℤ
unfolding skip_prefix number negate
signed base [] = none
signed base (c ∷ t) =
    if c == b'-'
    then (elim (number base true 0 (skip_prefix base t)) [ none ↦ none | some n ↦ some (negate n) ])
    else (elim (number base true 0 (skip_prefix base (if c == b'+' then t else c ∷ t))) [
      | none ↦ none
      | some n ↦ some (pos n)
    ])

-- `int(field, base)`, none for a `ValueError`
unfoldable pub int_of : ℕ → Text → Option ℤ
unfolding skip_blank signed
int_of base field = signed base (skip_blank field)

-- `raw.rstrip(b"\n")`
unfoldable pub strip_newlines : Text → Text
strip_newlines [] = []
strip_newlines (c ∷ t) =
    let rest = strip_newlines t in if is_nil rest && c == 10 then [] else c ∷ rest

pub record Stat : Type 0 where
  pub path : Text
  pub mode : ℤ
  pub size : ℤ
  pub mtime : ℤ
  pub kind : Text

unfoldable pub or_protocol_error : Option ℤ → Result ℤ
or_protocol_error none = err (remote remote_protocol_error)
or_protocol_error (some n) = ok n

-- The four fields of the output.
stat_fields : (Text → Text) → Text → List Text → Result Stat
unfolding int_of or_protocol_error
stat_fields decode path (a ∷ b ∷ c ∷ d ∷ []) = do
  mode ← or_protocol_error (int_of 16 a)
  size ← or_protocol_error (int_of 10 b)
  mtime ← or_protocol_error (int_of 10 c)
  ok (record { path = path; mode = mode; size = size; mtime = mtime; kind = decode d })
stat_fields decode path _ = err (remote remote_protocol_error)

-- `stat`
unfoldable pub stat : (Text → Text) → Text → Result CommandResult → Result Stat
unfolding check_remote_path stat_fields strip_newlines split_on
stat decode remote_path answer = do
  path ← check_remote_path remote_path
  result ← answer
  require (is_status 0 result.exit_code) remote_path_not_found
  stat_fields decode path (split_on 9 (strip_newlines result.stdout.raw))

-- What `read_file_range` returns.
pub record FileRange : Type 0 where
  pub path : Text
  pub offset : ℕ
  pub bytes_read : ℕ
  pub eof : Bool
  pub encoded : EncodedData

in_range : ℤ → ℕ → ℕ → Result ℕ
in_range (pos n) low high = if leb low n && leb n high then ok n else err (remote invalid_range)
in_range (negsuc n) low high = err (remote invalid_range)

-- `if offset < 0: raise …`
not_negative : ℤ → Result ℕ
not_negative (pos n) = ok n
not_negative (negsuc n) = err (remote invalid_range)

-- `read_file_range`: `metadata` is what `stat` gives, and `answer` what the `dd` command gives.
unfoldable pub read_file_range :
    ℕ → Text → ℤ → ℤ → Result Stat → (ℕ → ℕ → Result CommandResult) → Result FileRange
unfolding check_remote_path in_range not_negative text_eq encoded_bytes
read_file_range max_output_bytes remote_path offset_value max_value metadata answer = do
  path ← check_remote_path remote_path
  offset ← not_negative offset_value
  max_bytes ← in_range max_value 1 max_output_bytes
  found ← metadata
  require (text_eq found.kind (codes "regular file")) invalid_remote_type
  result ← answer offset (suc max_bytes)
  require (is_status 0 result.exit_code) remote_path_not_found
  let content = take max_bytes result.stdout.raw
  ok (record {
    path = path;
    offset = offset;
    bytes_read = length content;
    eof = leb result.stdout.total_bytes max_bytes;
    encoded = encoded_bytes content;
  })
