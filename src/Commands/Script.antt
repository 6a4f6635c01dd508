-- ===== src/Commands/Script.antt =====
-- The script that a command is sent as: `_validate_script`, the framing that `run_script` writes
-- and the supervisor shell reads, and the shell text that `execute` builds.
pub mod Framing
use remote_ssh_mcp_server.Prelude.Lists.{length, take, all, is_nil}
use remote_ssh_mcp_server.Prelude.Text.{Text, codes, has_char, split_on}
use remote_ssh_mcp_server.Prelude.Chars.{strip, encode, decimal, value, is_digit}
use remote_ssh_mcp_server.Prelude.{
  ℕ, zero, suc, ◌≡◌, Bool, true, false, not, ◌&&◌, ◌||◌, Option, none, some, List, [], ◌∷◌, ◌++◌,
  leb, ltb, ◌==◌, if◌then◌else◌,
}
use remote_ssh_mcp_server.Errors.{
  Raised, remote, Result, ok, err, ◌>>=◌, ◌>>◌, require, invalid_command,
}

abbrev pub max_command_bytes : ℕ
max_command_bytes = 1_048_576

abbrev pub newline : ℕ
newline = 10

-- `encoded.endswith(b"\n")`
ends_with_newline : Text → Bool
ends_with_newline [] = false
ends_with_newline (c ∷ []) = c == newline
ends_with_newline (c ∷ d ∷ t) = ends_with_newline (d ∷ t)

-- `_validate_script`. The argument is a string, so the test by `isinstance` always passes.
unfoldable pub validate_script : Text → Result Text
unfolding ends_with_newline
validate_script script = do
  require (not (is_nil (strip script))) invalid_command
  require (not (has_char 0 script)) invalid_command
  let encoded = encode script
  require (leb (length encoded) max_command_bytes) invalid_command
  ok (if ends_with_newline encoded then encoded else encoded ++ newline ∷ [])

-- `f"{len(payload)}\n".encode("ascii") + payload`
unfoldable pub wire_payload : Text → Text
wire_payload payload = decimal (length payload) ++ newline ∷ payload

-- What the supervisor does with its input: it reads the line with the size, exits with a status
-- if that is no number, and hands `dd count="$payload_size"` bytes on.
pub data Received : Type 0 where
  exits : ℕ → Received
  payload : Text → Received

-- `IFS= read -r payload_size || exit 70`: the line, if there is one, and what is left.
read_line : Text → Option (Text × Text)
read_line [] = none
read_line (c ∷ t) = elim (read_line t) [
  | none ↦ if c == newline then some ([], t) else none
  | some (line, rest) ↦ if c == newline then some ([], t) else some (c ∷ line, rest)
]

-- `case "$payload_size" in ''|*[!0-9]*) exit 71`
size_of : Text → Option ℕ
unfolding all value
size_of line = if not (is_nil line) && all is_digit line then some (value 0 line) else none

unfoldable pub supervisor_receive : Text → Received
unfolding read_line size_of
supervisor_receive input = elim (read_line input) [
  | none ↦ exits 70
  | some (line, rest) ↦ elim (size_of line) [
    | none ↦ exits 71
    | some size ↦ payload (take size rest)
  ]
]

-- `shlex.quote`
quote_chars : Text → Text
quote_chars [] = b'\'' ∷ []
quote_chars (c ∷ s) =
    let rest = quote_chars s in if c == b'\'' then codes "'\"'\"'" ++ rest else c ∷ rest

-- A character that `shlex.quote` leaves bare: one of `a-z A-Z 0-9 _ @ % + = : , . / -`.
is_bare : ℕ → Bool
is_bare c =
    (leb b'a' c && leb c b'z')
    || (leb b'A' c && leb c b'Z')
    || is_digit c
    || has_char c (codes "_@%+=:,./-")

unfoldable pub quote : Text → Text
unfolding quote_chars is_bare all has_char
quote s = if not (is_nil s) && all is_bare s then s else b'\'' ∷ quote_chars s

-- The `cwd` guard and prefix that `execute` of commands.py and of sudo.py share.
unfoldable pub cwd_prefix : Option Text → Result Text
unfolding quote
cwd_prefix none = ok []
cwd_prefix (some cwd) = do
  require (not (is_nil cwd || has_char 0 cwd)) invalid_command
  ok (codes "cd -- " ++ (quote cwd ++ codes " || exit 125\n"))
