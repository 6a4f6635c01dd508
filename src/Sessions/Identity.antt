-- ===== src/Sessions/Identity.antt =====
-- `ServerIdentity` and `_parse_server_identity` of remote_ssh_mcp/sessions.py. The output of `ssh -G`
-- is its text after `decode`; its digits are the ASCII ones.
pub mod Bounds
use remote_ssh_mcp_server.Prelude.Lists.{all, is_nil}
use remote_ssh_mcp_server.Prelude.Text.{Text, codes, text_eq}
use remote_ssh_mcp_server.Prelude.Chars.{is_space, strip, is_digit, lower, value}
use remote_ssh_mcp_server.Prelude.{
  ℕ, Bool, true, false, not, ◌&&◌, ◌||◌, Option, none, some, List, [], ◌∷◌, leb, ◌==◌,
  if◌then◌else◌,
}
use remote_ssh_mcp_server.Errors.{Raised, remote, Result, ok, err, connection_start_failed}
use remote_ssh_mcp_server.Prelude.Lines.{split_lines}

pub record ServerIdentity : Type 0 where
  pub host : Text
  pub port : ℕ

-- The dataclass's `==`.
unfoldable pub same_server : ServerIdentity → ServerIdentity → Bool
unfolding text_eq
same_server a b = text_eq a.host b.host && a.port == b.port

-- `line.partition(" ")`, less the separator
partition_space : Text → Text × Text
partition_space [] = ([], [])
partition_space (c ∷ t) =
    let (name, rest) = partition_space t in if c == 32 then ([], t) else (c ∷ name, rest)

-- The value of the first line with the name, which `values[name]` keeps; the empty default.
first_value : Text → List Text → Text
unfolding text_eq partition_space strip
first_value name [] = []
first_value name (line ∷ lines) =
    let (n, rest) = partition_space line in
    let later = first_value name lines in if text_eq n name then strip rest else later

-- `not host or any(character.isspace() for character in host)`
bad_host : Text → Bool
unfolding all is_space
bad_host host = is_nil host || not (all (λ c. not (is_space c)) host)

-- `port.isdigit()`
is_number : Text → Bool
unfolding all
is_number port = not (is_nil port) && all is_digit port

-- `_parse_server_identity`
unfoldable pub parse_server_identity : Text → Result ServerIdentity
unfolding split_lines first_value bad_host is_number lower value
parse_server_identity output =
    let lines = split_lines false output in
    let host = first_value (codes "hostname") lines in
    let port = first_value (codes "port") lines in
    if bad_host host
    then err (remote connection_start_failed)
    else if is_number port && (leb 1 (value 0 port) && leb (value 0 port) 65535)
    then ok (record { host = lower host; port = value 0 port })
    else err (remote connection_start_failed)
