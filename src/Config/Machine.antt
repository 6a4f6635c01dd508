-- ===== src/Config/Machine.antt =====
-- `environment_key` of remote_ssh_mcp/machine.py. `hmac_hex` is the hexadecimal HMAC-SHA-256 under the
-- program's own key.
pub mod Distinct
use remote_ssh_mcp_server.Prelude.Lists.{length, take, drop, all}
use remote_ssh_mcp_server.Prelude.Text.{Text, codes, text_eq}
use remote_ssh_mcp_server.Prelude.Chars.{decimal}
use remote_ssh_mcp_server.Prelude.{
  ℕ, ◌+◌, ◌-◌, ◌*◌, Bool, true, false, not, ◌&&◌, ◌||◌, Option, none, some, List, [], ◌∷◌, ◌++◌,
  leb, ◌==◌, if◌then◌else◌,
}

-- `[0-9a-f]`
abbrev pub is_hex_digit : ℕ → Bool
is_hex_digit c = (leb b'0' c && leb c b'9') || (leb b'a' c && leb c b'f')

-- The value of a hexadecimal digit in lower case.
abbrev pub hex_value : ℕ → ℕ
hex_value c = if leb b'a' c then (c - b'a') + 10 else c - b'0'

-- `bytes.fromhex`, on an even number of digits
unfoldable pub from_hex : Text → Text
from_hex [] = []
from_hex (c ∷ []) = []
from_hex (c ∷ d ∷ t) = (hex_value c * 16 + hex_value d) ∷ from_hex t

-- The test of the file's contents: `[0-9a-f]{32}\n?`, and not zero.
unfoldable pub valid_id : Text → Bool
unfolding all text_eq
valid_id value =
    length (take 32 value) == 32
    && (all is_hex_digit (take 32 value)
        && ((text_eq (drop 32 value) [] || text_eq (drop 32 value) (codes "\n"))
            && not (all (λ c. c == b'0') (take 32 value))))

-- `identity + b"\0" + str(os.getuid()).encode("ascii")`
unfoldable pub hmac_input : Text → ℕ → Text
unfolding from_hex
hmac_input value uid = from_hex (take 32 value) ++ (0 ∷ decimal uid)

-- `environment_key`: none for a `MachineIdentityError`. `contents` is none when the file cannot be read.
unfoldable pub environment_key : (Text → Text) → Option Text → ℕ → Option Text
unfolding valid_id hmac_input
environment_key hmac_hex none uid = none
environment_key hmac_hex (some value) uid =
    if valid_id value then some (hmac_hex (hmac_input value uid)) else none
