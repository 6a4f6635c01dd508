-- ===== src/Prelude/Encoding.antt =====
-- `bytes.decode("utf-8", errors="strict")`, `bytes.decode("ascii", errors="replace")` and
-- `base64.b64encode`.
pub mod Utf8
pub mod Base64
use Prim.Native.Nat.{◌/◌, ◌%◌}
use remote_ssh_mcp_server.Prelude.Text.{Text}
use remote_ssh_mcp_server.Prelude.Fallible.{◌>>=◌}
use remote_ssh_mcp_server.Prelude.{
  ℕ, ◌+◌, ◌-◌, ◌*◌, Bool, true, false, not, ◌&&◌, Option, none, some, List, [], ◌∷◌, ◌++◌, ltb, leb,
  ◌==◌, if◌then◌else◌,
}

-- How many bytes of a character have been read, and the number that their bits give.
pub data Progress : Type 0 where
  between_characters : Progress
  one_of_two one_of_three two_of_three one_of_four two_of_four three_of_four : ℕ → Progress

-- A byte that continues a character: its six bits.
unfoldable pub continuation : ℕ → Option ℕ
continuation b = if leb 0x80 b && ltb b 0xc0 then some (b - 0x80) else none

-- The first byte of a character
unfoldable pub first_byte : ℕ → Option (Text × Progress)
first_byte b =
    if ltb b 0x80
    then some (b ∷ [], between_characters)
    else if leb 0xc2 b && ltb b 0xe0
    then some ([], one_of_two (b - 0xc0))
    else if leb 0xe0 b && ltb b 0xf0
    then some ([], one_of_three (b - 0xe0))
    else if leb 0xf0 b && ltb b 0xf5
    then some ([], one_of_four (b - 0xf0))
    else none

-- A character that is complete, if it may have this length: no shorter form, no surrogate, in range.
unfoldable pub complete_character : Bool → ℕ → Option (Text × Progress)
complete_character allowed c = if allowed then some (c ∷ [], between_characters) else none

unfoldable pub is_of_three : ℕ → Bool
is_of_three c = leb 0x800 c && not (leb 0xd800 c && ltb c 0xe000)

unfoldable pub is_of_four : ℕ → Bool
is_of_four c = leb 0x10000 c && ltb c 0x110000

-- What a byte adds to the text, and where it leaves the character.
unfoldable pub next_byte : Progress → ℕ → Option (Text × Progress)
unfolding continuation first_byte complete_character is_of_three is_of_four
next_byte between_characters b = first_byte b
next_byte (one_of_two c) b = do k ← continuation b; complete_character true (c * 64 + k)
next_byte (one_of_three c) b = do k ← continuation b; some ([], two_of_three (c * 64 + k))
next_byte (two_of_three c) b = do
  k ← continuation b
  complete_character (is_of_three (c * 64 + k)) (c * 64 + k)
next_byte (one_of_four c) b = do k ← continuation b; some ([], two_of_four (c * 64 + k))
next_byte (two_of_four c) b = do k ← continuation b; some ([], three_of_four (c * 64 + k))
next_byte (three_of_four c) b = do
  k ← continuation b
  complete_character (is_of_four (c * 64 + k)) (c * 64 + k)

-- The end of the bytes, which is the end of a character
unfoldable pub end_of : Progress → Option Text
end_of between_characters = some []
end_of _ = none

unfoldable pub decode_bytes : Progress → Text → Option Text
unfolding next_byte end_of
decode_bytes progress [] = end_of progress
decode_bytes progress (b ∷ raw) = do
  (text, after) ← next_byte progress b
  rest ← decode_bytes after raw
  some (text ++ rest)

-- `raw.decode("utf-8", errors="strict")`, none for a `UnicodeDecodeError`
unfoldable pub utf8_decode : Text → Option Text
unfolding decode_bytes
utf8_decode = decode_bytes between_characters

-- `raw.decode("ascii", errors="replace")`
unfoldable pub ascii_replace : Text → Text
ascii_replace [] = []
ascii_replace (b ∷ raw) = (if ltb b 128 then b else 0xfffd) ∷ ascii_replace raw

-- The character of the alphabet for six bits.
unfoldable pub b64_char : ℕ → ℕ
b64_char n =
    if ltb n 26
    then 65 + n
    else if ltb n 52
    then 71 + n
    else if ltb n 62
    then n - 4
    else if n == 62
    then 43
    else 47

-- `base64.b64encode(raw).decode("ascii")`
unfoldable pub b64encode : Text → Text
unfolding b64_char
b64encode [] = []
b64encode (a ∷ []) = b64_char (a / 4) ∷ b64_char (a % 4 * 16) ∷ b'=' ∷ b'=' ∷ []
b64encode (a ∷ b ∷ []) =
    b64_char (a / 4) ∷ b64_char (a % 4 * 16 + b / 16) ∷ b64_char (b % 16 * 4) ∷ b'=' ∷ []
b64encode (a ∷ b ∷ c ∷ raw) =
    b64_char (a / 4)
    ∷ b64_char (a % 4 * 16 + b / 16)
    ∷ b64_char (b % 16 * 4 + c / 64)
    ∷ b64_char (c % 64)
    ∷ b64encode raw
