-- ===== src/Prelude/Encoding/Base64.antt =====
-- What is encoded in base 64 is decoded to the same bytes.
use Prim.Native.Nat.{◌/◌, ◌%◌}
use remote_ssh_mcp_server.Prelude.Lists.{All}
use remote_ssh_mcp_server.Prelude.Text.{Text}
use remote_ssh_mcp_server.Prelude.{
  ℕ, ◌+◌, ◌-◌, ◌*◌, ◌<◌, ◌≡◌, refl, ap, false, ◌&&◌, [], ◌∷◌, leb, ◌==◌, if◌then◌else◌, arith,
}
use remote_ssh_mcp_server.Prelude.Encoding.{b64_char, b64encode}

-- The six bits that a character of the alphabet stands for.
unfoldable pub b64_value : ℕ → ℕ
b64_value c =
    if leb 65 c && leb c 90
    then c - 65
    else if leb 97 c && leb c 122
    then c - 71
    else if leb 48 c && leb c 57
    then c + 4
    else if c == 43
    then 62
    else 63

-- The bytes of a text in base 64.
unfoldable pub b64decode : Text → Text
unfolding b64_value
b64decode (w ∷ x ∷ y ∷ z ∷ coded) =
    let rest = b64decode coded in
    let first = b64_value w * 4 + b64_value x / 16 in
    let second = b64_value x % 16 * 16 + b64_value y / 4 in
    let third = b64_value y % 4 * 64 + b64_value z in
    if y == b'='
    then first ∷ []
    else if z == b'='
    then first ∷ second ∷ []
    else first ∷ second ∷ third ∷ rest
b64decode _ = []

b64_value-char : (n : ℕ) → n < 64 → b64_value (b64_char n) ≡ n
unfolding b64_value b64_char
b64_value-char n h = ground arith

b64_char-ne-pad : (n : ℕ) → n < 64 → (b64_char n == b'=') ≡ false
unfolding b64_char
b64_char-ne-pad n h = ground arith

-- Bytes are numbers below 256.
pub b64decode-b64encode : (raw : Text) → All (λ c. c < 256) raw → b64decode (b64encode raw) ≡ raw
unfolding b64decode b64encode
b64decode-b64encode [] h = refl
b64decode-b64encode (a ∷ []) h =
    rw (b64_value-char (a / 4) (omega (arith, h.0)), b64_value-char (a % 4 * 16) (omega arith))
      (ap (λ n. n ∷ []) {x = a / 4 * 4 + a % 4 * 16 / 16} {y = a} (omega arith))
b64decode-b64encode (a ∷ b ∷ []) h =
    let first : a / 4 * 4 + (a % 4 * 16 + b / 16) / 16 ≡ a = omega (arith, h.1.0) in
    let second : (a % 4 * 16 + b / 16) % 16 * 16 + b % 16 * 4 / 4 ≡ b = omega (arith, h.1.0) in
    rw
      (
        b64_char-ne-pad (b % 16 * 4) (omega arith),
        b64_value-char (a / 4) (omega (arith, h.0)),
        b64_value-char (a % 4 * 16 + b / 16) (omega (arith, h.1.0)),
        b64_value-char (b % 16 * 4) (omega arith),
      )
      (cc (first, second))
b64decode-b64encode (a ∷ b ∷ c ∷ raw) h =
    let first : a / 4 * 4 + (a % 4 * 16 + b / 16) / 16 ≡ a = omega (arith, h.1.0) in
    let second : (a % 4 * 16 + b / 16) % 16 * 16 + (b % 16 * 4 + c / 64) / 4 ≡ b =
      omega (arith, h.1.0, h.1.1.0) in
    let third : (b % 16 * 4 + c / 64) % 4 * 64 + c % 64 ≡ c = omega (arith, h.1.1.0) in
    rw
      (
        b64_char-ne-pad (b % 16 * 4 + c / 64) (omega (arith, h.1.1.0)),
        b64_char-ne-pad (c % 64) (omega arith),
        b64_value-char (a / 4) (omega (arith, h.0)),
        b64_value-char (a % 4 * 16 + b / 16) (omega (arith, h.1.0)),
        b64_value-char (b % 16 * 4 + c / 64) (omega (arith, h.1.1.0)),
        b64_value-char (c % 64) (omega arith),
      )
      (cc (first, second, third, b64decode-b64encode raw h.1.1.1))
