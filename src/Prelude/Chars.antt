-- ===== src/Prelude/Chars.antt =====
-- Python's character classes and the string methods that rest on them.
pub mod Decimal
use Prim.Native.Nat.{ℕ, zero, suc, ◌+◌, ◌-◌, ◌*◌, ◌/◌, ◌%◌}
use mathlib.Core.Bool.{Bool, true, false, ◌&&◌, ◌||◌}
use mathlib.Core.List.{List, [], ◌∷◌, ◌++◌, map}
use remote_ssh_mcp_server.Prelude.Tests.{ltb, leb, ◌==◌, if◌then◌else◌}
use remote_ssh_mcp_server.Prelude.Text.{Text}

abbrev between : ℕ → ℕ → ℕ → Bool
between lo hi c = leb lo c && leb c hi

-- `c.isspace()`
unfoldable pub is_space : ℕ → Bool
is_space c =
    between 9 13 c
    || between 28 32 c
    || c == 0x85
    || c == 0xa0
    || c == 0x1680
    || between 0x2000 0x200a c
    || between 0x2028 0x2029 c
    || c == 0x202f
    || c == 0x205f
    || c == 0x3000

-- `s.lstrip()`
unfoldable pub lstrip : Text → Text
unfolding is_space
lstrip [] = []
lstrip (c ∷ s) = let rest = lstrip s in if is_space c then rest else c ∷ s

-- A character in front of what is left of the rest.
unfoldable pub push : ℕ → Text → Text
unfolding is_space
push c [] = if is_space c then [] else c ∷ []
push c (d ∷ t) = c ∷ d ∷ t

-- `s.rstrip()`
unfoldable pub rstrip : Text → Text
unfolding push
rstrip [] = []
rstrip (c ∷ s) = push c (rstrip s)

-- `s.strip()`
unfoldable pub strip : Text → Text
unfolding lstrip rstrip
strip s = rstrip (lstrip s)

-- `c in "0123456789"`
abbrev pub is_digit : ℕ → Bool
is_digit = between b'0' b'9'

-- `s.casefold()` and `s.lower()`, on ASCII text
unfoldable pub lower : Text → Text
lower = map (λ c. if between b'A' b'Z' c then c + 32 else c)

-- The UTF-8 bytes of a code point.
unfoldable pub utf8_char : ℕ → Text
utf8_char c =
    if ltb c 0x80
    then c ∷ []
    else if ltb c 0x800
    then (0xc0 + c / 64) ∷ (0x80 + c % 64) ∷ []
    else if ltb c 0x10000
    then (0xe0 + c / 4096) ∷ (0x80 + c / 64 % 64) ∷ (0x80 + c % 64) ∷ []
    else (0xf0 + c / 262144) ∷ (0x80 + c / 4096 % 64) ∷ (0x80 + c / 64 % 64) ∷ (0x80 + c % 64) ∷ []

-- `s.encode("utf-8")`, on text without surrogates
unfoldable pub encode : Text → Text
unfolding utf8_char
encode [] = []
encode (c ∷ s) = utf8_char c ++ encode s

unfoldable pub digits : ℕ → ℕ → Text → Text
digits zero n out = out
digits (suc f) n out =
    let rest = digits f (n / 10) ((b'0' + n % 10) ∷ out) in
    if ltb n 10 then (b'0' + n) ∷ out else rest

-- `str(n)`
unfoldable pub decimal : ℕ → Text
unfolding digits
decimal n = digits (suc n) n []

-- The number that decimal digits stand for, behind `n`.
unfoldable pub value : ℕ → Text → ℕ
value n [] = n
value n (c ∷ s) = value (n * 10 + (c - b'0')) s
