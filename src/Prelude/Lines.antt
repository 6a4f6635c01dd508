-- ===== src/Prelude/Lines.antt =====
-- `str.splitlines`.
use remote_ssh_mcp_server.Prelude.Text.{Text}
use remote_ssh_mcp_server.Prelude.{ℕ, Bool, ◌&&◌, ◌||◌, List, [], ◌∷◌, leb, ◌==◌, if◌then◌else◌}

-- The separators of `str.splitlines`, less the pair "\r\n".
unfoldable pub is_break : ℕ → Bool
is_break c =
    (leb 10 c && leb c 13) || (leb 28 c && leb c 30) || c == 0x85 || c == 0x2028 || c == 0x2029

unfoldable prepend_char : ℕ → List Text → List Text
prepend_char c [] = (c ∷ []) ∷ []
prepend_char c (l ∷ ls) = (c ∷ l) ∷ ls

-- `splitlines` where `after_return` says that the character before was a "\r".
unfoldable pub split_lines : Bool → Text → List Text
unfolding is_break prepend_char
split_lines after_return [] = []
split_lines after_return (c ∷ t) =
    let rest = split_lines (c == 13) t in
    if after_return && c == 10 then rest else if is_break c then [] ∷ rest else prepend_char c rest
