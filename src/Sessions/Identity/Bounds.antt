-- ===== src/Sessions/Identity/Bounds.antt =====
-- What `_parse_server_identity` accepts.
use remote_ssh_mcp_server.Prelude.Lists.{all, is_nil}
use remote_ssh_mcp_server.Prelude.Text.{Text, codes}
use remote_ssh_mcp_server.Prelude.Chars.{is_space, lower, value}
use remote_ssh_mcp_server.Prelude.{
  ℕ, ◌+◌, ◌≤◌, ◌≡◌, refl, ap, sym, ◌∙◌, inl, inr, Bool, true, false, not, ◌&&◌, [], ◌∷◌, leb,
  if◌then◌else◌, Bool-cases, arith,
}
use remote_ssh_mcp_server.Errors.{ok}
use remote_ssh_mcp_server.Prelude.Lines.{split_lines}
use remote_ssh_mcp_server.Sessions.Identity.{
  ServerIdentity, first_value, bad_host, is_number, parse_server_identity,
}

lower_char-is_space :
    (c : ℕ) → is_space c ≡ false → is_space (if leb b'A' c && leb c b'Z' then c + 32 else c) ≡ false
lower_char-is_space c h = elim (Bool-cases (leb b'A' c && leb c b'Z')) [
  | inl upper ↦ rw upper (unfold is_space in ground arith)
  | inr other ↦ rw other h
]

-- No character is white space.
abbrev pub has_no_space : Text → Bool
has_no_space = all (λ c. not (is_space c))

lower-has_no_space : (t : Text) → has_no_space t ≡ true → has_no_space (lower t) ≡ true
unfolding all lower
lower-has_no_space [] h = refl
lower-has_no_space (c ∷ t) h = ground (arith, lower-has_no_space t, lower_char-is_space c)

is_nil-lower : (t : Text) → is_nil (lower t) ≡ is_nil t
unfolding lower
is_nil-lower [] = refl
is_nil-lower (c ∷ t) = refl

lower-lower : (t : Text) → lower (lower t) ≡ lower t
unfolding lower
lower-lower [] = refl
lower-lower (c ∷ t) = ap2 (ground arith) (lower-lower t)
  where
    ap2 : {a b : ℕ} {s t : Text} → a ≡ b → s ≡ t → a ∷ s ≡ b ∷ t
    ap2 e f = rw (e, f)

-- The server that is read from the output of `ssh -G` has a host in lower case that is not empty and
-- holds no white space, and a port from 1 to 65535, whatever the output is.
pub parse_server_identity-bounds :
    (output : Text) (server : ServerIdentity)
    → parse_server_identity output ≡ ok server
    → (is_nil server.host ≡ false)
      × (has_no_space server.host ≡ true)
      × (lower server.host ≡ server.host)
      × (1 ≤ server.port)
      × (server.port ≤ 65535)
unfolding parse_server_identity bad_host
parse_server_identity-bounds output server h =
    let lines = split_lines false output in
    let host = first_value (codes "hostname") lines in
    let port = first_value (codes "port") lines in
    elim (Bool-cases (bad_host host)) [
      | inl bad ↦ absurd (ground arith)
      | inr fine ↦
          elim (Bool-cases (is_number port && (leb 1 (value 0 port) && leb (value 0 port) 65535))) [
            | inr bad ↦ absurd (ground arith)
            | inl good ↦
                let same : record { host = lower host; port = value 0 port } ≡ server =
                  ground arith in
                (
                  ap (λ s. is_nil s.host) (sym same) ∙ is_nil-lower host ∙ ground arith,
                  ap (λ s. has_no_space s.host) (sym same) ∙ lower-has_no_space host (ground arith),
                  ap (λ s. lower s.host) (sym same) ∙ lower-lower host ∙ ap (λ s. s.host) same,
                  ground (arith, ap (λ s. s.port) same),
                  ground (arith, ap (λ s. s.port) same),
                )
          ]
    ]
