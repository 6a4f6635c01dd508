-- ===== src/Commands/Script/Framing.antt =====
-- The payload arrives as it was sent.
use remote_ssh_mcp_server.Prelude.Lists.{All, length, take, all, is_nil, take-append, take_all}
use remote_ssh_mcp_server.Prelude.Text.{Text}
use remote_ssh_mcp_server.Prelude.Chars.{decimal, is_digit}
use remote_ssh_mcp_server.Prelude.Chars.Decimal.{value-decimal, decimal-All, decimal-ne-nil}
use remote_ssh_mcp_server.Prelude.{
  ℕ, ◌≡◌, refl, ap, ◌∙◌, true, some, [], ◌∷◌, ◌++◌, arith, Option-cases, Bool-cases, inl, inr,
  append_assoc,
}
use remote_ssh_mcp_server.Commands.Script.{
  newline, wire_payload, payload, read_line, size_of, supervisor_receive,
}

read_line-digits :
    (s t : Text) → All (λ c. is_digit c ≡ true) s → read_line (s ++ newline ∷ t) ≡ some (s, t)
unfolding read_line
read_line-digits [] t h = elim (Option-cases (read_line t)) [ inl e ↦ rw e | inr (found, e) ↦ rw e ]
read_line-digits (c ∷ s) t h = rw (read_line-digits s t h.1) (ground (arith, h.0))

all-digits : (s : Text) → All (λ c. is_digit c ≡ true) s → all is_digit s ≡ true
unfolding all
all-digits [] h = refl
all-digits (c ∷ s) h = rw (h.0, all-digits s h.1)

size_of-decimal : (n : ℕ) → size_of (decimal n) ≡ some n
unfolding size_of
size_of-decimal n = elim (Bool-cases (is_nil (decimal n))) [
  | inl empty ↦ absurd (decimal-ne-nil n (is_nil-eq (decimal n) empty))
  | inr full ↦ rw (full, all-digits (decimal n) (decimal-All n), value-decimal n)
]
  where
    is_nil-eq : (t : Text) → is_nil t ≡ true → t ≡ []
    is_nil-eq [] h = refl
    is_nil-eq (c ∷ t) h = cc

-- The bytes behind a line with a size `n`, if that line is read.
supervisor_receive-line :
    (input rest : Text) (n : ℕ)
    → read_line input ≡ some (decimal n, rest)
    → supervisor_receive input ≡ payload (take n rest)
unfolding supervisor_receive
supervisor_receive-line input rest n h = rw (h, supervisor_receive) (rw (size_of-decimal n))

-- The supervisor hands exactly the payload to the remote shell, whatever stands behind it in the
-- stream.
pub supervisor_receive-wire_payload :
    (p extra : Text) → supervisor_receive (wire_payload p ++ extra) ≡ payload p
unfolding wire_payload
supervisor_receive-wire_payload p extra =
    rw (append_assoc (decimal (length p)) (newline ∷ p) extra) (
      supervisor_receive-line _ (p ++ extra) (length p)
        (read_line-digits (decimal (length p)) (p ++ extra) (decimal-All (length p)))
      ∙ ap payload
          (take-append (length p) p extra (omega arith) ∙ take_all (length p) p (omega arith)))
