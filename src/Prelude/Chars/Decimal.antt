-- ===== src/Prelude/Chars/Decimal.antt =====
-- Printed numbers are made of digits and are read back.
use remote_ssh_mcp_server.Prelude.Lists.{All}
use remote_ssh_mcp_server.Prelude.Tests.{Bool-cases, ltb}
use remote_ssh_mcp_server.Prelude.Text.{Text}
use remote_ssh_mcp_server.Prelude.Chars.{is_digit, digits, decimal, value}
use Prim.Native.Nat.{ℕ, zero, suc, ◌+◌, ◌-◌, ◌*◌, ◌/◌, ◌%◌, ◌<◌}
use mathlib.Core.Path.{◌≡◌, ap, ◌∙◌}
use mathlib.Core.Bool.{true}
use mathlib.Core.Logic.{inl, inr, ◌≢◌}
use mathlib.Core.List.{[], ◌∷◌}
use native.Mathlib.Omega.{arith}

value-digits : (f n : ℕ) (out : Text) → n < f → value 0 (digits f n out) ≡ value n out
unfolding value digits
value-digits zero n out h = absurd (omega arith)
value-digits (suc f) n out h = elim (Bool-cases (ltb n 10)) [
  | inl small ↦
      rw small (ap (λ k. value k out) {x = 0 * 10 + (b'0' + n - b'0')} {y = n} (omega arith))
  | inr large ↦ rw large (
      value-digits f (n / 10) ((b'0' + n % 10) ∷ out) (ground (arith, large))
      ∙ ap (λ k. value k out) {x = n / 10 * 10 + (b'0' + n % 10 - b'0')} {y = n} (omega arith))
]

pub value-decimal : (n : ℕ) → value 0 (decimal n) ≡ n
unfolding value decimal
value-decimal n = value-digits (suc n) n [] (omega arith)

abbrev IsDigit : ℕ → Type 0
IsDigit c = is_digit c ≡ true

digits-All : (f n : ℕ) (out : Text) → All IsDigit out → All IsDigit (digits f n out)
unfolding digits
digits-All zero n out h = h
digits-All (suc f) n out h = elim (Bool-cases (ltb n 10)) [
  | inl small ↦ rw small (ground arith, h)
  | inr large ↦ rw large (digits-All f (n / 10) ((b'0' + n % 10) ∷ out) (ground arith, h))
]

pub decimal-All : (n : ℕ) → All IsDigit (decimal n)
unfolding decimal
decimal-All n = digits-All (suc n) n [] tt

digits-ne-nil : (f n : ℕ) (out : Text) → n < f → digits f n out ≢ []
unfolding digits
digits-ne-nil zero n out h = absurd (omega arith)
digits-ne-nil (suc f) n out h = elim (Bool-cases (ltb n 10)) [
  | inl small ↦ rw small (λ e. cc)
  | inr large ↦ rw large (digits-ne-nil f (n / 10) ((b'0' + n % 10) ∷ out) (ground (arith, large)))
]

-- A number has at least one digit.
pub decimal-ne-nil : (n : ℕ) → decimal n ≢ []
unfolding decimal
decimal-ne-nil n = digits-ne-nil (suc n) n [] (omega arith)
