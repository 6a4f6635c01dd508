-- ===== src/Inspection/Directory/Numbers.antt =====
-- How `int` of Python reads the decimal text of a number.
use remote_ssh_mcp_server.Prelude.Int.{pos}
use remote_ssh_mcp_server.Prelude.Lists.{All}
use remote_ssh_mcp_server.Prelude.Text.{Text}
use remote_ssh_mcp_server.Prelude.Chars.{is_digit, decimal, value}
use remote_ssh_mcp_server.Prelude.Chars.Decimal.{value-decimal, decimal-All, decimal-ne-nil}
use remote_ssh_mcp_server.Prelude.{
  Bool, ℕ, ◌+◌, ◌-◌, ◌*◌, ◌≡◌, ◌≢◌, refl, ap, ◌∙◌, true, false, some, [], ◌∷◌, inl, inr,
  Option-cases, arith,
}
use mathlib.Core.Option
use remote_ssh_mcp_server.Inspection.{
  digit_of, is_blank, number, signed, skip_blank, skip_prefix, int_of,
}

-- Digits are read as the number that they stand for.
number-digits :
    (need : Bool) (n : ℕ) (s : Text)
    → All (λ c. is_digit c ≡ true) s
    → (need ≡ true → s ≢ [])
    → number 10 need n s ≡ some (value n s)
unfolding number value
number-digits true n [] h k = absurd (k refl refl)
number-digits false n [] h k = refl
number-digits need n (c ∷ s) h k =
    rw (digit_of-digit c h.0, number) (number-digits false (n * 10 + (c - b'0')) s h.1 (λ e. cc))
  where
    digit_of-digit : (c : ℕ) → is_digit c ≡ true → digit_of 10 c ≡ some (c - b'0')
    digit_of-digit c d = unfold digit_of in ground arith

skip_prefix_ten : (t : Text) → skip_prefix 10 t ≡ t
unfolding skip_prefix
skip_prefix_ten [] = refl
skip_prefix_ten (c ∷ []) = refl
skip_prefix_ten (c ∷ d ∷ t) = refl

skip_blank-digit : (c : ℕ) (s : Text) → is_digit c ≡ true → skip_blank (c ∷ s) ≡ c ∷ s
unfolding skip_blank is_blank
skip_blank-digit c s d = ground arith

signed-digit :
    (c : ℕ) (s : Text)
    → is_digit c ≡ true
    → signed 10 (c ∷ s) ≡ Option.map pos (number 10 true 0 (skip_prefix 10 (c ∷ s)))
unfolding signed
signed-digit c s d = elim (Option-cases (number 10 true 0 (skip_prefix 10 (c ∷ s)))) [
  | inl e ↦ ground (arith, e)
  | inr (n, e) ↦ ground (arith, e)
]

-- A digit at the front is no white space and no sign.
int_of-front :
    (c : ℕ) (s : Text)
    → is_digit c ≡ true
    → int_of 10 (c ∷ s) ≡ Option.map pos (number 10 true 0 (skip_prefix 10 (c ∷ s)))
unfolding int_of
int_of-front c s d = ap (signed 10) (skip_blank-digit c s d) ∙ signed-digit c s d

int_of-digits :
    (s : Text) → All (λ c. is_digit c ≡ true) s → s ≢ [] → int_of 10 s ≡ some (pos (value 0 s))
int_of-digits [] h k = absurd (k refl)
int_of-digits (c ∷ s) h k =
    int_of-front c s h.0
    ∙ on_number (skip_prefix_ten (c ∷ s)) (number-digits true 0 (c ∷ s) h (λ _. k))
  where
    on_number :
        skip_prefix 10 (c ∷ s) ≡ c ∷ s
        → number 10 true 0 (c ∷ s) ≡ some (value 0 (c ∷ s))
        → Option.map pos (number 10 true 0 (skip_prefix 10 (c ∷ s))) ≡ some (pos (value 0 (c ∷ s)))
    on_number e f = rw (e, f)

pub int_of-decimal : (n : ℕ) → int_of 10 (decimal n) ≡ some (pos n)
int_of-decimal n =
    int_of-digits (decimal n) (decimal-All n) (decimal-ne-nil n)
    ∙ ap (λ k. some (pos k)) (value-decimal n)
