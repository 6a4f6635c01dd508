-- ===== src/Release/Canonical.antt =====
-- Versions as texts, and when a release may follow another.
use Prim.Native.Nat.{◌/◌, ◌%◌}
use remote_ssh_mcp_server.Prelude.Lists.{all, All}
use remote_ssh_mcp_server.Prelude.Text.{Text, has_char}
use remote_ssh_mcp_server.Prelude.Chars.{is_space, is_digit, digits, decimal}
use remote_ssh_mcp_server.Prelude.Chars.Decimal.{value-decimal, decimal-All}
use remote_ssh_mcp_server.Prelude.Split.{split_on-single, split_on-append, strip-no_space}
use remote_ssh_mcp_server.Prelude.{
  ℕ, zero, suc, ◌+◌, ◌<◌, ◌≡◌, refl, subst, ap, subst, sym, ◌∙◌, ◌⊎◌, inl, inr, Bool, true, false,
  not, ◌&&◌, Option, none, some, [], ◌∷◌, ◌++◌, append-nil, ltb, leb, Bool-cases, arith,
}
use remote_ssh_mcp_server.Release.{
  passes, compare_with, check_release, base_version, Version, is_numeral, of_parts, parse, show,
  same, at_most, require_increment,
}

-- The first digit is not zero.
abbrev leads : Text → Bool
leads [] = false
leads (c ∷ t) = leb b'1' c && leb c b'9'

digits-leads : (f n : ℕ) (out : Text) → 0 < n → n < f → leads (digits f n out) ≡ true
unfolding digits
digits-leads zero n out p h = absurd (omega arith)
digits-leads (suc f) n out p h = elim (Bool-cases (ltb n 10)) [
  | inl small ↦ rw small (ground arith)
  | inr large ↦ rw large (
      digits-leads f (n / 10) ((b'0' + n % 10) ∷ out) (ground (arith, large))
        (ground (arith, large)))
]

all-digits : (t : Text) → All (λ c. is_digit c ≡ true) t → all is_digit t ≡ true
unfolding all
all-digits [] h = refl
all-digits (c ∷ t) h = ground (arith, h.0, all-digits t h.1)

leads-is_numeral : (t : Text) → leads t ≡ true → all is_digit t ≡ true → is_numeral t ≡ true
unfolding is_numeral all
leads-is_numeral [] h a = absurd (cc)
leads-is_numeral (c ∷ []) h a = ground arith
leads-is_numeral (c ∷ d ∷ t) h a = ground arith

decimal-is_numeral : (n : ℕ) → is_numeral (decimal n) ≡ true
decimal-is_numeral zero = unfold is_numeral decimal digits in refl
decimal-is_numeral (suc n) =
    leads-is_numeral (decimal (suc n))
      (unfold decimal in digits-leads (suc (suc n)) (suc n) [] (omega arith) (omega arith))
      (all-digits (decimal (suc n)) (decimal-All (suc n)))

digits-no_dot : (t : Text) → all is_digit t ≡ true → has_char b'.' t ≡ false
unfolding all has_char
digits-no_dot [] h = refl
digits-no_dot (c ∷ t) h = ground (arith, digits-no_dot t)

digit-is_space : (c : ℕ) → is_digit c ≡ true → is_space c ≡ false
unfolding is_space
digit-is_space c h = ground arith

abbrev pub no_space : Text → Bool
no_space = all (λ c. not (is_space c))

digits-no_space :
    (t u : Text) → all is_digit t ≡ true → no_space u ≡ true → no_space (t ++ u) ≡ true
unfolding all
digits-no_space [] u h k = k
digits-no_space (c ∷ t) u h k = ground (arith, digits-no_space t u, digit-is_space c)

pub digits-decimal : (n : ℕ) → all is_digit (decimal n) ≡ true
digits-decimal n = all-digits (decimal n) (decimal-All n)

pub show-no_space : (v : Version) → no_space (show v) ≡ true
unfolding show all is_space
show-no_space v = digits-no_space (decimal v.major) _ (digits-decimal v.major) (
    digits-no_space (decimal v.minor) (b'.' ∷ decimal v.patch) (digits-decimal v.minor)
      (last v.patch))
  where
    last : (n : ℕ) → no_space (decimal n) ≡ true
    last n =
        ap no_space (sym (append-nil (decimal n)))
        ∙ digits-no_space (decimal n) [] (digits-decimal n) refl

-- A version that is printed is read back as it was, and so a tag of a release names its version.
pub parse-show : (v : Version) → parse (show v) ≡ some v
unfolding parse of_parts show
parse-show v =
    let a = digits-no_dot (decimal v.major) (digits-decimal v.major) in
    let b = digits-no_dot (decimal v.minor) (digits-decimal v.minor) in
    let c = digits-no_dot (decimal v.patch) (digits-decimal v.patch) in
    rw (
      parse,
      strip-no_space (show v) (show-no_space v),
      show,
      split_on-append b'.' (decimal v.major) (decimal v.minor ++ (b'.' ∷ decimal v.patch)) a,
      split_on-append b'.' (decimal v.minor) (decimal v.patch) b,
      split_on-single b'.' (decimal v.patch) c,
      decimal-is_numeral v.major,
      decimal-is_numeral v.minor,
      decimal-is_numeral v.patch,
      value-decimal v.major,
      value-decimal v.minor,
      value-decimal v.patch,
    )

-- The order of releases: the first number that differs decides.
abbrev pub IsGreater : Version → Version → Type 0
IsGreater a b =
    (b.major < a.major)
    ⊎ ((a.major ≡ b.major) × ((b.minor < a.minor) ⊎ ((a.minor ≡ b.minor) × (b.patch < a.patch))))

at_most-IsGreater : (a b : Version) → at_most a b ≡ false → IsGreater a b
unfolding at_most
at_most-IsGreater a b h = ground arith

same-eq : (a b : Version) → same a b ≡ true → a ≡ b
unfolding same
same-eq a b h = ground arith

-- A release passes only with a version that is greater than that of its base, or with the version of a
-- base that has not been published, if it is greater than the last one that has.
pub require_increment-IsGreater :
    (current base : Version) (unpublished : Option Version)
    → require_increment current base unpublished ≡ true
    → IsGreater current base
      ⊎ ((current ≡ base) × ((last : Version) × (unpublished ≡ some last) × IsGreater current last))
unfolding require_increment
require_increment-IsGreater current base none h =
    inl (at_most-IsGreater current base (ground arith))
require_increment-IsGreater current base (some last) h = elim (Bool-cases (same current base)) [
  | inl e ↦
      inr (same-eq current base e, (last, refl, at_most-IsGreater current last (ground (arith, e))))
  | inr e ↦ inl (at_most-IsGreater current base (ground (arith, e)))
]

passes-some : (v w : Version) (b : Bool) → passes v b ≡ some w → (b ≡ true) × (v ≡ w)
unfolding passes
passes-some v w true h = (refl, ground arith)
passes-some v w false h = absurd (cc)

-- `check` against the printed version of a base, with the last published version if the base has not
-- been published, passes only for a version that may follow.
pub check_release-show :
    (v base last w : Version)
    → check_release v (base_version (show base)) (some (show last)) ≡ some w
    → (v ≡ w) × (IsGreater v base ⊎ ((v ≡ base) × IsGreater v last))
unfolding check_release compare_with
check_release-show v base last w h =
    let e : passes v (require_increment v base (some last)) ≡ some w =
      sym (rw (check_release, parse-show base, compare_with, parse-show last)) ∙ h in
    let (passed, same_version) = passes-some v w _ e in
    (
      same_version,
      elim (require_increment-IsGreater v base (some last) passed) [
        | inl greater ↦ inl greater
        | inr (same_base, (l, is_last, greater)) ↦
            let e : last ≡ l = ground arith in inr (same_base, subst (IsGreater v) (sym e) greater)
      ],
    )
