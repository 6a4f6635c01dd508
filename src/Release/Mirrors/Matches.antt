-- ===== src/Release/Mirrors/Matches.antt =====
-- The parts of a match of a mirror.
use remote_ssh_mcp_server.Prelude.Lists.{
  length, take, drop, is_nil, length-append, take-append_behind,
}
use remote_ssh_mcp_server.Prelude.Text.{Text, codes}
use remote_ssh_mcp_server.Prelude.Chars.{lstrip, is_space}
use remote_ssh_mcp_server.Prelude.Fallible.{check, >>=-some, some-inj}
use remote_ssh_mcp_server.Prelude.{
  ◌-◌, ◌+◌, ◌≡◌, refl, ap, sym, ◌∙◌, not, some, [], ◌∷◌, ◌++◌, append_assoc, append-nil, ◌==◌, inl,
  inr, Bool-cases, Option-cases, arith,
}
use remote_ssh_mcp_server.Release.Mirrors.{
  Mirror, pyproject_mirror, module_mirror, literal, read_head, module_prefix, first_line,
  until_quote, in_quotes, mirror_at, quoted,
}

pub literal-append : (p t rest : Text) → literal p t ≡ some rest → t ≡ p ++ rest
unfolding literal
literal-append [] t rest h = some-inj h
literal-append (p ∷ ps) [] rest h = absurd (cc)
literal-append (p ∷ ps) (c ∷ t) rest h = elim (Bool-cases (c == p)) [
  | inl e ↦
      let same : c ≡ p = ground (arith, e) in
      ap (λ x. x ∷ t) same ∙ ap (◌∷◌ p) (literal-append ps t rest (ground (arith, e, h)))
  | inr e ↦ absurd (ground (arith, e, h))
]

-- The white space that `lstrip` takes away.
lstrip-append : (t : Text) → (space : Text) × (t ≡ space ++ lstrip t)
unfolding lstrip
lstrip-append [] = ([], refl)
lstrip-append (c ∷ t) = elim (Bool-cases (is_space c)) [
  | inl e ↦ let (space, same) = lstrip-append t in (c ∷ space, rw e (ap (◌∷◌ c) same))
  | inr e ↦ ([], rw e refl)
]

read_head-append :
    (m : Mirror) (t behind : Text)
    → read_head m t ≡ some behind
    → (head : Text) × (t ≡ head ++ behind)
unfolding read_head
read_head-append module_mirror t behind h = (module_prefix, literal-append module_prefix t behind h)
read_head-append pyproject_mirror t behind h =
    let (a, e1, h1) = >>=-some (literal (codes "version") t) _ behind h in
    let (b, e2, h2) = >>=-some (literal (codes "=") (lstrip a)) _ behind h1 in
    let (s1, q1) = lstrip-append a in
    let (s2, q2) = lstrip-append b in
    (
      codes "version" ++ (s1 ++ (codes "=" ++ s2)),
      literal-append (codes "version") t a e1
          ∙ ap (λ w. codes "version" ++ w)
              (q1
                ∙ ap (λ w. s1 ++ w)
                    (literal-append (codes "=") (lstrip a) b e2
                      ∙ ap (λ w. codes "=" ++ w) (q2 ∙ ap (λ w. s2 ++ w) (some-inj h2)))
                ∙ sym (append_assoc s1 (codes "=" ++ s2) behind)),
    )

first_line-append : (t : Text) → t ≡ first_line t ++ drop (length (first_line t)) t
unfolding first_line
first_line-append [] = refl
first_line-append (c ∷ t) = elim (Bool-cases (c == 10)) [
  | inl e ↦ rw e refl
  | inr e ↦ rw e (ap (◌∷◌ c) (first_line-append t))
]

first_line-drop : (t : Text) → first_line (drop (length (first_line t)) t) ≡ []
unfolding first_line
first_line-drop [] = refl
first_line-drop (c ∷ t) = elim (Bool-cases (c == 10)) [
  | inl e ↦ rw (e, first_line) (rw (e, first_line) refl)
  | inr e ↦ rw e (first_line-drop t)
]

until_quote-append : (t inside : Text) → until_quote t ≡ some inside → t ≡ inside ++ (b'"' ∷ [])
unfolding until_quote
until_quote-append [] inside h = absurd (cc)
until_quote-append (c ∷ []) inside h = elim (Bool-cases (c == b'"')) [
  | inl e ↦
      let same : c ≡ b'"' = ground (arith, e) in
      let empty : [] ≡ inside = ground (arith, e, h) in
      ap (λ x. x ∷ []) same ∙ ap (λ w. w ++ (b'"' ∷ [])) empty
  | inr e ↦ absurd (ground (arith, e, h))
]
until_quote-append (c ∷ d ∷ t) inside h = elim (Option-cases (until_quote (d ∷ t))) [
  | inl e ↦ absurd (ground (arith, e, h))
  | inr (rest, e) ↦
      let same : c ∷ rest ≡ inside = ground (arith, e, h) in
      ap (◌∷◌ c) (until_quote-append (d ∷ t) rest e) ∙ ap (λ w. w ++ (b'"' ∷ [])) same
]

in_quotes-append : (t inside : Text) → in_quotes t ≡ some inside → t ≡ quoted inside []
unfolding in_quotes
in_quotes-append [] inside h = absurd (cc)
in_quotes-append (c ∷ t) inside h = elim (Bool-cases (c == b'"')) [
  | inl e ↦
      let same : c ≡ b'"' = ground (arith, e) in
      ap (λ x. x ∷ t) same ∙ ap (◌∷◌ b'"') (until_quote-append t inside (ground (arith, e, h)))
  | inr e ↦ absurd (ground (arith, e, h))
]

pub take-append_all : (xs ys : Text) → take (length (xs ++ ys) - length ys) (xs ++ ys) ≡ xs
take-append_all xs ys =
    ap (λ n. take n (xs ++ ys)) {x = length (xs ++ ys) - length ys} {y = length xs + 0}
      (omega (arith, length-append xs ys))
    ∙ take-append_behind xs ys 0
    ∙ append-nil xs

-- A match: its first part, the quoted text and what follows.
pub record IsMatch (m : Mirror) (t head behind : Text) : Type 0 where
  pub old : Text
  pub parts : t ≡ head ++ quoted old behind
  pub headed : read_head m t ≡ some (quoted old behind)
  pub ended : first_line behind ≡ []

pub mirror_at-IsMatch :
    (m : Mirror) (t head behind : Text)
    → mirror_at m t ≡ some (head, behind)
    → IsMatch m t head behind
unfolding mirror_at
mirror_at-IsMatch m t head behind h =
    let (text, e1, h1) = >>=-some (read_head m t) _ (head, behind) h in
    let (old, e2, h2) = >>=-some (in_quotes (first_line text)) _ (head, behind) h1 in
    let (u, e3, h3) = >>=-some (check (not (is_nil old))) _ (head, behind) h2 in
    let pair = some-inj h3 in
    let (front, parts) = read_head-append m t text e1 in
    let same_head : front ≡ head =
      sym (take-append_all front text)
      ∙ ap (λ w. take (length w - length text) w) (sym parts)
      ∙ ap (λ (q : Text × Text). q.0) pair in
    let line : text ≡ quoted old behind =
      first_line-append text
      ∙ ap (λ w. first_line text ++ w) (ap (λ (q : Text × Text). q.1) pair)
      ∙ ap (λ w. w ++ behind) (in_quotes-append (first_line text) old e2)
      ∙ ap (◌∷◌ b'"') (append_assoc old (b'"' ∷ []) behind) in
    record {
      old = old;
      parts = parts ∙ ap (λ w. w ++ text) same_head ∙ ap (λ w. head ++ w) line;
      headed = e1 ∙ ap some line;
      ended = ap first_line (sym (ap (λ (q : Text × Text). q.1) pair)) ∙ first_line-drop text;
    }
