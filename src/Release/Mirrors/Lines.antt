-- ===== src/Release/Mirrors/Lines.antt =====
-- The lines of a module before and after a replacement.
use remote_ssh_mcp_server.Prelude.Lists.{length, take, drop, is_nil}
use remote_ssh_mcp_server.Prelude.Text.{Text, has_char, split_on}
use remote_ssh_mcp_server.Prelude.Fallible.{>>=-some, some-inj}
use remote_ssh_mcp_server.Prelude.{
  ℕ, zero, ◌-◌, ◌≡◌, refl, ap, true, false, not, none, some, [], ◌∷◌, ◌++◌, ◌==◌, inl, inr,
  Bool-cases, Option-cases, arith,
}
use remote_ssh_mcp_server.Release.{Version, of_parts}
use remote_ssh_mcp_server.Release.Mirrors.{
  Mirror, module_mirror, literal, read_head, module_prefix, first_line, in_quotes, mirror_at, subn,
  version_line, find_versions,
}
use remote_ssh_mcp_server.Release.Mirrors.Replaced.{subn-unmatched}

literal-first_line :
    (p t rest : Text)
    → literal p (first_line t) ≡ some rest
    → (behind : Text) × (literal p t ≡ some behind) × (first_line behind ≡ rest)
unfolding literal first_line
literal-first_line [] t rest h = (t, refl, some-inj h)
literal-first_line (p ∷ ps) [] rest h = absurd (cc)
literal-first_line (p ∷ ps) (c ∷ t) rest h = elim (Bool-cases (c == 10)) [
  | inl e ↦ absurd (ground (arith, e, h))
  | inr e ↦ elim (Bool-cases (c == p)) [
    | inl same ↦
        let (behind, found, line) = literal-first_line ps t rest (ground (arith, e, same, h)) in
        (behind, rw same found, line)
    | inr other ↦ absurd (ground (arith, e, other, h))
  ]
]

nonempty-of_parts :
    (inside : Text) (parts : Version)
    → of_parts (split_on b'.' inside) ≡ some parts
    → not (is_nil inside) ≡ true
unfolding of_parts split_on
nonempty-of_parts [] parts e = absurd (cc)
nonempty-of_parts (c ∷ inside) parts e = refl

-- A line with a version in the strict form is a mirror.
version_line-mirror :
    (t text : Text)
    → version_line (first_line t) ≡ some text
    → (found : Text × Text) × (mirror_at module_mirror t ≡ some found)
unfolding version_line
version_line-mirror t text h =
    let (rest, e1, h1) = >>=-some (literal module_prefix (first_line t)) _ text h in
    let (inside, e2, h2) = >>=-some (in_quotes rest) _ text h1 in
    let (parts, e3, h3) = >>=-some (of_parts (split_on b'.' inside)) _ text h2 in
    let (behind, e4, line) = literal-first_line module_prefix t rest e1 in
    let strict : not (is_nil inside) ≡ true = nonempty-of_parts inside parts e3 in
    (
      (take (length t - length behind) t, drop (length (first_line behind)) behind),
      unfold mirror_at read_head in rw (e4, line, e2, strict) refl,
    )

pub no_mirror-version_line :
    (t : Text) → mirror_at module_mirror t ≡ none → version_line (first_line t) ≡ none
no_mirror-version_line t h = elim (Option-cases (version_line (first_line t))) [
  | inl e ↦ e
  | inr (text, e) ↦ let (found, some_found) = version_line-mirror t text e in absurd (cc)
]

-- The line that has begun stays as it was.
pub first_line-subn :
    (m : Mirror) (v t : Text) → first_line (subn m v false zero t).0 ≡ first_line t
unfolding first_line
first_line-subn m v [] = unfold subn in refl
first_line-subn m v (c ∷ t) = elim (Bool-cases (c == 10)) [
  | inl e ↦ rw (subn-unmatched m v false c t refl, e) refl
  | inr e ↦ rw (subn-unmatched m v false c t refl, e) (ap (◌∷◌ c) (first_line-subn m v t))
]

pub first_line-step :
    (m : Mirror) (v : Text) (c : ℕ) (t : Text)
    → first_line (c ∷ (subn m v (c == 10) zero t).0) ≡ first_line (c ∷ t)
unfolding first_line
first_line-step m v c t = elim (Bool-cases (c == 10)) [
  | inl e ↦ rw e refl
  | inr e ↦ rw e (ap (◌∷◌ c) (first_line-subn m v t))
]

pub first_line-append :
    (x u : Text) → has_char 10 x ≡ false → first_line (x ++ u) ≡ x ++ first_line u
unfolding first_line has_char
first_line-append [] u h = refl
first_line-append (c ∷ x) u h = ground (arith, first_line-append x u)

pub find_versions-append :
    (x u : Text) → has_char 10 x ≡ false → find_versions false (x ++ u) ≡ find_versions false u
unfolding find_versions has_char
find_versions-append [] u h = refl
find_versions-append (c ∷ x) u h =
    let e : (c == 10) ≡ false = ground (arith, h) in
    rw e (find_versions-append x u (ground (arith, h)))
