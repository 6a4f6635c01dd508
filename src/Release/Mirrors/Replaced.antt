-- ===== src/Release/Mirrors/Replaced.antt =====
-- What a replacement changes in a file.
use remote_ssh_mcp_server.Prelude.Lists.{length, drop, length-append, drop-append_behind}
use remote_ssh_mcp_server.Prelude.Text.{Text}
use remote_ssh_mcp_server.Prelude.{
  ℕ, zero, suc, ◌-◌, ◌+◌, ◌≤◌, ◌≡◌, refl, ap, sym, ◌∙◌, subst, Bool, true, false, Option, none,
  some, [], ◌∷◌, ◌++◌, append_assoc, ◌==◌, if◌then◌else◌, inl, inr, Option-cases, arith,
}
use remote_ssh_mcp_server.Release.Mirrors.{
  Mirror, read_head, first_line, mirror_at, quoted, subn, replace_exactly_once,
}
use remote_ssh_mcp_server.Release.Mirrors.Matches.{IsMatch, mirror_at-IsMatch}

pub subn-skip :
    (m : Mirror) (v : Text) (skip : ℕ) (t : Text)
    → subn m v false skip t ≡ subn m v false zero (drop skip t)
unfolding subn
subn-skip m v zero t = refl
subn-skip m v (suc skip) [] = refl
subn-skip m v (suc skip) (c ∷ t) = subn-skip m v skip t

drop-front :
    (c : ℕ) (t front rest : Text)
    → c ∷ t ≡ front ++ rest
    → length rest ≤ length t
    → drop (length t - length rest) t ≡ rest
drop-front c t [] rest h short = absurd (omega (arith, ap length h))
drop-front c t (x ∷ front) rest h short =
    let same : t ≡ front ++ rest = ap (drop 1) h in
    ap (drop (length t - length rest)) same
    ∙ ap (λ n. drop n (front ++ rest)) {x = length t - length rest} {y = length front + 0}
        (omega (arith, ap length same, length-append front rest))
    ∙ drop-append_behind front rest 0

pub subn-unmatched :
    (m : Mirror) (v : Text) (starts : Bool) (c : ℕ) (t : Text)
    → (if starts then mirror_at m (c ∷ t) else none) ≡ none
    → subn m v starts zero (c ∷ t)
      ≡ (c ∷ (subn m v (c == 10) zero t).0, (subn m v (c == 10) zero t).1)
unfolding subn
subn-unmatched m v starts c t e = rw (e, subn) refl

pub at_start :
    {A : Type 0} (starts : Bool) (found : Option A) (a : A)
    → (if starts then found else none) ≡ some a
    → (starts ≡ true) × (found ≡ some a)
at_start true found a h = (refl, h)
at_start false found a h = absurd (cc)

pub subn-behind :
    (m : Mirror) (v : Text) (c : ℕ) (t head behind : Text)
    → IsMatch m (c ∷ t) head behind
    → subn m v false (length t - length behind) t ≡ subn m v false zero behind
subn-behind m v c t head behind match =
    let front = head ++ quoted match.old [] in
    let whole : c ∷ t ≡ front ++ behind =
      match.parts
      ∙ ap (λ w. head ++ (b'"' ∷ w)) (sym (append_assoc match.old (b'"' ∷ []) behind))
      ∙ sym (append_assoc head (quoted match.old []) behind) in
    let long : length behind ≤ length t = omega (
      arith,
      ap length match.parts,
      length-append head (quoted match.old behind),
      length-append match.old (b'"' ∷ behind),
    ) in
    subn-skip m v (length t - length behind) t
    ∙ ap (subn m v false zero) (drop-front c t front behind whole long)

pub subn-matched :
    (m : Mirror) (v : Text) (starts : Bool) (c : ℕ) (t head behind : Text)
    → (if starts then mirror_at m (c ∷ t) else none) ≡ some (head, behind)
    → subn m v starts zero (c ∷ t)
      ≡ (head ++ quoted v (subn m v false zero behind).0, suc (subn m v false zero behind).1)
unfolding subn
subn-matched m v starts c t head behind e =
    let match =
      mirror_at-IsMatch m (c ∷ t) head behind
        (at_start starts (mirror_at m (c ∷ t)) (head, behind) e).1 in
    rw (e, subn, subn-behind m v c t head behind match) refl

-- Nothing is found, and nothing changes.
subn-identity :
    (m : Mirror) (v : Text) (starts : Bool) (t : Text)
    → (subn m v starts zero t).1 ≡ 0
    → (subn m v starts zero t).0 ≡ t
subn-identity m v starts [] h = unfold subn in refl
subn-identity m v starts (c ∷ t) h =
    elim (Option-cases (if starts then mirror_at m (c ∷ t) else none)) [
      | inl e ↦
          let step = subn-unmatched m v starts c t e in
          ap (λ (q : Text × ℕ). q.0) step
          ∙ ap (◌∷◌ c) (subn-identity m v (c == 10) t (sym (ap (λ (q : Text × ℕ). q.1) step) ∙ h))
      | inr ((head, behind), e) ↦
          absurd (
            omega
              (arith, h, ap (λ (q : Text × ℕ). q.1) (subn-matched m v starts c t head behind e)))
    ]

-- Whether a line starts behind a text.
abbrev pub ends_line : Bool → Text → Bool
ends_line starts [] = starts
ends_line starts (c ∷ t) = ends_line (c == 10) t

-- The new text is the old one but for the quoted text of one match, at the start of a line.
pub record IsReplaced (m : Mirror) (v : Text) (starts : Bool) (t updated : Text) : Type 0 where
  pub before : Text
  pub head : Text
  pub old : Text
  pub behind : Text
  pub line : ends_line starts before ≡ true
  pub ended : first_line behind ≡ []
  pub headed : read_head m (head ++ quoted old behind) ≡ some (quoted old behind)
  pub was : t ≡ before ++ (head ++ quoted old behind)
  pub becomes : updated ≡ before ++ (head ++ quoted v behind)

subn-IsReplaced :
    (m : Mirror) (v : Text) (starts : Bool) (t : Text)
    → (subn m v starts zero t).1 ≡ 1
    → IsReplaced m v starts t (subn m v starts zero t).0
subn-IsReplaced m v starts [] h = absurd (unfold subn in cc)
subn-IsReplaced m v starts (c ∷ t) h =
    elim (Option-cases (if starts then mirror_at m (c ∷ t) else none)) [
      | inl e ↦
          let step = subn-unmatched m v starts c t e in
          let r = subn-IsReplaced m v (c == 10) t (sym (ap (λ (q : Text × ℕ). q.1) step) ∙ h) in
          record {
            before = c ∷ r.before;
            head = r.head;
            old = r.old;
            behind = r.behind;
            line = r.line;
            ended = r.ended;
            headed = r.headed;
            was = ap (◌∷◌ c) r.was;
            becomes = ap (λ (q : Text × ℕ). q.0) step ∙ ap (◌∷◌ c) r.becomes;
          }
      | inr ((head, behind), e) ↦
          let step = subn-matched m v starts c t head behind e in
          let (line, found) = at_start starts (mirror_at m (c ∷ t)) (head, behind) e in
          let match = mirror_at-IsMatch m (c ∷ t) head behind found in
          let last : (subn m v false zero behind).1 ≡ 0 =
            omega (arith, h, ap (λ (q : Text × ℕ). q.1) step) in
          record {
            before = [];
            head = head;
            old = match.old;
            behind = behind;
            line = line;
            ended = match.ended;
            headed = ap (read_head m) (sym match.parts) ∙ match.headed;
            was = match.parts;
            becomes =
                ap (λ (q : Text × ℕ). q.0) step
                ∙ ap (λ w. head ++ quoted v w) (subn-identity m v false behind last);
          }
    ]

-- A replacement changes the quoted text of one mirror, which stands at the start of a line, and
-- nothing else in the file.
pub replace_exactly_once-IsReplaced :
    (m : Mirror) (v content updated : Text)
    → replace_exactly_once m v content ≡ some updated
    → ((subn m v true zero content).0 ≡ updated)
      × ((subn m v true zero content).1 ≡ 1)
      × IsReplaced m v true content updated
unfolding replace_exactly_once
replace_exactly_once-IsReplaced m v content updated h =
    let one : (subn m v true zero content).1 ≡ 1 = ground (arith, h) in
    let same : (subn m v true zero content).0 ≡ updated = ground (arith, h) in
    (same, one, subst (IsReplaced m v true content) same (subn-IsReplaced m v true content one))
