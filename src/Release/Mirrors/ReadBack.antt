-- ===== src/Release/Mirrors/ReadBack.antt =====
-- The version that is read from the module once its mirror has been replaced.
use remote_ssh_mcp_server.Prelude.Lists.{length, take, drop, all}
use remote_ssh_mcp_server.Prelude.Text.{Text, has_char, split_on}
use remote_ssh_mcp_server.Prelude.Chars.{is_digit, decimal}
use remote_ssh_mcp_server.Prelude.Split.{strip-no_space}
use remote_ssh_mcp_server.Prelude.{
  ℕ, zero, suc, ◌-◌, ◌≡◌, refl, ap, sym, ◌∙◌, subst, Bool, true, false, Option, none, some, List,
  [], ◌∷◌, ◌++◌, append_assoc, append-nil, ◌==◌, if◌then◌else◌, ◌||◌, inl, inr, Option-cases, arith,
}
use remote_ssh_mcp_server.Release.{Version, of_parts, parse, show, read_version}
use remote_ssh_mcp_server.Release.Canonical.{parse-show, show-no_space, digits-decimal}
use remote_ssh_mcp_server.Release.Mirrors.{
  module_mirror, literal, read_head, module_prefix, first_line, until_quote, in_quotes, mirror_at,
  quoted, subn, version_line, find_versions, the_one, read_module_version,
}
use remote_ssh_mcp_server.Release.Mirrors.Matches.{
  literal-append, take-append_all, IsMatch, mirror_at-IsMatch,
}
use remote_ssh_mcp_server.Release.Mirrors.Replaced.{
  subn-unmatched, subn-matched, subn-behind, at_start,
}
use remote_ssh_mcp_server.Release.Mirrors.Lines.{
  no_mirror-version_line, first_line-subn, first_line-step, first_line-append, find_versions-append,
}

abbrev pub copies : ℕ → Text → List Text
copies zero text = []
copies (suc n) text = text ∷ copies n text

-- What a version has to be for its mirror to be found.
pub record IsFound (v : Text) : Type 0 where
  pub read : version_line (module_prefix ++ quoted v []) ≡ some v
  pub one_line : has_char 10 v ≡ false

-- A place inside a match is no start of a line.
abbrev starts_at : ℕ → Bool → Bool
starts_at zero starts = starts
starts_at (suc skip) starts = false

starts_at-false : (skip : ℕ) → starts_at skip false ≡ false
starts_at-false zero = refl
starts_at-false (suc skip) = refl

quoted-no_break :
    (p v : Text)
    → has_char 10 p ≡ false
    → has_char 10 v ≡ false
    → has_char 10 (p ++ quoted v []) ≡ false
unfolding has_char
quoted-no_break [] [] hp hv = refl
quoted-no_break [] (c ∷ v) hp hv = ground (arith, quoted-no_break [] v)
quoted-no_break (c ∷ p) v hp hv = ground (arith, quoted-no_break p v)

quoted-append : (p v u : Text) → p ++ quoted v u ≡ (p ++ quoted v []) ++ u
quoted-append p v u =
    ap (λ w. p ++ (b'"' ∷ w)) (sym (append_assoc v (b'"' ∷ []) u))
    ∙ sym (append_assoc p (quoted v []) u)

find_versions-found :
    (c : ℕ) (t text : Text)
    → version_line (first_line (c ∷ t)) ≡ some text
    → find_versions true (c ∷ t) ≡ text ∷ find_versions (c == 10) t
unfolding find_versions
find_versions-found c t text e = rw (e, find_versions) refl

find_versions-missed :
    (starts : Bool) (c : ℕ) (t : Text)
    → (if starts then version_line (first_line (c ∷ t)) else none) ≡ none
    → find_versions starts (c ∷ t) ≡ find_versions (c == 10) t
unfolding find_versions
find_versions-missed starts c t e = rw (e, find_versions) refl

-- The mirror that has been written is found, and the search goes on behind it.
find_versions-mirror :
    (v u : Text)
    → IsFound v
    → first_line u ≡ []
    → find_versions true (module_prefix ++ quoted v u) ≡ v ∷ find_versions false u
find_versions-mirror v u found ended =
    let whole = quoted-append module_prefix v u in
    let plain = quoted-no_break module_prefix v (unfold has_char in refl) found.one_line in
    let line : first_line (module_prefix ++ quoted v u) ≡ module_prefix ++ quoted v [] =
      ap first_line whole
      ∙ first_line-append (module_prefix ++ quoted v []) u plain
      ∙ ap (λ w. (module_prefix ++ quoted v []) ++ w) ended
      ∙ append-nil (module_prefix ++ quoted v []) in
    let tail = drop 1 module_prefix in
    let rest : find_versions false (tail ++ quoted v u) ≡ find_versions false u =
      ap (find_versions false) (quoted-append tail v u)
      ∙ find_versions-append (tail ++ quoted v []) u
          (quoted-no_break tail v (unfold has_char in refl) found.one_line) in
    find_versions-found b'_' (tail ++ quoted v u) v (ap version_line line ∙ found.read)
    ∙ ap (◌∷◌ v) rest

if_none :
    {A B : Type 0} (starts : Bool) (a : Option A) (b : Option B)
    → (a ≡ none → b ≡ none)
    → (if starts then a else none) ≡ none
    → (if starts then b else none) ≡ none
if_none true a b f h = f h
if_none false a b f h = refl

module_head : (t head behind : Text) → IsMatch module_mirror t head behind → head ≡ module_prefix
module_head t head behind match =
    let q = quoted match.old behind in
    let written : t ≡ module_prefix ++ q =
      literal-append module_prefix t q (unfold read_head in match.headed) in
    sym (take-append_all head q)
    ∙ ap (λ w. take (length w - length q) w) (sym match.parts ∙ written)
    ∙ take-append_all module_prefix q

-- All that is found in the module is what has been written, as often as there was a mirror.
find_versions-subn :
    (v : Text)
    → IsFound v
    → (starts : Bool) (skip : ℕ) (t : Text)
    → find_versions (starts_at skip starts) (subn module_mirror v starts skip t).0
      ≡ copies (subn module_mirror v starts skip t).1 v
unfolding subn
find_versions-subn v found starts skip [] = unfold subn find_versions in refl
find_versions-subn v found starts (suc skip) (c ∷ t) =
    subst
      (λ s.
        find_versions s (subn module_mirror v false skip t).0
        ≡ copies (subn module_mirror v false skip t).1 v)
      (starts_at-false skip) (find_versions-subn v found false skip t)
find_versions-subn v found starts zero (c ∷ t) =
    elim (Option-cases (if starts then mirror_at module_mirror (c ∷ t) else none)) [
      | inl e ↦
          let u = (subn module_mirror v (c == 10) zero t).0 in
          let missed : (if starts then version_line (first_line (c ∷ u)) else none) ≡ none =
            ap (λ w. if starts then version_line w else none) (first_line-step module_mirror v c t)
            ∙ if_none starts (mirror_at module_mirror (c ∷ t)) (version_line (first_line (c ∷ t)))
                (no_mirror-version_line (c ∷ t)) e in
          rw (subn-unmatched module_mirror v starts c t e)
            (find_versions-missed starts c u missed ∙ find_versions-subn v found (c == 10) zero t)
      | inr ((head, behind), e) ↦
          let (line, at_mirror) =
            at_start starts (mirror_at module_mirror (c ∷ t)) (head, behind) e in
          let match = mirror_at-IsMatch module_mirror (c ∷ t) head behind at_mirror in
          let behind_call = subn-behind module_mirror v c t head behind match in
          let rest : find_versions false (subn module_mirror v false zero behind).0
              ≡ copies (subn module_mirror v false zero behind).1 v =
            subst (λ (q : Text × ℕ). find_versions false q.0 ≡ copies q.1 v) behind_call
              (subst
                (λ s.
                  find_versions s (subn module_mirror v false (length t - length behind) t).0
                  ≡ copies (subn module_mirror v false (length t - length behind) t).1 v)
                (starts_at-false (length t - length behind))
                (find_versions-subn v found false (length t - length behind) t)) in
          let u = (subn module_mirror v false zero behind).0 in
          rw (subn-matched module_mirror v starts c t head behind e) (
            ap (λ s. find_versions s (head ++ quoted v u)) line
            ∙ ap (λ w. find_versions true (w ++ quoted v u)) (module_head (c ∷ t) head behind match)
            ∙ find_versions-mirror v u found (first_line-subn module_mirror v behind ∙ match.ended)
            ∙ ap (◌∷◌ v) rest)
    ]

is_plain : ℕ → Bool
is_plain c = is_digit c || c == b'.'

plain-append :
    (t u : Text) → all is_digit t ≡ true → all is_plain u ≡ true → all is_plain (t ++ u) ≡ true
unfolding all is_plain
plain-append [] u h k = k
plain-append (c ∷ t) u h k = ground (arith, plain-append t u)

show-plain : (v : Version) → all is_plain (show v) ≡ true
unfolding show all is_plain
show-plain v = plain-append (decimal v.major) _ (digits-decimal v.major) (
    plain-append (decimal v.minor) (b'.' ∷ decimal v.patch) (digits-decimal v.minor) (
      ap (all is_plain) (sym (append-nil (decimal v.patch)))
      ∙ plain-append (decimal v.patch) [] (digits-decimal v.patch) refl))

plain-no_char :
    (k : ℕ) (t : Text) → is_plain k ≡ false → all is_plain t ≡ true → has_char k t ≡ false
unfolding all is_plain has_char
plain-no_char k [] h p = refl
plain-no_char k (c ∷ t) h p = ground (arith, plain-no_char k t)

until_quote-quoted : (v : Text) → has_char b'"' v ≡ false → until_quote (v ++ (b'"' ∷ [])) ≡ some v
unfolding until_quote has_char
until_quote-quoted [] h = refl
until_quote-quoted (c ∷ []) h = ground (arith)
until_quote-quoted (c ∷ d ∷ v) h =
    let e : (c == b'"') ≡ false = ground (arith, h) in
    let f : has_char b'"' (d ∷ v) ≡ false = ground (arith, h) in
    rw (e, until_quote-quoted (d ∷ v) f) refl

show-IsFound : (v : Version) → IsFound (show v)
show-IsFound v =
    let quote_free = plain-no_char b'"' (show v) (unfold is_plain in refl) (show-plain v) in
    let parts : of_parts (split_on b'.' (show v)) ≡ some v =
      sym (ap (λ t. of_parts (split_on b'.' t)) (strip-no_space (show v) (show-no_space v)))
      ∙ unfold parse in parse-show v in
    record {
      read =
          unfold version_line literal in_quotes in
          rw (until_quote-quoted (show v) quote_free, parts) refl;
      one_line = plain-no_char 10 (show v) (unfold is_plain in refl) (show-plain v);
    }

-- Once its one mirror has been replaced, the module has the version.
pub read_module_version-subn :
    (v : Version) (content : Text)
    → (subn module_mirror (show v) true zero content).1 ≡ 1
    → read_module_version (some (subn module_mirror (show v) true zero content).0) ≡ some v
unfolding read_module_version the_one read_version
read_module_version-subn v content one =
    rw (find_versions-subn (show v) (show-IsFound v) true zero content, one) (parse-show v)
