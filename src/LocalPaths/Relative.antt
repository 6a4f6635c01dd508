-- ===== src/LocalPaths/Relative.antt =====
-- The values that `_relative` accepts: they name a path below the local root, part by part.
use remote_ssh_mcp_server.Prelude.Lists.{is_nil, All}
use remote_ssh_mcp_server.Prelude.Text.{
  Text, codes, text_eq, text_eq_iff, has_char, starts_with, mem_text, split_on, prepend,
}
use remote_ssh_mcp_server.Prelude.{
  ℕ, ◌≡◌, refl, ap, subst, inl, inr, false, ◌||◌, ◌==◌, List, [], ◌∷◌, ◌++◌, Bool-cases, arith,
}
use remote_ssh_mcp_server.Prelude.Split.{split_on-single, split_on-append}
use remote_ssh_mcp_server.Errors.{ok}
use remote_ssh_mcp_server.LocalPaths.{
  internal_directory, drop_dots, parts_of, check_parts, relative, join,
}

-- A part that stays where it is: no separator, no NUL, and none of "", "." and "..".
pub record IsPlain (part : Text) : Type 0 where
  pub no_slash : has_char b'/' part ≡ false
  pub no_nul : has_char 0 part ≡ false
  pub full : is_nil part ≡ false
  pub no_dot : text_eq part (codes ".") ≡ false
  pub no_dots : text_eq part (codes "..") ≡ false

-- Parts that lead below the root, and not into the internal directory by name.
abbrev pub IsRelative : List Text → Type 0
IsRelative [] = ⊥
IsRelative (p ∷ ps) = All IsPlain (p ∷ ps) × (text_eq p internal_directory ≡ false)

-- Characters that a text does not have, its parts do not have.
abbrev pub Lacks : ℕ → Text → Type 0
Lacks c t = has_char c t ≡ false

prepend-Lacks :
    (c d : ℕ) (ws : List Text) → (d == c) ≡ false → All (Lacks c) ws → All (Lacks c) (prepend d ws)
unfolding prepend has_char
prepend-Lacks c d [] e h = (ground arith, tt)
prepend-Lacks c d (w ∷ ws) e h = (ground (arith, h.0), h.1)

pub split_on-no_sep : (sep : ℕ) (t : Text) → All (Lacks sep) (split_on sep t)
unfolding split_on has_char
split_on-no_sep sep [] = (refl, tt)
split_on-no_sep sep (c ∷ t) = elim (Bool-cases (c == sep)) [
  | inl e ↦ rw e (refl, split_on-no_sep sep t)
  | inr e ↦ rw e (prepend-Lacks sep c (split_on sep t) e (split_on-no_sep sep t))
]

pub split_on-Lacks : (sep c : ℕ) (t : Text) → Lacks c t → All (Lacks c) (split_on sep t)
unfolding split_on has_char
split_on-Lacks sep c [] h = (refl, tt)
split_on-Lacks sep c (d ∷ t) h = elim (Bool-cases (d == sep)) [
  | inl e ↦ rw e (refl, split_on-Lacks sep c t (ground arith))
  | inr e ↦
      rw e
        (prepend-Lacks c d (split_on sep t) (ground arith) (split_on-Lacks sep c t (ground arith)))
]

pub drop_dots-IsPlain :
    (ps : List Text)
    → All (Lacks b'/') ps
    → All (Lacks 0) ps
    → mem_text (codes "..") (drop_dots ps) ≡ false
    → All IsPlain (drop_dots ps)
unfolding drop_dots mem_text
drop_dots-IsPlain [] a b h = tt
drop_dots-IsPlain (p ∷ ps) a b h = elim (Bool-cases (is_nil p || text_eq p (codes "."))) [
  | inl e ↦ rw e (drop_dots-IsPlain ps a.1 b.1 (ground arith))
  | inr e ↦ rw e (
    record {
      no_slash = a.0;
      no_nul = b.0;
      full = ground arith;
      no_dot = ground arith;
      no_dots = ground (arith, text_eq_iff p (codes ".."), text_eq_iff (codes "..") p);
    },
    drop_dots-IsPlain ps a.1 b.1 (ground arith),
  )
]

check_parts-IsRelative :
    (ps qs : List Text)
    → (mem_text (codes "..") ps ≡ false → All IsPlain ps)
    → check_parts ps ≡ ok qs
    → (ps ≡ qs) × IsRelative qs
unfolding check_parts
check_parts-IsRelative [] qs plain h = absurd (cc)
check_parts-IsRelative (p ∷ ps) qs plain h =
    let same : p ∷ ps ≡ qs = ground arith in
    (same, subst IsRelative same (plain (ground arith), ground arith))

-- A value that `_relative` accepts has parts, each of which is a name in the directory above it, and
-- the first of them is not `.remote-ssh-mcp`.
pub relative-IsRelative :
    (value : Text) (parts : List Text) → relative value ≡ ok parts → IsRelative parts
unfolding relative parts_of
relative-IsRelative value parts h =
    (check_parts-IsRelative (parts_of value) parts
      (drop_dots-IsPlain (split_on b'/' value) (split_on-no_sep b'/' value)
        (split_on-Lacks b'/' 0 value (ground arith)))
      (ground arith)).1

pub parts_of-join :
    (p : Text) (ps : List Text) → All IsPlain (p ∷ ps) → parts_of (join (p ∷ ps)) ≡ p ∷ ps
unfolding parts_of drop_dots join
parts_of-join p [] h = rw (split_on-single b'/' p h.0.no_slash, h.0.full, h.0.no_dot)
parts_of-join p (q ∷ ps) h =
    rw (split_on-append b'/' p (join (q ∷ ps)) h.0.no_slash, h.0.full, h.0.no_dot)
      (ap (◌∷◌ p) (parts_of-join q ps h.1))

has_char-append : (c : ℕ) (t u : Text) → has_char c (t ++ u) ≡ (has_char c t || has_char c u)
unfolding has_char
has_char-append c [] u = refl
has_char-append c (d ∷ t) u = ground (arith, has_char-append c t u)

pub join-no_nul :
    (p : Text) (ps : List Text) → All IsPlain (p ∷ ps) → has_char 0 (join (p ∷ ps)) ≡ false
unfolding join has_char
join-no_nul p [] h = h.0.no_nul
join-no_nul p (q ∷ ps) h =
    ground (arith, has_char-append 0 p (b'/' ∷ join (q ∷ ps)), h.0.no_nul, join-no_nul q ps h.1)

pub join-no_slash_first :
    (p : Text) (ps : List Text)
    → All IsPlain (p ∷ ps)
    → (is_nil (join (p ∷ ps)) ≡ false) × (starts_with (join (p ∷ ps)) (codes "/") ≡ false)
unfolding join starts_with has_char
join-no_slash_first [] ps h = absurd (cc h.0.full)
join-no_slash_first (c ∷ p) [] h = (refl, ground (arith, h.0.no_slash))
join-no_slash_first (c ∷ p) (q ∷ ps) h = (refl, ground (arith, h.0.no_slash))

pub mem_dots : (ps : List Text) → All IsPlain ps → mem_text (codes "..") ps ≡ false
unfolding mem_text
mem_dots [] h = refl
mem_dots (p ∷ ps) h =
    ground
      (arith, h.0.no_dots, mem_dots ps h.1, text_eq_iff p (codes ".."), text_eq_iff (codes "..") p)

-- The parts that `display` writes for a path in the local root come back from `_relative`: whatever
-- is a sequence of names, joined by "/" and not led by `.remote-ssh-mcp`, is read as those parts.
pub relative-join : (parts : List Text) → IsRelative parts → relative (join parts) ≡ ok parts
unfolding relative check_parts
relative-join [] h = absurd h
relative-join (p ∷ ps) h =
    let (full, no_slash) = join-no_slash_first p ps h.0 in
    rw (
      relative,
      full,
      join-no_nul p ps h.0,
      no_slash,
      parts_of-join p ps h.0,
      check_parts,
      mem_dots (p ∷ ps) h.0,
      h.1,
    )
