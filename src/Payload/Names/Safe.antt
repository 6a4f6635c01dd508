-- ===== src/Payload/Names/Safe.antt =====
-- The names that `safe_archive_path` accepts.
use remote_ssh_mcp_server.Prelude.Lists.{is_nil, All}
use remote_ssh_mcp_server.Prelude.Text.{Text, codes, text_eq, text_eq_iff, mem_text, split_on}
use remote_ssh_mcp_server.Prelude.{
  ◌≡◌, ◌≢◌, refl, ap, ◌∙◌, inl, inr, Bool-cases, false, some, List, [], ◌∷◌, subst, arith,
}
use remote_ssh_mcp_server.LocalPaths.{drop_dots, parts_of, join}
use remote_ssh_mcp_server.LocalPaths.Relative.{
  IsPlain, split_on-no_sep, split_on-Lacks, drop_dots-IsPlain, parts_of-join, join-no_nul,
  join-no_slash_first,
}
use remote_ssh_mcp_server.Payload.Names.{any_special, safe_archive_path}

-- The parts of a safe path: at least one, each a name in the directory above it, and the path is
-- nothing but these names.
pub record IsSafe (raw : Text) (parts : List Text) : Type 0 where
  pub some_part : parts ≢ []
  pub plain : All IsPlain parts
  pub spelled : raw ≡ join parts

any_special-dots : (ps : List Text) → any_special ps ≡ false → mem_text (codes "..") ps ≡ false
unfolding any_special mem_text
any_special-dots [] h = refl
any_special-dots (p ∷ ps) h = ground (
  arith,
  text_eq_iff p (codes ".."),
  text_eq_iff (codes "..") p,
  any_special-dots ps (ground arith),
)

pub safe_archive_path-IsSafe :
    (raw : Text) (parts : List Text) → safe_archive_path raw ≡ some parts → IsSafe raw parts
unfolding safe_archive_path parts_of
safe_archive_path-IsSafe raw parts h = subst (IsSafe raw) (ground arith) (record {
  some_part = λ e. not_dot (spelled ∙ ap join e);
  plain =
      drop_dots-IsPlain (split_on b'/' raw) (split_on-no_sep b'/' raw)
        (split_on-Lacks b'/' 0 raw (ground arith)) (any_special-dots (parts_of raw) (ground arith));
  spelled = spelled;
})
  where
    spelled : raw ≡ join (parts_of raw)
    spelled = (text_eq_iff raw (join (parts_of raw))).0 (ground arith)

    not_dot : raw ≢ codes "."
    not_dot e = ground (arith, text_eq_iff raw (codes "."))

any_special-plain : (ps : List Text) → All IsPlain ps → any_special ps ≡ false
unfolding any_special mem_text
any_special-plain [] h = refl
any_special-plain (p ∷ ps) h =
    ground (arith, h.0.no_dot, h.0.no_dots, h.0.full, text_eq_nil p, any_special-plain ps h.1)
  where
    text_eq_nil : (p : Text) → text_eq p [] ≡ is_nil p
    text_eq_nil [] = unfold text_eq in refl
    text_eq_nil (c ∷ p) = unfold text_eq in refl

parts_of-dot : parts_of (codes ".") ≡ []
unfolding parts_of drop_dots split_on text_eq
parts_of-dot = refl

join-ne-dot :
    (p : Text) (ps : List Text) → All IsPlain (p ∷ ps) → text_eq (join (p ∷ ps)) (codes ".") ≡ false
join-ne-dot p ps h = elim (Bool-cases (text_eq (join (p ∷ ps)) (codes "."))) [
  | inr other ↦ other
  | inl same ↦ absurd (
      cc (
        parts_of-join p ps h,
        ap parts_of ((text_eq_iff (join (p ∷ ps)) (codes ".")).0 same),
        parts_of-dot,
      ))
]

-- Names joined by "/" are a safe path, and their parts come back.
pub safe_archive_path-join :
    (p : Text) (ps : List Text)
    → All IsPlain (p ∷ ps)
    → safe_archive_path (join (p ∷ ps)) ≡ some (p ∷ ps)
unfolding safe_archive_path
safe_archive_path-join p ps h =
    let (full, no_slash) = join-no_slash_first p ps h in
    rw (
      safe_archive_path,
      parts_of-join p ps h,
      full,
      join-no_nul p ps h,
      no_slash,
      join-ne-dot p ps h,
      (text_eq_iff (join (p ∷ ps)) (join (p ∷ ps))).1 refl,
      any_special-plain (p ∷ ps) h,
    )
