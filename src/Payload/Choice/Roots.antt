-- ===== src/Payload/Choice/Roots.antt =====
-- What the roots of a mapping have in common.
use remote_ssh_mcp_server.Prelude.Fallible.{check, >>=-some, some-inj}
use remote_ssh_mcp_server.Prelude.Lists.{length, is_nil, All}
use remote_ssh_mcp_server.Prelude.Text.{Text, text_eq, text_eq_iff}
use remote_ssh_mcp_server.Prelude.{
  Bool, ◌≡◌, ◌⊎◌, inl, inr, ap, subst, not, ◌&&◌, Option, some, List, [], ◌∷◌, ◌==◌, Bool-cases,
  arith,
}
use remote_ssh_mcp_server.Payload.Names.{safe_archive_path}
use remote_ssh_mcp_server.Payload.Choice.{
  partition_equals, lookup, is_none, collect_roots, normalize,
}

-- A value of `--map-root` gives the root of a prefix.
abbrev pub IsGiven : Text → Text → List Text → Type 0
IsGiven prefix raw_root [] = ⊥
IsGiven prefix raw_root (value ∷ values) =
    (partition_equals value ≡ (prefix, some raw_root)) ⊎ IsGiven prefix raw_root values

pub lookup-All :
    {A : Type 0} (Q : Text → A → Type 0) (key : Text) (a : A) (items : List (Text × A))
    → All (λ item. Q item.0 item.1) items
    → lookup key items ≡ some a
    → Q key a
unfolding lookup
lookup-All Q key a [] h e = absurd (cc)
lookup-All Q key a ((k, value) ∷ items) h e = elim (Bool-cases (text_eq k key)) [
  | inl same ↦
      let found : value ≡ a = ground (arith, same) in
      subst (Q key) found (subst (λ n. Q n value) ((text_eq_iff k key).0 same) h.0)
  | inr other ↦ lookup-All Q key a items h.1 (ground (arith, other))
]

pub collect_roots-All :
    (P : Text → Text → Type 0) (roots : List (Text × Text)) (values : List Text)
    (found : List (Text × Text))
    → ((prefix raw_root : Text) → IsGiven prefix raw_root values → P prefix raw_root)
    → All (λ item. P item.0 item.1) roots
    → collect_roots roots values ≡ some found
    → All (λ item. P item.0 item.1) found
unfolding collect_roots
collect_roots-All P roots [] found g h e = subst (All (λ item. P item.0 item.1)) (some-inj e) h
collect_roots-All P roots (value ∷ values) found g h e =
    let (raw_root, e1, h1) = >>=-some (partition_equals value).1 _ found e in
    let (u, e2, h2) =
      >>=-some (check (not (is_nil raw_root) && is_none (lookup (partition_equals value).0 roots)))
        _ found h1 in
    collect_roots-All P (((partition_equals value).0, raw_root) ∷ roots) values found
      (λ prefix raw later. g prefix raw (inr later))
      (
        g (partition_equals value).0 raw_root (inl (ap (λ r. ((partition_equals value).0, r)) e1)),
        h,
      )
      h2

module _ (fsdecode : Text → Option Text) (absolute : Text → List Text)
    (is_real : List Text → Bool) where
  pub normalize-All :
      (Q : Text → List Text → Type 0) (normalized : List (Text × List Text))
      (roots : List (Text × Text)) (found : List (Text × List Text))
      → All (λ item. Q item.0 item.1) normalized
      → All (λ item. Q item.0 (absolute item.1)) roots
      → normalize fsdecode absolute is_real normalized roots ≡ some found
      → All (λ item. Q item.0 item.1) found
  unfolding normalize
  normalize-All Q normalized [] found h g e = subst (All (λ item. Q item.0 item.1)) (some-inj e) h
  normalize-All Q normalized ((prefix, root) ∷ roots) found h g e =
      let (parts, e1, h1) = >>=-some (safe_archive_path prefix) _ found e in
      let (u2, e2, h2) =
        >>=-some (check (length parts == 1 && is_none (lookup prefix normalized))) _ found h1 in
      let (u3, e3, h3) = >>=-some (check (is_real (absolute root))) _ found h2 in
      normalize-All Q ((prefix, absolute root) ∷ normalized) roots found (g.0, h) g.1 h3
