-- ===== src/Release/Mirrors/Synced.antt =====
-- The files that a sync leaves.
use remote_ssh_mcp_server.Prelude.Text.{Text, text_eq_iff}
use remote_ssh_mcp_server.Prelude.Fallible.{>>=-some, some-inj}
use remote_ssh_mcp_server.Prelude.{
  ◌≡◌, ◌↔◌, refl, ap, sym, ◌∙◌, subst, Bool, true, false, Option, none, some, inl, inr, Bool-cases,
  Option-cases, arith, if◌then◌else◌,
}
use remote_ssh_mcp_server.Release.{Version, show, read_version}
use remote_ssh_mcp_server.Release.Mirrors.{
  Mirror, pyproject_mirror, module_mirror, replace_exactly_once, VersionFiles, updates, same_text,
  unchanged, sync_mirrors, read_module_version,
}
use remote_ssh_mcp_server.Release.Mirrors.Replaced.{IsReplaced, replace_exactly_once-IsReplaced}
use remote_ssh_mcp_server.Release.Mirrors.ReadBack.{read_module_version-subn}

-- A file whose mirror has been replaced.
pub record IsMirrored (m : Mirror) (v : Version) (old new : Option Text) : Type 0 where
  pub was : Text
  pub becomes : Text
  pub read : old ≡ some was
  pub written : new ≡ some becomes
  pub replaced : IsReplaced m (show v) true was becomes

-- What a sync with the version makes of the files.
pub record IsSynced (v : Version) (files synced : VersionFiles) : Type 0 where
  pub source : read_version files.version ≡ some v
  pub kept : synced.version ≡ files.version
  pub pyproject : IsMirrored pyproject_mirror v files.pyproject synced.pyproject
  pub module_text : IsMirrored module_mirror v files.module_text synced.module_text
  pub module_version : read_module_version synced.module_text ≡ some v

updates-IsSynced :
    (files synced : VersionFiles) (v : Version)
    → updates files ≡ some (v, synced)
    → IsSynced v files synced
unfolding updates
updates-IsSynced files synced v h =
    let (w, e1, h1) = >>=-some (read_version files.version) _ (v, synced) h in
    let (p, e2, h2) = >>=-some files.pyproject _ (v, synced) h1 in
    let (q, e3, h3) =
      >>=-some (replace_exactly_once pyproject_mirror (show w) p) _ (v, synced) h2 in
    let (a, e4, h4) = >>=-some files.module_text _ (v, synced) h3 in
    let (b, e5, h5) = >>=-some (replace_exactly_once module_mirror (show w) a) _ (v, synced) h4 in
    let (same_p, one_p, replaced_p) =
      replace_exactly_once-IsReplaced pyproject_mirror (show w) p q e3 in
    let (same_a, one_a, replaced_a) =
      replace_exactly_once-IsReplaced module_mirror (show w) a b e5 in
    let done = some-inj h5 in
    subst (λ (r : Version × VersionFiles). IsSynced r.0 files r.1) done
      (record {
        source = e1;
        kept = refl;
        pyproject = record {
          was = p;
          becomes = q;
          read = e2;
          written = refl;
          replaced = replaced_p;
        };
        module_text = record {
          was = a;
          becomes = b;
          read = e4;
          written = refl;
          replaced = replaced_a;
        };
        module_version =
            subst (λ t. read_module_version (some t) ≡ some w) same_a
              (read_module_version-subn w a one_a);
      })

same_text-eq : (a b : Option Text) → (same_text a b ≡ true) ↔ (a ≡ b)
unfolding same_text
same_text-eq (some a) (some b) =
    (λ h. ap some ((text_eq_iff a b).0 h), λ h. (text_eq_iff a b).1 (some-inj h))
same_text-eq none none = (λ _. refl, λ _. refl)
same_text-eq (some a) none = (λ h. cc, λ h. cc)
same_text-eq none (some b) = (λ h. cc, λ h. cc)

unchanged-eq : (a b : VersionFiles) → b.version ≡ a.version → (unchanged a b ≡ true) ↔ (a ≡ b)
unfolding unchanged
unchanged-eq a b kept = (
  λ h.
      let p = (same_text-eq a.pyproject b.pyproject).0 (ground (arith, h)) in
      let m = (same_text-eq a.module_text b.module_text).0 (ground (arith, h)) in
      λ i. record { version = sym kept i; pyproject = p i; module_text = m i },
  λ e. ground (
    arith,
    (same_text-eq a.pyproject b.pyproject).1 (ap (λ (f : VersionFiles). f.pyproject) e),
    (same_text-eq a.module_text b.module_text).1 (ap (λ (f : VersionFiles). f.module_text) e),
  ),
)

sync_mirrors-some :
    (only_check : Bool) (files u : VersionFiles) (w : Version)
    → updates files ≡ some (w, u)
    → sync_mirrors only_check files
      ≡ (if only_check then (if unchanged files u then some w else none, files) else (some w, u))
unfolding sync_mirrors
sync_mirrors-some only_check files u w e = rw (e, sync_mirrors) refl

sync_mirrors-none :
    (only_check : Bool) (files : VersionFiles)
    → updates files ≡ none
    → sync_mirrors only_check files ≡ (none, files)
unfolding sync_mirrors
sync_mirrors-none only_check files e = rw (e, sync_mirrors) refl

sync_mirrors-written :
    (files synced : VersionFiles) (v : Version)
    → sync_mirrors false files ≡ (some v, synced)
    → IsSynced v files synced
sync_mirrors-written files synced v h = elim (Option-cases (updates files)) [
  | inl e ↦
      let wrong : none ≡ some v =
        ap (λ (q : Option Version × VersionFiles). q.0)
          (sym (sync_mirrors-none false files e) ∙ h) in
      absurd (cc)
  | inr ((w, u), e) ↦
      let same : (some w, u) ≡ (some v, synced) = sym (sync_mirrors-some false files u w e) ∙ h in
      let version = some-inj (ap (λ (q : Option Version × VersionFiles). q.0) same) in
      subst (λ x. IsSynced x files synced) version
        (subst (IsSynced w files) (ap (λ (q : Option Version × VersionFiles). q.1) same)
          (updates-IsSynced files u w e))
]

check_passes :
    (files u : VersionFiles) (v w : Version)
    → (unchanged files u ≡ true) ↔ (files ≡ u)
    → ((if unchanged files u then some w else none) ≡ some v)
      ↔ ◌≡◌ {A = Option Version × VersionFiles} (some w, u) (some v, files)
check_passes files u v w same = elim (Bool-cases (unchanged files u)) [
  | inl e ↦
      rw e (λ h i. (h i, sym (same.0 e) i), λ h. ap (λ (q : Option Version × VersionFiles). q.0) h)
  | inr e ↦ rw e (
    λ h. absurd (cc),
    λ h.
        let still : unchanged files u ≡ true =
          same.1 (sym (ap (λ (q : Option Version × VersionFiles). q.1) h)) in
        absurd (cc),
  )
]

-- `sync --check` writes nothing, and passes exactly when a sync would succeed and change nothing.
pub sync_mirrors-check :
    (files : VersionFiles) (v : Version)
    → ((sync_mirrors true files).1 ≡ files)
      × (((sync_mirrors true files).0 ≡ some v) ↔ (sync_mirrors false files ≡ (some v, files)))
sync_mirrors-check files v = elim (Option-cases (updates files)) [
  | inl e ↦
      rw (sync_mirrors-none true files e, sync_mirrors-none false files e)
        (refl, (λ h. absurd (cc), λ h. ap (λ (q : Option Version × VersionFiles). q.0) h))
  | inr ((w, u), e) ↦
      rw (sync_mirrors-some true files u w e, sync_mirrors-some false files u w e)
        (refl, check_passes files u v w (unchanged-eq files u (updates-IsSynced files u w e).kept))
]

-- A sync, or a check of it, that succeeds gives the version of `.version`, and of the files that it
-- leaves: `.version` is as it was; in each of the two others the quoted text of one mirror, at the start
-- of a line and up to its end, has become the version, and nothing else is changed; and the version of
-- the module that is read for a release is this version. A check leaves every file as it was.
pub sync_mirrors-IsSynced :
    (only_check : Bool) (files synced : VersionFiles) (v : Version)
    → sync_mirrors only_check files ≡ (some v, synced)
    → IsSynced v files synced × (only_check ≡ true → synced ≡ files)
sync_mirrors-IsSynced false files synced v h =
    (sync_mirrors-written files synced v h, λ e. absurd (cc))
sync_mirrors-IsSynced true files synced v h =
    let (kept, passes) = sync_mirrors-check files v in
    let same : synced ≡ files = sym (ap (λ (q : Option Version × VersionFiles). q.1) h) ∙ kept in
    (
      subst (IsSynced v files) (sym same) (
          sync_mirrors-written files files v
            (passes.0 (ap (λ (q : Option Version × VersionFiles). q.0) h))),
      λ _. same,
    )
