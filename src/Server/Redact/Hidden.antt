-- ===== src/Server/Redact/Hidden.antt =====
-- What `public_transfer` hides of the paths of the host.
use remote_ssh_mcp_server.Prelude.Lists.{length}
use remote_ssh_mcp_server.Prelude.Text.{Text, codes, starts_with, find?, contains, has_char}
use remote_ssh_mcp_server.Prelude.{
  ℕ, zero, suc, ◌-◌, ◌≡◌, refl, inl, inr, true, false, Option, none, some, [], ◌∷◌, ◌++◌,
  Bool-cases, arith,
}
use remote_ssh_mcp_server.Server.Redact.{
  replace_from, replace, replace_known, sanitize, repository_mark, runtime_mark, control_mark,
  Master, TransferData, public_transfer,
}

-- No suffix of the text starts with `s`.
abbrev Free : Text → Text → Type 0
Free s [] = starts_with [] s ≡ false
Free s (c ∷ t) = (starts_with (c ∷ t) s ≡ false) × Free s t

Free-contains : (s t : Text) → Free s t → contains t s ≡ false
unfolding contains find?
Free-contains s [] f = ground arith
Free-contains s (c ∷ t) f = ground (arith, Free-contains s t)

-- Where `old` does not start, `s` does not start either.
abbrev Follows : Text → Text → Text → Type 0
Follows s old [] = Unit
Follows s old (c ∷ t) =
    (starts_with (c ∷ t) old ≡ false → starts_with (c ∷ t) s ≡ false) × Follows s old t

Follows-self : (s t : Text) → Follows s s t
Follows-self s [] = tt
Follows-self s (c ∷ t) = (λ h. h, Follows-self s t)

Follows-Free : (s old t : Text) → Free s t → Follows s old t
Follows-Free s old [] f = tt
Follows-Free s old (c ∷ t) f = (λ _. f.0, Follows-Free s old t f.1)

-- An absolute path without the character that marks begin with.
pub record IsPlain (s : Text) : Type 0 where
  pub rest : Text
  pub absolute : s ≡ b'/' ∷ rest
  pub unmarked : has_char b'<' s ≡ false

-- A mark is no part of a path.
abbrev IsMark : Text → Type 0
IsMark m = (rest : Text) × (m ≡ b'<' ∷ rest) × (has_char b'/' m ≡ false)

Free-append :
    (s rest m t : Text) → s ≡ b'/' ∷ rest → has_char b'/' m ≡ false → Free s t → Free s (m ++ t)
unfolding starts_with has_char
Free-append s rest [] t e h f = f
Free-append s rest (c ∷ m) t e h f =
    (rw (e, starts_with) (ground arith), Free-append s rest m t e (ground arith) f)

-- What stands at the front after replacing and holds no mark has stood there before.
starts_with-replace :
    (old new m p t : Text)
    → new ≡ b'<' ∷ m
    → has_char b'<' p ≡ false
    → starts_with (replace_from old new zero t) p ≡ true
    → starts_with t p ≡ true
unfolding starts_with has_char replace_from
starts_with-replace old new m [] t e h k = ground arith
starts_with-replace old new m (d ∷ p) [] e h k = k
starts_with-replace old new m (d ∷ p) (c ∷ t) e h k = elim (Bool-cases (starts_with (c ∷ t) old)) [
  | inl hit ↦ absurd (ground (arith, e, hit))
  | inr miss ↦ ground (arith, starts_with-replace old new m p t e)
]

-- Replacing leaves no occurrence of a path that starts nowhere but where `old` does.
replace_from-Free :
    (s old new m : Text) (skip : ℕ) (t : Text)
    → IsPlain s
    → new ≡ b'<' ∷ m
    → has_char b'/' new ≡ false
    → Follows s old t
    → Free s (replace_from old new skip t)
unfolding starts_with replace_from
replace_from-Free s old new m skip [] p e h f = rw (p.absolute, starts_with)
replace_from-Free s old new m (suc skip) (c ∷ t) p e h f =
    replace_from-Free s old new m skip t p e h f.1
replace_from-Free s old new m zero (c ∷ t) p e h f = elim (Bool-cases (starts_with (c ∷ t) old)) [
  | inl hit ↦
      rw (hit, replace_from)
        (Free-append s p.rest new (replace_from old new (length old - 1) t) p.absolute h
          (replace_from-Free s old new m (length old - 1) t p e h f.1))
  | inr miss ↦ rw (miss, replace_from) (front miss, replace_from-Free s old new m zero t p e h f.1)
]
  where
    front :
        starts_with (c ∷ t) old ≡ false → starts_with (c ∷ replace_from old new zero t) s ≡ false
    front miss = elim (Bool-cases (starts_with (c ∷ replace_from old new zero t) s)) [
      | inr gone ↦ gone
      | inl there ↦ absurd (
          cc (
            f.0 miss,
            starts_with-replace old new m s (c ∷ t) e p.unmarked (rw (miss, replace_from) there),
          ))
    ]

-- After the replacement of a path it is gone, and no other path appears.
replace_self :
    (s new m t : Text)
    → IsPlain s
    → new ≡ b'<' ∷ m
    → has_char b'/' new ≡ false
    → Free s (replace s new t)
unfolding replace
replace_self s new m t p e h = replace_from-Free s s new m zero t p e h (Follows-self s t)

replace_keeps :
    (s old new m t : Text)
    → IsPlain s
    → new ≡ b'<' ∷ m
    → has_char b'/' new ≡ false
    → Free s t
    → Free s (replace old new t)
unfolding replace
replace_keeps s old new m t p e h f =
    replace_from-Free s old new m zero t p e h (Follows-Free s old t f)

-- A path that the master may not have yet.
abbrev IsKnown : Option Text → Type 0
IsKnown none = Unit
IsKnown (some s) = IsPlain s

abbrev FreeOf : Option Text → Text → Type 0
FreeOf none t = Unit
FreeOf (some s) t = Free s t

abbrev pub Hides : Option Text → Text → Type 0
Hides none t = Unit
Hides (some s) t = contains t s ≡ false

FreeOf-Hides : (known : Option Text) (t : Text) → FreeOf known t → Hides known t
FreeOf-Hides none t f = tt
FreeOf-Hides (some s) t f = Free-contains s t f

replace_known_self :
    (known : Option Text) (new m t : Text)
    → IsKnown known
    → new ≡ b'<' ∷ m
    → has_char b'/' new ≡ false
    → FreeOf known (replace_known known new t)
unfolding replace_known
replace_known_self none new m t p e h = tt
replace_known_self (some s) new m t p e h = replace_self s new m t p e h

replace_known_keeps :
    (s new m t : Text) (known : Option Text)
    → IsPlain s
    → new ≡ b'<' ∷ m
    → has_char b'/' new ≡ false
    → Free s t
    → Free s (replace_known known new t)
unfolding replace_known
replace_known_keeps s new m t none p e h f = f
replace_known_keeps s new m t (some old) p e h f = replace_keeps s old new m t p e h f

FreeOf-keeps :
    (known : Option Text) (old : Option Text) (new m t : Text)
    → IsKnown known
    → new ≡ b'<' ∷ m
    → has_char b'/' new ≡ false
    → FreeOf known t
    → FreeOf known (replace_known old new t)
FreeOf-keeps none old new m t p e h f = tt
FreeOf-keeps (some s) old new m t p e h f = replace_known_keeps s new m t old p e h f

-- What a text must not show of the host.
pub record IsHidden (root : Text) (master : Master) (t : Text) : Type 0 where
  pub repository : contains t root ≡ false
  pub runtime : Hides master.runtime_dir t
  pub control : Hides master.control_path t

sanitize-IsHidden :
    (root : Text) (master : Master) (t : Text)
    → IsPlain root
    → IsKnown master.runtime_dir
    → IsKnown master.control_path
    → IsHidden root master (sanitize root master t)
unfolding sanitize has_char
sanitize-IsHidden root master t p r c =
    let a = replace root repository_mark t in
    let b = replace_known master.runtime_dir runtime_mark a in
    let fa = replace_self root repository_mark (codes "repository>") t p refl refl in
    let fb =
      replace_known_keeps root runtime_mark (codes "runtime-dir>") a master.runtime_dir p refl refl
        fa in
    let rb =
      replace_known_self master.runtime_dir runtime_mark (codes "runtime-dir>") a r refl refl in
    record {
      repository = Free-contains root (sanitize root master t) (
          replace_known_keeps root control_mark (codes "control-path>") b master.control_path p refl
            refl fb);
      runtime = FreeOf-Hides master.runtime_dir (sanitize root master t) (
          FreeOf-keeps master.runtime_dir master.control_path control_mark (codes "control-path>") b
            r refl refl rb);
      control = FreeOf-Hides master.control_path (sanitize root master t) (
          replace_known_self master.control_path control_mark (codes "control-path>") b c refl
            refl);
    }

-- Whatever rsync and the remote host have printed, the tails that a client sees show neither the
-- local root nor the private directory and the socket of the master, wherever these paths stood
-- and whatever replacing one of them has joined; nothing else of the operation is changed. The paths
-- are absolute and hold no `<`.
pub public_transfer-hides :
    (root : Text) (master : Master) (value : TransferData)
    → IsPlain root
    → IsKnown master.runtime_dir
    → IsKnown master.control_path
    → let shown = public_transfer root master value in
      IsHidden root master shown.stdout_tail
      × IsHidden root master shown.stderr_tail
      × (record shown { stdout_tail = value.stdout_tail; stderr_tail = value.stderr_tail } ≡ value)
unfolding public_transfer
public_transfer-hides root master value p r c = (
  sanitize-IsHidden root master value.stdout_tail p r c,
  sanitize-IsHidden root master value.stderr_tail p r c,
  refl,
)
