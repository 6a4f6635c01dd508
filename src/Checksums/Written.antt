-- ===== src/Checksums/Written.antt =====
-- The lines that `write` of tools/checksums.py has written, and the directory that it leaves.
use remote_ssh_mcp_server.Prelude.Lists.{all}
use remote_ssh_mcp_server.Prelude.Text.{Text, codes, text_eq, text_eq_iff, starts_with, mem_text}
use remote_ssh_mcp_server.Prelude.Lines.{is_break, split_lines}
use remote_ssh_mcp_server.Prelude.{
  ℕ, Bool, ◌≡◌, refl, ap, sym, ◌∙◌, subst, inl, inr, true, false, not, some, List, [], ◌∷◌, ◌++◌,
  append_assoc, ◌==◌, Bool-cases, arith,
}
use remote_ssh_mcp_server.Checksums.{
  Files, sums, all_in, actual, artifacts, content, put_file, partition_spaces, is_lower_hex,
}

pub partition_spaces-hex :
    (digest name : Text)
    → all is_lower_hex digest ≡ true
    → partition_spaces (digest ++ (32 ∷ 32 ∷ name)) ≡ (digest, some name)
unfolding partition_spaces starts_with
partition_spaces-hex [] name h = refl
partition_spaces-hex (c ∷ t) name h =
    let hex : is_lower_hex c ≡ true = unfold all in ground arith in
    let more : all is_lower_hex t ≡ true = unfold all in ground arith in
    let other : (c == 32) ≡ false = unfold is_lower_hex in ground arith in
    rw (partition_spaces-hex t name more, other) refl

-- A text without a line break
abbrev pub is_line : Text → Bool
is_line t = all (λ c. not (is_break c)) t

split_lines-line :
    (line rest : Text)
    → is_line line ≡ true
    → split_lines false (line ++ (10 ∷ rest)) ≡ line ∷ split_lines false rest
unfolding split_lines
split_lines-line [] rest h = unfold is_break in refl
split_lines-line (c ∷ t) rest h =
    let plain : is_break c ≡ false = unfold all in ground arith in
    let more : is_line t ≡ true = unfold all in ground arith in
    let other : (c == 13) ≡ false = unfold is_break in ground arith in
    rw (other, split_lines-line t rest more, plain) refl

all-append : (p : ℕ → Bool) (t u : Text) → all p t ≡ true → all p u ≡ true → all p (t ++ u) ≡ true
unfolding all
all-append p [] u h k = k
all-append p (c ∷ t) u h k = ground (arith, all-append p t u (ground arith) k)

hex-is_line : (t : Text) → all is_lower_hex t ≡ true → is_line t ≡ true
unfolding all
hex-is_line [] h = refl
hex-is_line (c ∷ t) h =
    let hex : is_lower_hex c ≡ true = ground arith in
    let plain : is_break c ≡ false = unfold is_lower_hex is_break in ground arith in
    ground (arith, plain, hex-is_line t (ground arith))

-- One line of the file.
pub split_lines-sum :
    (digest name rest : Text)
    → all is_lower_hex digest ≡ true
    → is_line name ≡ true
    → split_lines false (digest ++ (codes "  " ++ (name ++ (10 ∷ rest))))
      ≡ (digest ++ (codes "  " ++ name)) ∷ split_lines false rest
split_lines-sum digest name rest hex plain =
    ap (split_lines false) (sym (append_assoc digest (codes "  " ++ name) (10 ∷ rest)))
    ∙ split_lines-line (digest ++ (codes "  " ++ name)) rest (
        all-append _ digest (codes "  " ++ name) (hex-is_line digest hex)
          (unfold all is_break in plain))

pub content-put :
    (name bytes : Text) (files : Files) → content name (put_file name bytes files) ≡ some bytes
unfolding content put_file
content-put name bytes [] = rw ((text_eq_iff name name).1 refl) refl
content-put name bytes ((n, old) ∷ files) = elim (Bool-cases (text_eq n name)) [
  | inl same ↦ rw (same, same) refl
  | inr other ↦ rw (other, other) (content-put name bytes files)
]

pub content-put_other :
    (name other bytes : Text) (files : Files)
    → text_eq name other ≡ false
    → content other (put_file name bytes files) ≡ content other files
unfolding content put_file
content-put_other name other bytes [] h = rw h refl
content-put_other name other bytes ((n, old) ∷ files) h = elim (Bool-cases (text_eq n name)) [
  | inl same ↦
      let apart : text_eq n other ≡ false =
        subst (λ m. text_eq m other ≡ false) (sym ((text_eq_iff n name).0 same)) h in
      rw (same, apart) refl
  | inr differs ↦
      let rest = content-put_other name other bytes files h in
      rw differs (elim (Bool-cases (text_eq n other)) [
        | inl here ↦ rw here refl
        | inr later ↦ rw later rest
      ])
]

pub content-mem :
    (name bytes : Text) (files : Files)
    → content name files ≡ some bytes
    → mem_text name (actual files) ≡ true
unfolding content actual mem_text
content-mem name bytes [] h = absurd (cc)
content-mem name bytes ((n, b) ∷ files) h = elim (Bool-cases (text_eq n name)) [
  | inl same ↦ let own = (text_eq_iff name n).1 (sym ((text_eq_iff n name).0 same)) in rw own refl
  | inr other ↦ ground (arith, content-mem name bytes files (ground (arith, other)))
]

actual-in :
    (files : Files) (names : List Text)
    → all_in (artifacts files) names ≡ true
    → all_in (actual files) (sums ∷ names) ≡ true
unfolding artifacts actual all_in mem_text
actual-in [] names h = refl
actual-in ((n, b) ∷ files) names h = ground (arith, actual-in files names (ground arith))

pub put-actual-in :
    (bytes : Text) (files : Files) (names : List Text)
    → all_in (artifacts files) names ≡ true
    → all_in (actual (put_file sums bytes files)) (sums ∷ names) ≡ true
unfolding artifacts actual all_in mem_text put_file
put-actual-in bytes [] names h = refl
put-actual-in bytes ((n, b) ∷ files) names h = elim (Bool-cases (text_eq n sums)) [
  | inl same ↦ rw (same, same) (actual-in files names (ground (arith, same)))
  | inr other ↦
      let rest = put-actual-in bytes files names (ground (arith, other)) in
      rw (other) (ground (arith, other, rest))
]
