-- ===== src/Checksums/RoundTrip.antt =====
-- `write` of tools/checksums.py followed by `verify`.
use remote_ssh_mcp_server.Prelude.Fallible.{check, >>=-some, some-inj, check-some}
use remote_ssh_mcp_server.Prelude.Lists.{all}
use remote_ssh_mcp_server.Prelude.Text.{Text, codes, text_eq, text_eq_iff, mem_text}
use remote_ssh_mcp_server.Prelude.Lines.{is_break, split_lines}
use remote_ssh_mcp_server.Prelude.{◌≡◌, refl, ap, sym, ◌∙◌, true, false, some, [], ◌∷◌, ◌++◌, arith}
use remote_ssh_mcp_server.Checksums.{
  Files, sums, expected_names, all_in, same_names, actual, artifacts, content, put_file, sums_text,
  write, is_lower_hex, is_sha256, parse_lines, check_digests, verify,
}
use remote_ssh_mcp_server.Checksums.Written.{
  partition_spaces-hex, split_lines-sum, content-put, content-put_other, content-mem, put-actual-in,
}

abbrev amd64 : Text
amd64 = codes "remote-ssh-mcp-linux-amd64"

abbrev arm64 : Text
arm64 = codes "remote-ssh-mcp-linux-arm64"

-- What `write` has found and written.
record IsWritten (sha256 : Text → Text) (files after : Files) : Type 0 where
  known : all_in (artifacts files) expected_names ≡ true
  amd : Text
  arm : Text
  found_amd : content amd64 files ≡ some amd
  found_arm : content arm64 files ≡ some arm
  left :
      after
      ≡ put_file sums
          (sha256 amd
            ++ (codes "  "
                ++ (amd64 ++ (10 ∷ (sha256 arm ++ (codes "  " ++ (arm64 ++ (10 ∷ []))))))))
          files

write-IsWritten :
    (sha256 : Text → Text) (files after : Files)
    → write sha256 files ≡ some after
    → IsWritten sha256 files after
unfolding write sums_text
write-IsWritten sha256 files after h =
    let (u1, e1, h1) = >>=-some (check (same_names (artifacts files) expected_names)) _ after h in
    let (text, e2, h2) = >>=-some (sums_text sha256 files expected_names) _ after h1 in
    let (amd, e3, h3) = >>=-some (content amd64 files) _ text e2 in
    let (rest, e4, h4) = >>=-some (sums_text sha256 files (arm64 ∷ [])) _ text h3 in
    let (arm, e5, h5) = >>=-some (content arm64 files) _ rest e4 in
    let same = check-some _ u1 e1 in
    record {
      known = unfold same_names in ground (arith, same);
      amd = amd;
      arm = arm;
      found_amd = e3;
      found_arm = e5;
      left =
          sym (some-inj h2)
          ∙ ap (λ t. put_file sums t files)
              (sym (some-inj h4)
                ∙ ap (λ r. sha256 amd ++ (codes "  " ++ (amd64 ++ (10 ∷ r)))) (sym (some-inj h5)));
    }

parse_written :
    (amd arm : Text)
    → is_sha256 amd ≡ true
    → is_sha256 arm ≡ true
    → parse_lines [] (
        split_lines false
          (amd ++ (codes "  " ++ (amd64 ++ (10 ∷ (arm ++ (codes "  " ++ (arm64 ++ (10 ∷ [])))))))))
      ≡ some ((arm64, arm) ∷ (amd64, amd) ∷ [])
unfolding parse_lines content text_eq is_sha256 split_lines
parse_written amd arm h k =
    let hex_amd : all is_lower_hex amd ≡ true = ground (arith, h) in
    let hex_arm : all is_lower_hex arm ≡ true = ground (arith, k) in
    let first =
      split_lines-sum amd amd64 (arm ++ (codes "  " ++ (arm64 ++ (10 ∷ [])))) hex_amd
        (unfold all is_break in refl) in
    let second = split_lines-sum arm arm64 [] hex_arm (unfold all is_break in refl) in
    ap (parse_lines []) (first ∙ ap (λ l. (amd ++ (codes "  " ++ amd64)) ∷ l) second)
    ∙ rw (partition_spaces-hex amd amd64 hex_amd, h, partition_spaces-hex arm arm64 hex_arm, k) refl

verify-put :
    (sha256 : Text → Text) (files : Files) (amd arm text : Text)
    → is_sha256 (sha256 amd) ≡ true
    → is_sha256 (sha256 arm) ≡ true
    → text
      ≡ sha256 amd
        ++ (codes "  " ++ (amd64 ++ (10 ∷ (sha256 arm ++ (codes "  " ++ (arm64 ++ (10 ∷ [])))))))
    → all_in (artifacts files) expected_names ≡ true
    → content amd64 files ≡ some amd
    → content arm64 files ≡ some arm
    → verify sha256 (put_file sums text files) ≡ some tt
unfolding verify same_names all_in actual mem_text text_eq check_digests
verify-put sha256 files amd arm text hex_amd hex_arm spelled known found_amd found_arm =
    let c_sums = content-put sums text files in
    let c_amd = content-put_other sums amd64 text files refl ∙ found_amd in
    let c_arm = content-put_other sums arm64 text files refl ∙ found_arm in
    let after = put_file sums text files in
    let parsed =
      ap (λ t. parse_lines [] (split_lines false t)) spelled
      ∙ parse_written (sha256 amd) (sha256 arm) hex_amd hex_arm in
    rw
      (
        put-actual-in text files expected_names known,
        content-mem sums text after c_sums,
        content-mem amd64 amd after c_amd,
        content-mem arm64 arm after c_arm,
        c_sums,
        parsed,
        c_arm,
        (text_eq_iff (sha256 arm) (sha256 arm)).1 refl,
        c_amd,
        (text_eq_iff (sha256 amd) (sha256 amd)).1 refl,
      )
      refl

-- The inventory that `write` leaves passes `verify`: if the digests are 64 lower-case hexadecimal
-- digits, and `write` has accepted the directory, then the directory with its file of checksums has
-- exactly the expected files, its lines are read back, and every digest is found again.
pub verify-write :
    (sha256 : Text → Text) (files after : Files)
    → ((bytes : Text) → is_sha256 (sha256 bytes) ≡ true)
    → write sha256 files ≡ some after
    → verify sha256 after ≡ some tt
verify-write sha256 files after hex h =
    let w = write-IsWritten sha256 files after h in
    ap (verify sha256) w.left
    ∙ verify-put sha256 files w.amd w.arm _ (hex w.amd) (hex w.arm) refl w.known w.found_amd
        w.found_arm
