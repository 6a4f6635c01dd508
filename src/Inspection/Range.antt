-- ===== src/Inspection/Range.antt =====
-- What a caller sees of a file that `read_file_range` reads.
use remote_ssh_mcp_server.Prelude.Int.{ℤ, pos, negsuc, is_status}
use remote_ssh_mcp_server.Prelude.Lists.{length, take, drop, length-take, length-drop}
use remote_ssh_mcp_server.Prelude.Text.{Text, codes, text_eq}
use remote_ssh_mcp_server.Prelude.{
  ℕ, zero, suc, ◌+◌, ◌-◌, ◌≤◌, min, ◌≡◌, ◌↔◌, refl, ap, sym, subst, ◌∙◌, true, none, List, [], ◌∷◌,
  leb, leb→le, arith,
}
use remote_ssh_mcp_server.Errors.{
  Result, ok, require, bind-ok, invalid_remote_type, remote_path_not_found,
}
use remote_ssh_mcp_server.Commands.Capture.{CapturedStream, capture}
use remote_ssh_mcp_server.Commands.Capture.Bounded.{received, capture-received}
use remote_ssh_mcp_server.Commands.Runner.{CommandResult}
use remote_ssh_mcp_server.Commands.Encoded.{encoded_bytes}
use remote_ssh_mcp_server.Commands.Encoded.Recovered.{
  AreBytes, decoded, decoded-encoded_bytes, AreBytes-take, AreBytes-drop,
}
use remote_ssh_mcp_server.Transfers.Remote.{check_remote_path}
use remote_ssh_mcp_server.Inspection.{Stat, FileRange, in_range, not_negative, read_file_range}

take-take {ℓ} : {A : Type ℓ} (m n : ℕ) (xs : List A) → m ≤ n → take m (take n xs) ≡ take m xs
take-take zero n xs h = refl
take-take (suc m) zero xs h = absurd (omega arith)
take-take (suc m) (suc n) [] h = refl
take-take (suc m) (suc n) (x ∷ xs) h = ap (◌∷◌ x) (take-take m n xs (omega arith))

in_range-ok :
    (v : ℤ) (low high n : ℕ) → in_range v low high ≡ ok n → (v ≡ pos n) × (low ≤ n) × (n ≤ high)
unfolding in_range
in_range-ok (pos m) low high n h = (ap pos (ground arith), ground arith, ground arith)
in_range-ok (negsuc m) low high n h = absurd (cc)

-- The `dd` command on a file with the given contents: it reads `count` bytes behind `offset`, and its
-- output is captured with the limit.
pub record Reads (limit : ℕ) (contents : Text) (offset count : ℕ) (result : CommandResult)
    : Type 0 where
  pub reads : List Text
  pub whole : received reads ≡ take count (drop offset contents)
  pub captured : result.stdout ≡ (capture limit none reads).0

not_negative-ok : (v : ℤ) (n : ℕ) → not_negative v ≡ ok n → v ≡ pos n
unfolding not_negative
not_negative-ok (pos m) n h = ap pos (ground arith)
not_negative-ok (negsuc m) n h = absurd (cc)

-- What the range says of the file.
pub record IsRange (contents : Text) (max_bytes : ℕ) (range : FileRange) : Type 0 where
  pub bytes : decoded range.encoded ≡ take max_bytes (drop range.offset contents)
  pub number : range.bytes_read ≡ min max_bytes (length contents - range.offset)
  pub ends : (range.eof ≡ true) ↔ (length contents ≤ range.offset + max_bytes)

-- The range that is made of the output of `dd`.
abbrev range_of : Text → ℕ → ℕ → CommandResult → FileRange
range_of path offset max_bytes result = record {
  path = path;
  offset = offset;
  bytes_read = length (take max_bytes result.stdout.raw);
  eof = leb result.stdout.total_bytes max_bytes;
  encoded = encoded_bytes (take max_bytes result.stdout.raw);
}

le→leb : (a b : ℕ) → a ≤ b → leb a b ≡ true
le→leb a b h = ground arith

range_of-IsRange :
    (limit : ℕ) (path contents : Text) (offset max_bytes : ℕ) (result : CommandResult)
    → AreBytes contents
    → max_bytes ≤ limit
    → Reads limit contents offset (suc max_bytes) result
    → IsRange contents max_bytes (range_of path offset max_bytes result)
range_of-IsRange limit path contents offset max_bytes result are h r =
    let (raw, total, _, _) = capture-received limit none r.reads in
    let file = drop offset contents in
    let bytes : take max_bytes result.stdout.raw ≡ take max_bytes file =
      ap (λ (s : CapturedStream). take max_bytes s.raw) r.captured
      ∙ ap (take max_bytes) raw
      ∙ take-take max_bytes limit (received r.reads) h
      ∙ ap (take max_bytes) r.whole
      ∙ take-take max_bytes (suc max_bytes) file (omega arith) in
    let count : result.stdout.total_bytes ≡ length (take (suc max_bytes) file) =
      ap (λ (s : CapturedStream). s.total_bytes) r.captured ∙ total ∙ ap length r.whole in
    record {
      bytes =
          decoded-encoded_bytes (take max_bytes result.stdout.raw) (
            subst AreBytes (sym bytes)
              (AreBytes-take max_bytes file (AreBytes-drop offset contents are)))
          ∙ bytes;
      number =
          ap length bytes
          ∙ length-take max_bytes file
          ∙ ap (min max_bytes) (length-drop offset contents);
      ends = (
        λ e. omega (
          arith,
          leb→le result.stdout.total_bytes max_bytes e,
          count,
          length-take (suc max_bytes) file,
          length-drop offset contents,
        ),
        λ e. le→leb result.stdout.total_bytes max_bytes (
            omega (arith, e, count, length-take (suc max_bytes) file, length-drop offset contents)),
      );
    }

-- A range of a regular file is the bytes of the file behind the offset, at most `max_bytes` of them:
-- the text that the caller gets, read by its encoding, is these bytes, be they UTF-8 or not. `bytes_read` is their number and `eof` says whether the file ends there. One byte more than asked for
-- is read to tell, and the limit on captured output does not get in the way. An offset below zero and a
-- `max_bytes` that is not within the limit give no range.
pub read_file_range-IsRange :
    (limit : ℕ) (remote_path contents : Text) (offset_value max_value : ℤ) (metadata : Result Stat)
    (answer : ℕ → ℕ → Result CommandResult) (range : FileRange)
    → AreBytes contents
    → ((o c : ℕ) (result : CommandResult)
        → answer o c ≡ ok result
        → Reads limit contents o c result)
    → read_file_range limit remote_path offset_value max_value metadata answer ≡ ok range
    → (offset_value ≡ pos range.offset)
      × ((max_bytes : ℕ) × (max_value ≡ pos max_bytes)
          × (1 ≤ max_bytes)
          × (max_bytes ≤ limit)
          × IsRange contents max_bytes range)
unfolding read_file_range
read_file_range-IsRange limit remote_path contents offset_value max_value metadata answer range are
      dd h =
    let (path, e1, h1) = bind-ok (check_remote_path remote_path) _ range h in
    let (o, e2, h2) = bind-ok (not_negative offset_value) _ range h1 in
    let (m, e3, h3) = bind-ok (in_range max_value 1 limit) _ range h2 in
    let (found, e4, h4) = bind-ok metadata _ range h3 in
    let (u5, e5, h5) =
      bind-ok (require (text_eq found.kind (codes "regular file")) invalid_remote_type) _ range
        h4 in
    let (result, e6, h6) = bind-ok (answer o (suc m)) _ range h5 in
    let (u7, e7, h7) =
      bind-ok (require (is_status 0 result.exit_code) remote_path_not_found) _ range h6 in
    let (same_max, low, high) = in_range-ok max_value 1 limit m e3 in
    let same : range_of path o m result ≡ range = ok_inj h7 in
    (
      not_negative-ok offset_value o e2 ∙ ap (λ (g : FileRange). pos g.offset) same,
      (
        m,
        same_max,
        low,
        high,
        subst (IsRange contents m) same
            (range_of-IsRange limit path contents o m result are high (dd o (suc m) result e6)),
      ),
    )
  where
    ok_inj : {a b : FileRange} → ok a ≡ ok b → a ≡ b
    ok_inj e = ground arith
