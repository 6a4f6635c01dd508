-- ===== src/Tests/Inspection.antt =====
-- remote_ssh_mcp/inspection.py at concrete inputs.
use remote_ssh_mcp_server.Prelude.Int.{pos}
use remote_ssh_mcp_server.Prelude.Lists.{length, take, drop}
use remote_ssh_mcp_server.Prelude.Text.{Text, codes, has_char, text_eq}
use remote_ssh_mcp_server.Prelude.{
  ℕ, ◌≤◌, ◌≡◌, refl, ap, sym, true, false, none, Bool, leb, if◌then◌else◌, [], ◌∷◌, ◌++◌,
  append-nil, arith,
}
use remote_ssh_mcp_server.Errors.{remote, ok, err, output_limit_exceeded}
use remote_ssh_mcp_server.Commands.Capture.{CapturedStream, capture}
use remote_ssh_mcp_server.Commands.Capture.Bounded.{received}
use remote_ssh_mcp_server.Commands.Runner.{CommandResult}
use remote_ssh_mcp_server.Transfers.Remote.{check_remote_path}
use remote_ssh_mcp_server.Commands.Encoded.{encoded_bytes}
use remote_ssh_mcp_server.Inspection.{Stat, FileRange, read_file_range}
use remote_ssh_mcp_server.Inspection.Directory.{list_directory}
use remote_ssh_mcp_server.Inspection.Directory.Listing.{
  Found, IsPrintable, print_entries, shown, list_directory-Found,
}
use remote_ssh_mcp_server.Inspection.Range.{IsRange, Reads, read_file_range-IsRange}

abbrev contents : Text
contents = codes "hello world"

abbrev metadata : Stat
metadata = record {
  path = codes "/f";
  mode = pos 33_188;
  size = pos 11;
  mtime = pos 0;
  kind = codes "regular file";
}

-- The output of `dd` comes in one read.
abbrev dd : ℕ → ℕ → CommandResult
dd offset count = record {
  exit_code = pos 0;
  stdout = (capture 100 none (take count (drop offset contents) ∷ [])).0;
  stderr = record { raw = []; total_bytes = 0; truncated = false; spool_path = none };
  timed_out = false;
}

received_one : (t : Text) → received (t ∷ []) ≡ t
unfolding received
received_one [] = refl
received_one (c ∷ t) = append-nil (c ∷ t)

dd-Reads :
    (o c : ℕ) (result : CommandResult) → ok (dd o c) ≡ ok result → Reads 100 contents o c result
dd-Reads o c result e = record {
  reads = take c (drop o contents) ∷ [];
  whole = received_one (take c (drop o contents));
  captured = ap (λ (r : CommandResult). r.stdout) (sym (ok_inj e));
}
  where
    ok_inj : {a b : CommandResult} → ok a ≡ ok b → a ≡ b
    ok_inj e = ground arith

abbrev range : FileRange
range = record {
  path = codes "/f";
  offset = 6;
  bytes_read = 5;
  eof = true;
  encoded = record { data_text = codes "world"; encoding = codes "utf-8" };
}

read_file_range-IsRange_example :
    (pos 6 ≡ pos range.offset)
    × ((max_bytes : ℕ) × (pos 5 ≡ pos max_bytes)
        × (1 ≤ max_bytes)
        × (max_bytes ≤ 100)
        × IsRange contents max_bytes range)
unfolding read_file_range check_remote_path has_char text_eq capture encoded_bytes
read_file_range-IsRange_example =
    read_file_range-IsRange 100 (codes "/f") contents (pos 6) (pos 5) (ok metadata)
      (λ o c. ok (dd o c)) range (omega arith) dd-Reads refl

-- A directory with one file, listed in two reads.
abbrev found_file : Found
found_file = record { name = codes "a\n"; kind = codes "f"; size = 120; mtime = codes "17.5" }

abbrev is_float : Text → Bool
is_float t = text_eq t (codes "17.5")

abbrev listing : CapturedStream
listing =
    (capture 100 none
      (codes "a\n" ∷ (0 ∷ codes "f" ++ (0 ∷ codes "120" ++ (0 ∷ codes "17.5" ++ (0 ∷ [])))) ∷ [])).0

found_file-IsPrintable : IsPrintable is_float found_file
unfolding has_char text_eq
found_file-IsPrintable = record {
  plain_name = refl;
  plain_kind = refl;
  plain_mtime = refl;
  float = refl;
}

list_directory-Found_example :
    list_directory is_float
      (codes "/d")
      (ok (record metadata { kind = codes "directory" }))
      (ok (record (dd 0 0) { stdout = listing }))
    ≡ (if leb (length (print_entries (found_file ∷ []))) 100
        then ok (record { path = codes "/d"; entries = shown (found_file ∷ []); count = 1 })
        else err (remote output_limit_exceeded))
unfolding check_remote_path has_char received print_entries
list_directory-Found_example =
    list_directory-Found 100 is_float (codes "/d") (codes "/d")
      (record metadata { kind = codes "directory" }) (found_file ∷ [])
      (codes "a\n" ∷ (0 ∷ codes "f" ++ (0 ∷ codes "120" ++ (0 ∷ codes "17.5" ++ (0 ∷ [])))) ∷ [])
      (record (dd 0 0) { stdout = listing }) (found_file-IsPrintable, tt) refl refl refl refl refl
