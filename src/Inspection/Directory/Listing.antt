-- ===== src/Inspection/Directory/Listing.antt =====
-- What `find` prints of a directory is read back.
use Prim.Native.Nat.{◌%◌}
use remote_ssh_mcp_server.Prelude.Int.{pos, is_status}
use remote_ssh_mcp_server.Prelude.Lists.{length, All, take, take_all}
use remote_ssh_mcp_server.Prelude.Text.{Text, codes, text_eq, has_char, split_on}
use remote_ssh_mcp_server.Prelude.Chars.{is_digit, decimal}
use remote_ssh_mcp_server.Prelude.Chars.Decimal.{decimal-All}
use remote_ssh_mcp_server.Prelude.Encoding.{ascii_replace}
use remote_ssh_mcp_server.Prelude.Split.{split_on-append}
use remote_ssh_mcp_server.Prelude.{
  Bool, ◌==◌, ℕ, suc, ◌*◌, ◌≡◌, refl, ap, ◌∙◌, true, false, none, List, [], ◌∷◌, ◌++◌, inl, inr,
  Bool-cases, leb, leb→le, if◌then◌else◌, arith,
}
use remote_ssh_mcp_server.Errors.{remote, ok, err, output_limit_exceeded}
use remote_ssh_mcp_server.Commands.Capture.{CapturedStream, capture}
use remote_ssh_mcp_server.Commands.Capture.Bounded.{received, capture-received}
use remote_ssh_mcp_server.Commands.Runner.{CommandResult}
use remote_ssh_mcp_server.Commands.Encoded.{encoded_bytes}
use remote_ssh_mcp_server.Transfers.Remote.{check_remote_path}
use remote_ssh_mcp_server.Inspection.{Stat, or_protocol_error}
use remote_ssh_mcp_server.Inspection.Directory.{
  DirectoryEntry, pop_empty, read_entries, list_directory,
}
use remote_ssh_mcp_server.Inspection.Directory.Numbers.{int_of-decimal}

-- One entry as `find` has it; a regular file, a directory or any other kind is one character.
pub record Found : Type 0 where
  pub name : Text
  pub kind : Text
  pub size : ℕ
  pub mtime : Text

-- A text ends at the next NUL.
abbrev NoNul : Text → Type 0
NoNul t = has_char 0 t ≡ false

pub record IsPrintable (is_float : Text → Bool) (f : Found) : Type 0 where
  pub plain_name : NoNul f.name
  pub plain_kind : NoNul f.kind
  pub plain_mtime : NoNul f.mtime
  pub float : is_float f.mtime ≡ true

-- What `-printf "%f\0%y\0%s\0%T@\0"` prints for one entry, and for all.
print_entry : Found → Text → Text
unfolding decimal
print_entry f rest =
    f.name ++ (0 ∷ (f.kind ++ (0 ∷ (decimal f.size ++ (0 ∷ (f.mtime ++ (0 ∷ rest)))))))

unfoldable pub print_entries : List Found → Text
unfolding print_entry
print_entries [] = []
print_entries (f ∷ fs) = print_entry f (print_entries fs)

abbrev fields_of : List Found → List Text
fields_of [] = []
fields_of (f ∷ fs) = f.name ∷ f.kind ∷ decimal f.size ∷ f.mtime ∷ fields_of fs

-- What the listing says of the entries.
abbrev pub shown : List Found → List DirectoryEntry
shown [] = []
shown (f ∷ fs) =
    record {
      name = encoded_bytes f.name;
      kind = ascii_replace f.kind;
      size = pos f.size;
      mtime = f.mtime;
    }
    ∷ shown fs

digits-NoNul : (s : Text) → All (λ c. is_digit c ≡ true) s → NoNul s
unfolding has_char
digits-NoNul [] h = refl
digits-NoNul (c ∷ s) h = ground (arith, digits-NoNul s h.1)

split_on-print_entries :
    (is_float : Text → Bool) (fs : List Found)
    → All (IsPrintable is_float) fs
    → split_on 0 (print_entries fs) ≡ fields_of fs ++ ([] ∷ [])
unfolding print_entries split_on
split_on-print_entries is_float [] h = refl
split_on-print_entries is_float (f ∷ fs) h =
    let rest = print_entries fs in
    split_on-append 0 f.name (f.kind ++ (0 ∷ (decimal f.size ++ (0 ∷ (f.mtime ++ (0 ∷ rest))))))
      h.0.plain_name
    ∙ ap (◌∷◌ f.name) (
        split_on-append 0 f.kind (decimal f.size ++ (0 ∷ (f.mtime ++ (0 ∷ rest)))) h.0.plain_kind
        ∙ ap (◌∷◌ f.kind) (
            split_on-append 0 (decimal f.size) (f.mtime ++ (0 ∷ rest))
              (digits-NoNul (decimal f.size) (decimal-All f.size))
            ∙ ap (◌∷◌ (decimal f.size)) (
                split_on-append 0 f.mtime rest h.0.plain_mtime
                ∙ ap (◌∷◌ f.mtime) (split_on-print_entries is_float fs h.1))))

pop_empty-append : (fields : List Text) → pop_empty (fields ++ ([] ∷ [])) ≡ fields
unfolding pop_empty
pop_empty-append [] = refl
pop_empty-append (a ∷ []) = refl
pop_empty-append (a ∷ b ∷ fields) = ap (◌∷◌ a) (pop_empty-append (b ∷ fields))

length-fields_of : (fs : List Found) → length (fields_of fs) ≡ 4 * length fs
length-fields_of [] = omega arith
length-fields_of (f ∷ fs) = omega (arith, length-fields_of fs)

length-shown : (fs : List Found) → length (shown fs) ≡ length fs
length-shown [] = refl
length-shown (f ∷ fs) = ap suc (length-shown fs)

read_entries-fields_of :
    (is_float : Text → Bool) (fs : List Found)
    → All (IsPrintable is_float) fs
    → read_entries is_float (fields_of fs) ≡ ok (shown fs)
unfolding read_entries or_protocol_error
read_entries-fields_of is_float [] h = refl
read_entries-fields_of is_float (f ∷ fs) h =
    rw (int_of-decimal f.size, h.0.float, read_entries-fields_of is_float fs h.1)

fields_of-whole : (fs : List Found) → (length (fields_of fs) % 4 == 0) ≡ true
fields_of-whole fs = ground (arith, length-fields_of fs)

module _ (is_float : Text → Bool) (remote_path path : Text) (found : Stat) (result : CommandResult)
    (valid : check_remote_path remote_path ≡ ok path) (kind : found.kind ≡ codes "directory")
    (ended : is_status 0 result.exit_code ≡ true) where
  list_directory_whole :
      (fs : List Found)
      → All (IsPrintable is_float) fs
      → result.stdout.truncated ≡ false
      → result.stdout.raw ≡ print_entries fs
      → list_directory is_float remote_path (ok found) (ok result)
        ≡ ok (record { path = path; entries = shown fs; count = length fs })
  unfolding list_directory text_eq
  list_directory_whole fs printable untruncated raw =
      let fields =
        ap (λ t. pop_empty (split_on 0 t)) raw
        ∙ (ap pop_empty (split_on-print_entries is_float fs printable)
            ∙ pop_empty-append (fields_of fs)) in
      rw (
        valid,
        kind,
        ended,
        untruncated,
        fields,
        fields_of-whole fs,
        read_entries-fields_of is_float fs printable,
        length-shown fs,
      )

  list_directory_truncated :
      result.stdout.truncated ≡ true
      → list_directory is_float remote_path (ok found) (ok result)
        ≡ err (remote output_limit_exceeded)
  unfolding list_directory text_eq
  list_directory_truncated truncated = rw (valid, kind, ended, truncated)

-- A listing of a directory has exactly the entries that `find` has printed, in that order, with
-- their names, kinds, sizes and times, however the output was cut into reads; if the output is longer
-- than the limit, the call raises `output_limit_exceeded` and gives no part of it. Names, kinds and
-- times hold no NUL, and `float` takes the times.
pub list_directory-Found :
    (limit : ℕ) (is_float : Text → Bool) (remote_path path : Text) (found : Stat) (fs : List Found)
    (reads : List Text) (result : CommandResult)
    → All (IsPrintable is_float) fs
    → check_remote_path remote_path ≡ ok path
    → found.kind ≡ codes "directory"
    → is_status 0 result.exit_code ≡ true
    → result.stdout ≡ (capture limit none reads).0
    → received reads ≡ print_entries fs
    → list_directory is_float remote_path (ok found) (ok result) ≡ (
        if leb (length (print_entries fs)) limit
        then ok (record { path = path; entries = shown fs; count = length fs })
        else err (remote output_limit_exceeded))
unfolding list_directory
list_directory-Found limit is_float remote_path path found fs reads result printable valid kind
      ended captured whole =
    let (raw, total, cut, spool) = capture-received limit none reads in
    elim (Bool-cases (leb (length (print_entries fs)) limit)) [
      | inl fits ↦ rw fits (
          list_directory_whole is_float remote_path path found result valid kind ended fs printable
            (ap (λ (c : CapturedStream). c.truncated) captured
              ∙ ground (arith, cut, leb→le (length (print_entries fs)) limit fits, ap length whole))
            (ap (λ (c : CapturedStream). c.raw) captured
              ∙ raw
              ∙ ap (take limit) whole
              ∙ take_all limit (print_entries fs) (leb→le (length (print_entries fs)) limit fits)))
      | inr long ↦ rw long (
          list_directory_truncated is_float remote_path path found result valid kind ended (
            ap (λ (c : CapturedStream). c.truncated) captured
            ∙ cut.1 (ground (arith, ap length whole, long))))
    ]
