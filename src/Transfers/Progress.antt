-- ===== src/Transfers/Progress.antt =====
-- `_read_rsync_stream` of remote_ssh_mcp/transfers.py: the tail of a stream, and the figures in it.
pub mod Tail
pub mod Finds
use remote_ssh_mcp_server.Prelude.Lists.{length, drop, is_nil}
use remote_ssh_mcp_server.Prelude.Text.{Text}
use remote_ssh_mcp_server.Prelude.Chars.{is_digit, value}
use remote_ssh_mcp_server.Prelude.{
  ℕ, zero, suc, ◌-◌, Bool, true, false, ◌&&◌, ◌||◌, Option, none, some, List, [], ◌∷◌, ◌++◌, leb,
  ltb, ◌==◌, if◌then◌else◌,
}

abbrev pub rsync_tail_bytes : ℕ
rsync_tail_bytes = 65_536

-- `\s` in a pattern on bytes
is_blank : ℕ → Bool
is_blank c = (leb 9 c && leb c 13) || c == 32

drop_blank : Text → Text
unfolding is_blank
drop_blank [] = []
drop_blank (c ∷ t) = let rest = drop_blank t in if is_blank c then rest else c ∷ t

-- `[0-9,]*`, with the commas left out of what is read.
read_figures : Text → Text × Text
read_figures [] = ([], [])
read_figures (c ∷ t) =
    let (figures, rest) = read_figures t in
    if is_digit c then (c ∷ figures, rest) else if c == b',' then (figures, rest) else ([], c ∷ t)

drop_digits : Text → Text
drop_digits [] = []
drop_digits (c ∷ t) = let rest = drop_digits t in if is_digit c then rest else c ∷ t

percent_sign : Text → Option Text
percent_sign [] = none
percent_sign (d ∷ rest) = if d == b'%' then some rest else none

-- `[0-9]+%`
read_percent : Text → Option Text
unfolding drop_digits percent_sign
read_percent [] = none
read_percent (c ∷ t) = if is_digit c then percent_sign (drop_digits t) else none

-- `\s+[0-9]+%`
read_blank_percent : Text → Option Text
unfolding drop_blank read_percent
read_blank_percent [] = none
read_blank_percent (c ∷ t) = if is_blank c then read_percent (drop_blank t) else none

-- What `PROGRESS_PATTERN` matches from its first group on: the number and what follows the match.
read_figure : Text → Option (ℕ × Text)
unfolding read_figures read_blank_percent
read_figure [] = none
read_figure (c ∷ rest) =
    if is_digit c
    then (let (figures, behind) = read_figures rest in
        elim (read_blank_percent behind) [
          | none ↦ none
          | some end ↦ some (value 0 (c ∷ figures), end)
        ])
    else none

read_progress : Text → Option (ℕ × Text)
unfolding drop_blank read_figure
read_progress t = read_figure (drop_blank t)

-- A match can begin at the start of the window, or with a line's end.
pub match_here : Bool → ℕ → Text → Option (ℕ × Text)
unfolding read_progress
match_here true c t = read_progress (c ∷ t)
match_here false c t = if c == 10 || c == 13 then read_progress t else none

-- `PROGRESS_PATTERN.findall(window)[-1]`. Each round uses up a character, so the length is enough.
find_progress : ℕ → Bool → Text → Option ℕ → Option ℕ
unfolding match_here
find_progress zero at_start t last = last
find_progress (suc fuel) at_start [] last = last
find_progress (suc fuel) at_start (c ∷ t) last = elim (match_here at_start c t) [
  | none ↦ find_progress fuel false t last
  | some (n, rest) ↦ find_progress fuel false rest (some n)
]

unfoldable pub last_progress : Text → Option ℕ
unfolding find_progress
last_progress window = find_progress (length window) true window none

-- `del tail[: len(tail) - RSYNC_TAIL_BYTES]` if it is longer
unfoldable pub keep_tail : ℕ → Text → Text
keep_tail limit t = if ltb limit (length t) then drop (length t - limit) t else t

-- The locals of the loop; `bytes_transferred` is the field of the operation, if it has been set.
pub record Reading : Type 0 where
  pub tail : Text
  pub progress_window : Text
  pub bytes_transferred : Option ℕ

or_last : Option ℕ → Option ℕ → Option ℕ
or_last none last = last
or_last (some n) last = some n

unfoldable pub read_chunk : ℕ → Bool → Reading → Text → Reading
unfolding keep_tail or_last
read_chunk limit parse_progress r chunk =
    let tail = keep_tail limit (r.tail ++ chunk) in
    if parse_progress
    then (let window = keep_tail limit (r.progress_window ++ chunk) in
        record {
          tail = tail;
          progress_window = window;
          bytes_transferred = or_last (last_progress window) r.bytes_transferred;
        })
    else record r { tail = tail }

unfoldable pub read_loop : ℕ → Bool → Reading → List Text → Reading
unfolding read_chunk
read_loop limit parse_progress r [] = r
read_loop limit parse_progress r (chunk ∷ reads) =
    let rest = read_loop limit parse_progress (read_chunk limit parse_progress r chunk) reads in
    if is_nil chunk then r else rest

abbrev pub begin : Reading
begin = record { tail = []; progress_window = []; bytes_transferred = none }

-- `_read_rsync_stream`: the returned tail, and the last figure that was stored.
unfoldable pub read_rsync_stream : Bool → List Text → Reading
unfolding read_loop
read_rsync_stream parse_progress reads = read_loop rsync_tail_bytes parse_progress begin reads
