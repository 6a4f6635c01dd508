-- ===== src/Sudo/Marker/Streaming.antt =====
-- The copy in chunks removes what `remove_once` removes from the whole.
use mathlib.Core.Option
use remote_ssh_mcp_server.Prelude.Lists.{
  length, take, drop, length-append, length-drop, take-append-drop, take-append, drop-append,
  take-append_behind, drop-append_behind,
}
use remote_ssh_mcp_server.Prelude.Text.{Text, find?}
use remote_ssh_mcp_server.Prelude.Search.{find?-le, find?-append_some, find?-append_none}
use remote_ssh_mcp_server.Prelude.{
  ℕ, ◌+◌, ◌-◌, ◌≤◌, ◌<◌, ◌≡◌, refl, sym, ap, ◌∙◌, true, false, Option, none, some, List, [], ◌∷◌,
  ◌++◌, ◌⊎◌, inl, inr, append_assoc, append-nil, subst, ltb, if◌then◌else◌, arith, Bool-cases,
}
use remote_ssh_mcp_server.Commands.Capture.{cut}
use remote_ssh_mcp_server.Commands.Capture.Bounded.{received}
use remote_ssh_mcp_server.Sudo.Marker.{
  Scan, look_for, scan_chunk, scan_loop, begin, remove_marker_from_file,
}

-- The text without the first occurrence of the marker.
unfoldable pub without : Text → Text → Text
without marker t = elim (find? t marker) [ none ↦ t | some index ↦ cut t index marker ]

-- The copy after the bytes `t`: either the marker has not been seen, everything is kept in order,
-- and the last bytes are held back, or it has been taken out.
data Copied (marker t : Text) (s : Scan) : Type 0 where
  unseen :
      s.found ≡ false
      → s.destination ++ s.pending ≡ t
      → find? t marker ≡ none
      → (s.destination ≡ []) ⊎ (length marker ≤ length s.pending)
      → Copied marker t s
  taken :
      (index : ℕ)
      → s.found ≡ true
      → find? t marker ≡ some index
      → s.destination ++ s.pending ≡ cut t index marker
      → Copied marker t s

-- What is cut from the front stays cut when text is put behind.
cut-append :
    (t u marker : Text) (index : ℕ)
    → find? t marker ≡ some index
    → cut (t ++ u) index marker ≡ cut t index marker ++ u
unfolding cut
cut-append t u marker index h =
    rw
      (
        take-append index t u (omega (arith, find?-le t marker index h)),
        drop-append (index + length marker) t u (find?-le t marker index h),
      )
      (sym (append_assoc (take index t) (drop (index + length marker) t) u))

cut-append_behind :
    (t u marker : Text) (index : ℕ)
    → cut (t ++ u) (length t + index) marker ≡ t ++ cut u index marker
unfolding cut
cut-append_behind t u marker index = rw (take-append_behind t u index) (
    ap (λ k. (t ++ take index u) ++ drop k (t ++ u)) {x = length t + index + length marker}
      {y = length t + (index + length marker)} (omega arith)
    ∙ ap (◌++◌ (t ++ take index u)) (drop-append_behind t u (index + length marker))
    ∙ append_assoc t (take index u) (drop (index + length marker) u))

abbrev behind : Text → Option ℕ → Option ℕ
behind t = Option.map (λ i. length t + i)

-- Bytes that have been written out start no occurrence.
find?-behind :
    (t u v marker : Text)
    → (t ≡ []) ⊎ (length marker ≤ length u)
    → find? (t ++ u) marker ≡ none
    → find? (t ++ (u ++ v)) marker ≡ behind t (find? (u ++ v) marker)
find?-behind t u v marker (inr long) absent = find?-append_none t u v marker long absent
find?-behind [] u v marker (inl e) absent = map-zero_add (find? (u ++ v) marker)
  where
    map-zero_add : (o : Option ℕ) → o ≡ behind [] o
    map-zero_add none = refl
    map-zero_add (some i) = ap some (omega arith)
find?-behind (c ∷ t) u v marker (inl e) absent = absurd (cc)

look_for-Copied :
    (marker t u : Text) (o : Option ℕ)
    → find? u marker ≡ o
    → find? (t ++ u) marker ≡ behind t o
    → (t ≡ []) ⊎ (length marker ≤ length u)
    → Copied marker (t ++ u) (look_for marker t u)
unfolding look_for cut
look_for-Copied marker t u (some index) here whole held =
    rw (here, look_for)
      (taken (length t + index) refl whole (
        append_assoc t (take index u) (drop (index + length marker) u)
        ∙ sym (cut-append_behind t u marker index)))
look_for-Copied marker t u none here whole held =
    rw (here, look_for)
      (elim (Bool-cases (ltb (length marker) (length u))) [
        | inl long ↦ rw long (
            unseen refl
              (append_assoc t (take (length u - length marker) u)
                  (drop (length u - length marker) u)
                ∙ ap (◌++◌ t) (take-append-drop (length u - length marker) u))
              whole (inr (ground (arith, long, length-drop (length u - length marker) u))))
        | inr short ↦ rw short (unseen refl refl whole held)
      ])

scan_chunk-Copied :
    (marker t chunk : Text) (s : Scan)
    → Copied marker t s
    → Copied marker (t ++ chunk) (scan_chunk marker s chunk)
unfolding scan_chunk
scan_chunk-Copied marker t chunk s (unseen found e absent held) = rw found (
    subst (λ w. Copied marker w (look_for marker s.destination (s.pending ++ chunk)))
      (sym (append_assoc s.destination s.pending chunk) ∙ ap (λ w. w ++ chunk) e)
      (look_for-Copied marker s.destination (s.pending ++ chunk) _ refl
        (find?-behind s.destination s.pending chunk marker held
          (ap (λ w. find? w marker) e ∙ absent))
        (still_held held)))
  where
    still_held :
        (s.destination ≡ []) ⊎ (length marker ≤ length s.pending)
        → (s.destination ≡ []) ⊎ (length marker ≤ length (s.pending ++ chunk))
    still_held (inl empty) = inl empty
    still_held (inr long) = inr (omega (arith, length-append s.pending chunk))
scan_chunk-Copied marker t chunk s (taken index found here e) = rw found (
    taken index refl (find?-append_some t chunk marker index here) (
      append-nil (s.destination ++ (s.pending ++ chunk))
      ∙ sym (append_assoc s.destination s.pending chunk)
      ∙ ap (λ w. w ++ chunk) e
      ∙ sym (cut-append t chunk marker index here)))

scan_loop-Copied :
    (marker t : Text) (s : Scan) (reads : List Text)
    → Copied marker t s
    → Copied marker (t ++ received reads) (scan_loop marker s reads)
unfolding scan_loop received
scan_loop-Copied marker t s [] c = rw append-nil c
scan_loop-Copied marker t s ([] ∷ reads) c = rw append-nil c
scan_loop-Copied marker t s ((x ∷ chunk) ∷ reads) c =
    rw (← append_assoc t (x ∷ chunk) (received reads)) (
      scan_loop-Copied marker (t ++ x ∷ chunk) _ reads (scan_chunk-Copied marker t (x ∷ chunk) s c))

finish-Copied :
    (marker t : Text) (s : Scan)
    → Copied marker t s
    → (if s.found then s.destination ++ s.pending else t) ≡ without marker t
unfolding without
finish-Copied marker t s (unseen found e absent held) = rw (found, absent, without)
finish-Copied marker t s (taken index found here e) = rw (found, here, without) e

-- A file without a byte holds no marker.
begin-Copied : (marker : Text) → 0 < length marker → Copied marker [] begin
begin-Copied [] h = absurd (omega arith)
begin-Copied (m ∷ marker) h = unseen refl refl (unfold find? in refl) (inl refl)

-- Whatever the sizes of the reads, the spool file is left with its contents less the first
-- occurrence of the marker: the buffer that is held back misses no marker that two reads share.
pub remove_marker_from_file-received :
    (marker : Text) (reads : List Text)
    → 0 < length marker
    → remove_marker_from_file marker (received reads) reads ≡ without marker (received reads)
unfolding remove_marker_from_file
remove_marker_from_file-received marker reads h =
    finish-Copied marker (received reads) _
      (scan_loop-Copied marker [] begin reads (begin-Copied marker h))
