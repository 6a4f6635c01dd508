-- ===== src/Sudo/Execute/Started.antt =====
-- What a caller sees of a command that sudo started.
use remote_ssh_mcp_server.Prelude.Lists.{
  length, take, length-append, drop, take-append-drop, length-take, drop-take, take-nil, drop-nil,
  length-drop,
}
use remote_ssh_mcp_server.Prelude.Text.{Text, find?, contains}
use remote_ssh_mcp_server.Prelude.Search.{find?-le, find?-append_some}
use remote_ssh_mcp_server.Prelude.{
  ℕ, zero, suc, ◌+◌, ◌-◌, ◌≤◌, ◌≡◌, ◌<◌, refl, sym, ap, ◌∙◌, true, some, List, [], ◌∷◌, ◌++◌,
  Option-cases, inl, inr, arith,
}
use remote_ssh_mcp_server.Commands.Capture.{remove_once, capture, cut, CapturedStream}
use remote_ssh_mcp_server.Commands.Capture.Bounded.{received, capture-received, spool_path-capture}
use remote_ssh_mcp_server.Commands.Runner.{CommandResult}
use remote_ssh_mcp_server.Sudo.Marker.{remove_marker_from_file}
use remote_ssh_mcp_server.Sudo.Marker.Streaming.{without, remove_marker_from_file-received}
use remote_ssh_mcp_server.Sudo.Execute.{marker, Spooled, strip_marker}

-- A cut of a longer text at the occurrence that a prefix of it shows.
cut-take :
    (n index k : ℕ) (t : Text)
    → index + k ≤ n
    → take index (take n t) ++ drop (index + k) (take n t)
      ≡ take (n - k) (take index t ++ drop (index + k) t)
cut-take n zero k t h = let e : 0 + k ≡ k = omega arith in rw e (drop-take k n t)
cut-take zero (suc index) k t h = absurd (omega arith)
cut-take (suc n) (suc index) k [] h = rw (drop-nil (suc index + k)) (sym (take-nil (suc n - k)))
cut-take (suc n) (suc index) k (c ∷ t) h =
    let e : suc index + k ≡ suc (index + k) = omega arith in
    let f : suc n - k ≡ suc (n - k) = omega arith in
    rw (e, f) (ap (◌∷◌ c) (cut-take n index k t (omega arith)))

length-cut :
    (t m : Text) (index : ℕ)
    → index + length m ≤ length t
    → length t - length m ≡ length (cut t index m)
unfolding cut
length-cut t m index h = omega (
  arith,
  length-append (take index t) (drop (index + length m) t),
  length-take index t,
  length-drop (index + length m) t,
)

-- `remove_once` on the first bytes of a stream, against the stream without the marker.
remove_once-without :
    (limit : ℕ) (m t : Text) (stream : CapturedStream)
    → stream.raw ≡ take limit t
    → stream.total_bytes ≡ length t
    → contains stream.raw m ≡ true
    → ((remove_once stream m).raw ≡ take (limit - length m) (without m t))
      × ((remove_once stream m).total_bytes ≡ length (without m t))
unfolding remove_once without
remove_once-without limit m t stream raw total inside = elim (Option-cases (find? stream.raw m)) [
  | inl absent ↦ absurd (unfold contains in cc)
  | inr (index, here) ↦
      let captured : find? (take limit t) m ≡ some index = rw raw at here in
      let fits = find?-le (take limit t) m index captured in
      let whole : find? t m ≡ some index =
        rw take-append-drop at (find?-append_some (take limit t) (drop limit t) m index captured) in
      rw (here, whole, remove_once, without)
        (
          ap (λ w. cut w index m) raw
              ∙ unfold cut in
                cut-take limit index (length m) t (omega (arith, length-take limit t)),
          ap (λ k. k - length m) total ∙ length-cut t m index (omega (arith, length-take limit t)),
        )
]

abbrev pub spooled_result : CommandResult → ℕ → Text → List Text → Spooled
spooled_result r limit path reads =
    let (stream, spool) = capture limit (some path) reads in
    record { result = record r { stderr = stream }; stderr_spool = spool }

length-marker : (token : Text) → 0 < length (marker token)
unfolding marker
length-marker token = omega arith

-- When the marker lies within the captured bytes of stderr, `_strip_marker` takes it out of the
-- capture and of the spool file alike, whatever reads brought the stream and the spool file in:
-- the captured bytes are still the first bytes of the file, under the limit less the length of
-- the marker, and the byte count is that of the file.
pub strip_marker-capture :
    (r : CommandResult) (limit : ℕ) (token path : Text) (reads spool_reads : List Text)
    → received spool_reads ≡ received reads
    → contains (capture limit (some path) reads).0.raw (marker token) ≡ true
    → let s = strip_marker (marker token) (spooled_result r limit path reads) spool_reads in
      (s.stderr_spool ≡ without (marker token) (received reads))
      × (s.result.stderr.raw ≡ take (limit - length (marker token)) s.stderr_spool)
      × (s.result.stderr.total_bytes ≡ length s.stderr_spool)
unfolding strip_marker
strip_marker-capture r limit token path reads spool_reads same inside =
    let m = marker token in
    let (raw, total, _, spooled) = capture-received limit (some path) reads in
    let spool : remove_marker_from_file m (capture limit (some path) reads).1 spool_reads
        ≡ without m (received reads) =
      rw (spooled, ← same) (remove_marker_from_file-received m spool_reads (length-marker token)) in
    let (raw', total') =
      remove_once-without limit m (received reads) (capture limit (some path) reads).0 raw total
        inside in
    rw (spool_path-capture limit (some path) reads, spool) (refl, raw', total')
