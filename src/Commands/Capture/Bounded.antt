-- ===== src/Commands/Capture/Bounded.antt =====
-- What `_capture` returns, for every way in which the stream arrives in chunks.
use remote_ssh_mcp_server.Prelude.Lists.{length, take, is_nil, length-append, length-take, take-nil}
use remote_ssh_mcp_server.Prelude.Text.{Text}
use remote_ssh_mcp_server.Prelude.{
  ℕ, zero, suc, ◌-◌, ◌<◌, ◌≡◌, refl, sym, ap, ◌∙◌, ◌↔◌, Bool, true, false, Option, List, [], ◌∷◌,
  ◌++◌, append_assoc, append-nil, ltb, if◌then◌else◌, arith, Bool-cases, inl, inr,
}
use remote_ssh_mcp_server.Commands.Capture.{
  Capturing, capture_chunk, capture_loop, start, has_path, capture,
}

-- The bytes that a reader hands over before its end of file, which is an empty read.
unfoldable pub received : List Text → Text
received [] = []
received (chunk ∷ reads) = if is_nil chunk then [] else chunk ++ received reads

-- Cutting off at `limit` chunk by chunk is cutting off the whole at `limit`.
take-take_append :
    (limit : ℕ) (t u : Text)
    → take limit t ++ take (limit - length (take limit t)) u ≡ take limit (t ++ u)
take-take_append zero t u = refl
take-take_append (suc n) [] u = ap (λ k. take k u) {x = suc n - 0} {y = suc n} (omega arith)
take-take_append (suc n) (c ∷ t) u = ap (◌∷◌ c) (
    ap (λ k. take n t ++ take k u) {x = suc n - suc (length (take n t))} {y = n - length (take n t)}
      (omega arith)
    ∙ take-take_append n t u)

-- So the test for room changes nothing.
take-room :
    (limit : ℕ) (t u : Text)
    → (if ltb 0 (limit - length (take limit t))
        then take limit t ++ take (limit - length (take limit t)) u
        else take limit t)
      ≡ take limit (t ++ u)
take-room limit t u = elim (Bool-cases (ltb 0 (limit - length (take limit t)))) [
  | inl room ↦ rw room (take-take_append limit t u)
  | inr full ↦ rw full (
      sym (append-nil (take limit t))
      ∙ ap (λ k. take limit t ++ take k u) {x = 0} {y = limit - length (take limit t)}
          (ground (arith, full))
      ∙ take-take_append limit t u)
]

-- The loop's state after the bytes `t`.
record After (limit : ℕ) (has_spool : Bool) (t : Text) (c : Capturing) : Type 0 where
  captured : c.captured ≡ take limit t
  total : c.total ≡ length t
  spooled : c.spooled ≡ (if has_spool then t else [])

capture_chunk-After :
    (limit : ℕ) (has_spool : Bool) (t chunk : Text) (c : Capturing)
    → After limit has_spool t c
    → After limit has_spool (t ++ chunk) (capture_chunk limit has_spool c chunk)
unfolding capture_chunk
capture_chunk-After limit true t chunk c a = record {
  captured = rw a.captured (take-room limit t chunk);
  total = omega (arith, a.total, length-append t chunk);
  spooled = rw a.spooled;
}
capture_chunk-After limit false t chunk c a = record {
  captured = rw a.captured (take-room limit t chunk);
  total = omega (arith, a.total, length-append t chunk);
  spooled = a.spooled;
}

capture_loop-After :
    (limit : ℕ) (has_spool : Bool) (t : Text) (c : Capturing) (reads : List Text)
    → After limit has_spool t c
    → After limit has_spool (t ++ received reads) (capture_loop limit has_spool c reads)
unfolding capture_loop received
capture_loop-After limit has_spool t c [] a = rw append-nil a
capture_loop-After limit has_spool t c ([] ∷ reads) a = rw append-nil a
capture_loop-After limit has_spool t c ((x ∷ chunk) ∷ reads) a =
    rw (← append_assoc t (x ∷ chunk) (received reads)) (
      capture_loop-After limit has_spool (t ++ x ∷ chunk) _ reads
        (capture_chunk-After limit has_spool t (x ∷ chunk) c a))

start-After : (limit : ℕ) (has_spool : Bool) → After limit has_spool [] start
start-After limit true = record { captured = sym (take-nil limit); total = refl; spooled = refl }
start-After limit false = record { captured = sym (take-nil limit); total = refl; spooled = refl }

-- However the stream is cut into reads, the capture is its first `limit` bytes, the count is that
-- of all its bytes, `truncated` says exactly whether bytes are missing, and the spool file, where
-- one is asked for, holds the whole stream.
pub capture-received :
    (limit : ℕ) (path : Option Text) (reads : List Text)
    → let (s, spool) = capture limit path reads in
      (s.raw ≡ take limit (received reads))
      × (s.total_bytes ≡ length (received reads))
      × ((s.truncated ≡ true) ↔ (limit < length (received reads)))
      × (spool ≡ (if has_path path then received reads else []))
unfolding capture
capture-received limit path reads =
    let a =
      capture_loop-After limit (has_path path) [] start reads (start-After limit (has_path path)) in
    (
      a.captured,
      a.total,
      ground (arith, a.captured, a.total, length-take limit (received reads)),
      a.spooled,
    )

pub spool_path-capture :
    (limit : ℕ) (path : Option Text) (reads : List Text)
    → (capture limit path reads).0.spool_path ≡ path
unfolding capture
spool_path-capture limit path reads = refl
