-- ===== src/Transfers/Progress/Tail.antt =====
-- The tails that are kept.
use remote_ssh_mcp_server.Prelude.Lists.{
  length, drop, length-append, length-drop, drop-append, drop-nil,
}
use remote_ssh_mcp_server.Prelude.Text.{Text}
use remote_ssh_mcp_server.Prelude.{
  ℕ, zero, suc, ◌+◌, ◌-◌, ◌≤◌, ◌≡◌, refl, sym, ap, ◌∙◌, Bool, List, [], ◌∷◌, ◌++◌, append_assoc,
  append-nil, ltb, arith, if-cases,
}
use remote_ssh_mcp_server.Commands.Capture.Bounded.{received}
use remote_ssh_mcp_server.Transfers.Progress.{
  keep_tail, Reading, read_chunk, read_loop, begin, rsync_tail_bytes, read_rsync_stream,
}

-- The last `limit` bytes.
unfoldable pub last_bytes : ℕ → Text → Text
last_bytes limit t = drop (length t - limit) t

keep_tail-last_bytes : (limit : ℕ) (t : Text) → keep_tail limit t ≡ last_bytes limit t
unfolding keep_tail last_bytes
keep_tail-last_bytes limit t =
    if-cases (λ w. w ≡ drop (length t - limit) t) (ltb limit (length t)) (λ _. refl)
      (λ short. ap (λ n. drop n t) {x = 0} {y = length t - limit} (ground (arith, short)))

drop-drop : (a b : ℕ) (t : Text) → drop a (drop b t) ≡ drop (b + a) t
drop-drop a zero t = ap (λ n. drop n t) {x = a} {y = 0 + a} (omega arith)
drop-drop zero (suc b) [] = sym (drop-nil (suc b + 0))
drop-drop (suc a) (suc b) [] = sym (drop-nil (suc b + suc a))
drop-drop a (suc b) (c ∷ t) =
    drop-drop a b t ∙ ap (λ n. drop n (c ∷ t)) {x = suc (b + a)} {y = suc b + a} (omega arith)

-- Cutting the tail of a tail is cutting the tail of the whole.
last_bytes-append :
    (limit : ℕ) (t u : Text)
    → last_bytes limit (last_bytes limit t ++ u) ≡ last_bytes limit (t ++ u)
unfolding last_bytes
last_bytes-append limit t u =
    let a = length t - limit in
    ap (λ w. drop (length (drop a t ++ u) - limit) w) (sym (drop-append a t u (omega arith)))
    ∙ drop-drop (length (drop a t ++ u) - limit) a (t ++ u)
    ∙ ap (λ n. drop n (t ++ u)) {x = a + (length (drop a t ++ u) - limit)}
        {y = length (t ++ u) - limit}
        (omega (arith, length-append t u, length-append (drop a t) u, length-drop a t))

read_chunk-tail :
    (limit : ℕ) (parse : Bool) (r : Reading) (t chunk : Text)
    → r.tail ≡ last_bytes limit t
    → (read_chunk limit parse r chunk).tail ≡ last_bytes limit (t ++ chunk)
unfolding read_chunk
read_chunk-tail limit parse r t chunk h =
    let e : keep_tail limit (r.tail ++ chunk) ≡ last_bytes limit (t ++ chunk) =
      rw h (keep_tail-last_bytes limit _ ∙ last_bytes-append limit t chunk) in
    ground (arith, e)

read_loop-tail :
    (limit : ℕ) (parse : Bool) (r : Reading) (t : Text) (reads : List Text)
    → r.tail ≡ last_bytes limit t
    → (read_loop limit parse r reads).tail ≡ last_bytes limit (t ++ received reads)
unfolding read_loop received
read_loop-tail limit parse r t [] h = rw append-nil h
read_loop-tail limit parse r t ([] ∷ reads) h = rw append-nil h
read_loop-tail limit parse r t ((c ∷ chunk) ∷ reads) h =
    rw (← append_assoc t (c ∷ chunk) (received reads)) (
      read_loop-tail limit parse (read_chunk limit parse r (c ∷ chunk)) (t ++ c ∷ chunk) reads
        (read_chunk-tail limit parse r t (c ∷ chunk) h))

-- However an rsync stream is cut into reads, the tail that is kept is its last 65536 bytes.
pub read_rsync_stream-tail :
    (parse : Bool) (reads : List Text)
    → ((read_rsync_stream parse reads).tail ≡ last_bytes rsync_tail_bytes (received reads))
      × (length (read_rsync_stream parse reads).tail ≤ rsync_tail_bytes)
unfolding read_rsync_stream last_bytes
read_rsync_stream-tail parse reads =
    let e = read_loop-tail rsync_tail_bytes parse begin [] reads refl in
    (
      e,
      rw e (
          omega (arith, length-drop (length (received reads) - rsync_tail_bytes) (received reads))),
    )
