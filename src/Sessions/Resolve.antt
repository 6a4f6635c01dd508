-- ===== src/Sessions/Resolve.antt =====
-- `resolve_server_identity` of remote_ssh_mcp/sessions.py. `decode` is `bytes.decode` with replacement.
use remote_ssh_mcp_server.Prelude.Int.{ℤ, is_status}
use remote_ssh_mcp_server.Prelude.Lists.{length, is_nil}
use remote_ssh_mcp_server.Prelude.Text.{Text}
use remote_ssh_mcp_server.Prelude.{
  ℕ, Option-cases, ◌≤◌, ◌≡◌, ap, sym, ◌∙◌, inl, inr, Bool, true, false, not, Option, none, some,
  List, [], ◌∷◌, ◌++◌, append_assoc, append-nil, ltb, if◌then◌else◌, Bool-cases, arith,
}
use remote_ssh_mcp_server.Errors.{remote, Result, ok, err, connection_start_failed}
use remote_ssh_mcp_server.Commands.Capture.Bounded.{received}
use remote_ssh_mcp_server.Sessions.Identity.{ServerIdentity, parse_server_identity}

abbrev pub resolve_output_bytes : ℕ
resolve_output_bytes = 1_048_576

-- The loop over the reads: none when the output is too long.
unfoldable pub collect : ℕ → Text → List Text → Option Text
collect limit output [] = some output
collect limit output (chunk ∷ reads) =
    let rest = collect limit (output ++ chunk) reads in
    if is_nil chunk
    then some output
    else if ltb limit (length (output ++ chunk))
    then none
    else rest

-- What the process and the time limit do.
pub record Resolving : Type 0 where
  pub spawned : Bool
  pub reads : List Text
  pub timed_out : Bool
  pub returncode : ℤ

-- `resolve_server_identity`
unfoldable pub resolve_server_identity : (Text → Text) → Resolving → Result ServerIdentity
unfolding collect parse_server_identity
resolve_server_identity decode p =
    if not p.spawned
    then err (remote connection_start_failed)
    else elim (collect resolve_output_bytes [] p.reads) [
      | none ↦ err (remote connection_start_failed)
      | some output ↦
          if p.timed_out
          then err (remote connection_start_failed)
          else if not (is_status 0 p.returncode)
          then err (remote connection_start_failed)
          else parse_server_identity (decode output)
    ]

-- Output that is kept is all that has been read, and within the limit.
collect-received :
    (limit : ℕ) (output : Text) (reads : List Text) (whole : Text)
    → length output ≤ limit
    → collect limit output reads ≡ some whole
    → (whole ≡ output ++ received reads) × (length whole ≤ limit)
unfolding collect received
collect-received limit output [] whole h e =
    let same : output ≡ whole = ground arith in
    (sym same ∙ sym (append-nil output), omega (arith, ap length same))
collect-received limit output (chunk ∷ reads) whole h e = elim (Bool-cases (is_nil chunk)) [
  | inl last ↦
      let same : output ≡ whole = ground arith in
      (
        sym same ∙ sym (append-nil output) ∙ ap (output ++◌) (rw last),
        omega (arith, ap length same),
      )
  | inr more ↦ elim (Bool-cases (ltb limit (length (output ++ chunk)))) [
    | inl long ↦ absurd (ground arith)
    | inr short ↦
        let (whole_is, bounded) =
          collect-received limit (output ++ chunk) reads whole (ground arith) (ground arith) in
        (whole_is ∙ append_assoc output chunk (received reads) ∙ ap (output ++◌) (rw more), bounded)
  ]
]

-- A server is known only from the whole output of an `ssh -G` that has ended with status 0 within the
-- time limit, and that output is at most `resolve_output_bytes` long.
pub resolve_server_identity-received :
    (decode : Text → Text) (p : Resolving) (server : ServerIdentity)
    → resolve_server_identity decode p ≡ ok server
    → (p.spawned ≡ true)
      × (p.timed_out ≡ false)
      × (is_status 0 p.returncode ≡ true)
      × (length (received p.reads) ≤ resolve_output_bytes)
      × (parse_server_identity (decode (received p.reads)) ≡ ok server)
unfolding resolve_server_identity
resolve_server_identity-received decode p server h = elim (Bool-cases p.spawned) [
  | inr failed ↦ absurd (ground (arith, failed))
  | inl running ↦ elim (Option-cases (collect resolve_output_bytes [] p.reads)) [
    | inl long ↦ absurd (ground (arith, running, long))
    | inr (output, kept) ↦
        let (whole, bounded) =
          collect-received resolve_output_bytes [] p.reads output (omega arith) kept in
        (
          running,
          ground (arith, running, kept),
          ground (arith, running, kept),
          omega (arith, bounded, ap length whole),
          ap (λ t. parse_server_identity (decode t)) (sym whole) ∙ ground (arith, running, kept),
        )
  ]
]
