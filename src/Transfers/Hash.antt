-- ===== src/Transfers/Hash.antt =====
-- `_sha256_file` of remote_ssh_mcp/transfers.py. `sha256_hex` is the `hexdigest` of hashlib.
use remote_ssh_mcp_server.Prelude.Lists.{is_nil}
use remote_ssh_mcp_server.Prelude.Text.{Text}
use remote_ssh_mcp_server.Prelude.{
  ◌≡◌, ap, sym, ◌∙◌, inl, inr, Bool, true, false, Option, none, some, List, [], ◌∷◌, ◌++◌,
  append_assoc, append-nil, if◌then◌else◌, Bool-cases,
}
use remote_ssh_mcp_server.Commands.Capture.Bounded.{received}

-- One round: whether the event is set before the read, and what is read.
pub record Round : Type 0 where
  pub cancelled : Bool
  pub chunk : Text

hash_loop : (Text → Text) → Text → List Round → Option Text
hash_loop sha256_hex taken [] = some (sha256_hex taken)
hash_loop sha256_hex taken (r ∷ rounds) =
    let rest = hash_loop sha256_hex (taken ++ r.chunk) rounds in
    if r.cancelled then none else if is_nil r.chunk then some (sha256_hex taken) else rest

-- `_sha256_file`: none for `_HashCancelled`
unfoldable pub sha256_file : (Text → Text) → List Round → Option Text
unfolding hash_loop
sha256_file sha256_hex rounds = hash_loop sha256_hex [] rounds

-- The chunks that are read.
abbrev pub chunks : List Round → List Text
chunks [] = []
chunks (r ∷ rounds) = r.chunk ∷ chunks rounds

-- Whether the event is set in a round up to the end of the file.
abbrev pub is_cancelled : List Round → Bool
is_cancelled [] = false
is_cancelled (r ∷ rounds) =
    if r.cancelled then true else if is_nil r.chunk then false else is_cancelled rounds

hash_loop-received :
    (sha256_hex : Text → Text) (taken : Text) (rounds : List Round)
    → hash_loop sha256_hex taken rounds ≡ (
        if is_cancelled rounds then none else some (sha256_hex (taken ++ received (chunks rounds))))
unfolding hash_loop received
hash_loop-received sha256_hex taken [] = ap (λ t. some (sha256_hex t)) (sym (append-nil taken))
hash_loop-received sha256_hex taken (r ∷ rounds) = elim (Bool-cases r.cancelled) [
  | inl set ↦ rw (set, hash_loop)
  | inr clear ↦ elim (Bool-cases (is_nil r.chunk)) [
    | inl last ↦ rw (clear, last) (ap (λ t. some (sha256_hex t)) (sym (append-nil taken)))
    | inr more ↦
        rw (clear, more)
          (hash_loop-received sha256_hex (taken ++ r.chunk) rounds
            ∙ ap (λ t. if is_cancelled rounds then none else some (sha256_hex t))
                (append_assoc taken r.chunk (received (chunks rounds))))
  ]
]

-- The digest is that of the whole file, however it is read, unless the transfer is cancelled before
-- the end of the file has been seen: then there is none.
pub sha256_file-received :
    (sha256_hex : Text → Text) (rounds : List Round)
    → sha256_file sha256_hex rounds
      ≡ (if is_cancelled rounds then none else some (sha256_hex (received (chunks rounds))))
unfolding sha256_file
sha256_file-received sha256_hex rounds = hash_loop-received sha256_hex [] rounds
