-- ===== src/Payload/Reader.antt =====
-- `_BoundedReader` of tools/container_payload.py. The stream is what it still holds; it gives what is
-- asked for, and less only at its end.
pub mod Within
use remote_ssh_mcp_server.Prelude.Int.{ℤ, pos, negsuc}
use remote_ssh_mcp_server.Prelude.Lists.{length, take, drop}
use remote_ssh_mcp_server.Prelude.Text.{Text}
use remote_ssh_mcp_server.Prelude.{
  ℕ, suc, ◌+◌, ◌-◌, min, Option, none, some, List, [], ◌∷◌, ◌++◌, ltb, if◌then◌else◌,
}

pub record BoundedReader : Type 0 where
  pub stream : Text
  pub maximum : ℕ
  pub count : ℕ

-- The size that `read` asks the stream for.
unfoldable pub request : ℤ → BoundedReader → ℕ
request (negsuc n) r = suc (r.maximum - r.count)
request (pos size) r = min size (suc (r.maximum - r.count))

-- `read`: a `PayloadError` leaves the count where it is, over the maximum.
unfoldable pub read : ℤ → BoundedReader → Option Text × BoundedReader
unfolding request
read size r =
    let value = take (request size r) r.stream in
    let r' = record r { stream = drop (request size r) r.stream; count = r.count + length value } in
    if ltb r.maximum r'.count then (none, r') else (some value, r')

-- Reads one after the other, up to the first that fails: what they have given, and the reader.
unfoldable pub read_all : List ℤ → BoundedReader → Text × BoundedReader
unfolding read
read_all [] r = ([], r)
read_all (size ∷ sizes) r =
    let rest = read_all sizes (read size r).1 in
    elim (read size r).0 [ none ↦ ([], (read size r).1) | some value ↦ (value ++ rest.0, rest.1) ]
