-- ===== src/Payload/Reader/Within.antt =====
-- How much a bounded reader takes.
use remote_ssh_mcp_server.Prelude.Int.{ℤ, pos, negsuc}
use remote_ssh_mcp_server.Prelude.Lists.{
  length, take, drop, length-take, length-drop, length-append, take-append-drop,
}
use remote_ssh_mcp_server.Prelude.Text.{Text}
use remote_ssh_mcp_server.Prelude.{
  suc, ◌+◌, ◌-◌, ◌≤◌, ◌≡◌, refl, sym, ap, ◌∙◌, inl, inr, none, some, List, [], ◌∷◌, ◌++◌,
  append_assoc, Option-cases, arith,
}
use remote_ssh_mcp_server.Payload.Reader.{BoundedReader, request, read, read_all}

request-le : (size : ℤ) (r : BoundedReader) → request size r ≤ suc (r.maximum - r.count)
unfolding request
request-le (pos n) r = omega arith
request-le (negsuc n) r = omega arith

read-after :
    (size : ℤ) (r : BoundedReader)
    → (read size r).1 ≡ record r {
      stream = drop (request size r) r.stream;
      count = r.count + length (take (request size r) r.stream);
    }
unfolding read
read-after size r = ground arith

read-some :
    (size : ℤ) (r : BoundedReader) (value : Text)
    → (read size r).0 ≡ some value
    → (take (request size r) r.stream ≡ value) × (r.count + length value ≤ r.maximum)
unfolding read
read-some size r value h =
    let same : take (request size r) r.stream ≡ value = ground arith in
    (same, ground (arith, ap length same))

-- What reads have given and what they have taken of the stream.
pub record IsWithin (r : BoundedReader) (given : Text) (after : BoundedReader) : Type 0 where
  pub rest : Text
  pub prefix : r.stream ≡ given ++ rest
  pub bounded : r.count + length given ≤ r.maximum
  pub taken : length r.stream ≤ length after.stream + suc (r.maximum - r.count)

read_all-none :
    (size : ℤ) (sizes : List ℤ) (r : BoundedReader)
    → (read size r).0 ≡ none
    → read_all (size ∷ sizes) r ≡ ([], (read size r).1)
unfolding read_all
read_all-none size sizes r e = rw (read_all, e)

read_all-some :
    (size : ℤ) (sizes : List ℤ) (r : BoundedReader) (value : Text)
    → (read size r).0 ≡ some value
    → read_all (size ∷ sizes) r
      ≡ (value ++ (read_all sizes (read size r).1).0, (read_all sizes (read size r).1).1)
unfolding read_all
read_all-some size sizes r value e = rw (read_all, e)

-- Whatever sizes are asked for, what the reads give is the beginning of the stream, never more than
-- the maximum, and at most one byte more is taken from the stream.
pub read_all-IsWithin :
    (sizes : List ℤ) (r : BoundedReader)
    → r.count ≤ r.maximum
    → IsWithin r (read_all sizes r).0 (read_all sizes r).1
read_all-IsWithin [] r h =
    unfold read_all in
    record { rest = r.stream; prefix = refl; bounded = omega arith; taken = omega arith }
read_all-IsWithin (size ∷ sizes) r h = elim (Option-cases (read size r).0) [
  | inl over ↦
      rw (read_all-none size sizes r over, read-after size r)
        (record {
          rest = r.stream;
          prefix = refl;
          bounded = omega arith;
          taken = omega (arith, length-drop (request size r) r.stream, request-le size r);
        })
  | inr (value, given) ↦
      let (same, fits) = read-some size r value given in
      let after = ap (λ (q : BoundedReader). q.count) (read-after size r) in
      let left = ap (λ (q : BoundedReader). q.stream) (read-after size r) in
      let top = ap (λ (q : BoundedReader). q.maximum) (read-after size r) in
      let within =
        read_all-IsWithin sizes (read size r).1 (omega (arith, after, top, ap length same)) in
      rw (read_all-some size sizes r value given) (record {
        rest = within.rest;
        prefix =
            sym (take-append-drop (request size r) r.stream)
            ∙ ap (λ v. v ++ drop (request size r) r.stream) same
            ∙ ap (◌++◌ value) (sym left ∙ within.prefix)
            ∙ sym (append_assoc value (read_all sizes (read size r).1).0 within.rest);
        bounded = omega (
          arith,
          within.bounded,
          after,
          top,
          ap length same,
          length-append value (read_all sizes (read size r).1).0,
        );
        taken = omega (
          arith,
          within.taken,
          after,
          top,
          ap length left,
          ap length same,
          length-drop (request size r) r.stream,
          length-take (request size r) r.stream,
        );
      })
]
