-- ===== src/Commands/Encoded/Recovered.antt =====
-- What a caller gets back from encoded bytes.
use remote_ssh_mcp_server.Prelude.Lists.{length, take, drop, All}
use remote_ssh_mcp_server.Prelude.Text.{Text, codes, text_eq}
use remote_ssh_mcp_server.Prelude.Chars.{encode}
use remote_ssh_mcp_server.Prelude.Encoding.{utf8_decode}
use remote_ssh_mcp_server.Prelude.Encoding.Utf8.{utf8_decode-encode}
use remote_ssh_mcp_server.Prelude.Encoding.Base64.{b64decode, b64decode-b64encode}
use remote_ssh_mcp_server.Prelude.{
  ℕ, zero, suc, ◌<◌, ◌≡◌, ◌↔◌, ap, sym, ◌∙◌, subst, inl, inr, true, Option, List, [], ◌∷◌,
  Option-cases, if◌then◌else◌,
}
use remote_ssh_mcp_server.Commands.Capture.{capture}
use remote_ssh_mcp_server.Commands.Capture.Bounded.{received, capture-received, spool_path-capture}
use remote_ssh_mcp_server.Commands.Encoded.{EncodedData, encoded_bytes, stream_dict}

-- Every number is that of a byte.
abbrev pub AreBytes : Text → Type 0
AreBytes raw = All (λ c. c < 256) raw

-- The bytes that a caller reads from the text by its encoding.
unfoldable pub decoded : EncodedData → Text
unfolding text_eq encode b64decode
decoded e =
    if text_eq e.encoding (codes "base64") then b64decode e.data_text else encode e.data_text

pub decoded-encoded_bytes : (raw : Text) → AreBytes raw → decoded (encoded_bytes raw) ≡ raw
unfolding decoded encoded_bytes text_eq
decoded-encoded_bytes raw h = elim (Option-cases (utf8_decode raw)) [
  | inl broken ↦ rw (broken, encoded_bytes, decoded) (b64decode-b64encode raw h)
  | inr (text, strict) ↦ rw (strict, encoded_bytes, decoded) (utf8_decode-encode raw text strict)
]

pub AreBytes-take : (n : ℕ) (raw : Text) → AreBytes raw → AreBytes (take n raw)
AreBytes-take zero raw h = tt
AreBytes-take (suc n) [] h = tt
AreBytes-take (suc n) (c ∷ raw) h = (h.0, AreBytes-take n raw h.1)

pub AreBytes-drop : (n : ℕ) (raw : Text) → AreBytes raw → AreBytes (drop n raw)
AreBytes-drop zero raw h = h
AreBytes-drop (suc n) [] h = tt
AreBytes-drop (suc n) (c ∷ raw) h = AreBytes-drop n raw h.1

-- What a caller is told of the stream of a command: the text that it gets, read by its encoding, is the
-- first `limit` bytes of the stream, be they UTF-8 or not, and however the stream was cut into reads;
-- `captured_bytes` is their number and `total_bytes` that of the whole stream, and `truncated` says
-- exactly whether bytes are missing.
pub stream_dict-capture :
    (limit : ℕ) (path : Option Text) (reads : List Text)
    → AreBytes (received reads)
    → let d = stream_dict (capture limit path reads).0 in
      (decoded d.encoded ≡ take limit (received reads))
      × (d.captured_bytes ≡ length (take limit (received reads)))
      × (d.total_bytes ≡ length (received reads))
      × ((d.truncated ≡ true) ↔ (limit < length (received reads)))
      × (d.spool_path ≡ path)
unfolding stream_dict
stream_dict-capture limit path reads h =
    let (raw, total, cut, spooled) = capture-received limit path reads in
    (
      decoded-encoded_bytes (capture limit path reads).0.raw
            (subst AreBytes (sym raw) (AreBytes-take limit (received reads) h))
          ∙ raw,
      ap length raw,
      total,
      cut,
      spool_path-capture limit path reads,
    )
