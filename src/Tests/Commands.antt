-- ===== src/Tests/Commands.antt =====
-- remote_ssh_mcp/commands.py at concrete inputs.
use remote_ssh_mcp_server.Prelude.Lists.{length, take}
use remote_ssh_mcp_server.Prelude.Text.{Text, codes, has_char}
use remote_ssh_mcp_server.Prelude.Chars.{encode, strip}
use remote_ssh_mcp_server.Prelude.{
  ◌<◌, ◌≡◌, ◌↔◌, refl, true, false, none, some, List, [], ◌∷◌, ◌++◌, arith,
}
use remote_ssh_mcp_server.Errors.{ok}
use remote_ssh_mcp_server.Commands.Capture.{capture}
use remote_ssh_mcp_server.Commands.Capture.Bounded.{received, capture-received}
use remote_ssh_mcp_server.Commands.Script.{
  validate_script, wire_payload, supervisor_receive, payload,
}
use remote_ssh_mcp_server.Commands.Script.Framing.{supervisor_receive-wire_payload}
use remote_ssh_mcp_server.Commands.Runner.{Runner, open_script}
use remote_ssh_mcp_server.Commands.Runner.Closing.{Event, opens, closes, run, step, run-closes}
use remote_ssh_mcp_server.Commands.Encoded.{stream_dict, encoded_bytes}
use remote_ssh_mcp_server.Commands.Encoded.Recovered.{decoded, stream_dict-capture}

abbrev reads : List Text
reads = codes "abc" ∷ codes "defg" ∷ [] ∷ []

capture-received_example :
    ((capture 5 (some (codes "spool")) reads).0.raw ≡ take 5 (received reads))
    × ((capture 5 (some (codes "spool")) reads).0.total_bytes ≡ length (received reads))
    × (((capture 5 (some (codes "spool")) reads).0.truncated ≡ true)
        ↔ (5 < length (received reads)))
    × ((capture 5 (some (codes "spool")) reads).1 ≡ received reads)
capture-received_example = capture-received 5 (some (codes "spool")) reads

supervisor_receive-wire_payload_example :
    supervisor_receive (wire_payload (codes "echo hi") ++ codes "rest") ≡ payload (codes "echo hi")
supervisor_receive-wire_payload_example =
    supervisor_receive-wire_payload (codes "echo hi") (codes "rest")

abbrev idle : Runner
idle = record { closed = false; processes = [] }

-- One script starts as process 7 and runs on.
abbrev one_script : List Event
one_script = opens 1000 (codes "sleep 9") none (ok tt) 7 ∷ []

run-closes_example :
    let e =
      run (closes ∷ opens 1000 (codes "ls") none (ok tt) 8 ∷ []) (run one_script idle).runner in
    (has_char 7 e.terminated ≡ true) × (e.started ≡ []) × (e.runner.closed ≡ true)
unfolding run step open_script has_char encode validate_script strip
run-closes_example =
    run-closes 7 one_script (opens 1000 (codes "ls") none (ok tt) 8 ∷ []) idle refl (tt, tt) refl

-- Output that is not UTF-8, in two reads: 255, a comma and a character of two bytes.
abbrev binary : List Text
binary = (0xff ∷ []) ∷ (44 ∷ 0xc3 ∷ 0xa9 ∷ []) ∷ []

stream_dict-capture_example :
    let d = stream_dict (capture 3 none binary).0 in
    (decoded d.encoded ≡ take 3 (received binary))
    × (d.captured_bytes ≡ length (take 3 (received binary)))
    × (d.total_bytes ≡ length (received binary))
    × ((d.truncated ≡ true) ↔ (3 < length (received binary)))
    × (d.spool_path ≡ none)
unfolding received
stream_dict-capture_example = stream_dict-capture 3 none binary (omega arith)

-- The bytes of 255, comma and the first half of that character, in base 64.
binary_data :
    (stream_dict (capture 3 none binary).0).encoded
    ≡ record { data_text = codes "/yzD"; encoding = codes "base64" }
unfolding stream_dict capture encoded_bytes
binary_data = refl
