-- ===== src/Tests/Checksums.antt =====
-- tools/checksums.py at concrete inputs.
use remote_ssh_mcp_server.Prelude.Text.{Text, codes, text_eq, mem_text}
use remote_ssh_mcp_server.Prelude.{◌≡◌, refl, some, [], ◌∷◌, ◌++◌}
use remote_ssh_mcp_server.Checksums.{Files, sums, is_sha256, write, verify}
use remote_ssh_mcp_server.Checksums.RoundTrip.{verify-write}

abbrev digest_of : Text → Text
digest_of bytes = codes "00112233445566778899aabbccddeeff00112233445566778899aabbccddeeff"

abbrev built : Files
built =
    (codes "remote-ssh-mcp-linux-arm64", codes "arm")
    ∷ (codes "remote-ssh-mcp-linux-amd64", codes "amd")
    ∷ []

abbrev released : Files
released =
    built
    ++ ((
      sums,
      codes
            "00112233445566778899aabbccddeeff00112233445566778899aabbccddeeff  remote-ssh-mcp-linux-amd64\n"
          ++ codes
              "00112233445566778899aabbccddeeff00112233445566778899aabbccddeeff  remote-ssh-mcp-linux-arm64\n",
    )
        ∷ [])

verify-write_example : verify digest_of released ≡ some tt
unfolding write is_sha256 mem_text text_eq
verify-write_example = verify-write digest_of built released (λ bytes. refl) refl
