-- ===== src/Prelude/Encoding/Utf8.antt =====
-- What is decoded from UTF-8 is encoded as the same bytes.
use Prim.Native.Nat.{◌/◌, ◌%◌}
use remote_ssh_mcp_server.Prelude.Text.{Text}
use remote_ssh_mcp_server.Prelude.Fallible.{>>=-some, some-inj}
use remote_ssh_mcp_server.Prelude.Chars.{utf8_char, encode}
use remote_ssh_mcp_server.Prelude.{
  ℕ, ◌+◌, ◌*◌, ◌≤◌, ◌<◌, ◌≡◌, refl, sym, ap, ◌∙◌, subst, if-cases, ◌&&◌, Bool, true, false, Option,
  some, [], ◌∷◌, ◌++◌, append_assoc, append-nil, ltb, leb, arith,
}
use remote_ssh_mcp_server.Prelude.Encoding.{
  Progress, between_characters, one_of_two, one_of_three, two_of_three, one_of_four, two_of_four,
  three_of_four, continuation, first_byte, complete_character, is_of_three, is_of_four, next_byte,
  end_of, decode_bytes, utf8_decode,
}

-- The bytes of a character that have been read.
bytes_of : Progress → Text
bytes_of between_characters = []
bytes_of (one_of_two c) = (0xc0 + c) ∷ []
bytes_of (one_of_three c) = (0xe0 + c) ∷ []
bytes_of (two_of_three c) = (0xe0 + c / 64) ∷ (0x80 + c % 64) ∷ []
bytes_of (one_of_four c) = (0xf0 + c) ∷ []
bytes_of (two_of_four c) = (0xf0 + c / 64) ∷ (0x80 + c % 64) ∷ []
bytes_of (three_of_four c) = (0xf0 + c / 4096) ∷ (0x80 + c / 64 % 64) ∷ (0x80 + c % 64) ∷ []

-- The bits fit.
abbrev Fits : Progress → Type 0
Fits between_characters = Unit
Fits (one_of_two c) = (2 ≤ c) × (c < 32)
Fits (one_of_three c) = c < 16
Fits (two_of_three c) = c < 1024
Fits (one_of_four c) = c < 5
Fits (two_of_four c) = c < 320
Fits (three_of_four c) = c < 20480

-- What a step keeps: no byte is lost or made up.
record IsStep (progress : Progress) (b : ℕ) (text : Text) (after : Progress) : Type 0 where
  fits : Fits after
  bytes : bytes_of progress ++ (b ∷ []) ≡ encode text ++ bytes_of after

step :
    {p : Progress} {b : ℕ} {t u : Text} {q r : Progress}
    → ◌≡◌ {A = Option (Text × Progress)} (some (t, q)) (some (u, r))
    → IsStep p b t q
    → IsStep p b u r
step {p} {b} e h = subst (λ pair. IsStep p b pair.0 pair.1) (some-inj e) h

continuation-bits : (b k : ℕ) → continuation b ≡ some k → (b ≡ 0x80 + k) × (k < 64)
unfolding continuation
continuation-bits b k h = (ground arith, ground arith)

first_byte-IsStep :
    (b : ℕ) (text : Text) (after : Progress)
    → first_byte b ≡ some (text, after)
    → IsStep between_characters b text after
unfolding first_byte bytes_of encode utf8_char
first_byte-IsStep b text after =
    if-cases (λ r. r ≡ some (text, after) → IsStep between_characters b text after) (ltb b 0x80)
      (λ ascii e. step e (record { fits = tt; bytes = rw ascii refl }))
      (λ _.
        if-cases (λ r. r ≡ some (text, after) → IsStep between_characters b text after)
          (leb 0xc2 b && ltb b 0xe0)
          (λ two e. step e (record {
            fits = (ground (arith, two), ground (arith, two));
            bytes = ap (λ n. n ∷ []) (ground (arith, two));
          }))
          (λ _.
            if-cases (λ r. r ≡ some (text, after) → IsStep between_characters b text after)
              (leb 0xe0 b && ltb b 0xf0)
              (λ three e. step e (record {
                fits = ground (arith, three);
                bytes = ap (λ n. n ∷ []) (ground (arith, three));
              }))
              (λ _.
                if-cases (λ r. r ≡ some (text, after) → IsStep between_characters b text after)
                  (leb 0xf0 b && ltb b 0xf5)
                  (λ four e. step e (record {
                    fits = ground (arith, four);
                    bytes = ap (λ n. n ∷ []) (ground (arith, four));
                  }))
                  (λ _ e. absurd (cc)))))

complete_character-IsStep :
    (p : Progress) (b c : ℕ) (allowed : Bool) (text : Text) (after : Progress)
    → (allowed ≡ true → bytes_of p ++ (b ∷ []) ≡ utf8_char c)
    → complete_character allowed c ≡ some (text, after)
    → IsStep p b text after
unfolding complete_character encode bytes_of
complete_character-IsStep p b c false text after same e = absurd (cc)
complete_character-IsStep p b c true text after same e = step e (record {
  fits = tt;
  bytes = same refl ∙ sym (append-nil (utf8_char c)) ∙ sym (append-nil (utf8_char c ++ []));
})

utf8_char-three :
    (n : ℕ)
    → 0x800 ≤ n
    → n < 0x10000
    → utf8_char n ≡ (0xe0 + n / 4096) ∷ (0x80 + n / 64 % 64) ∷ (0x80 + n % 64) ∷ []
unfolding utf8_char
utf8_char-three n low high = ground (arith, low, high)

utf8_char-four :
    (n : ℕ)
    → 0x10000 ≤ n
    → utf8_char n
      ≡ (0xf0 + n / 262144) ∷ (0x80 + n / 4096 % 64) ∷ (0x80 + n / 64 % 64) ∷ (0x80 + n % 64) ∷ []
unfolding utf8_char
utf8_char-four n low = ground (arith, low)

next_byte-IsStep :
    (p : Progress) (b : ℕ) (text : Text) (after : Progress)
    → Fits p
    → next_byte p b ≡ some (text, after)
    → IsStep p b text after
unfolding next_byte bytes_of encode
next_byte-IsStep between_characters b text after f h = first_byte-IsStep b text after h
next_byte-IsStep (one_of_two c) b text after f h =
    let (k, e, h1) = >>=-some (continuation b) _ _ h in
    let (byte, bits) = continuation-bits b k e in
    complete_character-IsStep (one_of_two c) b (c * 64 + k) true text after
      (λ _. unfold utf8_char in ground (arith, byte, bits, f.0, f.1)) h1
next_byte-IsStep (one_of_three c) b text after f h =
    let (k, e, h1) = >>=-some (continuation b) _ _ h in
    let (byte, bits) = continuation-bits b k e in
    let high : (c * 64 + k) / 64 ≡ c = omega (arith, bits) in
    let low : (c * 64 + k) % 64 ≡ k = omega (arith, bits) in
    step h1 (record { fits = omega (arith, bits, f); bytes = cc (high, low, byte) })
next_byte-IsStep (two_of_three c) b text after f h =
    let (k, e, h1) = >>=-some (continuation b) _ _ h in
    let (byte, bits) = continuation-bits b k e in
    complete_character-IsStep (two_of_three c) b (c * 64 + k) (is_of_three (c * 64 + k)) text after
      (λ allowed.
        let fits : 0x800 ≤ c * 64 + k = unfold is_of_three in ground (arith, allowed) in
        let top : (c * 64 + k) / 4096 ≡ c / 64 = omega (arith, bits) in
        let high : (c * 64 + k) / 64 % 64 ≡ c % 64 = omega (arith, bits) in
        let low : (c * 64 + k) % 64 ≡ k = omega (arith, bits) in
        let whole = utf8_char-three (c * 64 + k) fits (omega (arith, bits, f)) in
        cc (top, high, low, byte, whole))
      h1
next_byte-IsStep (one_of_four c) b text after f h =
    let (k, e, h1) = >>=-some (continuation b) _ _ h in
    let (byte, bits) = continuation-bits b k e in
    let high : (c * 64 + k) / 64 ≡ c = omega (arith, bits) in
    let low : (c * 64 + k) % 64 ≡ k = omega (arith, bits) in
    step h1 (record { fits = omega (arith, bits, f); bytes = cc (high, low, byte) })
next_byte-IsStep (two_of_four c) b text after f h =
    let (k, e, h1) = >>=-some (continuation b) _ _ h in
    let (byte, bits) = continuation-bits b k e in
    let top : (c * 64 + k) / 4096 ≡ c / 64 = omega (arith, bits) in
    let high : (c * 64 + k) / 64 % 64 ≡ c % 64 = omega (arith, bits) in
    let low : (c * 64 + k) % 64 ≡ k = omega (arith, bits) in
    step h1 (record { fits = omega (arith, bits, f); bytes = cc (top, high, low, byte) })
next_byte-IsStep (three_of_four c) b text after f h =
    let (k, e, h1) = >>=-some (continuation b) _ _ h in
    let (byte, bits) = continuation-bits b k e in
    complete_character-IsStep (three_of_four c) b (c * 64 + k) (is_of_four (c * 64 + k)) text after
      (λ allowed.
        let fits : 0x10000 ≤ c * 64 + k = unfold is_of_four in ground (arith, allowed) in
        let first : (c * 64 + k) / 262144 ≡ c / 4096 = omega (arith, bits) in
        let top : (c * 64 + k) / 4096 % 64 ≡ c / 64 % 64 = omega (arith, bits) in
        let high : (c * 64 + k) / 64 % 64 ≡ c % 64 = omega (arith, bits) in
        let low : (c * 64 + k) % 64 ≡ k = omega (arith, bits) in
        let whole = utf8_char-four (c * 64 + k) fits in cc (first, top, high, low, byte, whole))
      h1

encode-append : (s t : Text) → encode (s ++ t) ≡ encode s ++ encode t
unfolding encode
encode-append [] t = refl
encode-append (c ∷ s) t =
    ap (◌++◌ (utf8_char c)) (encode-append s t)
    ∙ sym (append_assoc (utf8_char c) (encode s) (encode t))

end_of-bytes : (p : Progress) (text : Text) → end_of p ≡ some text → bytes_of p ++ [] ≡ encode text
unfolding end_of bytes_of encode
end_of-bytes between_characters text h = ap encode (some-inj h)
end_of-bytes (one_of_two c) text h = absurd (cc)
end_of-bytes (one_of_three c) text h = absurd (cc)
end_of-bytes (two_of_three c) text h = absurd (cc)
end_of-bytes (one_of_four c) text h = absurd (cc)
end_of-bytes (two_of_four c) text h = absurd (cc)
end_of-bytes (three_of_four c) text h = absurd (cc)

decode_bytes-encode :
    (p : Progress) (raw text : Text)
    → Fits p
    → decode_bytes p raw ≡ some text
    → bytes_of p ++ raw ≡ encode text
unfolding decode_bytes
decode_bytes-encode p [] text f h = end_of-bytes p text h
decode_bytes-encode p (b ∷ raw) text f h =
    let ((t, after), e1, h1) = >>=-some (next_byte p b) _ text h in
    let (rest, e2, h2) = >>=-some (decode_bytes after raw) _ text h1 in
    let done = next_byte-IsStep p b t after f e1 in
    sym (append_assoc (bytes_of p) (b ∷ []) raw)
    ∙ ap (λ u. u ++ raw) done.bytes
    ∙ append_assoc (encode t) (bytes_of after) raw
    ∙ ap (◌++◌ (encode t)) (decode_bytes-encode after raw rest done.fits e2)
    ∙ sym (encode-append t rest)
    ∙ ap encode (some-inj h2)

-- A text that is decoded strictly is encoded as the bytes that it was read from.
pub utf8_decode-encode : (raw text : Text) → utf8_decode raw ≡ some text → encode text ≡ raw
unfolding utf8_decode
utf8_decode-encode raw text h =
    sym (unfold bytes_of in decode_bytes-encode between_characters raw text tt h)
