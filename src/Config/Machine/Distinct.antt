-- ===== src/Config/Machine/Distinct.antt =====
-- Different machines and different users have different namespaces.
use remote_ssh_mcp_server.Prelude.Lists.{length, take, drop, all}
use remote_ssh_mcp_server.Prelude.Text.{Text}
use remote_ssh_mcp_server.Prelude.Chars.{decimal, value}
use remote_ssh_mcp_server.Prelude.Chars.Decimal.{value-decimal}
use remote_ssh_mcp_server.Prelude.{
  ℕ, zero, suc, ◌+◌, ◌*◌, ◌<◌, ◌≡◌, refl, ap, sym, ◌∙◌, inl, inr, Bool, true, false, ◌&&◌, some, [],
  ◌∷◌, ◌++◌, ◌==◌, Bool-cases, ==_iff, arith,
}
use remote_ssh_mcp_server.Config.Machine.{
  is_hex_digit, hex_value, from_hex, valid_id, hmac_input, environment_key,
}

abbrev even : ℕ → Bool
even zero = true
even (suc zero) = false
even (suc (suc n)) = even n

hex_value_inj :
    (c d : ℕ) → is_hex_digit c ≡ true → is_hex_digit d ≡ true → hex_value c ≡ hex_value d → c ≡ d
hex_value_inj c d hc hd e = ground arith

hex_value-lt-16 : (c : ℕ) → is_hex_digit c ≡ true → hex_value c < 16
hex_value-lt-16 c h = ground arith

-- Two bytes behind which two texts of one length follow.
from_hex-append_inj :
    (s t u v : Text)
    → all is_hex_digit s ≡ true
    → all is_hex_digit t ≡ true
    → length s ≡ length t
    → even (length s) ≡ true
    → from_hex s ++ u ≡ from_hex t ++ v
    → (s ≡ t) × (u ≡ v)
unfolding from_hex all
from_hex-append_inj [] [] u v hs ht l n e = (refl, e)
from_hex-append_inj [] (d ∷ t) u v hs ht l n e = absurd (omega arith)
from_hex-append_inj (c ∷ s) [] u v hs ht l n e = absurd (omega arith)
from_hex-append_inj (c ∷ []) (d ∷ t) u v hs ht l n e = absurd (cc)
from_hex-append_inj (c ∷ c2 ∷ s) (d ∷ []) u v hs ht l n e = absurd (omega arith)
from_hex-append_inj (c ∷ c2 ∷ s) (d ∷ d2 ∷ t) u v hs ht l n e =
    let heads : hex_value c * 16 + hex_value c2 ≡ hex_value d * 16 + hex_value d2 = ground arith in
    let h1 = hex_value-lt-16 c2 (ground arith) in
    let h2 = hex_value-lt-16 d2 (ground arith) in
    let high : hex_value c ≡ hex_value d = omega arith in
    let low : hex_value c2 ≡ hex_value d2 = omega arith in
    let (rest, behind) =
      from_hex-append_inj s t u v (ground arith) (ground arith) (omega arith) n (ground arith) in
    (
      rw (
        hex_value_inj c d (ground arith) (ground arith) high,
        hex_value_inj c2 d2 (ground arith) (ground arith) low,
        rest,
      ),
      behind,
    )

environment_key-some :
    (hmac_hex : Text → Text) (id : Text) (uid : ℕ) (key : Text)
    → environment_key hmac_hex (some id) uid ≡ some key
    → (valid_id id ≡ true) × (hmac_hex (hmac_input id uid) ≡ key)
unfolding environment_key
environment_key-some hmac_hex id uid key h = elim (Bool-cases (valid_id id)) [
  | inl valid ↦ (valid, ground (arith, valid))
  | inr invalid ↦ absurd (ground (arith, invalid))
]

and_true : (a b : Bool) → (a && b) ≡ true → (a ≡ true) × (b ≡ true)
and_true true b h = (refl, h)
and_true false b h = absurd (cc)

valid_id-digits :
    (id : Text)
    → valid_id id ≡ true
    → (length (take 32 id) ≡ 32) × (all is_hex_digit (take 32 id) ≡ true)
unfolding valid_id
valid_id-digits id h =
    let (long, rest) = and_true (length (take 32 id) == 32) _ h in
    ((==_iff (length (take 32 id)) 32).0 long, (and_true (all is_hex_digit (take 32 id)) _ rest).0)

-- Two environments that have the same key are of one machine and one user, however the files end;
-- HMAC-SHA-256 is taken to tell its inputs apart.
pub environment_key-distinct :
    (hmac_hex : Text → Text) (id1 id2 : Text) (uid1 uid2 : ℕ) (key : Text)
    → ((s t : Text) → hmac_hex s ≡ hmac_hex t → s ≡ t)
    → environment_key hmac_hex (some id1) uid1 ≡ some key
    → environment_key hmac_hex (some id2) uid2 ≡ some key
    → (take 32 id1 ≡ take 32 id2) × (uid1 ≡ uid2)
unfolding hmac_input
environment_key-distinct hmac_hex id1 id2 uid1 uid2 key apart h1 h2 =
    let (v1, k1) = environment_key-some hmac_hex id1 uid1 key h1 in
    let (v2, k2) = environment_key-some hmac_hex id2 uid2 key h2 in
    let (long1, hex1) = valid_id-digits id1 v1 in
    let (long2, hex2) = valid_id-digits id2 v2 in
    let (ids, rest) =
      from_hex-append_inj (take 32 id1) (take 32 id2) (0 ∷ decimal uid1) (0 ∷ decimal uid2) hex1
        hex2 (long1 ∙ sym long2) (rw long1)
        (apart (hmac_input id1 uid1) (hmac_input id2 uid2) (k1 ∙ sym k2)) in
    let same : decimal uid1 ≡ decimal uid2 = ap (drop 1) rest in
    (ids, sym (value-decimal uid1) ∙ ap (value 0) same ∙ value-decimal uid2)
