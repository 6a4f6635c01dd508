-- ===== src/Prelude/Split.antt =====
-- Laws of `split_on`, and texts without white space.
use remote_ssh_mcp_server.Prelude.Lists.{all}
use remote_ssh_mcp_server.Prelude.Text.{Text, has_char, split_on, prepend}
use remote_ssh_mcp_server.Prelude.Chars.{is_space, lstrip, rstrip, strip, push}
use remote_ssh_mcp_server.Prelude.{◌≡◌, refl, ap, ◌∙◌, ℕ, true, false, not, [], ◌∷◌, ◌++◌, arith}

-- A text without the separator is one part.
pub split_on-single : (sep : ℕ) (t : Text) → has_char sep t ≡ false → split_on sep t ≡ t ∷ []
unfolding split_on has_char prepend
split_on-single sep [] h = refl
split_on-single sep (c ∷ t) h = rw (split_on-single sep t (ground arith)) (ground arith)

-- A part ends at the first separator.
pub split_on-append :
    (sep : ℕ) (t u : Text)
    → has_char sep t ≡ false
    → split_on sep (t ++ (sep ∷ u)) ≡ t ∷ split_on sep u
unfolding split_on has_char prepend
split_on-append sep [] u h = ground arith
split_on-append sep (c ∷ t) u h = rw (split_on-append sep t u (ground arith)) (ground arith)

push-no_space : (c : ℕ) (t : Text) → is_space c ≡ false → push c t ≡ c ∷ t
unfolding push
push-no_space c [] e = rw (push, e)
push-no_space c (d ∷ t) e = refl

rstrip-no_space : (t : Text) → all (λ c. not (is_space c)) t ≡ true → rstrip t ≡ t
unfolding rstrip all
rstrip-no_space [] h = refl
rstrip-no_space (c ∷ t) h =
    ap (push c) (rstrip-no_space t (ground arith)) ∙ push-no_space c t (ground arith)

lstrip-no_space : (t : Text) → all (λ c. not (is_space c)) t ≡ true → lstrip t ≡ t
unfolding lstrip all
lstrip-no_space [] h = refl
lstrip-no_space (c ∷ t) h = ground arith

-- Stripping does nothing to a text without white space.
pub strip-no_space : (t : Text) → all (λ c. not (is_space c)) t ≡ true → strip t ≡ t
unfolding strip
strip-no_space t h = ap rstrip (lstrip-no_space t h) ∙ rstrip-no_space t h
