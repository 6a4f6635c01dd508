-- ===== src/Prelude/Search.antt =====
-- Laws of `find?`: where a first occurrence stays when text is put behind it.
use mathlib.Core.Option
use remote_ssh_mcp_server.Prelude.Lists.{length, length-append}
use remote_ssh_mcp_server.Prelude.Text.{Text, starts_with, find?}
use remote_ssh_mcp_server.Prelude.{
  ℕ, zero, suc, ◌+◌, ◌≤◌, ◌≡◌, refl, ap, inl, inr, true, false, Option, none, some, [], ◌∷◌, ◌++◌,
  ◌-◌, ◌∙◌, sym, append_assoc, Bool-cases, arith,
}

-- A prefix test looks no further than the prefix is long.
starts_with-append : (t u p : Text) → length p ≤ length t → starts_with (t ++ u) p ≡ starts_with t p
unfolding starts_with
starts_with-append t u [] h = refl
starts_with-append [] u (p ∷ ps) h = absurd (omega arith)
starts_with-append (c ∷ t) u (p ∷ ps) h = ground (arith, starts_with-append t u ps)

starts_with-length : (t p : Text) → starts_with t p ≡ true → length p ≤ length t
unfolding starts_with
starts_with-length t [] h = omega arith
starts_with-length [] (p ∷ ps) h = absurd (cc)
starts_with-length (c ∷ t) (p ∷ ps) h = ground (arith, starts_with-length t ps)

-- The first occurrence in `c ∷ t` is at the front or is the first one in `t`.
find?-front : (c : ℕ) (t m : Text) → starts_with (c ∷ t) m ≡ true → find? (c ∷ t) m ≡ some 0
unfolding find?
find?-front c t m h = rw h

find?-later :
    (c : ℕ) (t m : Text)
    → starts_with (c ∷ t) m ≡ false
    → find? (c ∷ t) m ≡ Option.map suc (find? t m)
unfolding find?
find?-later c t m h = rw h

-- An occurrence lies within the text.
pub find?-le : (t m : Text) (i : ℕ) → find? t m ≡ some i → i + length m ≤ length t
find?-le [] m i h = nil_case m i h
  where
    nil_case : (m : Text) (i : ℕ) → find? [] m ≡ some i → i + length m ≤ 0
    nil_case [] i h = unfold find? in ground arith
    nil_case (p ∷ ps) i h = unfold find? in ground arith
find?-le (c ∷ t) m zero h = elim (Bool-cases (starts_with (c ∷ t) m)) [
  | inl front ↦ omega (arith, starts_with-length (c ∷ t) m front)
  | inr later ↦ ground (arith, find?-later c t m later)
]
find?-le (c ∷ t) m (suc j) h = elim (Bool-cases (starts_with (c ∷ t) m)) [
  | inl front ↦ ground (arith, find?-front c t m front)
  | inr later ↦ ground (arith, find?-later c t m later, find?-le t m j)
]

-- More text behind does not move the first occurrence.
pub find?-append_some : (t u m : Text) (i : ℕ) → find? t m ≡ some i → find? (t ++ u) m ≡ some i
find?-append_some [] u [] i h = empty u i h
  where
    empty : (u : Text) (i : ℕ) → find? [] [] ≡ some i → find? u [] ≡ some i
    empty [] i h = h
    empty (x ∷ u) i h = unfold find? in ground arith
find?-append_some [] u (p ∷ ps) i h = absurd (unfold find? in cc)
find?-append_some (c ∷ t) u m i h = elim (Bool-cases (starts_with (c ∷ t) m)) [
  | inl front ↦
      find?-front c (t ++ u) m
        (starts_with-append (c ∷ t) u m (starts_with-length (c ∷ t) m front) ∙ front)
      ∙ sym (find?-front c t m front)
      ∙ h
  | inr later ↦ ground (
    arith,
    find?-later c t m later,
    find?-later c (t ++ u) m
        (starts_with-append (c ∷ t) u m (omega (arith, find?-le (c ∷ t) m i h)) ∙ later),
    find?-append_some t u m (i - 1),
  )
]

-- Where a text is at least as long as `m` and holds no `m`, it hides no start of a later one:
-- the search goes on behind `t`.
pub find?-append_none :
    (t u v m : Text)
    → length m ≤ length u
    → find? (t ++ u) m ≡ none
    → find? (t ++ (u ++ v)) m ≡ Option.map (λ i. length t + i) (find? (u ++ v) m)
find?-append_none [] u v m long h = map-zero_add (find? (u ++ v) m)
  where
    map-zero_add : (o : Option ℕ) → o ≡ Option.map (λ i. 0 + i) o
    map-zero_add none = refl
    map-zero_add (some i) = ap some (omega arith)
find?-append_none (c ∷ t) u v m long h = elim (Bool-cases (starts_with (c ∷ (t ++ u)) m)) [
  | inl front ↦ absurd (cc (find?-front c (t ++ u) m front))
  | inr later ↦
      find?-later c (t ++ (u ++ v)) m (
        ap (λ w. starts_with (c ∷ w) m) (sym (append_assoc t u v))
        ∙ starts_with-append (c ∷ (t ++ u)) v m (omega (arith, length-append t u))
        ∙ later)
      ∙ ap (Option.map suc)
          (find?-append_none t u v m long (ground (arith, find?-later c (t ++ u) m later)))
      ∙ map-suc (find? (u ++ v) m)
]
  where
    map-suc :
        (o : Option ℕ)
        → Option.map suc (Option.map (λ i. length t + i) o) ≡ Option.map (λ i. suc (length t) + i) o
    map-suc none = refl
    map-suc (some i) = ap some (omega arith)
