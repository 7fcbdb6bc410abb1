-- ===== src/Search/Case.antt =====
-- When a search folds case (no_upper of src/search.c).
use zile.Prelude.{
  ℕ, ◌≡◌, refl, List, [], ◌∷◌, ◌++◌, Bool, true, false, ◌==◌, leb, ◌&&◌, not, Bool-cases, inl, inr,
}
use zile.Search.{no_upper, no_upper_loop}

-- No byte is a capital letter.
abbrev pub has_no_capital : List ℕ → Bool
has_no_capital [] = true
has_no_capital (c ∷ s) = not (leb 65 c && leb c 90) && has_no_capital s

abbrev pub NoBackslash : List ℕ → Type 0
NoBackslash [] = Unit {0}
NoBackslash (c ∷ s) = ((c == 92) ≡ false) × NoBackslash s

quoted-NoBackslash : (s : List ℕ) → NoBackslash s → no_upper_loop true true s ≡ true
unfolding no_upper_loop
quoted-NoBackslash [] h = refl
quoted-NoBackslash (c ∷ s) (h, hs) = rw h (quoted-NoBackslash s hs)

escaped-loop :
    (t s : List ℕ)
    → NoBackslash t
    → NoBackslash s
    → no_upper_loop true false (t ++ (92 ∷ s)) ≡ has_no_capital t
unfolding no_upper_loop
escaped-loop [] s ht h = quoted-NoBackslash s h
escaped-loop (c ∷ t) s (p, ht) h = elim (Bool-cases (leb 65 c && leb c 90)) [
  | inl q ↦ rw (p, q) refl
  | inr q ↦ rw (p, q) (escaped-loop t s ht h)
]

-- In a regular expression with one backslash only the capitals before it count: not just the
-- escaped byte is passed over, but all that follows.
pub no_upper_escaped :
    (t s : List ℕ)
    → NoBackslash t
    → NoBackslash s
    → no_upper (t ++ (92 ∷ s)) true ≡ has_no_capital t
unfolding no_upper
no_upper_escaped t s ht h = escaped-loop t s ht h
