-- ===== src/Completion/Common.antt =====
-- The longest common beginning that `completion_try` looks for (src/completion.c).
use zile.Prelude.{
  ℕ, zero, suc, ◌+◌, ◌%◌, ◌≤◌, ◌<◌, ◌≡◌, List, [], ◌∷◌, some, Bool, true, false, ◌==◌, length, take,
  arith, ◌⊎◌,
}
use zile.Memmem.{is_prefix}
use zile.History.{streq}
use zile.Completion.{Completion, char_at, agree}
use zile.Astr.{size_mod}
use zile.Completion.Columns.{remainder, calculate_max_length}

-- No byte of the string is the NUL that ends it.
unfoldable pub nul_free : List ℕ → Bool
nul_free [] = true
nul_free (zero ∷ s) = false
nul_free (suc c ∷ s) = nul_free s

-- The first `j` bytes of `s` begin `x`, and byte `j` is there in both; where it is the same, `x` is
-- `s` if `s` ends there, and begins with one byte more of `s` if not.
abbrev Probed : List ℕ → List ℕ → ℕ → Type 0
Probed s x j =
    (c : ℕ) × (c' : ℕ) × (char_at s j ≡ some c)
    × (char_at x j ≡ some c')
    × ((c' == c) ≡ true
        → (length s ≤ j → streq s x ≡ true) × (j < length s → is_prefix (take (suc j) s) x ≡ true))

-- `t` begins every one of the strings, in which no byte is NUL.
abbrev pub Begins : List (List ℕ) → List ℕ → Type 0
Begins [] t = Unit {0}
Begins (x ∷ ss) t = (nul_free x ≡ true) × (is_prefix t x ≡ true) × Begins ss t

-- Every one of the strings is `s`.
abbrev pub Same : List ℕ → List (List ℕ) → Type 0
Same s [] = Unit {0}
Same s (x ∷ ss) = (streq s x ≡ true) × Same s ss

abbrev Agreement : List ℕ → List (List ℕ) → ℕ → ℕ → Type 0
Agreement s ss c j =
    (agree ss c j ≡ some false)
    ⊎ ((agree ss c j ≡ some true)
        × (length s ≤ j → Same s ss)
        × (j < length s → Begins ss (take (suc j) s)))

-- `k` bytes of `s` begin all the strings, and byte `k` is not the same in all of them.
abbrev pub Longest : List ℕ → List (List ℕ) → ℕ → Type 0
Longest s ss k =
    Begins ss (take k s) × ((c : ℕ) × (char_at s k ≡ some c) × (agree ss c k ≡ some false))

pub remainder-some : (a b : ℕ) → 0 < b → remainder a b ≡ some (a % b)
unfolding remainder
remainder-some a b pos = ground arith

-- The longest completion and five blanks fit into the window, whose last column stays empty.
abbrev pub Fit : ℕ → List (List ℕ) → Type 0
Fit ewidth l = (calculate_max_length l + 5 < ewidth) × (ewidth < size_mod)
