-- ===== src/Completion/Columns.antt =====
-- The columns in which the completions are listed (src/completion.c). A division by zero is `none`.
use zile.Prelude.{
  ℕ, ◌+◌, ◌-◌, ◌/◌, ◌%◌, max, List, [], ◌∷◌, ◌++◌, Option, none, some, ◌==◌, length, replicate,
  codes, if◌then◌else◌, ◌>>=◌,
}
use zile.Astr.{size_mod}

unfoldable pub remainder : ℕ → ℕ → Option ℕ
remainder a b = if b == 0 then none else some (a % b)

unfoldable pub calculate_max_length : List (List ℕ) → ℕ
calculate_max_length [] = 0
calculate_max_length (s ∷ l) = max (length s) (calculate_max_length l)

-- The format `%-*s`.
unfoldable pub padded : ℕ → List ℕ → List ℕ
padded width s = s ++ replicate (width - length s) b' '

-- The loop over the completions; the column counts round `numcols`.
unfoldable pub write_columns : ℕ → ℕ → List (List ℕ) → ℕ → Option (List ℕ)
unfolding remainder padded
write_columns width numcols [] col = some []
write_columns width numcols (s ∷ l) col = do
  col' ← remainder (col + 1) numcols
  rest ← write_columns width numcols l col'
  some (padded width s ++ (if col' == 0 then 10 ∷ rest else rest))

-- `ewidth` is the width of the window.
unfoldable pub write_completion : ℕ → List (List ℕ) → Option (List ℕ)
write_completion ewidth l = do
  let width = calculate_max_length l + 5
  let numcols = (ewidth + size_mod - 1) % size_mod / width
  cells ← write_columns width numcols l 0
  some (codes "Possible completions are:\n" ++ cells)
