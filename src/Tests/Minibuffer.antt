-- ===== src/Tests/Minibuffer.antt =====
-- Completing "fi" among "find-file" and "fill-paragraph".
use zile.Prelude.{ℕ, ◌≡◌, refl, List, [], ◌∷◌, none, some, true, false, codes}
use zile.Memmem.{is_prefix}
use zile.Completion.{Completion, Screen, nonunique, completion_try}
use zile.Completion.Columns.{calculate_max_length, write_columns}

abbrev fill : List ℕ
fill = codes "fill-paragraph"

abbrev find : List ℕ
find = codes "find-file"

abbrev names : Completion
names = record {
  completions = find ∷ fill ∷ codes "undo" ∷ [];
  matches = fill ∷ find ∷ [];
  match_text = [];
  matchsize = 0;
  filename = false;
  popped_up = false;
  close = false;
  old_bp = none;
  path = [];
  shown = none;
}

abbrev screen : Screen
screen = record { one_window = true; cur_bp = 1; ewidth = 80; term_width = 80 }

-- An adder that puts the newest match first.
abbrev push : List ℕ → List (List ℕ) → List (List ℕ)
push s ss = s ∷ ss

completion_fi :
    completion_try screen push (λ cp s. none) names (codes "fi") true
    ≡ some (
      nonunique,
      record names {
        match_text = fill;
        matchsize = 2;
        popped_up = true;
        close = true;
        shown = some (fill ∷ find ∷ []);
      },
    )
unfolding completion_try is_prefix write_columns calculate_max_length
completion_fi = refl
