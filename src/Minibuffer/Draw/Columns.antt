-- ===== src/Minibuffer/Draw/Columns.antt =====
-- The cursor's column, and completions that are too long (src/term_minibuf.c, src/completion.c).
use native.Mathlib.Nat.{mod-lt, mod-eq_of_lt, div-eq_of_lt}
use zile.Prelude.{
  ℕ, ◌+◌, ◌-◌, ◌%◌, ◌^◌, ◌≤◌, ◌<◌, ◌≡◌, refl, List, ◌∷◌, none, some, true, false, leb, length,
  if◌then◌else◌, arith, Bool-cases, inl, inr, le→leb, lt→ltb,
}
use zile.Astr.{size_mod}
use zile.Completion.Columns.{remainder, write_columns, write_completion, calculate_max_length}
use zile.Completion.Common.{remainder-some}
use zile.Minibuffer.Draw.{Drawn, room, draw_minibuf_read}

room_lem :
    (width prompt_len margin : ℕ)
    → prompt_len + margin < width
    → width < size_mod
    → room width prompt_len margin ≡ width - prompt_len - margin
room_lem width prompt_len margin lt small = omega arith

remainder_part : (a b : ℕ) → 0 < b → a % b ≤ a
remainder_part a b pos = grind arith

-- When the prompt leaves three columns at least, the screen's width is below the machine's size, the
-- line is below 2 ^ 31 and the cursor within it, the cursor of the minibuffer is drawn within the
-- screen, at the column where the character behind it is shown.
pub draw_minibuf_read_bounds :
    (width prompt_len : ℕ) (value : List ℕ) (pointo : ℕ)
    → prompt_len + 2 < width
    → width < size_mod
    → pointo ≤ length value
    → length value < 2 ^ 31
    → (d : Drawn) × (draw_minibuf_read width prompt_len value pointo ≡ some d)
      × (d.column < width)
      × (d.shown_from ≤ pointo)
      × (d.column + d.shown_from ≡ prompt_len + (if d.cut_left then 1 else 0) + pointo)
unfolding draw_minibuf_read
draw_minibuf_read_bounds width prompt_len value pointo fits small le short =
    let wide_room = room_lem width prompt_len 2 fits small in
    let narrow_room = room_lem width prompt_len 1 (omega arith) small in
    let r = pointo % (width - prompt_len - 2) in
    let below : r < width - prompt_len - 2 = mod-lt pointo (omega arith) in
    let part : r ≤ pointo = remainder_part pointo (width - prompt_len - 2) (omega arith) in
    elim (Bool-cases (leb width (prompt_len + pointo + 1))) [
      | inl wide ↦ (
        record {
          shown_from = pointo - r;
          cut_left = true;
          cut_right = leb (room width prompt_len 2) (length value - (pointo - r));
          column = prompt_len + 2 - 1 + r;
        },
        rw
            (
              wide,
              wide_room,
              remainder-some pointo (width - prompt_len - 2) (omega arith),
              lt→ltb (pointo - r) (2 ^ 31) (omega arith),
              le→leb (pointo - r) (length value) (omega arith),
            )
            refl,
        omega arith,
        omega arith,
        omega arith,
      )
      | inr narrow ↦
          let lt : pointo < width - prompt_len - 1 = ground arith in
          (
            record {
              shown_from = 0;
              cut_left = false;
              cut_right = leb (room width prompt_len 1) (length value - 0);
              column = prompt_len + 1 - 1 + pointo;
            },
            rw
                (
                  narrow,
                  narrow_room,
                  remainder-some pointo (width - prompt_len - 1) (omega arith),
                  mod-eq_of_lt lt,
                  le→leb 0 (length value) (omega arith),
                )
                refl,
            omega arith,
            omega arith,
            omega arith,
          )
    ]

write_columns-zero :
    (width : ℕ) (s : List ℕ) (l : List (List ℕ)) (col : ℕ)
    → write_columns width 0 (s ∷ l) col ≡ none
unfolding write_columns remainder
write_columns-zero width s l col = refl

-- When a completion is so long that it and five columns do not fit into the window, listing the
-- completions divides by zero.
write_completion_narrow :
    (ewidth : ℕ) (s : List ℕ) (l : List (List ℕ))
    → 0 < ewidth
    → ewidth < size_mod
    → ewidth ≤ calculate_max_length (s ∷ l) + 5
    → write_completion ewidth (s ∷ l) ≡ none
unfolding write_completion
write_completion_narrow ewidth s l pos small long =
    let n : (ewidth + size_mod - 1) % size_mod ≡ ewidth - 1 = omega arith in
    let short : ewidth - 1 < calculate_max_length (s ∷ l) + 5 = omega arith in
    rw (n, div-eq_of_lt short, write_columns-zero (calculate_max_length (s ∷ l) + 5) s l 0) refl
