-- ===== src/Minibuffer/Draw.antt =====
-- Where the minibuffer draws its line and the cursor (draw_minibuf_read of src/term_minibuf.c)).
-- A division by zero, a string read beyond its end and an `int` that is too small are `none`.
pub mod Columns
use zile.Prelude.{
  ℕ, zero, suc, ◌+◌, ◌-◌, ◌*◌, ◌/◌, ◌%◌, ◌^◌, max, List, [], ◌∷◌, ◌++◌, Option, none, some, Bool,
  true, false, ◌==◌, ltb, leb, length, replicate, assert, codes, if◌then◌else◌, ◌>>=◌, ◌>>◌,
}
use zile.Astr.{size_mod}
use zile.Completion.Columns.{remainder}

-- The bytes of the line from `shown_from` on, with a dollar sign where it is cut, and the column of
-- the cursor.
pub record Drawn : Type 0 where
  pub shown_from : ℕ
  pub cut_left : Bool
  pub cut_right : Bool
  pub column : ℕ

-- `term_width () - prompt_len - margin`, as a size_t.
abbrev pub room : ℕ → ℕ → ℕ → ℕ
room width prompt_len margin = (width + 2 * size_mod - prompt_len - margin) % size_mod

unfoldable pub draw_minibuf_read : ℕ → ℕ → List ℕ → ℕ → Option Drawn
draw_minibuf_read width prompt_len value pointo =
    let wide = leb width (prompt_len + pointo + 1) in
    let margin = if wide then 2 else 1 in
    let skipped = (do r ← remainder pointo (room width prompt_len 2); some (pointo - r)) in
    do
      n ← if wide then skipped else some 0
      assert (ltb n (2 ^ 31))
      assert (leb n (length value))
      r ← remainder pointo (room width prompt_len margin)
      some (record {
        shown_from = n;
        cut_left = wide;
        cut_right = leb (room width prompt_len margin) (length value - n);
        column = prompt_len + margin - 1 + r;
      })
