-- ===== src/Line.antt =====
-- Insertion and deletion around the point, filling and indentation (src/line.c). A loop whose
-- rounds no count bounds runs on fuel, and is `none` when it is not over by then.
pub mod Blanks
use zile.Prelude.{
  ℕ, zero, suc, ◌+◌, ◌-◌, [], ◌∷◌, Option, none, some, Bool, true, false, ◌&&◌, ◌||◌, ◌==◌, ltb,
  leb, if◌then◌else◌, ◌>>=◌, length,
}
use zile.Astr.{astr_new, astr_cat_nstr}
use zile.Estr.{lf, Estr}
use zile.Buffer.{Buffer, bytes, get_buffer_char, get_buffer_line_o, buffer_end_of_line}
use zile.Editor.{
  Editor, set_cur_bp, warn_if_readonly_buffer, insert_estr, insert_char, undo_start_sequence,
  undo_end_sequence,
}
use zile.Move.{goto_offset, move_char, get_goalc, eolp, bolp, following_char, preceding_char}
use zile.Kill.{marker_of, unchain_marker, point_marker, delete_char, backward_delete_char}
use zile.Run.{Action}

-- `isspace` of the C locale.
unfoldable pub is_space : ℕ → Bool
is_space c = c == 32 || (leb 9 c && leb c 13)

-- More rounds than the buffer has bytes.
unfoldable pub fuel_of : Editor → ℕ
fuel_of ed = suc (length (bytes ed.cur_bp))

-- Going back to a marker that is then freed.
unfoldable pub return_to : ℕ → Editor → Option Editor
return_to id ed = do
  m ← marker_of ed.cur_bp.markers id
  ed1 ← goto_offset ed m.o
  some (set_cur_bp ed1 (unchain_marker ed1.cur_bp id))

unfoldable pub newline_text : Estr
newline_text = record { str = astr_cat_nstr astr_new (10 ∷ []); eol = lf }

unfoldable pub insert_newline : Action
insert_newline ed = insert_estr ed newline_text

unfoldable pub intercalate_newline : Action
unfolding insert_newline
intercalate_newline ed = do
  (ok, ed1) ← insert_newline ed
  let back = move_char false 1 ed1
  if ok then back else some (false, ed1)

-- Without tabs the code calls `bprintf` without the argument that its format asks for, which is
-- undefined.
unfoldable pub insert_tab : Action
insert_tab ed =
    let tab = (do (_, ed1) ← insert_char ed 9; some (true, ed1)) in
    if ed.cur_bp.readonly
    then some (false, (warn_if_readonly_buffer ed).1)
    else if ed.vars.indent_tabs_mode
    then tab
    else none

-- The two loops of `delete_horizontal_space`.
unfoldable pub delete_following : ℕ → Editor → Option Editor
unfolding is_space
delete_following zero ed = none
delete_following (suc fuel) ed =
    let more = (do
      c ← following_char ed.cur_bp
      let deleted = (do (_, ed1) ← delete_char ed; delete_following fuel ed1)
      if is_space c then deleted else some ed) in
    if eolp ed.cur_bp then some ed else more

unfoldable pub delete_preceding : ℕ → Editor → Option Editor
unfolding is_space
delete_preceding zero ed = none
delete_preceding (suc fuel) ed =
    let more = (do
      c ← preceding_char ed.cur_bp
      let deleted = (do (_, ed1) ← backward_delete_char ed; delete_preceding fuel ed1)
      if is_space c then deleted else some ed) in
    if bolp ed.cur_bp then some ed else more

unfoldable pub delete_horizontal_space : ℕ → Action
delete_horizontal_space fuel ed = do
  ed1 ← delete_following fuel (undo_start_sequence ed)
  ed2 ← delete_preceding fuel ed1
  some (true, undo_end_sequence ed2)

unfoldable pub just_one_space : ℕ → Action
unfolding delete_horizontal_space
just_one_space fuel ed = do
  (_, ed1) ← delete_horizontal_space fuel (undo_start_sequence ed)
  (_, ed2) ← insert_char ed1 32
  some (true, undo_end_sequence ed2)

-- `while (get_goalc () > fillcol + 1) move_char (-1);`
unfoldable pub back_to_column : ℕ → ℕ → Editor → Option Editor
back_to_column zero fillcol ed = none
back_to_column (suc fuel) fillcol ed = do
  col ← get_goalc ed
  let more = (do (_, ed1) ← move_char false 1 ed; back_to_column fuel fillcol ed1)
  if ltb (fillcol + 1) col then more else some ed

-- The last blank of the line's first `i` bytes, and the first from `o` on: the columns behind them, 0 if there is none.
unfoldable pub last_space : Buffer → ℕ → ℕ → Option ℕ
unfolding is_space
last_space bp line_o zero = some 0
last_space bp line_o (suc i) = do
  c ← get_buffer_char bp (line_o + i)
  let rest = last_space bp line_o i
  if is_space c then some (suc i) else rest

unfoldable pub first_space : Buffer → ℕ → ℕ → ℕ → Option ℕ
unfolding is_space
first_space bp line_o zero o = some 0
first_space bp line_o (suc rounds) o = do
  c ← get_buffer_char bp (o - 1)
  let rest = first_space bp line_o rounds (o + 1)
  if is_space c then some (o - line_o) else rest

unfoldable pub break_column : Buffer → Option ℕ
unfolding last_space first_space
break_column bp = do
  let line_o = get_buffer_line_o bp
  left ← last_space bp line_o (bp.pt - line_o)
  let right = first_space bp line_o (buffer_end_of_line bp line_o - (bp.pt + 1)) (bp.pt + 1)
  if left == 0 then right else some left

unfoldable pub fill_break_line : ℕ → Action
unfolding back_to_column break_column delete_horizontal_space insert_newline return_to
fill_break_line fuel ed = do
  col ← get_goalc ed
  let breaking = (do
    let (ed1, id) = point_marker ed
    let old_col = ed1.cur_bp.pt - get_buffer_line_o ed1.cur_bp
    ed2 ← back_to_column fuel ed1.vars.fill_column ed1
    break_col ← break_column ed2.cur_bp
    let line_o = get_buffer_line_o ed2.cur_bp
    let break_line = (do
      ed3 ← goto_offset ed2 (line_o + break_col)
      (_, ed4) ← delete_horizontal_space fuel ed3
      (_, ed5) ← insert_newline ed4
      ed6 ← return_to id ed5
      some (true, ed6))
    let undo_motion = (do
      ed3 ← goto_offset ed2 (line_o + old_col)
      some (false, set_cur_bp ed3 (unchain_marker ed3.cur_bp id)))
    if leb 1 break_col then break_line else undo_motion)
  if ltb ed.vars.fill_column col then breaking else some (false, ed)

unfoldable pub newline : ℕ → Action
unfolding fill_break_line insert_newline
newline fuel ed = do
  col ← get_goalc ed
  let filled = (do (_, ed1) ← fill_break_line fuel ed; some ed1)
  ed1 ← if ed.cur_bp.autofill && ltb ed.vars.fill_column col then filled else some ed
  insert_newline ed1
