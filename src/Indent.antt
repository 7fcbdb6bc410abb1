-- ===== src/Indent.antt =====
-- The indentation commands (src/line.c), and forward-line (src/funcs.c). The loops run on fuel.
use zile.Prelude.{
  ℕ, zero, suc, ◌+◌, ◌%◌, Option, none, some, Bool, true, false, not, ◌&&◌, ◌||◌, ◌==◌, ltb, leb,
  if◌then◌else◌, ◌>>=◌, ℤ, pos, negsuc,
}
use zile.Buffer.{get_buffer_line_o}
use zile.Editor.{
  Editor, warn_if_readonly_buffer, insert_char, undo_start_sequence, undo_end_sequence,
}
use zile.Move.{
  beginning_of_line, move_char, move_line, get_goalc, tab_width, eolp, is_blank_line,
  following_char, preceding_char,
}
use zile.Kill.{point_marker, deactivate_mark}
use zile.Run.{Action}
use zile.Line.{is_space, return_to, insert_newline, insert_tab}

unfoldable pub forward_line : ℤ → Action
forward_line n ed = do
  ed1 ← beginning_of_line ed
  elim n [ pos k ↦ move_line true k ed1 | negsuc k ↦ move_line false (suc k) ed1 ]

-- `while (F_forward_line (-1) && is_blank_line ());`
unfoldable pub previous_nonblank : ℕ → Editor → Option Editor
unfolding forward_line
previous_nonblank zero ed = none
previous_nonblank (suc fuel) ed = do
  (ok, ed1) ← forward_line (negsuc 0) ed
  let more = (do
    blank ← is_blank_line ed1.cur_bp
    let again = previous_nonblank fuel ed1
    if blank then again else some ed1)
  if ok then more else some ed1

-- `while (!eolp () && get_goalc () < cur_goalc) move_char (1);`
unfoldable pub forward_to_column : ℕ → ℕ → Editor → Option Editor
forward_to_column zero target ed = none
forward_to_column (suc fuel) target ed = do
  col ← get_goalc ed
  let more = (do (_, ed1) ← move_char true 1 ed; forward_to_column fuel target ed1)
  if not (eolp ed.cur_bp) && ltb col target then more else some ed

unfoldable pub previous_nonblank_goalc : ℕ → Editor → Option Editor
unfolding previous_nonblank forward_to_column
previous_nonblank_goalc fuel ed = do
  cur_goalc ← get_goalc ed
  ed1 ← previous_nonblank fuel ed
  forward_to_column fuel cur_goalc ed1

-- `while (!eolp () && isspace (following_char ()) == blank) move_char (1);`
unfoldable pub skip_blanks : Bool → ℕ → Editor → Option Editor
unfolding is_space
skip_blanks blank zero ed = none
skip_blanks blank (suc fuel) ed =
    let more = (do
      c ← following_char ed.cur_bp
      let on = (do (_, ed1) ← move_char true 1 ed; skip_blanks blank fuel ed1)
      if (if blank then is_space c else not (is_space c)) then on else some ed) in
    if eolp ed.cur_bp then some ed else more

-- The target column of `indent_relative`, found with the point moved and brought back.
unfoldable pub indent_target : ℕ → ℕ → Editor → Option (ℕ × Editor)
unfolding previous_nonblank_goalc skip_blanks return_to
indent_target fuel cur_goalc ed = do
  let (ed1, id) = point_marker ed
  ed2 ← previous_nonblank_goalc fuel ed1
  c ← preceding_char ed2.cur_bp
  col ← get_goalc ed2
  let skipped = skip_blanks false fuel ed2
  ed3 ← if c == 9 && ltb cur_goalc col then some ed2 else skipped
  ed4 ← skip_blanks true fuel ed3
  target ← get_goalc ed4
  ed5 ← return_to id ed4
  some (if eolp ed4.cur_bp then 0 else target, ed5)

-- The loop that inserts tabs and blanks up to the target column.
unfoldable pub indent_loop : ℕ → ℕ → ℕ → Action
unfolding insert_tab
indent_loop zero target cur ed = none
indent_loop (suc fuel) target cur ed = do
  let t = tab_width ed
  (ok, ed1) ← if cur % t == 0 && leb (cur + t) target then insert_tab ed else insert_char ed 32
  col ← get_goalc ed1
  let more = indent_loop fuel target col ed1
  if ok && ltb col target then more else some (ok, ed1)

unfoldable pub indent_relative : ℕ → Action
unfolding indent_target indent_loop insert_tab
indent_relative fuel ed = do
  cur_goalc ← get_goalc ed
  let ed1 = deactivate_mark ed
  let indented = (do
    let found = indent_target fuel cur_goalc ed1
    (target, ed2) ← if get_buffer_line_o ed1.cur_bp == 0 then some (0, ed1) else found
    let ed3 = undo_start_sequence ed2
    col ← get_goalc ed3
    let spaces = indent_loop (suc target) target col ed3
    let tab = insert_tab ed3
    (ok, ed4) ← if ltb 0 target && ltb col target then spaces else tab
    some (ok, undo_end_sequence ed4))
  if ed.cur_bp.readonly then some (false, (warn_if_readonly_buffer ed).1) else indented

unfoldable pub previous_line_indent : ℕ → Editor → Option (ℕ × Editor)
unfolding skip_blanks return_to
previous_line_indent fuel ed = do
  let (ed1, id) = point_marker ed
  (_, ed2) ← move_line false 1 ed1
  ed3 ← beginning_of_line ed2
  ed4 ← skip_blanks true fuel ed3
  cur_indent ← get_goalc ed4
  ed5 ← return_to id ed4
  some (cur_indent, ed5)

unfoldable pub indent_for_tab_command : ℕ → Action
unfolding insert_tab previous_line_indent indent_relative
indent_for_tab_command fuel ed =
    let indented = (do
      col ← get_goalc ed
      (indent, ed1) ← previous_line_indent fuel ed
      let relative = indent_relative fuel ed1
      if ltb col indent then relative else some (true, ed1)) in
    if ed.vars.tab_always_indent then insert_tab ed else indented

unfoldable pub newline_and_indent : ℕ → Action
unfolding insert_newline previous_nonblank_goalc return_to indent_for_tab_command is_space
newline_and_indent fuel ed =
    let indented = λ (ed2 : Editor). (do
      let (ed3, id) = point_marker ed2
      ed4 ← previous_nonblank_goalc fuel ed3
      column ← get_goalc ed4
      c ← following_char ed4.cur_bp
      let indent = ltb 0 column || (not (eolp ed4.cur_bp) && is_space c)
      ed5 ← return_to id ed4
      let with_indent = (do (_, ed6) ← indent_for_tab_command fuel ed5; some ed6)
      ed6 ← if indent then with_indent else some ed5
      some (true, ed6)) in
    let inserted = (do
      (ok, ed2) ← insert_newline (undo_start_sequence (deactivate_mark ed))
      (done, ed3) ← if ok then indented ed2 else some (false, ed2)
      some (done, undo_end_sequence ed3)) in
    if ed.cur_bp.readonly then some (false, (warn_if_readonly_buffer ed).1) else inserted
