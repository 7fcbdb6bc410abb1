-- ===== src/Paragraph.antt =====
-- Paragraphs and filling (src/funcs.c). Loops that no count bounds run on fuel.
use zile.Prelude.{
  ℕ, zero, suc, ◌+◌, Option, none, some, Bool, true, false, not, ltb, if◌then◌else◌, ◌>>=◌, ℤ, pos,
  is_negative, abs,
}
use zile.Buffer.{buffer_end_of_line}
use zile.Editor.{
  Editor, Command, mark_paragraph, set_cur_bp, undo_start_sequence, undo_end_sequence,
}
use zile.Move.{beginning_of_line, end_of_line, move_line, get_goalc, is_empty_line}
use zile.Kill.{marker_of, unchain_marker, point_marker, delete_char, set_mark_command}
use zile.Run.{Action}
use zile.Line.{return_to, just_one_space, fill_break_line}
use zile.Marks.{exchange_point_and_mark}

-- `while (is_empty_line () == empty && forward ());`
unfoldable pub skip_lines : ℕ → Bool → Bool → Editor → Option Editor
skip_lines zero empty forward ed = none
skip_lines (suc fuel) empty forward ed =
    let more = (do
      (ok, ed1) ← move_line forward 1 ed
      let again = skip_lines fuel empty forward ed1
      if ok then again else some ed1) in
    if (if empty then is_empty_line ed.cur_bp else not (is_empty_line ed.cur_bp))
    then more
    else some ed

unfoldable pub paragraph_loop : ℕ → ℕ → Bool → Editor → Option Editor
unfolding skip_lines
paragraph_loop fuel zero forward ed = some ed
paragraph_loop fuel (suc uniarg) forward ed = do
  ed1 ← skip_lines fuel true forward ed
  ed2 ← skip_lines fuel false forward ed1
  paragraph_loop fuel uniarg forward ed2

-- `forward` is the direction for a positive argument; it is `previous_line` or `next_line`.
unfoldable pub move_paragraph : ℕ → ℤ → Bool → (Editor → Option Editor) → Action
unfolding paragraph_loop
move_paragraph fuel uniarg forward line_extremum ed = do
  ed1 ← paragraph_loop fuel (abs uniarg) (if is_negative uniarg then not forward else forward) ed
  ed2 ← if is_empty_line ed1.cur_bp then beginning_of_line ed1 else line_extremum ed1
  some (true, ed2)

unfoldable pub backward_paragraph : ℕ → ℤ → Action
unfolding move_paragraph
backward_paragraph fuel n = move_paragraph fuel n false beginning_of_line

unfoldable pub forward_paragraph : ℕ → ℤ → Action
unfolding move_paragraph
forward_paragraph fuel n = move_paragraph fuel n true end_of_line

abbrev is_mark_paragraph : Command → Bool
is_mark_paragraph mark_paragraph = true
is_mark_paragraph _ = false

unfoldable pub mark_paragraph_command : ℕ → ℤ → Action
unfolding forward_paragraph backward_paragraph exchange_point_and_mark
mark_paragraph_command fuel n ed =
    let again = (do
      (_, ed1) ← exchange_point_and_mark ed
      (_, ed2) ← forward_paragraph fuel n ed1
      (_, ed3) ← exchange_point_and_mark ed2
      some (true, ed3)) in
    let first = (do
      (_, ed1) ← forward_paragraph fuel n ed
      (_, ed2) ← backward_paragraph fuel n (set_mark_command ed1)
      some (true, ed2)) in
    if is_mark_paragraph ed.last_command then again else first

-- The loops of `fill_paragraph`: the lines joined up to the marker `end_id`, and the line broken.
unfoldable pub join_lines : ℕ → ℕ → Editor → Option Editor
join_lines zero end_id ed = none
join_lines (suc fuel) end_id ed = do
  m ← marker_of ed.cur_bp.markers end_id
  let more = (do
    ed1 ← end_of_line ed
    (_, ed2) ← delete_char ed1
    (_, ed3) ← just_one_space (suc fuel) ed2
    join_lines fuel end_id ed3)
  if ltb (buffer_end_of_line ed.cur_bp ed.cur_bp.pt) m.o then more else some ed

unfoldable pub break_lines : ℕ → Editor → Option Editor
break_lines zero ed = none
break_lines (suc fuel) ed = do
  col ← get_goalc ed
  let more = (do
    (broken, ed1) ← fill_break_line (suc fuel) ed
    let again = break_lines fuel ed1
    if broken then again else some ed1)
  if ltb (ed.vars.fill_column + 1) col then more else some ed

unfoldable pub fill_paragraph : ℕ → Action
unfolding forward_paragraph backward_paragraph join_lines break_lines
fill_paragraph fuel ed = do
  let (ed1, id) = point_marker ed
  (_, ed2) ← forward_paragraph fuel (pos 1) (undo_start_sequence ed1)
  let up = (do (_, e) ← move_line false 1 ed2; some e)
  ed3 ← if is_empty_line ed2.cur_bp then up else some ed2
  let (ed4, end_id) = point_marker ed3
  (_, ed5) ← backward_paragraph fuel (pos 1) ed4
  let down = (do (_, e) ← move_line true 1 ed5; some e)
  ed6 ← if is_empty_line ed5.cur_bp then down else some ed5
  ed7 ← join_lines fuel end_id ed6
  ed8 ← end_of_line (set_cur_bp ed7 (unchain_marker ed7.cur_bp end_id))
  ed9 ← break_lines fuel ed8
  ed10 ← return_to id ed9
  some (true, undo_end_sequence ed10)
