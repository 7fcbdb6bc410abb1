-- ===== src/KillCommands.antt =====
-- The kill commands with a numeric argument (kill-line, kill-word and kill-sexp of
-- src/killring.c, mark-sexp of src/funcs.c).
use zile.Prelude.{
  ℕ, ◌||◌, ◌&&◌, not, ◌==◌, Option, none, some, true, false, if◌then◌else◌, ◌>>=◌, ℤ, pos, negate,
  is_negative, abs,
}
use zile.Buffer.{region_new, get_buffer_line_o}
use zile.Editor.{kill_region, warn_if_readonly_buffer, undo_start_sequence, undo_end_sequence}
use zile.Move.{bolp, move_line}
use zile.Kill.{
  maybe_free_kill_ring, copy_or_kill_region, copy_or_kill_the_region, kill_line, delete_char,
  backward_delete_char, deactivate_mark, set_mark_command,
}
use zile.Run.{Action, execute_with_uniarg, move_with_uniarg}
use zile.Marks.{push_mark, pop_mark, mark_word, exchange_point_and_mark}
use zile.Sexps.{move_sexp}

-- `G_delete_char (1)`
unfoldable pub delete_one : Action
unfolding execute_with_uniarg
delete_one = execute_with_uniarg true (pos 1) delete_char (some backward_delete_char)

unfoldable pub kill_whole_line : Action
unfolding kill_line delete_one
kill_whole_line = kill_line delete_one true

unfoldable pub kill_line_backward : Action
unfolding kill_whole_line
kill_line_backward ed = do
  (ok, ed1) ← move_line false 1 ed
  let killed = kill_whole_line ed1
  if ok then killed else some (false, ed1)

-- The part of the line before the point, unless the argument is positive.
unfoldable pub kill_to_start : ℤ → Action
kill_to_start arg ed =
    let killed =
      copy_or_kill_region true ed (region_new (get_buffer_line_o ed.cur_bp) ed.cur_bp.pt) in
    if (is_negative arg || abs arg == 0) && not (bolp ed.cur_bp) then killed else some (true, ed)

unfoldable pub kill_line_command : Option ℤ → Action
unfolding kill_to_start kill_whole_line kill_line_backward kill_line delete_one execute_with_uniarg
kill_line_command garg ed = do
  let ed1 = maybe_free_kill_ring ed
  let plain = kill_line delete_one (bolp ed1.cur_bp && ed1.vars.kill_whole_line) ed1
  let counted = λ (arg : ℤ). (do
    (ok, ed2) ← kill_to_start arg (undo_start_sequence ed1)
    let lines = execute_with_uniarg false arg kill_whole_line (some kill_line_backward) ed2
    (done, ed3) ← if not (abs arg == 0) && ok then lines else some (ok, ed2)
    some (done, undo_end_sequence ed3))
  (ok, ed4) ← elim garg [ none ↦ plain | some arg ↦ counted arg ]
  some (ok, deactivate_mark ed4)

-- The message of the marking commands is erased; the empty message is none.
unfoldable pub kill_text : ℤ → (ℤ → Action) → Action
kill_text uniarg mark_func ed =
    let ed1 = maybe_free_kill_ring ed in
    let killed = (do
      ed2 ← push_mark ed1
      (_, ed3) ← mark_func uniarg (undo_start_sequence ed2)
      (_, ed4) ← copy_or_kill_the_region true ed3
      ed5 ← pop_mark (undo_end_sequence ed4)
      some (true, record ed5 { this_command = kill_region; echo = none })) in
    if ed1.cur_bp.readonly then some (false, (warn_if_readonly_buffer ed1).1) else killed

unfoldable pub kill_word : ℕ → ℤ → Action
unfolding kill_text mark_word
kill_word fuel arg = kill_text arg (mark_word fuel)

unfoldable pub backward_kill_word : ℕ → ℤ → Action
unfolding kill_text mark_word
backward_kill_word fuel arg = kill_text (negate arg) (mark_word fuel)

unfoldable pub mark_sexp : ℕ → ℤ → Action
unfolding move_with_uniarg move_sexp exchange_point_and_mark
mark_sexp fuel n ed = do
  (ok, ed1) ← move_with_uniarg n (move_sexp fuel) (set_mark_command ed)
  let exchanged = (do (_, ed2) ← exchange_point_and_mark ed1; some (true, ed2))
  if ok then exchanged else some (false, ed1)

unfoldable pub kill_sexp : ℕ → ℤ → Action
unfolding kill_text mark_sexp
kill_sexp fuel uniarg = kill_text uniarg (mark_sexp fuel)
