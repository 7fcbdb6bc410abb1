-- ===== src/Commands.antt =====
-- The commands around the primitives (src/basic.c, src/line.c, src/funcs.c, src/killring.c), with the
-- numbers and the keys that they read as arguments. Loops without a bound run on fuel.
use zile.Prelude.{
  ℕ, zero, suc, ◌-◌, min, List, Option, none, some, Bool, true, false, not, leb, if◌then◌else◌,
  ◌>>=◌, ℤ, pos, negsuc, is_negative, abs, negate,
}
use zile.Astr.{
  case_lower, case_upper, case_capitalized, to_upper, to_lower, astr_new, astr_cat_nstr,
}
use zile.Estr.{lf}
use zile.Buffer.{get_buffer_size}
use zile.Editor.{Editor, set_cur_bp, say, quit, insert_char, insert_estr}
use zile.Move.{goto_offset, beginning_of_line, move_char, move_line, offset_to_line}
use zile.Kill.{
  deactivate_mark, delete_char, backward_delete_char, copy_or_kill_the_region, set_mark,
  activate_mark,
}
use zile.Run.{Action, execute_with_uniarg, move_with_uniarg, count_of}
use zile.Line.{intercalate_newline, newline, insert_tab}
use zile.Words.{move_word, setcase_word, setcase_region}
use zile.Sexps.{move_sexp}
use zile.Transpose.{chars, words, sexps, lines, transpose}

-- A motion by a signed number of steps.
abbrev pub by : (Bool → ℕ → Action) → ℤ → Action
by move n = move (not (is_negative n)) (abs n)

unfoldable pub previous_line_command : ℤ → Action
previous_line_command n = by move_line (negate n)

unfoldable pub next_line_command : ℤ → Action
next_line_command n = by move_line n

-- `MAX (n, 1) - 1`, for a position or a line that counts from 1.
abbrev pub from_one : ℤ → ℕ
from_one n = count_of n - 1

unfoldable pub goto_char : ℤ → Editor → Option Editor
goto_char n ed = goto_offset ed (min (from_one n) (get_buffer_size ed.cur_bp))

abbrev pub line_steps : ℕ → ℕ → ℤ
line_steps to from = if leb from to then pos (to - from) else negsuc (from - to - 1)

unfoldable pub goto_line : ℤ → Editor → Option Editor
goto_line n ed = do
  (_, ed1) ← by move_line (line_steps (from_one n) (offset_to_line ed.cur_bp ed.cur_bp.pt)) ed
  beginning_of_line ed1

-- The errors that the commands on characters signal to the interpreter.
pub data Signal : Type 0 where
  at_end at_beginning : Signal

-- `n <= 0`
abbrev pub not_positive : ℤ → Bool
not_positive (pos zero) = true
not_positive (pos (suc n)) = false
not_positive (negsuc n) = true

unfoldable pub forward_char : ℤ → Editor → Option (Option Signal × Editor)
forward_char n ed = do
  (ok, ed1) ← by move_char n ed
  some ((if ok then none else some (if not_positive n then at_beginning else at_end)), ed1)

unfoldable pub backward_char : ℤ → Editor → Option (Option Signal × Editor)
backward_char n ed = do
  (ok, ed1) ← by move_char (negate n) ed
  some ((if ok then none else some (if not_positive n then at_end else at_beginning)), ed1)

unfoldable pub tab_to_tab_stop : ℤ → Action
tab_to_tab_stop n = execute_with_uniarg true n insert_tab none

unfoldable pub znewline : ℕ → ℤ → Action
znewline fuel n = execute_with_uniarg true n (newline fuel) none

unfoldable pub open_line : ℤ → Action
open_line n = execute_with_uniarg true n intercalate_newline none

-- `bprintf ("%s", arg)` of a C string.
unfoldable pub insert : List ℕ → Editor → Option Editor
insert arg ed = do
  (_, ed1) ← insert_estr ed (record { str = astr_cat_nstr astr_new arg; eol = lf })
  some ed1

unfoldable pub delete_char_command : ℤ → Action
delete_char_command n = execute_with_uniarg true n delete_char (some backward_delete_char)

unfoldable pub backward_delete_char_command : ℤ → Action
backward_delete_char_command n = execute_with_uniarg true n backward_delete_char (some delete_char)

unfoldable pub keyboard_quit : Editor → Bool × Editor
keyboard_quit ed = (false, say (deactivate_mark ed) quit)

unfoldable pub toggle_read_only : Editor → Editor
toggle_read_only ed = set_cur_bp ed (record (ed.cur_bp) { readonly = not ed.cur_bp.readonly })

unfoldable pub auto_fill_mode : Editor → Editor
auto_fill_mode ed = set_cur_bp ed (record (ed.cur_bp) { autofill = not ed.cur_bp.autofill })

-- With an argument. The column that is asked for without one is not the one that is set.
unfoldable pub set_fill_column : ℕ → Editor → Editor
set_fill_column n ed = record ed { vars = record (ed.vars) { fill_column = n } }

unfoldable pub set_mark_only : Editor → Editor
set_mark_only ed = activate_mark (set_mark ed)

-- `key` is the next one that `getkey_unfiltered` gives.
unfoldable pub quoted_insert : ℕ → Editor → Option Editor
quoted_insert key ed = do (_, ed1) ← insert_char ed key; some ed1

module _ (fuel : ℕ) where
  unfoldable pub forward_word : ℤ → Action
  forward_word n = move_with_uniarg n (move_word fuel)

  unfoldable pub backward_word : ℤ → Action
  backward_word n = move_with_uniarg (negate n) (move_word fuel)

  unfoldable pub forward_sexp : ℤ → Action
  forward_sexp n = move_with_uniarg n (move_sexp fuel)

  unfoldable pub backward_sexp : ℤ → Action
  backward_sexp n = move_with_uniarg (negate n) (move_sexp fuel)

  unfoldable pub transpose_chars : ℤ → Action
  transpose_chars n = transpose fuel n chars

  unfoldable pub transpose_words : ℤ → Action
  transpose_words n = transpose fuel n words

  unfoldable pub transpose_sexps : ℤ → Action
  transpose_sexps n = transpose fuel n sexps

  unfoldable pub transpose_lines : ℤ → Action
  transpose_lines n = transpose fuel n lines

  unfoldable pub downcase_word : ℤ → Action
  downcase_word n = execute_with_uniarg true n (setcase_word fuel case_lower) none

  unfoldable pub upcase_word : ℤ → Action
  upcase_word n = execute_with_uniarg true n (setcase_word fuel case_upper) none

  unfoldable pub capitalize_word : ℤ → Action
  capitalize_word n = execute_with_uniarg true n (setcase_word fuel case_capitalized) none

unfoldable pub upcase_region : Action
upcase_region = setcase_region to_upper

unfoldable pub downcase_region : Action
downcase_region = setcase_region to_lower

unfoldable pub kill_region_command : Action
kill_region_command = copy_or_kill_the_region true

unfoldable pub copy_region_as_kill : Action
copy_region_as_kill = copy_or_kill_the_region false
