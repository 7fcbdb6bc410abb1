-- ===== src/Transpose.antt =====
-- Transposition (src/funcs.c).
use zile.Prelude.{
  ℕ, zero, suc, List, [], ◌∷◌, Option, none, some, Bool, true, false, ◌&&◌, ◌==◌, if◌then◌else◌,
  ◌>>=◌, ℤ, abs,
}
use zile.Astr.{Astr, astr_new, astr_cat, astr_cat_nstr}
use zile.Estr.{lf}
use zile.Buffer.{get_buffer_line_o, get_buffer_region}
use zile.Editor.{
  Editor, set_cur_bp, say, beginning_of_buffer, end_of_buffer, warn_if_readonly_buffer, insert_estr,
  undo_start_sequence, undo_end_sequence,
}
use zile.Move.{goto_offset, end_of_line, move_char, move_line, eolp}
use zile.Kill.{
  marker_of, unchain_marker, point_marker, set_mark, activate_mark, deactivate_mark,
  warn_if_no_mark, calculate_the_region, delete_region,
}
use zile.Run.{Action}
use zile.Line.{return_to, newline}
use zile.Words.{move_word}
use zile.Marks.{push_mark, pop_mark}
use zile.Sexps.{move_sexp}

-- The function that `transpose_subr` is given; it is compared with `move_char` and `move_line`.
pub data Mover : Type 0 where
  chars words sexps lines : Mover

unfoldable pub move_func : ℕ → Mover → Bool → Action
unfolding move_sexp move_word
move_func fuel chars forward = move_char forward 1
move_func fuel words forward = move_word fuel forward
move_func fuel sexps forward = move_sexp fuel forward
move_func fuel lines forward = move_line forward 1

abbrev is_chars : Mover → Bool
is_chars chars = true
is_chars _ = false

abbrev is_lines : Mover → Bool
is_lines lines = true
is_lines _ = false

-- The C string that a string's bytes begin with.
unfoldable pub c_string : List ℕ → List ℕ
c_string [] = []
c_string (zero ∷ s) = []
c_string (suc c ∷ s) = suc c ∷ c_string s

-- `bprintf ("%s", astr_cstr (s))`
unfoldable pub insert_c_string : Astr → Editor → Option Editor
unfolding c_string
insert_c_string s ed = do
  (_, ed1) ← insert_estr ed (record { str = astr_cat_nstr astr_new (c_string s.text); eol = lf })
  some ed1

unfoldable pub astr_append_region : Astr → Editor → Option (Astr × Editor)
astr_append_region s ed = do
  let ed1 = activate_mark ed
  r ← calculate_the_region ed1
  es ← get_buffer_region ed1.cur_bp r
  some (astr_cat s es.str, ed1)

unfoldable pub delete_region_command : Action
delete_region_command ed =
    let (no_mark, ed1) = warn_if_no_mark ed in
    let deleted = (do
      r ← calculate_the_region ed1
      (ok, ed2) ← delete_region ed1 r
      some (ok, if ok then deactivate_mark ed2 else ed2)) in
    if no_mark then some (false, ed1) else deleted

-- The check that the motion can be made forwards twice: what the function does where it cannot.
unfoldable pub check_forward : ℕ → Mover → ℕ → Action
unfolding move_func pop_mark
check_forward fuel m m1 ed = do
  (one, ed1) ← move_func fuel m true ed
  let second = move_func fuel m true ed1
  (two, ed2) ← if one then second else some (false, ed1)
  let add_line = (do
    ed3 ← end_of_line ed2
    (_, ed4) ← newline fuel (undo_start_sequence ed3)
    some (true, undo_end_sequence ed4))
  let give_up = (do
    ed3 ← pop_mark ed2
    k ← marker_of ed3.cur_bp.markers m1
    ed4 ← goto_offset ed3 k.o
    let ed5 = say ed4 end_of_buffer
    some (false, set_cur_bp ed5 (unchain_marker ed5.cur_bp m1)))
  if two then some (true, ed2) else if is_lines m then add_line else give_up

-- The second string: its marker, and its text unless lines are transposed.
unfoldable pub second_string : ℕ → Mover → Editor → Option (ℕ × (Option Astr × Editor))
unfolding move_func astr_append_region delete_region_command
second_string fuel m ed =
    let (ed0, id0) = point_marker ed in
    let taken = (do
      (_, ed1) ← move_func fuel m false (set_mark ed)
      let (ed2, m2) = point_marker ed1
      (as2, ed3) ← astr_append_region astr_new ed2
      (_, ed4) ← delete_region_command ed3
      some (m2, (some as2, ed4))) in
    if is_lines m then some (id0, (none, ed0)) else taken

unfoldable pub exchange_strings : ℕ → Mover → ℕ → Action
unfolding move_func astr_append_region delete_region_command second_string insert_c_string pop_mark
    return_to
exchange_strings fuel m m1 ed = do
  k ← marker_of ed.cur_bp.markers m1
  ed1 ← goto_offset ed k.o
  (_, ed2) ← move_func fuel m true ed1
  (as1, ed3) ← astr_append_region astr_new ed2
  (_, ed4) ← delete_region_command ed3
  (_, ed5) ← move_func fuel m true ed4
  (m2, (as2, ed6)) ← second_string fuel m ed5
  ed7 ← return_to m2 ed6
  ed8 ← insert_c_string as1 ed7
  let insert_second = λ (s : Astr). (do
    k1 ← marker_of ed8.cur_bp.markers m1
    ed9 ← goto_offset ed8 k1.o
    insert_c_string s ed9)
  ed9 ← elim as2 [ none ↦ some ed8 | some s ↦ insert_second s ]
  ed10 ← pop_mark (set_cur_bp ed9 (unchain_marker ed9.cur_bp m1))
  let ed11 = deactivate_mark ed10
  let on_again = (do (_, ed12) ← move_func fuel m true ed11; some (true, ed12))
  if is_lines m then some (true, ed11) else on_again

unfoldable pub transpose_subr : ℕ → Mover → Action
unfolding move_func push_mark check_forward exchange_strings
transpose_subr fuel m ed = do
  let back = (do (_, e) ← move_func fuel m false ed; some e)
  ed1 ← if is_chars m && eolp ed.cur_bp then back else some ed
  let down = (do (_, e) ← move_func fuel m true ed1; some e)
  ed2 ← if is_lines m && get_buffer_line_o ed1.cur_bp == 0 then down else some ed1
  (ok, ed3) ← move_func fuel m false ed2
  let transposed = (do
    ed4 ← push_mark ed3
    let (ed5, m1) = point_marker ed4
    (ready, ed6) ← check_forward fuel m m1 ed5
    let exchanged = exchange_strings fuel m m1 ed6
    if ready then exchanged else some (false, ed6))
  if ok then transposed else some (false, say ed3 beginning_of_buffer)

unfoldable pub transpose_loop : ℕ → Mover → ℕ → Action
unfolding transpose_subr
transpose_loop fuel m zero ed = some (true, ed)
transpose_loop fuel m (suc n) ed = do
  (ok, ed1) ← transpose_subr fuel m ed
  let rest = transpose_loop fuel m n ed1
  if ok then rest else some (false, ed1)

unfoldable pub transpose : ℕ → ℤ → Mover → Action
unfolding transpose_loop
transpose fuel uniarg m ed =
    let transposed = (do
      (ok, ed1) ← transpose_loop fuel m (abs uniarg) (undo_start_sequence ed)
      some (ok, undo_end_sequence ed1)) in
    if ed.cur_bp.readonly then some (false, (warn_if_readonly_buffer ed).1) else transposed
