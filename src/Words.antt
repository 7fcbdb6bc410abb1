-- ===== src/Words.antt =====
-- Words, and the case of words and regions (src/funcs.c). Loops that no count bounds run on fuel.
use zile.Prelude.{
  ℕ, zero, suc, ◌+◌, ◌-◌, List, [], ◌∷◌, Option, none, some, Bool, true, false, not, ◌&&◌, ◌||◌,
  ◌==◌, ltb, leb, if◌then◌else◌, ◌>>=◌, length,
}
use zile.Astr.{astr_new, astr_cat_nstr, Casing, astr_recase}
use zile.Estr.{estr_new_astr}
use zile.Buffer.{Buffer, get_region_size, get_buffer_char, get_buffer_line_o, buffer_line_len}
use zile.Editor.{
  Editor, set_cur_bp, warn_if_readonly_buffer, replace_estr, insert_char, undo_start_sequence,
  undo_end_sequence,
}
use zile.Move.{goto_offset, move_char, bolp, eolp, following_char}
use zile.Kill.{point_marker, warn_if_no_mark, calculate_the_region, delete_char}
use zile.Run.{Action}
use zile.Line.{is_space, return_to}

-- `isalnum` of the C locale.
unfoldable pub is_alnum : ℕ → Bool
is_alnum c = (leb b'0' c && leb c b'9') || (leb b'a' c && leb c b'z') || (leb b'A' c && leb c b'Z')

unfoldable pub iswordchar : ℕ → Bool
unfolding is_alnum
iswordchar c = is_alnum c || c == b'$'

-- `while (!eolp () && isspace (following_char ())) move_char (1);`
unfoldable pub indentation_loop : ℕ → Action
indentation_loop zero ed = none
indentation_loop (suc fuel) ed =
    let more = (do
      c ← following_char ed.cur_bp
      let on = (do (_, ed1) ← move_char true 1 ed; indentation_loop fuel ed1)
      if is_space c then on else some (true, ed)) in
    if eolp ed.cur_bp then some (true, ed) else more

unfoldable pub back_to_indentation : ℕ → Action
unfolding indentation_loop
back_to_indentation fuel ed = do
  ed1 ← goto_offset ed (get_buffer_line_o ed.cur_bp)
  indentation_loop fuel ed1

-- The inner loop of `move_word`, with `gotword`.
unfoldable pub word_loop : ℕ → Bool → Bool → Action
unfolding iswordchar
word_loop zero forward gotword ed = none
word_loop (suc fuel) forward gotword ed =
    let bp = ed.cur_bp in
    let more = (do
      c ← get_buffer_char bp (if forward then bp.pt else bp.pt - 1)
      let on = (do
        (_, ed1) ← move_char forward 1 ed
        word_loop fuel forward (gotword || iswordchar c) ed1)
      if not (iswordchar c) && gotword then some (true, ed) else on) in
    if (if forward then eolp bp else bolp bp) then some (gotword, ed) else more

-- The outer loop.
unfoldable pub move_word : ℕ → Bool → Action
unfolding word_loop
move_word zero forward ed = none
move_word (suc fuel) forward ed = do
  (gotword, ed1) ← word_loop (suc fuel) forward false ed
  let across = (do
    (moved, ed2) ← move_char forward 1 ed1
    let again = move_word fuel forward ed2
    if moved then again else some (false, ed2))
  if gotword then some (true, ed1) else across

-- The loop of `setcase_word` over the bytes of the line from `o` on.
unfoldable pub word_at : Buffer → ℕ → ℕ → Option (List ℕ)
unfolding iswordchar
word_at bp zero o = some []
word_at bp (suc rounds) o = do
  c ← get_buffer_char bp o
  let rest = (do cs ← word_at bp rounds (o + 1); some (c ∷ cs))
  if iswordchar c then rest else some []

unfoldable pub setcase_word : ℕ → Casing → Action
unfolding move_word word_at iswordchar
setcase_word fuel rcase ed = do
  c ← following_char ed.cur_bp
  let seek = (do
    (on, ed1) ← move_word fuel true ed
    let back = move_word fuel false ed1
    if on then back else some (false, ed1))
  (found, ed1) ← if iswordchar c then some (true, ed) else seek
  let bp = ed1.cur_bp
  let recased = (do
    word ← word_at bp (buffer_line_len bp bp.pt - (bp.pt - get_buffer_line_o bp)) bp.pt
    let replaced = (do
      s ← astr_recase (astr_cat_nstr astr_new word) rcase
      es ← estr_new_astr s
      (_, ed2) ← replace_estr ed1 (length word) es
      some ed2)
    ed2 ← if ltb 0 (length word) then replaced else some ed1
    some (true, set_cur_bp ed2 (record (ed2.cur_bp) { modified = true })))
  if found then recased else some (false, ed1)

-- The loop of `setcase_region`.
unfoldable pub setcase_loop : (ℕ → ℕ) → ℕ → Editor → Option Editor
setcase_loop func zero ed = some ed
setcase_loop func (suc size) ed = do
  c ← following_char ed.cur_bp
  (_, ed1) ← delete_char ed
  (_, ed2) ← insert_char ed1 (func c)
  setcase_loop func size ed2

unfoldable pub setcase_region : (ℕ → ℕ) → Action
unfolding setcase_loop
setcase_region func ed =
    let (no_mark, ed0) = warn_if_no_mark ed in
    let recased = (do
      r ← calculate_the_region ed0
      let (ed1, id) = point_marker (undo_start_sequence ed0)
      ed2 ← goto_offset ed1 r.start
      ed3 ← setcase_loop func (get_region_size r) ed2
      ed4 ← return_to id ed3
      some (true, undo_end_sequence ed4)) in
    if ed.cur_bp.readonly
    then some (false, (warn_if_readonly_buffer ed).1)
    else if no_mark
    then some (false, ed0)
    else recased
