-- ===== src/Move.antt =====
-- Where the point is and how it moves (src/editfns.c, the movement routines of src/buffer.c, and
-- the line commands and columns of src/basic.c). An `int` argument of which only the sign and
-- the size matter is a direction and a number of steps.
pub mod Goto
pub mod LineEnds
use zile.Prelude.{
  ℕ, zero, suc, ◌+◌, ◌-◌, ◌*◌, ◌%◌, max, Option, none, some, Bool, true, false, not, ◌||◌, ◌&&◌,
  ◌==◌, ltb, leb, if◌then◌else◌, ◌>>=◌, ◌>>◌,
}
use Prim.Native.Nat.{bit_or}
use zile.Astr.{size_max}
use zile.Estr.{eol_len}
use zile.Buffer.{
  Buffer, set_buffer_pt, get_buffer_size, get_buffer_line_o, buffer_line_len, buffer_start_of_line,
  buffer_end_of_line, buffer_prev_line, buffer_next_line, get_buffer_char,
}
use zile.Editor.{Editor, set_cur_bp, Command, next_line, previous_line}

unfoldable pub bobp : Buffer → Bool
bobp bp = bp.pt == 0

unfoldable pub eobp : Buffer → Bool
unfolding get_buffer_size
eobp bp = bp.pt == get_buffer_size bp

unfoldable pub bolp : Buffer → Bool
unfolding get_buffer_line_o
bolp bp = bp.pt == get_buffer_line_o bp

unfoldable pub eolp : Buffer → Bool
unfolding get_buffer_line_o buffer_line_len
eolp bp = (bp.pt - get_buffer_line_o bp) == buffer_line_len bp bp.pt

unfoldable pub is_empty_line : Buffer → Bool
unfolding buffer_line_len
is_empty_line bp = buffer_line_len bp bp.pt == 0

-- The loop of `is_blank_line`, with the rounds left.
unfoldable pub blank_loop : Buffer → ℕ → ℕ → Option Bool
blank_loop bp zero i = some true
blank_loop bp (suc rounds) i = do
  c ← get_buffer_char bp (get_buffer_line_o bp + i)
  let rest = blank_loop bp rounds (i + 1)
  if not (c == b' ') && not (c == 9) then some false else rest

unfoldable pub is_blank_line : Buffer → Option Bool
unfolding blank_loop
is_blank_line bp = blank_loop bp (buffer_line_len bp bp.pt) 0

unfoldable pub following_char : Buffer → Option ℕ
unfolding eobp eolp
following_char bp =
    if eobp bp then some 0 else if eolp bp then some 10 else get_buffer_char bp bp.pt

unfoldable pub preceding_char : Buffer → Option ℕ
unfolding bobp bolp
preceding_char bp =
    if bobp bp then some 0 else if bolp bp then some 10 else get_buffer_char bp (bp.pt - 1)

unfoldable pub tab_width : Editor → ℕ
tab_width ed = max ed.vars.tab_width_var 1

-- The loop of `get_goalc_bp`, with the rounds left.
unfoldable pub goalc_loop : Buffer → ℕ → ℕ → ℕ → ℕ → ℕ → Option ℕ
goalc_loop bp t start zero i col = some col
goalc_loop bp t start (suc rounds) i col = do
  c ← get_buffer_char bp (start + i)
  goalc_loop bp t start rounds (i + 1) ((if c == 9 then bit_or col (t - 1) else col) + 1)

unfoldable pub get_goalc_bp : Editor → Buffer → ℕ → Option ℕ
unfolding goalc_loop tab_width buffer_start_of_line
get_goalc_bp ed bp o =
    let start = buffer_start_of_line bp o in goalc_loop bp (tab_width ed) start (o - start) 0 0

unfoldable pub get_goalc : Editor → Option ℕ
unfolding get_goalc_bp
get_goalc ed = get_goalc_bp ed ed.cur_bp ed.cur_bp.pt

unfoldable pub goto_offset : Editor → ℕ → Option Editor
goto_offset ed o = do
  bp ← set_buffer_pt ed.cur_bp o
  let ed1 = set_cur_bp ed bp
  let noticed = (do
    col ← get_goalc ed1
    some (record (set_cur_bp ed (record bp { goalc = col })) { need_resync = true }))
  if get_buffer_line_o bp == get_buffer_line_o ed.cur_bp then some ed1 else noticed

unfoldable pub beginning_of_line : Editor → Option Editor
unfolding goto_offset
beginning_of_line ed = do
  ed1 ← goto_offset ed (get_buffer_line_o ed.cur_bp)
  some (set_cur_bp ed1 (record (ed1.cur_bp) { goalc = 0 }))

unfoldable pub end_of_line : Editor → Option Editor
unfolding goto_offset
end_of_line ed = do
  ed1 ← goto_offset ed (get_buffer_line_o ed.cur_bp + buffer_line_len ed.cur_bp ed.cur_bp.pt)
  some (set_cur_bp ed1 (record (ed1.cur_bp) { goalc = size_max }))

-- One round of the loop of `move_char`: `some (false, _)` is its early return.
unfoldable pub step_char : Bool → Editor → Option (Bool × Editor)
unfolding eolp bolp eobp bobp beginning_of_line end_of_line
step_char forward ed =
    let bp = ed.cur_bp in
    let within = (do
      bp' ← set_buffer_pt bp (if forward then bp.pt + 1 else bp.pt - 1)
      some (true, set_cur_bp ed bp')) in
    let n = eol_len bp.text.eol in
    let across = (do
      bp' ← set_buffer_pt bp (if forward then bp.pt + n else bp.pt - n)
      let ed1 = record ed { cur_bp = bp'; need_resync = true }
      ed2 ← if forward then beginning_of_line ed1 else end_of_line ed1
      some (true, ed2)) in
    if not (if forward then eolp bp else bolp bp)
    then within
    else if not (if forward then eobp bp else bobp bp)
    then across
    else some (false, ed)

unfoldable pub move_char : Bool → ℕ → Editor → Option (Bool × Editor)
unfolding step_char
move_char forward zero ed = some (true, ed)
move_char forward (suc n) ed = do
  (moved, ed1) ← step_char forward ed
  let rest = move_char forward n ed1
  if moved then rest else some (false, ed1)

-- `for (size_t w = t - col % t; w > 0 && ++col < goalc; w--);`
unfoldable pub expand_tab : ℕ → ℕ → ℕ → ℕ
expand_tab goalc zero col = col
expand_tab goalc (suc w) col =
    let next = expand_tab goalc w (col + 1) in if ltb (col + 1) goalc then next else col + 1

-- The loop of `goto_goalc`, with the rounds left: the offset at which it ends.
unfoldable pub goto_goalc_loop : Buffer → ℕ → ℕ → ℕ → ℕ → Option ℕ
unfolding expand_tab
goto_goalc_loop bp t zero i col = some i
goto_goalc_loop bp t (suc rounds) i col = do
  let next = (do
    c ← get_buffer_char bp i
    goto_goalc_loop bp t rounds (i + 1)
        (if c == 9 then expand_tab bp.goalc (t - col % t) col else col + 1))
  if col == bp.goalc then some i else next

unfoldable pub goto_goalc : Editor → Option Editor
unfolding goto_goalc_loop
goto_goalc ed = do
  let bp = ed.cur_bp
  i ← goto_goalc_loop bp (tab_width ed) (buffer_line_len bp bp.pt) (get_buffer_line_o bp) 0
  bp' ← set_buffer_pt bp i
  some (set_cur_bp ed bp')

-- The loop of `move_line` over the steps left; it returns the steps that were not made.
unfoldable pub move_line_loop : Bool → ℕ → Buffer → Option (ℕ × Buffer)
move_line_loop forward zero bp = some (0, bp)
move_line_loop forward (suc n) bp =
    let o = if forward then buffer_next_line bp bp.pt else buffer_prev_line bp bp.pt in
    let go_on = (do bp' ← set_buffer_pt bp o; move_line_loop forward n bp') in
    if o == size_max then some (suc n, bp) else go_on

abbrev is_line_command : Command → Bool
is_line_command next_line = true
is_line_command previous_line = true
is_line_command _ = false

unfoldable pub move_line : Bool → ℕ → Editor → Option (Bool × Editor)
unfolding move_line_loop goto_goalc
move_line forward n ed = do
  col ← if is_line_command ed.last_command then some ed.cur_bp.goalc else get_goalc ed
  (left, bp) ← move_line_loop forward n (record (ed.cur_bp) { goalc = col })
  ed1 ← goto_goalc (set_cur_bp ed bp)
  some (left == 0, record ed1 { need_resync = true })

-- The loop of `offset_to_line`, on fuel.
unfoldable pub line_count_loop : ℕ → Buffer → ℕ → ℕ → ℕ → ℕ
line_count_loop zero bp offset o n = n
line_count_loop (suc fuel) bp offset o n =
    let rest = line_count_loop fuel bp offset (buffer_next_line bp o) (n + 1) in
    if ltb (buffer_end_of_line bp o) offset then rest else n

unfoldable pub offset_to_line : Buffer → ℕ → ℕ
unfolding line_count_loop
offset_to_line bp offset = line_count_loop (suc (get_buffer_size bp)) bp offset 0 0
