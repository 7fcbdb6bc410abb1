-- ===== src/Kill.antt =====
-- The kill ring and what is cut into it and pasted from it (src/killring.c), with the region
-- commands of src/buffer.c and the marks of src/marker.c that they rest on.
pub mod Delete
pub mod Character
pub mod Yank
pub mod Copy
use zile.Prelude.{
  ℕ, zero, suc, ◌+◌, ◌-◌, List, [], ◌∷◌, Option, none, some, Bool, true, false, not, ◌&&◌, ◌||◌,
  ◌==◌, ltb, leb, if◌then◌else◌, ◌>>=◌, ◌>>◌, assert,
}
use zile.Astr.{astr_new}
use zile.Estr.{lf, eol_len, Estr, estr_empty, estr_cat}
use zile.Buffer.{
  Buffer, Marker, Region, region_new, get_region_size, get_buffer_region, get_buffer_char,
  get_buffer_line_o, buffer_line_len,
}
use zile.Editor.{
  Editor, Command, kill_region, set_cur_bp, say, mark_set, mark_not_set, mark_not_active,
  kill_ring_is_empty, readonly_text_copied, end_of_buffer, beginning_of_buffer,
  warn_if_readonly_buffer, replace_estr, undo_start_sequence, undo_end_sequence,
}
use zile.Move.{goto_offset, eobp, eolp, move_char}

abbrev pub set_markers : Buffer → List Marker → Buffer
set_markers bp ms = record bp { markers = ms }

unfoldable pub marker_of : List Marker → ℕ → Option Marker
marker_of [] id = none
marker_of (m ∷ ms) id = if m.id == id then some m else marker_of ms id

-- Taking a marker out of the buffer's chain.
unfoldable pub remove_marker : List Marker → ℕ → List Marker
remove_marker [] id = []
remove_marker (m ∷ ms) id = if m.id == id then ms else m ∷ remove_marker ms id

unfoldable pub unchain_marker : Buffer → ℕ → Buffer
unfolding remove_marker
unchain_marker bp id = set_markers bp (remove_marker bp.markers id)

-- A new marker at point, chained first; its address is the second result.
unfoldable pub point_marker : Editor → Editor × ℕ
point_marker ed =
    let bp = ed.cur_bp in
    let m : Marker = record { id = ed.fresh; o = bp.pt } in
    (record ed { cur_bp = set_markers bp (m ∷ bp.markers); fresh = ed.fresh + 1 }, ed.fresh)

abbrev move_to : ℕ → ℕ → Marker → Marker
move_to id o m = if m.id == id then record m { o = o } else m

unfoldable pub move_markers : ℕ → ℕ → List Marker → List Marker
move_markers id o [] = []
move_markers id o (m ∷ ms) = move_to id o m ∷ move_markers id o ms

unfoldable pub set_mark : Editor → Editor
unfolding point_marker move_markers
set_mark ed =
    let bp = ed.cur_bp in
    elim bp.mark [
      | none ↦
          let (ed1, id) = point_marker ed in set_cur_bp ed1 (record (ed1.cur_bp) { mark = some id })
      | some id ↦ set_cur_bp ed (set_markers bp (move_markers id bp.pt bp.markers))
    ]

unfoldable pub activate_mark : Editor → Editor
activate_mark ed = set_cur_bp ed (record (ed.cur_bp) { mark_active = true })

unfoldable pub deactivate_mark : Editor → Editor
deactivate_mark ed = set_cur_bp ed (record (ed.cur_bp) { mark_active = false })

unfoldable pub warn_if_no_mark : Editor → Bool × Editor
warn_if_no_mark ed = elim ed.cur_bp.mark [
  | none ↦ (true, say ed mark_not_set)
  | some id ↦ if ed.cur_bp.mark_active then (false, ed) else (true, say ed mark_not_active)
]

-- A dangling mark, which no function leaves, is `none`.
unfoldable pub calculate_the_region : Editor → Option Region
unfolding marker_of region_new
calculate_the_region ed = do
  id ← ed.cur_bp.mark
  m ← marker_of ed.cur_bp.markers id
  some (region_new ed.cur_bp.pt m.o)

unfoldable pub delete_region : Editor → Region → Option (Bool × Editor)
unfolding point_marker marker_of unchain_marker
delete_region ed r =
    let (ed1, id) = point_marker ed in
    let deleted = (do
      ed2 ← goto_offset ed1 r.start
      (_, ed3) ← replace_estr ed2 (get_region_size r) estr_empty
      m ← marker_of ed3.cur_bp.markers id
      ed4 ← goto_offset ed3 m.o
      some (true, set_cur_bp ed4 (unchain_marker ed4.cur_bp id))) in
    if ed.cur_bp.readonly then some (false, (warn_if_readonly_buffer ed).1) else deleted

unfoldable pub in_region : ℕ → ℕ → Region → Bool
in_region o x r = leb r.start (o + x) && ltb (o + x) r.end

-- `delete_char` of src/buffer.c and `backward_delete_char` of src/line.c.
unfoldable pub delete_char : Editor → Option (Bool × Editor)
unfolding deactivate_mark
delete_char ed =
    let ed1 = deactivate_mark ed in
    let bp = ed1.cur_bp in
    let deleted = (do
      (_, ed2) ← replace_estr ed1 (if eolp bp then eol_len bp.text.eol else 1) estr_empty
      some (
        true,
        record ed2 {
          cur_bp = record (ed2.cur_bp) { modified = true };
          need_resync = ed2.need_resync || eolp bp;
        },
      )) in
    if eobp bp
    then some (false, say ed1 end_of_buffer)
    else if bp.readonly
    then some (false, (warn_if_readonly_buffer ed1).1)
    else deleted

unfoldable pub backward_delete_char : Editor → Option (Bool × Editor)
unfolding delete_char
backward_delete_char ed = do
  (moved, ed1) ← move_char false 1 (deactivate_mark ed)
  let deleted = (do (_, ed2) ← delete_char ed1; some (true, ed2))
  if moved then deleted else some (false, say ed1 beginning_of_buffer)

abbrev is_kill_region : Command → Bool
is_kill_region kill_region = true
is_kill_region _ = false

unfoldable pub maybe_free_kill_ring : Editor → Editor
maybe_free_kill_ring ed =
    if is_kill_region ed.last_command then ed else record ed { kill_ring_text = none }

unfoldable pub kill_ring_push : Editor → Estr → Option Editor
kill_ring_push ed es = do
  let ring : Estr = elim ed.kill_ring_text [
    | some text ↦ text
    | none ↦ record { str = astr_new; eol = lf }
  ]
  ring' ← estr_cat ring es
  some (record ed { kill_ring_text = some ring' })

unfoldable pub copy_or_kill_region : Bool → Editor → Region → Option (Bool × Editor)
unfolding kill_ring_push delete_region deactivate_mark
copy_or_kill_region kill ed r = do
  es ← get_buffer_region ed.cur_bp r
  ed1 ← kill_ring_push ed es
  let deleted = (do (ok, ed2) ← delete_region ed1 r; assert ok; some ed2)
  let cut = if ed1.cur_bp.readonly then some (say ed1 readonly_text_copied) else deleted
  ed3 ← if kill then cut else some ed1
  some (true, deactivate_mark (record ed3 { this_command = kill_region }))

-- The loop of `kill_line` that looks for a byte that is no blank, with the rounds left.
unfoldable pub only_blanks : Buffer → ℕ → ℕ → Option Bool
only_blanks bp zero o = some true
only_blanks bp (suc rounds) o = do
  c ← get_buffer_char bp o
  let rest = only_blanks bp rounds (o + 1)
  if not (c == b' ' || c == 9) then some false else rest

-- `delete` is `G_delete_char (1)`, which goes through `execute_with_uniarg`.
unfoldable pub kill_line :
    (Editor → Option (Bool × Editor)) → Bool → Editor → Option (Bool × Editor)
unfolding only_blanks copy_or_kill_region kill_ring_push
kill_line delete whole_line ed = do
  let bp = ed.cur_bp
  let cur_line_len = buffer_line_len bp bp.pt
  let line_o = get_buffer_line_o bp
  blanks ← if whole_line then some false else only_blanks bp (cur_line_len - (bp.pt - line_o)) bp.pt
  let ed1 = undo_start_sequence ed
  let killing = (do
    let to_eol =
        copy_or_kill_region true ed1
          (region_new ed1.cur_bp.pt (get_buffer_line_o ed1.cur_bp + cur_line_len))
    (ok, ed2) ← if eolp ed1.cur_bp then some (true, ed1) else to_eol
    let newline = (do
      (deleted, ed3) ← delete ed2
      let pushed = (do
        ed4 ← kill_ring_push ed3 (record { str = record { text = 10 ∷ []; maxlen = 17 }; eol = lf })
        some (ok, undo_end_sequence (record ed4 { this_command = kill_region })))
      if deleted then pushed else some (false, ed3))
    let on = ok && (whole_line || blanks) && not (eobp ed2.cur_bp)
    if on then newline else some (ok, undo_end_sequence ed2))
  if eobp bp then some (false, say ed end_of_buffer) else killing

unfoldable pub copy_or_kill_the_region : Bool → Editor → Option (Bool × Editor)
unfolding warn_if_no_mark calculate_the_region maybe_free_kill_ring copy_or_kill_region
copy_or_kill_the_region kill ed =
    let (no_mark, ed1) = warn_if_no_mark ed in
    let killed = (do
      r ← calculate_the_region ed1
      copy_or_kill_region kill (maybe_free_kill_ring ed1) r) in
    if no_mark then some (false, ed1) else killed

-- `G_set_mark_command`, with `G_set_mark` (src/funcs.c).
unfoldable pub set_mark_command : Editor → Editor
unfolding set_mark activate_mark
set_mark_command ed = say (activate_mark (set_mark ed)) mark_set

unfoldable pub yank : Editor → Option (Bool × Editor)
unfolding set_mark_command deactivate_mark
yank ed =
    let inserted = λ (text : Estr). (do
      (_, ed1) ← replace_estr (set_mark_command ed) 0 text
      some (true, deactivate_mark ed1)) in
    elim ed.kill_ring_text [
      | none ↦ some (false, say ed kill_ring_is_empty)
      | some text ↦
          if ed.cur_bp.readonly then some (true, (warn_if_readonly_buffer ed).1) else inserted text
    ]
