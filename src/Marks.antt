-- ===== src/Marks.antt =====
-- The mark commands (src/funcs.c), the ends of the buffer (src/basic.c) and the mark ring
-- (src/marker.c).
use zile.Prelude.{ℕ, ◌+◌, [], ◌∷◌, Option, none, some, true, false, if◌then◌else◌, ◌>>=◌, ℤ}
use zile.Buffer.{Buffer, Marker, get_buffer_size}
use zile.Editor.{Editor, set_cur_bp, say, no_mark_set}
use zile.Move.{goto_offset}
use zile.Kill.{
  marker_of, unchain_marker, move_markers, set_markers, set_mark, activate_mark, set_mark_command,
}
use zile.Run.{Action, move_with_uniarg}
use zile.Words.{move_word}

unfoldable pub beginning_of_buffer_command : Editor → Option Editor
beginning_of_buffer_command ed = goto_offset ed 0

unfoldable pub end_of_buffer_command : Editor → Option Editor
end_of_buffer_command ed = goto_offset ed (get_buffer_size ed.cur_bp)

-- `set_marker_o` of the mark.
unfoldable pub move_mark : ℕ → ℕ → Buffer → Buffer
move_mark id o bp = set_markers bp (move_markers id o bp.markers)

unfoldable pub exchange_point_and_mark : Action
unfolding move_mark
exchange_point_and_mark ed =
    let exchanged = λ (id : ℕ). (do
      m ← marker_of ed.cur_bp.markers id
      ed1 ← goto_offset ed m.o
      let ed2 = activate_mark (set_cur_bp ed1 (move_mark id ed.cur_bp.pt ed1.cur_bp))
      some (true, record ed2 { need_resync = true })) in
    elim ed.cur_bp.mark [ none ↦ some (false, say ed no_mark_set) | some id ↦ exchanged id ]

unfoldable pub mark_whole_buffer : Action
unfolding end_of_buffer_command beginning_of_buffer_command
mark_whole_buffer ed = do
  ed1 ← end_of_buffer_command ed
  ed2 ← beginning_of_buffer_command (set_mark_command ed1)
  some (true, ed2)

-- The mark ring holds copies, of which the last is first here. The commands that push a mark pop it
-- before they end, so that its buffer is the current one.
unfoldable pub push_mark : Editor → Option Editor
push_mark ed =
    let bp = ed.cur_bp in
    let pushed = λ (o : ℕ).
      (let m : Marker = record { id = ed.fresh; o = o } in
        activate_mark (
          set_mark (record ed {
            cur_bp = set_markers bp (m ∷ bp.markers);
            fresh = ed.fresh + 1;
            mark_ring = ed.fresh ∷ ed.mark_ring;
          }))) in
    elim bp.mark [
      | none ↦ some (pushed 0)
      | some id ↦ do m ← marker_of bp.markers id; some (pushed m.o)
    ]

unfoldable pub pop_mark : Editor → Option Editor
pop_mark ed = elim ed.mark_ring [
  | [] ↦ none
  | top ∷ rest ↦ do
    let bp = ed.cur_bp
    let bp1 : Buffer = elim bp.mark [ none ↦ bp | some id ↦ unchain_marker bp id ]
    m ← marker_of bp1.markers top
    let copy : Marker = record { id = ed.fresh; o = m.o }
    let bp2 = unchain_marker (set_markers bp1 (copy ∷ bp1.markers)) top
    some (record ed {
      cur_bp = record bp2 { mark = some (ed.fresh) };
      fresh = ed.fresh + 1;
      mark_ring = rest;
    })
]

unfoldable pub mark_word : ℕ → ℤ → Action
unfolding move_word exchange_point_and_mark
mark_word fuel n ed = do
  (ok, ed1) ← move_with_uniarg n (move_word fuel) (set_mark_command ed)
  let exchanged = (do (_, ed2) ← exchange_point_and_mark ed1; some (true, ed2))
  if ok then exchanged else some (false, ed1)
