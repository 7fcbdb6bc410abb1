-- ===== src/BlankLines.antt =====
-- delete-blank-lines (src/funcs.c). The loops over the blank lines run on fuel.
use zile.Prelude.{
  ℕ, zero, suc, ◌+◌, ◌-◌, ◌%◌, min, max, Option, none, some, Bool, true, false, not, ◌&&◌, ◌==◌,
  ltb, if◌then◌else◌, ◌>>=◌, ℤ, pos, negsuc,
}
use zile.Astr.{size_mod}
use zile.Estr.{eol_len}
use zile.Buffer.{get_buffer_size, get_buffer_line_o, buffer_next_line}
use zile.Editor.{Editor, undo_start_sequence, undo_end_sequence}
use zile.Move.{goto_offset, is_blank_line}
use zile.Kill.{marker_of, unchain_marker, point_marker, deactivate_mark, delete_region}
use zile.Editor.{set_cur_bp}
use zile.Run.{Action}
use zile.Line.{insert_newline, intercalate_newline}
use zile.Indent.{forward_line}

-- `G_forward_line (n) == SCM_BOOL_T && is_blank_line ()`
unfoldable pub blank_beside : ℤ → Action
blank_beside n ed = do
  (ok, ed1) ← forward_line n ed
  let here = (do blank ← is_blank_line ed1.cur_bp; some (blank, ed1))
  if ok then here else some (false, ed1)

-- The end of the blank lines from the point on.
unfoldable pub blanks_end : ℕ → Editor → Option (ℕ × Editor)
blanks_end zero ed = none
blanks_end (suc fuel) ed = do
  (more, ed1) ← blank_beside (pos 1) ed
  let rest = blanks_end fuel ed1
  if more then rest else some (buffer_next_line ed.cur_bp ed.cur_bp.pt, ed1)

-- The start of the blank lines up to the point.
unfoldable pub blanks_start : ℕ → Editor → Option (ℕ × Editor)
blanks_start zero ed = none
blanks_start (suc fuel) ed = do
  (more, ed1) ← blank_beside (negsuc 0) ed
  let rest = blanks_start fuel ed1
  if more then rest else some (get_buffer_line_o ed.cur_bp, ed1)

pub record Blanks : Type 0 where
  pub start : ℕ
  pub end : ℕ
  pub single : Bool

abbrev pub go_back : ℕ → Editor → Option Editor
go_back id ed = do m ← marker_of ed.cur_bp.markers id; goto_offset ed m.o

-- "Find following blank lines."
unfoldable pub following_blanks : ℕ → Editor → Option (Blanks × Editor)
unfolding blank_beside blanks_end
following_blanks fuel ed = do
  let o = get_buffer_line_o ed.cur_bp
  (blank, ed1) ← blank_beside (pos 1) ed
  let found = (do
    (end, ed2) ← blanks_end fuel ed1
    some (
      record { start = ed1.cur_bp.pt; end = min end (get_buffer_size ed2.cur_bp); single = true },
      ed2,
    ))
  if blank then found else some (record { start = o; end = o; single = true }, ed1)

-- "If this line is blank, find any preceding blank lines."
unfoldable pub preceding_blanks : ℕ → ℕ → Blanks → Editor → Option (Blanks × Editor)
unfolding blanks_start
preceding_blanks fuel id r ed = do
  let next = buffer_next_line ed.cur_bp ed.cur_bp.pt
  (start, ed1) ← blanks_start fuel ed
  ed2 ← go_back id ed1
  let end = max r.end next
  some (
    record {
      start = start;
      end = min end (get_buffer_size ed2.cur_bp);
      single =
          start == get_buffer_line_o ed2.cur_bp
          && not (ltb (buffer_next_line ed2.cur_bp ed2.cur_bp.pt) end);
    },
    ed2,
  )

unfoldable pub delete_blank_lines : ℕ → Editor → Option Editor
unfolding following_blanks preceding_blanks
delete_blank_lines fuel ed =
    let (ed1, id) = point_marker ed in
    do
      (r1, ed2) ← following_blanks fuel (undo_start_sequence ed1)
      ed3 ← go_back id ed2
      blank ← is_blank_line ed3.cur_bp
      (r, ed4) ← if blank then preceding_blanks fuel id r1 ed3 else some (r1, ed3)
      let at_eob = r.end == get_buffer_size ed4.cur_bp && ltb 0 r.start
      let start =
          if at_eob then (r.start + size_mod - eol_len ed4.cur_bp.text.eol) % size_mod else r.start
      (_, ed5) ←
          if ltb start r.end
          then delete_region ed4 (record { start = start; end = r.end })
          else some (true, ed4)
      (_, ed6) ←
          if r.single
          then some (true, ed5)
          else if at_eob
          then insert_newline ed5
          else intercalate_newline ed5
      let ed7 = undo_end_sequence ed6
      some (deactivate_mark (set_cur_bp ed7 (unchain_marker ed7.cur_bp id)))
