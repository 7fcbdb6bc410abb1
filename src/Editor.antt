-- ===== src/Editor.antt =====
-- The editor's state as far as the editing primitives touch it, and `replace_estr` with what it
-- calls (src/buffer.c, src/undo.c). The current buffer stands in the state; `fresh` is the next
-- address for a marker. A function that may fail an `assert` returns an `Option`; one that
-- reports success by a `bool` returns it beside the new state.
pub mod GapSteps
pub mod OpenGap
pub mod Replace
pub mod Markers
use zile.Prelude.{
  ℕ, ◌+◌, ◌-◌, ◌%◌, min, max, List, [], ◌∷◌, map, Option, none, some, Bool, true, false, not, ◌||◌,
  ltb, if◌then◌else◌, ◌==◌, ◌>>=◌, ◌>>◌,
}
use zile.Astr.{
  Astr, size_mod, size_max, astr_new, astr_insert, astr_remove, astr_set, astr_cat_nstr,
}
use zile.Estr.{Eol, lf, Estr, estr_len, estr_next_line, estr_replace_estr}
use zile.Buffer.{
  Buffer, Marker, Undo, Delta, replace_block, start_sequence, end_sequence, set_bytes, region_new,
  get_buffer_region,
}

-- What `minibuf_error` and `minibuf_write` were last asked to show.
pub data Message : Type 0 where
  buffer_is_readonly end_of_buffer beginning_of_buffer : Message
  undo_disabled no_further_undo undo_done : Message
  mark_set mark_not_set mark_not_active kill_ring_is_empty readonly_text_copied : Message
  no_mark_set scan_error_ends scan_error_unbalanced quit no_register : Message
  window_too_small sole_window search_failed : Message

-- The commands that others ask for by `last_command`.
pub data Command : Type 0 where
  next_line previous_line kill_region mark_paragraph undo_command other : Command

-- The variables that the functions here read (tbl_vars.h.in).
pub record Variables : Type 0 where
  pub tab_width_var : ℕ
  pub kill_whole_line : Bool
  pub fill_column : ℕ
  pub auto_fill_mode : Bool
  pub indent_tabs_mode : Bool
  pub tab_always_indent : Bool

pub record Editor : Type 0 where
  pub cur_bp : Buffer
  pub need_resync : Bool
  pub echo : Option Message
  pub kill_ring_text : Option Estr
  pub last_command : Command
  pub this_command : Command
  pub fresh : ℕ
  pub mark_ring : List ℕ
  pub regs : ℕ → Option Estr
  pub vars : Variables

abbrev pub set_cur_bp : Editor → Buffer → Editor
set_cur_bp ed bp = record ed { cur_bp = bp }

abbrev pub say : Editor → Message → Editor
say ed m = record ed { echo = some m }

unfoldable pub warn_if_readonly_buffer : Editor → Bool × Editor
warn_if_readonly_buffer ed =
    if ed.cur_bp.readonly then (true, say ed buffer_is_readonly) else (false, ed)

-- `undo_save` for a type that has no text.
unfoldable pub undo_save_mark : Editor → Delta → ℕ → Editor
undo_save_mark ed delta o =
    let bp = ed.cur_bp in
    if bp.noundo
    then ed
    else set_cur_bp ed (record bp {
      last_undop = record { delta = delta; o = o; unchanged = false } ∷ bp.last_undop;
    })

unfoldable pub undo_start_sequence : Editor → Editor
unfolding undo_save_mark
undo_start_sequence ed = undo_save_mark ed start_sequence ed.cur_bp.pt

unfoldable pub undo_end_sequence : Editor → Editor
unfolding undo_save_mark
undo_end_sequence ed = undo_save_mark ed end_sequence 0

-- `undo_save` for UNDO_REPLACE_BLOCK.
unfoldable pub undo_save_block : Buffer → ℕ → ℕ → ℕ → Option Buffer
undo_save_block bp o osize size =
    let saved = (do
      text ← get_buffer_region bp (region_new o (o + osize))
      some (record bp {
        last_undop =
            record { delta = replace_block text size; o = o; unchanged = not bp.modified }
            ∷ bp.last_undop;
      })) in
    if bp.noundo then some bp else saved

abbrev pub min_gap : ℕ
min_gap = 1024

abbrev pub max_gap : ℕ
max_gap = 4096

-- "Adjust gap": the string and the size of the gap.
unfoldable pub adjust_gap : Buffer → ℕ → ℕ → Option Buffer
adjust_gap bp del newlen =
    let s = bp.text.str in
    let widened = (do
      s' ← astr_insert s bp.pt ((newlen + min_gap) - (bp.gap + del))
      some (record (set_bytes bp s') { gap = min_gap })) in
    let narrowed = (do
      s' ← astr_remove s (bp.pt + newlen + max_gap) ((bp.gap + del) - (max_gap + newlen))
      some (record (set_bytes bp s') { gap = max_gap })) in
    if ltb (bp.gap + del) newlen
    then widened
    else if ltb (max_gap + newlen) (bp.gap + del)
    then narrowed
    else some (record bp { gap = bp.gap + del - newlen })

-- "Zero any new bit of gap not produced by astr_insert."
unfoldable pub clear_gap : Buffer → ℕ → ℕ → ℕ → Option Buffer
clear_gap bp oldgap added_gap newlen =
    let used = max oldgap newlen + added_gap in
    let cleared = (do
      s' ←
          astr_set bp.text.str (bp.pt + max oldgap newlen + added_gap) 0
            (newlen + bp.gap - max oldgap newlen - added_gap)
      some (set_bytes bp s')) in
    if ltb used (bp.gap + newlen) then cleared else some bp

unfoldable pub open_gap : Buffer → ℕ → ℕ → Option Buffer
unfolding adjust_gap clear_gap
open_gap bp del newlen = do
  bp1 ← adjust_gap bp del newlen
  clear_gap bp1 bp.gap (if ltb (bp.gap + del) newlen then min_gap else 0) newlen

-- "Adjust markers", in the arithmetic of size_t; `o` is where the replaced text begins.
unfoldable pub adjust_marker : ℕ → ℕ → ℕ → Marker → Marker
adjust_marker o newlen del m =
    if ltb o m.o then record m { o = max o ((m.o + newlen + size_mod - del) % size_mod) } else m

unfoldable pub replace_estr : Editor → ℕ → Estr → Option (Bool × Editor)
replace_estr ed del es =
    let bp = ed.cur_bp in
    let newlen = estr_len es bp.text.eol in
    let replaced = (do
      bp1 ← undo_save_block bp bp.pt del newlen
      bp2 ← open_gap bp1 del newlen
      text ← estr_replace_estr bp2.text bp2.pt es
      let pt' = bp2.pt + newlen
      let bp3 : Buffer = record bp2 {
        text = text;
        pt = pt';
        markers = map (adjust_marker (pt' - newlen) newlen del) bp2.markers;
        modified = true;
      }
      some (
        true,
        record (set_cur_bp ed bp3) {
          need_resync = ed.need_resync || not (estr_next_line es 0 == size_max);
        },
      )) in
    if bp.readonly then some (false, (warn_if_readonly_buffer ed).1) else replaced

unfoldable pub insert_estr : Editor → Estr → Option (Bool × Editor)
unfolding replace_estr
insert_estr ed es = replace_estr ed 0 es

-- `(char) c`, as a byte.
unfoldable pub insert_char : Editor → ℕ → Option (Bool × Editor)
unfolding insert_estr
insert_char ed c =
    replace_estr ed 0 (record { str = astr_cat_nstr astr_new ((c % 256) ∷ []); eol = lf })
