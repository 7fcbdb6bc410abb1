-- ===== src/Undo.antt =====
-- Undoing (src/undo.c). A delta is removed by being carried out; what that changes is itself
-- logged, so that undo can be undone.
pub mod Revert
use zile.Prelude.{
  ℕ, zero, suc, ◌+◌, ◌*◌, length, List, [], ◌∷◌, map, Option, none, some, Bool, true, false,
  if◌then◌else◌, ◌>>=◌, ◌>>◌,
}
use zile.Estr.{Estr}
use zile.Buffer.{Buffer, Undo, Delta, replace_block, start_sequence, end_sequence}
use zile.Editor.{
  Editor, set_cur_bp, say, undo_disabled, no_further_undo, undo_done, undo_start_sequence,
  undo_end_sequence, replace_estr, warn_if_readonly_buffer,
}
use zile.Move.{goto_offset}

-- What `revert_action` does at one delta that does not end a sequence, or behind a sequence.
unfoldable pub revert_delta : Undo → Editor → Option Editor
revert_delta u ed = do
  ed1 ← elim u.delta [
    | replace_block text size ↦ do
      ed0 ← goto_offset ed u.o
      (_, ed0') ← replace_estr ed0 size text
      some ed0'
    | start_sequence ↦ goto_offset ed u.o
    | end_sequence ↦ some ed
  ]
  some (if u.unchanged then set_cur_bp ed1 (record (ed1.cur_bp) { modified = false }) else ed1)

-- The end of `revert_action`, at the delta that it has come to.
unfoldable pub revert_last : List Undo → Editor → Option (List Undo × Editor)
unfolding revert_delta
revert_last [] ed = none
revert_last (u ∷ rest) ed = do ed' ← revert_delta u ed; some (rest, ed')

-- `revert_action` on fuel, with its loop over a sequence; the list is the delta and those behind
-- it, and what is returned is the list from the next delta on. An empty list is the NULL that
-- the code would follow.
unfoldable mutual
  unfolding revert_last

  pub revert_action : ℕ → List Undo → Editor → Option (List Undo × Editor)
  revert_action zero us ed = none
  revert_action (suc fuel) [] ed = none
  revert_action (suc fuel) (u ∷ rest) ed =
      let simple = revert_last (u ∷ rest) ed in
      let sequence = (do
        (us', ed1) ← revert_sequence fuel rest (undo_start_sequence ed)
        revert_last us' (undo_end_sequence ed1)) in
      elim u.delta [ end_sequence ↦ sequence | _ ↦ simple ]

  pub revert_sequence : ℕ → List Undo → Editor → Option (List Undo × Editor)
  revert_sequence zero us ed = none
  revert_sequence (suc fuel) [] ed = none
  revert_sequence (suc fuel) (u ∷ rest) ed =
      let more = (do (us', ed') ← revert_action fuel (u ∷ rest) ed; revert_sequence fuel us' ed') in
      elim u.delta [ start_sequence ↦ some (u ∷ rest, ed) | _ ↦ more ]

-- A call visits each delta at most once as itself and once from a loop.
abbrev undo_fuel : List Undo → ℕ
undo_fuel us = 2 * length us + 1

unfoldable pub undo : Editor → Option (Bool × Editor)
unfolding revert_action
undo ed =
    let bp = ed.cur_bp in
    let reverted = (do
      (us, ed1) ← revert_action (undo_fuel bp.next_undop) bp.next_undop ed
      some (true, say (set_cur_bp ed1 (record (ed1.cur_bp) { next_undop = us })) undo_done)) in
    if bp.noundo
    then some (false, say ed undo_disabled)
    else if bp.readonly
    then some (false, (warn_if_readonly_buffer ed).1)
    else elim bp.next_undop [
      | [] ↦
          some
            (false, say (set_cur_bp ed (record bp { next_undop = bp.last_undop })) no_further_undo)
      | _ ∷ _ ↦ reverted
    ]

-- `undo_set_unchanged` of the log: `next_undop` is a tail of the same nodes.
unfoldable pub undo_set_unchanged : List Undo → List Undo
undo_set_unchanged [] = []
undo_set_unchanged (u ∷ us) = record u { unchanged = false } ∷ undo_set_unchanged us
