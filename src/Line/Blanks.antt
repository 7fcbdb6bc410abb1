-- ===== src/Line/Blanks.antt =====
-- The blanks behind the point in a read-only buffer (delete-horizontal-space of src/line.c).
use zile.Prelude.{ℕ, zero, suc, ◌≡◌, refl, none, some, true, false, Bool-cases, inl, inr}
use zile.Buffer.{Buffer}
use zile.Editor.{Editor, warn_if_readonly_buffer}
use zile.Move.{eolp, eobp, following_char}
use zile.Kill.{delete_char, deactivate_mark}
use zile.Line.{is_space, delete_following}

-- A blank behind the point, in a read-only buffer.
pub record IsStuck (bp : Buffer) : Type 0 where
  pub is_readonly : bp.readonly ≡ true
  pub within_line : eolp bp ≡ false
  pub within_buffer : eobp bp ≡ false
  pub blank : (c : ℕ) × (following_char bp ≡ some c) × (is_space c ≡ true)

inactive-IsStuck : (bp : Buffer) → IsStuck bp → IsStuck (record bp { mark_active = false })
unfolding eolp eobp following_char zile.Buffer.get_buffer_char
inactive-IsStuck bp h = record {
  is_readonly = h.is_readonly;
  within_line = h.within_line;
  within_buffer = h.within_buffer;
  blank = h.blank;
}

refused_bp :
    (ed : Editor)
    → (warn_if_readonly_buffer (deactivate_mark ed)).1.cur_bp
      ≡ record ed.cur_bp { mark_active = false }
unfolding warn_if_readonly_buffer deactivate_mark
refused_bp ed = elim (Bool-cases ed.cur_bp.readonly) [ inl p ↦ rw p refl | inr p ↦ rw p refl ]

refused-IsStuck :
    (ed : Editor)
    → IsStuck ed.cur_bp
    → IsStuck (warn_if_readonly_buffer (deactivate_mark ed)).1.cur_bp
refused-IsStuck ed h = rw (refused_bp ed) (inactive-IsStuck ed.cur_bp h)

delete_char_refused :
    (ed : Editor)
    → ed.cur_bp.readonly ≡ true
    → eobp ed.cur_bp ≡ false
    → delete_char ed ≡ some (false, (warn_if_readonly_buffer (deactivate_mark ed)).1)
unfolding delete_char deactivate_mark eobp
delete_char_refused ed w p = simp (p, w)

-- With a blank behind the point of a read-only buffer, no number of rounds ends the loop that
-- deletes the blanks: `delete-horizontal-space` does not return.
pub delete_following_hangs :
    (fuel : ℕ) (ed : Editor) → IsStuck ed.cur_bp → delete_following fuel ed ≡ none
unfolding delete_following
delete_following_hangs zero ed h = refl
delete_following_hangs (suc fuel) ed h =
    let (c, found, space) = h.blank in
    let again : Editor = (warn_if_readonly_buffer (deactivate_mark ed)).1 in
    let ih = delete_following_hangs fuel again (refused-IsStuck ed h) in
    simp (h.within_line, found, space, delete_char_refused ed h.is_readonly h.within_buffer, ih)
