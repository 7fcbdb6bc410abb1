-- ===== src/Editing/Kept.antt =====
-- What the editing primitives keep of a buffer: its type of line ends, whether it can be written, and
-- a gap that is not too large (src/buffer.c).
use zile.Prelude.{
  ℕ, ◌≤◌, ◌≡◌, sym, ap, ◌∙◌, Option, some, Bool, true, false, if◌then◌else◌, arith, some_inj,
  if-eq-some, >>=-eq-some, false≢true,
}
use zile.Estr.{Estr, estr_len, estr_empty, eol_len, estr_replace_estr}
use zile.Buffer.{Buffer}
use zile.Editor.{Editor, max_gap, undo_save_block, open_gap, adjust_gap, clear_gap, replace_estr}
use zile.Move.{eolp, eobp}
use zile.Kill.{delete_char, deactivate_mark}
use zile.Kill.Yank.{SameKind, replace_estr-Keeps}

open_gap-gap : (b b' : Buffer) (del newlen : ℕ) → open_gap b del newlen ≡ some b' → b'.gap ≤ max_gap
unfolding open_gap adjust_gap clear_gap
open_gap-gap b b' del newlen h = ground arith

-- After a replacement the gap is small.
pub replace_estr-gap :
    (ed ed' : Editor) (del : ℕ) (es : Estr) (ok : Bool)
    → ed.cur_bp.readonly ≡ false
    → replace_estr ed del es ≡ some (ok, ed')
    → ed'.cur_bp.gap ≤ max_gap
unfolding replace_estr
replace_estr-gap ed ed' del es ok w h =
    if-eq-some ed.cur_bp.readonly _ _ h (λ p c. absurd (false≢true (sym w ∙ p)))
      (λ p c.
        (let (b1, e1, h1) =
            >>=-eq-some
              (undo_save_block ed.cur_bp ed.cur_bp.pt del (estr_len es ed.cur_bp.text.eol)) _ c in
          let (b2, e2, h2) = >>=-eq-some (open_gap b1 del (estr_len es ed.cur_bp.text.eol)) _ h1 in
          let (t, e3, h3) = >>=-eq-some (estr_replace_estr b2.text b2.pt es) _ h2 in
          let small = open_gap-gap b1 b2 _ _ e2 in
          let e : ◌≡◌ {A = Option (Bool × Editor)} _ (some (ok, ed')) = h3 in
          rw (← ap (λ (q : Bool × Editor). q.1) (some_inj e)) small))

-- The replacement that `delete_char` makes when it succeeds.
abbrev Deletes : Editor → Editor → Type 0
Deletes ed ed' =
    (n : ℕ) × (ed2 : Editor) × (ok : Bool) × (replace_estr (deactivate_mark ed) n estr_empty
      ≡ some (ok, ed2))
    × (ed'.cur_bp ≡ record (ed2.cur_bp) { modified = true })

delete_char-Deletes :
    (ed ed' : Editor)
    → ed.cur_bp.readonly ≡ false
    → delete_char ed ≡ some (true, ed')
    → Deletes ed ed'
unfolding delete_char
delete_char-Deletes ed ed' w h =
    let bp = (deactivate_mark ed).cur_bp in
    let n = if eolp bp then eol_len bp.text.eol else 1 in
    if-eq-some (eobp bp) _ _ h
      (λ p c. absurd (false≢true (ap (λ (q : Bool × Editor). q.0) (some_inj c))))
      (λ p c.
        if-eq-some bp.readonly _ _ c (λ p' c'. absurd (false≢true (sym w ∙ p')))
          (λ p' c'.
            (let (q, e, h1) = >>=-eq-some (replace_estr (deactivate_mark ed) n estr_empty) _ c' in
              let e' : ◌≡◌ {A = Option (Bool × Editor)} _ (some (true, ed')) = h1 in
              (n, q.1, q.0, e, sym (ap (λ (q : Bool × Editor). q.1.cur_bp) (some_inj e'))))))

pub delete_char-SameKind :
    (ed ed' : Editor)
    → ed.cur_bp.readonly ≡ false
    → delete_char ed ≡ some (true, ed')
    → SameKind ed.cur_bp ed'.cur_bp × (ed'.cur_bp.gap ≤ max_gap)
unfolding deactivate_mark
delete_char-SameKind ed ed' w h =
    let (n, ed2, ok, e, b) = delete_char-Deletes ed ed' w h in
    let (kept, _) = replace_estr-Keeps (deactivate_mark ed) ed2 n estr_empty ok e in
    rw b (kept, replace_estr-gap (deactivate_mark ed) ed2 n estr_empty ok w e)
