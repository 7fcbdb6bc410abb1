-- ===== src/Undo/Revert.antt =====
-- Carrying out the delta that `replace_estr` has logged gives the old text back.
use zile.Prelude.{
  ℕ, suc, ◌+◌, ◌≤◌, ◌<◌, ◌≡◌, refl, sym, ap, ◌∙◌, List, [], ◌∷◌, ◌++◌, Option, some, Bool, true,
  false, not, if◌then◌else◌, arith, length, take, drop, take_left, drop_left, length-append,
  append_assoc, inl, inr, ◌⊎◌,
}
use mathlib.Core.Path.{subst}
use zile.Astr.{size_mod}
use zile.Estr.{Estr}
use zile.Estr.Convert.{convert, convert_self}
use zile.Buffer.{Undo, replace_block}
use zile.Buffer.Gap.{Shows, Shows-eq}
use zile.Editor.{Editor, set_cur_bp, min_gap, replace_estr}
use zile.Editor.Replace.{Replaced, replace_estr_lem, new_text}
use zile.Move.{goto_offset}
use zile.Move.Goto.{arrived, goto_offset_lem}
use zile.Undo.{revert_delta, revert_last, revert_action}

-- The editor after a delta, its modified flag cleared where the delta says so.
abbrev settled : Bool → Editor → Editor
settled unchanged ed =
    if unchanged then set_cur_bp ed (record (ed.cur_bp) { modified = false }) else ed

settled-Shows :
    (unchanged : Bool) (ed : Editor) (pre post : List ℕ)
    → Shows ed.cur_bp pre post
    → Shows (settled unchanged ed).cur_bp pre post
settled-Shows true ed pre post h = record { layout = h.layout; at_pt = h.at_pt }
settled-Shows false ed pre post h = h

settled-modified :
    (was : Bool) (ed : Editor)
    → ed.cur_bp.modified ≡ true
    → (settled (not was) ed).cur_bp.modified ≡ was
settled-modified true ed h = h
settled-modified false ed h = refl

revert_block :
    (t : Estr) (size o : ℕ) (unchanged : Bool) (ed ed1 ed2 : Editor) (ok : Bool)
    → goto_offset ed o ≡ some ed1
    → replace_estr ed1 size t ≡ some (ok, ed2)
    → revert_delta (record { delta = replace_block t size; o = o; unchanged = unchanged }) ed
      ≡ some (settled unchanged ed2)
unfolding revert_delta
revert_block t size o unchanged ed ed1 ed2 ok p q = rw (p, q)

revert_action_block :
    (f : ℕ) (t : Estr) (size o : ℕ) (unchanged : Bool) (rest : List Undo) (ed ed' : Editor)
    → revert_delta (record { delta = replace_block t size; o = o; unchanged = unchanged }) ed
      ≡ some ed'
    → revert_action
        (suc f)
        (record { delta = replace_block t size; o = o; unchanged = unchanged } ∷ rest)
        ed
      ≡ some (rest, ed')
unfolding revert_action revert_last
revert_action_block f t size o unchanged rest ed ed' p = rw p

-- What has to hold for the replaced text `d` to be put back for `v`.
pub record CanRestore (ed : Editor) (v pre d : List ℕ) : Type 0 where
  pub room : (v ≡ []) ⊎ (length d ≤ ed.cur_bp.gap + length v)
  pub short : length d < size_mod
  pub fits : length pre + length d + min_gap < size_mod

-- Undoing a block in any state that shows the new text behind `pre`.
revert_block_lem :
    (ed : Editor) (t : Estr) (o : ℕ) (unchanged : Bool) (v pre d post x y : List ℕ)
    → Shows ed.cur_bp x y
    → x ++ y ≡ pre ++ (v ++ post)
    → o ≡ length pre
    → ed.cur_bp.readonly ≡ false
    → t.str.text ≡ d
    → t.eol ≡ ed.cur_bp.text.eol
    → CanRestore ed v pre d
    → (ed2 : Editor) × (revert_delta
          (record { delta = replace_block t (length v); o = o; unchanged = unchanged })
          ed
        ≡ some (settled unchanged ed2))
      × Shows ed2.cur_bp (pre ++ d) post
      × (ed2.cur_bp.modified ≡ true)
revert_block_lem ed t o unchanged v pre d post x y h xy at w td te can =
    let le : o ≤ length (x ++ y) = omega (arith, ap length xy, length-append pre (v ++ post)) in
    let (s, col, resync, p, shows) = goto_offset_lem ed x y h o le in
    let ed1 = arrived ed s o col resync in
    let cut_pre : take o (x ++ y) ≡ pre = ap (take o) xy ∙ take_left o pre (v ++ post) at in
    let cut_post : drop o (x ++ y) ≡ v ++ post = ap (drop o) xy ∙ drop_left o pre (v ++ post) at in
    let shows1 =
      Shows-eq ed1.cur_bp (take o (x ++ y)) pre (drop o (x ++ y)) (v ++ post) cut_pre cut_post
        shows in
    let same : new_text ed1 t ≡ d =
      ap (λ e. convert e ed.cur_bp.text.eol 0 t.str.text) te
      ∙ convert_self ed.cur_bp.text.eol t.str.text
      ∙ td in
    let len : length (new_text ed1 t) ≡ length d = ap length same in
    let room : (v ≡ []) ⊎ (length (new_text ed1 t) ≤ ed1.cur_bp.gap + length v) = elim can.room [
      | inl e ↦ inl e
      | inr e ↦ inr (omega arith)
    ] in
    let (ed2, q, shows2, r) =
      replace_estr_lem ed1 t pre v post shows1 w room (omega (arith, ap length td, can.short))
        (omega (arith, can.fits)) in
    (
      ed2,
      revert_block t (length v) o unchanged ed ed1 ed2 true p q,
      Shows-eq ed2.cur_bp (pre ++ new_text ed1 t) (pre ++ d) post post (ap (pre ++◌) same) refl
          shows2,
      r.is_modified,
    )

result_eq :
    {a b : Bool} {x y : Editor}
    → ◌≡◌ {A = Option (Bool × Editor)} (some (a, x)) (some (b, y))
    → x ≡ y
result_eq h = cc

revert-replace :
    (ed ed1 : Editor) (es : Estr) (pre d post : List ℕ) (f : ℕ)
    → Shows ed.cur_bp pre (d ++ post)
    → ed.cur_bp.readonly ≡ false
    → ed.cur_bp.noundo ≡ false
    → Shows ed1.cur_bp (pre ++ new_text ed es) post
    → Replaced ed (new_text ed es) pre d ed1
    → CanRestore ed1 (new_text ed es) pre d
    → (ed2 : Editor) × (revert_action (suc f) ed1.cur_bp.last_undop ed1
        ≡ some (ed.cur_bp.last_undop, ed2))
      × Shows ed2.cur_bp (pre ++ d) post
      × (ed2.cur_bp.modified ≡ ed.cur_bp.modified)
revert-replace ed ed1 es pre d post f h w n shows1 r can =
    let v = new_text ed es in
    let (t, td, te, log) = r.logs in
    let was = ed.cur_bp.modified in
    let log' : ed1.cur_bp.last_undop
        ≡ record { delta = replace_block t (length v); o = ed.cur_bp.pt; unchanged = not was }
          ∷ ed.cur_bp.last_undop =
      log ∙ simp n in
    let (ed2, p, shows, modified) =
      revert_block_lem ed1 t ed.cur_bp.pt (not was) v pre d post (pre ++ v) post shows1
        (append_assoc pre v post) h.at_pt (r.readonly_kept ∙ w) td (te ∙ sym r.eol_kept) can in
    (
      settled (not was) ed2,
      ap (λ us. revert_action (suc f) us ed1) log'
          ∙ revert_action_block f t (length v) ed.cur_bp.pt (not was) ed.cur_bp.last_undop ed1
              (settled (not was) ed2) p,
      settled-Shows (not was) ed2 (pre ++ d) post shows,
      settled-modified was ed2 modified,
    )

-- Undoing a replacement that `replace_estr` has made in a writable buffer that keeps a log, where
-- nothing was deleted or the new text fits the old gap and the deleted bytes, the old text fits the
-- gap that is left or nothing was inserted, and the sizes are below the machine's: the undo succeeds, the log's tail is what it goes on with, the old text is shown again
-- with the point behind it, and the buffer counts as modified exactly if it did before.
pub revert_action-replace_estr :
    (ed ed1 : Editor) (es : Estr) (pre d post : List ℕ) (f : ℕ)
    → Shows ed.cur_bp pre (d ++ post)
    → ed.cur_bp.readonly ≡ false
    → ed.cur_bp.noundo ≡ false
    → (d ≡ []) ⊎ (length (new_text ed es) ≤ ed.cur_bp.gap + length d)
    → length es.str.text < size_mod
    → length pre + length (new_text ed es) + min_gap < size_mod
    → replace_estr ed (length d) es ≡ some (true, ed1)
    → CanRestore ed1 (new_text ed es) pre d
    → (ed2 : Editor) × (revert_action (suc f) ed1.cur_bp.last_undop ed1
        ≡ some (ed.cur_bp.last_undop, ed2))
      × Shows ed2.cur_bp (pre ++ d) post
      × (ed2.cur_bp.modified ≡ ed.cur_bp.modified)
revert_action-replace_estr ed ed1 es pre d post f h w n fits short small done can =
    let (ed', q, shows, r) = replace_estr_lem ed es pre d post h w fits short small in
    let same : ed' ≡ ed1 = result_eq (sym q ∙ done) in
    revert-replace ed ed1 es pre d post f h w n
      (subst (λ x. Shows x.cur_bp (pre ++ new_text ed es) post) same shows)
      (subst (λ x. Replaced ed (new_text ed es) pre d x) same r) can
