-- ===== src/Editing/Refines.antt =====
-- Runs of the editing primitives do to a buffer what they do to a text with a point (src/buffer.c).
use zile.Prelude.{
  ℕ, ◌+◌, ◌≤◌, ◌<◌, ◌≡◌, refl, sym, ap, ◌∙◌, List, [], ◌∷◌, ◌++◌, some, true, false, arith, length,
  length-append, inl, ==_refl,
}
use zile.Astr.{size_mod, size_max}
use zile.Estr.{Eol, Estr}
use zile.Estr.Convert.{convert}
use zile.Buffer.{Buffer, bytes, get_buffer_size}
use zile.Buffer.Gap.{Shows}
use zile.Editor.{Editor, max_gap, insert_estr, say, end_of_buffer}
use zile.Editor.Replace.{replace_estr_lem, new_text}
use zile.Move.{eobp}
use zile.Move.Goto.{goto_offset_lem, arrived, length-bytes}
use zile.Move.LineEnds.{get_buffer_size_lem}
use zile.Kill.{delete_char, deactivate_mark}
use zile.Kill.Character.{delete_char_lem}
use zile.Editing.{Edit, go_to, put_in, take_out, run_edit, run_edits, Text, edit_text, edit_texts}
use zile.Editing.Kept.{replace_estr-gap, delete_char-SameKind}

-- The current buffer is writable, its gap is small and it shows the text with the point in it.
pub record Holds (eol : Eol) (ed : Editor) (t : Text) : Type 0 where
  pub shows : Shows ed.cur_bp t.before t.after
  pub eol_is : ed.cur_bp.text.eol ≡ eol
  pub writable : ed.cur_bp.readonly ≡ false
  pub gap_small : ed.cur_bp.gap ≤ max_gap

-- The text and two gaps are below the machine's sizes.
abbrev pub Small : Text → Type 0
Small t = length t.before + length t.after + 8192 < size_max

abbrev pub Allowed : Edit → Text → Type 0
Allowed (go_to o) t = o ≤ length (t.before ++ t.after)
Allowed (put_in es) t = length es.str.text < size_mod
Allowed take_out t = Unit {0}

-- Every edit of the run stays within the text, and the text stays small.
abbrev pub Fits : Eol → List Edit → Text → Type 0
Fits eol [] t = Small t
Fits eol (e ∷ es) t = Small t × Allowed e t × Fits eol es (edit_text eol e t)

Fits-Small : (eol : Eol) (es : List Edit) (t : Text) → Fits eol es t → Small t
Fits-Small eol [] t h = h
Fits-Small eol (e ∷ es) t h = h.0

abbrev Steps : Eol → Edit → Editor → Text → Type 0
Steps eol e ed t = (ed' : Editor) × (run_edit e ed ≡ some ed') × Holds eol ed' (edit_text eol e t)

go_to-Steps :
    (eol : Eol) (o : ℕ) (ed : Editor) (t : Text)
    → Holds eol ed t
    → o ≤ length (t.before ++ t.after)
    → Steps eol (go_to o) ed t
unfolding run_edit edit_text
go_to-Steps eol o ed t h le =
    let (s, col, resync, p, shows) = goto_offset_lem ed t.before t.after h.shows o le in
    (
      arrived ed s o col resync,
      p,
      record { shows = shows; eol_is = h.eol_is; writable = h.writable; gap_small = h.gap_small },
    )

put_in-Steps :
    (eol : Eol) (es : Estr) (ed : Editor) (t : Text)
    → Holds eol ed t
    → length es.str.text < size_mod
    → Small (edit_text eol (put_in es) t)
    → Steps eol (put_in es) ed t
unfolding run_edit edit_text insert_estr
put_in-Steps eol es ed t h lt small =
    let text : new_text ed es ≡ convert es.eol eol 0 es.str.text =
      ap (λ e. convert es.eol e 0 es.str.text) h.eol_is in
    let (ed', p, shows, r) =
      replace_estr_lem ed es t.before [] t.after h.shows h.writable (inl refl) lt (
        omega (arith, ap length text, length-append t.before (convert es.eol eol 0 es.str.text))) in
    (
      ed',
      rw p refl,
      record {
        shows = rw text at shows;
        eol_is = r.eol_kept ∙ h.eol_is;
        writable = r.readonly_kept ∙ h.writable;
        gap_small = replace_estr-gap ed ed' 0 es true h.writable p;
      },
    )

eobp-true :
    (bp : Buffer) (pre : List ℕ) → Shows bp pre [] → length (bytes bp) < size_max → eobp bp ≡ true
unfolding eobp
eobp-true bp pre h small =
    let e : get_buffer_size bp ≡ bp.pt = get_buffer_size_lem bp pre [] h small ∙ omega arith in
    rw e (==_refl bp.pt)

at_end :
    (ed : Editor) (before : List ℕ)
    → Shows ed.cur_bp before []
    → length (bytes ed.cur_bp) < size_max
    → delete_char ed ≡ some (false, say (deactivate_mark ed) end_of_buffer)
unfolding delete_char deactivate_mark
at_end ed before h small =
    rw
      (eobp-true (deactivate_mark ed).cur_bp before (record { layout = h.layout; at_pt = h.at_pt })
        small)
      refl

take_out-Steps :
    (eol : Eol) (ed : Editor) (before after : List ℕ)
    → Holds eol ed (record { before = before; after = after })
    → Small (record { before = before; after = after })
    → Steps eol take_out ed (record { before = before; after = after })
unfolding run_edit edit_text deactivate_mark
take_out-Steps eol ed before [] h small = (
  say (deactivate_mark ed) end_of_buffer,
  rw
      (at_end ed before h.shows
        (omega (arith, length-bytes ed.cur_bp before [] h.shows, h.gap_small)))
      refl,
  record {
    shows = record { layout = h.shows.layout; at_pt = h.shows.at_pt };
    eol_is = h.eol_is;
    writable = h.writable;
    gap_small = h.gap_small;
  },
)
take_out-Steps eol ed before (c ∷ s) h small =
    let (ed', p, shows, modified, inactive) =
      delete_char_lem ed before c s h.shows h.writable
        (omega (arith, length-bytes ed.cur_bp before (c ∷ s) h.shows, h.gap_small)) in
    let ((same_eol, same_readonly), gap_small) = delete_char-SameKind ed ed' h.writable p in
    (
      ed',
      rw p refl,
      record {
        shows = rw (h.eol_is) at shows;
        eol_is = sym same_eol ∙ h.eol_is;
        writable = sym same_readonly ∙ h.writable;
        gap_small = gap_small;
      },
    )

run_edit-Steps :
    (eol : Eol) (e : Edit) (ed : Editor) (t : Text)
    → Holds eol ed t
    → Allowed e t
    → Small t
    → Small (edit_text eol e t)
    → Steps eol e ed t
run_edit-Steps eol (go_to o) ed t h le small small1 = go_to-Steps eol o ed t h le
run_edit-Steps eol (put_in es) ed t h lt small small1 = put_in-Steps eol es ed t h lt small1
run_edit-Steps eol take_out ed t h u small small1 = take_out-Steps eol ed t.before t.after h small

-- From a writable buffer that shows a text, and as long as every motion stays within the text and
-- the sizes below the machine's, any run of motions, insertions and deletions of the character
-- behind the point succeeds, and the buffer then shows, with the point in its place, what the same
-- run makes of the text.
pub run_edits-Holds :
    (eol : Eol) (es : List Edit) (ed : Editor) (t : Text)
    → Holds eol ed t
    → Fits eol es t
    → (ed' : Editor) × (run_edits es ed ≡ some ed') × Holds eol ed' (edit_texts eol es t)
unfolding run_edits edit_texts
run_edits-Holds eol [] ed t h fits = (ed, refl, h)
run_edits-Holds eol (e ∷ es) ed t h (small, allowed, fits) =
    let (ed1, p, h1) =
      run_edit-Steps eol e ed t h allowed small (Fits-Small eol es (edit_text eol e t) fits) in
    let (ed2, q, h2) = run_edits-Holds eol es ed1 (edit_text eol e t) h1 fits in
    (ed2, rw (p, q) refl, h2)
