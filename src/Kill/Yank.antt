-- ===== src/Kill/Yank.antt =====
-- What is killed can be yanked (src/killring.c).
use zile.Prelude.{
  ℕ, ◌+◌, ◌-◌, ◌<◌, ◌≡◌, ◌⊎◌, refl, sym, ap, ◌∙◌, List, [], ◌++◌, Option, none, some, Bool, true,
  false, arith, length, take, length-append, take_left, drop_left, inl, inr, some_inj, if-eq-some,
  >>=-eq-some, Option-cases,
}
use zile.Buffer.{Buffer, Region, get_region_size, get_buffer_region, set_buffer_pt}
use zile.Estr.{lf, Estr, estr_len, estr_empty, estr_cat, estr_replace_estr}
use zile.Buffer.Gap.{Shows, Shows-eq}
use zile.Editor.{
  Editor, kill_region, min_gap, undo_save_block, open_gap, adjust_gap, clear_gap, replace_estr,
  warn_if_readonly_buffer,
}
use zile.Move.{goto_offset}
use zile.Buffer.Copy.{slice, get_buffer_region_lem}
use zile.Astr.{size_mod, astr_new}
use zile.Estr.Convert.{convert, convert_self}
use zile.Estr.Convert.Replace.{estr_cat_lem}
use zile.Editor.Replace.{replace_estr_lem, new_text}
use zile.Kill.Delete.{delete_region_lem}
use zile.Kill.Copy.{ring}
use zile.Kill.{
  delete_region, copy_or_kill_region, kill_ring_push, yank, set_mark_command, set_mark,
  activate_mark, deactivate_mark, point_marker, marker_of, unchain_marker,
}

-- What a buffer is besides its text.
abbrev pub SameKind : Buffer → Buffer → Type 0
SameKind b b' = (b.text.eol ≡ b'.text.eol) × (b.readonly ≡ b'.readonly)

set_buffer_pt-SameKind : (b b' : Buffer) (o : ℕ) → set_buffer_pt b o ≡ some b' → SameKind b b'
unfolding set_buffer_pt
set_buffer_pt-SameKind b b' o h = ground arith

undo_save_block-SameKind :
    (b b' : Buffer) (o del size : ℕ) → undo_save_block b o del size ≡ some b' → SameKind b b'
unfolding undo_save_block
undo_save_block-SameKind b b' o del size h = ground arith

open_gap-SameKind :
    (b b' : Buffer) (del newlen : ℕ) → open_gap b del newlen ≡ some b' → SameKind b b'
unfolding open_gap adjust_gap clear_gap
open_gap-SameKind b b' del newlen h = ground arith

estr_replace_estr-eol :
    (es es' src : Estr) (pos : ℕ) → estr_replace_estr es pos src ≡ some es' → es.eol ≡ es'.eol
unfolding estr_replace_estr
estr_replace_estr-eol es es' src pos h = ground arith

-- What an edit keeps of an editor.
abbrev pub Keeps : Editor → Editor → Type 0
Keeps ed ed' = SameKind ed.cur_bp ed'.cur_bp × (ed.kill_ring_text ≡ ed'.kill_ring_text)

Keeps-trans : (e f g : Editor) → Keeps e f → Keeps f g → Keeps e g
Keeps-trans e f g ((a, b), c) ((x, y), z) = ((a ∙ x, b ∙ y), c ∙ z)

pub goto_offset-Keeps : (ed ed' : Editor) (o : ℕ) → goto_offset ed o ≡ some ed' → Keeps ed ed'
unfolding goto_offset
goto_offset-Keeps ed ed' o h =
    let (b, e, h1) = >>=-eq-some (set_buffer_pt ed.cur_bp o) _ h in
    let (eol, w) = set_buffer_pt-SameKind ed.cur_bp b o e in ground arith

pub replace_estr-Keeps :
    (ed ed' : Editor) (del : ℕ) (es : Estr) (ok : Bool)
    → replace_estr ed del es ≡ some (ok, ed')
    → Keeps ed ed'
unfolding replace_estr warn_if_readonly_buffer
replace_estr-Keeps ed ed' del es ok h =
    if-eq-some ed.cur_bp.readonly _ _ h (λ p c. ground arith)
      (λ p c.
        (let (b1, e1, h1) =
            >>=-eq-some
              (undo_save_block ed.cur_bp ed.cur_bp.pt del (estr_len es ed.cur_bp.text.eol)) _ c in
          let (b2, e2, h2) = >>=-eq-some (open_gap b1 del (estr_len es ed.cur_bp.text.eol)) _ h1 in
          let (t, e3, h3) = >>=-eq-some (estr_replace_estr b2.text b2.pt es) _ h2 in
          let (x, y) = undo_save_block-SameKind ed.cur_bp b1 _ _ _ e1 in
          let (x', y') = open_gap-SameKind b1 b2 _ _ e2 in
          let z = estr_replace_estr-eol b2.text t es b2.pt e3 in
          let e : ◌≡◌ {A = Option (Bool × Editor)} _ (some (ok, ed')) = h3 in
          rw (← ap (λ (q : Bool × Editor). q.1) (some_inj e)) ((x ∙ x' ∙ z, y ∙ y'), refl)))

delete_region-Keeps :
    (ed ed' : Editor) (r : Region) (ok : Bool) → delete_region ed r ≡ some (ok, ed') → Keeps ed ed'
unfolding delete_region point_marker unchain_marker warn_if_readonly_buffer
delete_region-Keeps ed ed' r ok h =
    let ed1 = (point_marker ed).0 in
    if-eq-some ed.cur_bp.readonly _ _ h (λ p c. ground arith)
      (λ p c.
        (let (ed2, e2, h2) = >>=-eq-some (goto_offset ed1 r.start) _ c in
          let (q, e3, h3) = >>=-eq-some (replace_estr ed2 (get_region_size r) estr_empty) _ h2 in
          let (m, e4, h4) = >>=-eq-some (marker_of q.1.cur_bp.markers ed.fresh) _ h3 in
          let (ed4, e5, h5) = >>=-eq-some (goto_offset q.1 m.o) _ h4 in
          let k1 =
            Keeps-trans ed1 ed2 q.1 (goto_offset-Keeps ed1 ed2 r.start e2)
              (replace_estr-Keeps ed2 q.1 _ estr_empty q.0 e3) in
          let k2 = Keeps-trans ed1 q.1 ed4 k1 (goto_offset-Keeps q.1 ed4 m.o e5) in
          let e : ◌≡◌ {A = Option (Bool × Editor)} _ (some (ok, ed')) = h5 in
          rw (← ap (λ (q : Bool × Editor). q.1) (some_inj e)) k2))

kill_steps :
    (ed ed3 : Editor) (r : Region) (t es : Estr)
    → get_buffer_region ed.cur_bp r ≡ some t
    → estr_cat (ring ed) t ≡ some es
    → delete_region (record ed { kill_ring_text = some es }) r ≡ some (true, ed3)
    → ed.cur_bp.readonly ≡ false
    → copy_or_kill_region true ed r
      ≡ some (true, deactivate_mark (record ed3 { this_command = kill_region }))
unfolding copy_or_kill_region kill_ring_push
kill_steps ed ed3 r t es p q d w = rw (p, q, d, w) refl

yank_steps :
    (ed ed2 : Editor) (text : Estr)
    → ed.kill_ring_text ≡ some text
    → replace_estr (set_mark_command ed) 0 text ≡ some (true, ed2)
    → ed.cur_bp.readonly ≡ false
    → yank ed ≡ some (true, deactivate_mark ed2)
unfolding yank
yank_steps ed ed2 text k q w = rw (k, yank) (rw (q, w) refl)

-- Setting the mark is of no concern to the text.
set_mark_command-text :
    (ed : Editor) (pre post : List ℕ)
    → Shows ed.cur_bp pre post
    → Shows (set_mark_command ed).cur_bp pre post
      × (((set_mark_command ed).cur_bp.text.eol ≡ ed.cur_bp.text.eol)
          × ((set_mark_command ed).cur_bp.readonly ≡ ed.cur_bp.readonly))
unfolding set_mark_command set_mark activate_mark point_marker
set_mark_command-text ed pre post h = elim (Option-cases ed.cur_bp.mark) [
  | inl p ↦ rw p (record { layout = h.layout; at_pt = h.at_pt }, (refl, refl))
  | inr (id, p) ↦ rw p (record { layout = h.layout; at_pt = h.at_pt }, (refl, refl))
]

-- Killing a region of a writable buffer with Unix line ends, at either end of which the point is,
-- as the first of a run of kills, succeeds when the text with a new gap is below the machine's
-- size and shows the text without the region; yanking then succeeds, and shows the region's text
-- where it was, with the point behind it.
pub yank-copy_or_kill_region :
    (ed : Editor) (pre d post x y : List ℕ) (s : ℕ)
    → Shows ed.cur_bp x y
    → x ++ y ≡ pre ++ (d ++ post)
    → s ≡ length pre
    → ed.cur_bp.readonly ≡ false
    → ed.cur_bp.text.eol ≡ lf
    → ed.kill_ring_text ≡ none
    → (ed.cur_bp.pt ≡ s) ⊎ (ed.cur_bp.pt ≡ s + length d)
    → length (x ++ y) + min_gap < size_mod
    → (ed1 : Editor) × (ed2 : Editor) × (copy_or_kill_region true ed
          (record { start = s; end = s + length d })
        ≡ some (true, ed1))
      × Shows ed1.cur_bp pre post
      × (yank ed1 ≡ some (true, ed2))
      × Shows ed2.cur_bp (pre ++ d) post
unfolding deactivate_mark astr_new
yank-copy_or_kill_region ed pre d post x y s h xy at w unix empty ends small =
    let r : Region = record { start = s; end = s + length d } in
    let total : length (x ++ y) ≡ length pre + (length d + length post) =
      ap length xy
      ∙ length-append pre (d ++ post)
      ∙ ap (λ n. length pre + n) (length-append d post) in
    let (t, p, text, eol) =
      get_buffer_region_lem ed.cur_bp x y h s (s + length d) (omega arith) (omega arith) in
    let cut : slice s (s + length d) (x ++ y) ≡ d =
      ap (slice s (s + length d)) xy
      ∙ ap (take (s + length d - s)) (drop_left s pre (d ++ post) at)
      ∙ take_left (s + length d - s) d post (omega arith) in
    let no_ring : ring ed ≡ record { str = astr_new; eol = lf } = rw empty refl in
    let taken : convert t.eol lf 0 t.str.text ≡ d =
      ap (λ e. convert e lf 0 t.str.text) (eol ∙ unix) ∙ convert_self lf t.str.text ∙ text ∙ cut in
    let (es, q, es_text, es_eol) =
      estr_cat_lem (record { str = astr_new; eol = lf }) t (omega (arith, ap length (text ∙ cut)))
        (omega (arith, ap length taken)) in
    let ringed : Editor = record ed { kill_ring_text = some es } in
    let h1 : Shows ringed.cur_bp x y = record { layout = h.layout; at_pt = h.at_pt } in
    let (ed3, deleted, shows3) = delete_region_lem ringed pre d post x y s h1 xy at w ends small in
    let ((kept_eol, kept_w), kept_ring) = delete_region-Keeps ringed ed3 r true deleted in
    let ed1 : Editor = deactivate_mark (record ed3 { this_command = kill_region }) in
    let shows1 : Shows ed1.cur_bp pre post = record {
      layout = shows3.layout;
      at_pt = shows3.at_pt;
    } in
    let (marked, (marked_eol, marked_w)) = set_mark_command-text ed1 pre post shows1 in
    let yanked : new_text (set_mark_command ed1) es ≡ d =
      ap (λ e. convert es.eol e 0 es.str.text) (marked_eol ∙ sym kept_eol ∙ unix)
      ∙ ap (λ e. convert e lf 0 es.str.text) es_eol
      ∙ convert_self lf es.str.text
      ∙ es_text
      ∙ taken in
    let (ed2, written, shows2, effects) =
      replace_estr_lem (set_mark_command ed1) es pre [] post marked (marked_w ∙ sym kept_w ∙ w)
        (inl refl) (omega (arith, ap length (es_text ∙ taken))) (omega (arith, ap length yanked)) in
    let shows4 = Shows-eq ed2.cur_bp _ (pre ++ d) post post (ap (pre ++◌) yanked) refl shows2 in
    (
      ed1,
      deactivate_mark ed2,
      kill_steps ed ed3 r t es p (ap (λ g. estr_cat g t) no_ring ∙ q) deleted w,
      shows1,
      yank_steps ed1 ed2 es (sym kept_ring) written (sym kept_w ∙ w),
      record { layout = shows4.layout; at_pt = shows4.at_pt },
    )
