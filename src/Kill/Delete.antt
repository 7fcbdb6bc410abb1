-- ===== src/Kill/Delete.antt =====
-- Deleting a region (`delete_region` of src/buffer.c), with the marker that keeps the point.
use zile.Prelude.{
  ℕ, ◌+◌, ◌-◌, ◌≤◌, ◌<◌, ◌%◌, ◌⊎◌, inl, ltb, ltb→lt, ltb→le, Bool-cases, ◌≡◌, refl, sym, ap, ◌∙◌,
  max, List, [], ◌∷◌, ◌++◌, map, some, true, false, arith, length, take, drop, length-append,
  append-nil, take_left, drop_left, inr, ==_refl,
}
use zile.Astr.{size_mod, astr_new}
use zile.Estr.{Estr, estr_empty}
use zile.Estr.Convert.{convert}
use zile.Buffer.{Buffer, Marker, get_region_size}
use zile.Buffer.Gap.{Shows, Shows-eq}
use zile.Editor.{Editor, set_cur_bp, min_gap, adjust_marker, replace_estr}
use zile.Editor.Replace.{replace_estr_lem, new_text}
use zile.Move.{goto_offset}
use zile.Move.Goto.{arrived, goto_offset_lem}
use zile.Kill.{point_marker, marker_of, unchain_marker, delete_region}

-- The marker that `point_marker` makes, and the editor that has it.
abbrev saved_point : Editor → Marker
saved_point ed = record { id = ed.fresh; o = ed.cur_bp.pt }

abbrev with_marker : Editor → Editor
with_marker ed = record ed {
  cur_bp = record (ed.cur_bp) { markers = saved_point ed ∷ ed.cur_bp.markers };
  fresh = ed.fresh + 1;
}

delete_region_steps :
    (ed ed2 ed3 ed4 : Editor) (s e : ℕ) (m : Marker)
    → ed.cur_bp.readonly ≡ false
    → goto_offset (with_marker ed) s ≡ some ed2
    → replace_estr ed2 (e - s) estr_empty ≡ some (true, ed3)
    → marker_of ed3.cur_bp.markers ed.fresh ≡ some m
    → goto_offset ed3 m.o ≡ some ed4
    → delete_region ed (record { start = s; end = e })
      ≡ some (true, set_cur_bp ed4 (unchain_marker ed4.cur_bp ed.fresh))
unfolding delete_region point_marker get_region_size
delete_region_steps ed ed2 ed3 ed4 s e m w p q r t = rw (p, q, r, t, w) refl

pub empty_short : length estr_empty.str.text < size_mod
unfolding estr_empty astr_new
empty_short = omega arith

pub nothing : (ed : Editor) → new_text ed estr_empty ≡ []
unfolding convert estr_empty astr_new
nothing ed = refl

unchain_marker-Shows :
    (bp : Buffer) (id : ℕ) (pre post : List ℕ)
    → Shows bp pre post
    → Shows (unchain_marker bp id) pre post
unfolding unchain_marker
unchain_marker-Shows bp id pre post h = record { layout = h.layout; at_pt = h.at_pt }

-- The saved point goes to the start of the deleted text, at either end of which it was.
adjusted_point :
    (s d id o : ℕ)
    → (o ≡ s) ⊎ (o ≡ s + d)
    → o < size_mod
    → adjust_marker s 0 d (record { id = id; o = o }) ≡ record { id = id; o = s }
unfolding adjust_marker
adjusted_point s d id o ends lt = elim (Bool-cases (ltb s o)) [
  | inl p ↦
      let after : o ≡ s + d = elim ends [ inl e ↦ omega (arith, ltb→lt s o p) | inr e ↦ e ] in
      let wrapped : (o + 0 + size_mod - d) % size_mod ≡ s = omega arith in
      let top : max s s ≡ s = omega arith in rw (p, wrapped, top) refl
  | inr p ↦
      let le : o ≤ s = ltb→le s o p in
      let at : o ≡ s = elim ends [ inl e ↦ e | inr e ↦ omega arith ] in rw (p, at) refl
]

adjusted_first :
    (at n d s id o : ℕ) (ms ms' : List Marker)
    → at ≡ s
    → n ≡ 0
    → (o ≡ s) ⊎ (o ≡ s + d)
    → o < size_mod
    → ms ≡ map (adjust_marker at n d) (record { id = id; o = o } ∷ ms')
    → marker_of ms id ≡ some (record { id = id; o = s })
unfolding marker_of
adjusted_first at n d s id o ms ms' e z ends lt h =
    rw (h, e, z, adjusted_point s d id o ends lt, ==_refl id) refl

pub replace_estr_size :
    (ed ed' : Editor) (es : Estr) (n n' : ℕ)
    → n' ≡ n
    → replace_estr ed n es ≡ some (true, ed')
    → replace_estr ed n' es ≡ some (true, ed')
replace_estr_size ed ed' es n n' e h = rw e h

-- Deleting a region of a writable buffer, at either end of which the point is, succeeds when the
-- text with a new gap is below the machine's size: the text without the region is shown, with the point where it was.
pub delete_region_lem :
    (ed : Editor) (pre d post x y : List ℕ) (s : ℕ)
    → Shows ed.cur_bp x y
    → x ++ y ≡ pre ++ (d ++ post)
    → s ≡ length pre
    → ed.cur_bp.readonly ≡ false
    → (ed.cur_bp.pt ≡ s) ⊎ (ed.cur_bp.pt ≡ s + length d)
    → length (x ++ y) + min_gap < size_mod
    → (ed' : Editor) × (delete_region ed (record { start = s; end = s + length d })
        ≡ some (true, ed'))
      × Shows ed'.cur_bp pre post
delete_region_lem ed pre d post x y s h xy at w ends small =
    let total : length (x ++ y) ≡ length pre + (length d + length post) =
      ap length xy
      ∙ length-append pre (d ++ post)
      ∙ ap (λ n. length pre + n) (length-append d post) in
    let h1 : Shows (with_marker ed).cur_bp x y = record { layout = h.layout; at_pt = h.at_pt } in
    let (t, col, resync, p, shows) = goto_offset_lem (with_marker ed) x y h1 s (omega arith) in
    let ed2 = arrived (with_marker ed) t s col resync in
    let shows2 =
      Shows-eq ed2.cur_bp (take s (x ++ y)) pre (drop s (x ++ y)) (d ++ post)
        (ap (take s) xy ∙ take_left s pre (d ++ post) at)
        (ap (drop s) xy ∙ drop_left s pre (d ++ post) at) shows in
    let v : new_text ed2 estr_empty ≡ [] = nothing ed2 in
    let (ed3, q, shows3, r) =
      replace_estr_lem ed2 estr_empty pre d post shows2 w (inr (omega (arith, ap length v)))
        empty_short (omega (arith, ap length v)) in
    let first =
      adjusted_first (length pre) (length (new_text ed2 estr_empty)) (length d) s ed.fresh
        ed.cur_bp.pt ed3.cur_bp.markers ed.cur_bp.markers (sym at) (ap length v) ends
        (omega (arith, h.at_pt, length-append x y)) r.markers_move in
    let (t', col', resync', p', shows4) =
      goto_offset_lem ed3 (pre ++ new_text ed2 estr_empty) post shows3 s (
        omega (
          arith,
          length-append (pre ++ new_text ed2 estr_empty) post,
          length-append pre (new_text ed2 estr_empty),
        )) in
    let ed4 = arrived ed3 t' s col' resync' in
    let left : (pre ++ new_text ed2 estr_empty) ++ post ≡ pre ++ post =
      ap (λ u. (pre ++ u) ++ post) v ∙ ap (λ u. u ++ post) (append-nil pre) in
    let shows5 =
      Shows-eq ed4.cur_bp (take s ((pre ++ new_text ed2 estr_empty) ++ post)) pre
        (drop s ((pre ++ new_text ed2 estr_empty) ++ post)) post
        (ap (take s) left ∙ take_left s pre post at) (ap (drop s) left ∙ drop_left s pre post at)
        shows4 in
    (
      set_cur_bp ed4 (unchain_marker ed4.cur_bp ed.fresh),
      delete_region_steps ed ed2 ed3 ed4 s (s + length d) (record { id = ed.fresh; o = s }) w p
          (replace_estr_size ed2 ed3 estr_empty (length d) (s + length d - s) (omega arith) q) first
          p',
      unchain_marker-Shows ed4.cur_bp ed.fresh pre post shows5,
    )
