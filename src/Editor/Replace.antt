-- ===== src/Editor/Replace.antt =====
-- `replace_estr` (src/buffer.c) on the text that the buffer shows.
use zile.Prelude.{
  ℕ, ◌+◌, ◌-◌, ◌≤◌, ◌<◌, ◌≡◌, refl, sym, ap, ◌∙◌, min, max, List, [], ◌∷◌, ◌++◌, map, Option, some,
  true, false, not, ◌||◌, ◌==◌, if◌then◌else◌, arith, length, take, drop, zeros, length-append,
  length-take, append_assoc, take_left, drop_left, take-append-drop, Bool-cases, inl, inr, ◌⊎◌,
}
use zile.Astr.{size_mod, size_max}
use zile.Estr.{Estr, estr_len, estr_next_line, estr_replace_estr}
use zile.Estr.Convert.{convert}
use zile.Estr.Convert.Replace.{estr_len_lem, estr_replace_estr_lem}
use zile.Buffer.{Buffer, Undo, replace_block, bytes, region_new, get_buffer_region}
use zile.Buffer.Gap.{Shows}
use zile.Buffer.Copy.{get_buffer_region_lem, slice}
use zile.Editor.{
  Editor, min_gap, undo_save_block, open_gap, adjust_marker, replace_estr, warn_if_readonly_buffer,
  buffer_is_readonly,
}
use zile.Editor.GapSteps.{gapped, OpensTo}
use zile.Editor.OpenGap.{open_gap_lem, open_gap_stale}

-- The deltas after a block of text `t` was saved.
abbrev pub logged_as : Buffer → Estr → ℕ → List Undo
logged_as bp t size =
    if bp.noundo
    then bp.last_undop
    else record { delta = replace_block t size; o = bp.pt; unchanged = not bp.modified }
      ∷ bp.last_undop

abbrev pub with_undos : Buffer → List Undo → Buffer
with_undos bp us = record bp { last_undop = us }

-- `undos` is the log of `bp` with the replaced text `d` on top, if the buffer keeps a log.
abbrev pub Logs : Buffer → List ℕ → ℕ → List Undo → Type 0
Logs bp d size undos =
    (t : Estr) × (t.str.text ≡ d) × (t.eol ≡ bp.text.eol) × (undos ≡ logged_as bp t size)

slice_at :
    (pre d post : List ℕ) (o : ℕ) → o ≡ length pre → slice o (o + length d) (pre ++ (d ++ post)) ≡ d
slice_at pre d post o h =
    let n : o + length d - o ≡ length d = omega arith in
    rw (n, drop_left o pre (d ++ post) h) (take_left (length d) d post refl)

region_new_lem : (o n : ℕ) → region_new o (o + n) ≡ record { start = o; end = o + n }
unfolding region_new
region_new_lem o n =
    let a : min o (o + n) ≡ o = omega arith in
    let b : max o (o + n) ≡ o + n = omega arith in rw (a, b)

undo_save_block-some :
    (bp : Buffer) (n size : ℕ) (t : Estr)
    → get_buffer_region bp (record { start = bp.pt; end = bp.pt + n }) ≡ some t
    → undo_save_block bp bp.pt n size ≡ some (with_undos bp (logged_as bp t size))
unfolding undo_save_block
undo_save_block-some bp n size t p = elim (Bool-cases bp.noundo) [
  | inl q ↦ rw q
  | inr q ↦ simp (q, region_new_lem, p)
]

undo_save_block_lem :
    (bp : Buffer) (pre d post : List ℕ) (size : ℕ)
    → Shows bp pre (d ++ post)
    → (t : Estr) × (undo_save_block bp bp.pt (length d) size
        ≡ some (with_undos bp (logged_as bp t size)))
      × (t.str.text ≡ d)
      × (t.eol ≡ bp.text.eol)
undo_save_block_lem bp pre d post size h =
    let (t, p, x, e) =
      get_buffer_region_lem bp pre (d ++ post) h bp.pt (bp.pt + length d) (omega arith)
        (omega (arith, h.at_pt, length-append pre (d ++ post), length-append d post)) in
    (t, undo_save_block-some bp (length d) size t p, x ∙ slice_at pre d post bp.pt h.at_pt, e)

-- What a successful replacement does besides changing the text: the log, the markers, the modified flag, and
-- what it leaves alone.
pub record Replaced (ed : Editor) (v pre d : List ℕ) (ed' : Editor) : Type 0 where
  pub logs : Logs ed.cur_bp d (length v) ed'.cur_bp.last_undop
  pub markers_move :
      ed'.cur_bp.markers ≡ map (adjust_marker (length pre) (length v) (length d)) ed.cur_bp.markers
  pub is_modified : ed'.cur_bp.modified ≡ true
  pub eol_kept : ed'.cur_bp.text.eol ≡ ed.cur_bp.text.eol
  pub readonly_kept : ed'.cur_bp.readonly ≡ ed.cur_bp.readonly
  pub noundo_kept : ed'.cur_bp.noundo ≡ ed.cur_bp.noundo
  pub next_kept : ed'.cur_bp.next_undop ≡ ed.cur_bp.next_undop
  pub mark_kept : ed'.cur_bp.mark ≡ ed.cur_bp.mark
  pub active_kept : ed'.cur_bp.mark_active ≡ ed.cur_bp.mark_active
  pub rest_kept : record ed' { cur_bp = ed.cur_bp; need_resync = ed.need_resync } ≡ ed

-- The state that `replace_estr` returns, by the results of its steps.
finished : Editor → Estr → ℕ → ℕ → Buffer → Estr → Editor
finished ed es del newlen bp2 text =
    let pt' = bp2.pt + newlen in
    record ed {
      cur_bp = record bp2 {
        text = text;
        pt = pt';
        markers = map (adjust_marker (pt' - newlen) newlen del) bp2.markers;
        modified = true;
      };
      need_resync = ed.need_resync || not (estr_next_line es 0 == size_max);
    }

replace_estr_steps :
    (ed : Editor) (del newlen : ℕ) (es : Estr) (bp1 bp2 : Buffer) (text : Estr)
    → ed.cur_bp.readonly ≡ false
    → estr_len es ed.cur_bp.text.eol ≡ newlen
    → undo_save_block ed.cur_bp ed.cur_bp.pt del newlen ≡ some bp1
    → open_gap bp1 del newlen ≡ some bp2
    → estr_replace_estr bp2.text bp2.pt es ≡ some text
    → replace_estr ed del es ≡ some (true, finished ed es del newlen bp2 text)
unfolding replace_estr finished
replace_estr_steps ed del newlen es bp1 bp2 text w l p q r = simp (w, l, p, q, r)

estr_replace_estr_at :
    (es src : Estr) (pos pos' : ℕ) (r : Option Estr)
    → pos ≡ pos'
    → estr_replace_estr es pos' src ≡ r
    → estr_replace_estr es pos src ≡ r
estr_replace_estr_at es src pos pos' r p h = rw p h

-- The text written, its ends of line in the buffer's type.
abbrev pub new_text : Editor → Estr → List ℕ
new_text ed es = convert es.eol ed.cur_bp.text.eol 0 es.str.text

-- What every replacement in a writable buffer does, whatever its gap holds afterwards: the bytes,
-- the log, the markers, the modified flag, and what it leaves alone.
record Written (ed : Editor) (v pre d post gap_bytes : List ℕ) (gap : ℕ) (ed' : Editor)
    : Type 0 where
  layout : bytes ed'.cur_bp ≡ (pre ++ v) ++ (gap_bytes ++ post)
  at_pt : ed'.cur_bp.pt ≡ length (pre ++ v)
  gap_size : ed'.cur_bp.gap ≡ gap
  effects : Replaced ed v pre d ed'

replace_opened :
    (ed : Editor) (es : Estr) (pre d post gap_bytes : List ℕ) (gap : ℕ) (t : Estr)
    → ed.cur_bp.pt ≡ length pre
    → ed.cur_bp.readonly ≡ false
    → estr_len es ed.cur_bp.text.eol ≡ length (new_text ed es)
    → undo_save_block ed.cur_bp ed.cur_bp.pt (length d) (length (new_text ed es))
      ≡ some (with_undos ed.cur_bp (logged_as ed.cur_bp t (length (new_text ed es))))
    → t.str.text ≡ d
    → t.eol ≡ ed.cur_bp.text.eol
    → OpensTo
        (with_undos ed.cur_bp (logged_as ed.cur_bp t (length (new_text ed es))))
        (length d)
        (length (new_text ed es))
        pre
        gap
        gap_bytes
        post
    → (ed' : Editor) × (replace_estr ed (length d) es ≡ some (true, ed'))
      × Written ed (new_text ed es) pre d post gap_bytes gap ed'
unfolding finished
replace_opened ed es pre d post gap_bytes gap t here w len p x e (s, room, q, u, z, l) =
    let v = new_text ed es in
    let bp1 = with_undos ed.cur_bp (logged_as ed.cur_bp t (length v)) in
    let bp2 = gapped bp1 s gap in
    let parts : s.text ≡ pre ++ (take (length v) room ++ (drop (length v) room ++ post)) =
      u
      ∙ ap (pre ++◌) (
          ap (◌++ post) (sym (take-append-drop (length v) room))
          ∙ append_assoc (take (length v) room) (drop (length v) room) post) in
    let (text, r, written, eol) =
      estr_replace_estr_lem bp2.text es pre (take (length v) room) (drop (length v) room ++ post)
        parts (omega (arith, length-take (length v) room)) in
    let at : bp2.pt + length v - length v ≡ length pre = omega arith in
    let at_end : bp2.pt + length v ≡ length (pre ++ v) = omega (arith, length-append pre v) in
    (
      finished ed es (length d) (length v) bp2 text,
      replace_estr_steps ed (length d) (length v) es bp1 bp2 text w len p q
          (estr_replace_estr_at bp2.text es bp2.pt (length pre) (some text) here r),
      record {
        layout =
            written
            ∙ ap (λ g. pre ++ (v ++ (g ++ post))) z
            ∙ sym (append_assoc pre v (gap_bytes ++ post));
        at_pt = at_end;
        gap_size = refl;
        effects = record {
          logs = (t, x, e, refl);
          markers_move = ap (λ o. map (adjust_marker o (length v) (length d)) ed.cur_bp.markers) at;
          is_modified = refl;
          eol_kept = eol;
          readonly_kept = refl;
          noundo_kept = refl;
          next_kept = refl;
          mark_kept = refl;
          active_kept = refl;
          rest_kept = refl;
        };
      },
    )

-- A replacement in a writable buffer that deletes nothing, or whose new text fits into the old gap
-- and the deleted bytes, succeeds when the sizes are below the machine's: the buffer shows the new
-- text, its line ends converted, in place of the deleted one and before the point, the old text is
-- logged unless the buffer keeps no log, the markers are adjusted and the buffer is modified.
pub replace_estr_lem :
    (ed : Editor) (es : Estr) (pre d post : List ℕ)
    → Shows ed.cur_bp pre (d ++ post)
    → ed.cur_bp.readonly ≡ false
    → (d ≡ []) ⊎ (length (new_text ed es) ≤ ed.cur_bp.gap + length d)
    → length es.str.text < size_mod
    → length pre + length (new_text ed es) + min_gap < size_mod
    → (ed' : Editor) × (replace_estr ed (length d) es ≡ some (true, ed'))
      × Shows ed'.cur_bp (pre ++ new_text ed es) post
      × Replaced ed (new_text ed es) pre d ed'
replace_estr_lem ed es pre d post h w fits lt small =
    let v = new_text ed es in
    let len = estr_len_lem es ed.cur_bp.text.eol lt (omega arith) in
    let (t, p, x, e) = undo_save_block_lem ed.cur_bp pre d post (length v) h in
    let bp1 = with_undos ed.cur_bp (logged_as ed.cur_bp t (length v)) in
    let h1 : Shows bp1 pre (d ++ post) = record { layout = h.layout; at_pt = h.at_pt } in
    let (gap, opened) = open_gap_lem bp1 pre d post (length v) h1 fits small in
    let (ed', q, r) =
      replace_opened ed es pre d post (zeros gap) gap t h.at_pt w len p x e opened in
    (
      ed',
      q,
      record {
        layout = r.layout ∙ ap (λ g. (pre ++ v) ++ (zeros g ++ post)) (sym r.gap_size);
        at_pt = r.at_pt;
      },
      r.effects,
    )

-- A replacement in a writable buffer that deletes up to 1024 bytes and has no room in the old gap,
-- the sizes being below the machine's, succeeds and leaves the deleted bytes at the end of the new
-- gap, which is not cleared of them.
pub replace_estr_stale :
    (ed : Editor) (es : Estr) (pre d post : List ℕ)
    → Shows ed.cur_bp pre (d ++ post)
    → ed.cur_bp.readonly ≡ false
    → ed.cur_bp.gap + length d < length (new_text ed es)
    → length d ≤ min_gap
    → length es.str.text < size_mod
    → length pre + length (new_text ed es) + min_gap < size_mod
    → (ed' : Editor) × (replace_estr ed (length d) es ≡ some (true, ed'))
      × (bytes ed'.cur_bp ≡ (pre ++ new_text ed es) ++ ((zeros (min_gap - length d) ++ d) ++ post))
      × (ed'.cur_bp.pt ≡ length (pre ++ new_text ed es))
      × (ed'.cur_bp.gap ≡ min_gap)
replace_estr_stale ed es pre d post h w lt le short small =
    let v = new_text ed es in
    let len = estr_len_lem es ed.cur_bp.text.eol short (omega arith) in
    let (t, p, x, e) = undo_save_block_lem ed.cur_bp pre d post (length v) h in
    let bp1 = with_undos ed.cur_bp (logged_as ed.cur_bp t (length v)) in
    let h1 : Shows bp1 pre (d ++ post) = record { layout = h.layout; at_pt = h.at_pt } in
    let (ed', q, r) =
      replace_opened ed es pre d post (zeros (min_gap - length d) ++ d) min_gap t h.at_pt w len p x
        e (open_gap_stale bp1 pre d post (length v) h1 lt le small) in
    (ed', q, r.layout, r.at_pt, r.gap_size)

-- In a read-only buffer a replacement reports it, and changes nothing but the message.
replace_estr_readonly :
    (ed : Editor) (del : ℕ) (es : Estr)
    → ed.cur_bp.readonly ≡ true
    → replace_estr ed del es ≡ some (false, record ed { echo = some buffer_is_readonly })
unfolding replace_estr warn_if_readonly_buffer
replace_estr_readonly ed del es h = simp h
