-- ===== src/Tests/Editing.antt =====
-- The buffer "ab" | "cd" with a gap of two bytes, edited, moved through, copied and undone.
use zile.Prelude.{
  ℕ, inl, ◌+◌, ◌≡◌, refl, List, [], ◌∷◌, ◌++◌, map, none, some, true, false, arith, length, zeros,
  inr,
}
use zile.Astr.{Astr, size_mod, astr_substr, astr_set, astr_replace_nstr}
use zile.Memmem.{is_prefix, memmem}
use zile.Estr.{lf, crlf, Estr, estr_cat, estr_len, estr_replace_estr}
use zile.Estr.Convert.{convert}
use zile.Estr.Convert.Replace.{estr_cat_lem, estr_len_lem}
use zile.Buffer.{Buffer, Marker, bytes, get_buffer_region, region_new}
use zile.Buffer.Gap.{Shows, Reaches, set_buffer_pt_lem}
use zile.Buffer.Copy.{get_buffer_region_lem}
use zile.Editor.{Editor, other, adjust_marker, replace_estr, undo_save_block, open_gap}
use zile.Editor.Replace.{Replaced, new_text, replace_estr_lem, replace_estr_stale}
use zile.Editor.Markers.{Follow, adjust_marker-Follow, adjust_marker_wraps}
use zile.Move.Goto.{Arrives, goto_offset_lem}
use zile.Kill.{delete_region, copy_or_kill_region}
use zile.Kill.Copy.{copied, copy_or_kill_region_lem}
use zile.Kill.Delete.{delete_region_lem}
use zile.Undo.{revert_action}
use zile.Undo.Revert.{CanRestore, revert_action-replace_estr}

abbrev string : List ℕ → Astr
string s = record { text = s; maxlen = 16 }

abbrev pub text_of : List ℕ → Estr
text_of s = record { str = string s; eol = lf }

abbrev pub sample : Buffer
sample = record {
  address = 0;
  name = none;
  filename = none;
  goalc = 0;
  mark = none;
  markers = record { id = 0; o = 3 } ∷ [];
  last_undop = [];
  next_undop = [];
  modified = false;
  readonly = false;
  needname = false;
  nosave = false;
  temporary = false;
  noundo = false;
  autofill = false;
  mark_active = false;
  pt = 2;
  text = text_of (97 ∷ 98 ∷ 0 ∷ 0 ∷ 99 ∷ 100 ∷ []);
  gap = 2;
}

abbrev pub editor : Buffer → Editor
editor bp = record {
  cur_bp = bp;
  need_resync = false;
  echo = none;
  kill_ring_text = none;
  last_command = other;
  this_command = other;
  fresh = 1;
  mark_ring = [];
  regs = λ r. none;
  vars = record {
    tab_width_var = 8;
    kill_whole_line = false;
    fill_column = 70;
    auto_fill_mode = false;
    indent_tabs_mode = true;
    tab_always_indent = true;
  };
}

abbrev pub ab : List ℕ
ab = 97 ∷ 98 ∷ []

abbrev pub cd : List ℕ
cd = 99 ∷ 100 ∷ []

pub sample-Shows : Shows sample ab cd
sample-Shows = record { layout = refl; at_pt = refl }

set_buffer_pt_example : Reaches sample 1 (97 ∷ 98 ∷ 99 ∷ 100 ∷ [])
set_buffer_pt_example = set_buffer_pt_lem sample ab cd sample-Shows 1 (omega arith)

goto_offset_example : Arrives (editor sample) 4 (97 ∷ 98 ∷ 99 ∷ 100 ∷ [])
goto_offset_example = goto_offset_lem (editor sample) ab cd sample-Shows 4 (omega arith)

get_buffer_region_example :
    (es : Estr) × (get_buffer_region sample (record { start = 1; end = 3 }) ≡ some es)
    × (es.str.text ≡ 98 ∷ 99 ∷ [])
    × (es.eol ≡ lf)
get_buffer_region_example =
    get_buffer_region_lem sample ab cd sample-Shows 1 3 (omega arith) (omega arith)

abbrev xy : Estr
xy = text_of (120 ∷ 121 ∷ [])

replace_estr_example :
    (ed' : Editor) × (replace_estr (editor sample) 1 xy ≡ some (true, ed'))
    × Shows ed'.cur_bp (ab ++ new_text (editor sample) xy) (100 ∷ [])
    × Replaced (editor sample) (new_text (editor sample) xy) ab (99 ∷ []) ed'
unfolding convert is_prefix
replace_estr_example =
    replace_estr_lem (editor sample) xy ab (99 ∷ []) (100 ∷ []) sample-Shows refl
      (inr (omega arith)) (omega arith) (omega arith)

abbrev long : Estr
long = text_of (120 ∷ 121 ∷ 122 ∷ 123 ∷ [])

replace_estr_stale_example :
    (ed' : Editor) × (replace_estr (editor sample) 1 long ≡ some (true, ed'))
    × (bytes ed'.cur_bp
        ≡ (ab ++ new_text (editor sample) long) ++ ((zeros 1023 ++ 99 ∷ []) ++ 100 ∷ []))
    × (ed'.cur_bp.pt ≡ length (ab ++ new_text (editor sample) long))
    × (ed'.cur_bp.gap ≡ 1024)
unfolding convert is_prefix
replace_estr_stale_example =
    replace_estr_stale (editor sample) long ab (99 ∷ []) (100 ∷ []) sample-Shows refl (omega arith)
      (omega arith) (omega arith) (omega arith)

-- Five bytes at 2 are replaced by one; the markers are before, inside and behind them.
abbrev three_markers : List Marker
three_markers = record { id = 0; o = 1 } ∷ record { id = 1; o = 4 } ∷ record { id = 2; o = 10 } ∷ []

adjust_marker-Follow_example :
    Follow 2 1 5 8 three_markers (map (adjust_marker 2 1 5) three_markers)
adjust_marker-Follow_example =
    adjust_marker-Follow 2 1 5 12 three_markers (omega arith) (omega arith)
      (inl (omega arith), (inr (omega arith), (inr (omega arith), tt)))
      (omega arith, (omega arith, (omega arith, tt)))

adjust_marker_wraps_example :
    (adjust_marker 0 0 3 (record { id = 0; o = 1 })).o + 3 ≡ size_mod + 1 + 0
adjust_marker_wraps_example =
    adjust_marker_wraps 0 0 3 (record { id = 0; o = 1 }) (omega arith) (omega arith) (omega arith)
      (omega arith)

abbrev dos : Estr
dos = record { str = string (97 ∷ 13 ∷ 10 ∷ 98 ∷ []); eol = crlf }

estr_len_example : estr_len dos lf ≡ length (convert crlf lf 0 (97 ∷ 13 ∷ 10 ∷ 98 ∷ []))
unfolding convert is_prefix
estr_len_example = estr_len_lem dos lf (omega arith) (omega arith)

estr_cat_example :
    (es' : Estr) × (estr_cat xy dos ≡ some es')
    × (es'.str.text ≡ (120 ∷ 121 ∷ []) ++ convert crlf lf 0 (97 ∷ 13 ∷ 10 ∷ 98 ∷ []))
    × (es'.eol ≡ lf)
unfolding convert is_prefix
estr_cat_example = estr_cat_lem xy dos (omega arith) (omega arith)

-- The editor after `xy` has replaced the "c".
abbrev replaced : Editor
unfolding replace_estr
replaced = elim (replace_estr (editor sample) 1 xy) [ none ↦ editor sample | some r ↦ r.1 ]

replaced_lem : replace_estr (editor sample) 1 xy ≡ some (true, replaced)
unfolding replace_estr undo_save_block get_buffer_region region_new astr_substr open_gap estr_len
    memmem astr_set estr_replace_estr astr_replace_nstr
replaced_lem = refl

replaced-CanRestore : CanRestore replaced (new_text (editor sample) xy) ab (99 ∷ [])
unfolding replace_estr convert is_prefix
replaced-CanRestore = record { room = inr (omega arith); short = omega arith; fits = omega arith }

revert_action-replace_estr_example :
    (ed2 : Editor) × (revert_action 1 replaced.cur_bp.last_undop replaced ≡ some ([], ed2))
    × Shows ed2.cur_bp (ab ++ 99 ∷ []) (100 ∷ [])
    × (ed2.cur_bp.modified ≡ false)
unfolding convert is_prefix
revert_action-replace_estr_example =
    revert_action-replace_estr (editor sample) replaced xy ab (99 ∷ []) (100 ∷ []) 0 sample-Shows
      refl refl (inr (omega arith)) (omega arith) (omega arith) replaced_lem replaced-CanRestore

abbrev just_b : List ℕ
just_b = 98 ∷ []

delete_region_example :
    (ed' : Editor) × (delete_region (editor sample) (record { start = 1; end = 1 + length just_b })
      ≡ some (true, ed'))
    × Shows ed'.cur_bp (97 ∷ []) cd
delete_region_example =
    delete_region_lem (editor sample) (97 ∷ []) just_b cd ab cd 1 sample-Shows refl refl refl
      (inr refl) (omega arith)

-- An editor with "xy" in the kill ring.
abbrev holding : Editor
holding = record (editor sample) { kill_ring_text = some xy }

copy_or_kill_region_example :
    (es : Estr) × (copy_or_kill_region false holding (record { start = 1; end = 3 })
      ≡ some (true, copied holding es))
    × (es.str.text ≡ (120 ∷ 121 ∷ []) ++ convert lf lf 0 (98 ∷ 99 ∷ []))
    × (es.eol ≡ lf)
unfolding convert is_prefix
copy_or_kill_region_example =
    copy_or_kill_region_lem holding ab cd 1 3 sample-Shows (omega arith) (omega arith) (omega arith)
      (omega arith)
