-- ===== src/Tests/Lines.antt =====
-- Lines and characters of small buffers.
use zile.Prelude.{◌++◌, inl, ◌≡◌, refl, [], ◌∷◌, some, none, true, false, arith}
use zile.Buffer.{Buffer}
use zile.Buffer.Gap.{Shows}
use zile.Editor.{Editor}
use zile.Move.{eolp, eobp, following_char}
use zile.Move.LineEnds.{eolp_lem}
use zile.Kill.{delete_char, copy_or_kill_region, yank}
use zile.Kill.Yank.{yank-copy_or_kill_region}
use zile.Kill.Character.{delete_char_lem}
use zile.Line.{is_space, delete_following}
use zile.Line.Blanks.{IsStuck, delete_following_hangs}
use zile.Tests.Editing.{sample, editor, ab, cd, text_of, sample-Shows}

eolp_lem_example : eolp sample ≡ false
unfolding zile.Memmem.is_prefix
eolp_lem_example = eolp_lem sample ab cd sample-Shows (omega arith)

delete_char_lem_example :
    (ed' : Editor) × (delete_char (editor sample) ≡ some (true, ed'))
    × Shows ed'.cur_bp ab (100 ∷ [])
    × (ed'.cur_bp.modified ≡ true)
    × (ed'.cur_bp.mark_active ≡ false)
unfolding zile.Memmem.is_prefix
delete_char_lem_example =
    delete_char_lem (editor sample) ab 99 (100 ∷ []) sample-Shows refl (omega arith)

-- "ab" | " d", which may not be changed.
abbrev blank : Buffer
blank = record sample { readonly = true; text = text_of (97 ∷ 98 ∷ 0 ∷ 0 ∷ 32 ∷ 100 ∷ []) }

blank-IsStuck : IsStuck blank
unfolding eolp eobp following_char is_space zile.Memmem.memrmem zile.Memmem.memmem
    zile.Buffer.get_buffer_char
blank-IsStuck = record {
  is_readonly = refl;
  within_line = refl;
  within_buffer = refl;
  blank = (32, refl, refl);
}

delete_following_hangs_example : delete_following 100 (editor blank) ≡ none
delete_following_hangs_example = delete_following_hangs 100 (editor blank) blank-IsStuck

yank-copy_or_kill_region_example :
    (ed1 : Editor) × (ed2 : Editor) × (copy_or_kill_region true
        (editor sample)
        (record { start = 2; end = 3 })
      ≡ some (true, ed1))
    × Shows ed1.cur_bp ab (100 ∷ [])
    × (yank ed1 ≡ some (true, ed2))
    × Shows ed2.cur_bp (ab ++ (99 ∷ [])) (100 ∷ [])
yank-copy_or_kill_region_example =
    yank-copy_or_kill_region (editor sample) ab (99 ∷ []) (100 ∷ []) ab cd 2 sample-Shows refl refl
      refl refl refl (inl refl) (omega arith)
