-- ===== src/Tests/Typing.antt =====
-- A run of edits on "ab" | "cd", and a number typed after C-u.
use zile.Prelude.{◌≡◌, refl, List, [], ◌∷◌, some, false, true, codes, arith, negsuc}
use zile.Estr.{lf}
use zile.Editor.{Editor}
use zile.Editing.{Edit, go_to, put_in, take_out, run_edits, edit_text, edit_texts}
use zile.Editing.Refines.{Holds, run_edits-Holds}
use zile.Minibuffer.{ctrl}
use zile.Uniarg.{Counted, counted, universal_argument}
use zile.Uniarg.Digits.{universal_argument_lem, units_first, backwards}
use zile.Tests.Editing.{editor, sample, text_of}

abbrev edits : List Edit
edits = go_to 0 ∷ put_in (text_of (codes "x\ny")) ∷ take_out ∷ go_to 5 ∷ []

sample-Holds : Holds lf (editor sample) (record { before = codes "ab"; after = codes "cd" })
sample-Holds = record {
  shows = record { layout = refl; at_pt = refl };
  eol_is = refl;
  writable = refl;
  gap_small = omega arith;
}

run_edits-Holds_example :
    (ed' : Editor) × (run_edits edits (editor sample) ≡ some ed')
    × Holds lf ed' (record { before = codes "x\nybc"; after = codes "d" })
unfolding edit_text edit_texts zile.Estr.Convert.convert zile.Memmem.is_prefix
run_edits-Holds_example =
    run_edits-Holds lf edits (editor sample) (record { before = codes "ab"; after = codes "cd" })
      sample-Holds
      (
        omega arith,
        omega arith,
        (omega arith, omega arith, (omega arith, tt, (omega arith, omega arith, omega arith))),
      )

-- "C-u - 1 2 C-f" counts -12.
universal_argument_lem_example :
    (c : Counted) × (universal_argument (ctrl b'u') (b'-' ∷ b'1' ∷ b'2' ∷ ctrl b'f' ∷ [])
      ≡ some (counted c))
    × (c.last_uniarg ≡ negsuc 11)
    × (c.uniarg_empty ≡ false)
    × (c.ungot ≡ some (ctrl b'f'))
    × (c.unread ≡ [])
unfolding units_first backwards
universal_argument_lem_example =
    universal_argument_lem true 1 (2 ∷ []) (ctrl b'f') [] (omega arith) (omega arith, tt)
      (refl, (λ e. omega arith), (λ e. omega arith)) (omega arith)
