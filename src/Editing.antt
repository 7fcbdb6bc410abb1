-- ===== src/Editing.antt =====
-- Runs of the editing primitives on the current buffer (goto_offset, insert_estr and delete_char of
-- src/buffer.c), and the text with a point that a buffer stands for.
pub mod Kept
pub mod Refines
use zile.Prelude.{ℕ, List, [], ◌∷◌, ◌++◌, Option, none, some, ◌>>=◌, take, drop}
use zile.Estr.{Eol, Estr}
use zile.Estr.Convert.{convert}
use zile.Editor.{Editor, insert_estr}
use zile.Move.{goto_offset}
use zile.Kill.{delete_char}
use zile.Kill.Character.{char_len}

pub data Edit : Type 0 where
  go_to : ℕ → Edit
  put_in : Estr → Edit
  take_out : Edit

unfoldable pub run_edit : Edit → Editor → Option Editor
run_edit (go_to o) ed = goto_offset ed o
run_edit (put_in es) ed = do (_, ed1) ← insert_estr ed es; some ed1
run_edit take_out ed = do (_, ed1) ← delete_char ed; some ed1

unfoldable pub run_edits : List Edit → Editor → Option Editor
run_edits [] ed = some ed
run_edits (e ∷ es) ed = do ed1 ← run_edit e ed; run_edits es ed1

-- A text with a point in it.
pub record Text : Type 0 where
  pub before : List ℕ
  pub after : List ℕ

-- The character behind the point is taken out, an end of line as a whole.
unfoldable pub without_first : Eol → List ℕ → List ℕ
without_first eol [] = []
without_first eol (c ∷ s) = drop (char_len eol (c ∷ s)) (c ∷ s)

unfoldable pub edit_text : Eol → Edit → Text → Text
unfolding without_first
edit_text eol (go_to o) t = record {
  before = take o (t.before ++ t.after);
  after = drop o (t.before ++ t.after);
}
edit_text eol (put_in es) t = record t { before = t.before ++ convert es.eol eol 0 es.str.text }
edit_text eol take_out t = record t { after = without_first eol t.after }

unfoldable pub edit_texts : Eol → List Edit → Text → Text
edit_texts eol [] t = t
edit_texts eol (e ∷ es) t = edit_texts eol es (edit_text eol e t)
