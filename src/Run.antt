-- ===== src/Run.antt =====
-- Repeating a command by its numeric argument (src/eval.c).
use zile.Prelude.{
  ℕ, zero, suc, Option, none, some, Bool, true, false, if◌then◌else◌, ◌>>=◌, ℤ, pos, is_negative,
  abs,
}
use zile.Editor.{Editor, undo_start_sequence, undo_end_sequence}

-- What a command is: it reports success beside the new state.
abbrev pub Action : Type 0
Action = Editor → Option (Bool × Editor)

-- Both loops: `n` rounds at most, up to the first that fails.
unfoldable pub repeat_action : ℕ → Action → Action
repeat_action zero f ed = some (true, ed)
repeat_action (suc n) f ed = do
  (ok, ed1) ← f ed
  let rest = repeat_action n f ed1
  if ok then rest else some (false, ed1)

-- `uniarg` rounds, none if it is negative.
abbrev pub count_of : ℤ → ℕ
count_of (pos n) = n
count_of _ = 0

unfoldable pub execute_with_uniarg : Bool → ℤ → Action → Option Action → Action
unfolding repeat_action
execute_with_uniarg undo uniarg forward backward ed =
    let ed1 = if undo then undo_start_sequence ed else ed in
    let up = repeat_action (count_of uniarg) forward ed1 in
    let down = λ (f : Action). repeat_action (abs uniarg) f ed1 in
    do
      (ok, ed2) ← elim backward [ none ↦ up | some f ↦ if is_negative uniarg then down f else up ]
      some (ok, if undo then undo_end_sequence ed2 else ed2)

unfoldable pub move_with_uniarg : ℤ → (Bool → Action) → Action
unfolding repeat_action
move_with_uniarg uniarg move ed =
    repeat_action (abs uniarg) (move (if is_negative uniarg then false else true)) ed
