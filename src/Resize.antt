-- ===== src/Resize.antt =====
-- Fitting the windows to the terminal (resize_windows of src/redisplay.c).
pub mod Growth
use zile.Prelude.{
  ℕ, zero, suc, ◌+◌, ◌-◌, List, [], ◌∷◌, Option, none, some, Bool, true, false, not, ◌&&◌, ◌||◌,
  ◌==◌, ltb, leb, if◌then◌else◌, ◌>>=◌, ◌>>◌,
}
use zile.Session.{Session, Window, window_at, change_window, next_window}
use zile.Window.{shorter, taller, delete_window, recenter}

unfoldable pub total_height : List Window → ℕ
total_height [] = 0
total_height (w ∷ ws) = w.fheight + total_height ws

unfoldable pub set_widths : ℕ → List Window → List Window
set_widths width [] = []
set_widths width (w ∷ ws) = record w { fwidth = width; ewidth = width } ∷ set_widths width ws

-- A round through the windows, with the lines to give out, and rounds as long as there are any.
unfoldable pub grow_pass : ℕ → List Window → ℕ × List Window
grow_pass zero ws = (0, ws)
grow_pass (suc hdelta) [] = (suc hdelta, [])
grow_pass (suc hdelta) (w ∷ ws) = let (left, vs) = grow_pass hdelta ws in (left, taller w ∷ vs)

unfoldable pub grow_loop : ℕ → ℕ → List Window → Option (List Window)
unfolding grow_pass
grow_loop fuel zero ws = some ws
grow_loop zero (suc hdelta) ws = none
grow_loop (suc fuel) (suc hdelta) ws =
    let (left, vs) = grow_pass (suc hdelta) ws in grow_loop fuel left vs

-- The inner loop over the windows, from the one at `a` on (`none` at the end), with the lines to take away; also
-- whether anything was decreased. The loop goes on from the window after the one that follows a
-- deleted one, and follows NULL when the last one is deleted.
unfoldable pub shrink_pass : ℕ → Option ℕ → ℕ → Bool → Session → Option (ℕ × (Bool × Session))
shrink_pass zero a over decreased s = none
shrink_pass (suc fuel) none over decreased s = some (over, (decreased, s))
shrink_pass (suc fuel) (some a) over decreased s = do
  let after = λ (b : ℕ) (t : Session).
      (let next : Option ℕ = elim (next_window t.windows b) [
        | none ↦ none
        | some v ↦ some v.address
      ] in
        next)
  w ← window_at s.windows a
  let cut = record s { windows = change_window a shorter s.windows }
  let deleted = (do
    v ← next_window s.windows a
    s1 ← delete_window a s
    shrink_pass fuel (after v.address s1) over true s1)
  let several : Bool = elim s.windows [ _ ∷ _ ∷ _ ↦ true | _ ↦ false ]
  let less = shrink_pass fuel (after a cut) (over - 1) true cut
  let on = shrink_pass fuel (after a s) over decreased s
  if over == 0
      then some (0, (decreased, s))
      else if ltb 2 w.fheight
      then less
      else if several
      then deleted
      else on

unfoldable pub shrink_loop : ℕ → ℕ → Session → Option Session
unfolding shrink_pass
shrink_loop zero over s = none
shrink_loop (suc fuel) over s = do
  let first : Option ℕ = elim s.windows [ [] ↦ none | w ∷ _ ↦ some w.address ]
  (left, (decreased, s1)) ← shrink_pass (suc fuel) first over false s
  let again = shrink_loop fuel left s1
  if decreased then again else some s1

-- `G_recenter` at the end also redraws.
unfoldable pub resize_windows : ℕ → ℕ → ℕ → Session → Option Session
unfolding total_height set_widths grow_loop shrink_loop
resize_windows fuel width height s = do
  let s1 = record s { windows = set_widths width s.windows }
  let total = total_height s1.windows
  let grown = (do
    ws ← grow_loop fuel (height - 1 - total) s1.windows
    some (record s1 { windows = ws }))
  let shrunk = shrink_loop fuel (total - (height - 1)) s1
  s2 ← if ltb total (height - 1) then grown else shrunk
  recenter s2.cur_wp s2
