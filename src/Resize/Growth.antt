-- ===== src/Resize/Growth.antt =====
-- Windows that grow with the terminal (resize_windows of src/redisplay.c).
use zile.Prelude.{ℕ, zero, suc, ◌+◌, ◌≤◌, ◌≡◌, refl, List, [], ◌∷◌, some, arith}
use zile.Session.{Window}
use zile.Window.{taller}
use zile.Resize.{total_height, grow_pass, grow_loop}

-- A round gives out as many lines as are missing afterwards.
grow_pass-total :
    (hdelta : ℕ) (ws : List Window)
    → (grow_pass hdelta ws).0 + total_height (grow_pass hdelta ws).1 ≡ hdelta + total_height ws
unfolding grow_pass total_height
grow_pass-total zero ws = refl
grow_pass-total (suc hdelta) [] = refl
grow_pass-total (suc hdelta) (w ∷ ws) = omega (arith, grow_pass-total hdelta ws)

grow_pass-le : (hdelta : ℕ) (ws : List Window) → (grow_pass hdelta ws).0 ≤ hdelta
unfolding grow_pass
grow_pass-le zero ws = omega arith
grow_pass-le (suc hdelta) [] = omega arith
grow_pass-le (suc hdelta) (w ∷ ws) = omega (arith, grow_pass-le hdelta ws)

-- When there is a window, as many rounds as lines are enough, and the windows get all the lines.
pub grow_loop-total_height :
    (fuel hdelta : ℕ) (w : Window) (ws : List Window)
    → hdelta ≤ fuel
    → (vs : List Window) × (grow_loop fuel hdelta (w ∷ ws) ≡ some vs)
      × (total_height vs ≡ total_height (w ∷ ws) + hdelta)
unfolding grow_loop grow_pass total_height
grow_loop-total_height fuel zero w ws le = (w ∷ ws, refl, omega arith)
grow_loop-total_height zero (suc hdelta) w ws le = absurd (omega arith)
grow_loop-total_height (suc fuel) (suc hdelta) w ws le =
    let left = (grow_pass hdelta ws).0 in
    let rest = (grow_pass hdelta ws).1 in
    let (vs, e, total) =
      grow_loop-total_height fuel left (taller w) rest (omega (arith, grow_pass-le hdelta ws)) in
    (vs, e, omega (arith, total, grow_pass-total hdelta ws))
