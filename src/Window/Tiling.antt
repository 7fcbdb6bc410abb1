-- ===== src/Window/Tiling.antt =====
-- The heights of the windows (src/window.c): what the changes to the list of windows do to them.
use zile.Prelude.{
  ℕ, ◌+◌, ◌≤◌, ◌<◌, ◌≡◌, refl, sym, ◌∙◌, List, [], ◌∷◌, some, false, ◌==◌, arith, Bool-cases, inl,
  inr, ==→≡, ≢→==,
}
use zile.Session.{Window, window_at, change_window}
use zile.Window.{split_at, upper_half, lower_half}
use zile.Window.Lookup.{
  Apart, Distinct, KeepsAddress, change_window-Apart, change_window-away, window_at-here,
  window_at-there,
}
use zile.Resize.{total_height}

-- A window has a line for its status and one for text at least.
abbrev pub IsTall : Window → Type 0
IsTall w = (w.fheight ≡ w.eheight + 1) × (2 ≤ w.fheight)

-- Tall windows whose addresses are in use.
abbrev pub Tall : ℕ → List Window → Type 0
Tall fresh [] = Unit {0}
Tall fresh (w ∷ ws) = IsTall w × (w.address < fresh) × Tall fresh ws

-- A change that keeps what the tiling consists of.
abbrev pub IsQuiet : (Window → Window) → Type 0
IsQuiet f =
    (w : Window)
    → ((f w).address ≡ w.address) × ((f w).fheight ≡ w.fheight) × ((f w).eheight ≡ w.eheight)

pub change_window-Distinct :
    (a : ℕ) (f : Window → Window) (ws : List Window)
    → KeepsAddress f
    → Distinct ws
    → Distinct (change_window a f ws)
unfolding change_window
change_window-Distinct a f [] same d = tt
change_window-Distinct a f (w ∷ ws) same (apart, d) = elim (Bool-cases (w.address == a)) [
  | inl p ↦ (
    rw (p, same w) (change_window-Apart a w.address f ws same apart),
    change_window-Distinct a f ws same d,
  )
  | inr p ↦
      (rw p (change_window-Apart a w.address f ws same apart), change_window-Distinct a f ws same d)
]

pub Tall-found :
    (fresh a : ℕ) (ws : List Window) (w : Window)
    → window_at ws a ≡ some w
    → Tall fresh ws
    → IsTall w
unfolding window_at
Tall-found fresh a [] w found tall = cc
Tall-found fresh a (v ∷ ws) w found (t, below, tall) = elim (Bool-cases (v.address == a)) [
  | inl p ↦ rw (← window_at-here v ws a w p found) t
  | inr p ↦ Tall-found fresh a ws w (sym (window_at-there v ws a p) ∙ found) tall
]

pub Tall-more : (fresh more : ℕ) (ws : List Window) → fresh ≤ more → Tall fresh ws → Tall more ws
Tall-more fresh more [] le tall = tt
Tall-more fresh more (w ∷ ws) le (t, below, tall) =
    (t, omega arith, Tall-more fresh more ws le tall)

-- A change to the window found at an address.
pub change_window-Tall :
    (fresh a : ℕ) (f : Window → Window) (ws : List Window) (w : Window)
    → KeepsAddress f
    → window_at ws a ≡ some w
    → IsTall (f w)
    → Distinct ws
    → Tall fresh ws
    → Tall fresh (change_window a f ws)
      × (total_height (change_window a f ws) + w.fheight ≡ total_height ws + (f w).fheight)
unfolding change_window total_height window_at
change_window-Tall fresh a f [] w same found tall d h = cc
change_window-Tall fresh a f (v ∷ ws) w same found tall (apart, d) (t, below, h) =
    elim (Bool-cases (v.address == a)) [
      | inl p ↦
          let e : v ≡ w = window_at-here v ws a w p found in
          let t' : IsTall (f v) = rw e tall in
          let apart' : Apart a ws = rw (==→≡ _ _ p) at apart in
          rw (p, change_window-away a f ws apart', ← e) ((t', rw (same v) below, h), omega arith)
      | inr p ↦
          let ih =
            change_window-Tall fresh a f ws w same (sym (window_at-there v ws a p) ∙ found) tall d
              h in
          rw p ((t, below, ih.0), omega (arith, ih.1))
    ]

pub change_window-quiet :
    (fresh a : ℕ) (f : Window → Window) (ws : List Window)
    → IsQuiet f
    → Tall fresh ws
    → Tall fresh (change_window a f ws) × (total_height (change_window a f ws) ≡ total_height ws)
unfolding change_window total_height
change_window-quiet fresh a f [] q h = (tt, refl)
change_window-quiet fresh a f (v ∷ ws) q (t, below, h) =
    let ih = change_window-quiet fresh a f ws q h in
    elim (Bool-cases (v.address == a)) [
      | inl p ↦ rw (p, (q v).0, (q v).1, (q v).2) ((t, below, ih.0), omega (arith, ih.1))
      | inr p ↦ rw p ((t, below, ih.0), omega (arith, ih.1))
    ]

-- Where a window of four lines is split.
pub split_at-Tall :
    (fresh a id : ℕ) (ws : List Window) (w : Window)
    → window_at ws a ≡ some w
    → 4 ≤ w.fheight
    → Tall fresh ws
    → Tall (fresh + 1) (split_at a fresh id ws)
      × (total_height (split_at a fresh id ws) ≡ total_height ws)
unfolding split_at upper_half lower_half total_height window_at
split_at-Tall fresh a id [] w found four h = cc
split_at-Tall fresh a id (v ∷ ws) w found four (t, below, h) = elim (Bool-cases (v.address == a)) [
  | inl p ↦
      let e : v ≡ w = window_at-here v ws a w p found in
      let four' : 4 ≤ v.fheight = rw e four in
      rw p (
        (
          (omega arith, omega arith),
          omega arith,
          ((omega arith, omega arith), omega arith, Tall-more fresh (fresh + 1) ws (omega arith) h),
        ),
        omega arith,
      )
  | inr p ↦
      let ih = split_at-Tall fresh a id ws w (sym (window_at-there v ws a p) ∙ found) four h in
      rw p ((t, omega arith, ih.0), omega (arith, ih.1))
]

Tall-Apart : (fresh : ℕ) (ws : List Window) → Tall fresh ws → Apart fresh ws
Tall-Apart fresh [] h = tt
Tall-Apart fresh (w ∷ ws) (t, below, h) = (≢→== _ _ (λ e. omega arith), Tall-Apart fresh ws h)

split_at-Apart :
    (a b new id : ℕ) (ws : List Window)
    → (new == b) ≡ false
    → Apart b ws
    → Apart b (split_at a new id ws)
unfolding split_at upper_half lower_half
split_at-Apart a b new id [] n h = tt
split_at-Apart a b new id (w ∷ ws) n (h, hs) = elim (Bool-cases (w.address == a)) [
  | inl p ↦ rw p (h, (n, hs))
  | inr p ↦ rw p (h, split_at-Apart a b new id ws n hs)
]

pub split_at-Distinct :
    (fresh a id : ℕ) (ws : List Window)
    → Tall fresh ws
    → Distinct ws
    → Distinct (split_at a fresh id ws)
unfolding split_at upper_half lower_half
split_at-Distinct fresh a id [] h d = tt
split_at-Distinct fresh a id (w ∷ ws) (t, below, h) (apart, d) =
    let differs : (fresh == w.address) ≡ false = ≢→== _ _ (λ e. omega arith) in
    elim (Bool-cases (w.address == a)) [
      | inl p ↦ rw p ((differs, apart), (Tall-Apart fresh ws h, d))
      | inr p ↦ rw p (
        split_at-Apart a w.address fresh id ws differs apart,
        split_at-Distinct fresh a id ws h d,
      )
    ]

-- The upper half is where the window was.
pub split_at-found :
    (a new id : ℕ) (ws : List Window) (w : Window)
    → window_at ws a ≡ some w
    → window_at (split_at a new id ws) a ≡ some (upper_half w)
unfolding split_at window_at upper_half lower_half
split_at-found a new id [] w found = cc
split_at-found a new id (v ∷ ws) w found = elim (Bool-cases (v.address == a)) [
  | inl p ↦ rw p (rw (p, window_at-here v ws a w p found) refl)
  | inr p ↦ rw p (rw p (split_at-found a new id ws w (sym (window_at-there v ws a p) ∙ found)))
]
