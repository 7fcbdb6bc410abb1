-- ===== src/Window/Lookup.antt =====
-- Looking up windows in the list of them (src/window.c): windows with different addresses.
use zile.Prelude.{
  ℕ, ◌≡◌, refl, sym, ap, ◌∙◌, List, [], ◌∷◌, Option, none, some, true, false, ◌==◌, Bool-cases, inl,
  inr, some_inj, ==→≡, ==_refl, ==→≢, ≢→==,
}
use zile.Session.{Window, window_at, change_one, change_window, next_window, previous_window}

-- No window of the list has the address.
abbrev pub Apart : ℕ → List Window → Type 0
Apart a [] = Unit {0}
Apart a (w ∷ ws) = ((w.address == a) ≡ false) × Apart a ws

-- The windows have different addresses.
abbrev pub Distinct : List Window → Type 0
Distinct [] = Unit {0}
Distinct (w ∷ ws) = Apart w.address ws × Distinct ws

abbrev pub KeepsAddress : (Window → Window) → Type 0
KeepsAddress f = (w : Window) → (f w).address ≡ w.address

pub window_at-here :
    (v : Window) (ws : List Window) (a : ℕ) (w : Window)
    → (v.address == a) ≡ true
    → window_at (v ∷ ws) a ≡ some w
    → v ≡ w
unfolding window_at
window_at-here v ws a w p found = some_inj (rw p at found)

pub window_at-there :
    (v : Window) (ws : List Window) (a : ℕ)
    → (v.address == a) ≡ false
    → window_at (v ∷ ws) a ≡ window_at ws a
unfolding window_at
window_at-there v ws a p = rw p refl

pub ==_flip : (a b : ℕ) → (b == a) ≡ false → (a == b) ≡ false
==_flip a b h = ≢→== _ _ (λ e. ==→≢ _ _ h (sym e))

pub window_at-first : (v : Window) (ws : List Window) → window_at (v ∷ ws) v.address ≡ some v
unfolding window_at
window_at-first v ws = rw (==_refl v.address) refl

pub window_at-address :
    (ws : List Window) (a : ℕ) (w : Window) → window_at ws a ≡ some w → w.address ≡ a
unfolding window_at
window_at-address [] a w found = cc
window_at-address (v ∷ ws) a w found = elim (Bool-cases (v.address == a)) [
  | inl p ↦ ap (λ (u : Window). u.address) (sym (window_at-here v ws a w p found)) ∙ ==→≡ _ _ p
  | inr p ↦ window_at-address ws a w (sym (window_at-there v ws a p) ∙ found)
]

-- A window that is found is not at an address that the list is apart from.
pub Apart-away :
    (b a : ℕ) (ws : List Window) (w : Window)
    → Apart b ws
    → window_at ws a ≡ some w
    → (b == a) ≡ false
unfolding window_at
Apart-away b a [] w h found = cc
Apart-away b a (v ∷ ws) w (h, hs) found = elim (Bool-cases (v.address == a)) [
  | inl p ↦ ≢→== _ _ (λ e. ==→≢ _ _ h (==→≡ _ _ p ∙ sym e))
  | inr p ↦ Apart-away b a ws w hs (sym (window_at-there v ws a p) ∙ found)
]

-- A change keeps the list apart from what it was apart from.
pub change_window-Apart :
    (a b : ℕ) (f : Window → Window) (ws : List Window)
    → KeepsAddress f
    → Apart b ws
    → Apart b (change_window a f ws)
unfolding change_window
change_window-Apart a b f [] same h = tt
change_window-Apart a b f (w ∷ ws) same (h, hs) = elim (Bool-cases (w.address == a)) [
  | inl p ↦ (rw (p, same w) h, change_window-Apart a b f ws same hs)
  | inr p ↦ (rw p h, change_window-Apart a b f ws same hs)
]

pub change_window-away :
    (a : ℕ) (f : Window → Window) (ws : List Window) → Apart a ws → change_window a f ws ≡ ws
unfolding change_window
change_window-away a f [] h = refl
change_window-away a f (w ∷ ws) (h, hs) = rw (h, change_window-away a f ws hs) refl

abbrev pub mapped : ℕ → (Window → Window) → Option Window → Option Window
mapped a f none = none
mapped a f (some w) = some (change_one a f w)

pub change_one-address :
    (a : ℕ) (f : Window → Window) (w : Window)
    → KeepsAddress f
    → (change_one a f w).address ≡ w.address
change_one-address a f w same = elim (Bool-cases (w.address == a)) [
  | inl p ↦ rw p (same w)
  | inr p ↦ rw p refl
]

-- What is found after a change.
pub window_at-change_window :
    (a b : ℕ) (f : Window → Window) (ws : List Window)
    → KeepsAddress f
    → window_at (change_window a f ws) b ≡ mapped a f (window_at ws b)
unfolding window_at change_window
window_at-change_window a b f [] same = refl
window_at-change_window a b f (w ∷ ws) same = elim (Bool-cases (w.address == b)) [
  | inl p ↦ rw (change_one-address a f w same, p) refl
  | inr p ↦ rw (change_one-address a f w same, p) (window_at-change_window a b f ws same)
]

pub next_window-found :
    (ws : List Window) (a : ℕ) (w : Window)
    → Distinct ws
    → next_window ws a ≡ some w
    → window_at ws w.address ≡ some w
unfolding next_window
next_window-found [] a w d h = cc
next_window-found (u ∷ []) a w d h = cc
next_window-found (u ∷ v ∷ ws) a w (apart, d) h = elim (Bool-cases (u.address == a)) [
  | inl p ↦
      let e : v ≡ w = some_inj (rw p at h) in
      rw (← e) (window_at-there u (v ∷ ws) v.address (==_flip _ _ apart.0) ∙ window_at-first v ws)
  | inr p ↦
      let ih = next_window-found (v ∷ ws) a w d (rw p at h) in
      window_at-there u (v ∷ ws) w.address (Apart-away u.address w.address (v ∷ ws) w apart ih) ∙ ih
]

pub previous_window-found :
    (ws : List Window) (a : ℕ) (w : Window)
    → Distinct ws
    → previous_window ws a ≡ some w
    → window_at ws w.address ≡ some w
unfolding previous_window
previous_window-found [] a w d h = cc
previous_window-found (u ∷ []) a w d h = cc
previous_window-found (u ∷ v ∷ ws) a w (apart, d) h = elim (Bool-cases (v.address == a)) [
  | inl p ↦ let e : u ≡ w = some_inj (rw p at h) in rw (← e) (window_at-first u (v ∷ ws))
  | inr p ↦
      let ih = previous_window-found (v ∷ ws) a w d (rw p at h) in
      window_at-there u (v ∷ ws) w.address (Apart-away u.address w.address (v ∷ ws) w apart ih) ∙ ih
]
