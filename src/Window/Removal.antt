-- ===== src/Window/Removal.antt =====
-- Deleting a window (remove_window stands for the first half of delete_window, src/window.c): the
-- list that is left.
use zile.Prelude.{
  ℕ, ◌≡◌, ap, ◌∙◌, List, [], ◌∷◌, some, ◌==◌, arith, Bool-cases, inl, inr, ◌⊎◌, some_inj,
  >>=-eq-some,
}
use zile.Session.{Window, window_at}
use zile.Window.{remove_window, remove_after, absorb}
use zile.Window.Lookup.{Apart, Distinct, window_at-there, window_at-first, Apart-away}
use zile.Window.Tiling.{IsTall, Tall}
use zile.Resize.{total_height}

absorb-IsTall : (del w : Window) → IsTall del → IsTall w → IsTall (absorb del w)
unfolding absorb
absorb-IsTall del w (d, dtwo) (h, two) = (omega arith, omega arith)

-- The next window is the one to go, or one behind it.
remove_after-cases :
    (a next : ℕ) (w v : Window) (ws vs : List Window)
    → remove_after a w (v ∷ ws) ≡ some (next, vs)
    → ((w.address ≡ next) × (absorb v w ∷ ws ≡ vs))
      ⊎ ((us : List Window) × (w ∷ us ≡ vs) × (remove_after a v ws ≡ some (next, us)))
unfolding remove_after
remove_after-cases a next w v ws vs h = elim (Bool-cases (v.address == a)) [
  | inl p ↦
      let e : (w.address, absorb v w ∷ ws) ≡ (next, vs) = some_inj (rw p at h) in
      inl (ap (λ q. q.0) e, ap (λ q. q.1) e)
  | inr p ↦
      let (q, found, back) = >>=-eq-some (remove_after a v ws) _ (rw p at h) in
      let e : (q.0, w ∷ q.1) ≡ (next, vs) = some_inj back in
      inr (q.1, ap (λ r. r.1) e, rw (← ap (λ r. r.0) e) found)
]

remove_after-Tall :
    (fresh a next : ℕ) (w : Window) (ws vs : List Window)
    → remove_after a w ws ≡ some (next, vs)
    → Tall fresh (w ∷ ws)
    → Tall fresh vs × (total_height vs ≡ total_height (w ∷ ws))
unfolding remove_after total_height absorb
remove_after-Tall fresh a next w [] vs found h = cc
remove_after-Tall fresh a next w (v ∷ ws) vs found (t, below, (u, under, h)) =
    elim (remove_after-cases a next w v ws vs found) [
      | inl (e, e') ↦ rw (← e') ((absorb-IsTall v w u t, below, h), omega arith)
      | inr (us, e, found') ↦
          let ih = remove_after-Tall fresh a next v ws us found' (u, under, h) in
          rw (← e) ((t, below, ih.0), omega (arith, ih.1))
    ]

remove_after-Apart :
    (a b next : ℕ) (w : Window) (ws vs : List Window)
    → remove_after a w ws ≡ some (next, vs)
    → Apart b (w ∷ ws)
    → Apart b vs
unfolding remove_after absorb
remove_after-Apart a b next w [] vs found h = cc
remove_after-Apart a b next w (v ∷ ws) vs found (h, (h', hs)) =
    elim (remove_after-cases a next w v ws vs found) [
      | inl (e, e') ↦ rw (← e') (h, hs)
      | inr (us, e, found') ↦ rw (← e) (h, remove_after-Apart a b next v ws us found' (h', hs))
    ]

remove_after-Distinct :
    (a next : ℕ) (w : Window) (ws vs : List Window)
    → remove_after a w ws ≡ some (next, vs)
    → Distinct (w ∷ ws)
    → Distinct vs
unfolding remove_after absorb
remove_after-Distinct a next w [] vs found h = cc
remove_after-Distinct a next w (v ∷ ws) vs found (h, (h', hs)) =
    elim (remove_after-cases a next w v ws vs found) [
      | inl (e, e') ↦ rw (← e') (h.1, hs)
      | inr (us, e, found') ↦ rw (← e) (
        remove_after-Apart a w.address next v ws us found' h,
        remove_after-Distinct a next v ws us found' (h', hs),
      )
    ]

remove_after-found :
    (a next : ℕ) (w : Window) (ws vs : List Window)
    → remove_after a w ws ≡ some (next, vs)
    → Distinct (w ∷ ws)
    → (v : Window) × (window_at vs next ≡ some v)
unfolding remove_after absorb
remove_after-found a next w [] vs found h = cc
remove_after-found a next w (v ∷ ws) vs found (h, hs) =
    elim (remove_after-cases a next w v ws vs found) [
      | inl (e, e') ↦ (absorb v w, rw (← e', ← e) (window_at-first (absorb v w) ws))
      | inr (us, e, found') ↦
          let (u, at) = remove_after-found a next v ws us found' hs in
          let apart = remove_after-Apart a w.address next v ws us found' h in
          (u, rw (← e) (window_at-there w us next (Apart-away w.address next us u apart at) ∙ at))
    ]

-- A window is deleted: the rest has its lines, and the window that takes its place is there.
pub remove_window-Tall :
    (fresh a next : ℕ) (ws vs : List Window)
    → remove_window a ws ≡ some (next, vs)
    → Tall fresh ws
    → Tall fresh vs × (total_height vs ≡ total_height ws)
unfolding remove_window total_height absorb
remove_window-Tall fresh a next [] vs h t = cc
remove_window-Tall fresh a next (w ∷ []) vs h t = cc
remove_window-Tall fresh a next (w ∷ v ∷ ws) vs h (t, below, (u, under, all)) =
    elim (Bool-cases (w.address == a)) [
      | inl p ↦
          let e : (v.address, absorb w v ∷ ws) ≡ (next, vs) = some_inj (rw p at h) in
          rw (← ap (λ q. q.1) e) ((absorb-IsTall w v t u, under, all), omega arith)
      | inr p ↦ remove_after-Tall fresh a next w (v ∷ ws) vs (rw p at h) (t, below, (u, under, all))
    ]

pub remove_window-Distinct :
    (a next : ℕ) (ws vs : List Window)
    → remove_window a ws ≡ some (next, vs)
    → Distinct ws
    → Distinct vs × ((v : Window) × (window_at vs next ≡ some v))
unfolding remove_window absorb
remove_window-Distinct a next [] vs h d = cc
remove_window-Distinct a next (w ∷ []) vs h d = cc
remove_window-Distinct a next (w ∷ v ∷ ws) vs h (apart, (apart', d)) =
    elim (Bool-cases (w.address == a)) [
      | inl p ↦
          let e : (v.address, absorb w v ∷ ws) ≡ (next, vs) = some_inj (rw p at h) in
          rw (← ap (λ q. q.1) e)
            ((apart', d), (absorb w v, rw (← ap (λ q. q.0) e) (window_at-first (absorb w v) ws)))
      | inr p ↦ (
        remove_after-Distinct a next w (v ∷ ws) vs (rw p at h) (apart, (apart', d)),
        remove_after-found a next w (v ∷ ws) vs (rw p at h) (apart, (apart', d)),
      )
    ]
