-- ===== src/Window/Lines.antt =====
-- Lines that windows give and take (enlarge-window and shrink-window of src/window.c).
use zile.Prelude.{
  ℕ, ◌+◌, ◌≤◌, ◌≡◌, refl, ap, ◌∙◌, List, none, some, Bool, ◌==◌, ltb, arith, Bool-cases,
  Option-cases, inl, inr, some_inj, if-eq-some, >>=-eq-some, ltb→le, none≢some,
}
use zile.Session.{
  Session, Window, window_at, change_one, change_window, next_window, previous_window,
}
use zile.Window.{
  shorter, taller, previous_donor, donor, recenter_if_below, enlarge_window, receiver,
  shrink_window,
}
use zile.Window.Lookup.{
  Distinct, mapped, window_at-change_window, next_window-found, previous_window-found,
}
use zile.Window.Tiling.{Tall-found, change_window-Tall, change_window-Distinct}
use zile.Window.Kept.{IsTiled, IsThere, mapped-some, recenter_if_below-Kept}
use zile.Window.Commands.{IsSound, Kept-IsSound, answered}
use zile.Resize.{total_height}

-- A window that has a line to give.
abbrev HasThree : List Window → ℕ → Type 0
HasThree ws a = (w : Window) × (window_at ws a ≡ some w) × (3 ≤ w.fheight)

lower :
    (h a : ℕ) (s : Session)
    → IsTiled h s
    → HasThree s.windows a
    → (h1 : ℕ) × (h ≡ h1 + 1)
      × IsTiled h1 (record s { windows = change_window a shorter s.windows })
lower h a s i (w, found, three) =
    let t = Tall-found s.ed.fresh a s.windows w found i.all_tall in
    let (all, total) =
      change_window-Tall s.ed.fresh a shorter s.windows w (λ v. refl) found
        ((omega (arith, t), omega arith)) i.distinct i.all_tall in
    (
      total_height (change_window a shorter s.windows),
      omega (arith, total, i.fills),
      record {
        all_tall = all;
        distinct = change_window-Distinct a shorter s.windows (λ v. refl) i.distinct;
        fills = refl;
      },
    )

raise :
    (h a : ℕ) (s : Session)
    → IsTiled h s
    → IsThere s a
    → IsTiled (h + 1) (record s { windows = change_window a taller s.windows })
raise h a s i (w, found) =
    let t = Tall-found s.ed.fresh a s.windows w found i.all_tall in
    let (all, total) =
      change_window-Tall s.ed.fresh a taller s.windows w (λ v. refl) found
        ((omega (arith, t), omega (arith, t))) i.distinct i.all_tall in
    record {
      all_tall = all;
      distinct = change_window-Distinct a taller s.windows (λ v. refl) i.distinct;
      fills = omega (arith, total, i.fills);
    }

previous_donor-HasThree :
    (ws : List Window) (a b : ℕ) → Distinct ws → previous_donor ws a ≡ some b → HasThree ws b
unfolding previous_donor
previous_donor-HasThree ws a b d e = elim (Option-cases (previous_window ws a)) [
  | inl p ↦ absurd (none≢some (rw (p, previous_donor) at e))
  | inr (v, p) ↦
      if-eq-some (ltb v.fheight 3) none (some v.address) (rw (p, previous_donor) at e)
        (λ q c. absurd (none≢some c))
        (λ q c. (v, rw (← some_inj c) (previous_window-found ws a v d p), ltb→le _ _ q))
]

donor-HasThree : (ws : List Window) (a b : ℕ) → Distinct ws → donor ws a ≡ some b → HasThree ws b
unfolding donor
donor-HasThree ws a b d e = elim (Option-cases (next_window ws a)) [
  | inl p ↦ previous_donor-HasThree ws a b d (rw (p, donor) at e)
  | inr (v, p) ↦
      if-eq-some (ltb v.fheight 3) (previous_donor ws a) (some v.address) (rw (p, donor) at e)
        (λ q c. previous_donor-HasThree ws a b d c)
        (λ q c. (v, rw (← some_inj c) (next_window-found ws a v d p), ltb→le _ _ q))
]

receiver-IsThere :
    (s : Session) (a b : ℕ) → Distinct s.windows → receiver s.windows a ≡ some b → IsThere s b
unfolding receiver
receiver-IsThere s a b d e = elim (Option-cases (next_window s.windows a)) [
  | inr (v, p) ↦ (v, rw (← some_inj (rw (p, receiver) at e)) (next_window-found s.windows a v d p))
  | inl p ↦ elim (Option-cases (previous_window s.windows a)) [
    | inr (v, q) ↦
        (v, rw (← some_inj (rw (p, q, receiver) at e)) (previous_window-found s.windows a v d q))
    | inl q ↦ absurd (none≢some (rw (p, q, receiver) at e))
  ]
]

pub enlarge_window-IsSound :
    (h : ℕ) (s s' : Session) (ok : Bool)
    → enlarge_window s ≡ some (ok, s')
    → IsSound h s
    → IsSound h s'
unfolding enlarge_window
enlarge_window-IsSound h s s' ok e (i, there) = elim (Option-cases (donor s.windows s.cur_wp)) [
  | inl p ↦ answered (rw (p, enlarge_window) at e) (i, there)
  | inr (a, p) ↦
      let cut : Session = record s { windows = change_window a shorter s.windows } in
      let (s1, e1, h1) = >>=-eq-some (recenter_if_below a cut) _ (rw (p, enlarge_window) at e) in
      let (k, cur) = recenter_if_below-Kept a cut s1 e1 in
      let (h', more, low) = lower h a s i (donor-HasThree s.windows s.cur_wp a i.distinct p) in
      let there1 = k.there s.cur_wp (mapped-some a s.cur_wp shorter s.windows (λ v. refl) there) in
      answered h1 (
        rw more (raise h' s.cur_wp s1 (k.tiles h' low) there1),
        rw (← cur) (mapped-some s.cur_wp s.cur_wp taller s1.windows (λ v. refl) there1),
      )
]

taller-HasThree :
    (a b : ℕ) (ws : List Window) (w : Window)
    → window_at ws b ≡ some w
    → 3 ≤ w.fheight
    → HasThree (change_window a taller ws) b
taller-HasThree a b ws w e three = (
  change_one a taller w,
  window_at-change_window a b taller ws (λ v. refl) ∙ ap (mapped a taller) e,
  elim (Bool-cases (w.address == a)) [ inl p ↦ rw p (omega arith) | inr p ↦ rw p three ],
)

pub shrink_window-IsSound :
    (h : ℕ) (s s' : Session) (ok : Bool)
    → shrink_window s ≡ some (ok, s')
    → IsSound h s
    → IsSound h s'
unfolding shrink_window
shrink_window-IsSound h s s' ok e (i, there) =
    let (w, e1, h1) = >>=-eq-some (window_at s.windows s.cur_wp) _ e in
    elim (Option-cases (receiver s.windows s.cur_wp)) [
      | inl p ↦ answered (rw p at h1) (i, there)
      | inr (a, p) ↦
          if-eq-some (ltb w.fheight 3) _ _ (rw p at h1) (λ q c. answered c (i, there))
            (λ q c.
              (let given : Session = record s { windows = change_window a taller s.windows } in
                let cut : Session = record s {
                  windows = change_window s.cur_wp shorter given.windows;
                } in
                let i1 = raise h a s i (receiver-IsThere s s.cur_wp a i.distinct p) in
                let (h', more, low) =
                  lower (h + 1) s.cur_wp given i1
                    (taller-HasThree a s.cur_wp s.windows w e1 (ltb→le _ _ q)) in
                let (s1, e2, h2) = >>=-eq-some (recenter_if_below s.cur_wp cut) _ c in
                let same : h' ≡ h = omega (arith, more) in
                let there1 =
                  mapped-some s.cur_wp s.cur_wp shorter given.windows (λ v. refl)
                    (mapped-some a s.cur_wp taller s.windows (λ v. refl) there) in
                answered h2 (
                  Kept-IsSound (recenter_if_below-Kept s.cur_wp cut s1 e2)
                    (rw same at low, there1))))
    ]
