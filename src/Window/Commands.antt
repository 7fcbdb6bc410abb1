-- ===== src/Window/Commands.antt =====
-- The window commands (src/window.c) keep the screen filled with windows, of which one is current.
use zile.Prelude.{
  ℕ, ◌+◌, ◌≤◌, ◌≡◌, refl, ap, ◌∙◌, List, [], ◌∷◌, Option, some, Bool, ◌==◌, ltb, arith,
  Option-cases, inl, inr, some_inj, if-eq-some, >>=-eq-some, ltb→le,
}
use zile.Editor.{Editor, say, window_too_small, sole_window}
use zile.Kill.{point_marker}
use zile.Session.{Session, Window, window_at, next_window, head_window}
use zile.Window.{
  leave_window, enter_window, set_current_window, split_at, split_window, remove_window,
  delete_window, delete_window_command, delete_others, delete_other_windows, other_window, is_sole,
  window_after,
}
use zile.Window.Lookup.{Distinct, window_at-first, next_window-found}
use zile.Window.Tiling.{Tall-more, split_at-Tall, split_at-Distinct, split_at-found}
use zile.Window.Removal.{remove_window-Tall, remove_window-Distinct}
use zile.Window.Kept.{
  IsTiled, IsThere, Kept, Kept-same, Kept-trans, unchain_saved-Kept, leave_window-Kept,
  enter_window-Kept, set_current_window-Kept, recenter_if_below-Kept,
}

-- A filled screen with a current window.
abbrev pub IsSound : ℕ → Session → Type 0
IsSound h s = IsTiled h s × IsThere s s.cur_wp

pub Kept-IsSound :
    {h : ℕ} {s s' : Session} → Kept s s' × (s.cur_wp ≡ s'.cur_wp) → IsSound h s → IsSound h s'
Kept-IsSound {h} {s} {s'} (k, cur) (i, w) = (k.tiles h i, rw (← cur) (k.there s.cur_wp w))

pub answered :
    {h : ℕ} {ok ok' : Bool} {s s' : Session}
    → ◌≡◌ {A = Option (Bool × Session)} (some (ok, s)) (some (ok', s'))
    → IsSound h s
    → IsSound h s'
answered e sound = rw (← ap (λ (q : Bool × Session). q.1) (some_inj e)) sound

-- The list in which a window is split, with the new window's address taken.
split-IsSound :
    (h id : ℕ) (s : Session) (ed : Editor) (w : Window)
    → window_at s.windows s.cur_wp ≡ some w
    → 4 ≤ w.fheight
    → s.ed.fresh ≤ ed.fresh
    → IsTiled h s
    → IsSound h (record s {
      ed = record ed { fresh = ed.fresh + 1 };
      windows = split_at s.cur_wp ed.fresh id s.windows;
    })
split-IsSound h id s ed w found four le i =
    let tall = Tall-more s.ed.fresh ed.fresh s.windows le i.all_tall in
    let (all, total) = split_at-Tall ed.fresh s.cur_wp id s.windows w found four tall in
    (
      record {
        all_tall = all;
        distinct = split_at-Distinct ed.fresh s.cur_wp id s.windows tall i.distinct;
        fills = total ∙ i.fills;
      },
      (_, split_at-found s.cur_wp ed.fresh id s.windows w found),
    )

pub split_window-IsSound :
    (h : ℕ) (s s' : Session) (ok : Bool)
    → split_window s ≡ some (ok, s')
    → IsSound h s
    → IsSound h s'
unfolding split_window point_marker
split_window-IsSound h s s' ok e (i, there) =
    let (w, e1, h1) = >>=-eq-some (window_at s.windows s.cur_wp) _ e in
    if-eq-some (ltb w.fheight 4) _ _ h1
      (λ p c. answered c (
        Kept-IsSound
          (Kept-same s (record s { ed = say s.ed window_too_small }) refl (omega arith), refl)
          (i, there)))
      (λ p c.
        (let (s1, e2, h2) = >>=-eq-some _ _ c in
          answered h2 (
            Kept-IsSound (recenter_if_below-Kept s.cur_wp _ s1 e2) (
              split-IsSound h s.ed.fresh s (point_marker s.ed).0 w e1 (ltb→le _ _ p) (omega arith)
                i))))

pub delete_window-IsSound :
    (h a : ℕ) (s s' : Session) → delete_window a s ≡ some s' → IsSound h s → IsSound h s'
unfolding delete_window
delete_window-IsSound h a s s' e (i, there) =
    let (del, e1, h1) = >>=-eq-some (window_at s.windows a) _ e in
    let (removed, e2, h2) = >>=-eq-some (remove_window a s.windows) _ h1 in
    let next = removed.0 in
    let s1 : Session = record s { windows = removed.1 } in
    let (all, total) = remove_window-Tall s.ed.fresh a next s.windows removed.1 e2 i.all_tall in
    let (differ, found) = remove_window-Distinct a next s.windows removed.1 e2 i.distinct in
    let tiled : IsTiled h s1 = record {
      all_tall = all;
      distinct = differ;
      fills = total ∙ i.fills;
    } in
    if-eq-some (a == s.cur_wp) _ _ h2
      (λ p c.
        (let (left, e3, h3) = >>=-eq-some (leave_window del s1) _ c in
          let (s3, e4, h4) = >>=-eq-some (enter_window next left.1) _ h3 in
          let left_k = (leave_window-Kept del s1 left.1 left.0 e3).0 in
          let (k, cur) = enter_window-Kept next left.1 s3 e4 in
          let all_k = Kept-trans left_k k in
          Kept-IsSound (unchain_saved-Kept (record del { saved_pt = some left.0 }) s3 s' h4)
            (all_k.tiles h tiled, rw (← cur) (all_k.there next found))))
      (λ p c.
        (let (s2, e3, h3) = >>=-eq-some (set_current_window next s1) _ c in
          let (k, cur) = set_current_window-Kept next s1 s2 e3 in
          Kept-IsSound (unchain_saved-Kept del s2 s' h3)
            (k.tiles h tiled, rw (← cur) (k.there next found))))

pub delete_window_command-IsSound :
    (h : ℕ) (s s' : Session) (ok : Bool)
    → delete_window_command s ≡ some (ok, s')
    → IsSound h s
    → IsSound h s'
unfolding delete_window_command
delete_window_command-IsSound h s s' ok e sound =
    if-eq-some (is_sole s.windows s.cur_wp) _ _ e
      (λ p c. answered c (
        Kept-IsSound (Kept-same s (record s { ed = say s.ed sole_window }) refl (omega arith), refl)
          sound))
      (λ p c.
        (let (s1, e1, h1) = >>=-eq-some (delete_window s.cur_wp s) _ c in
          answered h1 (delete_window-IsSound h s.cur_wp s s1 e1 sound)))

pub delete_others-IsSound :
    (h : ℕ) (ws : List Window) (s s' : Session)
    → delete_others ws s ≡ some s'
    → IsSound h s
    → IsSound h s'
unfolding delete_others
delete_others-IsSound h [] s s' e sound = rw (← some_inj e) sound
delete_others-IsSound h (w ∷ ws) s s' e sound =
    let (s1, e1, h1) = >>=-eq-some _ _ e in
    delete_others-IsSound h ws s1 s' h1 (
      if-eq-some (w.address == s.cur_wp) _ _ e1 (λ p c. rw (← some_inj c) sound)
        (λ p c. delete_window-IsSound h w.address s s1 c sound))

pub delete_other_windows-IsSound :
    (h : ℕ) (s s' : Session) (ok : Bool)
    → delete_other_windows s ≡ some (ok, s')
    → IsSound h s
    → IsSound h s'
unfolding delete_other_windows
delete_other_windows-IsSound h s s' ok e sound =
    let (s1, e1, h1) = >>=-eq-some (delete_others s.windows s) _ e in
    answered h1 (delete_others-IsSound h s.windows s s1 e1 sound)

head_window-found :
    (ws : List Window) (w : Window) → head_window ws ≡ some w → window_at ws w.address ≡ some w
unfolding head_window
head_window-found [] w e = cc
head_window-found (v ∷ ws) w e = rw (← some_inj e) (window_at-first v ws)

window_after-found :
    (ws : List Window) (a : ℕ) (w : Window)
    → Distinct ws
    → window_after ws a ≡ some w
    → window_at ws w.address ≡ some w
unfolding window_after
window_after-found ws a w d e = elim (Option-cases (next_window ws a)) [
  | inl p ↦ head_window-found ws w (rw (p, window_after) at e)
  | inr (v, p) ↦ next_window-found ws a w d (p ∙ (rw (p, window_after) at e))
]

pub other_window-IsSound :
    (h : ℕ) (s s' : Session) (ok : Bool)
    → other_window s ≡ some (ok, s')
    → IsSound h s
    → IsSound h s'
unfolding other_window
other_window-IsSound h s s' ok e (i, there) =
    let (w, e1, h1) = >>=-eq-some (window_after s.windows s.cur_wp) _ e in
    let (s1, e2, h2) = >>=-eq-some (set_current_window w.address s) _ h1 in
    let (k, cur) = set_current_window-Kept w.address s s1 e2 in
    answered h2 (
      k.tiles h i,
      rw (← cur) (k.there w.address (w, window_after-found s.windows s.cur_wp w i.distinct e1)),
    )
