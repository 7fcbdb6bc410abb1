-- ===== src/Window/Kept.antt =====
-- What the parts of the window commands (src/window.c) keep of the tiling.
use zile.Prelude.{
  ℕ, ◌≤◌, ◌≡◌, refl, ap, ◌∙◌, List, some, leb, arith, Option-cases, inl, inr, some_inj, if-eq-some,
  >>=-eq-some,
}
use zile.Buffer.{Buffer}
use zile.Editor.{Editor}
use zile.Move.{goto_offset}
use zile.Kill.{point_marker, marker_of}
use zile.Session.{
  Session, Window, window_at, change_window, change_buffer, set_current_buffer, buffer_at,
}
use zile.Window.{
  saved, unsaved, unchain_saved, leave_window, restore_pt, enter_window, window_o,
  set_current_window, recenter, recenter_if_below,
}
use zile.Window.Lookup.{Distinct, KeepsAddress, mapped, window_at-change_window}
use zile.Window.Tiling.{Tall, Tall-more, IsQuiet, change_window-quiet, change_window-Distinct}
use zile.Resize.{total_height}

-- The windows fill the screen: so many lines, of tall windows that differ.
pub record IsTiled (h : ℕ) (s : Session) : Type 0 where
  pub all_tall : Tall s.ed.fresh s.windows
  pub distinct : Distinct s.windows
  pub fills : total_height s.windows ≡ h

abbrev pub IsThere : Session → ℕ → Type 0
IsThere s a = (w : Window) × (window_at s.windows a ≡ some w)

-- A step that keeps the tiling and every window.
pub record Kept (s s' : Session) : Type 0 where
  pub tiles : (h : ℕ) → IsTiled h s → IsTiled h s'
  pub there : (a : ℕ) → IsThere s a → IsThere s' a

pub Kept-trans : {s t u : Session} → Kept s t → Kept t u → Kept s u
Kept-trans k l = record {
  tiles = λ h i. l.tiles h (k.tiles h i);
  there = λ a w. l.there a (k.there a w);
}

pub Kept-same : (s s' : Session) → s.windows ≡ s'.windows → s.ed.fresh ≤ s'.ed.fresh → Kept s s'
Kept-same s s' e le = record {
  tiles = λ h i. record {
    all_tall = rw (← e) (Tall-more s.ed.fresh s'.ed.fresh s.windows le i.all_tall);
    distinct = rw (← e) i.distinct;
    fills = rw (← e) i.fills;
  };
  there = λ a w. rw (← e) w;
}

pub mapped-some :
    (a b : ℕ) (f : Window → Window) (ws : List Window)
    → KeepsAddress f
    → (w : Window) × (window_at ws b ≡ some w)
    → (w : Window) × (window_at (change_window a f ws) b ≡ some w)
mapped-some a b f ws same (w, e) = (_, window_at-change_window a b f ws same ∙ ap (mapped a f) e)

pub Kept-quiet :
    (s : Session) (a : ℕ) (f : Window → Window)
    → IsQuiet f
    → Kept s (record s { windows = change_window a f s.windows })
Kept-quiet s a f q = record {
  tiles = λ h i.
      (let c = change_window-quiet s.ed.fresh a f s.windows q i.all_tall in
        record {
          all_tall = c.0;
          distinct = change_window-Distinct a f s.windows (λ w. (q w).0) i.distinct;
          fills = c.1 ∙ i.fills;
        });
  there = λ b w. mapped-some a b f s.windows (λ v. (q v).0) w;
}

-- A step that is of no concern to the windows.
abbrev Same : Session → Session → Type 0
Same s s' = (s.windows ≡ s'.windows) × (s.ed.fresh ≡ s'.ed.fresh) × (s.cur_wp ≡ s'.cur_wp)

Kept-via :
    (s s' : Session) (a : ℕ) (f : Window → Window)
    → IsQuiet f
    → change_window a f s.windows ≡ s'.windows
    → s.ed.fresh ≤ s'.ed.fresh
    → Kept s s'
Kept-via s s' a f q e le =
    Kept-trans (Kept-quiet s a f q)
      (Kept-same (record s { windows = change_window a f s.windows }) s' e le)

goto_offset-fresh :
    (ed : Editor) (o : ℕ) (ed' : Editor) → goto_offset ed o ≡ some ed' → ed.fresh ≡ ed'.fresh
unfolding goto_offset
goto_offset-fresh ed o ed' h = ground arith

change_buffer-Same :
    (a : ℕ) (f : Buffer → Buffer) (s s' : Session) → change_buffer a f s ≡ some s' → Same s s'
unfolding change_buffer
change_buffer-Same a f s s' h = ground arith

set_current_buffer-Same : (a : ℕ) (s s' : Session) → set_current_buffer a s ≡ some s' → Same s s'
unfolding set_current_buffer
set_current_buffer-Same a s s' h = ground arith

unchain_saved-Same : (w : Window) (s s' : Session) → unchain_saved w s ≡ some s' → Same s s'
unfolding unchain_saved
unchain_saved-Same w s s' h = elim (Option-cases w.saved_pt) [
  | inl p ↦ ground arith
  | inr (id, p) ↦ change_buffer-Same w.bp _ s s' (rw p at h)
]

pub unchain_saved-Kept :
    (w : Window) (s s' : Session) → unchain_saved w s ≡ some s' → Kept s s' × (s.cur_wp ≡ s'.cur_wp)
unchain_saved-Kept w s s' h =
    let (e, fresh, cur) = unchain_saved-Same w s s' h in (Kept-same s s' e (omega arith), cur)

pub leave_window-Kept :
    (w : Window) (s s' : Session) (id : ℕ)
    → leave_window w s ≡ some (id, s')
    → Kept s s' × (s.cur_wp ≡ s'.cur_wp)
unfolding leave_window point_marker
leave_window-Kept w s s' id h =
    let (s1, e1, h1) = >>=-eq-some (unchain_saved w s) _ h in
    let (k1, cur) = unchain_saved-Kept w s s1 e1 in
    (
      Kept-trans k1 (
          Kept-via s1 s' w.address (saved s1.ed.fresh) (λ v. (refl, refl, refl)) (ground arith)
            (ground arith)),
      cur ∙ ground arith,
    )

restore_pt-Kept :
    (a id : ℕ) (s s' : Session) → restore_pt a id s ≡ some s' → Kept s s' × (s.cur_wp ≡ s'.cur_wp)
unfolding restore_pt
restore_pt-Kept a id s s' h =
    let (m, e1, h1) = >>=-eq-some (marker_of s.ed.cur_bp.markers id) _ h in
    let (ed, e2, h2) = >>=-eq-some (goto_offset s.ed m.o) _ h1 in
    let fresh = goto_offset-fresh s.ed m.o ed e2 in
    let e = some_inj h2 in
    rw (← e) (Kept-via s _ a unsaved (λ v. (refl, refl, refl)) refl (omega arith), refl)

pub enter_window-Kept :
    (a : ℕ) (s s' : Session) → enter_window a s ≡ some s' → Kept s s' × (a ≡ s'.cur_wp)
unfolding enter_window
enter_window-Kept a s s' h =
    let (w, e1, h1) = >>=-eq-some (window_at s.windows a) _ h in
    let (s1, e2, h2) = >>=-eq-some (set_current_buffer w.bp (record s { cur_wp = a })) _ h1 in
    let (same, fresh, cur) = set_current_buffer-Same w.bp (record s { cur_wp = a }) s1 e2 in
    elim (Option-cases w.saved_pt) [
      | inl p ↦
          let e : s1 ≡ s' = some_inj (rw p at h2) in
          (rw (← e) (Kept-same s s1 same (omega arith)), rw (← e) cur)
      | inr (id, p) ↦
          let (k, cur') = restore_pt-Kept a id s1 s' (rw p at h2) in
          (Kept-trans (Kept-same s s1 same (omega arith)) k, cur ∙ cur')
    ]

pub set_current_window-Kept :
    (a : ℕ) (s s' : Session) → set_current_window a s ≡ some s' → Kept s s' × (a ≡ s'.cur_wp)
unfolding set_current_window
set_current_window-Kept a s s' h =
    let (w, e1, h1) = >>=-eq-some (window_at s.windows s.cur_wp) _ h in
    let (left, e2, h2) = >>=-eq-some (leave_window w s) _ h1 in
    let (k, cur) = enter_window-Kept a left.1 s' h2 in
    (Kept-trans ((leave_window-Kept w s left.1 left.0 e2).0) k, cur)

pub recenter-Kept :
    (a : ℕ) (s s' : Session) → recenter a s ≡ some s' → Kept s s' × (s.cur_wp ≡ s'.cur_wp)
unfolding recenter
recenter-Kept a s s' h =
    let (w, e1, h1) = >>=-eq-some (window_at s.windows a) _ h in
    let (b, e2, h2) = >>=-eq-some (buffer_at s w.bp) _ h1 in
    let (o, e3, h3) = >>=-eq-some (window_o w s) _ h2 in
    let e = some_inj h3 in rw (← e) (Kept-quiet s a _ (λ v. (refl, refl, refl)), refl)

pub recenter_if_below-Kept :
    (a : ℕ) (s s' : Session) → recenter_if_below a s ≡ some s' → Kept s s' × (s.cur_wp ≡ s'.cur_wp)
unfolding recenter_if_below
recenter_if_below-Kept a s s' h =
    let (w, e1, h1) = >>=-eq-some (window_at s.windows a) _ h in
    if-eq-some (leb w.eheight w.topdelta) (recenter a s) (some s) h1 (λ p c. recenter-Kept a s s' c)
      (λ p c. (
        rw (← some_inj c) (Kept-same s s refl (omega arith)),
        ap (λ (t : Session). t.cur_wp) (some_inj c),
      ))
