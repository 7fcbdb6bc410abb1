-- ===== src/Window/Scroll.antt =====
-- Where a window shows its buffer from (window_resync of src/window.c).
use zile.Prelude.{
  ◌==◌, true, ==_refl, ℕ, pos, negsuc, suc, ◌+◌, ◌-◌, ◌%◌, ◌^◌, ◌≤◌, ◌<◌, ◌≡◌, refl, arith, ltb,
  leb, Bool-cases, inl, inr, ap, ◌∙◌, sym, leb→le, lt→ltb, le→ltb, ltb→lt, ltb→le, some,
}
use mathlib.Core.Path.{subst}
use zile.Astr.{size_mod}
use zile.Buffer.{Buffer}
use zile.Session.{Session, Window, buffer_at, window_at, change_window}
use zile.Window.Lookup.{window_at-address, window_at-change_window, mapped}
use zile.Move.{offset_to_line}
use zile.Window.{resync_delta, scroll_by, middle_topdelta, resync_topdelta, window_resync, as_int}

resync_delta-down : (n l : ℕ) → l ≤ n → n < 2 ^ 31 → resync_delta n (pos l) ≡ pos (n - l)
unfolding resync_delta
resync_delta-down n l le small =
    let e : (n + size_mod - l) % size_mod ≡ n - l = omega arith in
    rw (e, lt→ltb (n - l) (2 ^ 63) (omega arith)) refl

resync_delta-up : (n l d : ℕ) → l ≡ n + suc d → l < 2 ^ 31 → resync_delta n (pos l) ≡ negsuc d
unfolding resync_delta
resync_delta-up n l d at small =
    let e : (n + size_mod - l) % size_mod ≡ size_mod - suc d = omega arith in
    let k : size_mod - 1 - (size_mod - suc d) ≡ d = omega arith in
    rw (e, le→ltb (size_mod - suc d) (2 ^ 63) (omega arith), k) refl

abbrev InView : ℕ → Window → ℕ → Type 0
InView n w t = (t ≤ n) × (t < w.eheight)

middle-InView : (n : ℕ) (w : Window) → 0 < w.eheight → InView n w (middle_topdelta n w)
middle-InView n w lt = ground arith

scroll_down-InView :
    (n d : ℕ) (w : Window)
    → n < 2 ^ 31
    → w.topdelta + d ≤ n
    → w.topdelta < w.eheight
    → InView n w (scroll_by n w (pos d))
unfolding scroll_by
scroll_down-InView n d w small within shown =
    let e : (w.topdelta + d) % size_mod ≡ w.topdelta + d = omega arith in ground arith

scroll_up-InView :
    (n d : ℕ) (w : Window)
    → w.eheight < 2 ^ 31
    → w.topdelta ≤ n + suc d
    → w.topdelta < w.eheight
    → InView n w (scroll_by n w (negsuc d))
unfolding scroll_by
scroll_up-InView n d w small within shown = elim (Bool-cases (leb (suc d) w.topdelta)) [
  | inl p ↦
      let le = leb→le (suc d) w.topdelta p in
      let e : (w.topdelta + size_mod - suc d) % size_mod ≡ w.topdelta - suc d = omega arith in
      rw (p, e) (omega arith, omega arith)
  | inr p ↦ rw p (middle-InView n w (omega arith))
]

resync_topdelta-InView :
    (n l : ℕ) (w : Window)
    → w.lastpointn ≡ pos l
    → n < 2 ^ 31
    → l < 2 ^ 31
    → w.eheight < 2 ^ 31
    → w.topdelta ≤ l
    → w.topdelta < w.eheight
    → InView n w (resync_topdelta n w)
unfolding resync_topdelta
resync_topdelta-InView n l w last small small' low within shown = elim (Bool-cases (ltb n l)) [
  | inr p ↦
      let le = ltb→le n l p in
      let e = ap (resync_delta n) last ∙ resync_delta-down n l le small in
      subst (λ z. InView n w (scroll_by n w z)) (sym e)
        (scroll_down-InView n (n - l) w small (omega arith) shown)
  | inl p ↦
      let lt = ltb→lt n l p in
      let at : l ≡ n + suc (l - n - 1) = omega arith in
      let e = ap (resync_delta n) last ∙ resync_delta-up n l (l - n - 1) at small' in
      subst (λ z. InView n w (scroll_by n w z)) (sym e)
        (scroll_up-InView n (l - n - 1) w low (omega arith) shown)
]

-- When a window's record of the line of the point, that line and the window's height are below
-- 2 ^ 31, and the window starts no further down than the recorded line and shows it, window_resync
-- succeeds, records the line of the point, and the window starts no further down than that line
-- and shows it.
pub window_resync_bounds :
    (a l : ℕ) (s : Session) (w : Window) (b : Buffer)
    → window_at s.windows a ≡ some w
    → buffer_at s w.bp ≡ some b
    → w.lastpointn ≡ pos l
    → l < 2 ^ 31
    → offset_to_line b b.pt < 2 ^ 31
    → w.eheight < 2 ^ 31
    → w.topdelta ≤ l
    → w.topdelta < w.eheight
    → (s' : Session) × (w' : Window) × (window_resync a s ≡ some s')
      × (window_at s'.windows a ≡ some w')
      × (w'.lastpointn ≡ pos (offset_to_line b b.pt))
      × (w'.topdelta ≤ offset_to_line b b.pt)
      × (w'.topdelta < w'.eheight)
unfolding window_resync
window_resync_bounds a l s w b at here last small' small low within shown =
    let n = offset_to_line b b.pt in
    let (top, bottom) = resync_topdelta-InView n l w last small small' low within shown in
    let move = λ (v : Window). record v { topdelta = resync_topdelta n w; lastpointn = as_int n } in
    let e : n % 2 ^ 32 ≡ n = omega arith in
    let hit : (w.address == a) ≡ true =
      ap (λ z. z == a) (window_at-address s.windows a w at) ∙ ==_refl a in
    (
      record s { windows = change_window a move s.windows },
      move w,
      rw (at, here) refl,
      window_at-change_window a a move s.windows (λ v. refl) ∙ ap (mapped a move) at ∙ rw hit refl,
      rw (e, lt→ltb n (2 ^ 31) small) refl,
      top,
      bottom,
    )
