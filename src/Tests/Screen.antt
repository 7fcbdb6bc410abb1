-- ===== src/Tests/Screen.antt =====
-- A screen of eight lines with one window, which is split.
use zile.Prelude.{
  pos, ◌+◌, ◌≡◌, ◌≤◌, ◌<◌, refl, List, [], ◌∷◌, Option, some, none, Bool, true, arith,
}
use zile.Session.{Session, Window, window_at, buffer_at}
use zile.Move.{offset_to_line}
use zile.Window.{split_window, other_window, window_resync}
use zile.Window.Commands.{IsSound}
use zile.Window.Steps.{splits, goes_on, here, next, Reach-IsSound}
use zile.Window.Scroll.{window_resync_bounds}
use zile.Resize.{total_height, grow_loop}
use zile.Resize.Growth.{grow_loop-total_height}
use zile.Tests.Editing.{sample, editor}

abbrev pane : Window
pane = record {
  address = 0;
  bp = 0;
  topdelta = 0;
  start_column = 0;
  saved_pt = none;
  fwidth = 80;
  fheight = 8;
  ewidth = 80;
  eheight = 7;
  all_displayed = true;
  lastpointn = pos 0;
}

abbrev pub screen : Session
screen = record { ed = editor sample; buffers = sample ∷ []; windows = pane ∷ []; cur_wp = 0 }

screen-IsSound : IsSound 8 screen
unfolding total_height window_at
screen-IsSound = (
  record { all_tall = ((refl, omega arith), omega arith, tt); distinct = (tt, tt); fills = refl },
  (pane, refl),
)

abbrev state_of : Option (Bool × Session) → Session
state_of none = screen
state_of (some (ok, s)) = s

abbrev split_screen : Session
split_screen = state_of (split_window screen)

abbrev other_screen : Session
other_screen = state_of (other_window split_screen)

split_runs : split_window screen ≡ some (true, split_screen)
unfolding split_window window_at
split_runs = refl

goes_runs : other_window split_screen ≡ some (true, other_screen)
unfolding split_window other_window zile.Session.next_window window_at zile.Session.change_window
    zile.Kill.point_marker zile.Session.set_current_buffer zile.Kill.marker_of zile.Move.goto_offset
    zile.Buffer.set_buffer_pt zile.Buffer.get_buffer_line_o zile.Memmem.memrmem
goes_runs = refl

-- The window that was split has four lines, and the new one is current.
two_windows : (total_height other_screen.windows ≡ 8) × (other_screen.cur_wp ≡ 2)
unfolding split_window other_window total_height zile.Session.next_window window_at
    zile.Session.change_window zile.Kill.point_marker zile.Session.set_current_buffer
    zile.Kill.marker_of zile.Move.goto_offset zile.Buffer.set_buffer_pt
    zile.Buffer.get_buffer_line_o zile.Memmem.memrmem
two_windows = (refl, refl)

Reach-IsSound_example : IsSound 8 other_screen
Reach-IsSound_example =
    Reach-IsSound screen-IsSound (next (next here (splits split_runs)) (goes_on goes_runs))

grow_loop-total_height_example :
    (vs : List Window) × (grow_loop 3 2 (pane ∷ pane ∷ []) ≡ some vs)
    × (total_height vs ≡ total_height (pane ∷ pane ∷ []) + 2)
grow_loop-total_height_example = grow_loop-total_height 3 2 pane (pane ∷ []) (omega arith)

-- The point has gone from line 3 to line 0 while the window started a line above it.
abbrev scrolled : Window
scrolled = record pane { topdelta = 1; lastpointn = pos 3 }

abbrev scrolled_screen : Session
scrolled_screen = record screen { windows = scrolled ∷ [] }

window_resync_bounds_example :
    (s' : Session) × (w' : Window) × (window_resync 0 scrolled_screen ≡ some s')
    × (window_at s'.windows 0 ≡ some w')
    × (w'.lastpointn ≡ pos 0)
    × (w'.topdelta ≤ 0)
    × (w'.topdelta < w'.eheight)
unfolding window_at offset_to_line buffer_at zile.Buffer.buffer_end_of_line zile.Memmem.memmem
window_resync_bounds_example =
    window_resync_bounds 0 3 scrolled_screen scrolled sample refl refl refl (omega arith)
      (omega arith) (omega arith) (omega arith) (omega arith)
