-- ===== src/Scrolling.antt =====
-- Scrolling the current window by the height of its text (src/basic.c).
use zile.Prelude.{some, true, false, not, if◌then◌else◌, ◌>>=◌}
use zile.Editor.{say, beginning_of_buffer, end_of_buffer}
use zile.Move.{move_line}
use zile.Session.{window_at}
use zile.Window.{Command, window_top_visible, window_bottom_visible}

unfoldable pub scroll_down : Command
unfolding window_top_visible
scroll_down s = do
  w ← window_at s.windows s.cur_wp
  top ← window_top_visible w s
  let moved = (do (ok, ed) ← move_line false w.eheight s.ed; some (ok, record s { ed = ed }))
  if not top then moved else some (false, record s { ed = say s.ed beginning_of_buffer })

unfoldable pub scroll_up : Command
unfolding window_bottom_visible
scroll_up s = do
  w ← window_at s.windows s.cur_wp
  let moved = (do (ok, ed) ← move_line true w.eheight s.ed; some (ok, record s { ed = ed }))
  if not (window_bottom_visible w)
      then moved
      else some (false, record s { ed = say s.ed end_of_buffer })
