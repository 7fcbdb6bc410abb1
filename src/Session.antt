-- ===== src/Session.antt =====
-- The chain of buffers and the list of windows (the globals head_bp, head_wp and cur_wp of
-- src/main.c), around the editor with its current buffer. In the chain the current buffer may be
-- out of date: `buffer_at` gives the state that counts.
use zile.Prelude.{ℕ, ℤ, List, [], ◌∷◌, Option, none, some, Bool, ◌==◌, if◌then◌else◌, ◌>>=◌}
use zile.Buffer.{Buffer}
use zile.Editor.{Editor, set_cur_bp}

-- `address` stands for the window's address, `bp` for its buffer's, `saved_pt` for a marker's.
pub record Window : Type 0 where
  pub address : ℕ
  pub bp : ℕ
  pub topdelta : ℕ
  pub start_column : ℕ
  pub saved_pt : Option ℕ
  pub fwidth : ℕ
  pub fheight : ℕ
  pub ewidth : ℕ
  pub eheight : ℕ
  pub all_displayed : Bool
  pub lastpointn : ℤ

pub record Session : Type 0 where
  pub ed : Editor
  pub buffers : List Buffer
  pub windows : List Window
  pub cur_wp : ℕ

unfoldable pub buffer_in : List Buffer → ℕ → Option Buffer
buffer_in [] a = none
buffer_in (b ∷ bs) a = if b.address == a then some b else buffer_in bs a

unfoldable pub put_buffer : Buffer → List Buffer → List Buffer
put_buffer b' [] = []
put_buffer b' (b ∷ bs) = (if b.address == b'.address then b' else b) ∷ put_buffer b' bs

unfoldable pub buffer_at : Session → ℕ → Option Buffer
unfolding buffer_in
buffer_at s a = if s.ed.cur_bp.address == a then some s.ed.cur_bp else buffer_in s.buffers a

-- A change to the buffer at an address.
unfoldable pub change_buffer : ℕ → (Buffer → Buffer) → Session → Option Session
unfolding put_buffer buffer_at
change_buffer a f s = do
  b ← buffer_at s a
  some (
      if s.ed.cur_bp.address == a
      then record s { ed = set_cur_bp s.ed (f b) }
      else record s { buffers = put_buffer (f b) s.buffers })

-- `cur_bp = bp`
unfoldable pub set_current_buffer : ℕ → Session → Option Session
unfolding put_buffer buffer_at
set_current_buffer a s = do
  b ← buffer_at s a
  some (record s { ed = set_cur_bp s.ed b; buffers = put_buffer s.ed.cur_bp s.buffers })

unfoldable pub window_at : List Window → ℕ → Option Window
window_at [] a = none
window_at (w ∷ ws) a = if w.address == a then some w else window_at ws a

abbrev pub change_one : ℕ → (Window → Window) → Window → Window
change_one a f w = if w.address == a then f w else w

unfoldable pub change_window : ℕ → (Window → Window) → List Window → List Window
change_window a f [] = []
change_window a f (w ∷ ws) = change_one a f w ∷ change_window a f ws

-- `wp->next` of the window at an address.
unfoldable pub next_window : List Window → ℕ → Option Window
next_window [] a = none
next_window (w ∷ []) a = none
next_window (w ∷ v ∷ ws) a = if w.address == a then some v else next_window (v ∷ ws) a

-- The window whose `next` is the one at an address.
unfoldable pub previous_window : List Window → ℕ → Option Window
previous_window [] a = none
previous_window (w ∷ []) a = none
previous_window (w ∷ v ∷ ws) a = if v.address == a then some w else previous_window (v ∷ ws) a

unfoldable pub head_window : List Window → Option Window
head_window [] = none
head_window (w ∷ ws) = some w
