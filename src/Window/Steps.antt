-- ===== src/Window/Steps.antt =====
-- Runs of the window commands (src/window.c), with editing between them, from a session on.
use zile.Prelude.{ℕ, ◌≤◌, ◌≡◌, refl, some, Bool}
use zile.Editor.{Editor}
use zile.Session.{Session}
use zile.Window.{
  split_window, delete_window_command, delete_other_windows, enlarge_window, shrink_window,
  other_window, recenter, split_window,
}
use zile.Window.Kept.{Kept-same, recenter-Kept}
use zile.Window.Commands.{
  IsSound, Kept-IsSound, split_window-IsSound, delete_window_command-IsSound,
  delete_other_windows-IsSound, other_window-IsSound,
}
use zile.Window.Lines.{enlarge_window-IsSound, shrink_window-IsSound}

-- A command that ends, with success or without, or an edit of the current buffer.
pub data Step (s : Session) : Session → Type 0 where
  edits : (ed : Editor) → s.ed.fresh ≤ ed.fresh → Step s (record s { ed = ed })
  splits : {ok : Bool} {s' : Session} → split_window s ≡ some (ok, s') → Step s s'
  deletes : {ok : Bool} {s' : Session} → delete_window_command s ≡ some (ok, s') → Step s s'
  deletes_others : {ok : Bool} {s' : Session} → delete_other_windows s ≡ some (ok, s') → Step s s'
  enlarges : {ok : Bool} {s' : Session} → enlarge_window s ≡ some (ok, s') → Step s s'
  shrinks : {ok : Bool} {s' : Session} → shrink_window s ≡ some (ok, s') → Step s s'
  goes_on : {ok : Bool} {s' : Session} → other_window s ≡ some (ok, s') → Step s s'
  recenters : (a : ℕ) {s' : Session} → recenter a s ≡ some s' → Step s s'

pub data Reach (s : Session) : Session → Type 0 where
  here : Reach s s
  next : {t u : Session} → Reach s t → Step t u → Reach s u

Step-IsSound : {h : ℕ} {s t : Session} → Step s t → IsSound h s → IsSound h t
Step-IsSound {s = s} (edits ed le) i =
    Kept-IsSound (Kept-same s (record s { ed = ed }) refl le, refl) i
Step-IsSound (splits e) i = split_window-IsSound _ _ _ _ e i
Step-IsSound (deletes e) i = delete_window_command-IsSound _ _ _ _ e i
Step-IsSound (deletes_others e) i = delete_other_windows-IsSound _ _ _ _ e i
Step-IsSound (enlarges e) i = enlarge_window-IsSound _ _ _ _ e i
Step-IsSound (shrinks e) i = shrink_window-IsSound _ _ _ _ e i
Step-IsSound (goes_on e) i = other_window-IsSound _ _ _ _ e i
Step-IsSound (recenters a e) i = Kept-IsSound (recenter-Kept a _ _ e) i

-- Where the windows fill the screen, are two lines high at least, have different addresses, and the
-- current window is one of them, all of that holds after any run of splitting, deleting, enlarging,
-- shrinking and selecting windows, of recentering and editing.
pub Reach-IsSound : {h : ℕ} {s t : Session} → IsSound h s → Reach s t → IsSound h t
Reach-IsSound i here = i
Reach-IsSound i (next r st) = Step-IsSound st (Reach-IsSound i r)
