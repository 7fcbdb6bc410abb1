-- ===== src/Window.antt =====
-- Windows (src/window.c, and resize_windows and recenter of src/redisplay.c).
pub mod Lookup
pub mod Tiling
pub mod Removal
pub mod Kept
pub mod Commands
pub mod Lines
pub mod Steps
pub mod Scroll
use zile.Prelude.{
  ℕ, zero, suc, ◌+◌, ◌-◌, ◌/◌, ◌%◌, ◌*◌, ◌^◌, ℤ, pos, negsuc, List, [], ◌∷◌, ◌++◌, Option, none,
  some, Bool, true, false, not, ◌&&◌, ◌||◌, ◌==◌, ltb, leb, if◌then◌else◌, ◌>>=◌, ◌>>◌, assert,
  length,
}
use zile.Astr.{size_mod}
use zile.Buffer.{Buffer}
use zile.Editor.{Editor, set_cur_bp, say, window_too_small, sole_window}
use zile.Move.{goto_offset, offset_to_line}
use zile.Kill.{marker_of, unchain_marker, point_marker}
use zile.History.{streq}
use zile.Session.{
  Session, Window, buffer_at, change_buffer, set_current_buffer, window_at, change_window,
  next_window, previous_window, head_window,
}

-- What a command on windows returns beside its success.
abbrev pub Command : Type 0
Command = Session → Option (Bool × Session)

abbrev is_some {ℓ} : {A : Type ℓ} → Option A → Bool
is_some none = false
is_some (some a) = true

abbrev pub saved : ℕ → Window → Window
saved id w = record w { saved_pt = some id }

abbrev pub unsaved : Window → Window
unsaved w = record w { saved_pt = none }

unfoldable pub unchain_saved : Window → Session → Option Session
unchain_saved w s = elim w.saved_pt [
  | none ↦ some s
  | some id ↦ change_buffer w.bp (λ b. unchain_marker b id) s
]

-- The first half of `set_current_window`: the point is saved in a new marker, which the old window
-- refers to.
unfoldable pub leave_window : Window → Session → Option (ℕ × Session)
unfolding unchain_saved
leave_window w s = do
  s1 ← unchain_saved w s
  let (ed, id) = point_marker s1.ed
  some (id, record s1 { ed = ed; windows = change_window w.address (saved id) s1.windows })

-- The point goes where the window's marker says, which is no longer needed.
unfoldable pub restore_pt : ℕ → ℕ → Session → Option Session
restore_pt a id s = do
  m ← marker_of s.ed.cur_bp.markers id
  ed ← goto_offset s.ed m.o
  some (record s {
    ed = set_cur_bp ed (unchain_marker ed.cur_bp id);
    windows = change_window a unsaved s.windows;
  })

-- The second half.
unfoldable pub enter_window : ℕ → Session → Option Session
unfolding restore_pt
enter_window a s = do
  w ← window_at s.windows a
  s1 ← set_current_buffer w.bp (record s { cur_wp = a })
  elim w.saved_pt [ none ↦ some s1 | some id ↦ restore_pt a id s1 ]

unfoldable pub set_current_window : ℕ → Session → Option Session
unfolding leave_window enter_window
set_current_window a s = do
  w ← window_at s.windows s.cur_wp
  (_, s1) ← leave_window w s
  enter_window a s1

unfoldable pub window_o : Window → Session → Option ℕ
window_o w s =
    let saved_o = λ (id : ℕ). (do b ← buffer_at s w.bp; m ← marker_of b.markers id; some m.o) in
    let own_o = (do b ← buffer_at s w.bp; some b.pt) in
    if w.address == s.cur_wp
    then (do assert (w.bp == s.ed.cur_bp.address && not (is_some w.saved_pt)); some s.ed.cur_bp.pt)
    else elim w.saved_pt [ none ↦ own_o | some id ↦ saved_o id ]

unfoldable pub recenter : ℕ → Session → Option Session
unfolding window_o
recenter a s = do
  w ← window_at s.windows a
  b ← buffer_at s w.bp
  o ← window_o w s
  let n = offset_to_line b o
  let delta = if ltb (w.eheight / 2) n then w.eheight / 2 else n
  some (record s { windows = change_window a (λ v. record v { topdelta = delta }) s.windows })

-- `if (wp->topdelta >= wp->eheight) recenter (wp);`
unfoldable pub recenter_if_below : ℕ → Session → Option Session
unfolding recenter
recenter_if_below a s = do
  w ← window_at s.windows a
  let centered = recenter a s
  if leb w.eheight w.topdelta then centered else some s

-- The two windows that `split_window` makes of one.
unfoldable pub upper_half : Window → Window
upper_half w = record w { fheight = w.fheight / 2; eheight = w.fheight / 2 - 1 }

unfoldable pub lower_half : ℕ → ℕ → Window → Window
lower_half a id w = record w {
  address = a;
  fheight = w.fheight / 2 + w.fheight % 2;
  eheight = w.fheight / 2 + w.fheight % 2 - 1;
  saved_pt = some id;
}

unfoldable pub split_at : ℕ → ℕ → ℕ → List Window → List Window
unfolding upper_half lower_half
split_at a new id [] = []
split_at a new id (w ∷ ws) =
    if w.address == a then upper_half w ∷ lower_half new id w ∷ ws else w ∷ split_at a new id ws

unfoldable pub split_window : Command
unfolding split_at recenter_if_below
split_window s = do
  w ← window_at s.windows s.cur_wp
  let (ed, id) = point_marker s.ed
  let new = ed.fresh
  let split = record s {
    ed = record ed { fresh = ed.fresh + 1 };
    windows = split_at s.cur_wp new id s.windows;
  }
  let done = (do s1 ← recenter_if_below s.cur_wp split; some (true, s1))
  if ltb w.fheight 4 then some (false, record s { ed = say s.ed window_too_small }) else done

-- The window takes the height of one that is deleted.
unfoldable pub absorb : Window → Window → Window
absorb del w = record w {
  fheight = w.fheight + del.fheight;
  eheight = w.eheight + (del.eheight + 1);
}

-- The list without the window at an address, and the window that takes its place: the next one for
-- the first window, the previous one for any other.
unfoldable pub remove_after : ℕ → Window → List Window → Option (ℕ × List Window)
unfolding absorb
remove_after a w [] = none
remove_after a w (v ∷ ws) =
    let rest = (do (next, vs) ← remove_after a v ws; some (next, w ∷ vs)) in
    if v.address == a then some (w.address, absorb v w ∷ ws) else rest

unfoldable pub remove_window : ℕ → List Window → Option (ℕ × List Window)
unfolding remove_after absorb
remove_window a [] = none
remove_window a (w ∷ []) = none
remove_window a (w ∷ v ∷ ws) =
    if w.address == a then some (v.address, absorb w v ∷ ws) else remove_after a w (v ∷ ws)

-- The sole window is never deleted: that leaves no window, which is `none` here.
unfoldable pub delete_window : ℕ → Session → Option Session
unfolding remove_window unchain_saved set_current_window leave_window enter_window
delete_window a s = do
  del ← window_at s.windows a
  (next, ws) ← remove_window a s.windows
  let s1 = record s { windows = ws }
  let other = (do s2 ← set_current_window next s1; unchain_saved del s2)
  let current = (do
    (id, s2) ← leave_window del s1
    s3 ← enter_window next s2
    unchain_saved (record del { saved_pt = some id }) s3)
  if a == s.cur_wp then current else other

-- `cur_wp == head_wp && cur_wp->next == NULL`
unfoldable pub is_sole : List Window → ℕ → Bool
is_sole ws a = elim (head_window ws) [
  | none ↦ false
  | some w ↦ w.address == a && not (is_some (next_window ws a))
]

unfoldable pub delete_window_command : Command
unfolding delete_window is_sole
delete_window_command s =
    let deleted = (do s1 ← delete_window s.cur_wp s; some (true, s1)) in
    if is_sole s.windows s.cur_wp
    then some (false, record s { ed = say s.ed sole_window })
    else deleted

abbrev pub shorter : Window → Window
shorter w = record w { fheight = w.fheight - 1; eheight = w.eheight - 1 }

abbrev pub taller : Window → Window
taller w = record w { fheight = w.fheight + 1; eheight = w.eheight + 1 }

-- The window that `enlarge_window` takes a line from: the next one if it has three, else the
-- previous one if it has.
unfoldable pub previous_donor : List Window → ℕ → Option ℕ
previous_donor ws a = elim (previous_window ws a) [
  | none ↦ none
  | some v ↦ if ltb v.fheight 3 then none else some v.address
]

unfoldable pub donor : List Window → ℕ → Option ℕ
unfolding previous_donor
donor ws a = elim (next_window ws a) [
  | none ↦ previous_donor ws a
  | some w ↦ if ltb w.fheight 3 then previous_donor ws a else some w.address
]

unfoldable pub enlarge_window : Command
unfolding donor recenter_if_below
enlarge_window s = elim (donor s.windows s.cur_wp) [
  | none ↦ some (false, s)
  | some a ↦ do
    s1 ← recenter_if_below a (record s { windows = change_window a shorter s.windows })
    some (true, record s1 { windows = change_window s.cur_wp taller s1.windows })
]

-- The window that `shrink_window` gives a line to.
unfoldable pub receiver : List Window → ℕ → Option ℕ
receiver ws a = elim (next_window ws a) [
  | some w ↦ some w.address
  | none ↦ elim (previous_window ws a) [ none ↦ none | some v ↦ some v.address ]
]

unfoldable pub shrink_window : Command
unfolding receiver recenter_if_below
shrink_window s = do
  w ← window_at s.windows s.cur_wp
  let given = λ (a : ℕ). (do
    s1 ←
        recenter_if_below s.cur_wp
          (record s { windows = change_window s.cur_wp shorter (change_window a taller s.windows) })
    some (true, s1))
  elim (receiver s.windows s.cur_wp) [
    | none ↦ some (false, s)
    | some a ↦ if ltb w.fheight 3 then some (false, s) else given a
  ]

unfoldable pub popup_window : Session → Option (ℕ × Session)
unfolding split_window
popup_window s =
    let split = (do
      (_, s1) ← split_window s
      w ← next_window s1.windows s1.cur_wp
      some (w.address, s1)) in
    let first = (do w ← head_window s.windows; some (w.address, s)) in
    elim s.windows [
      | _ ∷ [] ↦ split
      | _ ↦ elim (next_window s.windows s.cur_wp) [ none ↦ first | some w ↦ some (w.address, s) ]
    ]

-- The loop over the windows of the list as it was: `delete_window` makes another window current.
unfoldable pub delete_others : List Window → Session → Option Session
unfolding delete_window
delete_others [] s = some s
delete_others (w ∷ ws) s = do
  let deleted = delete_window w.address s
  s1 ← if w.address == s.cur_wp then some s else deleted
  delete_others ws s1

unfoldable pub delete_other_windows : Command
unfolding delete_others
delete_other_windows s = do s1 ← delete_others s.windows s; some (true, s1)

-- The window one step away in the cyclic order.
unfoldable pub window_after : List Window → ℕ → Option Window
window_after ws a = elim (next_window ws a) [ none ↦ head_window ws | some w ↦ some w ]

unfoldable pub other_window : Command
unfolding set_current_window window_after
other_window s = do
  w ← window_after s.windows s.cur_wp
  s1 ← set_current_window w.address s
  some (true, s1)

-- `STREQ` with the buffer's name, which a buffer may lack.
abbrev pub has_name : List ℕ → Buffer → Bool
has_name name b = elim b.name [ none ↦ false | some n ↦ streq n name ]

unfoldable pub find_window : List Window → Session → List ℕ → Option Window
find_window [] s name = none
find_window (w ∷ ws) s name = elim (buffer_at s w.bp) [
  | none ↦ none
  | some b ↦ if has_name name b then some w else find_window ws s name
]

unfoldable pub window_top_visible : Window → Session → Option Bool
unfolding window_o
window_top_visible w s = do
  b ← buffer_at s w.bp
  o ← window_o w s
  some (offset_to_line b o == w.topdelta)

unfoldable pub window_bottom_visible : Window → Bool
window_bottom_visible w = w.all_displayed

-- `n` is the line of the point. `n - wp->lastpointn` is computed as a size_t, where an int below zero
-- becomes a large number, and read as a ptrdiff_t; adding it to `topdelta` wraps.
unfoldable pub resync_delta : ℕ → ℤ → ℤ
resync_delta n lastpointn =
    let last : ℕ = elim lastpointn [ pos k ↦ k | negsuc k ↦ size_mod - 1 - k ] in
    let delta = (n + size_mod - last) % size_mod in
    if ltb delta (2 ^ 63) then pos delta else negsuc (size_mod - 1 - delta)

abbrev pub middle_topdelta : ℕ → Window → ℕ
middle_topdelta n w = if ltb (w.eheight / 2) n then w.eheight / 2 else n

unfoldable pub scroll_by : ℕ → Window → ℤ → ℕ
scroll_by n w (pos d) =
    let t = (w.topdelta + d) % size_mod in
    if d == 0 then w.topdelta else if ltb t w.eheight then t else middle_topdelta n w
scroll_by n w (negsuc d) =
    let t = (w.topdelta + size_mod - suc d) % size_mod in
    if leb (suc d) w.topdelta then t else middle_topdelta n w

unfoldable pub resync_topdelta : ℕ → Window → ℕ
unfolding resync_delta scroll_by
resync_topdelta n w = scroll_by n w (resync_delta n w.lastpointn)

-- A size_t as an int.
abbrev pub as_int : ℕ → ℤ
as_int n = if ltb (n % 2 ^ 32) (2 ^ 31) then pos (n % 2 ^ 32) else negsuc (2 ^ 32 - 1 - n % 2 ^ 32)

unfoldable pub window_resync : ℕ → Session → Option Session
unfolding resync_topdelta
window_resync a s = do
  w ← window_at s.windows a
  b ← buffer_at s w.bp
  let n = offset_to_line b b.pt
  some (record s {
    windows =
        change_window a (λ v. record v { topdelta = resync_topdelta n w; lastpointn = as_int n })
          s.windows;
  })
