-- ===== src/Tests/Prompt.antt =====
-- The minibuffer at small lines.
use zile.Prelude.{
  length, ◌<◌, ℕ, ◌+◌, ◌<◌, ◌≤◌, ◌≡◌, refl, List, [], ◌∷◌, Option, none, some, Bool, true,
  if◌then◌else◌, codes, arith, leb, ◌&&◌,
}
use zile.History.{History}
use zile.Completion.{Completion, Screen}
use zile.Prelude.Int.{pos}
use zile.Questions.{minibuf_read_yn}
use zile.Minibuffer.{
  Minibuf, Answer, answered, kbd_up, kbd_ret, kbd_left, read_key, read_loop, term_minibuf_read,
}
use zile.Minibuffer.Plain.{Zip, Edits}
use zile.Minibuffer.Reads.{zip_key, zip_keys}
use zile.Minibuffer.Refines.{term_minibuf_read-Follows}
use zile.Minibuffer.Recalled.{read_loop_beyond}
use zile.Minibuffer.Draw.{Drawn, draw_minibuf_read}
use zile.Minibuffer.Draw.Columns.{draw_minibuf_read_bounds}

-- `isprint` in the C locale.
abbrev printable : ℕ → Bool
printable c = leb 32 c && leb c 126

abbrev small_screen : Screen
small_screen = record { one_window = true; cur_bp = 1; ewidth = 80; term_width = 80 }

abbrev no_add : List ℕ → List (List ℕ) → List (List ℕ)
no_add s ss = s ∷ ss

abbrev no_dir : Completion → List ℕ → Option (Completion × List ℕ)
no_dir cp s = none

-- "ab", then LEFT, "x" and RET, gives "axb" with the cursor behind the "x".
term_minibuf_read-Follows_example :
    (m : Minibuf) × (term_minibuf_read printable small_screen no_add no_dir
        (codes "Find: ")
        (codes "ab")
        0xffffffffffffffff
        none
        none
        (kbd_left ∷ b'x' ∷ kbd_ret ∷ [])
      ≡ some (answered (codes "axb"), m))
    × Edits m (record { left = codes "xa"; right = codes "b" })
unfolding zip_keys zip_key zile.Minibuffer.Plain.onto zile.Minibuffer.Plain.shift_left
term_minibuf_read-Follows_example =
    term_minibuf_read-Follows printable small_screen no_add no_dir (codes "Find: ") (omega arith)
      (omega arith) (codes "ab") 0xffffffffffffffff (kbd_left ∷ b'x' ∷ kbd_ret ∷ []) (omega arith)
      (omega arith)

-- The line "abc" with the cursor behind it, and the history "x".
abbrev recalling : Minibuf
recalling = record {
  line = record { text = codes "abc"; maxlen = 16 };
  pos = 3;
  saved = none;
  thistab = none;
  lasttab = none;
  history = some (record { elements = some (codes "x" ∷ []); sel = none });
  completion = none;
  events = [];
}

abbrev recalled : Option Minibuf
recalled = read_key printable small_screen no_add no_dir kbd_up recalling

read_loop_beyond_example :
    (m1 : Minibuf) × (recalled ≡ some m1)
    × (length m1.line.text < m1.pos)
    × (read_key printable small_screen no_add no_dir b'y'
          (record m1 { thistab = none; lasttab = m1.thistab })
        ≡ none)
    × (read_loop printable small_screen no_add no_dir 6 (kbd_up ∷ b'y' ∷ kbd_ret ∷ []) recalling
        ≡ none)
unfolding zile.History.previous_history_element
read_loop_beyond_example =
    read_loop_beyond printable small_screen no_add no_dir 6 recalling
      (record { elements = some (codes "x" ∷ []); sel = none }) (codes "x") b'y' (kbd_ret ∷ []) refl
      refl (omega arith) refl (omega arith) refl (omega arith)

draw_minibuf_read_bounds_example :
    (d : Drawn) × (draw_minibuf_read 10 4 (codes "abcdefgh") 7 ≡ some d)
    × (d.column < 10)
    × (d.shown_from ≤ 7)
    × (d.column + d.shown_from ≡ 4 + (if d.cut_left then 1 else 0) + 7)
draw_minibuf_read_bounds_example =
    draw_minibuf_read_bounds 10 4 (codes "abcdefgh") 7 (omega arith) (omega arith) (omega arith)
      (omega arith)

asked_again :
    minibuf_read_yn (codes "Save? ") (b'x' ∷ b'y' ∷ [])
    ≡ some (pos 1, [], codes "Save? " ∷ codes "Please answer y or n.  Save? " ∷ [])
unfolding minibuf_read_yn
asked_again = refl
