-- ===== src/Tests/Buffers.antt =====
-- The only buffer is killed, and a name is found for another.
use zile.Prelude.{
  ℕ, ◌≡◌, refl, List, [], ◌∷◌, Option, some, none, arith, length, replicate, length-replicate, ap,
  sym, ◌∙◌,
}
use zile.Buffer.{Buffer}
use zile.Session.{Session, Window}
use zile.BufferList.{kill_buffer, find_named, unique_name}
use zile.BufferList.Killed.{IsKilled, kill_buffer-IsKilled}
use zile.BufferList.Names.{unique_name_lem}
use zile.Tests.Editing.{sample}
use zile.Tests.Screen.{screen}

abbrev session_of : Option Session → Session
session_of none = screen
session_of (some s) = s

abbrev emptied : Session
emptied = session_of (kill_buffer 0 screen)

kill_runs : kill_buffer 0 screen ≡ some emptied
unfolding kill_buffer zile.Session.change_buffer zile.Session.set_current_buffer
    zile.Window.window_resync zile.Session.window_at
kill_runs = refl

kill_buffer-IsKilled_example : IsKilled 0 emptied
kill_buffer-IsKilled_example =
    kill_buffer-IsKilled 0 screen emptied kill_runs (omega arith) (omega arith, tt, tt)

-- Numbers in strokes.
abbrev strokes : ℕ → List ℕ
strokes i = replicate i 60

strokes-injective : (i j : ℕ) → strokes i ≡ strokes j → i ≡ j
strokes-injective i j h = sym (length-replicate i 60) ∙ ap length h ∙ length-replicate j 60

abbrev named : Buffer
named = record sample { name = some (97 ∷ []) }

unique_name_lem_example :
    (name : List ℕ) × (unique_name strokes (97 ∷ []) (named ∷ []) 3 2 (97 ∷ []) ≡ some name)
    × (find_named name (named ∷ []) ≡ none)
unique_name_lem_example =
    unique_name_lem strokes strokes-injective (97 ∷ []) (named ∷ []) 3 (omega arith)
