-- ===== src/Macro.antt =====
-- Keystrokes and keyboard macros (src/getkey.c, src/macro.c): recording keys, and pushing the keys of
-- a macro back to be read again. A macro is the list of its keys; the names and the chain of
-- macros are never used. A failed assertion is `none`.
pub mod Replay
pub mod Recording
use zile.Prelude.{
  ℕ, zero, suc, List, [], ◌∷◌, ◌++◌, Option, none, some, Bool, true, false, not, ◌&&◌, ◌==◌,
  if◌then◌else◌, ◌>>=◌,
}
use zile.Astr.{size_max}
use zile.Terminal.{Curses, term_getkey, term_ungetkey}

pub data Notice : Type 0 where
  already_defining : Notice
  now_defining : Notice
  not_defining : Notice

pub record Recorder : Type 0 where
  pub cur_mp : Option (List ℕ)
  pub cmd_mp : Option (List ℕ)
  pub defining : Bool
  pub last_key : ℕ
  pub key_buf : List ℕ
  pub notice : Option Notice

abbrev pub add_macro_key : List ℕ → ℕ → List ℕ
add_macro_key keys key = keys ++ key ∷ []

-- The loop of `add_cmd_to_macro`; there is a macro to add a key to.
unfoldable pub add_keys : List ℕ → Option (List ℕ) → Option (Option (List ℕ))
add_keys [] mp = some mp
add_keys (key ∷ keys) none = none
add_keys (key ∷ keys) (some mp) = add_keys keys (some (add_macro_key mp key))

unfoldable pub add_cmd_to_macro : Recorder → Option Recorder
add_cmd_to_macro r = do
  keys ← r.cmd_mp
  mp ← add_keys keys r.cur_mp
  some (record r { cur_mp = mp; cmd_mp = none })

unfoldable pub add_key_to_cmd : ℕ → Recorder → Recorder
add_key_to_cmd key r = record r {
  cmd_mp = some (add_macro_key (elim r.cmd_mp [ none ↦ [] | some keys ↦ keys ]) key);
}

unfoldable pub without_last : List ℕ → Option (List ℕ)
without_last [] = none
without_last (key ∷ []) = some []
without_last (key ∷ other ∷ keys) = do rest ← without_last (other ∷ keys); some (key ∷ rest)

unfoldable pub remove_key_from_cmd : Recorder → Option Recorder
remove_key_from_cmd r = do
  keys ← r.cmd_mp
  rest ← without_last keys
  some (record r { cmd_mp = some rest })

unfoldable pub cancel_kbd_macro : Recorder → Recorder
cancel_kbd_macro r = record r { cmd_mp = none; cur_mp = none; defining = false }

unfoldable pub start_kbd_macro : Recorder → Bool × Recorder
start_kbd_macro r =
    let r1 : Recorder = elim r.cur_mp [ none ↦ r | some keys ↦ cancel_kbd_macro r ] in
    if r.defining
    then (false, record r { notice = some already_defining })
    else (true, record r1 { notice = some now_defining; defining = true; cur_mp = some [] })

unfoldable pub end_kbd_macro : Recorder → Bool × Recorder
end_kbd_macro r =
    if not r.defining
    then (false, record r { notice = some not_defining })
    else (true, record r { defining = false })

-- What `getkeystroke` does with the key it has read.
unfoldable pub note_key : ℕ → Recorder → Recorder
note_key key r =
    let r1 = record r { last_key = key } in
    if not (key == size_max) && r.defining then add_key_to_cmd key r1 else r1

unfoldable pub getkeystroke : Curses → ℕ → Recorder → Option (ℕ × Recorder)
getkeystroke c fuel r = do
  (key, buf) ← term_getkey c fuel r.key_buf
  some (key, note_key key (record r { key_buf = buf }))

unfoldable pub pushkey : Curses → ℕ → Recorder → Recorder
pushkey c key r = record r { key_buf = term_ungetkey c key r.key_buf }

unfoldable pub ungetkey : Curses → ℕ → Recorder → Option Recorder
ungetkey c key r =
    let r1 = pushkey c key r in if r.defining then remove_key_from_cmd r1 else some r1

-- The first loop of `process_keys`, from the last key to the first.
unfoldable pub push_keys : Curses → List ℕ → Recorder → Recorder
push_keys c [] r = r
push_keys c (key ∷ keys) r = pushkey c key (push_keys c keys r)
