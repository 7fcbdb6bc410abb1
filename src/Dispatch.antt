-- ===== src/Dispatch.antt =====
-- Reading a key sequence and running its command (src/bind.c). The keys that arrive are a list; `none`
-- is that they have run out before the sequence is over. The interpreter is three parameters:
-- `takes`, the argument a procedure wants, `command_of`, which of the named commands it is, and
-- `call`, its run on the state.
pub mod Typed
pub mod Bound
pub mod Recorded
pub mod SetKey
use zile.Prelude.{
  ℕ, ◌+◌, ◌-◌, ◌/◌, ◌%◌, List, [], ◌∷◌, ◌++◌, Option, none, some, Bool, true, false, not, ◌&&◌,
  ◌||◌, ◌==◌, ltb, leb, if◌then◌else◌, ◌>>=◌, ℤ, pos, codes,
}
use zile.Keymap.{Binding, kbd_ctrl, proc, search_key, get_function_by_keys}
use zile.Keycode.{kbd_nokey, keyvectodesc}
use zile.Editor.{Editor, Command, undo_command, set_cur_bp, insert_char}
use zile.Move.{get_goalc}
use zile.Kill.{deactivate_mark}
use zile.Run.{Action, execute_with_uniarg}
use zile.Line.{is_space, fill_break_line}
use zile.Macro.{Recorder, add_cmd_to_macro, note_key}
use zile.Uniarg.{binding_prompt}

-- The flags but FLAG_NEED_RESYNC and FLAG_DEFINING_MACRO, which `thisflag` keeps in the editor and in
-- the recorder.
pub record Flags : Type 0 where
  pub quit : Bool
  pub set_uniarg : Bool
  pub uniarg_empty : Bool

abbrev pub no_flags : Flags
no_flags = record { quit = false; set_uniarg = false; uniarg_empty = false }

-- `last_defining` is FLAG_DEFINING_MACRO of `lastflag`; `written` lists what the minibuffer was asked
-- to show, from the last.
pub record Loop : Type 0 where
  pub ed : Editor
  pub thisflag : Flags
  pub lastflag : Flags
  pub last_defining : Bool
  pub last_uniarg : ℤ
  pub recorder : Recorder
  pub written : List (List ℕ)

-- `getkey` gives the key.
abbrev pub take_key : ℕ → Loop → Loop
take_key key s = record s { recorder = note_key key s.recorder }

-- The prompt of `do_binding_completion` for the keys so far, and the key that it reads.
unfoldable pub do_binding_completion : List ℕ → ℕ → Loop → Loop
do_binding_completion text key s =
    let uniarg : Option ℤ = if s.lastflag.set_uniarg then some s.last_uniarg else none in
    take_key key
      (record s { written = binding_prompt uniarg s.lastflag.uniarg_empty text ∷ s.written })

-- No key sequence goes on from here: there is no node, or one with a procedure.
unfoldable pub is_complete : Option Binding → Bool
is_complete none = true
is_complete (some p) = elim (proc p) [ none ↦ false | some f ↦ true ]

pub record Sequence : Type 0 where
  pub first : ℕ
  pub others : List ℕ
  pub unread : List ℕ
  pub state : Loop

-- The second loop of `get_key_sequence`, with the keys so far; each key is a round.
unfoldable pub sequence_loop : Binding → ℕ → List ℕ → List ℕ → Loop → Option Sequence
unfolding is_complete do_binding_completion
sequence_loop root k ks [] s =
    if is_complete (search_key root k ks)
    then some (record { first = k; others = ks; unread = []; state = s })
    else none
sequence_loop root k ks (c ∷ keys) s =
    let rest =
      sequence_loop root k (ks ++ c ∷ []) keys
        (do_binding_completion (keyvectodesc (k ∷ ks)) c s) in
    if is_complete (search_key root k ks)
    then some (record { first = k; others = ks; unread = c ∷ keys; state = s })
    else rest

unfoldable pub get_key_sequence : Binding → List ℕ → Loop → Option Sequence
unfolding sequence_loop
get_key_sequence root [] s = none
get_key_sequence root (key ∷ keys) s =
    let again = get_key_sequence root keys (take_key key s) in
    if key == kbd_nokey then again else sequence_loop root key [] keys (take_key key s)

-- `lastkey () & ~KBD_CTRL`
abbrev pub without_ctrl : ℕ → ℕ
without_ctrl key = if key / kbd_ctrl % 2 == 1 then key - kbd_ctrl else key

-- The bell is not modelled.
unfoldable pub self_insert : ℕ → ℕ → Action
self_insert fuel lastkey ed =
    let key = without_ctrl lastkey in
    let ed1 = deactivate_mark ed in
    let filled = (do
      col ← get_goalc ed1
      let break = (do (_, ed2) ← fill_break_line fuel ed1; some ed2)
      if ltb ed1.vars.fill_column col then break else some ed1) in
    let inserted = (do
      ed2 ← if is_space key && ed1.cur_bp.autofill then filled else some ed1
      (_, ed3) ← insert_char ed2 key
      some (true, ed3)) in
    if leb key 255 then inserted else some (false, ed1)

unfoldable pub self_insert_command : ℕ → ℕ → ℤ → Action
self_insert_command fuel lastkey n = execute_with_uniarg true n (self_insert fuel lastkey) none

-- What a procedure takes, and what it is given.
pub data Takes : Type 0 where
  takes_integer takes_boolean takes_nothing : Takes

pub data Given : Type 0 where
  no_argument : Given
  integer : ℤ → Given
  boolean : Bool → Given

abbrev is_undo : Command → Bool
is_undo undo_command = true
is_undo _ = false

abbrev is_zero : ℤ → Bool
is_zero (pos n) = n == 0
is_zero _ = false

unfoldable pub argument : Takes → ℤ → Bool → Given
argument takes_integer uniarg uniflag = if uniflag then integer uniarg else no_argument
argument takes_boolean uniarg uniflag =
    if uniflag then boolean (not (is_zero uniarg)) else no_argument
argument takes_nothing uniarg uniflag = no_argument

-- Once the command has run and its keys are recorded: after the undo command the next one starts at
-- the head of the log, and `lastflag` is `thisflag`.
abbrev pub ended : Recorder → Loop → Loop
ended recorder s =
    let ed = record (s.ed) { last_command = s.ed.this_command } in
    let bp =
      if is_undo ed.last_command
      then record (ed.cur_bp) { next_undop = ed.cur_bp.last_undop }
      else ed.cur_bp in
    record s {
      ed = set_cur_bp ed bp;
      recorder = recorder;
      lastflag = s.thisflag;
      last_defining = recorder.defining;
    }

-- The keys go into the macro that was being defined before the command and still is.
unfoldable pub after_command : Loop → Option Loop
after_command s = do
  recorder ←
      if s.last_defining && s.recorder.defining
      then add_cmd_to_macro s.recorder
      else some s.recorder
  some (ended recorder s)

module _ (takes : ℕ → Takes) (command_of : ℕ → Command)
    (call : ℕ → Given → Loop → Option (Bool × Loop)) where
  -- `thisflag` starts without FLAG_SET_UNIARG.
  unfoldable pub call_command : ℕ → ℤ → Bool → Loop → Option (Bool × Loop)
  unfolding argument after_command
  call_command p uniarg uniflag s = do
    (ok, s1) ← call p (argument (takes p) uniarg uniflag) (record s {
      ed = record (s.ed) { this_command = command_of p; need_resync = false };
      thisflag = no_flags;
      recorder = record (s.recorder) { defining = s.last_defining };
      last_uniarg = pos 1;
    })
    s2 ← after_command s1
    some (ok, s2)

  -- The command of a key sequence; `universal_argument` is the procedure that `F_universal_argument ()`
  -- gives. The keys that are left stand beside the state.
  unfoldable pub run_sequence : ℕ → Binding → Sequence → Option (List ℕ × Loop)
  run_sequence universal_argument root q =
      let undefined_keys = record (q.state) {
        written = (keyvectodesc (q.first ∷ q.others) ++ codes " is undefined") ∷ q.state.written;
      } in
      let run = λ (p : ℕ). (do
        (ok, s1) ← call_command p q.state.last_uniarg q.state.lastflag.set_uniarg q.state
        some (q.unread, s1)) in
      elim (get_function_by_keys universal_argument root q.first q.others) [
        | none ↦ some (q.unread, undefined_keys)
        | some p ↦ run p
      ]

  unfoldable pub get_and_run_command : ℕ → Binding → List ℕ → Loop → Option (List ℕ × Loop)
  unfolding run_sequence
  get_and_run_command universal_argument root keys s = do
    q ← get_key_sequence root keys s
    run_sequence universal_argument root q
