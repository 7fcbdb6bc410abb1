-- ===== src/Tests/Dispatching.antt =====
-- "C-x f" typed, with "C-x g" bound before it, and a key left unread.
use zile.Prelude.{
  List, ℕ, ◌≡◌, refl, sym, ap, [], ◌∷◌, arith, if◌then◌else◌, ◌==◌, ◌++◌, codes, Option, none, some,
  Bool, true, false, ◌>>=◌, pos,
}
use zile.Keymap.{Binding, node, nil, bound_proc, bind_key_vec, is_meta_digit}
use zile.Editor.{other}
use zile.Dispatch.{
  Loop, Given, takes_integer, no_flags, take_key, call_command, get_and_run_command,
}
use zile.Keycode.{kbd_nokey}
use zile.Dispatch.Typed.{prompted}
use zile.Dispatch.Bound.{NoProcOn, get_and_run_command-bind_key_vec}
use mathlib.Core.List.{cons≢nil}
use zile.Macro.{start_kbd_macro, end_kbd_macro}
use zile.Dispatch.Recorded.{Typed, joined_keys, run_commands, run_commands-Records}
use zile.Keycode.{keystrtovec}
use zile.Keymap.Default.{set_key}
use zile.Dispatch.SetKey.{get_and_run_command-set_key}
use zile.Tests.Editing.{editor, sample}

abbrev key_map : Binding
key_map = bind_key_vec 536 (103 ∷ []) 5 (node 0 none 10 nil)

abbrev waiting_loop : Loop
waiting_loop = record {
  ed = editor sample;
  thisflag = no_flags;
  lastflag = no_flags;
  last_defining = false;
  last_uniarg = pos 1;
  recorder = record {
    cur_mp = none;
    cmd_mp = none;
    defining = false;
    last_key = 0;
    key_buf = [];
    notice = none;
  };
  written = [];
}

-- A procedure that does nothing.
abbrev succeeds : ℕ → Given → Loop → Option (Bool × Loop)
succeeds p arg s = some (true, s)

key_map-NoProcOn : NoProcOn key_map 536 (102 ∷ [])
unfolding bind_key_vec bound_proc
key_map-NoProcOn s e = (sym (ap bound_proc e), tt)

get_and_run_command-bind_key_vec_example :
    get_and_run_command
      (λ p. takes_integer)
      (λ p. other)
      succeeds
      9
      (bind_key_vec 536 (102 ∷ []) 7 key_map)
      (536 ∷ 102 ∷ 120 ∷ [])
      waiting_loop
    ≡ (let s1 = prompted 536 [] (102 ∷ []) (take_key 536 waiting_loop) in
        do
          (ok, s2) ←
              call_command
                (λ p. takes_integer)
                (λ p. other)
                succeeds
                7
                s1.last_uniarg
                s1.lastflag.set_uniarg
                s1
          some (120 ∷ [], s2))
unfolding is_meta_digit
get_and_run_command-bind_key_vec_example =
    get_and_run_command-bind_key_vec (λ p. takes_integer) (λ p. other) succeeds 9 7 536 (102 ∷ [])
      (120 ∷ []) key_map waiting_loop key_map-NoProcOn refl refl

-- Procedure 1 is start-kbd-macro, procedure 2 is end-kbd-macro, the others do nothing.
abbrev records : ℕ → Given → Loop → Option (Bool × Loop)
records p arg s = some (
  true,
  record s {
    recorder =
        if p == 1
        then (start_kbd_macro s.recorder).1
        else if p == 2
        then (end_kbd_macro s.recorder).1
        else s.recorder;
  },
)

-- "C-f" and "C-x u".
abbrev two_commands : List Typed
two_commands =
    record { proc = 7; keys = 614 ∷ [] } ∷ record { proc = 8; keys = 632 ∷ 117 ∷ [] } ∷ []

-- "C-x (", the two commands, "C-x )".
run_commands-Records_example :
    (s1 : Loop) × (run_commands
        (λ p. takes_integer)
        (λ p. other)
        records
        (record { proc = 1; keys = 632 ∷ 40 ∷ [] }
          ∷ record { proc = 7; keys = 614 ∷ [] }
          ∷ record { proc = 8; keys = 632 ∷ 117 ∷ [] }
          ∷ record { proc = 2; keys = 632 ∷ 41 ∷ [] }
          ∷ [])
        waiting_loop
      ≡ some s1)
    × (s1.recorder.cur_mp ≡ some (614 ∷ 632 ∷ 117 ∷ []))
    × (s1.recorder.defining ≡ false)
    × (s1.last_defining ≡ false)
unfolding joined_keys
run_commands-Records_example =
    run_commands-Records (λ p. takes_integer) (λ p. other) records 1 2 (632 ∷ 40 ∷ [])
      (632 ∷ 41 ∷ []) two_commands waiting_loop
      (λ arg s. ((true, record s { recorder = (start_kbd_macro s.recorder).1 }), refl, refl, refl))
      (λ arg s. ((true, record s { recorder = (end_kbd_macro s.recorder).1 }), refl, refl, refl))
      (
        (λ arg s. ((true, s), refl, refl, refl)),
        cons≢nil,
        ((λ e. omega arith), tt),
        (
          (λ arg s. ((true, s), refl, refl, refl)),
          cons≢nil,
          ((λ e. omega arith), ((λ e. omega arith), tt)),
          tt,
        ),
      )
      refl refl refl

-- A table of procedures by name in which every name is the procedure 7's.
abbrev one_procedure : List ℕ → Option ℕ
one_procedure f = some 7

-- "C-x f" is bound.
abbrev prefix_map : Binding
prefix_map = bind_key_vec 632 (102 ∷ []) 5 (node 0 none 10 nil)

prefix_map-NoProcOn : NoProcOn prefix_map 632 (114 ∷ [])
unfolding bind_key_vec bound_proc
prefix_map-NoProcOn s e = (sym (ap bound_proc e), tt)

-- "C-x r" is given a procedure.
get_and_run_command-set_key_example :
    (root' : Binding) × (set_key one_procedure prefix_map (codes "\\C-xr") (codes "undo")
      ≡ some (true, root'))
    × ((rest : List ℕ) (s : Loop)
        → get_and_run_command
            (λ p. takes_integer)
            (λ p. other)
            succeeds
            9
            root'
            (632 ∷ ((114 ∷ []) ++ rest))
            s
          ≡ (let s1 = prompted 632 [] (114 ∷ []) (take_key 632 s) in
              do
                (ok, s2) ←
                    call_command
                      (λ p. takes_integer)
                      (λ p. other)
                      succeeds
                      7
                      s1.last_uniarg
                      s1.lastflag.set_uniarg
                      s1
                some (rest, s2)))
    × ((j : ℕ) (typed : List ℕ) (s : Loop)
        → (632 == j) ≡ false
        → (j == kbd_nokey) ≡ false
        → get_and_run_command (λ p. takes_integer) (λ p. other) succeeds 9 root' (j ∷ typed) s
          ≡ get_and_run_command
              (λ p. takes_integer)
              (λ p. other)
              succeeds
              9
              prefix_map
              (j ∷ typed)
              s)
unfolding keystrtovec is_meta_digit
get_and_run_command-set_key_example =
    get_and_run_command-set_key (λ p. takes_integer) (λ p. other) succeeds 9 one_procedure
      prefix_map (codes "\\C-xr") (codes "undo") 7 632 (114 ∷ []) refl refl prefix_map-NoProcOn refl
      refl
