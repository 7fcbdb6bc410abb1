-- ===== src/Dispatch/SetKey.antt =====
-- Typing keys after `set-key` (F_set_key and get_and_run_command of src/bind.c).
use zile.Prelude.{
  ℕ, ◌≡◌, refl, List, [], ◌∷◌, ◌++◌, Option, some, Bool, true, false, ◌==◌, ◌>>=◌, Bool-cases, inl,
  inr,
}
use zile.Keymap.{
  Binding, search_node, bind_key_vec, search_key, is_meta_digit, get_function_by_keys,
}
use zile.Keymap.Lookup.{search_node-bind_key_vec}
use zile.Keymap.Default.{set_key}
use zile.Keycode.{kbd_nokey, keys, keystrtovec, keyvectodesc}
use zile.Editor.{Command}
use zile.Dispatch.{
  Loop, Sequence, Takes, Given, take_key, is_complete, do_binding_completion, sequence_loop,
  get_key_sequence, call_command, run_sequence, get_and_run_command,
}
use zile.Dispatch.Typed.{prompted}
use zile.Dispatch.Bound.{NoProcOn, get_and_run_command-bind_key_vec}

-- Looking keys up finds the same in both trees for the keys that begin with `j`.
abbrev SameFrom : Binding → Binding → ℕ → Type 0
SameFrom t t' j = (js : List ℕ) → search_key t' j js ≡ search_key t j js

search_key-SameFrom :
    (t t' : Binding) (j : ℕ) → search_node t' j ≡ search_node t j → SameFrom t t' j
unfolding search_key
search_key-SameFrom t t' j h [] = rw (h, search_key) refl
search_key-SameFrom t t' j h (k ∷ js) = rw (h, search_key) refl

module _ (takes : ℕ → Takes) (command_of : ℕ → Command)
    (call : ℕ → Given → Loop → Option (Bool × Loop)) (universal_argument : ℕ) where
  abbrev read_on : Binding → ℕ → List ℕ → List ℕ → Loop → Option (List ℕ × Loop)
  read_on root j js ks s = do
    q ← sequence_loop root j js ks s
    run_sequence takes command_of call universal_argument root q

  run_sequence-SameFrom :
      (t t' : Binding) (q : Sequence)
      → SameFrom t t' q.first
      → run_sequence takes command_of call universal_argument t' q
        ≡ run_sequence takes command_of call universal_argument t q
  unfolding run_sequence get_function_by_keys
  run_sequence-SameFrom t t' q h = rw (h q.others, run_sequence, get_function_by_keys) refl

  read_on-SameFrom :
      (t t' : Binding) (j : ℕ) (js ks : List ℕ) (s : Loop)
      → SameFrom t t' j
      → read_on t' j js ks s ≡ read_on t j js ks s
  unfolding sequence_loop
  read_on-SameFrom t t' j js [] s h = elim (Bool-cases (is_complete (search_key t j js))) [
    | inl e ↦
        rw (h js, e)
          (run_sequence-SameFrom t t' (record { first = j; others = js; unread = []; state = s }) h)
    | inr e ↦ rw (h js, e) refl
  ]
  read_on-SameFrom t t' j js (c ∷ ks) s h = elim (Bool-cases (is_complete (search_key t j js))) [
    | inl e ↦
        rw (h js, e)
          (run_sequence-SameFrom t t'
            (record { first = j; others = js; unread = c ∷ ks; state = s }) h)
    | inr e ↦
        rw (h js, e)
          (read_on-SameFrom t t' j (js ++ c ∷ []) ks
            (do_binding_completion (keyvectodesc (j ∷ js)) c s) h)
  ]

  -- `set-key` with the name of a procedure and a string that is read as keys succeeds. When no
  -- proper part of the keys from their start has a procedure, they do not begin with KBD_NOKEY and
  -- are no META digit or META minus, typing them then calls the procedure and leaves the keys
  -- behind them; and typing anything that begins with another key but KBD_NOKEY does what it did.
  pub get_and_run_command-set_key :
      (lookup : List ℕ → Option ℕ) (root : Binding) (keystr funcname : List ℕ) (p k : ℕ)
      (ks : List ℕ)
      → lookup funcname ≡ some p
      → keystrtovec keystr ≡ some (keys (k ∷ ks))
      → NoProcOn root k ks
      → (k == kbd_nokey) ≡ false
      → is_meta_digit k ks ≡ false
      → (root' : Binding) × (set_key lookup root keystr funcname ≡ some (true, root'))
        × ((rest : List ℕ) (s : Loop)
            → get_and_run_command takes command_of call universal_argument root'
                (k ∷ (ks ++ rest))
                s
              ≡ (let s1 = prompted k [] ks (take_key k s) in
                  do
                    (ok, s2) ←
                        call_command takes command_of call p s1.last_uniarg s1.lastflag.set_uniarg
                          s1
                    some (rest, s2)))
        × ((j : ℕ) (typed : List ℕ) (s : Loop)
            → (k == j) ≡ false
            → (j == kbd_nokey) ≡ false
            → get_and_run_command takes command_of call universal_argument root' (j ∷ typed) s
              ≡ get_and_run_command takes command_of call universal_argument root (j ∷ typed) s)
  unfolding set_key get_and_run_command get_key_sequence
  get_and_run_command-set_key lookup root keystr funcname p k ks h r free is_key no_digit = (
    bind_key_vec k ks p root,
    rw (h, set_key, r) refl,
    λ rest s.
        get_and_run_command-bind_key_vec takes command_of call universal_argument p k ks rest root s
          free is_key no_digit,
    λ j typed s ne key. rw (key) (
        read_on-SameFrom root (bind_key_vec k ks p root) j [] typed (take_key j s) (
          search_key-SameFrom root (bind_key_vec k ks p root) j
            (search_node-bind_key_vec k ks p root j ne))),
  )
