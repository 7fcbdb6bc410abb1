-- ===== src/Dispatch/Bound.antt =====
-- Typing a key sequence that has been bound (src/bind.c).
use zile.Prelude.{
  ℕ, ◌≡◌, refl, ap, ◌∙◌, List, [], ◌∷◌, ◌++◌, Option, none, some, Bool, true, false, ◌==◌, ◌>>=◌,
  Option-cases, Bool-cases, inl, inr,
}
use zile.Keymap.{
  Binding, node, node_new, proc, find, vec, vecnum, search_node, add_node, put_branch, set_proc,
  bind_key_vec, search_key, is_meta_digit, bound_proc, get_function_by_keys,
}
use zile.Keymap.Lookup.{Old, there, new, bound_last, bound_more, at_self, search_key-bind_key_vec}
use zile.Keycode.{kbd_nokey}
use zile.Editor.{Command}
use zile.Dispatch.{
  Loop, Sequence, Takes, Given, take_key, is_complete, get_key_sequence, call_command, run_sequence,
  get_and_run_command,
}
use zile.Dispatch.Typed.{IsPrefix, prompted, sequence_loop_lem}

-- No proper part of the keys from their start has a procedure in the tree.
abbrev pub NoProcOn : Binding → ℕ → List ℕ → Type 0
NoProcOn t k [] = Unit {0}
NoProcOn t k (k' ∷ ks) =
    (s : Binding) → search_node t k ≡ some s → (proc s ≡ none) × NoProcOn s k' ks

-- The keys lead on from the node, and no node but the last has a procedure.
abbrev LeadsOn : Binding → List ℕ → Type 0
LeadsOn b [] = Unit {0}
LeadsOn b (c ∷ ks) = (proc b ≡ none) × ((s : Binding) × (search_node b c ≡ some s) × LeadsOn s ks)

proc-add_node : (t b : Binding) → proc t ≡ none → proc (add_node t b) ≡ none
unfolding proc add_node
proc-add_node (node k q m v) b h = elim (Bool-cases (vecnum v == 0)) [
  | inl e ↦ rw e refl
  | inr e ↦ rw e h
]

proc-put_branch :
    (t : Binding) (k : ℕ) (b : Binding) → proc t ≡ none → proc (put_branch t k b) ≡ none
unfolding proc put_branch
proc-put_branch (node j q m v) k b h = h

proc-bind_key_vec :
    (k : ℕ) (ks : List ℕ) (p : ℕ) (t : Binding)
    → proc t ≡ none
    → proc (bind_key_vec k ks p t) ≡ none
unfolding bind_key_vec
proc-bind_key_vec k [] p t h = elim (Option-cases (search_node t k)) [
  | inl e ↦ rw (e, bind_key_vec) (proc-add_node t (set_proc (node_new 1 k) p) h)
  | inr (s, e) ↦ rw (e, bind_key_vec) (proc-put_branch t k (set_proc s p) h)
]
proc-bind_key_vec k (k' ∷ ks) p t h = elim (Option-cases (search_node t k)) [
  | inl e ↦ rw (e, bind_key_vec) (proc-add_node t (bind_key_vec k' ks p (node_new 5 k)) h)
  | inr (s, e) ↦ rw (e, bind_key_vec) (proc-put_branch t k (bind_key_vec k' ks p s) h)
]

NoProcOn-node_new : (m i k : ℕ) (ks : List ℕ) → NoProcOn (node_new m i) k ks
unfolding node_new search_node find vec
NoProcOn-node_new m i k [] = tt
NoProcOn-node_new m i k (k' ∷ ks) = λ s e. cc

-- Whether the branch is old or new, nothing has a procedure on the way.
NoProcOn-Old :
    (t : Binding) (k k' : ℕ) (ks : List ℕ) {s : Binding}
    → NoProcOn t k (k' ∷ ks)
    → Old t k (node_new 5 k) s
    → (proc s ≡ none) × NoProcOn s k' ks
unfolding node_new proc
NoProcOn-Old t k k' ks {s} h (there e) = h s e
NoProcOn-Old t k k' ks h (new e) = (refl, NoProcOn-node_new 5 k k' ks)

LeadsOn-bind_key_vec :
    (k : ℕ) (ks : List ℕ) (p : ℕ) (t : Binding)
    → NoProcOn t k ks
    → (s : Binding) × (search_node (bind_key_vec k ks p t) k ≡ some s) × LeadsOn s ks
LeadsOn-bind_key_vec k [] p t h =
    let (s, old, br) = bound_last k p t in
    (set_proc s p, at_self t (bind_key_vec k [] p t) k (set_proc s p) br, tt)
LeadsOn-bind_key_vec k (k' ∷ ks) p t h =
    let (s, old, br) = bound_more k k' ks p t in
    let (q, h') = NoProcOn-Old t k k' ks h old in
    (
      bind_key_vec k' ks p s,
      at_self t (bind_key_vec k (k' ∷ ks) p t) k (bind_key_vec k' ks p s) br,
      (proc-bind_key_vec k' ks p s q, LeadsOn-bind_key_vec k' ks p s h'),
    )

search_key-append :
    (t : Binding) (k : ℕ) (ks : List ℕ) (c : ℕ) (b : Binding)
    → search_key t k ks ≡ some b
    → search_key t k (ks ++ c ∷ []) ≡ search_node b c
unfolding search_key
search_key-append t k [] c b h = rw (h, search_key) refl
search_key-append t k (k' ∷ ks) c b h = elim (Option-cases (search_node t k)) [
  | inl e ↦ cc (rw (e, search_key) at h)
  | inr (s, e) ↦ rw (e, search_key) (search_key-append s k' ks c b (rw (e, search_key) at h))
]

search_key-one :
    (t : Binding) (k : ℕ) {b : Binding} → search_node t k ≡ some b → search_key t k [] ≡ some b
unfolding search_key
search_key-one t k h = h

is_complete-none : (b : Binding) → proc b ≡ none → is_complete (some b) ≡ false
unfolding is_complete
is_complete-none b e = rw (e, is_complete) refl

LeadsOn-IsPrefix :
    (t : Binding) (k : ℕ) (done ks : List ℕ) (b : Binding)
    → search_key t k done ≡ some b
    → LeadsOn b ks
    → IsPrefix t k done ks
unfolding is_complete
LeadsOn-IsPrefix t k done [] b h l = tt
LeadsOn-IsPrefix t k done (c ∷ ks) b h (e, (s, q, l)) = (
  rw h (is_complete-none b e),
  LeadsOn-IsPrefix t k (done ++ c ∷ []) ks s (search_key-append t k done c b h ∙ q) l,
)

get_key_sequence_lem :
    (root : Binding) (k : ℕ) (ks rest : List ℕ) (s : Loop)
    → (k == kbd_nokey) ≡ false
    → IsPrefix root k [] ks
    → is_complete (search_key root k ks) ≡ true
    → get_key_sequence root (k ∷ (ks ++ rest)) s
      ≡ some (record {
        first = k;
        others = ks;
        unread = rest;
        state = prompted k [] ks (take_key k s);
      })
unfolding get_key_sequence
get_key_sequence_lem root k ks rest s is_key h e =
    rw is_key (sequence_loop_lem root k [] ks rest (take_key k s) h e)

is_complete-proc : (b : Binding) {p : ℕ} → proc b ≡ some p → is_complete (some b) ≡ true
unfolding is_complete
is_complete-proc b q = rw (q, is_complete) refl

function_bound :
    (universal_argument p k : ℕ) (ks : List ℕ) (t : Binding)
    → is_meta_digit k ks ≡ false
    → get_function_by_keys universal_argument (bind_key_vec k ks p t) k ks ≡ some p
unfolding get_function_by_keys bound_proc
function_bound universal_argument p k ks t no_digit =
    let (b, found, q) = search_key-bind_key_vec k ks p t in
    rw (no_digit, get_function_by_keys) (rw (found, q) refl)

run_sequence_lem :
    (takes : ℕ → Takes) (command_of : ℕ → Command) (call : ℕ → Given → Loop → Option (Bool × Loop))
    (universal_argument p : ℕ) (root : Binding) (q : Sequence)
    → get_function_by_keys universal_argument root q.first q.others ≡ some p
    → run_sequence takes command_of call universal_argument root q ≡ (do
      (ok, s2) ←
          call_command takes command_of call p q.state.last_uniarg q.state.lastflag.set_uniarg
            q.state
      some (q.unread, s2))
unfolding run_sequence
run_sequence_lem takes command_of call universal_argument p root q e = rw (e, run_sequence) refl

-- After a key sequence has been bound to a procedure, in a tree in which no proper part of it from its
-- start has one, typing it calls the procedure with the argument as it stands behind the keys,
-- and leaves the keys behind the sequence unread. The first key is not the one for no key, and the
-- sequence is no Meta-digit or Meta-minus.
pub get_and_run_command-bind_key_vec :
    (takes : ℕ → Takes) (command_of : ℕ → Command) (call : ℕ → Given → Loop → Option (Bool × Loop))
    (universal_argument p k : ℕ) (ks rest : List ℕ) (t : Binding) (s : Loop)
    → NoProcOn t k ks
    → (k == kbd_nokey) ≡ false
    → is_meta_digit k ks ≡ false
    → get_and_run_command takes command_of call universal_argument
        (bind_key_vec k ks p t)
        (k ∷ (ks ++ rest))
        s
      ≡ (let s1 = prompted k [] ks (take_key k s) in
          do
            (ok, s2) ← call_command takes command_of call p s1.last_uniarg s1.lastflag.set_uniarg s1
            some (rest, s2))
unfolding get_and_run_command
get_and_run_command-bind_key_vec takes command_of call universal_argument p k ks rest t s h is_key
      no_digit =
    let root = bind_key_vec k ks p t in
    let (b, found, q) = search_key-bind_key_vec k ks p t in
    let (b1, first, leads) = LeadsOn-bind_key_vec k ks p t h in
    let complete = ap is_complete found ∙ is_complete-proc b q in
    let typed =
      get_key_sequence_lem root k ks rest s is_key
        (LeadsOn-IsPrefix root k [] ks b1 (search_key-one root k first) leads) complete in
    rw typed (
      run_sequence_lem takes command_of call universal_argument p root
        (record { first = k; others = ks; unread = rest; state = prompted k [] ks (take_key k s) })
        (function_bound universal_argument p k ks t no_digit))
