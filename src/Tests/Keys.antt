-- ===== src/Tests/Keys.antt =====
-- Key strings read, and a small keymap.
use zile.Prelude.{
  ◌≡◌, refl, List, [], ◌∷◌, some, false, true, none, codes, arith, Option, Bool, ◌&&◌,
}
use Prim.Native.String.{String}
use zile.Memmem.{is_prefix}
use zile.Keymap.{Binding, node, nil, proc, search_key, bind_key_vec}
use zile.Keymap.Lookup.{procedure_at, search_key-bind_key_vec, procedure_at-bind_key_vec}
use zile.Keymap.Default.{default_bindings}
use zile.Keycode.{KeyVec, keys, overrun, keystrtovec}
use zile.Keycode.Parse.{keystrtovec_total}
use zile.History.{
  History, prepare_history, add_history_element, previous_history_element, next_history_element,
}
use zile.History.Newest.{previous_history_element-add_history_element}
use zile.History.Walk.{IsValid, history_walk-IsValid}

abbrev empty_map : Binding
empty_map = node 0 none 10 nil

search_key-bind_key_vec_example :
    (b : Binding) × (search_key (bind_key_vec 536 (102 ∷ []) 7 empty_map) 536 (102 ∷ []) ≡ some b)
    × (proc b ≡ some 7)
search_key-bind_key_vec_example = search_key-bind_key_vec 536 (102 ∷ []) 7 empty_map

procedure_at-bind_key_vec_example :
    procedure_at (bind_key_vec 536 (102 ∷ []) 7 empty_map) 536 (103 ∷ [])
    ≡ procedure_at empty_map 536 (103 ∷ [])
unfolding is_prefix
procedure_at-bind_key_vec_example =
    procedure_at-bind_key_vec 536 (102 ∷ []) 7 empty_map 536 (103 ∷ []) refl

keystrtovec_total_example : (r : KeyVec) × (keystrtovec (codes "\\C-x") ≡ some r)
keystrtovec_total_example = keystrtovec_total (codes "\\C-x")

ctrl_x : keystrtovec (codes "\\C-xrs") ≡ some (keys (632 ∷ 114 ∷ 115 ∷ []))
unfolding keystrtovec
ctrl_x = refl

-- A modifier at the end of the string: the NUL is read as a key.
ctrl_alone : keystrtovec (codes "\\C-") ≡ some overrun
unfolding keystrtovec
ctrl_alone = refl

abbrev visited : History
visited = record { elements = some ((97 ∷ []) ∷ (98 ∷ []) ∷ []); sel = some 1 }

history_walk-IsValid_example :
    IsValid (previous_history_element visited).1 × IsValid (next_history_element visited).1
history_walk-IsValid_example = history_walk-IsValid visited (record { within = omega arith })

previous_history_element-add_history_element_example :
    (previous_history_element (prepare_history (add_history_element visited (98 ∷ [])))).0
    ≡ some (98 ∷ [])
previous_history_element-add_history_element_example =
    previous_history_element-add_history_element visited (98 ∷ [])

abbrev readable : Option KeyVec → Bool
readable (some (keys (k ∷ ks))) = true
readable _ = false

abbrev all_readable : List (String × String) → Bool
all_readable [] = true
all_readable ((keystr, funcname) ∷ rows) =
    readable (keystrtovec (codes keystr)) && all_readable rows

-- Every default key string is read as one key at least.
default_bindings_readable : all_readable default_bindings ≡ true
unfolding keystrtovec
default_bindings_readable = refl
