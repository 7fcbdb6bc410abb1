-- ===== src/History.antt =====
-- The minibuffer's history (src/history.c). `elements` is `none` until the first element is
-- added; the selection -1 is `none`.
pub mod Walk
pub mod Newest
use zile.Prelude.{
  ℕ, zero, suc, ◌+◌, ◌-◌, List, [], ◌∷◌, ◌++◌, Option, none, some, Bool, true, false, not, ◌==◌,
  ◌&&◌, ltb, if◌then◌else◌, length, get_elem?,
}

pub record History : Type 0 where
  pub elements : Option (List (List ℕ))
  pub sel : Option ℕ

-- XZALLOC gives the selection 0.
unfoldable pub history_new : History
history_new = record { elements = none; sel = some 0 }

unfoldable pub streq : List ℕ → List ℕ → Bool
streq [] [] = true
streq [] (y ∷ ys) = false
streq (x ∷ xs) [] = false
streq (x ∷ xs) (y ∷ ys) = x == y && streq xs ys

unfoldable pub last? : List (List ℕ) → Option (List ℕ)
last? xs = get_elem? xs (length xs - 1)

unfoldable pub add_history_element : History → List ℕ → History
unfolding streq last?
add_history_element hp string =
    let elements : List (List ℕ) = elim hp.elements [ none ↦ [] | some es ↦ es ] in
    let repeated : Bool = elim (last? elements) [ none ↦ false | some last ↦ streq last string ] in
    record hp { elements = some (if repeated then elements else elements ++ string ∷ []) }

unfoldable pub prepare_history : History → History
prepare_history hp = record hp { sel = none }

unfoldable pub previous_history_element : History → Option (List ℕ) × History
previous_history_element hp = elim hp.elements [
  | none ↦ (none, hp)
  | some es ↦ elim hp.sel [
    | none ↦
        if ltb 0 (length es)
        then (get_elem? es (length es - 1), record hp { sel = some (length es - 1) })
        else (none, hp)
    | some i ↦
        if ltb 0 i then (get_elem? es (i - 1), record hp { sel = some (i - 1) }) else (none, hp)
  ]
]

unfoldable pub next_history_element : History → Option (List ℕ) × History
next_history_element hp = elim hp.elements [
  | none ↦ (none, hp)
  | some es ↦ elim hp.sel [
    | none ↦ (none, hp)
    | some i ↦
        if ltb i (length es - 1)
        then (get_elem? es (i + 1), record hp { sel = some (i + 1) })
        else (none, record hp { sel = none })
  ]
]
