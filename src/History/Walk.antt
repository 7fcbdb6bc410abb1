-- ===== src/History/Walk.antt =====
-- Walking through the history (src/history.c).
use zile.Prelude.{
  ℕ, ◌-◌, ◌<◌, List, Option, none, some, length, arith, ltb, Bool-cases, inl, inr, lt→ltb,
}
use zile.History.{History, previous_history_element, next_history_element}

-- The selection is one of the elements, which are at least one once there are any.
abbrev SelWithin : Option (List (List ℕ)) → Option ℕ → Type 0
SelWithin none sel = Unit {0}
SelWithin (some es) none = 0 < length es
SelWithin (some es) (some i) = i < length es

pub record IsValid (hp : History) : Type 0 where
  pub within : SelWithin hp.elements hp.sel

fields : Option (List (List ℕ)) → Option ℕ → History
fields es sel = record { elements = es; sel = sel }

-- `previous` and `next` keep the selection among the elements.
previous_fields :
    (es : Option (List (List ℕ))) (sel : Option ℕ)
    → SelWithin es sel
    → IsValid (previous_history_element (fields es sel)).1
unfolding previous_history_element fields
previous_fields none sel h = record { within = tt }
previous_fields (some es) none h = rw (lt→ltb 0 (length es) h) (record { within = omega arith })
previous_fields (some es) (some i) h = elim (Bool-cases (ltb 0 i)) [
  | inl p ↦ rw p (record { within = omega arith })
  | inr p ↦ rw p (record { within = h })
]

next_fields :
    (es : Option (List (List ℕ))) (sel : Option ℕ)
    → SelWithin es sel
    → IsValid (next_history_element (fields es sel)).1
unfolding next_history_element fields
next_fields none sel h = record { within = tt }
next_fields (some es) none h = record { within = h }
next_fields (some es) (some i) h = elim (Bool-cases (ltb i (length es - 1))) [
  | inl p ↦ rw p (record { within = ground arith })
  | inr p ↦ rw p (record { within = omega arith })
]

-- Going back or forth in a history whose selection is among its elements keeps it among them.
pub history_walk-IsValid :
    (hp : History)
    → IsValid hp
    → IsValid (previous_history_element hp).1 × IsValid (next_history_element hp).1
unfolding fields
history_walk-IsValid hp v =
    (previous_fields hp.elements hp.sel v.within, next_fields hp.elements hp.sel v.within)
