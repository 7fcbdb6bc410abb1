-- ===== src/History/Newest.antt =====
-- The newest element of the history (src/history.c).
use zile.Prelude.{
  ℕ, ◌+◌, ◌-◌, ◌<◌, ◌≡◌, refl, sym, ap, ◌∙◌, List, [], ◌∷◌, ◌++◌, none, some, true, false, length,
  get_elem?, arith, length-append, if◌then◌else◌, Bool-cases, Option-cases, inl, inr, lt→ltb, ◌==◌,
  ◌&&◌, ==→≡,
}
use zile.History.{
  History, streq, last?, add_history_element, prepare_history, previous_history_element,
}

pub streq→≡ : (s t : List ℕ) → streq s t ≡ true → s ≡ t
unfolding streq
streq→≡ [] [] h = refl
streq→≡ [] (y ∷ ys) h = ground arith
streq→≡ (x ∷ xs) [] h = ground arith
streq→≡ (x ∷ xs) (y ∷ ys) h = elim (Bool-cases (x == y)) [
  | inl p ↦
      let e = ==→≡ x y p in let es = streq→≡ xs ys (sym (ap (λ b. b && streq xs ys) p) ∙ h) in cc
  | inr p ↦ let absurd : false ≡ true = sym (ap (λ b. b && streq xs ys) p) ∙ h in ground arith
]

get_elem?-last : (es : List (List ℕ)) (s : List ℕ) → get_elem? (es ++ s ∷ []) (length es) ≡ some s
get_elem?-last [] s = refl
get_elem?-last (e ∷ es) s = get_elem?-last es s

-- The last of the elements is `s`, and there is one.
abbrev EndsIn : List (List ℕ) → List ℕ → Type 0
EndsIn es s = (0 < length es) × (get_elem? es (length es - 1) ≡ some s)

appended-EndsIn : (es : List (List ℕ)) (s : List ℕ) → EndsIn (es ++ s ∷ []) s
appended-EndsIn es s =
    let n : length (es ++ s ∷ []) ≡ length es + 1 = length-append es (s ∷ []) in
    let m : length es + 1 - 1 ≡ length es = omega arith in
    (omega arith, rw (n, m) (get_elem?-last es s))

nonempty : (es : List (List ℕ)) {s : List ℕ} → get_elem? es (length es - 1) ≡ some s → 0 < length es
nonempty [] h = ground arith
nonempty (e ∷ es) h = omega arith

added-EndsIn :
    (es : List (List ℕ)) (s : List ℕ)
    → EndsIn
        (if elim (last? es) [ none ↦ false | some last ↦ streq last s ] then es else es ++ s ∷ [])
        s
unfolding last?
added-EndsIn es s = elim (Option-cases (get_elem? es (length es - 1))) [
  | inl p ↦ rw p (appended-EndsIn es s)
  | inr (last, p) ↦ elim (Bool-cases (streq last s)) [
    | inl q ↦ rw (p, q) (nonempty es p, p ∙ ap some (streq→≡ last s q))
    | inr q ↦ rw (p, q) (appended-EndsIn es s)
  ]
]

previous_of :
    (es : List (List ℕ)) (s : List ℕ)
    → EndsIn es s
    → (previous_history_element (record { elements = some es; sel = none })).0 ≡ some s
unfolding previous_history_element
previous_of es s (h, e) = rw (lt→ltb 0 (length es) h, e) refl

-- After an element is added and the history is prepared, going back gives that element.
pub previous_history_element-add_history_element :
    (hp : History) (string : List ℕ)
    → (previous_history_element (prepare_history (add_history_element hp string))).0 ≡ some string
unfolding prepare_history add_history_element
previous_history_element-add_history_element hp string =
    previous_of _ string (added-EndsIn (elim hp.elements [ none ↦ [] | some es ↦ es ]) string)
