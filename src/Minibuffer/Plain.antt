-- ===== src/Minibuffer/Plain.antt =====
-- Line editing in the minibuffer without history and completion (src/term_minibuf.c), against an
-- editor of a line as two lists around the cursor.
use zile.Prelude.{
  ℕ, ◌+◌, ◌-◌, ◌%◌, ◌<◌, ◌≡◌, refl, sym, ap, ◌∙◌, List, [], ◌∷◌, ◌++◌, Option, none, some, arith,
  length, length-append, append_assoc, append-nil, lt→ltb, le→ltb,
}
use zile.Astr.{Astr, size_mod, astr_remove, astr_truncate}
use zile.Astr.Laws.{astr_remove_lem, Yields}
use zile.Minibuffer.{
  Minibuf, Event, ding, happens, back_char, forth_char, kill_rest, erase_back, erase_forth,
}

-- The characters before the cursor, the nearest first, and those behind it.
pub record Zip : Type 0 where
  pub left : List ℕ
  pub right : List ℕ

-- The first list, backwards, before the second.
unfoldable pub onto : List ℕ → List ℕ → List ℕ
onto [] right = right
onto (c ∷ left) right = onto left (c ∷ right)

unfoldable pub shift_left : Zip → Zip
shift_left z = elim z.left [ [] ↦ z | c ∷ left ↦ record { left = left; right = c ∷ z.right } ]

unfoldable pub shift_right : Zip → Zip
shift_right z = elim z.right [ [] ↦ z | c ∷ right ↦ record { left = c ∷ z.left; right = right } ]

unfoldable pub drop_left_char : Zip → Zip
drop_left_char z = elim z.left [ [] ↦ z | c ∷ left ↦ record z { left = left } ]

unfoldable pub drop_right_char : Zip → Zip
drop_right_char z = elim z.right [ [] ↦ z | c ∷ right ↦ record z { right = right } ]

-- The line that a minibuffer edits, and nothing else that a key could change.
pub record Edits (m : Minibuf) (z : Zip) : Type 0 where
  pub shown : m.line.text ≡ onto z.left [] ++ z.right
  pub at_cursor : m.pos ≡ length z.left
  pub no_history : m.history ≡ none
  pub no_completion : m.completion ≡ none
  pub small : length m.line.text < size_mod

pub onto-append : (left right : List ℕ) → onto left right ≡ onto left [] ++ right
unfolding onto
onto-append [] right = refl
onto-append (c ∷ left) right =
    onto-append left (c ∷ right)
    ∙ sym (append_assoc (onto left []) (c ∷ []) right)
    ∙ ap (◌++ right) (sym (onto-append left (c ∷ [])))

pub length-onto : (left right : List ℕ) → length (onto left right) ≡ length left + length right
unfolding onto
length-onto [] right = omega arith
length-onto (c ∷ left) right = omega (arith, length-onto left (c ∷ right))

-- The step succeeds and edits the line into this one.
abbrev pub Sim : Option Minibuf → Zip → Type 0
Sim o z = (m : Minibuf) × (o ≡ some m) × Edits m z

pub event_lem : (e : Event) (m : Minibuf) (z : Zip) → Edits m z → Edits (happens e m) z
event_lem e m z h = record {
  shown = h.shown;
  at_cursor = h.at_cursor;
  no_history = h.no_history;
  no_completion = h.no_completion;
  small = h.small;
}

-- The line and the cursor change, and the rest of the state is kept.
pub moved :
    (m : Minibuf) (line : Astr) (pos : ℕ) (z z' : Zip)
    → Edits m z
    → line.text ≡ onto z'.left [] ++ z'.right
    → pos ≡ length z'.left
    → length line.text < size_mod
    → Edits (record m { line = line; pos = pos }) z'
moved m line pos z z' h e at small = record {
  shown = e;
  at_cursor = at;
  no_history = h.no_history;
  no_completion = h.no_completion;
  small = small;
}

pub length-left : (left : List ℕ) → length (onto left []) ≡ length left
length-left left = omega (arith, length-onto left [])

pub shift : (c : ℕ) (left right : List ℕ) → onto (c ∷ left) [] ++ right ≡ onto left [] ++ c ∷ right
unfolding onto
shift c left right =
    ap (◌++ right) (onto-append left (c ∷ [])) ∙ append_assoc (onto left []) (c ∷ []) right

pub length-shown :
    (m : Minibuf) (z : Zip) → Edits m z → length m.line.text ≡ length z.left + length z.right
length-shown m z h =
    ap length h.shown
    ∙ length-append (onto z.left []) z.right
    ∙ ap (◌+ length z.right) (length-left z.left)

pub removes :
    (s : Astr) (pos n : ℕ) (a d b : List ℕ)
    → s.text ≡ a ++ (d ++ b)
    → pos ≡ length a
    → n ≡ length d
    → Yields (astr_remove s pos n) (a ++ b)
removes s pos n a d b h p q = rw (p, q) (astr_remove_lem s a d b h)

-- The middle of the line is removed, and the cursor is where it was.
cut :
    (m : Minibuf) (z z' : Zip) (d : List ℕ)
    → Edits m z
    → m.line.text ≡ onto z'.left [] ++ (d ++ z'.right)
    → (line : Astr) × (astr_remove m.line (length z'.left) (length d) ≡ some line)
      × (line.text ≡ onto z'.left [] ++ z'.right)
      × (length line.text < size_mod)
cut m z z' d h e =
    let (line, p, q) =
      removes m.line (length z'.left) (length d) (onto z'.left []) d z'.right e
        (sym (length-left z'.left)) refl in
    (
      line,
      p,
      q,
      omega (
        arith,
        h.small,
        ap length q,
        ap length e,
        length-append (onto z'.left []) z'.right,
        length-append (onto z'.left []) (d ++ z'.right),
        length-append d z'.right,
      ),
    )

module _ (m : Minibuf) where
  pub back_char_lem :
      (left right : List ℕ)
      → Edits m (record { left = left; right = right })
      → Edits (back_char m) (shift_left (record { left = left; right = right }))
  unfolding back_char shift_left
  back_char_lem [] right h = rw (le→ltb 0 m.pos (omega (arith, h.at_cursor))) (event_lem ding m _ h)
  back_char_lem (c ∷ left) right h = rw (lt→ltb 0 m.pos (omega (arith, h.at_cursor))) (
      moved m m.line (m.pos - 1) (record { left = c ∷ left; right = right })
        (record { left = left; right = c ∷ right }) h (h.shown ∙ shift c left right)
        (omega (arith, h.at_cursor)) h.small)

  pub forth_char_lem :
      (left right : List ℕ)
      → Edits m (record { left = left; right = right })
      → Edits (forth_char m) (shift_right (record { left = left; right = right }))
  unfolding forth_char shift_right
  forth_char_lem left [] h =
      rw (le→ltb m.pos (length m.line.text) (omega (arith, h.at_cursor, length-shown m _ h)))
        (event_lem ding m _ h)
  forth_char_lem left (c ∷ right) h =
      rw (lt→ltb m.pos (length m.line.text) (omega (arith, h.at_cursor, length-shown m _ h))) (
        moved m m.line (m.pos + 1) (record { left = left; right = c ∷ right })
          (record { left = c ∷ left; right = right }) h (h.shown ∙ sym (shift c left right))
          (omega (arith, h.at_cursor)) h.small)

  pub kill_rest_lem :
      (left right : List ℕ)
      → Edits m (record { left = left; right = right })
      → Sim (kill_rest m) (record { left = left; right = [] })
  unfolding kill_rest astr_truncate
  kill_rest_lem left [] h = (
    happens ding m,
    rw (le→ltb m.pos (length m.line.text) (omega (arith, h.at_cursor, length-shown m _ h))) refl,
    event_lem ding m _ h,
  )
  kill_rest_lem left (c ∷ right) h =
      let z : Zip = record { left = left; right = c ∷ right } in
      let z' : Zip = record { left = left; right = [] } in
      let (line, p, q, small) =
        cut m z z' (c ∷ right) h (h.shown ∙ ap (onto left [] ++◌) (sym (append-nil (c ∷ right)))) in
      let n : (length m.line.text + size_mod - m.pos) % size_mod ≡ length (c ∷ right) =
        omega (arith, h.at_cursor, length-shown m z h, h.small) in
      (
        record m { line = line },
        rw
            (
              lt→ltb m.pos (length m.line.text) (omega (arith, h.at_cursor, length-shown m z h)),
              n,
              h.at_cursor,
              p,
            )
            refl,
        moved m line m.pos z z' h q h.at_cursor small,
      )

  pub erase_back_lem :
      (left right : List ℕ)
      → Edits m (record { left = left; right = right })
      → Sim (erase_back m) (drop_left_char (record { left = left; right = right }))
  unfolding erase_back drop_left_char
  erase_back_lem [] right h =
      (happens ding m, rw (le→ltb 0 m.pos (omega (arith, h.at_cursor))) refl, event_lem ding m _ h)
  erase_back_lem (c ∷ left) right h =
      let z : Zip = record { left = c ∷ left; right = right } in
      let z' : Zip = record { left = left; right = right } in
      let (line, p, q, small) = cut m z z' (c ∷ []) h (h.shown ∙ shift c left right) in
      let at : m.pos - 1 ≡ length left = omega (arith, h.at_cursor) in
      (
        record m { line = line; pos = m.pos - 1 },
        rw (lt→ltb 0 m.pos (omega (arith, h.at_cursor)), at, p) refl,
        moved m line (m.pos - 1) z z' h q at small,
      )

  pub erase_forth_lem :
      (left right : List ℕ)
      → Edits m (record { left = left; right = right })
      → Sim (erase_forth m) (drop_right_char (record { left = left; right = right }))
  unfolding erase_forth drop_right_char
  erase_forth_lem left [] h = (
    happens ding m,
    rw (le→ltb m.pos (length m.line.text) (omega (arith, h.at_cursor, length-shown m _ h))) refl,
    event_lem ding m _ h,
  )
  erase_forth_lem left (c ∷ right) h =
      let z : Zip = record { left = left; right = c ∷ right } in
      let z' : Zip = record { left = left; right = right } in
      let (line, p, q, small) = cut m z z' (c ∷ []) h h.shown in
      (
        record m { line = line },
        rw
            (
              lt→ltb m.pos (length m.line.text) (omega (arith, h.at_cursor, length-shown m z h)),
              h.at_cursor,
              p,
            )
            refl,
        moved m line m.pos z z' h q h.at_cursor small,
      )
