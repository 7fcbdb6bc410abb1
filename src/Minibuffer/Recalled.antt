-- ===== src/Minibuffer/Recalled.antt =====
-- An element of the history that is shorter than the line (src/term_minibuf.c).
use zile.Prelude.{
  ℕ, ◌≤◌, ◌<◌, ◌≡◌, refl, ap, ◌∙◌, List, ◌∷◌, Option, none, some, Bool, true, arith, length,
  Option-cases, inl, inr,
}
use zile.Astr.{Astr, size_mod, astr_new, astr_cpy, astr_ncpy_cstr, astr_substr}
use zile.Astr.Laws.{Yields}
use zile.History.{History, previous_history_element}
use zile.Completion.{Completion, Screen}
use zile.Minibuffer.{Minibuf, add_char, earlier, other_key, read_key, read_loop, kbd_up}
use zile.Minibuffer.Draw.{draw_minibuf_read}
use zile.Minibuffer.Reads.{astr_cpy_lem}

ncpy_lem :
    (s : Astr) (text : List ℕ) → length s.text < size_mod → Yields (astr_ncpy_cstr s text) text
unfolding astr_cpy
ncpy_lem s text small = astr_cpy_lem s (record { text = text; maxlen = 0 }) small

-- The element is shown, and the cursor stays where it was.
abbrev Recalls : Minibuf → List ℕ → Type 0
Recalls m text =
    (m1 : Minibuf) × (earlier m ≡ some m1)
    × (m1.line.text ≡ text)
    × (m1.pos ≡ m.pos)
    × (m1.completion ≡ m.completion)

earlier-Recalls :
    (m : Minibuf) (hp : History) (text : List ℕ)
    → m.history ≡ some hp
    → (previous_history_element hp).0 ≡ some text
    → length m.line.text < size_mod
    → Recalls m text
unfolding earlier astr_new
earlier-Recalls m hp text h e small =
    let (line, p, q) = ncpy_lem m.line text small in
    let (kept, k, _) = astr_cpy_lem astr_new m.line (omega arith) in
    elim (Option-cases m.saved) [
      | inl s ↦ (
        record m { history = some (previous_history_element hp).1; saved = some kept; line = line },
        rw (s, h, e, k, p) refl,
        q,
        refl,
        refl,
      )
      | inr (old, s) ↦ (
        record m { history = some (previous_history_element hp).1; saved = some old; line = line },
        rw (s, h, e, p) refl,
        q,
        refl,
        refl,
      )
    ]

add_char_beyond : (c : ℕ) (m : Minibuf) → length m.line.text < m.pos → add_char c m ≡ none
unfolding add_char astr_substr
add_char_beyond c m beyond = ground arith

module _ (isprint : ℕ → Bool) (screen : Screen)
    (sorted_add : List ℕ → List (List ℕ) → List (List ℕ))
    (readdir : Completion → List ℕ → Option (Completion × List ℕ)) where
  read_key-up : (m : Minibuf) → read_key isprint screen sorted_add readdir kbd_up m ≡ earlier m
  unfolding read_key
  read_key-up m = refl

  read_key_char :
      (c : ℕ) (m : Minibuf)
      → c ≤ 255
      → isprint c ≡ true
      → m.completion ≡ none
      → read_key isprint screen sorted_add readdir c m ≡ add_char c m
  unfolding read_key other_key
  read_key_char c m le printable plain = ground arith

  loop_fails :
      (prompt_len : ℕ) (m m1 : Minibuf) (c : ℕ) (keys : List ℕ)
      → read_key isprint screen sorted_add readdir kbd_up (record m { thistab = none }) ≡ some m1
      → read_key isprint screen sorted_add readdir c
          (record m1 { thistab = none; lasttab = m1.thistab })
        ≡ none
      → read_loop isprint screen sorted_add readdir prompt_len (kbd_up ∷ c ∷ keys) m ≡ none
  unfolding read_loop
  loop_fails prompt_len m m1 c keys p q =
      elim (Option-cases (draw_minibuf_read screen.term_width prompt_len m.line.text m.pos)) [
        | inl n ↦ rw n refl
        | inr (d, e) ↦
            elim (Option-cases
              (draw_minibuf_read screen.term_width prompt_len m1.line.text m1.pos)) [
                | inl n ↦ rw (e, p, n) refl
                | inr (d', e') ↦ rw (e, p, e', q) refl
              ]
      ]

  -- In a minibuffer without completion, when UP recalls an element of the history that ends before the
  -- cursor, it succeeds, the cursor stays behind the line's end, and the next printable character
  -- fails an assertion, so that reading with both keys fails.
  pub read_loop_beyond :
      (prompt_len : ℕ) (m : Minibuf) (hp : History) (text : List ℕ) (c : ℕ) (keys : List ℕ)
      → m.history ≡ some hp
      → (previous_history_element hp).0 ≡ some text
      → length text < m.pos
      → m.completion ≡ none
      → c ≤ 255
      → isprint c ≡ true
      → length m.line.text < size_mod
      → (m1 : Minibuf) × (read_key isprint screen sorted_add readdir kbd_up
            (record m { thistab = none })
          ≡ some m1)
        × (length m1.line.text < m1.pos)
        × (read_key isprint screen sorted_add readdir c
              (record m1 { thistab = none; lasttab = m1.thistab })
            ≡ none)
        × (read_loop isprint screen sorted_add readdir prompt_len (kbd_up ∷ c ∷ keys) m ≡ none)
  read_loop_beyond prompt_len m hp text c keys h e short plain le printable small =
      let m0 = record m { thistab = none } in
      let (m1, p, text_eq, pos_eq, plain_eq) = earlier-Recalls m0 hp text h e small in
      let m2 = record m1 { thistab = none; lasttab = m1.thistab } in
      let beyond : length m1.line.text < m1.pos = omega (arith, ap length text_eq, pos_eq) in
      let fails =
        read_key_char c m2 le printable (plain_eq ∙ plain) ∙ add_char_beyond c m2 beyond in
      let up = read_key-up m0 ∙ p in
      (m1, up, beyond, fails, loop_fails prompt_len m m1 c keys up fails)
