-- ===== src/Minibuffer/Reads.antt =====
-- Reading a line in the minibuffer without history and completion (src/term_minibuf.c): the loop
-- implements an editor of a line as two lists around the cursor.
use zile.Prelude.{
  ℕ, ◌+◌, ◌-◌, ◌%◌, ◌≤◌, ◌<◌, ◌≡◌, refl, sym, ap, ◌∙◌, List, [], ◌∷◌, ◌++◌, Option, none, some,
  Bool, true, false, not, ◌||◌, ◌==◌, ltb, if◌then◌else◌, arith, length, take, drop, length-append,
  append-nil, le→leb, take_left, take_all, drop_left,
}
use zile.Astr.{
  Astr, size_mod, astr_new, astr_cat_nstr, astr_cpy, astr_ncpy_cstr, astr_truncate, astr_substr,
}
use zile.Astr.Laws.{text-astr_cat_nstr, Yields}
use zile.Keymap.{kbd_meta}
use zile.Keycode.{kbd_nokey}
use zile.Completion.{Completion, Screen}
use zile.Minibuffer.{
  Minibuf, Answer, answered, cancelled, waiting, Event, ding, suspend, scroll_up, scroll_down,
  happens, add_char, back_char, forth_char, pop_scroll, complete_line, other_key, read_key, earlier,
  later, ctrl, kbd_tab, kbd_ret, kbd_cancel, kbd_pgup, kbd_pgdn, kbd_home, kbd_end, kbd_del, kbd_bs,
  kbd_left, kbd_right, kbd_up, kbd_down,
}
use zile.Minibuffer.Plain.{
  Zip, onto, onto-append, length-onto, length-left, length-shown, shift, shift_left, shift_right,
  drop_left_char, drop_right_char, Edits, Sim, event_lem, moved, removes, back_char_lem,
  forth_char_lem, kill_rest_lem, erase_back_lem, erase_forth_lem,
}

-- What a key does to the line.
unfoldable pub zip_key : (ℕ → Bool) → ℕ → Zip → Zip
zip_key isprint c z =
    if c == ctrl b'a' || c == kbd_home
    then record { left = []; right = onto z.left z.right }
    else if c == ctrl b'e' || c == kbd_end
    then record { left = onto z.right z.left; right = [] }
    else if c == ctrl b'b' || c == kbd_left
    then shift_left z
    else if c == ctrl b'f' || c == kbd_right
    then shift_right z
    else if c == ctrl b'k'
    then record z { right = [] }
    else if c == kbd_bs
    then drop_left_char z
    else if c == ctrl b'd' || c == kbd_del
    then drop_right_char z
    else if ltb 255 c || not (isprint c)
    then z
    else record z { left = c ∷ z.left }

unfoldable pub zip_keys : (ℕ → Bool) → List ℕ → Zip → Answer × Zip
zip_keys isprint [] z = (waiting, z)
zip_keys isprint (c ∷ keys) z =
    let rest = zip_keys isprint keys (zip_key isprint c z) in
    if c == kbd_ret
    then (answered (onto z.left z.right), z)
    else if c == kbd_cancel
    then (cancelled, z)
    else rest

pub astr_cpy_lem : (s src : Astr) → length s.text < size_mod → Yields (astr_cpy s src) src.text
unfolding astr_cpy astr_ncpy_cstr astr_truncate
astr_cpy_lem s src small =
    let n : (length s.text + size_mod - 0) % size_mod ≡ length s.text = omega arith in
    let (t, p, q) = removes s 0 (length s.text) [] s.text [] (sym (append-nil s.text)) refl refl in
    (astr_cat_nstr t src.text, rw (n, p) refl, text-astr_cat_nstr t src.text ∙ ap (◌++ src.text) q)

astr_substr_lem :
    (s : Astr) (pos size : ℕ)
    → pos + size ≤ length s.text
    → Yields (astr_substr s pos size) (take size (drop pos s.text))
unfolding astr_substr astr_new
astr_substr_lem s pos size le = (
  astr_cat_nstr astr_new (take size (drop pos s.text)),
  rw (le→leb (pos + size) (length s.text) le) refl,
  text-astr_cat_nstr astr_new (take size (drop pos s.text)),
)

add_char_steps :
    (c n : ℕ) (m : Minibuf) (before after line : Astr)
    → (length m.line.text + size_mod - m.pos) % size_mod ≡ n
    → astr_substr m.line 0 m.pos ≡ some before
    → astr_substr m.line m.pos n ≡ some after
    → astr_cpy m.line (astr_cat_nstr astr_new (before.text ++ c ∷ after.text)) ≡ some line
    → add_char c m ≡ some (record m { line = line; pos = m.pos + 1 })
unfolding add_char
add_char_steps c n m before after line e p p' p'' = rw (p, e, p', p'') refl

add_char_lem :
    (c : ℕ) (left right : List ℕ) (m : Minibuf)
    → Edits m (record { left = left; right = right })
    → length m.line.text + 1 < size_mod
    → Sim (add_char c m) (record { left = c ∷ left; right = right })
unfolding astr_new onto
add_char_lem c left right m h small =
    let z : Zip = record { left = left; right = right } in
    let size = length-shown m z h in
    let n : (length m.line.text + size_mod - m.pos) % size_mod ≡ length right =
      omega (arith, h.at_cursor, size, h.small) in
    let (before, p, q) = astr_substr_lem m.line 0 m.pos (omega (arith, h.at_cursor, size)) in
    let (after, p', q') =
      astr_substr_lem m.line m.pos (length right) (omega (arith, h.at_cursor, size)) in
    let (line, p'', q'') =
      astr_cpy_lem m.line (astr_cat_nstr astr_new (before.text ++ c ∷ after.text)) h.small in
    let at : m.pos ≡ length (onto left []) = h.at_cursor ∙ sym (length-left left) in
    let front : before.text ≡ onto left [] =
      q ∙ ap (take m.pos) h.shown ∙ take_left m.pos (onto left []) right at in
    let back : after.text ≡ right =
      q'
      ∙ ap (λ t. take (length right) (drop m.pos t)) h.shown
      ∙ ap (take (length right)) (drop_left m.pos (onto left []) right at)
      ∙ take_all (length right) right (omega arith) in
    let text : line.text ≡ onto (c ∷ left) [] ++ right =
      q''
      ∙ text-astr_cat_nstr astr_new (before.text ++ c ∷ after.text)
      ∙ rw (front, back) (sym (shift c left right)) in
    (
      record m { line = line; pos = m.pos + 1 },
      add_char_steps c (length right) m before after line n p p' p'',
      moved m line (m.pos + 1) z (record { left = c ∷ left; right = right }) h text
          (omega (arith, h.at_cursor))
          (omega (
            arith,
            ap length text,
            length-append (onto (c ∷ left) []) right,
            length-left (c ∷ left),
            size,
          )),
    )

-- The switch of `read_key` without history and completion.
zip_switch : (ℕ → Bool) → ℕ → Zip → Zip
zip_switch isprint c z =
    if c == kbd_nokey || c == kbd_ret || c == kbd_cancel
    then z
    else if c == ctrl b'z'
    then z
    else if c == ctrl b'a' || c == kbd_home
    then record { left = []; right = onto z.left z.right }
    else if c == ctrl b'e' || c == kbd_end
    then record { left = onto z.right z.left; right = [] }
    else if c == ctrl b'b' || c == kbd_left
    then shift_left z
    else if c == ctrl b'f' || c == kbd_right
    then shift_right z
    else if c == ctrl b'k'
    then record z { right = [] }
    else if c == kbd_bs
    then drop_left_char z
    else if c == ctrl b'd' || c == kbd_del
    then drop_right_char z
    else if c == kbd_meta + b'v' || c == kbd_pgup
    then z
    else if c == ctrl b'v' || c == kbd_pgdn
    then z
    else if c == kbd_up || c == kbd_meta + b'p'
    then z
    else if c == kbd_down || c == kbd_meta + b'n'
    then z
    else if c == kbd_tab
    then z
    else if ltb 255 c || not (isprint c)
    then z
    else record z { left = c ∷ z.left }

zip_switch_lem :
    (isprint : ℕ → Bool) (c : ℕ) (z : Zip) → zip_switch isprint c z ≡ zip_key isprint c z
unfolding zip_switch zip_key
zip_switch_lem isprint c z = ground arith

pub onto-onto : (right left post : List ℕ) → onto (onto right left) post ≡ onto left (right ++ post)
unfolding onto
onto-onto [] left post = refl
onto-onto (c ∷ right) left post = onto-onto right (c ∷ left) post

Sim-if :
    (b : Bool) {o o' : Option Minibuf} {z z' : Zip}
    → Sim o z
    → Sim o' z'
    → Sim (if b then o else o') (if b then z else z')
Sim-if true s s' = s
Sim-if false s s' = s'

pub without_completion :
    (m : Minibuf) (z : Zip) → Edits m z → Edits (record m { completion = none }) z
without_completion m z h = record {
  shown = h.shown;
  at_cursor = h.at_cursor;
  no_history = h.no_history;
  no_completion = refl;
  small = h.small;
}

without_history : (m : Minibuf) (z : Zip) → Edits m z → Edits (record m { history = none }) z
without_history m z h = record {
  shown = h.shown;
  at_cursor = h.at_cursor;
  no_history = refl;
  no_completion = h.no_completion;
  small = h.small;
}

earlier_lem : (m : Minibuf) (z : Zip) → Edits m z → Sim (earlier m) z
unfolding earlier
earlier_lem m z h = rw (h.no_history) (record m { history = none }, refl, without_history m z h)

later_lem : (m : Minibuf) (z : Zip) → Edits m z → Sim (later m) z
unfolding later
later_lem m z h = rw (h.no_history) (record m { history = none }, refl, without_history m z h)

at_start :
    (m : Minibuf) (z : Zip)
    → Edits m z
    → Edits (record m { pos = 0 }) (record { left = []; right = onto z.left z.right })
unfolding onto
at_start m z h =
    moved m m.line 0 z (record { left = []; right = onto z.left z.right }) h
      (h.shown ∙ sym (onto-append z.left z.right)) refl h.small

at_end :
    (m : Minibuf) (z : Zip)
    → Edits m z
    → Edits
        (record m { pos = length m.line.text })
        (record { left = onto z.right z.left; right = [] })
at_end m z h =
    moved m m.line (length m.line.text) z (record { left = onto z.right z.left; right = [] }) h
      (h.shown
        ∙ sym (onto-append z.left z.right)
        ∙ sym (onto-onto z.right z.left [] ∙ ap (onto z.left) (append-nil z.right))
        ∙ sym (append-nil (onto (onto z.right z.left) [])))
      (omega (arith, length-shown m z h, length-onto z.right z.left)) h.small

module _ (isprint : ℕ → Bool) (screen : Screen)
    (sorted_add : List ℕ → List (List ℕ) → List (List ℕ))
    (readdir : Completion → List ℕ → Option (Completion × List ℕ)) where
  pop_scroll_lem : (e : Event) (m : Minibuf) (z : Zip) → Edits m z → Edits (pop_scroll e m) z
  unfolding pop_scroll
  pop_scroll_lem e m z h =
      rw (h.no_completion)
        (event_lem ding (record m { completion = none }) z (without_completion m z h))

  complete_line_lem :
      (m : Minibuf) (z : Zip)
      → Edits m z
      → Sim (complete_line isprint screen sorted_add readdir m) z
  unfolding complete_line
  complete_line_lem m z h = rw (h.no_completion) (
    happens ding (record m { completion = none }),
    refl,
    event_lem ding (record m { completion = none }) z (without_completion m z h),
  )

  other_key_lem :
      (c : ℕ) (m : Minibuf) (z : Zip)
      → Edits m z
      → length m.line.text + 1 < size_mod
      → Sim
          (other_key isprint screen sorted_add readdir c m)
          (if ltb 255 c || not (isprint c) then z else record z { left = c ∷ z.left })
  unfolding other_key
  other_key_lem c m z h small = rw (h.no_completion) (
      Sim-if (ltb 255 c || not (isprint c))
        (
          happens ding (record m { completion = none }),
          refl,
          event_lem ding (record m { completion = none }) z (without_completion m z h),
        )
        (add_char_lem c z.left z.right (record m { completion = none }) (without_completion m z h)
          small))

  read_key_lem :
      (c : ℕ) (m : Minibuf) (z : Zip)
      → Edits m z
      → length m.line.text + 1 < size_mod
      → Sim (read_key isprint screen sorted_add readdir c m) (zip_switch isprint c z)
  unfolding read_key zip_switch
  read_key_lem c m z h small =
      Sim-if (c == kbd_nokey || c == kbd_ret || c == kbd_cancel) (m, refl, h)
        (Sim-if (c == ctrl b'z') (happens suspend m, refl, event_lem suspend m z h)
          (Sim-if (c == ctrl b'a' || c == kbd_home) (record m { pos = 0 }, refl, at_start m z h)
            (Sim-if (c == ctrl b'e' || c == kbd_end)
              (record m { pos = length m.line.text }, refl, at_end m z h)
              (Sim-if (c == ctrl b'b' || c == kbd_left)
                (back_char m, refl, back_char_lem m z.left z.right h)
                (Sim-if (c == ctrl b'f' || c == kbd_right)
                  (forth_char m, refl, forth_char_lem m z.left z.right h)
                  (Sim-if (c == ctrl b'k') (kill_rest_lem m z.left z.right h) (
                    Sim-if (c == kbd_bs) (erase_back_lem m z.left z.right h) (
                      Sim-if (c == ctrl b'd' || c == kbd_del) (erase_forth_lem m z.left z.right h) (
                        Sim-if (c == kbd_meta + b'v' || c == kbd_pgup)
                          (pop_scroll scroll_down m, refl, pop_scroll_lem scroll_down m z h)
                          (Sim-if (c == ctrl b'v' || c == kbd_pgdn)
                            (pop_scroll scroll_up m, refl, pop_scroll_lem scroll_up m z h)
                            (Sim-if (c == kbd_up || c == kbd_meta + b'p') (earlier_lem m z h) (
                              Sim-if (c == kbd_down || c == kbd_meta + b'n') (later_lem m z h) (
                                Sim-if (c == kbd_tab) (complete_line_lem m z h)
                                  (other_key_lem c m z h small))))))))))))))

  -- The key `c` in one round of the loop.
  pub round_lem :
      (c : ℕ) (m : Minibuf) (z : Zip)
      → Edits m z
      → length m.line.text + 1 < size_mod
      → (m1 : Minibuf) × (read_key isprint screen sorted_add readdir c (record m { thistab = none })
          ≡ some m1)
        × Edits (record m1 { lasttab = m1.thistab }) (zip_key isprint c z)
  round_lem c m z h small =
      let m0 = record m { thistab = none } in
      let h0 : Edits m0 z = record {
        shown = h.shown;
        at_cursor = h.at_cursor;
        no_history = h.no_history;
        no_completion = h.no_completion;
        small = h.small;
      } in
      let (m1, p, h1) = read_key_lem c m0 z h0 small in
      let h2 = rw (zip_switch_lem isprint c z) at h1 in
      (
        m1,
        p,
        record {
          shown = h2.shown;
          at_cursor = h2.at_cursor;
          no_history = h2.no_history;
          no_completion = h2.no_completion;
          small = h2.small;
        },
      )
