-- ===== src/Minibuffer/Refines.antt =====
-- What `term_minibuf_read` promises without history and completion (src/term_minibuf.c).
use zile.Prelude.{
  ℕ, ◌+◌, ◌^◌, ◌≤◌, ◌<◌, ◌≡◌, refl, sym, ap, ◌∙◌, List, [], ◌∷◌, ◌++◌, Option, none, some, Bool,
  true, false, ◌==◌, if◌then◌else◌, arith, length, take, drop, append-nil, take-append-drop,
  length-take, ==→≡,
}
use zile.Astr.{size_mod, size_max, astr_new, astr_cat_nstr}
use zile.Astr.Laws.{text-astr_cat_nstr}
use zile.Completion.{Completion, Screen}
use zile.Minibuffer.{
  Minibuf, Answer, answered, read_loop, term_minibuf_read, closed, kbd_ret, kbd_cancel,
}
use zile.Minibuffer.Draw.{Drawn, draw_minibuf_read}
use zile.Minibuffer.Draw.Columns.{draw_minibuf_read_bounds}
use zile.Minibuffer.Plain.{
  Zip, onto, onto-append, length-onto, length-shown, shift_left, shift_right, drop_left_char,
  drop_right_char, Edits,
}
use zile.Minibuffer.Reads.{without_completion, zip_key, zip_keys, round_lem, onto-onto}

abbrev size : Zip → ℕ
size z = length z.left + length z.right

module _ (left right : List ℕ) where
  size-shift_left :
      size (shift_left (record { left = left; right = right })) ≡ length left + length right
  unfolding shift_left
  size-shift_left = ground arith

  size-shift_right :
      size (shift_right (record { left = left; right = right })) ≡ length left + length right
  unfolding shift_right
  size-shift_right = ground arith

  size-drop_left_char :
      size (drop_left_char (record { left = left; right = right })) ≤ length left + length right
  unfolding drop_left_char
  size-drop_left_char = ground arith

  size-drop_right_char :
      size (drop_right_char (record { left = left; right = right })) ≤ length left + length right
  unfolding drop_right_char
  size-drop_right_char = ground arith

-- A key makes the line longer by one character at most.
size-zip_key : (isprint : ℕ → Bool) (c : ℕ) (z : Zip) → size (zip_key isprint c z) ≤ size z + 1
unfolding zip_key
size-zip_key isprint c z = ground (
  arith,
  length-onto z.left z.right,
  length-onto z.right z.left,
  size-shift_left z.left z.right,
  size-shift_right z.left z.right,
  size-drop_left_char z.left z.right,
  size-drop_right_char z.left z.right,
)

closed_lem : (m : Minibuf) (z : Zip) → Edits m z → Edits (closed m) z
unfolding closed
closed_lem m z h = rw (h.no_completion) (without_completion m z h)

zip_key-ret : (isprint : ℕ → Bool) (z : Zip) → zip_key isprint kbd_ret z ≡ z
unfolding zip_key
zip_key-ret isprint z = refl

zip_key-cancel : (isprint : ℕ → Bool) (z : Zip) → zip_key isprint kbd_cancel z ≡ z
unfolding zip_key
zip_key-cancel isprint z = refl

-- The line with the cursor in it.
abbrev pub cursor_at : List ℕ → ℕ → Zip
cursor_at value pos = record { left = onto (take pos value) []; right = drop pos value }

cursor_at-shown :
    (value : List ℕ) (start : ℕ) → onto (onto (take start value) []) [] ++ drop start value ≡ value
unfolding onto
cursor_at-shown value start =
    ap (◌++ drop start value) (onto-onto (take start value) [] [] ∙ append-nil (take start value))
    ∙ take-append-drop start value

length-cursor_at :
    (value : List ℕ) (start : ℕ)
    → start ≤ length value
    → length (onto (take start value) []) ≡ start
length-cursor_at value start le =
    omega (arith, length-onto (take start value) [], length-take start value)

-- The state before the first key.
abbrev fresh_line : List ℕ → ℕ → Minibuf
fresh_line value start = record {
  line = astr_cat_nstr astr_new value;
  pos = start;
  saved = none;
  thistab = none;
  lasttab = none;
  history = none;
  completion = none;
  events = [];
}

module _ (isprint : ℕ → Bool) (screen : Screen)
    (sorted_add : List ℕ → List (List ℕ) → List (List ℕ))
    (readdir : Completion → List ℕ → Option (Completion × List ℕ)) (prompt : List ℕ)
    (fits : length prompt + 2 < screen.term_width) (wide : screen.term_width < size_mod) where
  -- The loop answers as the two lists do, and edits what they are.
  abbrev Follows : Option (Answer × Minibuf) → Answer × Zip → Type 0
  Follows o (answer, z) = (m : Minibuf) × (o ≡ some (answer, m)) × Edits m z

  Follows-if :
      (b : Bool) {o o' : Option (Answer × Minibuf)} {r r' : Answer × Zip}
      → (b ≡ true → Follows o r)
      → (b ≡ false → Follows o' r')
      → Follows (if b then o else o') (if b then r else r')
  Follows-if true f g = f refl
  Follows-if false f g = g refl

  ends_with :
      (m : Minibuf) (z : Zip) (key c : ℕ)
      → (c == key) ≡ true
      → zip_key isprint key z ≡ z
      → Edits m (zip_key isprint c z)
      → Edits m z
  ends_with m z key c e k h = rw (ap (λ d. zip_key isprint d z) (==→≡ c key e) ∙ k) at h

  -- The line can be drawn.
  draws :
      (m : Minibuf) (z : Zip)
      → Edits m z
      → length m.line.text < 2 ^ 31
      → (d : Drawn) × (draw_minibuf_read screen.term_width (length prompt) m.line.text m.pos
          ≡ some d)
  draws m z h short =
      let (d, p, _, _, _) =
        draw_minibuf_read_bounds screen.term_width (length prompt) m.line.text m.pos fits wide
          (omega (arith, length-shown m z h, h.at_cursor)) short in
      (d, p)

  read_loop-Follows :
      (keys : List ℕ) (m : Minibuf) (z : Zip)
      → Edits m z
      → length m.line.text + length keys < 2 ^ 31
      → Follows
          (read_loop isprint screen sorted_add readdir (length prompt) keys m)
          (zip_keys isprint keys z)
  unfolding read_loop zip_keys
  read_loop-Follows [] m z h small = let (d, q) = draws m z h (omega arith) in (m, rw q refl, h)
  read_loop-Follows (c ∷ keys) m z h small =
      let (m1, p, h1) = round_lem isprint screen sorted_add readdir c m z h (omega arith) in
      let m2 = record m1 { lasttab = m1.thistab } in
      let (d, q) = draws m z h (omega arith) in
      rw (q, p)
        (Follows-if (c == kbd_ret)
          (λ e.
            let h2 = ends_with m2 z kbd_ret c e (zip_key-ret isprint z) h1 in
            (
              closed m2,
              ap (λ t. some (answered t, closed m2)) (h2.shown ∙ sym (onto-append z.left z.right)),
              closed_lem m2 z h2,
            ))
          (λ _.
            Follows-if (c == kbd_cancel)
              (λ e.
                let h2 = ends_with m2 z kbd_cancel c e (zip_key-cancel isprint z) h1 in
                (closed m2, refl, closed_lem m2 z h2))
              (λ _. read_loop-Follows keys m2 (zip_key isprint c z) h1 (
                omega (
                  arith,
                  length-shown m z h,
                  length-shown m2 (zip_key isprint c z) h1,
                  size-zip_key isprint c z,
                )))))

  from_cursor :
      (value : List ℕ) (start : ℕ) (keys : List ℕ)
      → start ≤ length value
      → length value + length keys < 2 ^ 31
      → Follows
          (read_loop isprint screen sorted_add readdir
            (length prompt)
            keys
            (fresh_line value start))
          (zip_keys isprint keys (cursor_at value start))
  unfolding astr_new
  from_cursor value start keys le small =
      let shown = text-astr_cat_nstr astr_new value in
      read_loop-Follows keys (fresh_line value start) (cursor_at value start)
        (record {
          shown = shown ∙ sym (cursor_at-shown value start);
          at_cursor = sym (length-cursor_at value start le);
          no_history = refl;
          no_completion = refl;
          small = omega (arith, ap length shown);
        })
        (omega (arith, ap length shown))

  term_minibuf_read_start :
      (value : List ℕ) (pos n : ℕ) (keys : List ℕ)
      → length (astr_cat_nstr astr_new value).text ≡ n
      → term_minibuf_read isprint screen sorted_add readdir prompt value pos none none keys
        ≡ read_loop isprint screen sorted_add readdir
            (length prompt)
            keys
            (fresh_line value (if pos == size_max then n else pos))
  unfolding term_minibuf_read
  term_minibuf_read_start value pos n keys e = rw e refl

  -- When the prompt leaves three columns of the screen at least, whose width is below the machine's
  -- size, without history and completion, from a cursor within the line and with the line and the keys together below 2 ^ 31, reading in the
  -- minibuffer fails at no key and no drawing of the line: it answers, or waits, as an editor with
  -- two lists around the cursor does, and its line and cursor are that editor's.
  pub term_minibuf_read-Follows :
      (value : List ℕ) (pos : ℕ) (keys : List ℕ)
      → (if pos == size_max then length value else pos) ≤ length value
      → length value + length keys < 2 ^ 31
      → (m : Minibuf) × (term_minibuf_read isprint screen sorted_add readdir prompt value pos none
            none keys
          ≡ some (
            (zip_keys isprint keys
                (cursor_at value (if pos == size_max then length value else pos))).0,
            m,
          ))
        × Edits m
            (zip_keys isprint keys
              (cursor_at value (if pos == size_max then length value else pos))).1
  unfolding astr_new
  term_minibuf_read-Follows value pos keys le small =
      let start = if pos == size_max then length value else pos in
      let (m, p, h) = from_cursor value start keys le small in
      (
        m,
        term_minibuf_read_start value pos (length value) keys
              (ap length (text-astr_cat_nstr astr_new value))
            ∙ p,
        h,
      )
