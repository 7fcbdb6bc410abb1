-- ===== src/Astr/Laws.antt =====
-- Laws of the strings of src/astr.c, on the bytes that they hold.
use zile.Prelude.{
  ℕ, ◌+◌, ◌-◌, ◌≤◌, ◌<◌, ◌≡◌, refl, List, [], ◌++◌, Option, some, arith, length, take, drop,
  replicate, zeros, length-zeros, blit, append_assoc, append-nil, length-append, length-replicate,
  length-take, length-drop, take_left, drop_left, take_all, drop_all, take-append-drop, blit_middle,
  max, le→leb, ◌%◌, ap, sym, ◌∙◌,
}
use zile.Astr.{
  Astr, size_mod, astr_set_len, astr_cat_nstr, astr_replace_nstr, astr_remove, astr_insert,
  astr_move, astr_set,
}

add_sub_left : (n m : ℕ) → n + m - n ≡ m
add_sub_left n m = omega arith

-- The operation succeeds, and the string then holds `bytes`; how much memory it has is forgotten.
abbrev pub Yields : Option Astr → List ℕ → Type 0
Yields o bytes = (s : Astr) × (o ≡ some s) × (s.text ≡ bytes)

grow :
    (xs : List ℕ) (n : ℕ)
    → take (length xs + n) xs ++ replicate (length xs + n - length xs) 0 ≡ xs ++ zeros n
grow xs n = rw (take_all (length xs + n) xs (omega arith), add_sub_left (length xs) n)

cut :
    (xs ys : List ℕ) (n : ℕ)
    → n ≡ length xs
    → take n (xs ++ ys) ++ zeros (n - length (xs ++ ys)) ≡ xs
cut xs ys n h =
    let e : n - length (xs ++ ys) ≡ 0 = omega (arith, length-append xs ys) in
    rw (take_left n xs ys h, e) (append-nil xs)

pub text-astr_cat_nstr :
    (s : Astr) (bytes : List ℕ) → (astr_cat_nstr s bytes).text ≡ s.text ++ bytes
unfolding astr_cat_nstr astr_set_len
text-astr_cat_nstr s bytes =
    rw
      (
        grow s.text (length bytes),
        take_left (length s.text) s.text (zeros (length bytes)) refl,
        drop_all (length s.text + length bytes) (s.text ++ zeros (length bytes)) (
            omega
              (arith, length-append s.text (zeros (length bytes)), length-zeros (length bytes))),
      )
      (append-nil (s.text ++ bytes))

module _ (s : Astr) (a m b : List ℕ) (h : s.text ≡ a ++ (m ++ b)) where
  length_parts : length s.text ≡ length a + (length m + length b)
  length_parts = rw h (length-append a (m ++ b) ∙ ap (length a +◌) (length-append m b))

  -- Overwriting the middle part by bytes of its length.
  pub astr_replace_nstr_lem :
      (bytes : List ℕ)
      → length bytes ≡ length m
      → Yields (astr_replace_nstr s (length a) bytes) (a ++ (bytes ++ b))
  unfolding astr_replace_nstr
  astr_replace_nstr_lem bytes k = (
    record s { text = blit s.text (length a) bytes },
    rw (
      le→leb (length a) (length s.text) (omega (arith, length_parts)),
      le→leb (length bytes) (length s.text - length a) (omega (arith, length_parts)),
    ),
    rw h (blit_middle (length a) a m b bytes refl k),
  )

  pub astr_set_lem :
      (c : ℕ) → Yields (astr_set s (length a) c (length m)) (a ++ (replicate (length m) c ++ b))
  unfolding astr_set
  astr_set_lem c = (
    record s { text = blit s.text (length a) (replicate (length m) c) },
    rw (
      le→leb (length a) (length s.text) (omega (arith, length_parts)),
      le→leb (length m) (length s.text - length a) (omega (arith, length_parts)),
    ),
    rw h (
        blit_middle (length a) a m b (replicate (length m) c) refl (length-replicate (length m) c)),
  )

  -- The bytes moved are named by `bytes`, wherever they stand.
  pub astr_move_lem :
      (from : ℕ) (bytes : List ℕ)
      → from + length m ≤ length s.text
      → take (length m) (drop from s.text) ≡ bytes
      → length bytes ≡ length m
      → Yields (astr_move s (length a) from (length m)) (a ++ (bytes ++ b))
  unfolding astr_move
  astr_move_lem from bytes le k l = (
    record s { text = blit s.text (length a) (take (length m) (drop from s.text)) },
    rw (
      le→leb (length a) (length s.text) (omega (arith, length_parts)),
      le→leb from (length s.text) (omega arith),
      le→leb (length m) (length s.text - max from (length a)) (omega (arith, length_parts)),
    ),
    rw (k, h) (blit_middle (length a) a m b bytes refl l),
  )

  moved_down :
      blit s.text (length a) (drop (length a + length m) s.text)
      ≡ (a ++ b) ++ drop (length a + length b) s.text
  moved_down =
      let e : drop (length a + length m) s.text ≡ b =
        rw (h, ← append_assoc a m b)
          (drop_left (length a + length m) (a ++ m) b (omega (arith, length-append a m))) in
      let f : take (length a) s.text ≡ a = rw h (take_left (length a) a (m ++ b) refl) in rw (e, f)

  pub astr_remove_lem : Yields (astr_remove s (length a) (length m)) (a ++ b)
  unfolding astr_remove astr_set_len
  astr_remove_lem =
      let tail = drop (length a + length b) s.text in
      let moved : Astr = record s {
        text = blit s.text (length a) (drop (length a + length m) s.text);
      } in
      (
        astr_set_len moved (length s.text - length m),
        rw (
          le→leb (length a) (length s.text) (omega (arith, length_parts)),
          le→leb (length m) (length s.text - length a) (omega (arith, length_parts)),
        ),
        rw moved_down (
            cut (a ++ b) tail (length s.text - length m)
              (omega (arith, length_parts, length-append a b))),
      )

module _ (a b : List ℕ) (size : ℕ) where
  head : List ℕ
  head = take size (b ++ zeros size)

  rest : List ℕ
  rest = drop size (b ++ zeros size)

  length-head : length head ≡ size
  unfolding head
  length-head =
      omega
        (arith, length-take size (b ++ zeros size), length-append b (zeros size), length-zeros size)

  length-rest : length rest ≡ length b
  unfolding rest
  length-rest =
      omega
        (arith, length-drop size (b ++ zeros size), length-append b (zeros size), length-zeros size)

  tail_of_grown :
      take
        (length ((a ++ b) ++ zeros size) - (length a + size))
        (drop (length a) ((a ++ b) ++ zeros size))
      ≡ b
  tail_of_grown =
      rw (append_assoc a b (zeros size), drop_left (length a) a (b ++ zeros size) refl)
        (take_left _ b (zeros size) (
          omega (
            arith,
            length-append a (b ++ zeros size),
            length-append b (zeros size),
            length-zeros size,
          )))

  moved_up : blit ((a ++ b) ++ zeros size) (length a + size) b ≡ a ++ (head ++ b)
  unfolding head rest
  moved_up =
      let e : (a ++ b) ++ zeros size ≡ (a ++ head) ++ (rest ++ []) = rw (
        append_assoc a b (zeros size),
        append-nil rest,
        append_assoc a head rest,
        take-append-drop size (b ++ zeros size),
      ) in
      rw e (
        blit_middle (length a + size) (a ++ head) rest [] b
          (omega (arith, length-append a head, length-head)) (sym length-rest)
        ∙ rw (append-nil b, append_assoc a head b))

  cleared : blit (a ++ (head ++ b)) (length a) (zeros size) ≡ a ++ (zeros size ++ b)
  cleared =
      blit_middle (length a) a head b (zeros size) refl
        (omega (arith, length-zeros size, length-head))

-- A gap of zero bytes.
pub astr_insert_lem :
    (s : Astr) (a b : List ℕ) (size : ℕ)
    → s.text ≡ a ++ b
    → length a + size < size_mod
    → Yields (astr_insert s (length a) size) (a ++ (zeros size ++ b))
unfolding astr_insert astr_set_len
astr_insert_lem s a b size h lt =
    let grown = astr_set_len s (length s.text + size) in
    let tail = take (length grown.text - (length a + size)) (drop (length a) grown.text) in
    let moved = blit grown.text (length a + size) tail in
    (
      record grown { text = blit moved (length a) (zeros size) },
      rw (
        le→leb (length a) (length s.text) (omega (arith, ap length h, length-append a b)),
        le→leb (max (length a) size) ((length a + size) % size_mod) (omega arith),
      ),
      rw (grow s.text size, h, tail_of_grown a b size, moved_up a b size) (cleared a b size),
    )
