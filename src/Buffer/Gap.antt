-- ===== src/Buffer/Gap.antt =====
-- The gap (`set_buffer_pt` and the offset maps of src/buffer.c) against the text that it hides.
use zile.Prelude.{
  ℕ, ◌+◌, ◌-◌, ◌≤◌, ◌<◌, ◌≡◌, refl, sym, ap, ◌∙◌, min, List, ◌++◌, arith, length, take, drop, zeros,
  length-zeros, length-append, length-take, length-drop, append_assoc, append-nil, take_left,
  drop_left, take_all, drop_all, take-append, drop-append, take-append-drop, le→ltb, ltb,
  Bool-cases, inl, inr, ltb→lt, ltb→le,
}
use zile.Astr.Laws.{astr_move_lem, astr_set_lem}
use zile.Buffer.{Buffer, bytes, set_buffer_pt}
pub use zile.Buffer.Shows.{Shows, Shows-eq, moved_to, ReachesTo}
use zile.Buffer.Shows.{
  closed_left, closed_right, ReachesTo-eq, astr_move_at, astr_set_at, set_buffer_pt_back,
  set_buffer_pt_forth,
}

module _ (bp : Buffer) (a b post : List ℕ) (h : Shows bp (a ++ b) post) where
  moved_gap : List ℕ
  moved_gap = take bp.gap (b ++ zeros bp.gap)

  pushed : List ℕ
  pushed = drop bp.gap (b ++ zeros bp.gap)

  length-moved_gap : length moved_gap ≡ bp.gap
  unfolding moved_gap
  length-moved_gap = omega (
    arith,
    length-take bp.gap (b ++ zeros bp.gap),
    length-append b (zeros bp.gap),
    length-zeros bp.gap,
  )

  length-pushed : length pushed ≡ length b
  unfolding pushed
  length-pushed = omega (
    arith,
    length-drop bp.gap (b ++ zeros bp.gap),
    length-append b (zeros bp.gap),
    length-zeros bp.gap,
  )

  layout_left : bytes bp ≡ (a ++ moved_gap) ++ (pushed ++ post)
  unfolding moved_gap pushed
  layout_left =
      h.layout
      ∙ append_assoc a b (zeros bp.gap ++ post)
      ∙ ap (a ++◌) (
          sym (append_assoc b (zeros bp.gap) post)
          ∙ ap (◌++ post) (sym (take-append-drop bp.gap (b ++ zeros bp.gap)))
          ∙ append_assoc moved_gap pushed post)
      ∙ sym (append_assoc a moved_gap (pushed ++ post))

  from_left : take (length pushed) (drop (length a) (bytes bp)) ≡ b
  from_left =
      rw
        (
          h.layout,
          append_assoc a b (zeros bp.gap ++ post),
          drop_left (length a) a (b ++ (zeros bp.gap ++ post)) refl,
        )
        (take_left (length pushed) b (zeros bp.gap ++ post) length-pushed)

  abbrev SetLeft : Type 0
  SetLeft = ReachesTo bp (length a) a (b ++ post)

  crossed : ℕ
  crossed = min (length b) bp.gap

  pub set_buffer_pt_left : 0 < length b → SetLeft
  unfolding set_buffer_pt moved_gap crossed
  set_buffer_pt_left lt =
      let at : bp.pt ≡ length a + length b = h.at_pt ∙ length-append a b in
      let size : bp.pt - length a ≡ length pushed = omega (arith, length-pushed) in
      let to : length a + bp.gap ≡ length (a ++ moved_gap) =
        omega (arith, length-append a moved_gap, length-moved_gap) in
      let cleared : min (bp.pt - length a) bp.gap ≡ length (take crossed moved_gap) =
        omega (arith, length-take crossed moved_gap, length-moved_gap) in
      let (s1, p1, t1) =
        astr_move_lem bp.text.str (a ++ moved_gap) pushed post layout_left (length a) b
          (omega (
            arith,
            ap length layout_left,
            length-append (a ++ moved_gap) (pushed ++ post),
            length-append a moved_gap,
            length-append pushed post,
          ))
          from_left (sym length-pushed) in
      let (s2, p2, t2) =
        astr_set_lem s1 a (take crossed moved_gap) (drop crossed moved_gap ++ (b ++ post))
          (t1
            ∙ append_assoc a moved_gap (b ++ post)
            ∙ ap (a ++◌) (
                ap (◌++ (b ++ post)) (sym (take-append-drop crossed moved_gap))
                ∙ append_assoc (take crossed moved_gap) (drop crossed moved_gap) (b ++ post)))
          0 in
      let z : length (take crossed moved_gap) ≡ crossed =
        omega (arith, length-take crossed moved_gap, length-moved_gap) in
      (
        s2,
        set_buffer_pt_back bp (length a) s1 s2 (omega arith)
            (astr_move_at bp.text.str to refl size p1) (astr_set_at s1 0 refl cleared p2),
        record {
          layout =
              t2
              ∙ rw z (
                  ap (a ++◌) (
                    sym (append_assoc (zeros crossed) (drop crossed moved_gap) (b ++ post))
                    ∙ ap (◌++ (b ++ post)) (closed_left b bp.gap)));
          at_pt = refl;
        },
      )

-- The point moves forward over `b`.
module _ (bp : Buffer) (a b post : List ℕ) (h : Shows bp a (b ++ post)) where
  -- Where `b` ends up, and what then lies in the gap.
  overwritten : List ℕ
  overwritten = take (length b) (zeros bp.gap ++ b)

  left_over : List ℕ
  left_over = drop (length b) (zeros bp.gap ++ b)

  length-overwritten : length overwritten ≡ length b
  unfolding overwritten
  length-overwritten = omega (
    arith,
    length-take (length b) (zeros bp.gap ++ b),
    length-append (zeros bp.gap) b,
    length-zeros bp.gap,
  )

  length-left_over : length left_over ≡ bp.gap
  unfolding left_over
  length-left_over = omega (
    arith,
    length-drop (length b) (zeros bp.gap ++ b),
    length-append (zeros bp.gap) b,
    length-zeros bp.gap,
  )

  layout_right : bytes bp ≡ a ++ (overwritten ++ (left_over ++ post))
  unfolding overwritten left_over
  layout_right =
      h.layout
      ∙ ap (a ++◌) (
          sym (append_assoc (zeros bp.gap) b post)
          ∙ ap (◌++ post) (sym (take-append-drop (length b) (zeros bp.gap ++ b)))
          ∙ append_assoc overwritten left_over post)

  from_right : take (length overwritten) (drop (length a + bp.gap) (bytes bp)) ≡ b
  from_right =
      rw
        (
          h.layout,
          ← append_assoc a (zeros bp.gap) (b ++ post),
          drop_left (length a + bp.gap) (a ++ zeros bp.gap) (b ++ post)
              (omega (arith, length-append a (zeros bp.gap), length-zeros bp.gap)),
        )
        (take_left (length overwritten) b post length-overwritten)

  kept : ℕ
  kept = bp.gap - min (length b) bp.gap

  abbrev SetRight : Type 0
  SetRight = ReachesTo bp (length a + length b) (a ++ b) post

  pub set_buffer_pt_right : 0 < length b → SetRight
  unfolding set_buffer_pt left_over kept
  set_buffer_pt_right lt =
      let at : bp.pt ≡ length a = h.at_pt in
      let o = length a + length b in
      let from : bp.pt + bp.gap ≡ length a + bp.gap = omega arith in
      let size : o - bp.pt ≡ length overwritten = omega (arith, length-overwritten) in
      let cleared : min (o - bp.pt) bp.gap ≡ length (drop kept left_over) =
        omega (arith, length-drop kept left_over, length-left_over) in
      let to : o + bp.gap - min (o - bp.pt) bp.gap ≡ length ((a ++ b) ++ take kept left_over) =
        omega (
          arith,
          length-append (a ++ b) (take kept left_over),
          length-append a b,
          length-take kept left_over,
          length-drop kept left_over,
          length-left_over,
        ) in
      let (s1, p1, t1) =
        astr_move_lem bp.text.str a overwritten (left_over ++ post) layout_right (length a + bp.gap)
          b
          (omega (
            arith,
            ap length layout_right,
            length-append a (overwritten ++ (left_over ++ post)),
            length-append overwritten (left_over ++ post),
            length-append left_over post,
            length-left_over,
          ))
          from_right (sym length-overwritten) in
      let (s2, p2, t2) =
        astr_set_lem s1 ((a ++ b) ++ take kept left_over) (drop kept left_over) post
          (t1
            ∙ sym (append_assoc a b (left_over ++ post))
            ∙ ap ((a ++ b) ++◌) (
                ap (◌++ post) (sym (take-append-drop kept left_over))
                ∙ append_assoc (take kept left_over) (drop kept left_over) post)
            ∙ sym (append_assoc (a ++ b) (take kept left_over) (drop kept left_over ++ post)))
          0 in
      let z : length (drop kept left_over) ≡ min (length b) bp.gap =
        omega (arith, length-drop kept left_over, length-left_over) in
      (
        s2,
        set_buffer_pt_forth bp o s1 s2 (omega arith) (astr_move_at bp.text.str at from size p1)
            (astr_set_at s1 0 to cleared p2),
        record {
          layout =
              t2
              ∙ rw z (
                  append_assoc (a ++ b) (take kept left_over)
                    (zeros (min (length b) bp.gap) ++ post)
                  ∙ ap ((a ++ b) ++◌) (
                      sym (append_assoc (take kept left_over) (zeros (min (length b) bp.gap)) post)
                      ∙ ap (◌++ post) (closed_right b bp.gap)));
          at_pt = sym (length-append a b);
        },
      )

-- Where the point goes, the text is cut; text and gap stay as they are.
abbrev pub Reaches : Buffer → ℕ → List ℕ → Type 0
Reaches bp o shown = ReachesTo bp o (take o shown) (drop o shown)

set_buffer_pt_stay :
    (bp : Buffer) (pre post : List ℕ) → Shows bp pre post → Reaches bp bp.pt (pre ++ post)
unfolding set_buffer_pt
set_buffer_pt_stay bp pre post h = (
  bp.text.str,
  rw (le→ltb bp.pt bp.pt (omega arith)),
  rw (take_left bp.pt pre post h.at_pt, drop_left bp.pt pre post h.at_pt) h,
)

module _ (bp : Buffer) (pre post : List ℕ) (h : Shows bp pre post) (o : ℕ) where
  reach_left : o < length pre → Reaches bp o (pre ++ post)
  reach_left lt =
      let o_len : o ≡ length (take o pre) = omega (arith, length-take o pre) in
      let h' : Shows bp (take o pre ++ drop o pre) post = rw (take-append-drop o pre) h in
      let none_left : o - length pre ≡ 0 = omega arith in
      ReachesTo-eq bp o (length (take o pre)) (take o (pre ++ post)) (take o pre)
        (drop o (pre ++ post)) (drop o pre ++ post) o_len
        (rw (take-append o pre post, none_left) (append-nil (take o pre)))
        (rw (drop-append o pre post, none_left))
        (set_buffer_pt_left bp (take o pre) (drop o pre) post h' (omega (arith, length-drop o pre)))

  reach_right : length pre < o → o ≤ length (pre ++ post) → Reaches bp o (pre ++ post)
  reach_right lt le =
      let n = o - length pre in
      let o_len : o ≡ length pre + length (take n post) =
        omega (arith, length-take n post, length-append pre post) in
      let h' : Shows bp pre (take n post ++ drop n post) = rw (take-append-drop n post) h in
      ReachesTo-eq bp o (length pre + length (take n post)) (take o (pre ++ post))
        (pre ++ take n post) (drop o (pre ++ post)) (drop n post) o_len
        (rw (take-append o pre post, take_all o pre (omega arith)))
        (rw (drop-append o pre post, drop_all o pre (omega arith)))
        (set_buffer_pt_right bp pre (take n post) (drop n post) h'
          (omega (arith, length-take n post, length-append pre post)))

-- `set_buffer_pt` succeeds at every offset of the text, keeps the text and moves the point.
pub set_buffer_pt_lem :
    (bp : Buffer) (pre post : List ℕ)
    → Shows bp pre post
    → (o : ℕ) → o ≤ length (pre ++ post)
    → Reaches bp o (pre ++ post)
set_buffer_pt_lem bp pre post h o le = elim (Bool-cases (ltb o (length pre))) [
  | inl p ↦ reach_left bp pre post h o (ltb→lt _ _ p)
  | inr p ↦ elim (Bool-cases (ltb (length pre) o)) [
    | inl q ↦ reach_right bp pre post h o (ltb→lt _ _ q) le
    | inr q ↦
        let e : o ≡ bp.pt =
          omega (arith, ltb→le o (length pre) p, ltb→le (length pre) o q, h.at_pt) in
        rw e (set_buffer_pt_stay bp pre post h)
  ]
]
