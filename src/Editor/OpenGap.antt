-- ===== src/Editor/OpenGap.antt =====
-- The gap that `replace_estr` (src/buffer.c) makes for the new text.
use zile.Prelude.{
  ℕ, ◌+◌, ◌-◌, ◌≤◌, ◌<◌, ◌≡◌, refl, sym, ap, ◌∙◌, min, max, List, [], ◌++◌, some, arith, length,
  take, drop, zeros, length-zeros, length-append, length-take, length-drop, append_assoc,
  append-nil, take_all, take-append, take-append-drop, take-take, take-zeros, drop-zeros, ltb,
  Bool-cases, inl, inr, ltb→lt, ltb→le, ◌⊎◌,
}
use zile.Astr.{size_mod}
use zile.Astr.Laws.{astr_insert_lem, astr_remove_lem, astr_set_lem}
use zile.Buffer.{Buffer}
use zile.Buffer.Gap.{Shows}
use zile.Editor.{min_gap, max_gap}
use zile.Editor.GapSteps.{
  OpensTo, astr_remove_at, astr_insert_at, astr_set_at, opened_wide, narrowed_clear, narrowed,
  kept_clear, kept, drop-used, drop-used-zeros, stale_gap,
}

module _ (bp : Buffer) (pre d post : List ℕ) (newlen : ℕ) (h : Shows bp pre (d ++ post)) where
  old_room : List ℕ
  old_room = zeros bp.gap ++ d

  length-old_room : length old_room ≡ bp.gap + length d
  unfolding old_room
  length-old_room = omega (arith, length-append (zeros bp.gap) d, length-zeros bp.gap)

  layout : bp.text.str.text ≡ pre ++ (old_room ++ post)
  unfolding old_room
  layout = h.layout ∙ ap (pre ++◌) (sym (append_assoc (zeros bp.gap) d post))

  layout_cut : (n : ℕ) → bp.text.str.text ≡ (pre ++ take n old_room) ++ (drop n old_room ++ post)
  layout_cut n =
      layout
      ∙ ap (pre ++◌) (
          ap (◌++ post) (sym (take-append-drop n old_room))
          ∙ append_assoc (take n old_room) (drop n old_room) post)
      ∙ sym (append_assoc pre (take n old_room) (drop n old_room ++ post))

  length-cut : (n : ℕ) → n ≤ bp.gap + length d → length (pre ++ take n old_room) ≡ bp.pt + n
  length-cut n le =
      omega (
        arith,
        length-append pre (take n old_room),
        length-take n old_room,
        length-old_room,
        h.at_pt,
      )

  -- The gap vanishes: what it held and what is deleted stay behind the bytes inserted.
  open_gap_wide :
      bp.gap + length d < newlen
      → length pre + newlen + min_gap < size_mod
      → OpensTo bp
          (length d)
          newlen
          pre
          min_gap
          (drop newlen (zeros (newlen + min_gap - (bp.gap + length d)) ++ old_room))
          post
  open_gap_wide lt small =
      let k = newlen + min_gap - (bp.gap + length d) in
      let (s1, p, t) = astr_insert_lem bp.text.str pre (old_room ++ post) k layout (omega arith) in
      (
        s1,
        zeros k ++ old_room,
        opened_wide bp (length d) newlen s1 lt
            (astr_insert_at bp.text.str bp.pt (length pre) k (some s1) h.at_pt p),
        t ∙ ap (pre ++◌) (sym (append_assoc (zeros k) old_room post)),
        refl,
        omega (arith, length-append (zeros k) old_room, length-zeros k, length-old_room),
      )

  -- The remaining cases, in which the gap ends up cleared.
  abbrev Clean : ℕ → Type 0
  Clean gap = OpensTo bp (length d) newlen pre gap (zeros gap) post

  used : ℕ
  used = max bp.gap newlen

  open_gap_kept_clear :
      newlen ≤ bp.gap + length d
      → bp.gap + length d ≤ max_gap + newlen
      → max bp.gap newlen < bp.gap + length d
      → Clean (bp.gap + length d - newlen)
  unfolding used old_room
  open_gap_kept_clear le lt c =
      let n = bp.gap + length d - used in
      let (s2, q, t) =
        astr_set_lem bp.text.str (pre ++ take used old_room) (drop used old_room) post
          (layout_cut used) 0 in
      let m : length (drop used old_room) ≡ n =
        omega (arith, length-drop used old_room, length-old_room) in
      (
        s2,
        take used old_room ++ zeros n,
        kept_clear bp (length d) newlen s2 le lt c (
            astr_set_at bp.text.str _ _ _ _ (some s2) (omega (arith, length-cut used (omega arith)))
              (omega (arith, m)) q),
        t
            ∙ rw m (
                append_assoc pre (take used old_room) (zeros n ++ post)
                ∙ ap (pre ++◌) (sym (append_assoc (take used old_room) (zeros n) post))),
        drop-used-zeros bp.gap newlen n (bp.gap + length d - newlen) d (omega arith) (omega arith),
        omega (
          arith,
          length-append (take used old_room) (zeros n),
          length-take used old_room,
          length-old_room,
          length-zeros n,
        ),
      )

  open_gap_kept :
      newlen ≤ bp.gap + length d
      → bp.gap + length d ≤ max_gap + newlen
      → bp.gap + length d ≤ max bp.gap newlen
      → Clean (bp.gap + length d - newlen)
  unfolding used old_room
  open_gap_kept le lt c =
      let whole : take used old_room ≡ old_room =
        take_all used old_room (omega (arith, length-old_room)) in
      let n : used - newlen ≡ bp.gap + length d - newlen = omega arith in
      (
        bp.text.str,
        old_room,
        kept bp (length d) newlen le lt c,
        layout,
        ap (drop newlen) (sym whole) ∙ drop-used bp.gap newlen d ∙ ap zeros n,
        omega (arith, length-old_room),
      )

  open_gap_narrowed_clear :
      newlen ≤ bp.gap + length d
      → max_gap + newlen < bp.gap + length d
      → max bp.gap newlen < max_gap + newlen
      → Clean max_gap
  unfolding used old_room
  open_gap_narrowed_clear le lt c =
      let all = newlen + max_gap in
      let n = all - used in
      let short = take all old_room in
      let (s1, p, t1) =
        astr_remove_lem bp.text.str (pre ++ short) (drop all old_room) post (layout_cut all) in
      let t1' : s1.text ≡ (pre ++ take used short) ++ (drop used short ++ post) =
        t1
        ∙ append_assoc pre short post
        ∙ ap (pre ++◌) (
            ap (◌++ post) (sym (take-append-drop used short))
            ∙ append_assoc (take used short) (drop used short) post)
        ∙ sym (append_assoc pre (take used short) (drop used short ++ post)) in
      let (s2, q, t2) = astr_set_lem s1 (pre ++ take used short) (drop used short) post t1' 0 in
      let m : length (drop used short) ≡ n =
        omega (arith, length-drop used short, length-take all old_room, length-old_room) in
      let same : take used short ≡ take used old_room = take-take used all old_room (omega arith) in
      (
        s2,
        take used old_room ++ zeros n,
        narrowed_clear bp (length d) newlen s1 s2 le lt c
            (astr_remove_at bp.text.str _ _ _ _ (some s1)
              (omega (arith, length-cut all (omega arith)))
              (omega (arith, length-drop all old_room, length-old_room)) p)
            (astr_set_at s1 _ _ _ _ (some s2)
              (omega (arith, ap length (ap (pre ++◌) same), length-cut used (omega arith)))
              (omega (arith, m)) q),
        t2
            ∙ rw (m, same)
                (append_assoc pre (take used old_room) (zeros n ++ post)
                  ∙ ap (pre ++◌) (sym (append_assoc (take used old_room) (zeros n) post))),
        drop-used-zeros bp.gap newlen n max_gap d (omega arith) (omega arith),
        omega (
          arith,
          length-append (take used old_room) (zeros n),
          length-take used old_room,
          length-old_room,
          length-zeros n,
        ),
      )

  open_gap_narrowed :
      newlen ≤ bp.gap + length d
      → max_gap + newlen < bp.gap + length d
      → max_gap + newlen ≤ max bp.gap newlen
      → Clean max_gap
  unfolding old_room
  open_gap_narrowed le lt c =
      let all = newlen + max_gap in
      let (s1, p, t1) =
        astr_remove_lem bp.text.str (pre ++ take all old_room) (drop all old_room) post
          (layout_cut all) in
      let e : take all (zeros bp.gap ++ d) ≡ zeros all =
        let none_left : all - length (zeros bp.gap) ≡ 0 = omega (arith, length-zeros bp.gap) in
        let m : min all bp.gap ≡ all = omega arith in
        rw (take-append all (zeros bp.gap) d, none_left, take-zeros all bp.gap, m)
          (append-nil (zeros all)) in
      let left : newlen + max_gap - newlen ≡ max_gap = omega arith in
      (
        s1,
        take all old_room,
        narrowed bp (length d) newlen s1 le lt c (
            astr_remove_at bp.text.str _ _ _ _ (some s1)
              (omega (arith, length-cut all (omega arith)))
              (omega (arith, length-drop all old_room, length-old_room)) p),
        t1 ∙ append_assoc pre (take all old_room) post,
        ap (drop newlen) e ∙ drop-zeros newlen all ∙ ap zeros left,
        omega (arith, length-take all old_room, length-old_room),
      )

  open_gap_fits : newlen ≤ bp.gap + length d → (gap : ℕ) × Clean gap
  open_gap_fits le = elim (Bool-cases (ltb (max_gap + newlen) (bp.gap + length d))) [
    | inl p ↦ elim (Bool-cases (ltb (max bp.gap newlen) (max_gap + newlen))) [
      | inl q ↦ (max_gap, open_gap_narrowed_clear le (ltb→lt _ _ p) (ltb→lt _ _ q))
      | inr q ↦ (max_gap, open_gap_narrowed le (ltb→lt _ _ p) (ltb→le _ _ q))
    ]
    | inr p ↦ elim (Bool-cases (ltb (max bp.gap newlen) (bp.gap + length d))) [
      | inl q ↦ (bp.gap + length d - newlen, open_gap_kept_clear le (ltb→le _ _ p) (ltb→lt _ _ q))
      | inr q ↦ (bp.gap + length d - newlen, open_gap_kept le (ltb→le _ _ p) (ltb→le _ _ q))
    ]
  ]

OpensTo-eq :
    (bp : Buffer) (del newlen gap : ℕ) (pre x y post : List ℕ)
    → x ≡ y
    → OpensTo bp del newlen pre gap x post
    → OpensTo bp del newlen pre gap y post
OpensTo-eq bp del newlen gap pre x y post e h = rw (← e) h

-- An insertion always finds a cleared gap behind its bytes, and so does a replacement that the
-- old gap and the deleted bytes have room for.
pub open_gap_lem :
    (bp : Buffer) (pre d post : List ℕ) (newlen : ℕ)
    → Shows bp pre (d ++ post)
    → (d ≡ []) ⊎ (newlen ≤ bp.gap + length d)
    → length pre + newlen + min_gap < size_mod
    → (gap : ℕ) × OpensTo bp (length d) newlen pre gap (zeros gap) post
open_gap_lem bp pre d post newlen h (inr le) small = open_gap_fits bp pre d post newlen h le
open_gap_lem bp pre d post newlen h (inl e) small =
    elim (Bool-cases (ltb (bp.gap + length d) newlen)) [
      | inr p ↦ open_gap_fits bp pre d post newlen h (ltb→le _ _ p)
      | inl p ↦
          let lt = ltb→lt (bp.gap + length d) newlen p in
          let n : length d ≡ 0 = ap length e in
          let z : zeros (min_gap - length d) ++ d ≡ zeros min_gap =
            ap (zeros (min_gap - length d) ++◌) e
            ∙ append-nil (zeros (min_gap - length d))
            ∙ ap zeros (let f : min_gap - length d ≡ min_gap = omega arith in f) in
          (
            min_gap,
            OpensTo-eq bp (length d) newlen min_gap pre
                (drop newlen
                  (zeros (newlen + min_gap - (bp.gap + length d)) ++ (zeros bp.gap ++ d)))
                (zeros min_gap) post (stale_gap bp.gap newlen d lt (omega arith) ∙ z)
                (unfold old_room in open_gap_wide bp pre d post newlen h lt small),
          )
    ]

-- A replacement without room in the old gap: the deleted bytes end up in the gap.
pub open_gap_stale :
    (bp : Buffer) (pre d post : List ℕ) (newlen : ℕ)
    → Shows bp pre (d ++ post)
    → bp.gap + length d < newlen
    → length d ≤ min_gap
    → length pre + newlen + min_gap < size_mod
    → OpensTo bp (length d) newlen pre min_gap (zeros (min_gap - length d) ++ d) post
open_gap_stale bp pre d post newlen h lt le small =
    OpensTo-eq bp (length d) newlen min_gap pre
      (drop newlen (zeros (newlen + min_gap - (bp.gap + length d)) ++ (zeros bp.gap ++ d)))
      (zeros (min_gap - length d) ++ d) post (stale_gap bp.gap newlen d lt le)
      (unfold old_room in open_gap_wide bp pre d post newlen h lt small)
