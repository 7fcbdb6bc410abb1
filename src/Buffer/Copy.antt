-- ===== src/Buffer/Copy.antt =====
-- `get_buffer_region` (src/buffer.c): a copy of a part of the text, taken around the gap.
use zile.Prelude.{
  ℕ, ◌+◌, ◌-◌, ◌≤◌, ◌<◌, ◌≡◌, refl, sym, ap, ap₂, ◌∙◌, min, max, List, [], ◌++◌, some, arith,
  length, take, drop, zeros, length-zeros, length-append, length-drop, append_assoc, append-nil,
  take_left, drop_left, take_all, drop_all, take-append, drop-append, lt→ltb, le→ltb, ltb,
  Bool-cases, inl, inr, ltb→lt, ltb→le, le→leb,
}
use zile.Astr.{Astr, astr_new, astr_cat, astr_cat_nstr, astr_substr}
use zile.Astr.Laws.{Yields, text-astr_cat_nstr}
use zile.Estr.{Estr}
use zile.Buffer.{Buffer, get_buffer_pre_point, get_buffer_post_point, get_buffer_region}
use zile.Buffer.Gap.{Shows}

-- Bytes `s` to `e` of a text.
abbrev pub slice : ℕ → ℕ → List ℕ → List ℕ
slice s e shown = take (e - s) (drop s shown)

abbrev before : List ℕ → ℕ → ℕ → List ℕ
before pre s e = take (min e (length pre) - s) (drop s pre)

abbrev after : List ℕ → List ℕ → ℕ → ℕ → List ℕ
after pre post s e = take (e - max s (length pre)) (drop (max s (length pre) - length pre) post)

-- What is taken on each side of the point.
module _ (pre post : List ℕ) (s e : ℕ) (le : s ≤ e) where
  slice_parts :
      slice s e (pre ++ post)
      ≡ take (e - s) (drop s pre) ++ take (e - s - (length pre - s)) (drop (s - length pre) post)
  slice_parts =
      let l : e - s - length (drop s pre) ≡ e - s - (length pre - s) =
        omega (arith, length-drop s pre) in
      rw (drop-append s pre post)
        (take-append (e - s) (drop s pre) (drop (s - length pre) post) ∙ rw l)

  slice_both :
      s < length pre
      → length pre < e
      → before pre s e ++ after pre post s e ≡ slice s e (pre ++ post)
  slice_both p q =
      let i : min e (length pre) - s ≡ length pre - s = omega arith in
      let j : max s (length pre) ≡ length pre = omega arith in
      let k : e - s - (length pre - s) ≡ e - length pre = omega arith in
      let z : length pre - length pre ≡ s - length pre = omega arith in
      rw (
        slice_parts,
        i,
        j,
        k,
        z,
        take_all (length pre - s) (drop s pre) (omega (arith, length-drop s pre)),
        take_all (e - s) (drop s pre) (omega (arith, length-drop s pre)),
      )

  slice-before : e ≤ length pre → before pre s e ≡ slice s e (pre ++ post)
  slice-before p =
      let i : min e (length pre) - s ≡ e - s = omega arith in
      let k : e - s - (length pre - s) ≡ 0 = omega arith in
      rw (slice_parts, i, k) (sym (append-nil (take (e - s) (drop s pre))))

  slice-after : length pre ≤ s → after pre post s e ≡ slice s e (pre ++ post)
  slice-after p =
      let j : max s (length pre) ≡ s = omega arith in
      let k : e - s - (length pre - s) ≡ e - s = omega arith in
      let none_left : take (e - s) (drop s pre) ≡ [] =
        rw (drop_all s pre p) (take_all (e - s) [] (omega arith)) in
      rw (slice_parts, j, k, none_left)

astr_substr_lem :
    (s : Astr) (pos size : ℕ)
    → pos + size ≤ length s.text
    → Yields (astr_substr s pos size) (take size (drop pos s.text))
unfolding astr_substr astr_new
astr_substr_lem s pos size le = (
  astr_cat_nstr astr_new (take size (drop pos s.text)),
  rw (le→leb (pos + size) (length s.text) le),
  text-astr_cat_nstr astr_new (take size (drop pos s.text)),
)

module _ (bp : Buffer) (pre post : List ℕ) (h : Shows bp pre post) where
  pub text-get_buffer_pre_point : (get_buffer_pre_point bp).text ≡ pre
  unfolding get_buffer_pre_point
  text-get_buffer_pre_point = rw h.layout (take_left bp.pt pre (zeros bp.gap ++ post) h.at_pt)

  pub text-get_buffer_post_point : (get_buffer_post_point bp).text ≡ post
  unfolding get_buffer_post_point
  text-get_buffer_post_point =
      rw (h.layout, ← append_assoc pre (zeros bp.gap) post)
        (drop_left (bp.pt + bp.gap) (pre ++ zeros bp.gap) post
          (omega (arith, length-append pre (zeros bp.gap), length-zeros bp.gap, h.at_pt)))

  -- The part `bytes'` of the text, as a string with the buffer's end-of-line type.
  abbrev Copies : ℕ → ℕ → List ℕ → Type 0
  Copies s e bytes' =
      (es : Estr) × (get_buffer_region bp (record { start = s; end = e }) ≡ some es)
      × (es.str.text ≡ bytes')
      × (es.eol ≡ bp.text.eol)

  abbrev estr_of : Astr → Estr
  estr_of s = record { str = s; eol = bp.text.eol }

  text-astr_cat : (x y : Astr) → (astr_cat x y).text ≡ x.text ++ y.text
  unfolding astr_cat
  text-astr_cat x y = text-astr_cat_nstr x y.text

  text-new_cat : (x : Astr) → (astr_cat astr_new x).text ≡ x.text
  unfolding astr_new
  text-new_cat x = text-astr_cat astr_new x

  module _ (s e : ℕ) (le : s ≤ e) (inside : e ≤ length (pre ++ post)) where
    abbrev Before : Type 0
    Before = Yields (astr_substr (get_buffer_pre_point bp) s (min e bp.pt - s)) (before pre s e)

    abbrev After : Type 0
    After =
        Yields (astr_substr (get_buffer_post_point bp) (max s bp.pt - bp.pt) (e - max s bp.pt))
          (after pre post s e)

    copy_before : s < bp.pt → Before
    copy_before lt =
        rw (← h.at_pt, ← text-get_buffer_pre_point)
          (astr_substr_lem (get_buffer_pre_point bp) s (min e bp.pt - s)
            (omega (arith, ap length text-get_buffer_pre_point, h.at_pt)))

    copy_after : bp.pt < e → After
    copy_after lt =
        rw (← text-get_buffer_post_point, ← h.at_pt)
          (astr_substr_lem (get_buffer_post_point bp) (max s bp.pt - bp.pt) (e - max s bp.pt)
            (omega (arith, ap length text-get_buffer_post_point, h.at_pt, length-append pre post)))

    Copies-both : s < bp.pt → bp.pt < e → Before → After → Copies s e (slice s e (pre ++ post))
    unfolding get_buffer_region
    Copies-both p q (x, px, tx) (y, py, ty) = (
      estr_of (astr_cat (astr_cat astr_new x) y),
      rw (lt→ltb s bp.pt p, lt→ltb bp.pt e q, px, py),
      text-astr_cat (astr_cat astr_new x) y
          ∙ ap₂ (λ u v. u ++ v) (text-new_cat x ∙ tx) ty
          ∙ slice_both pre post s e le (omega (arith, h.at_pt)) (omega (arith, h.at_pt)),
      refl,
    )

    Copies-before : s < bp.pt → e ≤ bp.pt → Before → Copies s e (slice s e (pre ++ post))
    unfolding get_buffer_region
    Copies-before p q (x, px, tx) = (
      estr_of (astr_cat astr_new x),
      rw (lt→ltb s bp.pt p, le→ltb bp.pt e q, px),
      text-new_cat x ∙ tx ∙ slice-before pre post s e le (omega (arith, h.at_pt)),
      refl,
    )

    Copies-after : bp.pt ≤ s → bp.pt < e → After → Copies s e (slice s e (pre ++ post))
    unfolding get_buffer_region
    Copies-after p q (y, py, ty) = (
      estr_of (astr_cat astr_new y),
      rw (le→ltb s bp.pt p, lt→ltb bp.pt e q, py),
      text-new_cat y ∙ ty ∙ slice-after pre post s e le (omega (arith, h.at_pt)),
      refl,
    )

    Copies-none : bp.pt ≤ s → e ≤ bp.pt → Copies s e (slice s e (pre ++ post))
    unfolding get_buffer_region astr_new
    Copies-none p q =
        let empty : e - s ≡ 0 = omega arith in
        (estr_of astr_new, rw (le→ltb s bp.pt p, le→ltb bp.pt e q), rw empty, refl)

    -- `get_buffer_region` copies a region of the text as it is shown, wherever the gap lies.
    pub get_buffer_region_lem : Copies s e (slice s e (pre ++ post))
    get_buffer_region_lem = elim (Bool-cases (ltb s bp.pt)) [
      | inl p ↦ elim (Bool-cases (ltb bp.pt e)) [
        | inl q ↦
            Copies-both (ltb→lt _ _ p) (ltb→lt _ _ q) (copy_before (ltb→lt _ _ p))
              (copy_after (ltb→lt _ _ q))
        | inr q ↦ Copies-before (ltb→lt _ _ p) (ltb→le _ _ q) (copy_before (ltb→lt _ _ p))
      ]
      | inr p ↦ elim (Bool-cases (ltb bp.pt e)) [
        | inl q ↦ Copies-after (ltb→le _ _ p) (ltb→lt _ _ q) (copy_after (ltb→lt _ _ q))
        | inr q ↦ Copies-none (ltb→le _ _ p) (ltb→le _ _ q)
      ]
    ]
