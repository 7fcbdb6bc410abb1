-- ===== src/Move/LineEnds.antt =====
-- The end of the line (eolp of src/editfns.c) against the text that the buffer shows.
use zile.Prelude.{
  ℕ, zero, suc, ◌+◌, ◌-◌, ◌≤◌, ◌<◌, ◌≡◌, refl, sym, ap, ◌∙◌, List, [], ◌∷◌, ◌++◌, Option, none,
  some, Bool, true, false, ◌==◌, leb, arith, length, drop, zeros, length-append, length-zeros,
  append_assoc, drop_left, Bool-cases, Option-cases, inl, inr, leb→le, some_inj, none≢some,
  if-eq-some, ≢→==,
}
use mathlib.Core.Option
use zile.Memmem.{is_prefix, memmem, memrmem, memrmem_loop}
use zile.Astr.{size_max}
use zile.Estr.{Eol, lf, crlf, cr, eol_bytes, Estr, estr_start_of_line, estr_end_of_line}
use zile.Buffer.{
  get_buffer_size, Buffer, bytes, realo_to_o, o_to_realo, get_buffer_line_o, buffer_line_len,
}
use zile.Buffer.Gap.{Shows}
use zile.Move.{eolp}
use zile.Move.Goto.{length-bytes}

memrmem_loop-le : (i : ℕ) (s t : List ℕ) (k : ℕ) → memrmem_loop i s t ≡ some k → k ≤ i
unfolding memrmem_loop
memrmem_loop-le zero s t k h = ground arith
memrmem_loop-le (suc i) s t k h =
    if-eq-some (is_prefix t (drop (suc i) s)) (some (suc i)) (memrmem_loop i s t) h
      (λ p e. omega (arith, some_inj e)) (λ p e. omega (arith, memrmem_loop-le i s t k e))

memrmem-le : (s t : List ℕ) (n k : ℕ) → memrmem s n t ≡ some k → k + length t ≤ n
unfolding memrmem
memrmem-le s t n k h =
    if-eq-some (leb (length t) n) (memrmem_loop (n - length t) s t) none h
      (λ p e. omega (arith, leb→le (length t) n p, memrmem_loop-le (n - length t) s t k e))
      (λ p e. absurd (none≢some e))

estr_start_of_line-le : (es : Estr) (o : ℕ) → estr_start_of_line es o ≤ o
unfolding estr_start_of_line
estr_start_of_line-le es o = elim (Option-cases (memrmem es.str.text o (eol_bytes es.eol))) [
  | inl p ↦ rw (p, estr_start_of_line) (omega arith)
  | inr (k, p) ↦ rw (p, estr_start_of_line) (memrmem-le es.str.text (eol_bytes es.eol) o k p)
]

-- Where the first line of a text ends.
abbrev pub line_end : Eol → List ℕ → ℕ
line_end eol post = elim (memmem post (eol_bytes eol)) [ some next ↦ next | none ↦ length post ]

-- Whether the text begins with the end of its line.
abbrev pub ends_here : Eol → List ℕ → Bool
ends_here eol [] = true
ends_here eol (c ∷ s) = is_prefix (eol_bytes eol) (c ∷ s)

line_end-some :
    (eol : Eol) (post : List ℕ) (k : ℕ)
    → memmem post (eol_bytes eol) ≡ some k
    → line_end eol post ≡ k
line_end-some eol post k p = rw (p, line_end) refl

line_end-none :
    (eol : Eol) (post : List ℕ)
    → memmem post (eol_bytes eol) ≡ none
    → line_end eol post ≡ length post
line_end-none eol post p = rw (p, line_end) refl

estr_end_some :
    (es : Estr) (o k : ℕ)
    → memmem (drop o es.str.text) (eol_bytes es.eol) ≡ some k
    → estr_end_of_line es o ≡ o + k
unfolding estr_end_of_line
estr_end_some es o k p = rw (p, estr_end_of_line) refl

estr_end_none :
    (es : Estr) (o : ℕ)
    → memmem (drop o es.str.text) (eol_bytes es.eol) ≡ none
    → estr_end_of_line es o ≡ length es.str.text
unfolding estr_end_of_line
estr_end_none es o p = rw (p, estr_end_of_line) refl

memmem_here : (t s : List ℕ) (c : ℕ) → is_prefix t (c ∷ s) ≡ true → memmem (c ∷ s) t ≡ some 0
unfolding memmem
memmem_here t s c p = rw (p, memmem) refl

memmem_on :
    (t s : List ℕ) (c : ℕ)
    → is_prefix t (c ∷ s) ≡ false
    → memmem (c ∷ s) t ≡ Option.map suc (memmem s t)
unfolding memmem
memmem_on t s c p = rw (p, memmem) refl

line_end-ends_here : (eol : Eol) (post : List ℕ) → (line_end eol post == 0) ≡ ends_here eol post
unfolding memmem
line_end-ends_here lf [] = refl
line_end-ends_here crlf [] = refl
line_end-ends_here cr [] = refl
line_end-ends_here eol (c ∷ s) = elim (Bool-cases (is_prefix (eol_bytes eol) (c ∷ s))) [
  | inl p ↦
      ap (λ n. n == 0) (line_end-some eol (c ∷ s) 0 (memmem_here (eol_bytes eol) s c p)) ∙ sym p
  | inr p ↦ elim (Option-cases (memmem s (eol_bytes eol))) [
    | inl q ↦
        ap (λ n. n == 0)
          (line_end-none eol (c ∷ s) (memmem_on (eol_bytes eol) s c p ∙ ap (Option.map suc) q))
        ∙ ≢→== (length (c ∷ s)) 0 (λ e. omega arith)
        ∙ sym p
    | inr (k, q) ↦
        ap (λ n. n == 0)
          (line_end-some eol (c ∷ s) (suc k)
            (memmem_on (eol_bytes eol) s c p ∙ ap (Option.map suc) q))
        ∙ ≢→== (suc k) 0 (λ e. omega arith)
        ∙ sym p
  ]
]

memmem-le : (s t : List ℕ) (k : ℕ) → memmem s t ≡ some k → k ≤ length s
unfolding memmem
memmem-le [] t k h = ground arith
memmem-le (c ∷ s) t k h =
    if-eq-some (is_prefix t (c ∷ s)) (some 0) (Option.map suc (memmem s t)) h
      (λ p e. omega (arith, some_inj e))
      (λ p e. elim (Option-cases (memmem s t)) [
        | inl q ↦ absurd (none≢some (rw q at e))
        | inr (j, q) ↦
            let next : suc j ≡ k = some_inj (rw q at e) in omega (arith, memmem-le s t j q)
      ])

minus_start : (a s k : ℕ) → s ≤ a → ((a - s) == ((a + k) - s)) ≡ (k == 0)
minus_start a s k le = ground arith

module _ (bp : Buffer) (pre post : List ℕ) (h : Shows bp pre post)
    (small : length (bytes bp) < size_max) where
  after_gap : drop (bp.pt + bp.gap) (bytes bp) ≡ post
  after_gap =
      ap (drop (bp.pt + bp.gap)) (h.layout ∙ sym (append_assoc pre (zeros bp.gap) post))
      ∙ drop_left (bp.pt + bp.gap) (pre ++ zeros bp.gap) post
          (omega (arith, h.at_pt, length-append pre (zeros bp.gap), length-zeros bp.gap))

  real_point : o_to_realo bp bp.pt ≡ bp.pt + bp.gap
  unfolding o_to_realo
  real_point = ground arith

  realo_to_o-behind : (n : ℕ) → n ≤ length post → realo_to_o bp (bp.pt + bp.gap + n) ≡ bp.pt + n
  unfolding realo_to_o
  realo_to_o-behind n le = ground (arith, length-bytes bp pre post h, h.at_pt)

  realo_to_o-before : (o : ℕ) → o ≤ bp.pt + bp.gap → realo_to_o bp o ≤ bp.pt
  unfolding realo_to_o
  realo_to_o-before o le = ground (arith, length-bytes bp pre post h, h.at_pt)

  memmem_post :
      (r : Option ℕ)
      → memmem post (eol_bytes bp.text.eol) ≡ r
      → memmem (drop (o_to_realo bp bp.pt) (bytes bp)) (eol_bytes bp.text.eol) ≡ r
  memmem_post r p =
      ap (λ o. memmem (drop o (bytes bp)) (eol_bytes bp.text.eol)) real_point
      ∙ ap (λ s. memmem s (eol_bytes bp.text.eol)) after_gap
      ∙ p

  estr_end_of_line_at :
      estr_end_of_line bp.text (o_to_realo bp bp.pt) ≡ bp.pt + bp.gap + line_end bp.text.eol post
  estr_end_of_line_at = elim (Option-cases (memmem post (eol_bytes bp.text.eol))) [
    | inl p ↦
        estr_end_none bp.text (o_to_realo bp bp.pt) (memmem_post none p)
        ∙ omega (arith, length-bytes bp pre post h, h.at_pt, line_end-none bp.text.eol post p)
    | inr (k, p) ↦
        estr_end_some bp.text (o_to_realo bp bp.pt) k (memmem_post (some k) p)
        ∙ omega (arith, real_point, line_end-some bp.text.eol post k p)
  ]

  line_end-le : line_end bp.text.eol post ≤ length post
  line_end-le = elim (Option-cases (memmem post (eol_bytes bp.text.eol))) [
    | inl p ↦ omega (arith, line_end-none bp.text.eol post p)
    | inr (k, p) ↦
        omega
          (arith, line_end-some bp.text.eol post k p, memmem-le post (eol_bytes bp.text.eol) k p)
  ]

  -- In a text below the machine's size, `eolp`, which computes through the gap, holds just when the
  -- text behind the point is empty or begins with the buffer's end of line.
  pub eolp_lem : eolp bp ≡ ends_here bp.text.eol post
  unfolding eolp buffer_line_len get_buffer_line_o
  eolp_lem =
      let start = realo_to_o bp (estr_start_of_line bp.text (o_to_realo bp bp.pt)) in
      let le : start ≤ bp.pt =
        realo_to_o-before (estr_start_of_line bp.text (o_to_realo bp bp.pt))
          (omega (arith, estr_start_of_line-le bp.text (o_to_realo bp bp.pt), real_point)) in
      let end =
        ap (realo_to_o bp) estr_end_of_line_at
        ∙ realo_to_o-behind (line_end bp.text.eol post) line_end-le in
      ap (λ n. (bp.pt - start) == (n - start)) end
      ∙ minus_start bp.pt start (line_end bp.text.eol post) le
      ∙ line_end-ends_here bp.text.eol post

  pub get_buffer_size_lem : get_buffer_size bp ≡ bp.pt + length post
  unfolding get_buffer_size
  get_buffer_size_lem =
      let at : length (bytes bp) ≡ bp.pt + bp.gap + length post =
        omega (arith, length-bytes bp pre post h, h.at_pt) in
      ap (realo_to_o bp) at ∙ realo_to_o-behind (length post) (omega arith)
