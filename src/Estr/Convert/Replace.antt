-- ===== src/Estr/Convert/Replace.antt =====
-- `estr_replace_estr`, `estr_lines`, `estr_len` and `estr_cat` (src/estr.c, src/estr.h) against
-- the scan `convert`.
use zile.Prelude.{
  ℕ, zero, suc, ◌+◌, ◌-◌, ◌*◌, ◌%◌, ◌≤◌, ◌<◌, ◌≡◌, refl, sym, ap, ◌∙◌, List, [], ◌∷◌, ◌++◌, none,
  some, length, take, drop, arith, Option-cases, inl, inr, length-append, append_assoc, append-nil,
  length-take, length-drop, take-append-drop, zeros, length-zeros,
}
use zile.Memmem.{memmem}
use zile.Astr.{Astr, size_mod, astr_replace_nstr}
use zile.Astr.Laws.{Yields, astr_replace_nstr_lem, astr_insert_lem}
use zile.Estr.{
  Eol, lf, crlf, cr, eol_bytes, eol_len, Estr, lines_loop, estr_lines, estr_len, replace_loop,
  estr_replace_estr, estr_cat,
}
use zile.Estr.Convert.{convert, convert-none, convert_some, rest_shorter}

zero-add : (n : ℕ) → 0 + n ≡ n
zero-add n = omega arith

add_one_left : (n k : ℕ) → n + 1 + k ≡ n + suc k
add_one_left n k = omega arith

replace_loop-some :
    (f : ℕ) (e d : Eol) (dst : Astr) (pos : ℕ) (c : ℕ) (s : List ℕ) (i : ℕ)
    → memmem (c ∷ s) (eol_bytes e) ≡ some i
    → (dst1 dst2 : Astr) → astr_replace_nstr dst pos (take i (c ∷ s)) ≡ some dst1
    → astr_replace_nstr dst1 (pos + i) (eol_bytes d) ≡ some dst2
    → replace_loop (suc f) e d dst pos (c ∷ s)
      ≡ replace_loop f e d dst2 (pos + i + eol_len d) (drop (i + eol_len e) (c ∷ s))
unfolding replace_loop
replace_loop-some f e d dst pos c s i h dst1 dst2 p q = rw (h, replace_loop, p, q)

replace_loop-none :
    (f : ℕ) (e d : Eol) (dst : Astr) (pos : ℕ) (c : ℕ) (s : List ℕ)
    → memmem (c ∷ s) (eol_bytes e) ≡ none
    → (dst1 : Astr) → astr_replace_nstr dst pos (c ∷ s) ≡ some dst1
    → replace_loop (suc (suc f)) e d dst pos (c ∷ s) ≡ some dst1
unfolding replace_loop
replace_loop-none f e d dst pos c s h dst1 p = rw (h, replace_loop, p)

-- `m` in two parts, within a text.
cut_middle : (n : ℕ) (a m b : List ℕ) → a ++ (m ++ b) ≡ a ++ (take n m ++ (drop n m ++ b))
cut_middle n a m b =
    ap (a ++◌) (ap (◌++ b) (sym (take-append-drop n m)) ∙ append_assoc (take n m) (drop n m) b)

-- The bytes written by a round that finds an end of line and by the rounds after it.
module _ (e d : Eol) (dst : Astr) (pos : ℕ) (a m b t v : List ℕ) (i : ℕ) where
  abbrev After : Type 0
  After =
      (dst1 : Astr) × (dst2 : Astr) × (astr_replace_nstr dst pos t ≡ some dst1)
      × (astr_replace_nstr dst1 (pos + i) (eol_bytes d) ≡ some dst2)
      × (dst2.text ≡ ((a ++ t) ++ eol_bytes d) ++ (drop (eol_len d) (drop i m) ++ b))

  round :
      dst.text ≡ a ++ (m ++ b)
      → pos ≡ length a
      → length t ≡ i
      → length m ≡ length (t ++ (eol_bytes d ++ v))
      → After
  round h p li lm =
      let total : length m ≡ i + (eol_len d + length v) =
        omega (arith, length-append t (eol_bytes d ++ v), length-append (eol_bytes d) v) in
      let (dst1, p1, t1) =
        astr_replace_nstr_lem dst a (take i m) (drop i m ++ b) (h ∙ cut_middle i a m b) t
          (omega (arith, length-take i m)) in
      let (dst2, p2, t2) =
        astr_replace_nstr_lem dst1 (a ++ t) (take (eol_len d) (drop i m))
          (drop (eol_len d) (drop i m) ++ b)
          (t1
            ∙ sym (append_assoc a t (drop i m ++ b))
            ∙ cut_middle (eol_len d) (a ++ t) (drop i m) b)
          (eol_bytes d) (omega (arith, length-take (eol_len d) (drop i m), length-drop i m)) in
      let at : pos + i ≡ length (a ++ t) = omega (arith, length-append a t) in
      (
        dst1,
        dst2,
        rw p p1,
        rw at p2,
        t2 ∙ sym (append_assoc (a ++ t) (eol_bytes d) (drop (eol_len d) (drop i m) ++ b)),
      )

  regroup : ((a ++ t) ++ eol_bytes d) ++ (v ++ b) ≡ a ++ ((t ++ (eol_bytes d ++ v)) ++ b)
  regroup =
      append_assoc (a ++ t) (eol_bytes d) (v ++ b)
      ∙ append_assoc a t (eol_bytes d ++ (v ++ b))
      ∙ ap (λ u. a ++ (t ++ u)) (sym (append_assoc (eol_bytes d) v b))
      ∙ ap (a ++◌) (sym (append_assoc t (eol_bytes d ++ v) b))

replace_loop_lem :
    (fuel : ℕ) (e d : Eol) (s : List ℕ) (dst : Astr) (pos : ℕ) (a m b : List ℕ)
    → length s < fuel
    → dst.text ≡ a ++ (m ++ b)
    → pos ≡ length a
    → length m ≡ length (convert e d 0 s)
    → Yields (replace_loop fuel e d dst pos s) (a ++ (convert e d 0 s ++ b))
unfolding convert replace_loop
replace_loop_lem zero e d s dst pos a m b lt h p k = absurd (omega arith)
replace_loop_lem (suc f) e d [] dst pos a [] b lt h p k = (dst, refl, h)
replace_loop_lem (suc f) e d [] dst pos a (x ∷ m) b lt h p k = absurd (omega arith)
replace_loop_lem (suc zero) e d (c ∷ s) dst pos a m b lt h p k = absurd (omega arith)
replace_loop_lem (suc (suc f)) e d (c ∷ s) dst pos a m b lt h p k =
    elim (Option-cases (memmem (c ∷ s) (eol_bytes e))) [
      | inl q ↦
          let same = convert-none e d (c ∷ s) q in
          let (dst1, p1, t1) =
            astr_replace_nstr_lem dst a m b h (c ∷ s) (omega (arith, k, ap length same)) in
          (
            dst1,
            replace_loop-none f e d dst pos c s q dst1 (rw p p1),
            t1 ∙ ap (λ u. a ++ (u ++ b)) (sym same),
          )
      | inr (i, q) ↦
          let t = take i (c ∷ s) in
          let v = convert e d 0 (drop (i + eol_len e) (c ∷ s)) in
          let (conv, parts) = convert_some e d (c ∷ s) i q in
          let (l, li, lpos) = rest_shorter e (c ∷ s) i parts in
          let (dst1, dst2, p1, p2, t2) =
            round e d dst pos a m b t v i h p li (k ∙ ap length conv) in
          let (dst3, p3, t3) =
            replace_loop_lem (suc f) e d (drop (i + eol_len e) (c ∷ s)) dst2 (pos + i + eol_len d)
              ((a ++ t) ++ eol_bytes d) (drop (eol_len d) (drop i m)) b (omega arith) t2
              (omega (arith, length-append (a ++ t) (eol_bytes d), length-append a t))
              (omega (
                arith,
                length-drop i m,
                length-drop (eol_len d) (drop i m),
                ap length conv,
                length-append t (eol_bytes d ++ v),
                length-append (eol_bytes d) v,
              )) in
          (
            dst3,
            replace_loop-some (suc f) e d dst pos c s i q dst1 dst2 p1 p2 ∙ p3,
            t3 ∙ regroup e d dst pos a m b t v i ∙ ap (λ u. a ++ (u ++ b)) (sym conv),
          )
    ]

-- Replacing the middle part of a string by the converted source, which fits it exactly.
pub estr_replace_estr_lem :
    (es src : Estr) (a m b : List ℕ)
    → es.str.text ≡ a ++ (m ++ b)
    → length m ≡ length (convert src.eol es.eol 0 src.str.text)
    → (es' : Estr) × (estr_replace_estr es (length a) src ≡ some es')
      × (es'.str.text ≡ a ++ (convert src.eol es.eol 0 src.str.text ++ b))
      × (es'.eol ≡ es.eol)
unfolding estr_replace_estr
estr_replace_estr_lem es src a m b h k =
    let (str', p, t) =
      replace_loop_lem (suc (length src.str.text) + 1) src.eol es.eol src.str.text es.str (length a)
        a m b (omega arith) h refl k in
    (record es { str = str' }, rw p, t, refl)

-- The number of ends of line that the loop of `estr_lines` counts, and how a conversion changes
-- the length.
lines_loop_lem :
    (fuel : ℕ) (e d : Eol) (s : List ℕ)
    → length s < fuel
    → (k : ℕ) × ((n : ℕ) → lines_loop fuel e s n ≡ n + k)
      × (length (convert e d 0 s) + k * eol_len e ≡ length s + k * eol_len d)
      × (k * eol_len e ≤ length s)
unfolding lines_loop
lines_loop_lem zero e d s lt = absurd (omega arith)
lines_loop_lem (suc f) e d s lt = elim (Option-cases (memmem s (eol_bytes e))) [
  | inl q ↦ (
    0,
    λ n. rw (q, lines_loop) (omega arith),
    omega (arith, ap length (convert-none e d s q)),
    omega arith,
  )
  | inr (i, q) ↦
      let (conv, parts) = convert_some e d s i q in
      let (l, li, lpos) = rest_shorter e s i parts in
      let v = convert e d 0 (drop (i + eol_len e) s) in
      let (k, ks, kl, kb) = lines_loop_lem f e d (drop (i + eol_len e) s) (omega arith) in
      (
        suc k,
        λ n. rw (q, lines_loop) (ks (n + 1) ∙ add_one_left n k),
        omega (
          arith,
          ap length conv,
          length-append (take i s) (eol_bytes d ++ v),
          length-append (eol_bytes d) v,
        ),
        omega arith,
      )
]

wrapped_len :
    (e d : Eol) (k len new : ℕ)
    → new + k * eol_len e ≡ len + k * eol_len d
    → k * eol_len e ≤ len
    → len < size_mod
    → new < size_mod
    → (len + k * ((eol_len d + size_mod - eol_len e) % size_mod)) % size_mod ≡ new
wrapped_len lf lf k len new h le lt lt' = omega arith
wrapped_len lf crlf k len new h le lt lt' = omega arith
wrapped_len lf cr k len new h le lt lt' = omega arith
wrapped_len crlf lf k len new h le lt lt' = omega arith
wrapped_len crlf crlf k len new h le lt lt' = omega arith
wrapped_len crlf cr k len new h le lt lt' = omega arith
wrapped_len cr lf k len new h le lt lt' = omega arith
wrapped_len cr crlf k len new h le lt lt' = omega arith
wrapped_len cr cr k len new h le lt lt' = omega arith

-- `estr_len` is the length of the converted text, though its arithmetic wraps on the way, when both
-- texts are shorter than the machine's size.
pub estr_len_lem :
    (es : Estr) (d : Eol)
    → length es.str.text < size_mod
    → length (convert es.eol d 0 es.str.text) < size_mod
    → estr_len es d ≡ length (convert es.eol d 0 es.str.text)
unfolding estr_len estr_lines
estr_len_lem es d lt lt' =
    let (k, ks, kl, kb) =
      lines_loop_lem (suc (length es.str.text)) es.eol d es.str.text (omega arith) in
    rw (ks 0, zero-add) (wrapped_len es.eol d k (length es.str.text) _ kl kb lt lt')

-- `estr_cat` succeeds and appends the source's text, its ends of line converted to the
-- destination's type, when the texts are shorter than the machine's size.
pub estr_cat_lem :
    (es src : Estr)
    → length src.str.text < size_mod
    → length es.str.text + length (convert src.eol es.eol 0 src.str.text) < size_mod
    → (es' : Estr) × (estr_cat es src ≡ some es')
      × (es'.str.text ≡ es.str.text ++ convert src.eol es.eol 0 src.str.text)
      × (es'.eol ≡ es.eol)
unfolding estr_cat
estr_cat_lem es src lt lt' =
    let v = convert src.eol es.eol 0 src.str.text in
    let n = estr_len_lem src es.eol lt (omega arith) in
    let (grown, p, t) =
      astr_insert_lem es.str es.str.text [] (length v) (sym (append-nil es.str.text)) lt' in
    let (es', q, u, w) =
      estr_replace_estr_lem (record es { str = grown }) src es.str.text (zeros (length v)) [] t
        (length-zeros (length v)) in
    (es', rw (n, p) q, u ∙ ap (es.str.text ++◌) (append-nil v), w)
