-- ===== src/Estr/Convert.antt =====
-- What `estr_replace_estr` (src/estr.c) writes, as a scan from left to right, and its laws.
pub mod Replace
use zile.Prelude.{
  ℕ, zero, suc, ◌+◌, ◌-◌, ◌*◌, ◌≤◌, ◌≡◌, refl, sym, ap, ◌∙◌, List, [], ◌∷◌, ◌++◌, Option, none,
  some, Bool, true, false, ◌&&◌, ◌==◌, if◌then◌else◌, length, take, drop, arith, Bool-cases,
  Option-cases, ==→≡, inl, inr, ◌≢◌, length-append, length-take, length-drop, ◌<◌,
}
use mathlib.Core.Option
use zile.Memmem.{is_prefix, memmem}
use zile.Estr.{Eol, lf, crlf, cr, eol_bytes, eol_len}

-- The first `skip` bytes are dropped; then each end of line of type `e` becomes one of type `d`.
unfoldable pub convert : Eol → Eol → ℕ → List ℕ → List ℕ
convert e d skip [] = []
convert e d (suc skip) (c ∷ s) = convert e d skip s
convert e d zero (c ∷ s) =
    let after_eol = convert e d (eol_len e - 1) s in
    let after_byte = convert e d zero s in
    if is_prefix (eol_bytes e) (c ∷ s) then eol_bytes d ++ after_eol else c ∷ after_byte

pub convert-drop :
    (e d : Eol) (skip : ℕ) (s : List ℕ) → convert e d skip s ≡ convert e d 0 (drop skip s)
unfolding convert
convert-drop e d zero [] = refl
convert-drop e d (suc skip) [] = refl
convert-drop e d zero (c ∷ s) = refl
convert-drop e d (suc skip) (c ∷ s) = convert-drop e d skip s

is_prefix-nil : (e : Eol) → is_prefix (eol_bytes e) [] ≡ false
unfolding is_prefix
is_prefix-nil lf = refl
is_prefix-nil crlf = refl
is_prefix-nil cr = refl

drop-cons_eol : (e : Eol) (c : ℕ) (s : List ℕ) → drop (eol_len e) (c ∷ s) ≡ drop (eol_len e - 1) s
drop-cons_eol lf c s = refl
drop-cons_eol crlf c s = refl
drop-cons_eol cr c s = refl

-- A prefix stands at the front.
pub prefix_split : (t s : List ℕ) → is_prefix t s ≡ true → s ≡ t ++ drop (length t) s
unfolding is_prefix
prefix_split [] s h = refl
prefix_split (x ∷ t) [] h = cc
prefix_split (x ∷ t) (y ∷ s) h = elim (Bool-cases (x == y)) [
  | inl p ↦ cc (==→≡ x y p, prefix_split t s (rw p at h))
  | inr p ↦ cc (rw p at h)
]

memmem-suc :
    (c : ℕ) (s t : List ℕ)
    → is_prefix t (c ∷ s) ≡ false
    → memmem (c ∷ s) t ≡ Option.map suc (memmem s t)
unfolding memmem
memmem-suc c s t h = rw h

memmem_zero : (c : ℕ) (s t : List ℕ) → is_prefix t (c ∷ s) ≡ true → memmem (c ∷ s) t ≡ some 0
unfolding memmem
memmem_zero c s t h = rw h

zero-add : (n : ℕ) → 0 + n ≡ n
zero-add n = omega arith

suc-add : (n m : ℕ) → suc n + m ≡ suc (n + m)
suc-add n m = omega arith

memmem_nil : (e : Eol) → memmem [] (eol_bytes e) ≡ none
unfolding memmem
memmem_nil e = rw (is_prefix-nil e)

-- A text without an end of line stays as it is.
pub convert-none : (e d : Eol) (s : List ℕ) → memmem s (eol_bytes e) ≡ none → convert e d 0 s ≡ s
unfolding convert
convert-none e d [] h = refl
convert-none e d (c ∷ s) h = elim (Bool-cases (is_prefix (eol_bytes e) (c ∷ s))) [
  | inl p ↦ cc (memmem_zero c s (eol_bytes e) p)
  | inr p ↦ elim (Option-cases (memmem s (eol_bytes e))) [
    | inl q ↦ rw p (ap (c ∷◌) (convert-none e d s q))
    | inr (i, q) ↦ cc (memmem-suc c s (eol_bytes e) p, ap (Option.map suc) q)
  ]
]

-- The first end of line, at index `i`, is the first to be converted.
abbrev FirstAt : Eol → Eol → List ℕ → ℕ → Type 0
FirstAt e d s i =
    (convert e d 0 s ≡ take i s ++ (eol_bytes d ++ convert e d 0 (drop (i + eol_len e) s)))
    × (s ≡ take i s ++ (eol_bytes e ++ drop (i + eol_len e) s))

FirstAt-zero :
    (e d : Eol) (c : ℕ) (s : List ℕ)
    → is_prefix (eol_bytes e) (c ∷ s) ≡ true
    → FirstAt e d (c ∷ s) 0
unfolding convert
FirstAt-zero e d c s p = (
  rw (p, zero-add, drop-cons_eol e c s) (ap (eol_bytes d ++◌) (convert-drop e d (eol_len e - 1) s)),
  rw zero-add (prefix_split (eol_bytes e) (c ∷ s) p),
)

FirstAt-suc :
    (e d : Eol) (c : ℕ) (s : List ℕ) (j : ℕ)
    → is_prefix (eol_bytes e) (c ∷ s) ≡ false
    → FirstAt e d s j
    → FirstAt e d (c ∷ s) (suc j)
unfolding convert
FirstAt-suc e d c s j p (h, k) = (rw (p, suc-add) (ap (c ∷◌) h), rw suc-add (ap (c ∷◌) k))

pub convert_some :
    (e d : Eol) (s : List ℕ) (i : ℕ) → memmem s (eol_bytes e) ≡ some i → FirstAt e d s i
convert_some e d [] i h = cc (memmem_nil e)
convert_some e d (c ∷ s) i h = elim (Bool-cases (is_prefix (eol_bytes e) (c ∷ s))) [
  | inl p ↦ let q : i ≡ 0 = cc (memmem_zero c s (eol_bytes e) p) in rw q (FirstAt-zero e d c s p)
  | inr p ↦ elim (Option-cases (memmem s (eol_bytes e))) [
    | inl q ↦ cc (memmem-suc c s (eol_bytes e) p, ap (Option.map suc) q)
    | inr (j, q) ↦
        let r : i ≡ suc j = cc (memmem-suc c s (eol_bytes e) p, ap (Option.map suc) q) in
        rw r (FirstAt-suc e d c s j p (convert_some e d s j q))
  ]
]

eol_len_pos : (e : Eol) → 0 < eol_len e
eol_len_pos lf = omega arith
eol_len_pos crlf = omega arith
eol_len_pos cr = omega arith

-- An end of line that was found leaves a shorter rest.
pub rest_shorter :
    (e : Eol) (s : List ℕ) (i : ℕ)
    → s ≡ take i s ++ (eol_bytes e ++ drop (i + eol_len e) s)
    → (length s ≡ i + (eol_len e + length (drop (i + eol_len e) s)))
      × (length (take i s) ≡ i)
      × (0 < eol_len e)
rest_shorter e s i h =
    let l : length s ≡ length (take i s) + (eol_len e + length (drop (i + eol_len e) s)) =
      ap length h
      ∙ (length-append (take i s) _ ∙ ap (length (take i s) +◌) (length-append (eol_bytes e) _)) in
    (
      omega (arith, l, length-take i s, length-drop (i + eol_len e) s, eol_len_pos e),
      omega (arith, l, length-take i s, length-drop (i + eol_len e) s, eol_len_pos e),
      eol_len_pos e,
    )

convert_self_below : (e : Eol) (n : ℕ) (s : List ℕ) → length s < n → convert e e 0 s ≡ s
convert_self_below e zero s lt = absurd (omega arith)
convert_self_below e (suc n) s lt = elim (Option-cases (memmem s (eol_bytes e))) [
  | inl p ↦ convert-none e e s p
  | inr (i, p) ↦
      let (h, k) = convert_some e e s i p in
      let (l, _, pos) = rest_shorter e s i k in
      h ∙ (rw (convert_self_below e n (drop (i + eol_len e) s) (omega arith)) (sym k))
]

-- Converting a type to itself changes nothing.
pub convert_self : (e : Eol) (s : List ℕ) → convert e e 0 s ≡ s
convert_self e s = convert_self_below e (suc (length s)) s (omega arith)
