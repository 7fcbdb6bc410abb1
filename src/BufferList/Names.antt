-- ===== src/BufferList/Names.antt =====
-- Unique names of buffers (set_buffer_names of src/buffer.c).
use zile.Prelude.{
  ℕ, zero, suc, ◌+◌, ◌≤◌, ◌<◌, ◌≡◌, ◌≢◌, refl, sym, ap, ◌∙◌, List, [], ◌∷◌, ◌++◌, none, some, true,
  arith, length, drop, if◌then◌else◌, Bool-cases, Option-cases, inl, inr, none≢some, false≢true,
}
use zile.Buffer.{Buffer}
use zile.History.Newest.{streq→≡}
use zile.Window.{has_name}
use zile.BufferList.{find_named, unique_name}

same_name : (n m : List ℕ) (b : Buffer) → has_name n b ≡ true → has_name m b ≡ true → n ≡ m
same_name n m b h k = elim (Option-cases b.name) [
  | inl p ↦ absurd (false≢true (rw p at h))
  | inr (t, p) ↦ sym (streq→≡ t n (rw p at h)) ∙ streq→≡ t m (rw p at k)
]

-- The chain without the buffer that has the name.
without : List ℕ → List Buffer → List Buffer
without n [] = []
without n (b ∷ bs) = if has_name n b then bs else b ∷ without n bs

length-without :
    (n : List ℕ) (bs : List Buffer) (b : Buffer)
    → find_named n bs ≡ some b
    → length bs ≡ length (without n bs) + 1
unfolding find_named without
length-without n [] b h = absurd (none≢some h)
length-without n (c ∷ bs) b h = elim (Bool-cases (has_name n c)) [
  | inl p ↦ rw p (omega arith)
  | inr p ↦ rw p (omega (arith, length-without n bs b (rw p at h)))
]

find_named-without :
    (n m : List ℕ) (bs : List Buffer)
    → n ≢ m
    → find_named m (without n bs) ≡ none
    → find_named m bs ≡ none
unfolding find_named without
find_named-without n m [] differ h = refl
find_named-without n m (b ∷ bs) differ h = elim (Bool-cases (has_name m b)) [
  | inl q ↦ elim (Bool-cases (has_name n b)) [
    | inl p ↦ absurd (differ (same_name n m b p q))
    | inr p ↦ absurd (none≢some (sym (rw (p, q) at h)))
  ]
  | inr q ↦ elim (Bool-cases (has_name n b)) [
    | inl p ↦ rw q (rw p at h)
    | inr p ↦ rw q (find_named-without n m bs differ (rw (p, q) at h))
  ]
]

-- The names that the loop tries after the first one.
abbrev numbered : (ℕ → List ℕ) → List ℕ → ℕ → List ℕ
numbered print base i = base ++ print i

append-injective : (base x y : List ℕ) → base ++ x ≡ base ++ y → x ≡ y
append-injective [] x y h = h
append-injective (c ∷ base) x y h = append-injective base x y (ap (drop 1) h)

module _ (print : ℕ → List ℕ) (print-injective : (i j : ℕ) → print i ≡ print j → i ≡ j)
    (base : List ℕ) (bs : List Buffer) where
  -- The buffers that are left bear all the later names that are taken.
  numbered_free :
      (fuel i : ℕ) (left : List Buffer)
      → length left < fuel
      → ((j : ℕ)
          → i ≤ j
          → find_named (numbered print base j) left ≡ none
          → find_named (numbered print base j) bs ≡ none)
      → (name : List ℕ) × (unique_name print base bs fuel (i + 1) (numbered print base i)
          ≡ some name)
        × (find_named name bs ≡ none)
  unfolding unique_name
  numbered_free zero i left lt covers = absurd (omega arith)
  numbered_free (suc fuel) i left lt covers =
      let n = numbered print base i in
      elim (Option-cases (find_named n bs)) [
        | inl p ↦ (n, rw (p, unique_name) refl, p)
        | inr (b, p) ↦ elim (Option-cases (find_named n left)) [
          | inl q ↦ absurd (none≢some (sym (covers i (omega arith) q) ∙ p))
          | inr (c, q) ↦
              let (name, e, free) =
                numbered_free fuel (i + 1) (without n left)
                  (omega (arith, length-without n left c q))
                  (λ j le r. covers j (omega arith) (
                    find_named-without n (numbered print base j) left
                      (λ eq.
                        omega (
                          arith,
                          print-injective i j (append-injective base (print i) (print j) eq),
                        ))
                      r)) in
              (name, rw (p, unique_name) e, free)
        ]
      ]

-- Where different numbers print differently, two rounds more than there are buffers are enough to
-- find a name that no buffer of the chain has.
pub unique_name_lem :
    (print : ℕ → List ℕ)
    → ((i j : ℕ) → print i ≡ print j → i ≡ j)
    → (base : List ℕ) (bs : List Buffer) (fuel : ℕ) → length bs + 2 ≤ fuel
    → (name : List ℕ) × (unique_name print base bs fuel 2 base ≡ some name)
      × (find_named name bs ≡ none)
unfolding unique_name
unique_name_lem print injective base bs zero le = absurd (omega arith)
unique_name_lem print injective base bs (suc fuel) le = elim (Option-cases (find_named base bs)) [
  | inl p ↦ (base, rw (p, unique_name) refl, p)
  | inr (b, p) ↦
      let (name, e, free) =
        numbered_free print injective base bs fuel 2 bs (omega arith) (λ j le r. r) in
      (name, rw (p, unique_name) e, free)
]
