-- ===== src/Editor/Markers.antt =====
-- How `replace_estr` (src/buffer.c) moves the markers behind the replaced text.
use zile.Prelude.{
  ℕ, ◌+◌, ◌-◌, ◌%◌, ◌≤◌, ◌<◌, ◌≡◌, max, min, refl, ◌⊎◌, leb, leb→le, le→leb, if◌then◌else◌, List,
  [], ◌∷◌, map, ltb, arith, Bool-cases, inl, inr, ltb→lt, ltb→le, lt→ltb, le→ltb,
}
use zile.Astr.{size_mod}
use zile.Buffer.{Marker}
use zile.Editor.{adjust_marker}

-- Every marker stands within a text of `size` bytes.
abbrev pub Within : ℕ → List Marker → Type 0
Within size [] = Unit {0}
Within size (m ∷ ms) = (m.o ≤ size) × Within size ms

module _ (o newlen del : ℕ) where
  -- A marker behind `o` for which the arithmetic does not wrap follows its text, and one inside
  -- the deleted text goes no further back than `o`.
  adjust_marker_follows :
      (m : Marker)
      → o < m.o
      → del ≤ m.o + newlen
      → m.o + newlen < size_mod
      → (adjust_marker o newlen del m).o ≡ max o (m.o + newlen - del)
  unfolding adjust_marker
  adjust_marker_follows m lt le small =
      let e : (m.o + newlen + size_mod - del) % size_mod ≡ m.o + newlen - del = omega arith in
      rw (lt→ltb o m.o lt, e)

  adjust_marker-id : (m : Marker) → (adjust_marker o newlen del m).id ≡ m.id
  unfolding adjust_marker
  adjust_marker-id m = ground arith

  adjust_marker_stays : (m : Marker) → m.o ≤ o → adjust_marker o newlen del m ≡ m
  unfolding adjust_marker
  adjust_marker_stays m le = rw (le→ltb o m.o le)

  -- The arithmetic does not wrap for any of the markers.
  abbrev pub NoneWraps : List Marker → Type 0
  NoneWraps [] = Unit {0}
  NoneWraps (m ∷ ms) = ((m.o ≤ o) ⊎ (del ≤ m.o + newlen)) × NoneWraps ms

  -- Where a marker belongs after the replacement: one up to `o` stays, one behind the deleted text
  -- moves with it, and one inside goes back by what the text has shrunk, but not beyond `o`.
  abbrev pub follow : ℕ → ℕ
  follow at =
      if leb at o
      then at
      else if ltb at (o + del)
      then max o (at + newlen - del)
      else at - del + newlen

  -- Each marker has gone where it belongs, at `o` or behind it if it was behind, and within the text.
  abbrev pub Follow : ℕ → List Marker → List Marker → Type 0
  Follow size [] [] = Unit {0}
  Follow size [] (m' ∷ ms') = ⊥
  Follow size (m ∷ ms) [] = ⊥
  Follow size (m ∷ ms) (m' ∷ ms') =
      (m'.id ≡ m.id) × (m'.o ≡ follow m.o) × (min o m.o ≤ m'.o) × (m'.o ≤ size) × Follow size ms ms'

  follow_place :
      (size : ℕ) (m : Marker)
      → o + del ≤ size
      → size + newlen < size_mod
      → (m.o ≤ o) ⊎ (del ≤ m.o + newlen)
      → m.o ≤ size
      → ((adjust_marker o newlen del m).o ≡ follow m.o)
        × (min o m.o ≤ (adjust_marker o newlen del m).o)
        × ((adjust_marker o newlen del m).o ≤ size - del + newlen)
  follow_place size m fits small (inl le) within =
      rw (adjust_marker_stays m le, le→leb m.o o le) (refl, omega arith, omega arith)
  follow_place size m fits small (inr safe) within = elim (Bool-cases (leb m.o o)) [
    | inl p ↦
        let le = leb→le m.o o p in rw (adjust_marker_stays m le, p) (refl, omega arith, omega arith)
    | inr p ↦
        let lt : o < m.o = ground arith in
        rw (adjust_marker_follows m lt safe (omega arith), p)
          (elim (Bool-cases (ltb m.o (o + del))) [
            | inl q ↦ rw q (refl, omega arith, omega (arith, ltb→lt m.o (o + del) q))
            | inr q ↦
                let le = ltb→le m.o (o + del) q in rw q (omega arith, omega arith, omega arith)
          ])
  ]

  -- When `del` bytes at `o` of a text of `size` bytes are replaced by `newlen`, below the machine's
  -- sizes, and the markers are within the text and the subtraction goes below zero for none of them,
  -- each marker keeps its identity and goes where it belongs: it stays up to `o`, moves with the text behind the
  -- deleted part, and inside it goes back by what the text has shrunk but not beyond `o`; all are
  -- within the text that is left.
  pub adjust_marker-Follow :
      (size : ℕ) (ms : List Marker)
      → o + del ≤ size
      → size + newlen < size_mod
      → NoneWraps ms
      → Within size ms
      → Follow (size - del + newlen) ms (map (adjust_marker o newlen del) ms)
  adjust_marker-Follow size [] fits small safe h = tt
  adjust_marker-Follow size (m ∷ ms) fits small (safe, hs) (within, h) =
      let (place, low, high) = follow_place size m fits small safe within in
      (adjust_marker-id m, place, low, high, adjust_marker-Follow size ms fits small hs h)

  -- A marker inside the deleted text that the subtraction takes below zero is sent beyond any text:
  -- the maximum keeps the wrapped value. The deleted text ends within the machine's size.
  pub adjust_marker_wraps :
      (m : Marker)
      → o < m.o
      → m.o + newlen < del
      → del < size_mod
      → o + del ≤ size_mod
      → (adjust_marker o newlen del m).o + del ≡ size_mod + m.o + newlen
  unfolding adjust_marker
  adjust_marker_wraps m lt wraps small fits =
      let e : (m.o + newlen + size_mod - del) % size_mod ≡ m.o + newlen + size_mod - del =
        omega arith in
      rw (lt→ltb o m.o lt, e) (omega arith)
