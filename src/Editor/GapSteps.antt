-- ===== src/Editor/GapSteps.antt =====
-- The steps of opening the gap in `replace_estr` (src/buffer.c), and the bytes that they leave.
use zile.Prelude.{
  ℕ, ◌+◌, ◌-◌, ◌≤◌, ◌<◌, ◌≡◌, refl, sym, max, List, ◌++◌, Option, some, arith, length, take, drop,
  zeros, length-zeros, length-append, length-take, append_assoc, take_left, drop_all, drop-append,
  drop-zeros, zeros-append, lt→ltb, le→ltb, ltb, Bool-cases, inl, inr, ltb→lt, ltb→le,
}
use zile.Astr.{Astr, astr_insert, astr_remove, astr_set}
use zile.Buffer.{Buffer, set_bytes}
use zile.Editor.{min_gap, max_gap, open_gap}

-- The buffer with other bytes and another gap, and nothing else changed.
abbrev pub gapped : Buffer → Astr → ℕ → Buffer
gapped bp s gap = record (set_bytes bp s) { gap = gap }

-- `room` stands where the new text of `newlen` bytes and the gap go, which holds `gap_bytes`.
abbrev pub OpensTo : Buffer → ℕ → ℕ → List ℕ → ℕ → List ℕ → List ℕ → Type 0
OpensTo bp del newlen pre gap gap_bytes post =
    (s : Astr) × (room : List ℕ) × (open_gap bp del newlen ≡ some (gapped bp s gap))
    × (s.text ≡ pre ++ (room ++ post))
    × (drop newlen room ≡ gap_bytes)
    × (length room ≡ newlen + gap)

-- Removing or inserting at offsets that are equal to the ones named.
pub astr_remove_at :
    (s : Astr) (pos pos' n n' : ℕ) (r : Option Astr)
    → pos ≡ pos'
    → n ≡ n'
    → astr_remove s pos' n' ≡ r
    → astr_remove s pos n ≡ r
astr_remove_at s pos pos' n n' r p k h = rw (p, k) h

pub astr_insert_at :
    (s : Astr) (pos pos' n : ℕ) (r : Option Astr)
    → pos ≡ pos'
    → astr_insert s pos' n ≡ r
    → astr_insert s pos n ≡ r
astr_insert_at s pos pos' n r p h = rw p h

pub astr_set_at :
    (s : Astr) (pos pos' n n' : ℕ) (r : Option Astr)
    → pos ≡ pos'
    → n ≡ n'
    → astr_set s pos' 0 n' ≡ r
    → astr_set s pos 0 n ≡ r
astr_set_at s pos pos' n n' r p k h = rw (p, k) h

-- The branches of `open_gap`.
module _ (bp : Buffer) (del newlen : ℕ) where
  pub opened_wide :
      (s1 : Astr)
      → bp.gap + del < newlen
      → astr_insert bp.text.str bp.pt ((newlen + min_gap) - (bp.gap + del)) ≡ some s1
      → open_gap bp del newlen ≡ some (gapped bp s1 min_gap)
  unfolding open_gap
  opened_wide s1 lt p = rw (
    lt→ltb (bp.gap + del) newlen lt,
    p,
    le→ltb (max bp.gap newlen + min_gap) (min_gap + newlen) (omega arith),
  )

  pub narrowed_clear :
      (s1 s2 : Astr)
      → newlen ≤ bp.gap + del
      → max_gap + newlen < bp.gap + del
      → max bp.gap newlen < max_gap + newlen
      → astr_remove bp.text.str (bp.pt + newlen + max_gap) ((bp.gap + del) - (max_gap + newlen))
        ≡ some s1
      → astr_set s1 (bp.pt + max bp.gap newlen + 0) 0 (newlen + max_gap - max bp.gap newlen - 0)
        ≡ some s2
      → open_gap bp del newlen ≡ some (gapped bp s2 max_gap)
  unfolding open_gap
  narrowed_clear s1 s2 le lt c p q = rw (
    le→ltb (bp.gap + del) newlen le,
    lt→ltb (max_gap + newlen) (bp.gap + del) lt,
    p,
    lt→ltb (max bp.gap newlen + 0) (max_gap + newlen) (omega arith),
    q,
  )

  pub narrowed :
      (s1 : Astr)
      → newlen ≤ bp.gap + del
      → max_gap + newlen < bp.gap + del
      → max_gap + newlen ≤ max bp.gap newlen
      → astr_remove bp.text.str (bp.pt + newlen + max_gap) ((bp.gap + del) - (max_gap + newlen))
        ≡ some s1
      → open_gap bp del newlen ≡ some (gapped bp s1 max_gap)
  unfolding open_gap
  narrowed s1 le lt c p = rw (
    le→ltb (bp.gap + del) newlen le,
    lt→ltb (max_gap + newlen) (bp.gap + del) lt,
    p,
    le→ltb (max bp.gap newlen + 0) (max_gap + newlen) (omega arith),
  )

  pub kept_clear :
      (s2 : Astr)
      → newlen ≤ bp.gap + del
      → bp.gap + del ≤ max_gap + newlen
      → max bp.gap newlen < bp.gap + del
      → astr_set bp.text.str
          (bp.pt + max bp.gap newlen + 0)
          0
          (newlen + (bp.gap + del - newlen) - max bp.gap newlen - 0)
        ≡ some s2
      → open_gap bp del newlen ≡ some (gapped bp s2 (bp.gap + del - newlen))
  unfolding open_gap
  kept_clear s2 le lt c q = rw (
    le→ltb (bp.gap + del) newlen le,
    le→ltb (max_gap + newlen) (bp.gap + del) lt,
    lt→ltb (max bp.gap newlen + 0) (bp.gap + del - newlen + newlen) (omega arith),
    q,
  )

  pub kept :
      newlen ≤ bp.gap + del
      → bp.gap + del ≤ max_gap + newlen
      → bp.gap + del ≤ max bp.gap newlen
      → open_gap bp del newlen ≡ some (gapped bp bp.text.str (bp.gap + del - newlen))
  unfolding open_gap
  kept le lt c = rw (
    le→ltb (bp.gap + del) newlen le,
    le→ltb (max_gap + newlen) (bp.gap + del) lt,
    le→ltb (max bp.gap newlen + 0) (bp.gap + del - newlen + newlen) (omega arith),
  )

-- The bytes up to `max g newlen` leave only zeros after the first `newlen`.
pub drop-used :
    (g newlen : ℕ) (d : List ℕ)
    → drop newlen (take (max g newlen) (zeros g ++ d)) ≡ zeros (max g newlen - newlen)
drop-used g newlen d = elim (Bool-cases (ltb newlen g)) [
  | inl p ↦
      let lt = ltb→lt newlen g p in
      let e : max g newlen ≡ g = omega arith in
      rw (e, take_left g (zeros g) d (sym (length-zeros g))) (drop-zeros newlen g)
  | inr p ↦
      let le = ltb→le newlen g p in
      let e : max g newlen ≡ newlen = omega arith in
      let n : newlen - newlen ≡ 0 = omega arith in
      rw (e, n)
        (drop_all newlen (take newlen (zeros g ++ d))
          (omega (arith, length-take newlen (zeros g ++ d))))
]

-- Used bytes and then cleared ones.
pub drop-used-zeros :
    (g newlen n gap : ℕ) (d : List ℕ)
    → max g newlen ≤ g + length d
    → max g newlen + n ≡ newlen + gap
    → drop newlen (take (max g newlen) (zeros g ++ d) ++ zeros n) ≡ zeros gap
drop-used-zeros g newlen n gap d le h =
    let l : length (take (max g newlen) (zeros g ++ d)) ≡ max g newlen = omega (
      arith,
      length-take (max g newlen) (zeros g ++ d),
      length-append (zeros g) d,
      length-zeros g,
    ) in
    let e : newlen - max g newlen ≡ 0 = omega arith in
    rw
      (
        drop-append newlen (take (max g newlen) (zeros g ++ d)) (zeros n),
        l,
        e,
        drop-used g newlen d,
      )
      (zeros-append (max g newlen - newlen) n gap (omega arith))

-- Of a gap of `min_gap` bytes made by inserting, the deleted bytes take the end.
pub stale_gap :
    (g newlen : ℕ) (d : List ℕ)
    → g + length d < newlen
    → length d ≤ min_gap
    → drop newlen (zeros (newlen + min_gap - (g + length d)) ++ (zeros g ++ d))
      ≡ zeros (min_gap - length d) ++ d
stale_gap g newlen d lt le =
    let k = newlen + min_gap - (g + length d) in
    let e : newlen - length (zeros (k + g)) ≡ 0 = omega (arith, length-zeros (k + g)) in
    let z : k + g - newlen ≡ min_gap - length d = omega arith in
    rw (
      ← append_assoc (zeros k) (zeros g) d,
      zeros-append k g (k + g) refl,
      drop-append newlen (zeros (k + g)) d,
      e,
      drop-zeros newlen (k + g),
      z,
    )
