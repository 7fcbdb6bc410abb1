-- ===== src/Buffer/Shows.antt =====
-- The text that a buffer shows around its gap, and the steps of `set_buffer_pt` (src/buffer.c).
use zile.Prelude.{
  ℕ, ◌+◌, ◌-◌, ◌<◌, ◌≡◌, sym, min, List, ◌++◌, Option, some, arith, length, take, drop, zeros,
  length-zeros, length-take, take_left, drop_left, take-append, drop-append, take-zeros, drop-zeros,
  zeros-append, lt→ltb, le→ltb,
}
use zile.Astr.{Astr, astr_move, astr_set}
use zile.Buffer.{Buffer, bytes, set_bytes, set_buffer_pt}

-- The buffer shows `pre` before the point and `post` after it; its gap holds zero bytes.
pub record Shows (bp : Buffer) (pre post : List ℕ) : Type 0 where
  pub layout : bytes bp ≡ pre ++ (zeros bp.gap ++ post)
  pub at_pt : bp.pt ≡ length pre

pub Shows-eq : (bp : Buffer) (x x' y y' : List ℕ) → x ≡ x' → y ≡ y' → Shows bp x y → Shows bp x' y'
Shows-eq bp x x' y y' p q h = rw (← p, ← q) h

-- Bytes that cross a gap of `g` zeros from before it leave bytes that are cleared.
pub closed_left :
    (moved : List ℕ) (g : ℕ)
    → zeros (min (length moved) g) ++ drop (min (length moved) g) (take g (moved ++ zeros g))
      ≡ zeros g
closed_left moved g =
    let n : min (length moved) g ≡ length (take g moved) = omega (arith, length-take g moved) in
    let k : min (g - length moved) g ≡ g - length moved = omega arith in
    let total : min (length moved) g + (g - length moved) ≡ g = omega arith in
    rw
      (
        take-append g moved (zeros g),
        take-zeros (g - length moved) g,
        k,
        drop_left (min (length moved) g) (take g moved) (zeros (g - length moved)) n,
      )
      (zeros-append (min (length moved) g) (g - length moved) g total)

-- The same for bytes that cross it from behind.
pub closed_right :
    (moved : List ℕ) (g : ℕ)
    → take (g - min (length moved) g) (drop (length moved) (zeros g ++ moved))
        ++ zeros (min (length moved) g)
      ≡ zeros g
closed_right moved g =
    let k : g - min (length moved) g ≡ g - length moved = omega arith in
    let n : g - length moved ≡ length (zeros (g - length moved)) = sym (length-zeros _) in
    let total : (g - length moved) + min (length moved) g ≡ g = omega arith in
    rw
      (
        drop-append (length moved) (zeros g) moved,
        drop-zeros (length moved) g,
        k,
        take_left (g - length moved) (zeros (g - length moved))
            (drop (length moved - length (zeros g)) moved) n,
      )
      (zeros-append (g - length moved) (min (length moved) g) g total)

-- The buffer with other bytes and another point, and nothing else changed.
abbrev pub moved_to : Buffer → Astr → ℕ → Buffer
moved_to bp s o = record (set_bytes bp s) { pt = o }

-- The point moves to `o`, with `pre` and `post` around it.
abbrev pub ReachesTo : Buffer → ℕ → List ℕ → List ℕ → Type 0
ReachesTo bp o pre post =
    (s : Astr) × (set_buffer_pt bp o ≡ some (moved_to bp s o)) × Shows (moved_to bp s o) pre post

pub ReachesTo-eq :
    (bp : Buffer) (o o' : ℕ) (a a' b b' : List ℕ)
    → o ≡ o'
    → a ≡ a'
    → b ≡ b'
    → ReachesTo bp o' a' b'
    → ReachesTo bp o a b
ReachesTo-eq bp o o' a a' b b' p q k h = rw (p, q, k) h

-- The two primitives at offsets that are equal to the ones named.
pub astr_move_at :
    (s : Astr) {to to' from from' n n' : ℕ} {r : Option Astr}
    → to ≡ to'
    → from ≡ from'
    → n ≡ n'
    → astr_move s to' from' n' ≡ r
    → astr_move s to from n ≡ r
astr_move_at s p q k h = rw (p, q, k) h

pub astr_set_at :
    (s : Astr) (c : ℕ) {pos pos' n n' : ℕ} {r : Option Astr}
    → pos ≡ pos'
    → n ≡ n'
    → astr_set s pos' c n' ≡ r
    → astr_set s pos c n ≡ r
astr_set_at s c p k h = rw (p, k) h

-- The two branches of `set_buffer_pt` that move bytes.
pub set_buffer_pt_back :
    (bp : Buffer) (o : ℕ) (s1 s2 : Astr)
    → o < bp.pt
    → astr_move bp.text.str (o + bp.gap) o (bp.pt - o) ≡ some s1
    → astr_set s1 o 0 (min (bp.pt - o) bp.gap) ≡ some s2
    → set_buffer_pt bp o ≡ some (moved_to bp s2 o)
unfolding set_buffer_pt
set_buffer_pt_back bp o s1 s2 lt p q = rw (lt→ltb o bp.pt lt, p, q)

pub set_buffer_pt_forth :
    (bp : Buffer) (o : ℕ) (s1 s2 : Astr)
    → bp.pt < o
    → astr_move bp.text.str bp.pt (bp.pt + bp.gap) (o - bp.pt) ≡ some s1
    → astr_set s1 (o + bp.gap - min (o - bp.pt) bp.gap) 0 (min (o - bp.pt) bp.gap) ≡ some s2
    → set_buffer_pt bp o ≡ some (moved_to bp s2 o)
unfolding set_buffer_pt
set_buffer_pt_forth bp o s1 s2 lt p q = rw (le→ltb o bp.pt (omega arith), lt→ltb bp.pt o lt, p, q)

-- The point moves back over `b`.
