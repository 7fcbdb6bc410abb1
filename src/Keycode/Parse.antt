-- ===== src/Keycode/Parse.antt =====
-- The loops that read key strings (src/keycode.c) come to an end, and how far they read.
use zile.Prelude.{
  ℕ, zero, suc, ◌+◌, ◌≤◌, ◌<◌, ◌≡◌, refl, ap, List, [], ◌∷◌, Option, none, some, true, ◌==◌, ◌||◌,
  ltb, arith, length, drop, length-drop, length-append, Bool-cases, inl, inr, ◌⊎◌,
}
use Prim.Native.Nat.{bit_or}
use mathlib.Core.List.{reverse}
use zile.Memmem.{is_prefix}
use zile.Estr.Convert.{prefix_split}
use zile.Keymap.{kbd_ctrl, kbd_meta}
use zile.Keycode.{
  kbd_nokey, keynames, last_match, strtokey, chord_loop, strtochord, KeyVec, keys, invalid, overrun,
  vec_loop, keystrtovec,
}

-- The names of a table have at least one byte.
abbrev Named : List (List ℕ × ℕ) → Type 0
Named [] = Unit {0}
Named ((name, code) ∷ table) = (0 < length name) × Named table

-- A matched name is not empty and stands at the front of the string.
abbrev Fits : List ℕ → Option (List ℕ × ℕ) → Type 0
Fits buf none = Unit {0}
Fits buf (some (name, code)) = (0 < length name) × (length name ≤ length buf)

prefix_length : (t s : List ℕ) → is_prefix t s ≡ true → length t ≤ length s
prefix_length t s h =
    omega (arith, ap length (prefix_split t s h), length-append t (drop (length t) s))

last_match-Fits :
    (table : List (List ℕ × ℕ)) (buf : List ℕ) (p : Option (List ℕ × ℕ))
    → Named table
    → Fits buf p
    → Fits buf (last_match table buf p)
unfolding last_match
last_match-Fits [] buf p n h = h
last_match-Fits ((name, code) ∷ table) buf p (n, ns) h = elim (Bool-cases (is_prefix name buf)) [
  | inl e ↦ rw e (last_match-Fits table buf (some (name, code)) ns (n, prefix_length name buf e))
  | inr e ↦ rw e (last_match-Fits table buf p ns h)
]

keynames-Named : Named keynames
keynames-Named = omega arith

-- What one call of `strtokey` may do.
data Read (s : List ℕ) : ℕ × ℕ → Type 0 where
  unreadable : Read s (kbd_nokey, 0)
  at_end : s ≡ [] → Read s (0, 1)
  reads : {k l : ℕ} → 0 < l → l ≤ length s → Read s (k, l)

strtokey-Read : (s : List ℕ) → Read s (strtokey s)
unfolding strtokey
strtokey-Read [] = at_end refl
strtokey-Read (c ∷ s) = elim (Bool-cases (c == b'\\')) [
  | inr e ↦ rw e (reads (omega arith) (omega arith))
  | inl e ↦ rw e (
      named (last_match keynames (c ∷ s) none)
        (last_match-Fits keynames (c ∷ s) none keynames-Named tt))
]
  where
    named :
        (o : Option (List ℕ × ℕ))
        → Fits (c ∷ s) o
        → Read (c ∷ s) (elim o [ none ↦ (kbd_nokey, 0) | some (name, code) ↦ (code, length name) ])
    named none h = unreadable
    named (some (name, code)) (p, q) = reads p q

-- The same as facts on the two results.
Read-facts :
    (s : List ℕ) (r : ℕ × ℕ)
    → Read s r
    → (r.0 ≡ kbd_nokey) ⊎ ((0 < r.1) × (r.1 ≤ length s)) ⊎ ((r.0 ≡ 0) × (r.1 ≡ 1) × (length s ≡ 0))
Read-facts s r unreadable = inl refl
Read-facts s r (at_end e) = inr (inr (refl, refl, ap length e))
Read-facts s r (reads p q) = inr (inl (p, q))

-- A chord is unreadable, or it takes at least one byte and at most the terminating NUL besides.
abbrev Chord : List ℕ → Option (ℕ × ℕ) → Type 0
Chord buf o =
    (k : ℕ) × (len : ℕ) × (o ≡ some (k, len))
    × ((k ≡ kbd_nokey) ⊎ ((0 < len) × (len ≤ length buf + 1)))

chord_loop_lem :
    (fuel : ℕ) (buf : List ℕ) (len key : ℕ)
    → len ≤ length buf
    → length buf < fuel + len
    → Chord buf (chord_loop fuel buf len key)
unfolding chord_loop
chord_loop_lem zero buf len key le lt = absurd (omega arith)
chord_loop_lem (suc fuel) buf len key le lt =
    let r = strtokey (drop len buf) in
    let facts = Read-facts (drop len buf) r (strtokey-Read (drop len buf)) in
    elim (Bool-cases (r.0 == kbd_nokey)) [
      | inl e ↦ (kbd_nokey, 0, rw e, inl refl)
      | inr e ↦ elim (Bool-cases (r.0 == kbd_ctrl || r.0 == kbd_meta)) [
        | inl m ↦
            rw (e, m)
              (chord_loop_lem fuel buf (len + r.1) (bit_or key r.0)
                (ground (arith, length-drop len buf, facts))
                (ground (arith, length-drop len buf, facts)))
        | inr m ↦ (
          bit_or key r.0,
          len + r.1,
          rw (e, m),
          inr (
            ground (arith, length-drop len buf, facts),
            ground (arith, length-drop len buf, facts),
          ),
        )
      ]
    ]

strtochord_lem : (buf : List ℕ) → Chord buf (strtochord buf)
unfolding strtochord
strtochord_lem buf = chord_loop_lem (suc (length buf)) buf 0 0 (omega arith) (omega arith)

vec_loop_lem :
    (fuel : ℕ) (key done : List ℕ)
    → length key < fuel
    → (r : KeyVec) × (vec_loop fuel key done ≡ some r)
unfolding vec_loop
vec_loop_lem zero key done lt = absurd (omega arith)
vec_loop_lem (suc fuel) [] done lt = (keys (reverse done), refl)
vec_loop_lem (suc fuel) (c ∷ key) done lt =
    let (k, len, e, ok) = strtochord_lem (c ∷ key) in
    elim (Bool-cases (k == kbd_nokey)) [
      | inl n ↦ (invalid, rw (e, vec_loop, n))
      | inr n ↦ elim (Bool-cases (ltb (length (c ∷ key)) len)) [
        | inl o ↦ (overrun, rw (e, vec_loop, n, o))
        | inr o ↦
            let (r, p) =
              vec_loop_lem fuel (drop len (c ∷ key)) (k ∷ done)
                (ground (arith, length-drop len (c ∷ key), ok)) in
            (r, rw (e, vec_loop, n, o) p)
      ]
    ]

-- On every string the rounds given to `keystrtovec` suffice: the result is the keys, a refusal, or
-- `overrun`, at which the C code reads on behind the NUL that ends the string.
pub keystrtovec_total : (key : List ℕ) → (r : KeyVec) × (keystrtovec key ≡ some r)
unfolding keystrtovec
keystrtovec_total key = vec_loop_lem (suc (length key)) key [] (omega arith)
