-- ===== src/Uniarg/Digits.antt =====
-- The number that is typed after C-u (src/funcs.c).
use zile.Prelude.{
  ℕ, ◌+◌, ◌-◌, ◌*◌, ◌%◌, ◌≤◌, ◌<◌, ◌≡◌, ◌≢◌, refl, List, [], ◌∷◌, ◌++◌, Option, some, Bool, true,
  false, ◌==◌, if◌then◌else◌, ◌>>=◌, pos, negate, arith, lt→ltb, ≢→==, codes,
}
use zile.Minibuffer.{ctrl, kbd_cancel}
use zile.Uniarg.{
  Counting, Counted, Argument, counted, int_max, is_digit, shown_digit, add_digit, add_minus,
  uniarg_loop, universal_argument,
}

-- The number with these decimal digits, the units first.
unfoldable pub units_first : List ℕ → ℕ
units_first [] = 0
units_first (d ∷ ds) = d + 10 * units_first ds

-- The list, backwards, before the second.
unfoldable pub backwards : List ℕ → List ℕ → List ℕ
backwards [] ys = ys
backwards (d ∷ ds) ys = backwards ds (d ∷ ys)

abbrev pub AllDigits : List ℕ → Type 0
AllDigits [] = Unit {0}
AllDigits (d ∷ ds) = (d ≤ 9) × AllDigits ds

-- The keys of digits.
abbrev pub digit_keys : List ℕ → List ℕ
digit_keys [] = []
digit_keys (d ∷ ds) = (b'0' + d) ∷ digit_keys ds

-- No digit and none of the keys that the loop asks for once it has digits.
abbrev pub EndsNumber : ℕ → Type 0
EndsNumber key = (is_digit key ≡ false) × (key ≢ kbd_cancel) × (key ≢ ctrl b'u')

units_first-le : (ds done : List ℕ) → units_first done ≤ units_first (backwards ds done)
unfolding units_first backwards
units_first-le [] done = omega arith
units_first-le (d ∷ ds) done = omega (arith, units_first-le ds (d ∷ done))

abbrev Counts : Option Argument → Bool → ℕ → ℕ → List ℕ → Type 0
Counts o negative arg key keys =
    (c : Counted) × (o ≡ some (counted c))
    × (c.last_uniarg ≡ (if negative then negate (pos arg) else pos arg))
    × (c.uniarg_empty ≡ false)
    × (c.ungot ≡ some key)
    × (c.unread ≡ keys)

-- The key after the number.
number_ends :
    (key : ℕ) (keys : List ℕ) (u : Counting)
    → EndsNumber key
    → 0 < u.digits
    → u.empty ≡ false
    → Counts (uniarg_loop (key ∷ keys) u) u.negative u.arg key keys
unfolding uniarg_loop
number_ends key keys u (d, c, r) typed full = (
  record {
    last_uniarg = if u.negative then negate (pos u.arg) else pos u.arg;
    uniarg_empty = u.empty;
    ungot = some key;
    unread = keys;
  },
  ground arith,
  refl,
  full,
  refl,
  refl,
)

-- The argument after one more digit.
abbrev after_digit : ℕ → Counting → ℕ
after_digit d u = if u.digits == 0 then d else u.arg * 10 + d

abbrev Adds : ℕ → Counting → Type 0
Adds d u =
    (u1 : Counting) × (add_digit (b'0' + d) u ≡ some u1)
    × (u1.digits ≡ u.digits + 1)
    × (u1.arg ≡ after_digit d u)
    × (u1.negative ≡ u.negative)
    × (u1.empty ≡ false)

add_digit-Adds : (d : ℕ) (u : Counting) → d ≤ 9 → after_digit d u < int_max → Adds d u
unfolding add_digit
add_digit-Adds d u le small =
    let e : (b'0' + d) % 256 - b'0' ≡ d = omega arith in
    rw (e, lt→ltb (after_digit d u) int_max small)
      (
        record u {
          digits = u.digits + 1;
          arg = after_digit d u;
          empty = false;
          text = shown_digit (b'0' + d) d u;
        },
        refl,
        refl,
        refl,
        refl,
        refl,
      )

digit_round :
    (d : ℕ) (keys : List ℕ) (u : Counting)
    → d ≤ 9
    → uniarg_loop ((b'0' + d) ∷ keys) u ≡ (add_digit (b'0' + d) u >>= λ u1. uniarg_loop keys u1)
unfolding uniarg_loop
digit_round d keys u le = ground arith

digits_lem :
    (ds done : List ℕ) (key : ℕ) (keys : List ℕ) (u : Counting)
    → AllDigits ds
    → EndsNumber key
    → 0 < u.digits
    → u.empty ≡ false
    → u.arg ≡ units_first done
    → units_first (backwards ds done) < int_max
    → Counts
        (uniarg_loop (digit_keys ds ++ key ∷ keys) u)
        u.negative
        (units_first (backwards ds done))
        key
        keys
unfolding backwards units_first add_digit-Adds
digits_lem [] done key keys u h e typed full at small =
    rw (← at) (number_ends key keys u e typed full)
digits_lem (d ∷ ds) done key keys u (h, hs) e typed full at small =
    let bound = units_first-le ds (d ∷ done) in
    let more : after_digit d u ≡ u.arg * 10 + d = rw (≢→== u.digits 0 (λ z. omega arith)) refl in
    let (u1, p, n, a, sign, full1) = add_digit-Adds d u h (omega arith) in
    let a1 : u1.arg ≡ units_first (d ∷ done) = omega arith in
    let ih = digits_lem ds (d ∷ done) key keys u1 hs e (omega arith) full1 a1 small in
    rw (digit_round d (digit_keys ds ++ key ∷ keys) u h, p, ← sign) ih

-- The first digit replaces what C-u has counted.
first_digit :
    (d : ℕ) (ds : List ℕ) (key : ℕ) (keys : List ℕ) (u : Counting)
    → d ≤ 9
    → AllDigits ds
    → EndsNumber key
    → u.digits ≡ 0
    → units_first (backwards (d ∷ ds) []) < int_max
    → Counts
        (uniarg_loop (digit_keys (d ∷ ds) ++ key ∷ keys) u)
        u.negative
        (units_first (backwards (d ∷ ds) []))
        key
        keys
unfolding backwards units_first add_digit-Adds
first_digit d ds key keys u h hs e none_yet small =
    let bound = units_first-le ds (d ∷ []) in
    let first : after_digit d u ≡ d = rw (none_yet) refl in
    let (u1, p, n, a, sign, full1) = add_digit-Adds d u h (omega arith) in
    let ih = digits_lem ds (d ∷ []) key keys u1 hs e (omega arith) full1 (omega arith) small in
    rw (digit_round d (digit_keys ds ++ key ∷ keys) u h, p, ← sign) ih

-- When C-u, or C-u -, is followed by decimal digits, whose number is below 2 ^ 31, and then by a key
-- that is no digit, not C-g and not C-u, the argument is that number, negative after -, and the last
-- key is pushed back with the keys behind it unread.
pub universal_argument_lem :
    (minus : Bool) (d : ℕ) (ds : List ℕ) (key : ℕ) (keys : List ℕ)
    → d ≤ 9
    → AllDigits ds
    → EndsNumber key
    → units_first (backwards (d ∷ ds) []) < int_max
    → (c : Counted) × (universal_argument
          (ctrl b'u')
          ((if minus then b'-' ∷ [] else []) ++ (digit_keys (d ∷ ds) ++ key ∷ keys))
        ≡ some (counted c))
      × (c.last_uniarg ≡ (
          if minus
          then negate (pos (units_first (backwards (d ∷ ds) [])))
          else pos (units_first (backwards (d ∷ ds) []))))
      × (c.uniarg_empty ≡ false)
      × (c.ungot ≡ some key)
      × (c.unread ≡ keys)
unfolding universal_argument uniarg_loop add_minus
universal_argument_lem false d ds key keys h hs e small =
    first_digit d ds key keys
      (record { digits = 0; arg = 4; negative = false; empty = true; text = codes "C-u" }) h hs e
      refl small
universal_argument_lem true d ds key keys h hs e small =
    first_digit d ds key keys
      (record { digits = 0; arg = 1; negative = true; empty = false; text = codes "C-u -" }) h hs e
      refl small
