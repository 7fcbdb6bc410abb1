-- ===== src/Prelude/Lists.antt =====
-- Lists counted by the native numbers: bytes of a string are read and written through these.
use Prim.Native.Nat.{ℕ, zero, suc, ◌+◌, ◌-◌, ◌≤◌, min}
use mathlib.Core.Path.{◌≡◌, refl, ap, ◌∙◌}
use mathlib.Core.Option.{Option, none, some}
use mathlib.Core.List.{List, [], ◌∷◌, ◌++◌, append_assoc}
use native.Mathlib.Omega.{arith}

sub_suc : (n m : ℕ) → suc n - suc m ≡ n - m
sub_suc n m = omega arith

sub_zero : (n : ℕ) → n - 0 ≡ n
sub_zero n = omega arith

zero_sub : (n : ℕ) → 0 - n ≡ 0
zero_sub n = omega arith

zero-add : (n : ℕ) → 0 + n ≡ n
zero-add n = omega arith

suc-add : (n m : ℕ) → suc n + m ≡ suc (n + m)
suc-add n m = omega arith

module _ {ℓ} {A : Type ℓ} where
  abbrev pub length : List A → ℕ
  length [] = 0
  length (x ∷ xs) = suc (length xs)

  abbrev pub get_elem? : List A → ℕ → Option A
  get_elem? [] i = none
  get_elem? (x ∷ xs) zero = some x
  get_elem? (x ∷ xs) (suc i) = get_elem? xs i

  abbrev pub take : ℕ → List A → List A
  take zero xs = []
  take (suc n) [] = []
  take (suc n) (x ∷ xs) = x ∷ take n xs

  abbrev pub drop : ℕ → List A → List A
  drop zero xs = xs
  drop (suc n) [] = []
  drop (suc n) (x ∷ xs) = drop n xs

  abbrev pub replicate : ℕ → A → List A
  replicate zero x = []
  replicate (suc n) x = x ∷ replicate n x

  pub length-append : (xs ys : List A) → length (xs ++ ys) ≡ length xs + length ys
  length-append [] ys = omega arith
  length-append (x ∷ xs) ys = omega (arith, length-append xs ys)

  pub length-replicate : (n : ℕ) (x : A) → length (replicate n x) ≡ n
  length-replicate zero x = refl
  length-replicate (suc n) x = omega (arith, length-replicate n x)

  pub length-take : (n : ℕ) (xs : List A) → length (take n xs) ≡ min n (length xs)
  length-take zero xs = omega arith
  length-take (suc n) [] = omega arith
  length-take (suc n) (x ∷ xs) = omega (arith, length-take n xs)

  pub length-drop : (n : ℕ) (xs : List A) → length (drop n xs) ≡ length xs - n
  length-drop zero xs = omega arith
  length-drop (suc n) [] = omega arith
  length-drop (suc n) (x ∷ xs) = omega (arith, length-drop n xs)

  pub take-append-drop : (n : ℕ) (xs : List A) → take n xs ++ drop n xs ≡ xs
  take-append-drop zero xs = refl
  take-append-drop (suc n) [] = refl
  take-append-drop (suc n) (x ∷ xs) = ap (x ∷◌) (take-append-drop n xs)

  pub take_left : (n : ℕ) (xs ys : List A) → n ≡ length xs → take n (xs ++ ys) ≡ xs
  take_left zero [] ys h = refl
  take_left zero (x ∷ xs) ys h = absurd (omega arith)
  take_left (suc n) [] ys h = absurd (omega arith)
  take_left (suc n) (x ∷ xs) ys h = ap (x ∷◌) (take_left n xs ys (omega arith))

  pub drop_left : (n : ℕ) (xs ys : List A) → n ≡ length xs → drop n (xs ++ ys) ≡ ys
  drop_left zero [] ys h = refl
  drop_left zero (x ∷ xs) ys h = absurd (omega arith)
  drop_left (suc n) [] ys h = absurd (omega arith)
  drop_left (suc n) (x ∷ xs) ys h = drop_left n xs ys (omega arith)

  pub take_all : (n : ℕ) (xs : List A) → length xs ≤ n → take n xs ≡ xs
  take_all zero [] h = refl
  take_all zero (x ∷ xs) h = absurd (omega arith)
  take_all (suc n) [] h = refl
  take_all (suc n) (x ∷ xs) h = ap (x ∷◌) (take_all n xs (omega arith))

  pub drop_all : (n : ℕ) (xs : List A) → length xs ≤ n → drop n xs ≡ []
  drop_all zero [] h = refl
  drop_all zero (x ∷ xs) h = absurd (omega arith)
  drop_all (suc n) [] h = refl
  drop_all (suc n) (x ∷ xs) h = drop_all n xs (omega arith)

  pub take-take : (n m : ℕ) (xs : List A) → n ≤ m → take n (take m xs) ≡ take n xs
  take-take zero m xs h = refl
  take-take (suc n) zero xs h = absurd (omega arith)
  take-take (suc n) (suc m) [] h = refl
  take-take (suc n) (suc m) (x ∷ xs) h = ap (x ∷◌) (take-take n m xs (omega arith))

  pub replicate_eq : {n m : ℕ} (x : A) → n ≡ m → replicate n x ≡ replicate m x
  replicate_eq x h = ap (λ k. replicate k x) h

  pub take-append :
      (n : ℕ) (xs ys : List A) → take n (xs ++ ys) ≡ take n xs ++ take (n - length xs) ys
  take-append zero [] ys = refl
  take-append zero (x ∷ xs) ys = rw zero_sub
  take-append (suc n) [] ys = rw sub_zero
  take-append (suc n) (x ∷ xs) ys = rw sub_suc (ap (x ∷◌) (take-append n xs ys))

  pub drop-append :
      (n : ℕ) (xs ys : List A) → drop n (xs ++ ys) ≡ drop n xs ++ drop (n - length xs) ys
  drop-append zero [] ys = refl
  drop-append zero (x ∷ xs) ys = rw zero_sub
  drop-append (suc n) [] ys = rw sub_zero
  drop-append (suc n) (x ∷ xs) ys = rw sub_suc (drop-append n xs ys)

  pub take-replicate : (n m : ℕ) (x : A) → take n (replicate m x) ≡ replicate (min n m) x
  take-replicate zero m x = replicate_eq x (let e : 0 ≡ min 0 m = omega arith in e)
  take-replicate (suc n) zero x = replicate_eq x (let e : 0 ≡ min (suc n) 0 = omega arith in e)
  take-replicate (suc n) (suc m) x =
      let e : suc (min n m) ≡ min (suc n) (suc m) = omega arith in
      ap (x ∷◌) (take-replicate n m x) ∙ replicate_eq x e

  pub drop-replicate : (n m : ℕ) (x : A) → drop n (replicate m x) ≡ replicate (m - n) x
  drop-replicate zero m x = rw sub_zero
  drop-replicate (suc n) zero x = rw zero_sub
  drop-replicate (suc n) (suc m) x = rw sub_suc (drop-replicate n m x)

  pub replicate-append : (n m : ℕ) (x : A) → replicate n x ++ replicate m x ≡ replicate (n + m) x
  replicate-append zero m x = rw zero-add
  replicate-append (suc n) m x = rw suc-add (ap (x ∷◌) (replicate-append n m x))

  -- A write of `s` over the elements from position `n` on.
  abbrev pub blit : List A → ℕ → List A → List A
  blit xs n s = take n xs ++ s ++ drop (n + length s) xs

  pub blit_middle :
      (n : ℕ) (a m b s : List A)
      → n ≡ length a
      → length s ≡ length m
      → blit (a ++ (m ++ b)) n s ≡ a ++ (s ++ b)
  blit_middle n a m b s h k =
      rw
        (
          take_left n a (m ++ b) h,
          ← append_assoc a m b,
          drop_left (n + length s) (a ++ m) b (omega (arith, length-append a m)),
        )
        (append_assoc a s b)

-- Bytes that `memset` cleared.
abbrev pub zeros : ℕ → List ℕ
zeros n = replicate n 0

pub length-zeros : (n : ℕ) → length (zeros n) ≡ n
length-zeros n = length-replicate n 0

pub take-zeros : (n m : ℕ) → take n (zeros m) ≡ zeros (min n m)
take-zeros n m = take-replicate n m 0

pub drop-zeros : (n m : ℕ) → drop n (zeros m) ≡ zeros (m - n)
drop-zeros n m = drop-replicate n m 0

pub zeros-append : (n m k : ℕ) → n + m ≡ k → zeros n ++ zeros m ≡ zeros k
zeros-append n m k h = replicate-append n m 0 ∙ replicate_eq 0 h
