-- ===== src/Uniarg.antt =====
-- universal-argument (src/funcs.c), and how the argument is shown while keys are read
-- (do_binding_completion of src/bind.c). The keys that arrive are a list; `none` is an argument
-- beyond the C type int, or that no key has come.
pub mod Digits
use zile.Prelude.{
  ℕ, zero, suc, ◌+◌, ◌-◌, ◌*◌, ◌/◌, ◌%◌, ◌^◌, List, [], ◌∷◌, ◌++◌, Option, none, some, Bool, true,
  false, not, ◌&&◌, ◌||◌, ◌==◌, ltb, leb, if◌then◌else◌, ◌>>=◌, ℤ, pos, negsuc, negate, is_negative,
  abs, codes, assert, ◌>>◌, length,
}
use zile.Keymap.{kbd_meta}
use zile.Minibuffer.{ctrl, kbd_cancel}

-- The variables of the loop: the digits so far, the argument, its sign and the text that is shown.
pub record Counting : Type 0 where
  pub digits : ℕ
  pub arg : ℕ
  pub negative : Bool
  pub empty : Bool
  pub text : List ℕ

-- What is left when it is over: FLAG_UNIARG_EMPTY and `last_uniarg`, the key that is pushed back, and
-- the keys that have not been read. `quit` is C-g.
pub record Counted : Type 0 where
  pub last_uniarg : ℤ
  pub uniarg_empty : Bool
  pub ungot : Option ℕ
  pub unread : List ℕ

pub data Argument : Type 0 where
  quit : List ℕ → Argument
  counted : Counted → Argument

abbrev pub int_max : ℕ
int_max = 2 ^ 31

-- `key & 0xff` is a digit.
abbrev pub is_digit : ℕ → Bool
is_digit key = leb b'0' (key % 256) && leb (key % 256) b'9'

abbrev pub has_meta : ℕ → Bool
has_meta key = key / kbd_meta % 2 == 1

unfoldable pub shown_digit : ℕ → ℕ → Counting → List ℕ
shown_digit key digit u =
    let gap = if ltb 0 (length u.text) then b' ' ∷ [] else [] in
    let escape = if has_meta key then gap ++ codes "ESC" else [] in
    u.text ++ (escape ++ b' ' ∷ (digit + b'0') ∷ [])

unfoldable pub add_digit : ℕ → Counting → Option Counting
add_digit key u = do
  let digit = key % 256 - b'0'
  let arg = if u.digits == 0 then digit else u.arg * 10 + digit
  assert (ltb arg int_max)
  some
      (record u { digits = u.digits + 1; arg = arg; empty = false; text = shown_digit key digit u })

-- `sgn` changes once; the default is -1, not -4.
unfoldable pub add_minus : Counting → Counting
add_minus u =
    if u.negative
    then u
    else record u { negative = true; arg = 1; empty = false; text = u.text ++ codes " -" }

-- The end of the loop.
abbrev pub ends : Counting → Option ℕ → List ℕ → Argument
ends u ungot unread = counted (record {
  last_uniarg = if u.negative then negate (pos u.arg) else pos u.arg;
  uniarg_empty = u.empty;
  ungot = ungot;
  unread = unread;
})

-- Each key is a round of the loop.
unfoldable pub uniarg_loop : List ℕ → Counting → Option Argument
uniarg_loop [] u = none
uniarg_loop (key ∷ keys) u =
    let next_digit = (do u1 ← add_digit key u; uniarg_loop keys u1) in
    let more = (do
      assert (ltb (u.arg * 4) int_max)
      uniarg_loop keys (record u { arg = u.arg * 4; text = u.text ++ codes "C-u" })) in
    let minus = uniarg_loop keys (add_minus u) in
    if key == kbd_cancel
    then some (quit keys)
    else if is_digit key
    then next_digit
    else if key == ctrl b'u'
    then (if u.digits == 0 then more else some (ends u none keys))
    else if (key == b'-' || key == kbd_meta + b'-') && u.digits == 0
    then minus
    else some (ends u (some key) keys)

-- The key that has called the command is pushed back first.
unfoldable pub universal_argument : ℕ → List ℕ → Option Argument
unfolding uniarg_loop add_digit add_minus
universal_argument lastkey keys =
    uniarg_loop (lastkey ∷ keys)
      (record { digits = 0; arg = 1; negative = false; empty = true; text = [] })

-- The loop of `do_binding_completion` over the digits of an argument, on fuel.
unfoldable pub digits_shown : ℕ → ℕ → List ℕ → List ℕ
digits_shown zero arg bs = bs
digits_shown (suc fuel) arg bs =
    let shown = (arg % 10 + b'0') ∷ b' ' ∷ bs in
    let rest = digits_shown fuel (arg / 10) shown in if arg / 10 == 0 then shown else rest

-- What `do_binding_completion` writes; `uniarg` is `last_uniarg` if FLAG_SET_UNIARG is set.
unfoldable pub binding_prompt : Option ℤ → Bool → List ℕ → List ℕ
unfolding digits_shown
binding_prompt uniarg uniarg_empty text =
    let number : List ℕ = elim uniarg [
      | none ↦ []
      | some n ↦ (if is_negative n then codes "- " else []) ++ digits_shown (suc (abs n)) (abs n) []
    ] in
    let set : Bool = elim uniarg [ none ↦ uniarg_empty | some n ↦ true ] in
    (if set then codes "C-u " else []) ++ (number ++ (text ++ codes "-"))
