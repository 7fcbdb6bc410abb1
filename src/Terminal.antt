-- ===== src/Terminal.antt =====
-- Keys and the codes of the terminal (src/term_curses.c). The constants of the curses library are
-- a parameter. Codes that were pushed back are a stack, the last one first; reading beyond it is
-- the library's `getch`, and `none` here.
pub mod Keys
use zile.Prelude.{
  ℕ, zero, suc, ◌+◌, ◌-◌, List, [], ◌∷◌, ◌++◌, Option, none, some, Bool, true, false, not, ◌&&◌,
  ◌||◌, ◌==◌, ltb, leb, if◌then◌else◌, ◌>>=◌,
}
use zile.Astr.{size_max}

pub record Curses : Type 0 where
  pub key_suspend : ℕ
  pub key_backspace : ℕ
  pub backspace_code : ℕ
  pub key_ppage : ℕ
  pub key_npage : ℕ
  pub key_home : ℕ
  pub key_end : ℕ
  pub key_dc : ℕ
  pub key_ic : ℕ
  pub key_left : ℕ
  pub key_right : ℕ
  pub key_up : ℕ
  pub key_down : ℕ
  pub key_f : ℕ → ℕ

-- C-@, TAB, RET, C-_ and BS, with their codes.
abbrev pub fixed_pairs : List (ℕ × ℕ)
fixed_pairs = (576, 0) ∷ (258, 9) ∷ (259, 13) ∷ (607, 31) ∷ (265, 127) ∷ []

-- The keys that have a constant of the library as their code.
unfoldable pub special_pairs : Curses → List (ℕ × ℕ)
special_pairs c =
    (260, c.key_ppage)
    ∷ (261, c.key_npage)
    ∷ (262, c.key_home)
    ∷ (263, c.key_end)
    ∷ (264, c.key_dc)
    ∷ (266, c.key_ic)
    ∷ (267, c.key_left)
    ∷ (268, c.key_right)
    ∷ (269, c.key_up)
    ∷ (270, c.key_down)
    ∷ (272, c.key_f 1)
    ∷ (273, c.key_f 2)
    ∷ (274, c.key_f 3)
    ∷ (275, c.key_f 4)
    ∷ (276, c.key_f 5)
    ∷ (277, c.key_f 6)
    ∷ (278, c.key_f 7)
    ∷ (279, c.key_f 8)
    ∷ (280, c.key_f 9)
    ∷ (281, c.key_f 10)
    ∷ (282, c.key_f 11)
    ∷ (283, c.key_f 12)
    ∷ []

-- The table of both.
unfoldable pub key_pairs : Curses → List (ℕ × ℕ)
key_pairs c = fixed_pairs ++ special_pairs c

unfoldable pub key_of : ℕ → List (ℕ × ℕ) → Option ℕ
key_of code [] = none
key_of code ((k, c) ∷ ps) = if c == code then some k else key_of code ps

unfoldable pub code_of : ℕ → List (ℕ × ℕ) → Option ℕ
code_of key [] = none
code_of key ((k, c) ∷ ps) = if k == key then some c else code_of key ps

-- C-a to C-z less TAB and RET, as a code.
abbrev pub is_control : ℕ → Bool
is_control code = leb 1 code && leb code 26 && not (code == 9) && not (code == 13)

abbrev pub meta : ℕ
meta = 1024

-- `codetokey` of a code that is no backspace.
unfoldable pub plain_key : Curses → ℕ → ℕ
plain_key c code = elim (key_of code (key_pairs c)) [
  | some k ↦ k
  | none ↦
      if is_control code
      then code + 608
      else if code == c.key_suspend
      then 634
      else if code == 27
      then meta
      else if ltb 255 code
      then size_max
      else code
]

-- A backspace code that is the backspace's own makes the function call itself for ever.
unfoldable pub codetokey : Curses → ℕ → Option ℕ
codetokey c code =
    if not (code == c.key_backspace)
    then some (plain_key c code)
    else if c.backspace_code == c.key_backspace
    then none
    else some (plain_key c c.backspace_code)

-- The codes of a key without META.
unfoldable pub plain_codes : Curses → ℕ → List ℕ
plain_codes c key = elim (code_of key (key_pairs c)) [
  | some code ↦ code ∷ []
  | none ↦
      if leb 608 key && is_control (key - 608)
      then (key - 608) ∷ []
      else if leb key 255
      then key ∷ []
      else []
]

-- Keys are below twice META; the flag is the highest bit.
unfoldable pub keytocodes : Curses → ℕ → List ℕ
keytocodes c key =
    if key == size_max
    then []
    else if leb meta key
    then 27 ∷ plain_codes c (key - meta)
    else plain_codes c key

-- The codes are pushed from the last to the first.
unfoldable pub term_ungetkey : Curses → ℕ → List ℕ → List ℕ
term_ungetkey c key buf = keytocodes c key ++ buf

unfoldable pub get_char : List ℕ → Option (ℕ × List ℕ)
get_char [] = none
get_char (code ∷ buf) = some (code, buf)

-- `key | KBD_META`, for a key that may have the flag.
abbrev pub with_meta : ℕ → ℕ
with_meta key = if key == size_max then size_max else if leb meta key then key else key + meta

-- The loop of `term_getkey` that reads on after META: its round gives a key with the flag set, which
-- is META itself only where META was read again.
unfoldable pub read_meta : Curses → ℕ → ℕ → List ℕ → Option (ℕ × List ℕ)
read_meta c zero key buf = none
read_meta c (suc fuel) key buf =
    let more = (do
      (code, buf1) ← get_char buf
      k ← codetokey c code
      read_meta c fuel (with_meta k) buf1) in
    if key == meta then more else some (key, buf)

unfoldable pub term_getkey : Curses → ℕ → List ℕ → Option (ℕ × List ℕ)
term_getkey c fuel buf = do
  (code, buf1) ← get_char buf
  key ← codetokey c code
  read_meta c fuel key buf1
