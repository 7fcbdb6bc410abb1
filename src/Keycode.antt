-- ===== src/Keycode.antt =====
-- Key codes and key strings (src/keycode.c, the codes of src/main.h).
pub mod Parse
use zile.Prelude.{
  ℕ, zero, suc, ◌+◌, ◌-◌, ◌/◌, ◌%◌, ◌^◌, List, [], ◌∷◌, ◌++◌, Option, none, some, Bool, true, false,
  ◌==◌, leb, ltb, ◌&&◌, ◌||◌, if◌then◌else◌, length, drop, codes,
}
use Prim.Native.Nat.{bit_or}
use mathlib.Core.List.{reverse}
use zile.Astr.{size_max}
use zile.Memmem.{is_prefix}
use zile.Keymap.{kbd_ctrl, kbd_meta}

abbrev pub kbd_nokey : ℕ
kbd_nokey = size_max

-- Key names and key codes, `keyname[]` beside `keycode[]`.
abbrev pub keynames : List (List ℕ × ℕ)
keynames =
    (codes "\\BACKSPACE", 0o411)
    ∷ (codes "\\C-", kbd_ctrl)
    ∷ (codes "\\DELETE", 0o410)
    ∷ (codes "\\DOWN", 0o416)
    ∷ (codes "\\e", 0o33)
    ∷ (codes "\\END", 0o407)
    ∷ (codes "\\F1", 0o420)
    ∷ (codes "\\F10", 0o431)
    ∷ (codes "\\F11", 0o432)
    ∷ (codes "\\F12", 0o433)
    ∷ (codes "\\F2", 0o421)
    ∷ (codes "\\F3", 0o422)
    ∷ (codes "\\F4", 0o423)
    ∷ (codes "\\F5", 0o424)
    ∷ (codes "\\F6", 0o425)
    ∷ (codes "\\F7", 0o426)
    ∷ (codes "\\F8", 0o427)
    ∷ (codes "\\F9", 0o430)
    ∷ (codes "\\HOME", 0o406)
    ∷ (codes "\\INSERT", 0o412)
    ∷ (codes "\\LEFT", 0o413)
    ∷ (codes "\\M-", kbd_meta)
    ∷ (codes "\\NEXT", 0o405)
    ∷ (codes "\\PAGEDOWN", 0o405)
    ∷ (codes "\\PAGEUP", 0o404)
    ∷ (codes "\\PRIOR", 0o404)
    ∷ (codes "\\r", 0o403)
    ∷ (codes "\\RET", 0o403)
    ∷ (codes "\\RIGHT", 0o414)
    ∷ (codes "\\SPC", b' ')
    ∷ (codes "\\t", 0o402)
    ∷ (codes "\\TAB", 0o402)
    ∷ (codes "\\UP", 0o415)
    ∷ (codes "\\\\", b'\\')
    ∷ []

-- The loop of `strtokey` over the table: the last name that matches.
unfoldable pub last_match : List (List ℕ × ℕ) → List ℕ → Option (List ℕ × ℕ) → Option (List ℕ × ℕ)
unfolding is_prefix
last_match [] buf p = p
last_match ((name, code) ∷ table) buf p =
    last_match table buf (if is_prefix name buf then some (name, code) else p)

-- The key code, and the number of bytes read. At the end of the string the terminating NUL is
-- read like any other byte.
unfoldable pub strtokey : List ℕ → ℕ × ℕ
unfolding last_match
strtokey [] = (0, 1)
strtokey (c ∷ buf) =
    let named : ℕ × ℕ = elim (last_match keynames (c ∷ buf) none) [
      | none ↦ (kbd_nokey, 0)
      | some (name, code) ↦ (code, length name)
    ] in
    if c == b'\\' then named else (c, 1)

-- The loop of `strtochord` on fuel; `none` if the fuel runs out.
unfoldable pub chord_loop : ℕ → List ℕ → ℕ → ℕ → Option (ℕ × ℕ)
chord_loop zero buf len key = none
chord_loop (suc fuel) buf len key =
    let (k, l) = strtokey (drop len buf) in
    let again = chord_loop fuel buf (len + l) (bit_or key k) in
    if k == kbd_nokey
    then some (kbd_nokey, 0)
    else if k == kbd_ctrl || k == kbd_meta
    then again
    else some (bit_or key k, len + l)

unfoldable pub strtochord : List ℕ → Option (ℕ × ℕ)
unfolding chord_loop
strtochord buf = chord_loop (suc (length buf)) buf 0 0

-- What `keystrtovec` ends with. `overrun`: the pointer has passed the terminating NUL.
pub data KeyVec : Type 0 where
  keys : List ℕ → KeyVec
  invalid overrun : KeyVec

-- The loop of `keystrtovec` on fuel, with the keys read so far, the last first.
unfoldable pub vec_loop : ℕ → List ℕ → List ℕ → Option KeyVec
vec_loop zero key done = none
vec_loop (suc fuel) [] done = some (keys (reverse done))
vec_loop (suc fuel) (c ∷ key) done = elim (strtochord (c ∷ key)) [
  | none ↦ none
  | some (code, len) ↦
      let rest = vec_loop fuel (drop len (c ∷ key)) (code ∷ done) in
      if code == kbd_nokey
      then some invalid
      else if ltb (length (c ∷ key)) len
      then some overrun
      else rest
]

unfoldable pub keystrtovec : List ℕ → Option KeyVec
unfolding vec_loop strtochord strtokey
keystrtovec key = vec_loop (suc (length key)) key []

-- The names of `chordtodesc`'s switch.
abbrev pub chord_names : List (ℕ × List ℕ)
chord_names =
    (0o404, codes "<prior>")
    ∷ (0o405, codes "<next>")
    ∷ (0o406, codes "<home>")
    ∷ (0o407, codes "<end>")
    ∷ (0o410, codes "<delete>")
    ∷ (0o411, codes "<backspace>")
    ∷ (0o412, codes "<insert>")
    ∷ (0o413, codes "<left>")
    ∷ (0o414, codes "<right>")
    ∷ (0o415, codes "<up>")
    ∷ (0o416, codes "<down>")
    ∷ (0o403, codes "<RET>")
    ∷ (0o402, codes "<TAB>")
    ∷ (0o420, codes "<f1>")
    ∷ (0o421, codes "<f2>")
    ∷ (0o422, codes "<f3>")
    ∷ (0o423, codes "<f4>")
    ∷ (0o424, codes "<f5>")
    ∷ (0o425, codes "<f6>")
    ∷ (0o426, codes "<f7>")
    ∷ (0o427, codes "<f8>")
    ∷ (0o430, codes "<f9>")
    ∷ (0o431, codes "<f10>")
    ∷ (0o432, codes "<f11>")
    ∷ (0o433, codes "<f12>")
    ∷ (b' ', codes "SPC")
    ∷ []

unfoldable pub name_of : List (ℕ × List ℕ) → ℕ → Option (List ℕ)
name_of [] key = none
name_of ((code, name) ∷ table) key = if code == key then some name else name_of table key

-- "%x" of an unsigned int: at most eight digits.
unfoldable pub hex_digits : ℕ → ℕ → List ℕ → List ℕ
hex_digits zero n tail = tail
hex_digits (suc fuel) n tail =
    let d = n % 16 in
    let tail' = (if ltb d 10 then b'0' + d else b'a' + (d - 10)) ∷ tail in
    let more = hex_digits fuel (n / 16) tail' in if n / 16 == 0 then tail' else more

unfoldable pub chordtodesc : ℕ → List ℕ
unfolding name_of hex_digits
chordtodesc key =
    let ctrl = key / kbd_ctrl % 2 == 1 in
    let meta = key / kbd_meta % 2 == 1 in
    let base = key - (if ctrl then kbd_ctrl else 0) - (if meta then kbd_meta else 0) in
    let plain : List ℕ =
      if leb 33 base && leb base 126
      then base ∷ []
      else b'<' ∷ (hex_digits 8 (base % 2 ^ 32) [] ++ (b'>' ∷ [])) in
    (if ctrl then codes "C-" else [])
    ++ ((if meta then codes "M-" else [])
        ++ elim (name_of chord_names base) [ some name ↦ name | none ↦ plain ])

unfoldable pub keyvectodesc : List ℕ → List ℕ
unfolding chordtodesc
keyvectodesc [] = []
keyvectodesc (key ∷ []) = chordtodesc key
keyvectodesc (key ∷ (key' ∷ keys')) = chordtodesc key ++ (b' ' ∷ keyvectodesc (key' ∷ keys'))
