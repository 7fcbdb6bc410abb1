-- ===== src/Estr.antt =====
-- Strings with an end-of-line type (src/estr.c, src/estr.h). The C code tells the types
-- apart by the address of their text, which the constructors of `Eol` stand for.
pub mod Convert
use zile.Prelude.{
  ℕ, zero, suc, ◌+◌, ◌-◌, ◌*◌, ◌%◌, List, [], ◌∷◌, Option, none, some, Bool, true, false, ◌&&◌,
  ◌||◌, not, ◌==◌, ltb, if◌then◌else◌, length, take, drop, ◌>>=◌,
}
use zile.Astr.{
  Astr, astr_new, astr_len, astr_cpy, astr_insert, astr_replace_nstr, size_mod, size_max,
}
use zile.Memmem.{memmem, memrmem}

pub data Eol : Type 0 where
  lf crlf cr : Eol

-- "\n", "\r\n" and "\r"
abbrev pub eol_bytes : Eol → List ℕ
eol_bytes lf = 10 ∷ []
eol_bytes crlf = 13 ∷ 10 ∷ []
eol_bytes cr = 13 ∷ []

-- `strlen` of the type's text
abbrev pub eol_len : Eol → ℕ
eol_len e = length (eol_bytes e)

abbrev pub same_eol : Eol → Eol → Bool
same_eol lf lf = true
same_eol crlf crlf = true
same_eol cr cr = true
same_eol _ _ = false

pub record Estr : Type 0 where
  pub str : Astr
  pub eol : Eol

unfoldable pub estr_empty : Estr
estr_empty = record { str = astr_new; eol = lf }

abbrev pub max_eol_check_count : ℕ
max_eol_check_count = 3

-- What one end of line does to the type chosen so far, and whether the loop breaks.
abbrev pub check_eol : Bool → Eol → Eol → Eol × Bool
check_eol first_eol eol this_eol_type =
    if first_eol
    then (this_eol_type, false)
    else if same_eol eol this_eol_type
    then (eol, false)
    else (lf, true)

-- The loop of `estr_new_astr` over the bytes from index `i` on.
unfoldable pub detect_loop : Bool → ℕ → Eol → List ℕ → Eol
detect_loop first_eol total_eols eol [] = eol
detect_loop first_eol total_eols eol (c ∷ []) =
    if ltb total_eols max_eol_check_count && (c == 10 || c == 13)
    then (check_eol first_eol eol (if c == 10 then lf else cr)).0
    else eol
detect_loop first_eol total_eols eol (c ∷ (d ∷ rest)) =
    let next = detect_loop first_eol total_eols eol (d ∷ rest) in
    let single = check_eol first_eol eol (if c == 10 then lf else cr) in
    let after_single = detect_loop false (total_eols + 1) single.0 (d ∷ rest) in
    let pair = check_eol first_eol eol crlf in
    let after_pair = detect_loop false (total_eols + 1) pair.0 rest in
    if not (ltb total_eols max_eol_check_count)
    then eol
    else if not (c == 10 || c == 13)
    then next
    else if c == 10 || not (d == 10)
    then (if single.1 then single.0 else after_single)
    else (if pair.1 then pair.0 else after_pair)

unfoldable pub estr_new_astr : Astr → Option Estr
unfolding detect_loop
estr_new_astr s = do
  copy ← astr_cpy astr_new s
  some (record { str = copy; eol = detect_loop true 0 lf s.text })

unfoldable pub estr_start_of_line : Estr → ℕ → ℕ
estr_start_of_line es o = elim (memrmem es.str.text o (eol_bytes es.eol)) [
  | some prev ↦ prev + eol_len es.eol
  | none ↦ 0
]

unfoldable pub estr_end_of_line : Estr → ℕ → ℕ
estr_end_of_line es o = elim (memmem (drop o es.str.text) (eol_bytes es.eol)) [
  | some next ↦ o + next
  | none ↦ length es.str.text
]

unfoldable pub estr_prev_line : Estr → ℕ → ℕ
unfolding estr_start_of_line
estr_prev_line es o =
    let so = estr_start_of_line es o in
    if so == 0 then size_max else estr_start_of_line es (so - eol_len es.eol)

unfoldable pub estr_next_line : Estr → ℕ → ℕ
unfolding estr_end_of_line
estr_next_line es o =
    let eo = estr_end_of_line es o in
    if eo == length es.str.text then size_max else eo + eol_len es.eol

unfoldable pub estr_line_len : Estr → ℕ → ℕ
unfolding estr_start_of_line estr_end_of_line
estr_line_len es o = estr_end_of_line es o - estr_start_of_line es o

-- The loop of `estr_lines` over the bytes left, on fuel: each round takes at least one byte.
unfoldable pub lines_loop : ℕ → Eol → List ℕ → ℕ → ℕ
lines_loop zero eol s lines = lines
lines_loop (suc fuel) eol s lines = elim (memmem s (eol_bytes eol)) [
  | none ↦ lines
  | some next ↦ lines_loop fuel eol (drop (next + eol_len eol) s) (lines + 1)
]

unfoldable pub estr_lines : Estr → ℕ
unfolding lines_loop
estr_lines es = lines_loop (suc (length es.str.text)) es.eol es.str.text 0

-- The macro `estr_len`, whose difference of two sizes may wrap.
unfoldable pub estr_len : Estr → Eol → ℕ
unfolding estr_lines
estr_len es eol_type =
    (length es.str.text
      + estr_lines es * ((eol_len eol_type + size_mod - eol_len es.eol) % size_mod))
    % size_mod

-- The loop of `estr_replace_estr`: `s` are the source's bytes that are left.
unfoldable pub replace_loop : ℕ → Eol → Eol → Astr → ℕ → List ℕ → Option Astr
replace_loop zero src_eol es_eol dst pos s = none
replace_loop (suc fuel) src_eol es_eol dst pos [] = some dst
replace_loop (suc fuel) src_eol es_eol dst pos (c ∷ s) = elim (memmem (c ∷ s) (eol_bytes src_eol)) [
  | none ↦ do
    dst1 ← astr_replace_nstr dst pos (c ∷ s)
    replace_loop fuel src_eol es_eol dst1 (pos + length (c ∷ s)) []
  | some next ↦ do
    dst1 ← astr_replace_nstr dst pos (take next (c ∷ s))
    dst2 ← astr_replace_nstr dst1 (pos + next) (eol_bytes es_eol)
    replace_loop fuel src_eol es_eol dst2 (pos + next + eol_len es_eol)
        (drop (next + eol_len src_eol) (c ∷ s))
]

unfoldable pub estr_replace_estr : Estr → ℕ → Estr → Option Estr
unfolding replace_loop
estr_replace_estr es pos src = do
  str' ← replace_loop (suc (length src.str.text) + 1) src.eol es.eol es.str pos src.str.text
  some (record es { str = str' })

unfoldable pub estr_cat : Estr → Estr → Option Estr
unfolding estr_replace_estr estr_len
estr_cat es src = do
  let oldlen = length es.str.text
  grown ← astr_insert es.str oldlen (estr_len src es.eol)
  estr_replace_estr (record es { str = grown }) oldlen src
