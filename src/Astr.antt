-- ===== src/Astr.antt =====
-- Strings of bytes that grow on demand (src/astr.c). `text` holds the bytes 0 .. len - 1 of the C
-- field `text`, so `len` is its length; the terminating NUL, at index `len`, is not kept.
-- An operation that fails an `assert` is `none`. Sizes are those of allocated memory and are
-- not wrapped, save in the overflow test of `astr_insert`.
pub mod Laws
use zile.Prelude.{
  ℕ, ◌+◌, ◌-◌, ◌/◌, ◌%◌, ◌^◌, max, List, [], ◌∷◌, ◌++◌, ◌==◌, map, Bool, true, false, Option, none,
  some, ◌||◌, if◌then◌else◌, ltb, leb, length, take, drop, replicate, blit, assert, ◌>>=◌, ◌>>◌,
  get_elem?,
}

pub record Astr : Type 0 where
  pub text : List ℕ
  pub maxlen : ℕ

abbrev pub allocation_chunk_size : ℕ
allocation_chunk_size = 16

-- One more than SIZE_MAX.
abbrev pub size_mod : ℕ
size_mod = 2 ^ 64

abbrev pub size_max : ℕ
size_max = 0xffffffffffffffff

unfoldable pub astr_new : Astr
astr_new = record { text = []; maxlen = allocation_chunk_size }

unfoldable pub astr_len : Astr → ℕ
astr_len as' = length as'.text

-- The bytes that a longer string gains are 0 here; every caller overwrites all of them.
unfoldable pub astr_set_len : Astr → ℕ → Astr
astr_set_len s len = record {
  text = take len s.text ++ replicate (len - length s.text) 0;
  maxlen =
      if ltb s.maxlen len || ltb len (s.maxlen / 2) then len + allocation_chunk_size else s.maxlen;
}

unfoldable pub astr_cat_nstr : Astr → List ℕ → Astr
astr_cat_nstr s bytes =
    let oldlen = length s.text in
    let s' = astr_set_len s (oldlen + length bytes) in
    record s' { text = blit s'.text oldlen bytes }

unfoldable pub astr_replace_nstr : Astr → ℕ → List ℕ → Option Astr
astr_replace_nstr s pos bytes = do
  assert (leb pos (length s.text))
  assert (leb (length bytes) (length s.text - pos))
  some (record s { text = blit s.text pos bytes })

unfoldable pub astr_remove : Astr → ℕ → ℕ → Option Astr
astr_remove s pos size = do
  assert (leb pos (length s.text))
  assert (leb size (length s.text - pos))
  let moved : Astr = record s { text = blit s.text pos (drop (pos + size) s.text) }
  some (astr_set_len moved (length s.text - size))

unfoldable pub astr_insert : Astr → ℕ → ℕ → Option Astr
astr_insert s pos size = do
  assert (leb pos (length s.text))
  assert (leb (max pos size) ((pos + size) % size_mod))
  let grown = astr_set_len s (length s.text + size)
  let tail = take (length grown.text - (pos + size)) (drop pos grown.text)
  let moved = blit grown.text (pos + size) tail
  some (record grown { text = blit moved pos (replicate size 0) })

unfoldable pub astr_move : Astr → ℕ → ℕ → ℕ → Option Astr
astr_move s to from n = do
  assert (leb to (length s.text))
  assert (leb from (length s.text))
  assert (leb n (length s.text - max from to))
  some (record s { text = blit s.text to (take n (drop from s.text)) })

unfoldable pub astr_set : Astr → ℕ → ℕ → ℕ → Option Astr
astr_set s pos c n = do
  assert (leb pos (length s.text))
  assert (leb n (length s.text - pos))
  some (record s { text = blit s.text pos (replicate n c) })

-- The byte at `len` is the terminating NUL.
unfoldable pub astr_get : Astr → ℕ → Option ℕ
astr_get s pos = do
  assert (leb pos (length s.text))
  elim (get_elem? s.text pos) [ some c ↦ some c | none ↦ some 0 ]

unfoldable pub astr_truncate : Astr → ℕ → Option Astr
unfolding astr_remove
astr_truncate s pos = astr_remove s pos ((length s.text + size_mod - pos) % size_mod)

unfoldable pub astr_ncpy_cstr : Astr → List ℕ → Option Astr
astr_ncpy_cstr s bytes = do s' ← astr_truncate s 0; some (astr_cat_nstr s' bytes)

unfoldable pub astr_cpy : Astr → Astr → Option Astr
astr_cpy s src = astr_ncpy_cstr s src.text

unfoldable pub astr_cat : Astr → Astr → Astr
astr_cat s src = astr_cat_nstr s src.text

unfoldable pub astr_cat_char : Astr → ℕ → Astr
astr_cat_char s c = astr_cat_nstr s ((c % 256) ∷ [])

unfoldable pub astr_substr : Astr → ℕ → ℕ → Option Astr
astr_substr s pos size = do
  assert (leb (pos + size) (length s.text))
  some (astr_cat_nstr astr_new (take size (drop pos s.text)))

pub data Casing : Type 0 where
  case_lower case_upper case_capitalized : Casing

unfoldable pub to_upper : ℕ → ℕ
to_upper c = if ltb c b'a' || ltb b'z' c then c else c - 32

unfoldable pub to_lower : ℕ → ℕ
to_lower c = if ltb c b'A' || ltb b'Z' c then c else c + 32

recase_first : Casing → ℕ → ℕ
unfolding to_upper to_lower
recase_first case_lower c = to_lower c
recase_first _ c = to_upper c

recase_rest : Casing → ℕ → ℕ
unfolding to_upper to_lower
recase_rest case_upper c = to_upper c
recase_rest _ c = to_lower c

-- The loop from index 1 on.
recase_loop : Casing → Astr → List ℕ → Astr
recase_loop casing bs [] = bs
recase_loop casing bs (c ∷ rest) = recase_loop casing (astr_cat_char bs (recase_rest casing c)) rest

unfoldable pub astr_recase : Astr → Casing → Option Astr
unfolding recase_first recase_rest recase_loop
astr_recase s casing = do
  first ← astr_get s 0
  let bs = astr_cat_char astr_new (recase_first casing first)
  astr_cpy s (recase_loop casing bs (drop 1 s.text))
