-- ===== src/Memmem.antt =====
-- Searching for a run of bytes: `memrmem` (src/memrmem.c), and the C library's `memcmp` and
-- `memmem`. A pointer into the searched bytes is its index, and NULL is `none`.
use zile.Prelude.{
  ℕ, zero, suc, ◌-◌, List, [], ◌∷◌, Option, none, some, Bool, true, false, ◌&&◌, ◌==◌, leb,
  if◌then◌else◌, length, drop,
}
use mathlib.Core.Option

-- `memcmp (s, t, tlen) == 0`, where `s` may be read up to its end.
unfoldable pub is_prefix : List ℕ → List ℕ → Bool
is_prefix [] s = true
is_prefix (x ∷ t) [] = false
is_prefix (x ∷ t) (y ∷ s) = x == y && is_prefix t s

unfoldable pub memmem : List ℕ → List ℕ → Option ℕ
unfolding is_prefix
memmem [] t = if is_prefix t [] then some 0 else none
memmem (c ∷ s) t = if is_prefix t (c ∷ s) then some 0 else Option.map suc (memmem s t)

-- The loop of `memrmem` from index `i` down.
unfoldable pub memrmem_loop : ℕ → List ℕ → List ℕ → Option ℕ
memrmem_loop zero s t = if is_prefix t s then some 0 else none
memrmem_loop (suc i) s t = if is_prefix t (drop (suc i) s) then some (suc i) else memrmem_loop i s t

-- Only the first `slen` bytes of `s` are searched.
unfoldable pub memrmem : List ℕ → ℕ → List ℕ → Option ℕ
unfolding memrmem_loop is_prefix
memrmem s slen t = if leb (length t) slen then memrmem_loop (slen - length t) s t else none
