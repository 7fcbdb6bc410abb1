-- ===== src/Path.antt =====
-- File names (expand_path and compact_path of src/file.c). The parameters are the environment: the
-- working directory, the user's home directory, and those of other users. A string is the list of
-- its bytes; `none` is a failed assertion of astr.c.
pub mod Plain
use zile.Prelude.{
  ℕ, zero, suc, ◌+◌, ◌-◌, List, [], ◌∷◌, ◌++◌, Option, none, some, Bool, true, false, not, ◌&&◌,
  ◌||◌, ◌==◌, ltb, if◌then◌else◌, ◌>>=◌, length, take, drop,
}
use zile.Memmem.{is_prefix}
use zile.History.{streq}

-- Whether the string begins with the byte.
abbrev pub starts : ℕ → List ℕ → Bool
starts c [] = false
starts c (x ∷ s) = x == c

-- Whether an entry of the path ends here.
abbrev pub entry_ends : List ℕ → Bool
entry_ends [] = true
entry_ends (x ∷ s) = x == 47

abbrev pub ends_with_slash : List ℕ → Bool
ends_with_slash [] = false
ends_with_slash (x ∷ []) = x == 47
ends_with_slash (x ∷ y ∷ s) = ends_with_slash (y ∷ s)

unfoldable pub drop_last : List ℕ → List ℕ
drop_last [] = []
drop_last (x ∷ []) = []
drop_last (x ∷ y ∷ s) = x ∷ drop_last (y ∷ s)

unfoldable pub skip_slashes : List ℕ → List ℕ
skip_slashes [] = []
skip_slashes (c ∷ s) = if c == 47 then skip_slashes s else c ∷ s

-- An entry and what follows it.
unfoldable pub take_entry : List ℕ → List ℕ × List ℕ
take_entry [] = ([], [])
take_entry (c ∷ s) = let (n, rest) = take_entry s in if c == 47 then ([], c ∷ s) else (c ∷ n, rest)

abbrev pub with_slash : List ℕ → List ℕ
with_slash e = if ends_with_slash e then e else e ++ (47 ∷ [])

-- The loop that takes an entry off; the last byte is read before the length is tested, which fails
-- on the empty string.
unfoldable pub strip_entry : ℕ → List ℕ → Option (List ℕ)
unfolding drop_last
strip_entry zero e = none
strip_entry (suc fuel) [] = none
strip_entry (suc fuel) (c ∷ e) =
    let rest = strip_entry fuel (drop_last (c ∷ e)) in
    if ends_with_slash (c ∷ e) then some (c ∷ e) else rest

-- "Got `..'."
unfoldable pub parent : List ℕ → Option (List ℕ)
unfolding strip_entry drop_last
parent e =
    let cut = if ends_with_slash e then drop_last e else e in strip_entry (length cut + 1) cut

module _ (cwd : List ℕ) (home : Option (List ℕ)) (home_of : List ℕ → Option (List ℕ)) where
  -- "Got `/~' or leading `~'": the home directory and what follows the tilde and the name.
  unfoldable pub tilde : List ℕ → Option (List ℕ × List ℕ)
  unfolding take_entry
  tilde s =
      let (name, rest) = take_entry s in
      let own = (do h ← home; some (if streq h (47 ∷ []) then [] else h, s)) in
      let other = (do h ← home_of name; some (h, rest)) in if starts 47 s then own else other

  -- The loop: `first` says that `~` would begin an entry here, `p` is what is left of the path.
  unfoldable pub expand_loop : ℕ → Bool → List ℕ → List ℕ → Option (Bool × List ℕ)
  unfolding tilde skip_slashes take_entry parent
  expand_loop zero first p e = none
  expand_loop (suc fuel) first [] e = some (true, e)
  expand_loop (suc fuel) first (c ∷ s) e =
      let on = λ (entry : Bool) (q e1 : List ℕ).
        (let (n, rest) = take_entry q in
          let whole = expand_loop fuel entry q e1 in
          let shorter = expand_loop fuel false rest (e1 ++ n) in
          if starts 126 q then whole else shorter) in
      let slash = on true (skip_slashes s) (with_slash (if starts 47 s then [] else e)) in
      let home_dir : Option (Bool × List ℕ) = elim (tilde s) [
        | none ↦ some (false, [])
        | some hr ↦ on false hr.1 hr.0
      ] in
      let up = (do e1 ← parent e; on false (drop 1 s) e1) in
      if c == 47
      then slash
      else if c == 126 && first
      then home_dir
      else if c == 46 && entry_ends s
      then on false s e
      else if c == 46 && starts 46 s && entry_ends (drop 1 s)
      then up
      else on false (c ∷ s) e

  unfoldable pub expand_path : List ℕ → Option (Bool × List ℕ)
  unfolding expand_loop
  expand_path path =
      let e = if starts 47 path || starts 126 path then [] else with_slash cwd in
      expand_loop (length path + 1) true path e

  -- The home directory is replaced by `~`.
  unfoldable pub compact_path : List ℕ → List ℕ
  compact_path path = elim home [
    | none ↦ path
    | some h ↦
        let n = if ends_with_slash h then length h - 1 else length h in
        if ltb n (length path) && is_prefix (take n h) path && starts 47 (drop n path)
        then 126 ∷ 47 ∷ drop (n + 1) path
        else path
  ]
