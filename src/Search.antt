-- ===== src/Search.antt =====
-- Searching (src/search.c). The regular expression library is a parameter.
pub mod Case
use zile.Prelude.{
  ℕ, ◌+◌, ◌-◌, ◌%◌, ◌^◌, ◌<◌, ℤ, pos, negsuc, List, [], ◌∷◌, Option, none, some, Bool, true, false,
  not, ◌&&◌, ◌==◌, ltb, leb, if◌then◌else◌, ◌>>=◌, length,
}
use zile.Astr.{Astr, size_mod}
use zile.Buffer.{get_buffer_pre_point, get_buffer_post_point, get_buffer_size}
use zile.Editor.{Editor, say, search_failed}
use zile.Move.{goto_offset}
use zile.Run.{Action}
use zile.Commands.{keyboard_quit}

-- `isupper` in the C locale
abbrev pub is_upper : ℕ → Bool
is_upper c = leb 65 c && leb c 90

unfoldable pub no_upper_loop : Bool → Bool → List ℕ → Bool
no_upper_loop regex quote_flag [] = true
no_upper_loop regex quote_flag (c ∷ s) =
    if regex && c == 92
    then no_upper_loop regex (not quote_flag) s
    else if not quote_flag && is_upper c
    then false
    else no_upper_loop regex quote_flag s

unfoldable pub no_upper : List ℕ → Bool → Bool
unfolding no_upper_loop
no_upper s regex = no_upper_loop regex false s

-- The bytes of a C string.
unfoldable pub c_string : List ℕ → List ℕ
c_string [] = []
c_string (c ∷ s) = if c == 0 then [] else c ∷ c_string s

-- The regular expression library: `re_compile_pattern` of a pattern, with RE_ICASE or not, and its
-- error; and `re_search_2` of the compiled pattern with `not_bol` and `not_eol`, in two strings with
-- their sizes, from a start, over a range, up to a stop, and the start and the end of the match.
pub record Regex : Type 0 where
  pub re_compile_pattern : Bool → List ℕ → ℤ → Option (List ℕ)
  pub re_search_2 :
      Bool → List ℕ → ℤ → Bool → Bool → List ℕ → ℤ → List ℕ → ℤ → ℤ → ℤ → ℤ → Option (ℕ × ℕ)

-- A size_t as an int.
abbrev pub int_of : ℕ → ℤ
int_of n = if ltb (n % 2 ^ 32) (2 ^ 31) then pos (n % 2 ^ 32) else negsuc (2 ^ 32 - 1 - n % 2 ^ 32)

-- A difference of two numbers of type size_t.
abbrev pub size_sub : ℕ → ℕ → ℕ
size_sub a b = (a + size_mod - b) % size_mod

module _ (rx : Regex) where
  -- RE_PLAIN is never set, so that `regex` makes no difference; -1 is `none`.
  unfoldable pub find_substr :
      Astr → Astr → List ℕ → ℕ → ℕ → ℕ → Bool → Bool → Bool → Bool → Bool → Option ℕ
  find_substr as1 as2 n nsize from to forward notbol noteol regex icase =
      let len1 = length as1.text in
      let len2 = length as2.text in
      let start = if forward then int_of from else int_of (size_sub to 1) in
      let range =
        if forward
        then int_of (size_sub to from)
        else int_of (size_sub 0 (size_sub (size_sub to 1) from)) in
      let match =
        rx.re_search_2 icase n (int_of nsize) notbol noteol as1.text (int_of len1) as2.text
          (int_of len2) start range (int_of (len1 + len2)) in
      elim (rx.re_compile_pattern icase n (int_of nsize)) [
        | some err ↦ none
        | none ↦ elim match [ none ↦ none | some r ↦ some (if forward then r.1 else r.0) ]
      ]

module _ (rx : Regex) (case_fold_search : Bool) where
  unfoldable pub search : ℕ → List ℕ → Bool → Bool → Action
  unfolding no_upper find_substr
  search o s forward regexp ed =
      let bp = ed.cur_bp in
      let size = get_buffer_size bp in
      let found =
        find_substr rx (get_buffer_pre_point bp) (get_buffer_post_point bp) s (length s)
          (if forward then o else 0) (if forward then size else o) forward
          (if forward then ltb 0 o else false) (if forward then false else ltb o size) regexp
          (case_fold_search && no_upper s regexp) in
      let at =
        λ (p : ℕ). (do ed1 ← goto_offset ed p; some (true, record ed1 { need_resync = true })) in
      if length s == 0
      then some (false, ed)
      else elim found [ none ↦ some (false, ed) | some p ↦ at p ]

  -- `last_search` beside the editor; NULL in place of a pattern that has been read is `none`.
  unfoldable pub do_search :
      Bool
      → Bool
      → Option (List ℕ)
      → Option (List ℕ)
      → Editor
      → Option (Bool × Option (List ℕ) × Editor)
  unfolding search
  do_search forward regexp none last_search ed =
      let (ok, ed1) = keyboard_quit ed in some (ok, last_search, ed1)
  do_search forward regexp (some pattern) last_search ed = do
    (ok, ed1) ← search ed.cur_bp.pt (c_string pattern) forward regexp ed
    if length pattern == 0
        then some (false, last_search, ed)
        else some (ok, some pattern, if ok then ed1 else say ed1 search_failed)
