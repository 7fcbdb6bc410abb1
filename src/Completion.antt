-- ===== src/Completion.antt =====
-- Completion in the minibuffer (src/completion.c). A string is the list of its bytes before the
-- NUL. `sorted_add` is gnulib's `gl_sortedlist_add` with the order of `completion_strcmp`, and
-- `readdir` is `completion_readdir`, which lists a directory.
pub mod Common
pub mod Columns
use zile.Prelude.{
  ℕ, zero, suc, ◌+◌, List, [], ◌∷◌, Option, none, some, Bool, true, false, ◌==◌, ◌||◌,
  if◌then◌else◌, ◌>>=◌, length, ltb,
}
use zile.Memmem.{is_prefix}
use zile.History.{streq}
use zile.Completion.Columns.{write_completion}

pub record Completion : Type 0 where
  pub completions : List (List ℕ)
  pub matches : List (List ℕ)
  pub match_text : List ℕ
  pub matchsize : ℕ
  pub filename : Bool
  pub popped_up : Bool
  pub close : Bool
  pub old_bp : Option ℕ
  pub path : List ℕ
  pub shown : Option (List (List ℕ))

-- What the screen looks like: whether there is one window only, the current buffer, the width of the
-- windows and that of the terminal.
pub record Screen : Type 0 where
  pub one_window : Bool
  pub cur_bp : ℕ
  pub ewidth : ℕ
  pub term_width : ℕ

-- COMPLETION_NOTMATCHED, COMPLETION_MATCHED, COMPLETION_MATCHEDNONUNIQUE, COMPLETION_NONUNIQUE
pub data Outcome : Type 0 where
  not_matched matched matched_nonunique nonunique : Outcome

-- `s[j]` of a string that ends in a NUL: `none` behind it.
unfoldable pub char_at : List ℕ → ℕ → Option ℕ
char_at [] zero = some 0
char_at [] (suc j) = none
char_at (c ∷ s) zero = some c
char_at (c ∷ s) (suc j) = char_at s j

-- The loop over the matches but the first: whether byte `j` of each is `c`.
unfoldable pub agree : List (List ℕ) → ℕ → ℕ → Option Bool
unfolding char_at
agree [] c j = some true
agree (s ∷ ss) c j = do
  let rest = agree ss c j
  c' ← char_at s j
  if c' == c then rest else some false

-- The endless loop over `j`, on fuel.
unfoldable pub common_loop : ℕ → List ℕ → List (List ℕ) → ℕ → Option ℕ
unfolding char_at agree
common_loop zero s ss j = none
common_loop (suc fuel) s ss j = do
  let next = common_loop fuel s ss (j + 1)
  c ← char_at s j
  same ← agree ss c j
  if same then next else some j

-- The loop over the completions: the matches, and how many are the whole search string.
unfoldable pub collect :
    (List ℕ → List (List ℕ) → List (List ℕ))
    → List ℕ
    → List (List ℕ)
    → List (List ℕ)
    → ℕ
    → List (List ℕ) × ℕ
unfolding streq
collect sorted_add search [] ms full = (ms, full)
collect sorted_add search (s ∷ ss) ms full =
    if is_prefix search s
    then collect sorted_add search ss (sorted_add s ms) (if streq s search then full + 1 else full)
    else collect sorted_add search ss ms full

-- The state once the list has been written to the buffer "*Completions*"; `shown` is that list.
abbrev pub popped : Screen → Completion → List (List ℕ) → Completion
popped screen cp l =
    let close = cp.close || screen.one_window in
    record cp {
      popped_up = true;
      close = close;
      old_bp = if close then cp.old_bp else some screen.cur_bp;
      shown = some l;
    }

-- Writing the list may divide by zero.
unfoldable pub popup_completion : Screen → Completion → Bool → Option Completion
unfolding write_completion
popup_completion screen cp allflag = do
  let l = if allflag then cp.completions else cp.matches
  _ ← write_completion screen.ewidth l
  some (popped screen cp l)

-- The cases on the number of matches.
unfoldable pub conclude :
    Screen → Completion → ℕ → List (List ℕ) → ℕ → Bool → Option (Outcome × Completion)
unfolding common_loop popup_completion
conclude screen cp ssize [] full popup_when_complete = some (not_matched, cp)
conclude screen cp ssize (s ∷ []) full popup_when_complete =
    some (matched, record cp { match_text = s; matchsize = length s })
conclude screen cp ssize (s ∷ s' ∷ ss) full popup_when_complete =
    let whole = record cp { match_text = s; matchsize = length s } in
    let longest = (do
      j ← common_loop (length s + 2) s (s' ∷ ss) ssize
      cp1 ← popup_completion screen (record cp { match_text = s; matchsize = j }) false
      some (nonunique, cp1)) in
    let unique = (do
      cp1 ← if popup_when_complete then popup_completion screen whole false else some whole
      some (matched_nonunique, cp1)) in
    if full == 1 then unique else longest

-- The empty search string; the first of no completions is asked for in vain.
unfoldable pub show_all : Screen → Completion → List (List ℕ) → Option (Outcome × Completion)
show_all screen cp [] = none
show_all screen cp (s ∷ []) = some (matched, record cp { match_text = s; matchsize = length s })
show_all screen cp (s ∷ s' ∷ ss) = do
  cp1 ← popup_completion screen (record cp { match_text = s; matchsize = 0 }) true
  some (nonunique, cp1)

unfoldable pub try_search :
    Screen
    → (List ℕ → List (List ℕ) → List (List ℕ))
    → Completion
    → List ℕ
    → Bool
    → Option (Outcome × Completion)
unfolding collect conclude show_all
try_search screen sorted_add cp [] popup_when_complete = show_all screen cp cp.completions
try_search screen sorted_add cp (c ∷ cs) popup_when_complete =
    let (ms, full) = collect sorted_add (c ∷ cs) cp.completions [] 0 in
    conclude screen (record cp { matches = ms }) (length (c ∷ cs)) ms full popup_when_complete

unfoldable pub completion_try :
    Screen
    → (List ℕ → List (List ℕ) → List (List ℕ))
    → (Completion → List ℕ → Option (Completion × List ℕ))
    → Completion
    → List ℕ
    → Bool
    → Option (Outcome × Completion)
unfolding try_search
completion_try screen sorted_add readdir cp search popup_when_complete =
    let cp1 = record cp { matches = [] } in
    if cp.filename
    then elim (readdir cp1 search) [
      | none ↦ some (not_matched, cp1)
      | some (cp2, search') ↦ try_search screen sorted_add cp2 search' popup_when_complete
    ]
    else try_search screen sorted_add cp1 search popup_when_complete
