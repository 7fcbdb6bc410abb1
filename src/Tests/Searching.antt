-- ===== src/Tests/Searching.antt =====
-- C-g behind a few keys of an incremental search, with the mark set.
use zile.Prelude.{
  ℤ, pos, negsuc, ℕ, ◌+◌, ◌≡◌, refl, List, [], ◌∷◌, ◌++◌, Option, none, some, true, false, leb, inr,
  length, drop, assert, ◌>>=◌, ◌>>◌, codes, arith,
}
use zile.Memmem.{memmem}
use zile.Buffer.Gap.{Shows}
use zile.Editor.{Editor}
use zile.Minibuffer.{ctrl, kbd_cancel, kbd_bs}
use zile.Completion.{Completion, Screen}
use zile.Isearch.{Isearch, isearch}
use zile.Search.{Regex}
use zile.Isearch.Quits.{MatchesBefore}
use zile.Isearch.Restored.{mark_o, isearch-quit_isearch}
use zile.Tests.Editing.{editor, sample}

-- The size of a range of int.
abbrev up_to : ℤ → ℕ
up_to (pos n) = n
up_to (negsuc n) = 0

-- The first match of the bytes behind the start, if it ends before the stop.
abbrev match_at : ℕ → List ℕ → List ℕ → ℕ → Option (ℕ × ℕ)
match_at start n text stop = do
  i ← memmem (drop start text) n
  assert (leb (start + i + length n) stop)
  some (start + i, start + i + length n)

abbrev plain_search : Regex
plain_search = record {
  re_compile_pattern = λ icase n nsize. none;
  re_search_2 = λ icase n nsize notbol noteol a len1 b len2 start range stop.
      match_at (up_to start) n (a ++ b) (up_to stop);
}

plain_search-MatchesBefore : MatchesBefore plain_search
plain_search-MatchesBefore icase n nsize notbol noteol a len1 b len2 start range stop r e =
    ground arith

abbrev no_add : List ℕ → List (List ℕ) → List (List ℕ)
no_add name names = names

abbrev no_dir : Completion → List ℕ → Option (Completion × List ℕ)
no_dir cp path = none

abbrev one_window : Screen
one_window = record { one_window = true; cur_bp = 1; ewidth = 80; term_width = 80 }

abbrev marked : Editor
marked = record (editor (record sample { mark = some 0; mark_active = true })) { fresh = 7 }

-- "a", C-s, "b", BS, C-g: the mark is at 3, as before.
isearch-quit_isearch_example :
    (s : Isearch) × (isearch
        (λ c. true)
        one_window
        no_add
        no_dir
        plain_search
        true
        false
        true
        none
        none
        (b'a' ∷ ctrl b's' ∷ b'b' ∷ kbd_bs ∷ kbd_cancel ∷ [])
        marked
      ≡ some s)
    × Shows s.ed.cur_bp (codes "ab") (codes "cd")
    × (mark_o s.ed.cur_bp ≡ some 3)
    × (s.ed.cur_bp.mark_active ≡ false)
    × (s.isearch ≡ false)
unfolding mark_o zile.Kill.marker_of
isearch-quit_isearch_example =
    isearch-quit_isearch (λ c. true) one_window no_add no_dir plain_search true false true none none
      (b'a' ∷ ctrl b's' ∷ b'b' ∷ kbd_bs ∷ []) [] (codes "ab") (codes "cd") marked
      plain_search-MatchesBefore (omega arith) (record { layout = refl; at_pt = refl })
      (inr (0, record { id = 0; o = 3 }, refl, refl, omega arith))
      ((refl, refl, refl), ((refl, refl, refl), ((refl, refl, refl), ((refl, refl, refl), tt))))
