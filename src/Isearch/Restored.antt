-- ===== src/Isearch/Restored.antt =====
-- C-g in an incremental search (isearch of src/search.c).
use zile.Prelude.{
  ℕ, ◌^◌, ◌+◌, ◌≤◌, ◌<◌, ◌≡◌, refl, List, [], ◌∷◌, ◌++◌, Option, none, some, Bool, true, false,
  ◌>>=◌, arith, length, take, drop, take_left, drop_left, length-append, inl, inr, ◌⊎◌, ≢→==,
  ==_refl,
}
use zile.Astr.{astr_new}
use zile.Buffer.{Buffer, Marker}
use zile.Buffer.Gap.{Shows}
use zile.Buffer.Shows.{Shows-eq}
use zile.Editor.{Editor, set_cur_bp}
use zile.Kill.{marker_of, remove_marker, unchain_marker, deactivate_mark, set_markers}
use zile.Commands.{keyboard_quit}
use zile.Minibuffer.{kbd_cancel}
use zile.Completion.{Completion, Screen}
use zile.Search.{Regex}
use zile.Isearch.{Isearch, copy_marker, restore_mark, quit_isearch, isearch_done, isearch}
use zile.Isearch.Quits.{MatchesBefore, At, goto_offset-Goes, isearch_loop-quit_isearch, AllGoOn}

-- The offset of the mark.
unfoldable pub mark_o : Buffer → Option ℕ
mark_o bp = do id ← bp.mark; m ← marker_of bp.markers id; some m.o

restore_mark-none :
    (ed : Editor)
    → ed.cur_bp.mark ≡ none
    → restore_mark none ed ≡ some (set_cur_bp ed (record (ed.cur_bp) { mark = none }))
unfolding restore_mark
restore_mark-none ed e = rw e refl

-- The buffer behind the search, with a copy of the old mark whose address is `fresh`.
abbrev with_copy : Buffer → ℕ → ℕ → List Marker → Buffer
with_copy bp fresh o ms = record bp {
  mark = some fresh;
  markers = record { id = fresh; o = o } ∷ ms;
}

restore_mark-some :
    (ed : Editor) (id : ℕ) (copy : Marker) (ms : List Marker)
    → ed.cur_bp.mark ≡ some id
    → ed.cur_bp.markers ≡ copy ∷ ms
    → id < copy.id
    → restore_mark (some copy.id) ed
      ≡ some (record ed {
        cur_bp = with_copy ed.cur_bp ed.fresh copy.o (copy ∷ remove_marker ms id);
        fresh = ed.fresh + 1;
      })
unfolding restore_mark copy_marker unchain_marker remove_marker marker_of
restore_mark-some ed id copy ms e k lt =
    rw (e, k, ≢→== copy.id id (λ z. omega arith), ==_refl copy.id) refl

-- Taking the copy of the old mark away leaves the new one.
mark_o-with_copy :
    (bp : Buffer) (fresh : ℕ) (copy : Marker) (ms : List Marker)
    → copy.id < fresh
    → mark_o (unchain_marker (with_copy bp fresh copy.o (copy ∷ ms)) copy.id) ≡ some copy.o
unfolding mark_o unchain_marker remove_marker marker_of
mark_o-with_copy bp fresh copy ms lt =
    rw (≢→== fresh copy.id (λ z. omega arith), ==_refl fresh) refl

-- The mark, if there is one, is in the buffer, at an address that has been given out.
abbrev pub MarkIsKnown : Editor → Type 0
MarkIsKnown ed =
    (ed.cur_bp.mark ≡ none)
    ⊎ ((id : ℕ) × (m : Marker) × (ed.cur_bp.mark ≡ some id)
        × (marker_of ed.cur_bp.markers id ≡ some m)
        × (id < ed.fresh))

abbrev Restores : Option ℕ → Option Isearch → List ℕ → List ℕ → Option ℕ → Type 0
Restores old_mark o pre post at =
    (s : Isearch) × (o ≡ some s)
    × Shows (isearch_done old_mark s).ed.cur_bp pre post
    × (mark_o (isearch_done old_mark s).ed.cur_bp ≡ at)
    × ((isearch_done old_mark s).ed.cur_bp.mark_active ≡ false)

module _ (text : List ℕ) (ms : List Marker) (fresh start : ℕ) (le : start ≤ length text) where
  quit_isearch-none :
      (s : Isearch)
      → At text ms none fresh s.ed
      → s.start ≡ start
      → Restores none (quit_isearch none s) (take start text) (drop start text) none
  unfolding quit_isearch keyboard_quit deactivate_mark isearch_done mark_o
  quit_isearch-none s at e =
      let (ed, p, at', shows) = goto_offset-Goes text ms none fresh s.ed s.start at (rw e le) in
      let ed1 = (keyboard_quit (record ed { need_resync = true })).1 in
      let r = restore_mark-none ed1 at'.mark_is in
      (
        record s { ed = set_cur_bp ed1 (record (ed1.cur_bp) { mark = none }) },
        rw (p, r) refl,
        rw (← e) (record { layout = shows.layout; at_pt = shows.at_pt }),
        refl,
        refl,
      )

  quit_isearch-some :
      (copy : Marker) (id : ℕ) (s : Isearch)
      → id < copy.id
      → copy.id < fresh
      → At text (copy ∷ ms) (some id) fresh s.ed
      → s.start ≡ start
      → Restores
          (some copy.id)
          (quit_isearch (some copy.id) s)
          (take start text)
          (drop start text)
          (some copy.o)
  unfolding quit_isearch keyboard_quit deactivate_mark isearch_done unchain_marker
  quit_isearch-some copy id s lt lt' at e =
      let (ed, p, at', shows) =
        goto_offset-Goes text (copy ∷ ms) (some id) fresh s.ed s.start at (rw e le) in
      let ed1 = (keyboard_quit (record ed { need_resync = true })).1 in
      let r = restore_mark-some ed1 id copy ms at'.mark_is at'.markers_are lt in
      (
        record s {
          ed = record ed1 {
            cur_bp = with_copy ed1.cur_bp ed1.fresh copy.o (copy ∷ remove_marker ms id);
            fresh = ed1.fresh + 1;
          };
        },
        rw (p, r) refl,
        rw (← e) (record { layout = shows.layout; at_pt = shows.at_pt }),
        mark_o-with_copy ed1.cur_bp ed1.fresh copy (remove_marker ms id)
            (omega (arith, at'.fresh_is)),
        refl,
      )

-- Both cases of the mark: the search starts, goes on for a while and is quit.
module _ (isprint : ℕ → Bool) (screen : Screen)
    (sorted_add : List ℕ → List (List ℕ) → List (List ℕ))
    (readdir : Completion → List ℕ → Option (Completion × List ℕ)) (rx : Regex)
    (fold regexp forward : Bool) (last re_find_err : Option (List ℕ)) where
  abbrev run : List ℕ → List ℕ → Editor → Option Isearch
  run keys rest ed =
      isearch isprint screen sorted_add readdir rx fold regexp forward last re_find_err
        (keys ++ kbd_cancel ∷ rest) ed

  abbrev Quits : Option Isearch → List ℕ → List ℕ → Option ℕ → Type 0
  Quits o pre post at =
      (s : Isearch) × (o ≡ some s)
      × Shows s.ed.cur_bp pre post
      × (mark_o s.ed.cur_bp ≡ at)
      × (s.ed.cur_bp.mark_active ≡ false)
      × (s.isearch ≡ false)

  -- The search that has started with a copy of the mark.
  isearch-Quits :
      (keys rest pre post : List ℕ) (ed ed1 : Editor) (old_mark mk : Option ℕ) (ms : List Marker)
      (fresh : ℕ) (at : Option ℕ)
      → MatchesBefore rx
      → length (pre ++ post) < 2 ^ 31
      → AllGoOn keys
      → copy_marker ed.cur_bp.mark ed ≡ some (old_mark, ed1)
      → At (pre ++ post) ms mk fresh ed1
      → ed1.cur_bp.pt ≡ length pre
      → ((s : Isearch)
          → At (pre ++ post) ms mk fresh s.ed
          → s.start ≡ length pre
          → Restores old_mark
              (quit_isearch old_mark s)
              (take (length pre) (pre ++ post))
              (drop (length pre) (pre ++ post))
              at)
      → Quits (run keys rest ed) pre post at
  unfolding isearch isearch_done
  isearch-Quits keys rest pre post ed ed1 old_mark mk ms fresh at within short hs p here at_pt
        quits =
      let started : Isearch = record {
        ed = ed1;
        isearch = true;
        last = true;
        pattern = astr_new;
        start = ed1.cur_bp.pt;
        cur = ed1.cur_bp.pt;
        forward = forward;
        last_search = last;
        re_find_err = re_find_err;
        shown = [];
        ungot = none;
      } in
      let le : length pre ≤ length (pre ++ post) = omega (arith, length-append pre post) in
      let (s, q, h) =
        isearch_loop-quit_isearch (pre ++ post) ms mk fresh rx within short fold (length pre) le
          isprint screen sorted_add readdir regexp rest old_mark keys started hs
          (record { at = here; start_is = at_pt }) in
      let (s', r, shows, mark, act) = quits s h.at h.start_is in
      (
        isearch_done old_mark s',
        rw (p, q, r) refl,
        Shows-eq _ _ _ _ _ (take_left (length pre) pre post refl)
            (drop_left (length pre) pre post refl) shows,
        mark,
        act,
        refl,
      )

  -- When the matches of the regular expression library end before the stop it is given, the text is
  -- below 2 ^ 31, the mark is none or one of the buffer's markers, and the keys are ones with
  -- which the search goes on, C-q aside, then isearch with these keys and C-g behind them comes
  -- to its end: the text, the point and the offset of the mark are those before the
  -- search, and the mark is not active.
  pub isearch-quit_isearch :
      (keys rest pre post : List ℕ) (ed : Editor)
      → MatchesBefore rx
      → length (pre ++ post) < 2 ^ 31
      → Shows ed.cur_bp pre post
      → MarkIsKnown ed
      → AllGoOn keys
      → Quits (run keys rest ed) pre post (mark_o ed.cur_bp)
  unfolding copy_marker mark_o
  isearch-quit_isearch keys rest pre post ed within short shows (inl none_set) hs =
      let le : length pre ≤ length (pre ++ post) = omega (arith, length-append pre post) in
      let here : At (pre ++ post) ed.cur_bp.markers none ed.fresh ed = record {
        pre = pre;
        post = post;
        shows = shows;
        whole = refl;
        markers_are = refl;
        mark_is = none_set;
        fresh_is = refl;
      } in
      let at : mark_o ed.cur_bp ≡ none = rw none_set refl in
      rw at (
        isearch-Quits keys rest pre post ed ed none none ed.cur_bp.markers ed.fresh none within
          short hs (rw none_set refl) here shows.at_pt
          (quit_isearch-none (pre ++ post) ed.cur_bp.markers ed.fresh (length pre) le))
  isearch-quit_isearch keys rest pre post ed within short shows (inr (id, m, set, known, lt)) hs =
      let le : length pre ≤ length (pre ++ post) = omega (arith, length-append pre post) in
      let copy : Marker = record { id = ed.fresh; o = m.o } in
      let ed1 : Editor = record ed {
        cur_bp = set_markers ed.cur_bp (copy ∷ ed.cur_bp.markers);
        fresh = ed.fresh + 1;
      } in
      let here : At (pre ++ post) (copy ∷ ed.cur_bp.markers) (some id) (ed.fresh + 1) ed1 = record {
        pre = pre;
        post = post;
        shows = record { layout = shows.layout; at_pt = shows.at_pt };
        whole = refl;
        markers_are = refl;
        mark_is = set;
        fresh_is = refl;
      } in
      let at : mark_o ed.cur_bp ≡ some m.o = rw (set, known) refl in
      rw at (
        isearch-Quits keys rest pre post ed ed1 (some ed.fresh) (some id) (copy ∷ ed.cur_bp.markers)
          (ed.fresh + 1) (some m.o) within short hs (rw (set, known) refl) here shows.at_pt
          (λ s.
            quit_isearch-some (pre ++ post) ed.cur_bp.markers (ed.fresh + 1) (length pre) le copy id
              s lt (omega arith)))
