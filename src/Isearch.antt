-- ===== src/Isearch.antt =====
-- The incremental search (isearch of src/search.c). The keys that arrive are a list; `none` is that
-- no key has come before the search is over. The regular expression library is a parameter; the
-- others are what reading a line in the minibuffer takes. The window shows the current buffer.
pub mod Quits
pub mod Restored
use zile.Prelude.{
  ℕ, ◌+◌, ◌-◌, ◌/◌, ◌%◌, List, [], ◌∷◌, ◌++◌, Option, none, some, Bool, true, false, not, ◌&&◌,
  ◌||◌, ◌==◌, ltb, if◌then◌else◌, ◌>>=◌, ◌>>◌, length, codes,
}
use zile.Astr.{Astr, size_max, astr_new, astr_cat_char, astr_truncate, astr_cpy}
use zile.Memmem.{is_prefix}
use zile.Keymap.{kbd_ctrl, kbd_meta}
use zile.Buffer.{Buffer, Marker}
use zile.Editor.{Editor, set_cur_bp}
use zile.Move.{goto_offset}
use zile.Kill.{marker_of, set_markers, unchain_marker, set_mark}
use zile.Marks.{move_mark}
use zile.Commands.{keyboard_quit}
use zile.Minibuffer.{
  ctrl, kbd_cancel, kbd_bs, kbd_tab, kbd_ret, answered, cancelled, waiting, term_minibuf_read,
}
use zile.Completion.{Completion, Screen}
use zile.Uniarg.{has_meta}
use zile.Search.{Regex, search, do_search, no_upper, int_of, c_string}

-- The variables of the loop with the globals that it changes: `shown` is what the minibuffer shows,
-- `ungot` the key that is pushed back.
pub record Isearch : Type 0 where
  pub ed : Editor
  pub isearch : Bool
  pub last : Bool
  pub pattern : Astr
  pub start : ℕ
  pub cur : ℕ
  pub forward : Bool
  pub last_search : Option (List ℕ)
  pub re_find_err : Option (List ℕ)
  pub shown : List ℕ
  pub ungot : Option ℕ

-- `copy_marker`, with the address of the copy.
unfoldable pub copy_marker : Option ℕ → Editor → Option (Option ℕ × Editor)
copy_marker none ed = some (none, ed)
copy_marker (some id) ed = do
  m ← marker_of ed.cur_bp.markers id
  let copy : Marker = record { id = ed.fresh; o = m.o }
  some (
    some ed.fresh,
    record ed { cur_bp = set_markers ed.cur_bp (copy ∷ ed.cur_bp.markers); fresh = ed.fresh + 1 },
  )

-- `if (m) unchain_marker (m)`
abbrev pub unchain : Option ℕ → Editor → Editor
unchain m ed = elim m [ none ↦ ed | some id ↦ set_cur_bp ed (unchain_marker ed.cur_bp id) ]

abbrev pub has_ctrl : ℕ → Bool
has_ctrl c = c / kbd_ctrl % 2 == 1

-- "Make the minibuf message."
unfoldable pub isearch_prompt : Bool → Isearch → List ℕ
isearch_prompt regexp s =
    let kind =
      if s.last
      then (if regexp then codes "Regexp " else [])
      else if regexp
      then codes "Failing regexp "
      else codes "Failing " in
    let direction = if s.forward then [] else codes " backward" in
    kind ++ (codes "I-search" ++ (direction ++ (codes ": " ++ c_string s.pattern.text)))

-- "Regex error."
unfoldable pub regex_error : Option (List ℕ) → List ℕ
regex_error none = []
regex_error (some e) =
    let unfinished =
      is_prefix (codes "Premature ") e
      || is_prefix (codes "Unmatched ") e
      || is_prefix (codes "Invalid ") e in
    codes " [" ++ ((if unfinished then codes "incomplete input" else e) ++ codes "]")

unfoldable pub show_prompt : Bool → Isearch → Isearch
unfolding isearch_prompt regex_error
show_prompt regexp s = record s {
  shown = isearch_prompt regexp s ++ regex_error s.re_find_err;
  re_find_err = none;
}

abbrev pub back_to_start : Isearch → Option Isearch
back_to_start s = do
  ed ← goto_offset s.ed s.start
  some (record s { ed = record ed { need_resync = true } })

-- "Restore old mark position."
unfoldable pub restore_mark : Option ℕ → Editor → Option Editor
unfolding copy_marker
restore_mark old_mark ed = do
  (mark, ed1) ← copy_marker old_mark (unchain ed.cur_bp.mark ed)
  some (set_cur_bp ed1 (record (ed1.cur_bp) { mark = mark }))

-- C-g.
unfoldable pub quit_isearch : Option ℕ → Isearch → Option Isearch
quit_isearch old_mark s = do
  s1 ← back_to_start s
  ed ← restore_mark old_mark (keyboard_quit s1.ed).1
  some (record s1 { ed = ed })

-- BS.
unfoldable pub shorten : Isearch → Option Isearch
shorten s =
    let shorter = (do
      pattern ← astr_truncate s.pattern (length s.pattern.text - 1)
      back_to_start (record s { pattern = pattern; cur = s.start })) in
    if ltb 0 (length s.pattern.text) then shorter else some s

-- The last search for an empty pattern.
unfoldable pub fill_pattern : Option (List ℕ) → Isearch → Option Isearch
fill_pattern none s = some s
fill_pattern (some text) s = do
  pattern ← astr_cpy s.pattern (record astr_new { text = text })
  some (record s { pattern = pattern })

-- C-r and C-s.
unfoldable pub turn : ℕ → Isearch → Option Isearch
unfolding fill_pattern
turn c s =
    let s1 = record s { forward = not (c % 256 == b'r') } in
    if ltb 0 (length s1.pattern.text)
    then some (record s1 { cur = s1.ed.cur_bp.pt; last_search = some s1.pattern.text })
    else fill_pattern s1.last_search s1

-- "Save mark.", for a key that ends the search behind a pattern.
unfoldable pub save_mark : Isearch → Isearch
save_mark s =
    let ed = set_mark s.ed in
    let bp : Buffer = elim ed.cur_bp.mark [
      | none ↦ ed.cur_bp
      | some id ↦ move_mark id s.start ed.cur_bp
    ] in
    record s {
      ed = set_cur_bp ed bp;
      last_search = some s.pattern.text;
      shown = codes "Mark saved when search started";
    }

-- The end of the search, with the copy of the old mark.
unfoldable pub isearch_done : Option ℕ → Isearch → Isearch
isearch_done old_mark s = record s { isearch = false; ed = unchain old_mark s.ed }

abbrev pub add_to_pattern : ℕ → Isearch → Isearch
add_to_pattern c s = record s { pattern = astr_cat_char s.pattern c }

-- The keys after which the loop goes on.
unfoldable pub change_pattern : ℕ → Isearch → Option Isearch
change_pattern c s =
    if c == kbd_bs then shorten s else if has_ctrl c then turn c s else some (add_to_pattern c s)

abbrev pub leaves : ℕ → Bool
leaves c =
    not (c == kbd_bs)
    && not (has_ctrl c && (c % 256 == b'r' || c % 256 == b's'))
    && (has_meta c || has_ctrl c || ltb kbd_tab c)

-- `re_find_err` after a search, which an empty pattern ends at once.
abbrev pub error_of : Regex → Bool → Bool → List ℕ → Isearch → Option (List ℕ)
error_of rx case_fold_search regexp pattern s =
    if length pattern == 0
    then s.re_find_err
    else rx.re_compile_pattern (case_fold_search && no_upper pattern regexp) pattern
        (int_of (length pattern))

-- The prompt of `do_search`.
unfoldable pub search_prompt : Bool → Bool → List ℕ
search_prompt forward regexp =
    (if regexp then codes "RE search" else codes "Search")
    ++ ((if forward then [] else codes " backward") ++ codes ": ")

module _ (rx : Regex) (case_fold_search : Bool) where
  -- The search at the end of a round.
  unfoldable pub search_again : Bool → Isearch → Option Isearch
  search_again regexp s =
      let searched = (do
        (ok, ed) ← search rx case_fold_search s.cur (c_string s.pattern.text) s.forward regexp s.ed
        some (record s {
          ed = ed;
          last = ok;
          re_find_err = error_of rx case_fold_search regexp (c_string s.pattern.text) s;
        })) in
      if ltb 0 (length s.pattern.text) then searched else some (record s { last = true })

module _ (isprint : ℕ → Bool) (screen : Screen)
    (sorted_add : List ℕ → List (List ℕ) → List (List ℕ))
    (readdir : Completion → List ℕ → Option (Completion × List ℕ)) (rx : Regex)
    (case_fold_search regexp : Bool) where
  -- RET without a pattern: `do_search` reads one.
  unfoldable pub read_pattern : List ℕ → Isearch → Option Isearch
  read_pattern keys s =
      let value : List ℕ = elim s.last_search [ none ↦ [] | some text ↦ c_string text ] in
      let find = λ (p : Option (List ℕ)). (do
        (ok, last_search, ed) ← do_search rx case_fold_search s.forward regexp p s.last_search s.ed
        some (record s {
          ed = ed;
          last_search = last_search;
          re_find_err = elim p [
            | none ↦ s.re_find_err
            | some text ↦ error_of rx case_fold_search regexp (c_string text) s
          ];
        })) in
      do
        (answer, m) ←
            term_minibuf_read isprint screen sorted_add readdir (search_prompt s.forward regexp)
              value size_max none none keys
        elim answer [ answered line ↦ find (some line) | cancelled ↦ find none | waiting ↦ none ]

  -- A key that ends the search.
  unfoldable pub leave_isearch : ℕ → List ℕ → Isearch → Option Isearch
  unfolding read_pattern save_mark
  leave_isearch c keys s =
      let s1 = if ltb 0 (length s.pattern.text) then save_mark s else record s { shown = [] } in
      if c == kbd_ret && length s.pattern.text == 0
      then read_pattern keys s
      else some (if c == kbd_ret then s1 else record s1 { ungot = some c })

  -- Each key is a round of the loop, but for the one that `getkey_unfiltered` reads after C-q.
  unfoldable pub isearch_loop : Bool → List ℕ → Option ℕ → Isearch → Option Isearch
  isearch_loop quoted [] old_mark s = none
  isearch_loop true (c ∷ keys) old_mark s = do
    s1 ← search_again rx case_fold_search regexp (add_to_pattern c s)
    isearch_loop false keys old_mark s1
  isearch_loop false (c ∷ keys) old_mark s =
      let s0 = show_prompt regexp s in
      let quoting =
        isearch_loop true keys old_mark (record s0 { shown = c_string s0.shown ++ codes "^Q-" }) in
      let next = (do
        s1 ← change_pattern c s0
        s2 ← search_again rx case_fold_search regexp s1
        isearch_loop false keys old_mark s2) in
      if c == kbd_cancel
      then quit_isearch old_mark s0
      else if has_ctrl c && c % 256 == b'q'
      then quoting
      else if leaves c
      then leave_isearch c keys s0
      else next

  unfoldable pub isearch :
      Bool → Option (List ℕ) → Option (List ℕ) → List ℕ → Editor → Option Isearch
  unfolding isearch_loop copy_marker
  isearch forward last_search re_find_err keys ed = do
    (old_mark, ed1) ← copy_marker ed.cur_bp.mark ed
    s ← isearch_loop false keys old_mark (record {
      ed = ed1;
      isearch = true;
      last = true;
      pattern = astr_new;
      start = ed1.cur_bp.pt;
      cur = ed1.cur_bp.pt;
      forward = forward;
      last_search = last_search;
      re_find_err = re_find_err;
      shown = [];
      ungot = none;
    })
    some (isearch_done old_mark s)
