-- ===== src/QueryReplace.antt =====
-- query-replace (src/search.c), with the two lines that were read in the minibuffer, NULL as `none`.
-- The keys that arrive are a list; `none` is that they have run out, or the fuel, which counts the
-- rounds. `rx` is the regular expression library, `bool_of_false` what the interpreter's
-- #f is as a C bool.
use zile.Prelude.{
  ℕ, zero, suc, ◌+◌, ◌-◌, ◌%◌, List, [], ◌∷◌, Option, none, some, Bool, true, false, not, ◌&&◌,
  ◌||◌, ◌==◌, if◌then◌else◌, ◌>>=◌, length, drop,
}
use zile.Astr.{Astr, case_upper, case_capitalized, size_mod, astr_new, astr_cat_nstr, astr_recase}
use zile.Estr.{estr_new_astr}
use zile.Buffer.{region_new, get_buffer_region}
use zile.Editor.{Editor, set_cur_bp, replace_estr}
use zile.Move.{goto_offset}
use zile.Kill.{marker_of, unchain_marker, point_marker}
use zile.Commands.{keyboard_quit}
use zile.Minibuffer.{kbd_cancel, kbd_ret, kbd_del}
use zile.Search.{Regex, search, no_upper, c_string, is_upper}

-- The loops of `check_case`, over upper case first and then over all else.
unfoldable pub uppers : List ℕ → ℕ
uppers [] = 0
uppers (c ∷ s) = if is_upper c then suc (uppers s) else 0

unfoldable pub others : List ℕ → ℕ
others [] = 0
others (c ∷ s) = if is_upper c then 0 else suc (others s)

unfoldable pub check_case : List ℕ → ℕ
unfolding uppers others
check_case s =
    let i = uppers s in
    if i == length s then 2 else if i == 1 && 1 + others (drop 1 s) == length s then 1 else 0

-- The answers that the question takes.
abbrev pub is_answer : ℕ → Bool
is_answer c =
    c == kbd_cancel
    || c == kbd_ret
    || c == b' '
    || c == b'y'
    || c == b'n'
    || c == b'q'
    || c == b'.'
    || c == b'!'

-- Other keys are refused and the question is put again.
unfoldable pub ask : List ℕ → Option (ℕ × List ℕ)
ask [] = none
ask (c ∷ keys) = if is_answer c then some (c, keys) else ask keys

pub record Replacing : Type 0 where
  pub ed : Editor
  pub noask : Bool
  pub count : ℕ
  pub ok : Bool
  pub keys : List ℕ

-- The replacement in the case of what was found.
unfoldable pub case_repl : Bool → List ℕ → List ℕ → Option Astr
unfolding check_case
case_repl recases found repl =
    let case_type = check_case found in
    let plain = astr_cat_nstr astr_new repl in
    if not recases || case_type == 0
    then some plain
    else astr_recase plain (if case_type == 1 then case_capitalized else case_upper)

-- "Perform replacement."
unfoldable pub replace_found : Bool → List ℕ → List ℕ → Editor → Option Editor
unfolding case_repl
replace_found recases find repl ed = do
  let pt = ed.cur_bp.pt
  let r = region_new ((pt + size_mod - length find) % size_mod) pt
  found ← get_buffer_region ed.cur_bp r
  text ← case_repl recases found.str.text repl
  let (ed1, id) = point_marker ed
  ed2 ← goto_offset ed1 r.start
  es ← estr_new_astr text
  (_, ed3) ← replace_estr ed2 (length find) es
  m ← marker_of ed3.cur_bp.markers id
  ed4 ← goto_offset ed3 m.o
  some (set_cur_bp ed4 (unchain_marker ed4.cur_bp id))

module _ (rx : Regex) (case_fold_search case_replace bool_of_false : Bool)
    (find repl : List ℕ) where
  abbrev pub replace_one : Replacing → Option Replacing
  replace_one q = do
    ed ← replace_found (no_upper find false && case_replace) find repl q.ed
    some (record q { ed = ed; count = q.count + 1 })

  unfoldable pub query_loop : ℕ → Replacing → Option Replacing
  query_loop zero q = none
  query_loop (suc fuel) q = do
    (more, ed) ← search rx case_fold_search q.ed.cur_bp.pt (c_string find) true false q.ed
    let q1 = record q { ed = ed }
    let all = (do q2 ← replace_one q1; query_loop fuel q2)
    let asked = (do
      (c, keys) ← ask q1.keys
      let q2 = record q1 { keys = keys }
      let next = query_loop fuel q2
      let replaced = (do
        q3 ← replace_one (record q2 { noask = c == b'!' })
        let rest = query_loop fuel q3
        if c == b'.' then some q3 else rest)
      if c == b'q'
          then some q2
          else if c == kbd_cancel
          then some (record q2 { ed = (keyboard_quit q2.ed).1; ok = bool_of_false })
          else if c == b'n' || c == kbd_ret || c == kbd_del
          then next
          else replaced)
    if not more then some q1 else if q.noask then all else asked

-- The number of replacements is shown if the last component says so.
module _ (rx : Regex) (case_fold_search case_replace bool_of_false : Bool) where
  unfoldable pub query_replace :
      Option (List ℕ) → Option (List ℕ) → ℕ → List ℕ → Editor → Option (Bool × Option ℕ × Editor)
  unfolding query_loop
  query_replace none repl fuel keys ed = some (false, none, (keyboard_quit ed).1)
  query_replace (some find) repl fuel keys ed =
      let replaced = λ (repl : List ℕ). (do
        q ←
            query_loop rx case_fold_search case_replace bool_of_false find repl fuel
              (record { ed = ed; noask = false; count = 0; ok = true; keys = keys })
        some (q.ok, (if q.ok then some q.count else none), q.ed)) in
      if length find == 0
      then some (false, none, ed)
      else elim repl [ none ↦ some (false, none, (keyboard_quit ed).1) | some text ↦ replaced text ]
