-- ===== src/Questions.antt =====
-- Writing to the minibuffer and asking in it (src/minibuf.c). The lines that `term_minibuf_read` gives
-- in turn are a list, NULL as `none`, and so are the keys that arrive; `none` is that they have run
-- out. `strtoul` is the C library's.
use zile.Prelude.{
  ℕ, ◌+◌, ◌-◌, ◌%◌, ◌^◌, List, [], ◌∷◌, ◌++◌, Option, none, some, Bool, true, false, not, ◌&&◌,
  ◌||◌, ◌==◌, if◌then◌else◌, ◌>>=◌, length, ltb, codes, ℤ, pos, negsuc,
}
use zile.Editor.{Editor}
use zile.Commands.{keyboard_quit}
use zile.History.{History, streq, add_history_element}
use zile.Astr.{size_mod}
use zile.Completion.{Completion, Screen, matched, completion_try}
use zile.Minibuffer.{ctrl, answered, cancelled, waiting, term_minibuf_read}
use zile.Path.{ends_with_slash, expand_path, compact_path}

-- `minibuf_contents`, the lines printed for a console, and how often the minibuffer was drawn again.
pub record Echo : Type 0 where
  pub contents : Option (List ℕ)
  pub printed : List (List ℕ)
  pub refreshes : ℕ

unfoldable pub minibuf_no_error : Echo → Bool
minibuf_no_error e = elim e.contents [ none ↦ true | some s ↦ false ]

unfoldable pub minibuf_vwrite : Bool → List ℕ → Echo → Echo
minibuf_vwrite interactive s e =
    let same : Bool = elim e.contents [ none ↦ false | some t ↦ streq s t ] in
    if not interactive
    then record e { printed = s ∷ e.printed }
    else if not same
    then record e { contents = some s; refreshes = e.refreshes + 1 }
    else e

abbrev pub long_max : ℕ
long_max = 2 ^ 63 - 1

-- LONG_MAX stands for no answer, one less for an empty one, and LONG_MAX itself is asked for again.
unfoldable pub minibuf_read_number :
    (List ℕ → ℕ) → List (Option (List ℕ)) → Editor → Option (ℕ × Editor)
minibuf_read_number strtoul [] ed = none
minibuf_read_number strtoul (none ∷ lines) ed = some (long_max, (keyboard_quit ed).1)
minibuf_read_number strtoul (some s ∷ lines) ed =
    let n = if length s == 0 then long_max - 1 else strtoul s in
    let again = minibuf_read_number strtoul lines ed in
    if n == long_max then again else some (n, ed)

-- The answer, the keys that are left and the questions that were shown, from the first.
unfoldable pub read_yn_loop : List ℕ → List ℕ → List ℕ → Option (ℤ × List ℕ × List (List ℕ))
read_yn_loop errmsg buf [] = none
read_yn_loop errmsg buf (key ∷ keys) =
    let asked = errmsg ++ buf in
    let again = (do
      (answer, rest, shown) ← read_yn_loop (codes "Please answer y or n.  ") buf keys
      some (answer, rest, asked ∷ shown)) in
    if key == b'y'
    then some (pos 1, keys, asked ∷ [])
    else if key == b'n'
    then some (pos 0, keys, asked ∷ [])
    else if key == ctrl b'g'
    then some (negsuc 0, keys, asked ∷ [])
    else again

unfoldable pub minibuf_read_yn : List ℕ → List ℕ → Option (ℤ × List ℕ × List (List ℕ))
unfolding read_yn_loop
minibuf_read_yn buf keys = read_yn_loop [] buf keys

-- The search of a sorted list finds a string that is in it.
unfoldable pub minibuf_test_in_completions : List ℕ → List (List ℕ) → Bool
minibuf_test_in_completions ms [] = false
minibuf_test_in_completions ms (s ∷ ss) = streq s ms || minibuf_test_in_completions ms ss

-- The string, NULL as `none`, with what reading it has changed; `written` lists what was asked to be
-- shown, from the last.
pub record Asked : Type 0 where
  pub answer : Option (List ℕ)
  pub ed : Editor
  pub history : Option History
  pub written : List (List ℕ)

unfoldable pub completion_new : Bool → Completion
completion_new fileflag = record {
  completions = [];
  matches = [];
  match_text = [];
  matchsize = 0;
  filename = fileflag;
  popped_up = false;
  close = false;
  old_bp = none;
  path = [];
  shown = none;
}

module _ (screen : Screen) (sorted_add : List ℕ → List (List ℕ) → List (List ℕ))
    (readdir : Completion → List ℕ → Option (Completion × List ℕ)) where
  -- "Complete partial words if possible."
  unfoldable pub completed : Completion → List ℕ → Option (List ℕ × Completion)
  completed cp ms = do
    (outcome, cp1) ← completion_try screen sorted_add readdir cp ms false
    let answer : List ℕ = elim outcome [ matched ↦ cp1.match_text | _ ↦ ms ]
    some (answer, cp1)

  -- Reading the line itself leaves the completions alone. `invalid_err` gets the answer.
  unfoldable pub minibuf_vread_completion :
      Completion
      → List ℕ
      → (List ℕ → List (List ℕ) → Bool)
      → (List ℕ → List ℕ)
      → List (Option (List ℕ))
      → Asked
      → Option Asked
  unfolding completed
  minibuf_vread_completion cp empty_err test invalid_err [] q = none
  minibuf_vread_completion cp empty_err test invalid_err (none ∷ lines) q =
      some (record q { answer = none; ed = (keyboard_quit q.ed).1 })
  minibuf_vread_completion cp empty_err test invalid_err (some s ∷ lines) q =
      let checked = (do
        (ms, cp1) ← completed cp s
        let rest =
            minibuf_vread_completion cp1 empty_err test invalid_err lines
              (record q { written = invalid_err ms ∷ q.written })
        let history : Option History = elim q.history [
          | none ↦ none
          | some hp ↦ some (add_history_element hp ms)
        ]
        if test ms cp1.completions
            then some (record q { answer = some ms; history = history })
            else rest) in
      if length s == 0
      then some (record q { answer = none; written = empty_err ∷ q.written })
      else checked

  abbrev pub yes_or_no : Completion
  yes_or_no = record (completion_new false) {
    completions = sorted_add (codes "no") (sorted_add (codes "yes") []);
  }

  unfoldable pub minibuf_read_yesno : List (Option (List ℕ)) → Editor → Option (ℤ × Asked)
  unfolding minibuf_vread_completion minibuf_test_in_completions
  minibuf_read_yesno lines ed = do
    let errmsg = codes "Please answer yes or no."
    q ←
        minibuf_vread_completion yes_or_no errmsg minibuf_test_in_completions (λ ms. errmsg) lines
          (record { answer = none; ed = ed; history = none; written = [] })
    let ret : ℤ = elim q.answer [
      | none ↦ negsuc 0
      | some ms ↦ if streq ms (codes "yes") then pos 1 else pos 0
    ]
    some (ret, q)

-- The environment is that of `expand_path`; `pw_dir` is the user's directory in the password file.
module _ (cwd : List ℕ) (home pw_dir : Option (List ℕ)) (home_of : List ℕ → Option (List ℕ))
    (isprint : ℕ → Bool) (screen : Screen) (sorted_add : List ℕ → List (List ℕ) → List (List ℕ))
    (readdir : Completion → List ℕ → Option (Completion × List ℕ)) where
  -- What is done with the line that was read.
  unfoldable pub file_named : History → List ℕ → Option (Option (List ℕ) × History)
  file_named files_history p = do
    (ok, q) ← expand_path cwd home home_of p
    some (if ok then (some q, add_history_element files_history q) else (none, files_history))

  -- The name and `files_history`.
  unfoldable pub minibuf_read_filename :
      List ℕ → List ℕ → Option (List ℕ) → History → List ℕ → Option (Option (List ℕ) × History)
  unfolding file_named completion_new
  minibuf_read_filename prompt value file files_history keys = do
    let no_file : Bool = elim file [ none ↦ true | some f ↦ false ]
    let slashed =
        if no_file && ltb 0 (length value) && not (ends_with_slash value)
        then value ++ b'/' ∷ []
        else value
    (ok, expanded) ← expand_path cwd home home_of slashed
    let as' = compact_path cwd pw_dir home_of expanded
    let pos : ℕ = elim file [
      | none ↦ length as'
      | some f ↦ (length as' + size_mod - length f) % size_mod
    ]
    let read = (do
      (answer, m) ←
          term_minibuf_read isprint screen sorted_add readdir prompt as' pos
            (some (completion_new true)) (some files_history) keys
      let walked : History = elim m.history [ none ↦ files_history | some hp ↦ hp ]
      elim answer [
        | answered p ↦ file_named walked p
        | cancelled ↦ some (none, walked)
        | waiting ↦ none
      ])
    if ok then read else some (none, files_history)
