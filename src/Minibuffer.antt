-- ===== src/Minibuffer.antt =====
-- Reading a line in the minibuffer (src/term_minibuf.c): the keys that edit the line, walk through the
-- history and ask for completion. The keys that arrive are a list. `isprint` is the library's test,
-- `sorted_add` and `readdir` are what completion takes. What happens outside the line (the bell,
-- the pop-up, suspending) is a log of events. A failed assertion is `none`.
pub mod Plain
pub mod Draw
pub mod Reads
pub mod Recalled
pub mod Refines
use zile.Prelude.{
  ℕ, ◌+◌, ◌-◌, ◌%◌, List, [], ◌∷◌, ◌++◌, Option, none, some, Bool, true, false, not, ◌&&◌, ◌||◌,
  ◌==◌, ltb, length, take, if◌then◌else◌, ◌>>=◌,
}
use zile.Astr.{
  Astr, size_mod, size_max, astr_new, astr_cat_nstr, astr_cpy, astr_ncpy_cstr, astr_remove,
  astr_truncate, astr_substr,
}
use zile.Keymap.{kbd_ctrl, kbd_meta}
use zile.Keycode.{kbd_nokey}
use zile.Memmem.{is_prefix}
use zile.Minibuffer.Draw.{draw_minibuf_read}
use zile.History.{History, prepare_history, previous_history_element, next_history_element}
use zile.Completion.{
  Completion, Screen, Outcome, not_matched, matched, matched_nonunique, nonunique, completion_try,
}

pub data Event : Type 0 where
  ding suspend scroll_up scroll_down close_popup : Event

-- The line, NULL, or no end yet.
pub data Answer : Type 0 where
  answered : List ℕ → Answer
  cancelled waiting : Answer

-- The variables of `term_minibuf_read`; the outcome -1 is `none`.
pub record Minibuf : Type 0 where
  pub line : Astr
  pub pos : ℕ
  pub saved : Option Astr
  pub thistab : Option Outcome
  pub lasttab : Option Outcome
  pub history : Option History
  pub completion : Option Completion
  pub events : List Event

abbrev pub happens : Event → Minibuf → Minibuf
happens e m = record m { events = e ∷ m.events }

-- The keys without a character (src/main.h).
abbrev pub kbd_tab : ℕ
kbd_tab = 0o402

abbrev pub kbd_ret : ℕ
kbd_ret = 0o403

abbrev pub kbd_pgup : ℕ
kbd_pgup = 0o404

abbrev pub kbd_pgdn : ℕ
kbd_pgdn = 0o405

abbrev pub kbd_home : ℕ
kbd_home = 0o406

abbrev pub kbd_end : ℕ
kbd_end = 0o407

abbrev pub kbd_del : ℕ
kbd_del = 0o410

abbrev pub kbd_bs : ℕ
kbd_bs = 0o411

abbrev pub kbd_left : ℕ
kbd_left = 0o413

abbrev pub kbd_right : ℕ
kbd_right = 0o414

abbrev pub kbd_up : ℕ
kbd_up = 0o415

abbrev pub kbd_down : ℕ
kbd_down = 0o416

-- A key with control, as `KBD_CTRL | 'a'`, and KBD_CANCEL.
abbrev pub ctrl : ℕ → ℕ
ctrl c = kbd_ctrl + c

abbrev pub kbd_cancel : ℕ
kbd_cancel = 0o1147

unfoldable pub back_char : Minibuf → Minibuf
back_char m = if ltb 0 m.pos then record m { pos = m.pos - 1 } else happens ding m

unfoldable pub forth_char : Minibuf → Minibuf
forth_char m =
    if ltb m.pos (length m.line.text) then record m { pos = m.pos + 1 } else happens ding m

unfoldable pub kill_rest : Minibuf → Option Minibuf
kill_rest m =
    let cut = (do line ← astr_truncate m.line m.pos; some (record m { line = line })) in
    if ltb m.pos (length m.line.text) then cut else some (happens ding m)

unfoldable pub erase_back : Minibuf → Option Minibuf
erase_back m =
    let erased = (do
      line ← astr_remove m.line (m.pos - 1) 1
      some (record m { line = line; pos = m.pos - 1 })) in
    if ltb 0 m.pos then erased else some (happens ding m)

unfoldable pub erase_forth : Minibuf → Option Minibuf
erase_forth m =
    let erased = (do line ← astr_remove m.line m.pos 1; some (record m { line = line })) in
    if ltb m.pos (length m.line.text) then erased else some (happens ding m)

-- The two halves of the line with the character between them.
unfoldable pub add_char : ℕ → Minibuf → Option Minibuf
add_char c m = do
  before ← astr_substr m.line 0 m.pos
  after ← astr_substr m.line m.pos ((length m.line.text + size_mod - m.pos) % size_mod)
  line ← astr_cpy m.line (astr_cat_nstr astr_new (before.text ++ c ∷ after.text))
  some (record m { line = line; pos = m.pos + 1 })

unfoldable pub pop_scroll : Event → Minibuf → Minibuf
pop_scroll e m = elim m.completion [
  | none ↦ happens ding m
  | some cp ↦ if cp.popped_up then record (happens e m) { thistab = m.lasttab } else m
]

-- The line stays as it was when the history is first entered.
unfoldable pub earlier : Minibuf → Option Minibuf
earlier m = elim m.history [
  | none ↦ some m
  | some hp ↦
      let (element, hp') = previous_history_element hp in
      let kept = astr_cpy astr_new m.line in
      elim element [
        | none ↦ some (record m { history = some hp' })
        | some text ↦ do
          saved ← elim m.saved [ none ↦ kept | some s ↦ some s ]
          line ← astr_ncpy_cstr m.line text
          some (record m { history = some hp'; saved = some saved; line = line })
      ]
]

unfoldable pub later : Minibuf → Option Minibuf
later m = elim m.history [
  | none ↦ some m
  | some hp ↦
      let (element, hp') = next_history_element hp in
      let m1 = record m { history = some hp' } in
      elim element [
        | some text ↦ do line ← astr_ncpy_cstr m.line text; some (record m1 { line = line })
        | none ↦ elim m.saved [
          | none ↦ some m1
          | some s ↦ do line ← astr_cpy m.line s; some (record m1 { line = line; saved = none })
        ]
      ]
]

-- The line becomes what the completion has found; the outcome counts if the line had it already.
unfoldable pub take_match : Outcome → Completion → Minibuf → Minibuf
take_match outcome cp m =
    let path = if cp.filename then cp.path else [] in
    let found = astr_cat_nstr (astr_cat_nstr astr_new path) (take cp.matchsize cp.match_text) in
    record m {
      thistab = if is_prefix found.text m.line.text then some outcome else none;
      line = found;
      pos = length found.text;
      completion = some cp;
    }

abbrev pub close_popped : Completion → Minibuf → Minibuf
close_popped cp m = if cp.popped_up then happens close_popup m else m

unfoldable pub conclude_tab : Outcome → Completion → Minibuf → Minibuf
conclude_tab matched cp m = take_match matched (record cp { popped_up = false }) (close_popped cp m)
conclude_tab matched_nonunique cp m = take_match matched_nonunique cp m
conclude_tab nonunique cp m = take_match nonunique cp m
conclude_tab not_matched cp m = record (happens ding m) {
  thistab = some not_matched;
  completion = some cp;
}

-- What is done after the loop.
unfoldable pub closed : Minibuf → Minibuf
closed m = elim m.completion [ none ↦ m | some cp ↦ close_popped cp m ]

-- Whether the last key has completed something.
abbrev pub completes : Option Outcome → Bool
completes none = false
completes (some not_matched) = false
completes (some _) = true

module _ (isprint : ℕ → Bool) (screen : Screen)
    (sorted_add : List ℕ → List (List ℕ) → List (List ℕ))
    (readdir : Completion → List ℕ → Option (Completion × List ℕ)) where
  unfoldable pub complete_line : Minibuf → Option Minibuf
  complete_line m = elim m.completion [
    | none ↦ some (happens ding m)
    | some cp ↦
        let try = (do
          (outcome, cp') ← completion_try screen sorted_add readdir cp m.line.text true
          some (conclude_tab outcome cp' m)) in
        if completes m.lasttab && cp.popped_up
        then some (record (happens scroll_up m) { thistab = m.lasttab })
        else try
  ]

  unfoldable pub other_key : ℕ → Minibuf → Option Minibuf
  other_key c m =
      let plain = if ltb 255 c || not (isprint c) then some (happens ding m) else add_char c m in
      elim m.completion [ none ↦ plain | some cp ↦ if c == b' ' then complete_line m else plain ]

  -- The switch on the key.
  unfoldable pub read_key : ℕ → Minibuf → Option Minibuf
  read_key c m =
      if c == kbd_nokey || c == kbd_ret || c == kbd_cancel
      then some m
      else if c == ctrl b'z'
      then some (happens suspend m)
      else if c == ctrl b'a' || c == kbd_home
      then some (record m { pos = 0 })
      else if c == ctrl b'e' || c == kbd_end
      then some (record m { pos = length m.line.text })
      else if c == ctrl b'b' || c == kbd_left
      then some (back_char m)
      else if c == ctrl b'f' || c == kbd_right
      then some (forth_char m)
      else if c == ctrl b'k'
      then kill_rest m
      else if c == kbd_bs
      then erase_back m
      else if c == ctrl b'd' || c == kbd_del
      then erase_forth m
      else if c == kbd_meta + b'v' || c == kbd_pgup
      then some (pop_scroll scroll_down m)
      else if c == ctrl b'v' || c == kbd_pgdn
      then some (pop_scroll scroll_up m)
      else if c == kbd_up || c == kbd_meta + b'p'
      then earlier m
      else if c == kbd_down || c == kbd_meta + b'n'
      then later m
      else if c == kbd_tab
      then complete_line m
      else other_key c m

  -- Each key is a round of the loop, which draws the line first and ends at RET with the line and at
  -- C-g without one. The first argument is the length of the prompt.
  unfoldable pub read_loop : ℕ → List ℕ → Minibuf → Option (Answer × Minibuf)
  read_loop prompt_len [] m = do
    _ ← draw_minibuf_read screen.term_width prompt_len m.line.text m.pos
    some (waiting, m)
  read_loop prompt_len (c ∷ keys) m = do
    _ ← draw_minibuf_read screen.term_width prompt_len m.line.text m.pos
    m1 ← read_key c (record m { thistab = none })
    let m2 = record m1 { lasttab = m1.thistab }
    let rest = read_loop prompt_len keys m2
    if c == kbd_ret
        then some (answered m2.line.text, closed m2)
        else if c == kbd_cancel
        then some (cancelled, closed m2)
        else rest

  unfoldable pub term_minibuf_read :
      List ℕ → List ℕ → ℕ → Option Completion → Option History → List ℕ → Option (Answer × Minibuf)
  term_minibuf_read prompt value pos cp hp keys =
      let line = astr_cat_nstr astr_new value in
      read_loop (length prompt) keys (record {
        line = line;
        pos = if pos == size_max then length line.text else pos;
        saved = none;
        thistab = none;
        lasttab = none;
        history = elim hp [ none ↦ none | some h ↦ some (prepare_history h) ];
        completion = cp;
        events = [];
      })
