-- ===== src/BufferList.antt =====
-- The chain of buffers (src/buffer.c): names, the order of use, new buffers and killed ones.
pub mod Names
pub mod Killed
use zile.Prelude.{
  ℕ, zero, suc, ◌+◌, List, [], ◌∷◌, ◌++◌, map, Option, none, some, Bool, true, false, not, ◌&&◌,
  ◌==◌, if◌then◌else◌, ◌>>=◌, ◌>>◌, assert, length,
}
use zile.Astr.{astr_new}
use zile.Estr.{lf}
use zile.Buffer.{Buffer}
use zile.Editor.{Editor, set_cur_bp}
use zile.Session.{Session, Window, set_current_buffer, change_buffer, window_at, change_window}
use zile.Window.{has_name, window_resync}

-- The chain, with the current buffer as it is.
abbrev pub chain : Session → List Buffer
chain s =
    map (λ (b : Buffer). if b.address == s.ed.cur_bp.address then s.ed.cur_bp else b) s.buffers

unfoldable pub find_named : List ℕ → List Buffer → Option Buffer
find_named name [] = none
find_named name (b ∷ bs) = if has_name name b then some b else find_named name bs

unfoldable pub find_buffer : List ℕ → Session → Option Buffer
unfolding find_named
find_buffer name s = find_named name (chain s)

-- The buffer at an address, and the chain without it. The code follows NULL when it is not there.
unfoldable pub take_out : ℕ → List Buffer → Option (Buffer × List Buffer)
take_out a [] = none
take_out a (b ∷ bs) =
    let rest = (do (c, cs) ← take_out a bs; some (c, b ∷ cs)) in
    if b.address == a then some (b, bs) else rest

unfoldable pub move_buffer_to_head : ℕ → List Buffer → Option (List Buffer)
unfolding take_out
move_buffer_to_head a bs = do (b, rest) ← take_out a bs; some (b ∷ rest)

abbrev show_in : ℕ → Window → Window
show_in a w = record w { bp = a }

-- The change of the working directory is left out.
unfoldable pub switch_to_buffer : ℕ → Session → Option Session
unfolding move_buffer_to_head
switch_to_buffer a s = do
  w ← window_at s.windows s.cur_wp
  assert (w.bp == s.ed.cur_bp.address)
  let switched = (do
    s1 ← set_current_buffer a s
    bs ← move_buffer_to_head a s1.buffers
    some (record s1 {
      ed = record s1.ed { need_resync = true };
      buffers = bs;
      windows = change_window s.cur_wp (show_in a) s1.windows;
    }))
  if s.ed.cur_bp.address == a then some s else switched

-- The flag is set and the buffer goes to the end of the chain; a last one stays there.
unfoldable pub set_temporary_buffer : ℕ → Session → Option Session
unfolding take_out
set_temporary_buffer a s = do
  s1 ← change_buffer a (λ b. record b { temporary = true }) s
  (b, rest) ← take_out a s1.buffers
  some (record s1 { buffers = rest ++ (b ∷ []) })

-- The new buffer's address is the second result.
unfoldable pub buffer_new : Session → Session × ℕ
buffer_new s =
    let b : Buffer = record {
      address = s.ed.fresh;
      name = none;
      filename = none;
      goalc = 0;
      mark = none;
      markers = [];
      last_undop = [];
      next_undop = [];
      modified = false;
      readonly = false;
      needname = false;
      nosave = false;
      temporary = false;
      noundo = false;
      autofill = s.ed.vars.auto_fill_mode;
      mark_active = false;
      pt = 0;
      text = record { str = astr_new; eol = lf };
      gap = 0;
    } in
    (record s { ed = record s.ed { fresh = s.ed.fresh + 1 }; buffers = b ∷ s.buffers }, s.ed.fresh)

unfoldable pub create_auto_buffer : List ℕ → Session → Option (Session × ℕ)
unfolding buffer_new
create_auto_buffer name s = do
  let (s1, a) = buffer_new s
  s2 ←
      change_buffer a
        (λ b. record b { name = some name; needname = true; temporary = true; nosave = true }) s1
  some (s2, a)

-- "*scratch*"
abbrev pub scratch_name : List ℕ
scratch_name = 42 ∷ 115 ∷ 99 ∷ 114 ∷ 97 ∷ 116 ∷ 99 ∷ 104 ∷ 42 ∷ []

unfoldable pub create_scratch_buffer : Session → Option (Session × ℕ)
unfolding create_auto_buffer
create_scratch_buffer s = create_auto_buffer scratch_name s

-- The loop that makes a name unique: `print i` is what "<%zd>" prints.
unfoldable pub unique_name : (ℕ → List ℕ) → List ℕ → List Buffer → ℕ → ℕ → List ℕ → Option (List ℕ)
unfolding find_named
unique_name print base bs zero i name = none
unique_name print base bs (suc fuel) i name = elim (find_named name bs) [
  | none ↦ some name
  | some b ↦ unique_name print base bs fuel (i + 1) (base ++ print i)
]

abbrev is_absolute : List ℕ → Bool
is_absolute [] = false
is_absolute (c ∷ s) = c == 47

-- `base_name` and `print` are the C library's, `cwd` the working directory.
unfoldable pub set_buffer_names :
    (List ℕ → List ℕ) → List ℕ → (ℕ → List ℕ) → ℕ → List ℕ → Session → Option Session
unfolding unique_name
set_buffer_names base_name cwd print a filename s = do
  let absolute = if is_absolute filename then filename else cwd ++ (47 ∷ filename)
  s1 ← change_buffer a (λ b. record b { filename = some absolute }) s
  let base = base_name absolute
  name ← unique_name print base (chain s1) (length (chain s1) + 2) 2 base
  change_buffer a (λ b. record b { name = some name }) s1

-- The buffer that takes the place of a killed one: the next, or else the first.
unfoldable pub next_buffer : ℕ → List Buffer → Option ℕ
next_buffer a [] = none
next_buffer a (b ∷ []) = none
next_buffer a (b ∷ c ∷ bs) = if b.address == a then some c.address else next_buffer a (c ∷ bs)

unfoldable pub heir : ℕ → List Buffer → Option ℕ
unfolding next_buffer
heir a bs =
    let first : Option ℕ = elim bs [
      | [] ↦ none
      | b ∷ _ ↦ if b.address == a then none else some b.address
    ] in
    elim (next_buffer a bs) [ none ↦ first | some n ↦ some n ]

unfoldable pub retarget : ℕ → ℕ → List Window → List Window
retarget a next [] = []
retarget a next (w ∷ ws) =
    (if w.bp == a then record w { bp = next; topdelta = 0; saved_pt = none } else w)
    ∷ retarget a next ws

unfoldable pub remove_buffer : ℕ → List Buffer → List Buffer
remove_buffer a [] = []
remove_buffer a (b ∷ bs) = if b.address == a then bs else b ∷ remove_buffer a bs

-- "Resync windows that need it."
unfoldable pub resync_all : ℕ → List Window → Session → Option Session
resync_all next [] s = some s
resync_all next (w ∷ ws) s = do
  let resynced = window_resync w.address s
  s1 ← if w.bp == next then resynced else some s
  resync_all next ws s1

-- Every window shows the new scratch buffer.
unfoldable pub show_all : ℕ → List Window → List Window
show_all a [] = []
show_all a (w ∷ ws) = show_in a w ∷ show_all a ws

unfoldable pub kill_buffer : ℕ → Session → Option Session
unfolding heir retarget remove_buffer resync_all create_scratch_buffer show_all
kill_buffer a s =
    let inherited = λ (next : ℕ). (do
      let shown = record s { windows = retarget a next s.windows }
      let current = set_current_buffer next shown
      s1 ← if s.ed.cur_bp.address == a then current else some shown
      let s2 = record s1 { buffers = remove_buffer a s1.buffers }
      resync_all next s2.windows s2) in
    let last = (do
      (s1, new) ←
          create_scratch_buffer
            (record s { windows = retarget a a s.windows; buffers = remove_buffer a s.buffers })
      s2 ← set_current_buffer new s1
      let s3 = record s2 { windows = show_all new s2.windows }
      resync_all new s3.windows s3) in
    elim (heir a s.buffers) [ none ↦ last | some next ↦ inherited next ]
