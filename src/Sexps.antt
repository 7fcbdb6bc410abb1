-- ===== src/Sexps.antt =====
-- Balanced expressions (src/funcs.c). Loops that no count bounds run on fuel.
use zile.Prelude.{
  ℕ, zero, suc, ◌+◌, ◌-◌, Option, none, some, Bool, true, false, not, ◌&&◌, ◌||◌, ◌==◌, ltb,
  if◌then◌else◌, ◌>>=◌,
}
use zile.Buffer.{get_buffer_char, get_buffer_line_o}
use zile.Editor.{Editor, say, scan_error_ends, scan_error_unbalanced}
use zile.Move.{beginning_of_line, end_of_line, move_char, move_line, bolp, eolp}
use zile.Run.{Action}
use zile.Words.{is_alnum}

unfoldable pub isopenbracketchar : ℕ → Bool → Bool → Bool
isopenbracketchar c single_quote double_quote =
    c == b'('
    || c == b'['
    || c == b'{'
    || (c == 34 && not double_quote)
    || (c == 39 && not single_quote)

unfoldable pub isclosebracketchar : ℕ → Bool → Bool → Bool
isclosebracketchar c single_quote double_quote =
    c == b')' || c == b']' || c == b'}' || (c == 34 && double_quote) || (c == 39 && single_quote)

-- The variables of `move_sexp`. The level is left when it would fall below zero.
pub record Scan : Type 0 where
  pub gotsexp : Bool
  pub level : ℕ
  pub single_quote : Bool
  pub double_quote : Bool

-- A round of the loops: on, or the result of the function.
pub data Round : Type 0 where
  on : Scan → Editor → Round
  stop : Bool → Editor → Round

-- The bracket that opens, in the direction of the motion.
unfoldable pub open_bracket : Scan → ℕ → Scan
open_bracket s c =
    let double = if c == 34 then not s.double_quote else s.double_quote in
    record s {
      level = s.level + 1;
      gotsexp = true;
      double_quote = double;
      single_quote = if c == 39 then not double else s.single_quote;
    }

unfoldable pub close_bracket : Scan → ℕ → Scan
close_bracket s c = record s {
  level = s.level - 1;
  gotsexp = true;
  double_quote = if c == 34 then not s.double_quote else s.double_quote;
  single_quote = if c == 39 then not s.single_quote else s.single_quote;
}

-- The end of the inner loop's body, from `move_char (dir)` on.
unfoldable pub after_char : Bool → Scan → ℕ → Editor → Option Round
unfolding isopenbracketchar isclosebracketchar is_alnum
after_char forward s c ed = do
  (_, ed1) ← move_char forward 1 ed
  let is_bracket =
      isopenbracketchar c s.single_quote s.double_quote
      || isclosebracketchar c s.single_quote s.double_quote
  let outside = s.gotsexp && s.level == 0
  let back = (do (_, ed2) ← move_char (not forward) 1 ed1; some (stop true ed2))
  if is_alnum c || c == b'$' || c == 95
      then some (on (record s { gotsexp = true }) ed1)
      else if not outside
      then some (on s ed1)
      else if is_bracket
      then some (stop true ed1)
      else back

-- The body of the inner loop from the brackets on.
unfoldable pub at_char : Bool → Scan → ℕ → Editor → Option Round
unfolding isopenbracketchar isclosebracketchar open_bracket close_bracket after_char
at_char forward s c ed =
    let opens =
      (if forward then isopenbracketchar else isclosebracketchar) c s.single_quote s.double_quote in
    let closes =
      (if forward then isclosebracketchar else isopenbracketchar) c s.single_quote s.double_quote in
    let ready = s.level == 0 && s.gotsexp in
    if opens
    then (if ready then some (stop true ed) else after_char forward (open_bracket s c) c ed)
    else if closes
    then (if ready
        then some (stop true ed)
        else if s.level == 0
        then some (stop false (say ed scan_error_ends))
        else after_char forward (close_bracket s c) c ed)
    else after_char forward s c ed

-- The body of the inner loop: an escaped quote is stepped over, and counts as a letter.
unfoldable pub sexp_step : Bool → Scan → Editor → Option Round
unfolding at_char
sexp_step forward s ed = do
  let bp = ed.cur_bp
  let o = if forward then bp.pt else bp.pt - 1
  c ← get_buffer_char bp o
  let before = get_buffer_char bp (o - 1)
  e ← if (c == 34 || c == 39) && ltb (get_buffer_line_o bp) o then before else some 0
  let escaped = (do (_, ed1) ← move_char forward 1 ed; at_char forward s b'a' ed1)
  if (c == 34 || c == 39) && ltb (get_buffer_line_o bp) o && e == 92
      then escaped
      else at_char forward s c ed

unfoldable pub sexp_line : ℕ → Bool → Scan → Editor → Option Round
unfolding sexp_step
sexp_line zero forward s ed = none
sexp_line (suc fuel) forward s ed =
    let more = (do
      r ← sexp_step forward s ed
      let next = λ (s1 : Scan) (ed1 : Editor). sexp_line fuel forward s1 ed1
      elim r [ on s1 ed1 ↦ next s1 ed1 | stop ok ed1 ↦ some (stop ok ed1) ]) in
    if (if forward then eolp ed.cur_bp else bolp ed.cur_bp) then some (on s ed) else more

unfoldable pub sexp_lines : ℕ → Bool → Scan → Action
unfolding sexp_line
sexp_lines zero forward s ed = none
sexp_lines (suc fuel) forward s ed = do
  r ← sexp_line (suc fuel) forward s ed
  let next = λ (s1 : Scan) (ed1 : Editor). (do
    (moved, ed2) ← move_line forward 1 ed1
    let unbalanced = if s1.level == 0 then ed2 else say ed2 scan_error_unbalanced
    let across = (do
      ed3 ← if forward then beginning_of_line ed2 else end_of_line ed2
      sexp_lines fuel forward s1 ed3)
    if moved then across else some (false, unbalanced))
  elim r [
    | stop ok ed1 ↦ some (ok, ed1)
    | on s1 ed1 ↦ if s1.gotsexp && s1.level == 0 then some (true, ed1) else next s1 ed1
  ]

unfoldable pub move_sexp : ℕ → Bool → Action
unfolding sexp_lines
move_sexp fuel forward =
    sexp_lines fuel forward (record {
      gotsexp = false;
      level = 0;
      single_quote = not forward;
      double_quote = not forward;
    })
