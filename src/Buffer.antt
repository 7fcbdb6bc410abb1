-- ===== src/Buffer.antt =====
-- The buffer and the functions that know about its gap (src/buffer.c, src/buffer.h), with the
-- records for markers (src/marker.c) and undo deltas (src/undo.c) that a buffer holds.
-- A failed `assert` is `none`.
pub mod Shows
pub mod Gap
pub mod Copy
use zile.Prelude.{
  ℕ, ◌+◌, ◌-◌, min, max, List, Option, none, some, Bool, true, false, ◌==◌, ltb, if◌then◌else◌,
  length, take, drop, ◌>>=◌, ◌>>◌,
}
use mathlib.Core.Option
use zile.Astr.{Astr, astr_new, astr_cat, astr_get, astr_move, astr_set, astr_substr, size_max}
use zile.Estr.{Eol, lf, Estr, estr_start_of_line, estr_end_of_line, estr_prev_line, estr_next_line}

-- A marker; `id` stands for its address.
pub record Marker : Type 0 where
  pub id : ℕ
  pub o : ℕ

-- The type of an undo delta, with the fields that only a block has.
pub data Delta : Type 0 where
  replace_block : Estr → ℕ → Delta
  start_sequence end_sequence : Delta

pub record Undo : Type 0 where
  pub delta : Delta
  pub o : ℕ
  pub unchanged : Bool

-- `address` stands for the buffer's address. `last_undop` lists the deltas from the most recent;
-- `next_undop` is a tail of it.
pub record Buffer : Type 0 where
  pub address : ℕ
  pub name : Option (List ℕ)
  pub filename : Option (List ℕ)
  pub goalc : ℕ
  pub mark : Option ℕ
  pub markers : List Marker
  pub last_undop : List Undo
  pub next_undop : List Undo
  pub modified : Bool
  pub readonly : Bool
  pub needname : Bool
  pub nosave : Bool
  pub temporary : Bool
  pub noundo : Bool
  pub autofill : Bool
  pub mark_active : Bool
  pub pt : ℕ
  pub text : Estr
  pub gap : ℕ

pub record Region : Type 0 where
  pub start : ℕ
  pub end : ℕ

-- The bytes of the text's string, gap included.
abbrev pub bytes : Buffer → List ℕ
bytes bp = bp.text.str.text

abbrev pub set_bytes : Buffer → Astr → Buffer
set_bytes bp s = record bp { text = record { str = s; eol = bp.text.eol } }

unfoldable pub get_buffer_pre_point : Buffer → Astr
get_buffer_pre_point bp = record { text = take bp.pt (bytes bp); maxlen = 0 }

unfoldable pub get_buffer_post_point : Buffer → Astr
get_buffer_post_point bp = record { text = drop (bp.pt + bp.gap) (bytes bp); maxlen = 0 }

unfoldable pub set_buffer_pt : Buffer → ℕ → Option Buffer
set_buffer_pt bp o =
    let s = bp.text.str in
    let left = (do
      moved ← astr_move s (o + bp.gap) o (bp.pt - o)
      s' ← astr_set moved o 0 (min (bp.pt - o) bp.gap)
      some (record (set_bytes bp s') { pt = o })) in
    let right = (do
      moved ← astr_move s bp.pt (bp.pt + bp.gap) (o - bp.pt)
      s' ← astr_set moved (o + bp.gap - min (o - bp.pt) bp.gap) 0 (min (o - bp.pt) bp.gap)
      some (record (set_bytes bp s') { pt = o })) in
    if ltb o bp.pt then left else if ltb bp.pt o then right else some (record bp { pt = o })

unfoldable pub realo_to_o : Buffer → ℕ → ℕ
realo_to_o bp o =
    if o == size_max then o else if ltb o (bp.pt + bp.gap) then min o bp.pt else o - bp.gap

unfoldable pub o_to_realo : Buffer → ℕ → ℕ
o_to_realo bp o = if ltb o bp.pt then o else o + bp.gap

unfoldable pub get_buffer_size : Buffer → ℕ
unfolding realo_to_o
get_buffer_size bp = realo_to_o bp (length (bytes bp))

unfoldable pub buffer_start_of_line : Buffer → ℕ → ℕ
unfolding realo_to_o o_to_realo estr_start_of_line
buffer_start_of_line bp o = realo_to_o bp (estr_start_of_line bp.text (o_to_realo bp o))

unfoldable pub buffer_end_of_line : Buffer → ℕ → ℕ
unfolding realo_to_o o_to_realo estr_end_of_line
buffer_end_of_line bp o = realo_to_o bp (estr_end_of_line bp.text (o_to_realo bp o))

unfoldable pub buffer_line_len : Buffer → ℕ → ℕ
unfolding buffer_start_of_line buffer_end_of_line
buffer_line_len bp o =
    realo_to_o bp (estr_end_of_line bp.text (o_to_realo bp o))
    - realo_to_o bp (estr_start_of_line bp.text (o_to_realo bp o))

unfoldable pub buffer_prev_line : Buffer → ℕ → ℕ
unfolding realo_to_o o_to_realo estr_prev_line
buffer_prev_line bp o = realo_to_o bp (estr_prev_line bp.text (o_to_realo bp o))

unfoldable pub buffer_next_line : Buffer → ℕ → ℕ
unfolding realo_to_o o_to_realo estr_next_line
buffer_next_line bp o = realo_to_o bp (estr_next_line bp.text (o_to_realo bp o))

unfoldable pub get_buffer_line_o : Buffer → ℕ
unfolding buffer_start_of_line
get_buffer_line_o bp = realo_to_o bp (estr_start_of_line bp.text (o_to_realo bp bp.pt))

unfoldable pub get_buffer_char : Buffer → ℕ → Option ℕ
unfolding o_to_realo astr_get
get_buffer_char bp o = astr_get bp.text.str (o_to_realo bp o)

unfoldable pub region_new : ℕ → ℕ → Region
region_new o1 o2 = record { start = min o1 o2; end = max o1 o2 }

unfoldable pub get_region_size : Region → ℕ
get_region_size r = r.end - r.start

unfoldable pub get_buffer_region : Buffer → Region → Option Estr
unfolding get_buffer_pre_point get_buffer_post_point
get_buffer_region bp r =
    let before = astr_substr (get_buffer_pre_point bp) r.start (min r.end bp.pt - r.start) in
    let from = max r.start bp.pt in
    let after = astr_substr (get_buffer_post_point bp) (from - bp.pt) (r.end - from) in
    do
      first ← if ltb r.start bp.pt then Option.map (astr_cat astr_new) before else some astr_new
      both ← if ltb bp.pt r.end then Option.map (astr_cat first) after else some first
      some (record { str = both; eol = bp.text.eol })
