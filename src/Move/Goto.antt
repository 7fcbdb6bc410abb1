-- ===== src/Move/Goto.antt =====
-- `goto_offset` (src/buffer.c) and the reading of characters, on the text that the buffer shows.
use zile.Prelude.{
  ℕ, zero, suc, ◌+◌, ◌-◌, ◌≤◌, ◌≡◌, refl, ap, ◌∙◌, List, ◌++◌, some, Bool, true, false, ◌==◌,
  if◌then◌else◌, ltb, arith, length, take, drop, get_elem?, zeros, length-zeros, length-append,
  Bool-cases, Option-cases, take-append-drop, inl, inr, le→leb, ltb→lt, ltb→le,
}
use Prim.Native.Nat.{bit_or}
use zile.Astr.{Astr, astr_get}
use zile.Buffer.{
  Buffer, bytes, set_buffer_pt, get_buffer_char, o_to_realo, get_buffer_line_o,
  buffer_start_of_line,
}
use zile.Buffer.Gap.{Shows, moved_to, set_buffer_pt_lem}
use zile.Editor.{Editor, set_cur_bp}
use zile.Move.{goalc_loop, get_goalc_bp, get_goalc, goto_offset, tab_width}

pub length-bytes :
    (bp : Buffer) (pre post : List ℕ)
    → Shows bp pre post
    → length (bytes bp) ≡ length pre + (bp.gap + length post)
length-bytes bp pre post h =
    ap length h.layout
    ∙ length-append pre (zeros bp.gap ++ post)
    ∙ ap (length pre +◌)
        (length-append (zeros bp.gap) post ∙ ap (◌+ length post) (length-zeros bp.gap))

o_to_realo-le :
    (bp : Buffer) (pre post : List ℕ)
    → Shows bp pre post
    → (o : ℕ) → o ≤ length (pre ++ post)
    → o_to_realo bp o ≤ length (bytes bp)
unfolding o_to_realo
o_to_realo-le bp pre post h o le =
    ground (arith, length-bytes bp pre post h, length-append pre post, h.at_pt)

astr_get-some : (s : Astr) (i : ℕ) → i ≤ length s.text → (c : ℕ) × (astr_get s i ≡ some c)
unfolding astr_get
astr_get-some s i le = elim (Option-cases (get_elem? s.text i)) [
  | inl p ↦ (0, rw (le→leb i (length s.text) le, p))
  | inr (c, p) ↦ (c, rw (le→leb i (length s.text) le, p))
]

module _ (bp : Buffer) (pre post : List ℕ) (h : Shows bp pre post) where
  pub get_buffer_char-some :
      (o : ℕ) → o ≤ length (pre ++ post) → (c : ℕ) × (get_buffer_char bp o ≡ some c)
  unfolding get_buffer_char
  get_buffer_char-some o le =
      astr_get-some bp.text.str (o_to_realo bp o) (o_to_realo-le bp pre post h o le)

  goalc_loop-some :
      (t start rounds i col : ℕ)
      → start + (i + rounds) ≤ length (pre ++ post)
      → (col' : ℕ) × (goalc_loop bp t start rounds i col ≡ some col')
  unfolding goalc_loop
  goalc_loop-some t start zero i col le = (col, refl)
  goalc_loop-some t start (suc rounds) i col le =
      let (c, p) = get_buffer_char-some (start + i) (omega arith) in
      let (col', q) =
        goalc_loop-some t start rounds (i + 1) ((if c == 9 then bit_or col (t - 1) else col) + 1)
          (omega arith) in
      (col', rw p q)

  get_goalc_bp-some :
      (ed : Editor) (o : ℕ)
      → o ≤ length (pre ++ post)
      → (col : ℕ) × (get_goalc_bp ed bp o ≡ some col)
  unfolding get_goalc_bp
  get_goalc_bp-some ed o le =
      let start = buffer_start_of_line bp o in
      elim (Bool-cases (ltb o start)) [
        | inl p ↦
            let lt = ltb→lt o start p in
            let e : o - start ≡ 0 = omega arith in (0, rw (e, goalc_loop))
        | inr p ↦
            goalc_loop-some (tab_width ed) start (o - start) 0 0 (omega (arith, ltb→le o start p))
      ]

-- The editor with the point at `o`; only the bytes' layout, the goal column and the request to
-- resynchronise may differ besides.
abbrev pub arrived : Editor → Astr → ℕ → ℕ → Bool → Editor
arrived ed s o goalc resync = record ed {
  cur_bp = record (moved_to ed.cur_bp s o) { goalc = goalc };
  need_resync = resync;
}

abbrev pub Arrives : Editor → ℕ → List ℕ → Type 0
Arrives ed o shown =
    (s : Astr) × (goalc : ℕ) × (resync : Bool) × (goto_offset ed o
      ≡ some (arrived ed s o goalc resync))
    × Shows (arrived ed s o goalc resync).cur_bp (take o shown) (drop o shown)

goto_offset_same :
    (ed : Editor) (o : ℕ) (s : Astr)
    → set_buffer_pt ed.cur_bp o ≡ some (moved_to ed.cur_bp s o)
    → (get_buffer_line_o (moved_to ed.cur_bp s o) == get_buffer_line_o ed.cur_bp) ≡ true
    → goto_offset ed o ≡ some (arrived ed s o ed.cur_bp.goalc ed.need_resync)
unfolding goto_offset
goto_offset_same ed o s p q = rw (p, q)

goto_offset_other :
    (ed : Editor) (o : ℕ) (s : Astr) (col : ℕ)
    → set_buffer_pt ed.cur_bp o ≡ some (moved_to ed.cur_bp s o)
    → (get_buffer_line_o (moved_to ed.cur_bp s o) == get_buffer_line_o ed.cur_bp) ≡ false
    → get_goalc (set_cur_bp ed (moved_to ed.cur_bp s o)) ≡ some col
    → goto_offset ed o ≡ some (arrived ed s o col true)
unfolding goto_offset
goto_offset_other ed o s col p q r = rw (p, q, r)

-- `goto_offset` reaches every offset of the text and leaves the text alone.
pub goto_offset_lem :
    (ed : Editor) (pre post : List ℕ)
    → Shows ed.cur_bp pre post
    → (o : ℕ) → o ≤ length (pre ++ post)
    → Arrives ed o (pre ++ post)
unfolding get_goalc
goto_offset_lem ed pre post h o le =
    let (s, p, shows) = set_buffer_pt_lem ed.cur_bp pre post h o le in
    let bp' = moved_to ed.cur_bp s o in
    elim (Bool-cases (get_buffer_line_o bp' == get_buffer_line_o ed.cur_bp)) [
      | inl q ↦ (
        s,
        ed.cur_bp.goalc,
        ed.need_resync,
        goto_offset_same ed o s p q,
        record { layout = shows.layout; at_pt = shows.at_pt },
      )
      | inr q ↦
          let (col, r) =
            get_goalc_bp-some bp' (take o (pre ++ post)) (drop o (pre ++ post)) shows
              (set_cur_bp ed bp') o (omega (arith, ap length (take-append-drop o (pre ++ post)))) in
          (
            s,
            col,
            true,
            goto_offset_other ed o s col p q r,
            record { layout = shows.layout; at_pt = shows.at_pt },
          )
    ]
