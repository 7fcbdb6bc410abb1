-- ===== src/Kill/Character.antt =====
-- Deleting a character (delete_char of src/buffer.c).
use zile.Prelude.{
  ℕ, ◌+◌, ◌<◌, ◌≡◌, refl, sym, ap, ◌∙◌, List, [], ◌∷◌, ◌++◌, some, Bool, true, false, if◌then◌else◌,
  ◌||◌, arith, length, drop, append-nil, Bool-cases, inl, inr, ≢→==,
}
use zile.Astr.{size_max}
use zile.Memmem.{is_prefix}
use zile.Estr.{Eol, eol_bytes, eol_len, estr_empty}
use zile.Estr.Convert.{prefix_split}
use zile.Buffer.{Buffer, bytes}
use zile.Buffer.Gap.{Shows, Shows-eq}
use zile.Editor.{Editor, min_gap, replace_estr}
use zile.Editor.Replace.{replace_estr_lem, new_text}
use zile.Move.{eolp, eobp}
use zile.Move.LineEnds.{ends_here, eolp_lem, get_buffer_size_lem}
use zile.Move.Goto.{length-bytes}
use zile.Kill.{deactivate_mark, delete_char}
use zile.Kill.Delete.{empty_short, nothing, replace_estr_size}

-- The length of the character that a text begins with: an end of line is one.
abbrev pub char_len : Eol → List ℕ → ℕ
char_len eol s = if ends_here eol s then eol_len eol else 1

char_len-split :
    (eol : Eol) (c : ℕ) (s : List ℕ)
    → (d : List ℕ) × (c ∷ s ≡ d ++ drop (char_len eol (c ∷ s)) (c ∷ s))
      × (length d ≡ char_len eol (c ∷ s))
char_len-split eol c s = elim (Bool-cases (is_prefix (eol_bytes eol) (c ∷ s))) [
  | inl p ↦ (eol_bytes eol, rw p (prefix_split (eol_bytes eol) (c ∷ s) p), rw p refl)
  | inr p ↦ (c ∷ [], rw p refl, rw p refl)
]

eobp-false :
    (bp : Buffer) (pre : List ℕ) (c : ℕ) (s : List ℕ)
    → Shows bp pre (c ∷ s)
    → length (bytes bp) < size_max
    → eobp bp ≡ false
unfolding eobp
eobp-false bp pre c s h small =
    ≢→== _ _ (λ e. omega (arith, get_buffer_size_lem bp pre (c ∷ s) h small))

abbrev char_deleted : Editor → Bool → Editor
char_deleted ed at_end = record ed {
  cur_bp = record (ed.cur_bp) { modified = true };
  need_resync = ed.need_resync || at_end;
}

delete_char_steps :
    (ed ed2 : Editor)
    → eobp (deactivate_mark ed).cur_bp ≡ false
    → ed.cur_bp.readonly ≡ false
    → replace_estr
        (deactivate_mark ed)
        (if eolp (deactivate_mark ed).cur_bp then eol_len ed.cur_bp.text.eol else 1)
        estr_empty
      ≡ some (true, ed2)
    → delete_char ed ≡ some (true, char_deleted ed2 (eolp (deactivate_mark ed).cur_bp))
unfolding delete_char deactivate_mark
delete_char_steps ed ed2 p w q = rw (q, p, w) refl

-- Before a character, in a writable buffer whose text with a new gap is below the machine's size,
-- `delete_char` succeeds, takes the character away, which is the whole end of line at the end of a
-- line, and leaves the buffer modified and the mark not active.
pub delete_char_lem :
    (ed : Editor) (pre : List ℕ) (c : ℕ) (s : List ℕ)
    → Shows ed.cur_bp pre (c ∷ s)
    → ed.cur_bp.readonly ≡ false
    → length (bytes ed.cur_bp) + min_gap < size_max
    → (ed' : Editor) × (delete_char ed ≡ some (true, ed'))
      × Shows ed'.cur_bp pre (drop (char_len ed.cur_bp.text.eol (c ∷ s)) (c ∷ s))
      × (ed'.cur_bp.modified ≡ true)
      × (ed'.cur_bp.mark_active ≡ false)
unfolding delete_char deactivate_mark
delete_char_lem ed pre c s h w small =
    let ed1 = deactivate_mark ed in
    let eol = ed.cur_bp.text.eol in
    let post = drop (char_len eol (c ∷ s)) (c ∷ s) in
    let (d, split, len) = char_len-split eol c s in
    let h1 : Shows ed1.cur_bp pre (c ∷ s) = record { layout = h.layout; at_pt = h.at_pt } in
    let shows = Shows-eq ed1.cur_bp pre pre (c ∷ s) (d ++ post) refl split h1 in
    let ends = eolp_lem ed1.cur_bp pre (c ∷ s) h1 (omega arith) in
    let here = eobp-false ed1.cur_bp pre c s h1 (omega arith) in
    let v : new_text ed1 estr_empty ≡ [] = nothing ed1 in
    let (ed2, q, shows2, r) =
      replace_estr_lem ed1 estr_empty pre d post shows w (inr (omega (arith, ap length v)))
        empty_short (omega (arith, length-bytes ed.cur_bp pre (c ∷ s) h, ap length v)) in
    let n : (if eolp ed1.cur_bp then eol_len eol else 1) ≡ length d =
      ap (λ (b : Bool). if b then eol_len eol else 1) ends ∙ sym len in
    let shows3 =
      Shows-eq ed2.cur_bp (pre ++ new_text ed1 estr_empty) pre post post
        (ap (pre ++◌) v ∙ append-nil pre) refl shows2 in
    (
      char_deleted ed2 (eolp ed1.cur_bp),
      delete_char_steps ed ed2 here w (replace_estr_size ed1 ed2 estr_empty (length d) _ n q),
      record { layout = shows3.layout; at_pt = shows3.at_pt },
      refl,
      r.active_kept,
    )
