-- ===== src/Kill/Copy.antt =====
-- Copying a region to the kill ring (`copy_or_kill_region` of src/killring.c).
use zile.Prelude.{
  ℕ, ◌+◌, ◌-◌, ◌≤◌, ◌<◌, ◌≡◌, refl, ap, ◌∙◌, List, ◌++◌, none, some, true, false, arith, length,
  drop, length-take, length-drop,
}
use zile.Astr.{size_mod, astr_new}
use zile.Estr.{lf, Estr, estr_cat}
use zile.Estr.Convert.{convert}
use zile.Estr.Convert.Replace.{estr_cat_lem}
use zile.Buffer.{Region, get_buffer_region}
use zile.Buffer.Gap.{Shows}
use zile.Buffer.Copy.{slice, get_buffer_region_lem}
use zile.Editor.{Editor, kill_region}
use zile.Kill.{copy_or_kill_region, kill_ring_push, deactivate_mark}

-- The kill ring's string, a new one where there is none.
abbrev pub ring : Editor → Estr
ring ed = elim ed.kill_ring_text [ some text ↦ text | none ↦ record { str = astr_new; eol = lf } ]

abbrev pub copied : Editor → Estr → Editor
copied ed es = deactivate_mark (record ed { kill_ring_text = some es; this_command = kill_region })

copy_steps :
    (ed : Editor) (r : Region) (t es : Estr)
    → get_buffer_region ed.cur_bp r ≡ some t
    → estr_cat (ring ed) t ≡ some es
    → copy_or_kill_region false ed r ≡ some (true, copied ed es)
unfolding copy_or_kill_region kill_ring_push
copy_steps ed r t es p q = rw (p, q) refl

-- Copying a region appends its text to the kill ring, the line ends converted to the ring's, when
-- the texts are below the machine's size: it succeeds, and besides the ring, the command's name and the mark's
-- activity nothing changes.
pub copy_or_kill_region_lem :
    (ed : Editor) (pre post : List ℕ) (s e : ℕ)
    → Shows ed.cur_bp pre post
    → s ≤ e
    → e ≤ length (pre ++ post)
    → length (pre ++ post) < size_mod
    → length (ring ed).str.text
        + length (convert ed.cur_bp.text.eol (ring ed).eol 0 (slice s e (pre ++ post)))
      < size_mod
    → (es : Estr) × (copy_or_kill_region false ed (record { start = s; end = e })
        ≡ some (true, copied ed es))
      × (es.str.text
          ≡ (ring ed).str.text
            ++ convert ed.cur_bp.text.eol (ring ed).eol 0 (slice s e (pre ++ post)))
      × (es.eol ≡ (ring ed).eol)
copy_or_kill_region_lem ed pre post s e h le fits small room =
    let (t, p, x, y) = get_buffer_region_lem ed.cur_bp pre post h s e le fits in
    let same : convert t.eol (ring ed).eol 0 t.str.text
        ≡ convert ed.cur_bp.text.eol (ring ed).eol 0 (slice s e (pre ++ post)) =
      ap (λ l. convert l (ring ed).eol 0 t.str.text) y
      ∙ ap (convert ed.cur_bp.text.eol (ring ed).eol 0) x in
    let short : length t.str.text < size_mod = omega (
      arith,
      ap length x,
      length-take (e - s) (drop s (pre ++ post)),
      length-drop s (pre ++ post),
    ) in
    let (es, q, z, w) = estr_cat_lem (ring ed) t short (omega (arith, ap length same)) in
    (
      es,
      copy_steps ed (record { start = s; end = e }) t es p q,
      z ∙ ap (λ u. (ring ed).str.text ++ u) same,
      w,
    )
