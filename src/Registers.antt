-- ===== src/Registers.antt =====
-- Registers (src/registers.c). The register's number is an argument; reading it from the keyboard,
-- and cancelling there, is left out.
use zile.Prelude.{ℕ, ◌%◌, none, some, true, false, ◌==◌, if◌then◌else◌, ◌>>=◌, ℤ, pos, negsuc}
use zile.Estr.{Estr}
use zile.Buffer.{get_buffer_region}
use zile.Editor.{Editor, say, no_register, warn_if_readonly_buffer, insert_estr}
use zile.Kill.{warn_if_no_mark, calculate_the_region, deactivate_mark, set_mark_command}
use zile.Run.{Action}
use zile.Marks.{exchange_point_and_mark}

abbrev pub num_registers : ℕ
num_registers = 256

-- The number after the reduction: a negative one goes to zero.
unfoldable pub clamped : ℤ → ℕ
clamped (pos n) = n % num_registers
clamped (negsuc n) = 0

unfoldable pub set_register : ℕ → Estr → Editor → Editor
set_register r es ed = record ed { regs = λ q. if q == r then some es else ed.regs q }

unfoldable pub copy_to_register : ℤ → Action
unfolding clamped set_register
copy_to_register reg ed =
    let (no_mark, ed1) = warn_if_no_mark ed in
    let copied = (do
      r ← calculate_the_region ed1
      es ← get_buffer_region ed1.cur_bp r
      some (true, set_register (clamped reg) es ed1)) in
    if no_mark then some (false, ed1) else copied

-- For a number that is not negative: others are not clamped here, and are outside the array.
unfoldable pub insert_register : ℕ → Action
unfolding exchange_point_and_mark
insert_register reg ed =
    let inserted = λ (es : Estr). (do
      (_, ed1) ← insert_estr (set_mark_command ed) es
      (_, ed2) ← exchange_point_and_mark ed1
      some (true, deactivate_mark ed2)) in
    if ed.cur_bp.readonly
    then some (false, (warn_if_readonly_buffer ed).1)
    else elim (ed.regs (reg % num_registers)) [
      | none ↦ some (false, say ed no_register)
      | some es ↦ inserted es
    ]
