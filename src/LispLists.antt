-- ===== src/LispLists.antt =====
-- Lists of Lisp data (src/lists.c, src/lists.h). NULL is `null`; a list whose end is changed in place
-- is the list that is returned.
use zile.Prelude.{ℕ, List, Option, none, ℤ, pos}

-- `struct le`: the text, the branch, the quote and the next element.
pub data Le : Type 0 where
  null : Le
  le : Option (List ℕ) → Le → ℤ → Le → Le

unfoldable pub le_new : Option (List ℕ) → Le
le_new text = le text null (pos 0) null

-- The loop finds the end.
unfoldable pub add_tail : Le → Le → Le
add_tail null element = element
add_tail (le data_ branch quoted next) element = le data_ branch quoted (add_tail next element)

unfoldable pub le_add_tail : Le → Le → Le
unfolding add_tail
le_add_tail list null = list
le_add_tail list (le data_ branch quoted next) = add_tail list (le data_ branch quoted next)

unfoldable pub le_add_branch_element : Le → Le → ℤ → Le
unfolding le_add_tail
le_add_branch_element list branch quoted = le_add_tail list (le none branch quoted null)

unfoldable pub le_add_data_element : Le → Option (List ℕ) → ℤ → Le
unfolding le_add_tail
le_add_data_element list text quoted = le_add_tail list (le text null quoted null)

-- The copy has no quotes.
unfoldable pub le_dup : Le → Le
le_dup null = null
le_dup (le data_ branch quoted next) = le data_ (le_dup branch) (pos 0) (le_dup next)
