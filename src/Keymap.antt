-- ===== src/Keymap.antt =====
-- The tree of key bindings (src/bind.c). A Guile procedure is known by its address, and the value
-- #f is `none`. The branch vector of a node is kept as far as it is in use.
pub mod Lookup
pub mod Default
use zile.Prelude.{
  ℕ, zero, suc, ◌+◌, ◌-◌, ◌≤◌, ◌%◌, ◌/◌, ◌≡◌, refl, List, [], ◌∷◌, Option, none, some, Bool, true,
  false, ◌==◌, leb, ◌&&◌, ◌||◌, if◌then◌else◌,
}

mutual
  pub data Binding : Type 0 where
    node : ℕ → Option ℕ → ℕ → Branches → Binding

  pub data Branches : Type 0 where
    nil : Branches
    cons : Binding → Branches → Branches

unfoldable pub key : Binding → ℕ
key (node k proc vecmax vec) = k

unfoldable pub proc : Binding → Option ℕ
proc (node k p vecmax vec) = p

unfoldable pub vec : Binding → Branches
vec (node k p vecmax v) = v

unfoldable pub vecnum : Branches → ℕ
vecnum nil = 0
vecnum (cons b v) = suc (vecnum v)

-- `node_new`, with the key that every caller sets next.
unfoldable pub node_new : ℕ → ℕ → Binding
node_new vecmax k = node k none vecmax nil

unfoldable pub find : Branches → ℕ → Option Binding
unfolding key
find nil k = none
find (cons b v) k = if key b == k then some b else find v k

unfoldable pub search_node : Binding → ℕ → Option Binding
unfolding find vec
search_node tree k = find (vec tree) k

unfoldable pub push_back : Branches → Binding → Branches
push_back nil p = cons p nil
push_back (cons b v) p = cons b (push_back v p)

unfoldable pub add_node : Binding → Binding → Binding
unfolding push_back vecnum
add_node (node k p vecmax v) b =
    node k (if vecnum v == 0 then none else p)
      (if leb vecmax (vecnum v + 1) then vecmax + 5 else vecmax) (push_back v b)

-- The first branch with key `k` as it is after it was changed in place.
unfoldable pub put : Branches → ℕ → Binding → Branches
unfolding key
put nil k b' = nil
put (cons b v) k b' = if key b == k then cons b' v else cons b (put v k b')

unfoldable pub put_branch : Binding → ℕ → Binding → Binding
unfolding put
put_branch (node k p vecmax v) j b' = node k p vecmax (put v j b')

unfoldable pub set_proc : Binding → ℕ → Binding
set_proc (node k p vecmax v) p' = node k (some p') vecmax v

-- `bind_key_vec` for the keys `k ∷ ks`, the ones from index `from` on. An empty list, at which
-- `gl_list_get_at` aborts, is never bound.
unfoldable pub bind_key_vec : ℕ → List ℕ → ℕ → Binding → Binding
unfolding search_node add_node put_branch set_proc node_new
bind_key_vec k [] p tree = elim (search_node tree k) [
  | none ↦ add_node tree (set_proc (node_new 1 k) p)
  | some s ↦ put_branch tree k (set_proc s p)
]
bind_key_vec k (k' ∷ ks) p tree = elim (search_node tree k) [
  | none ↦ add_node tree (bind_key_vec k' ks p (node_new 5 k))
  | some s ↦ put_branch tree k (bind_key_vec k' ks p s)
]

unfoldable pub search_key : Binding → ℕ → List ℕ → Option Binding
unfolding search_node
search_key tree k [] = search_node tree k
search_key tree k (k' ∷ ks) = elim (search_node tree k) [
  | none ↦ none
  | some p ↦ search_key p k' ks
]

abbrev pub kbd_ctrl : ℕ
kbd_ctrl = 0o1000

abbrev pub kbd_meta : ℕ
kbd_meta = 0o2000

-- A lone Meta-digit or Meta-minus.
unfoldable pub is_meta_digit : ℕ → List ℕ → Bool
is_meta_digit k [] =
    (k / kbd_meta % 2 == 1) && ((leb b'0' (k % 256) && leb (k % 256) b'9') || (k % 256 == b'-'))
is_meta_digit k (k' ∷ ks) = false

-- `p ? p->proc : SCM_BOOL_F`
unfoldable pub bound_proc : Option Binding → Option ℕ
unfolding proc
bound_proc none = none
bound_proc (some p) = proc p

-- `universal_argument` is the procedure that `F_universal_argument ()` gives.
unfoldable pub get_function_by_keys : ℕ → Binding → ℕ → List ℕ → Option ℕ
unfolding is_meta_digit search_key bound_proc
get_function_by_keys universal_argument root k ks =
    if is_meta_digit k ks then some universal_argument else bound_proc (search_key root k ks)
