-- ===== src/Keymap/Lookup.antt =====
-- What looking a key sequence up finds after another one, or itself, was bound (src/bind.c).
use zile.Prelude.{
  ℕ, ◌≡◌, refl, sym, ap, ◌∙◌, List, [], ◌∷◌, Option, none, some, true, false, ◌==◌, if◌then◌else◌,
  Bool-cases, Option-cases, inl, inr, arith, ==_refl, ==→≡,
}
use zile.Memmem.{is_prefix}
use zile.Keymap.{
  Binding, node, Branches, nil, cons, key, proc, vec, node_new, find, search_node, push_back,
  add_node, put, put_branch, set_proc, bind_key_vec, search_key, bound_proc,
}

find-push_back :
    (v : Branches) (b : Binding) (j : ℕ)
    → find v (key b) ≡ none
    → find (push_back v b) j ≡ (if key b == j then some b else find v j)
unfolding find push_back
find-push_back nil b j h = refl
find-push_back (cons c v) b j h = elim (Bool-cases (key c == key b)) [
  | inl p ↦ cc (rw p at h)
  | inr p ↦ ground (arith, find-push_back v b j (rw p at h))
]

find-put :
    (v : Branches) (b b' : Binding) (j : ℕ)
    → find v (key b') ≡ some b
    → find (put v (key b') b') j ≡ (if key b' == j then some b' else find v j)
unfolding find put
find-put nil b b' j h = cc
find-put (cons c v) b b' j h = elim (Bool-cases (key c == key b')) [
  | inl p ↦ ground arith
  | inr p ↦ ground (arith, find-put v b b' j (rw p at h))
]

find-key : (v : Branches) (k : ℕ) {s : Binding} → find v k ≡ some s → key s ≡ k
unfolding find
find-key nil k h = cc
find-key (cons c v) k {s} h = elim (Bool-cases (key c == k)) [
  | inl p ↦ let e : c ≡ s = cc (rw p at h) in ap key (sym e) ∙ ==→≡ (key c) k p
  | inr p ↦ find-key v k (rw p at h)
]

search_node-key : (t : Binding) (k : ℕ) {s : Binding} → search_node t k ≡ some s → key s ≡ k
unfolding search_node
search_node-key t k h = find-key (vec t) k h

key-node_new : (m k : ℕ) → key (node_new m k) ≡ k
unfolding key node_new
key-node_new m k = refl

key-set_proc : (s : Binding) (p : ℕ) → key (set_proc s p) ≡ key s
unfolding key set_proc
key-set_proc (node k q m v) p = refl

key-add_node : (t b : Binding) → key (add_node t b) ≡ key t
unfolding key add_node
key-add_node (node k q m v) b = refl

key-put_branch : (t : Binding) (k : ℕ) (b : Binding) → key (put_branch t k b) ≡ key t
unfolding key put_branch
key-put_branch (node j q m v) k b = refl

key-bind_key_vec : (k : ℕ) (ks : List ℕ) (p : ℕ) (t : Binding) → key (bind_key_vec k ks p t) ≡ key t
unfolding bind_key_vec
key-bind_key_vec k [] p t = elim (Option-cases (search_node t k)) [
  | inl e ↦ rw (e, bind_key_vec) (key-add_node t (set_proc (node_new 1 k) p))
  | inr (s, e) ↦ rw (e, bind_key_vec) (key-put_branch t k (set_proc s p))
]
key-bind_key_vec k (k' ∷ ks) p t = elim (Option-cases (search_node t k)) [
  | inl e ↦ rw (e, bind_key_vec) (key-add_node t (bind_key_vec k' ks p (node_new 5 k)))
  | inr (s, e) ↦ rw (e, bind_key_vec) (key-put_branch t k (bind_key_vec k' ks p s))
]

-- The branches of `t'` are those of `t`, but that the one for `k` is `b`.
abbrev pub Branched : Binding → Binding → ℕ → Binding → Type 0
Branched t t' k b = (j : ℕ) → search_node t' j ≡ (if k == j then some b else search_node t j)

Branched-add_node :
    (t : Binding) (k : ℕ) (b : Binding)
    → key b ≡ k
    → search_node t k ≡ none
    → Branched t (add_node t b) k b
unfolding search_node add_node vec
Branched-add_node (node i q m v) k b e h j = rw (← e) (find-push_back v b j (rw (← e) at h))

Branched-put_branch :
    (t : Binding) (k : ℕ) (b s : Binding)
    → key b ≡ k
    → search_node t k ≡ some s
    → Branched t (put_branch t k b) k b
unfolding search_node put_branch vec
Branched-put_branch (node i q m v) k b s e h j = rw (← e) (find-put v s b j (rw (← e) at h))

-- The node that stands for `k` before it is bound: the one there, or a new one.
pub data Old (t : Binding) (k : ℕ) (fresh : Binding) : Binding → Type 0 where
  there : {s : Binding} → search_node t k ≡ some s → Old t k fresh s
  new : search_node t k ≡ none → Old t k fresh fresh

pub bound_last :
    (k p : ℕ) (t : Binding)
    → (s : Binding) × Old t k (node_new 1 k) s × Branched t (bind_key_vec k [] p t) k (set_proc s p)
unfolding bind_key_vec
bound_last k p t = elim (Option-cases (search_node t k)) [
  | inl e ↦ (
    node_new 1 k,
    new e,
    rw (e, bind_key_vec)
        (Branched-add_node t k (set_proc (node_new 1 k) p)
          (key-set_proc (node_new 1 k) p ∙ key-node_new 1 k) e),
  )
  | inr (s, e) ↦ (
    s,
    there e,
    rw (e, bind_key_vec)
        (Branched-put_branch t k (set_proc s p) s (key-set_proc s p ∙ search_node-key t k e) e),
  )
]

pub bound_more :
    (k k' : ℕ) (ks : List ℕ) (p : ℕ) (t : Binding)
    → (s : Binding) × Old t k (node_new 5 k) s
      × Branched t (bind_key_vec k (k' ∷ ks) p t) k (bind_key_vec k' ks p s)
unfolding bind_key_vec
bound_more k k' ks p t = elim (Option-cases (search_node t k)) [
  | inl e ↦ (
    node_new 5 k,
    new e,
    rw (e, bind_key_vec)
        (Branched-add_node t k (bind_key_vec k' ks p (node_new 5 k))
          (key-bind_key_vec k' ks p (node_new 5 k) ∙ key-node_new 5 k) e),
  )
  | inr (s, e) ↦ (
    s,
    there e,
    rw (e, bind_key_vec)
        (Branched-put_branch t k (bind_key_vec k' ks p s) s
          (key-bind_key_vec k' ks p s ∙ search_node-key t k e) e),
  )
]

proc-set_proc : (s : Binding) (p : ℕ) → proc (set_proc s p) ≡ some p
unfolding proc set_proc
proc-set_proc (node k q m v) p = refl

pub at_self : (t t' : Binding) (k : ℕ) (b : Binding) → Branched t t' k b → search_node t' k ≡ some b
at_self t t' k b h = h k ∙ rw (==_refl k)

-- Binding a key sequence leaves the branches for the other keys alone.
pub search_node-bind_key_vec :
    (k : ℕ) (ks : List ℕ) (p : ℕ) (t : Binding) (j : ℕ)
    → (k == j) ≡ false
    → search_node (bind_key_vec k ks p t) j ≡ search_node t j
search_node-bind_key_vec k [] p t j ne = let (s, old, br) = bound_last k p t in br j ∙ rw ne
search_node-bind_key_vec k (k' ∷ ks) p t j ne =
    let (s, old, br) = bound_more k k' ks p t in br j ∙ rw ne

-- A key sequence that was just bound, in any tree, is found and carries its procedure.
pub search_key-bind_key_vec :
    (k : ℕ) (ks : List ℕ) (p : ℕ) (t : Binding)
    → (b : Binding) × (search_key (bind_key_vec k ks p t) k ks ≡ some b) × (proc b ≡ some p)
unfolding search_key
search_key-bind_key_vec k [] p t =
    let (s, old, br) = bound_last k p t in
    (set_proc s p, at_self t (bind_key_vec k [] p t) k (set_proc s p) br, proc-set_proc s p)
search_key-bind_key_vec k (k' ∷ ks) p t =
    let (s, old, br) = bound_more k k' ks p t in
    let (b, found, q) = search_key-bind_key_vec k' ks p s in
    (
      b,
      rw (at_self t (bind_key_vec k (k' ∷ ks) p t) k (bind_key_vec k' ks p s) br, search_key) found,
      q,
    )

-- The procedure of the node that looking a key sequence up finds, #f if there is none.
abbrev pub procedure_at : Binding → ℕ → List ℕ → Option ℕ
procedure_at t k ks = bound_proc (search_key t k ks)

procedure_at-none :
    (t : Binding) (k k' : ℕ) (ks : List ℕ)
    → search_node t k ≡ none
    → procedure_at t k (k' ∷ ks) ≡ none
unfolding search_key bound_proc
procedure_at-none t k k' ks h = rw (h, search_key)

procedure_at-some :
    (t : Binding) (k k' : ℕ) (ks : List ℕ) {s : Binding}
    → search_node t k ≡ some s
    → procedure_at t k (k' ∷ ks) ≡ procedure_at s k' ks
unfolding search_key
procedure_at-some t k k' ks h = rw (h, search_key)

procedure_at-set_proc :
    (s : Binding) (p k : ℕ) (ks : List ℕ) → procedure_at (set_proc s p) k ks ≡ procedure_at s k ks
unfolding search_key set_proc search_node vec
procedure_at-set_proc (node j q m v) p k [] = refl
procedure_at-set_proc (node j q m v) p k (k' ∷ ks) = refl

procedure_at-node_new : (m i k : ℕ) (ks : List ℕ) → procedure_at (node_new m i) k ks ≡ none
unfolding search_key node_new search_node find vec bound_proc
procedure_at-node_new m i k [] = refl
procedure_at-node_new m i k (k' ∷ ks) = refl

-- Whether the branch is old or new, looking up in it finds what it finds in the tree.
procedure_at-Old :
    (t : Binding) (k k' : ℕ) (ks : List ℕ) (m : ℕ) {s : Binding}
    → Old t k (node_new m k) s
    → procedure_at s k' ks ≡ procedure_at t k (k' ∷ ks)
procedure_at-Old t k k' ks m (there h) = sym (procedure_at-some t k k' ks h)
procedure_at-Old t k k' ks m (new h) =
    procedure_at-node_new m k k' ks ∙ sym (procedure_at-none t k k' ks h)

procedure_at-same :
    (t t' : Binding) (k : ℕ) (ks : List ℕ)
    → search_node t' k ≡ search_node t k
    → procedure_at t' k ks ≡ procedure_at t k ks
unfolding search_key
procedure_at-same t t' k [] h = rw (h, search_key)
procedure_at-same t t' k (k' ∷ ks) h = rw (h, search_key)

other_branch :
    (t t' : Binding) (k j : ℕ) (b : Binding)
    → Branched t t' k b
    → (k == j) ≡ false
    → search_node t' j ≡ search_node t j
other_branch t t' k j b h ne = h j ∙ rw ne

prefix_tail :
    (j k : ℕ) (js ks : List ℕ)
    → is_prefix (j ∷ js) (k ∷ ks) ≡ false
    → j ≡ k
    → is_prefix js ks ≡ false
unfolding is_prefix
prefix_tail j k js ks h e = let same : (j == k) ≡ true = rw e (==_refl k) in rw same at h

below_last :
    (k p : ℕ) (t : Binding) (js : List ℕ)
    → is_prefix (k ∷ js) (k ∷ []) ≡ false
    → procedure_at (bind_key_vec k [] p t) k js ≡ procedure_at t k js
unfolding is_prefix
below_last k p t [] h = cc (prefix_tail k k [] [] h refl)
below_last k p t (j' ∷ js) h =
    let (s, old, br) = bound_last k p t in
    procedure_at-some (bind_key_vec k [] p t) k j' js
      (at_self t (bind_key_vec k [] p t) k (set_proc s p) br)
    ∙ procedure_at-set_proc s p j' js
    ∙ procedure_at-Old t k j' js 1 old

below_more :
    (k k' : ℕ) (ks : List ℕ) (p : ℕ) (t : Binding) (js : List ℕ)
    → is_prefix (k ∷ js) (k ∷ (k' ∷ ks)) ≡ false
    → ((s : Binding) (j : ℕ) (js' : List ℕ)
        → is_prefix (j ∷ js') (k' ∷ ks) ≡ false
        → procedure_at (bind_key_vec k' ks p s) j js' ≡ procedure_at s j js')
    → procedure_at (bind_key_vec k (k' ∷ ks) p t) k js ≡ procedure_at t k js
unfolding is_prefix
below_more k k' ks p t [] h ih = cc (prefix_tail k k [] (k' ∷ ks) h refl)
below_more k k' ks p t (j' ∷ js) h ih =
    let (s, old, br) = bound_more k k' ks p t in
    procedure_at-some (bind_key_vec k (k' ∷ ks) p t) k j' js
      (at_self t (bind_key_vec k (k' ∷ ks) p t) k (bind_key_vec k' ks p s) br)
    ∙ ih s j' js (prefix_tail k k (j' ∷ js) (k' ∷ ks) h refl)
    ∙ procedure_at-Old t k j' js 5 old

-- After a key sequence is bound, `search_key` finds a node with the same procedure as before, or
-- again none, for every key sequence that is no prefix of it.
pub procedure_at-bind_key_vec :
    (k : ℕ) (ks : List ℕ) (p : ℕ) (t : Binding) (j : ℕ) (js : List ℕ)
    → is_prefix (j ∷ js) (k ∷ ks) ≡ false
    → procedure_at (bind_key_vec k ks p t) j js ≡ procedure_at t j js
procedure_at-bind_key_vec k [] p t j js h =
    let (s, old, br) = bound_last k p t in
    elim (Bool-cases (k == j)) [
      | inr ne ↦
          procedure_at-same t (bind_key_vec k [] p t) j js
            (other_branch t (bind_key_vec k [] p t) k j (set_proc s p) br ne)
      | inl e ↦ let same = ==→≡ k j e in rw (← same) (below_last k p t js (rw (← same) at h))
    ]
procedure_at-bind_key_vec k (k' ∷ ks) p t j js h =
    let (s, old, br) = bound_more k k' ks p t in
    elim (Bool-cases (k == j)) [
      | inr ne ↦
          procedure_at-same t (bind_key_vec k (k' ∷ ks) p t) j js
            (other_branch t (bind_key_vec k (k' ∷ ks) p t) k j (bind_key_vec k' ks p s) br ne)
      | inl e ↦
          let same = ==→≡ k j e in
          rw (← same)
            (below_more k k' ks p t js (rw (← same) at h) (procedure_at-bind_key_vec k' ks p))
    ]
