-- ===== src/Path/Plain.antt =====
-- Absolute paths without double slashes and tildes (expand_path of src/file.c).
use zile.Prelude.{
  ℕ, zero, suc, ◌+◌, ◌≤◌, ◌<◌, ◌≡◌, refl, sym, ap, ◌∙◌, List, [], ◌∷◌, ◌++◌, Option, some, Bool,
  true, false, ◌==◌, arith, length, append_assoc, append-nil, length-append,
}
use zile.Path.{ends_with_slash, take_entry, expand_loop, expand_path}

-- Bytes that are no slash.
abbrev pub NoSlash : List ℕ → Type 0
NoSlash [] = Unit {0}
NoSlash (c ∷ s) = ((c == 47) ≡ false) × NoSlash s

-- A first byte, which is no tilde, and the rest of an entry.
abbrev pub IsEntry : ℕ → List ℕ → Type 0
IsEntry c n = ((c == 126) ≡ false) × NoSlash (c ∷ n)

abbrev pub AllEntries : List (ℕ × List ℕ) → Type 0
AllEntries [] = Unit {0}
AllEntries ((c, n) ∷ ns) = IsEntry c n × AllEntries ns

-- The path of the entries.
abbrev pub joined : List (ℕ × List ℕ) → List ℕ
joined [] = []
joined ((c, n) ∷ ns) = 47 ∷ ((c ∷ n) ++ joined ns)

take_entry-joined :
    (n : List ℕ) (ns : List (ℕ × List ℕ)) → NoSlash n → take_entry (n ++ joined ns) ≡ (n, joined ns)
unfolding take_entry
take_entry-joined [] [] h = refl
take_entry-joined [] ((c, m) ∷ ns) h = refl
take_entry-joined (x ∷ n) ns (h, hs) = rw (h, take_entry-joined n ns hs) refl

ends_with_slash-append :
    (e : List ℕ) (c : ℕ) (n : List ℕ) → NoSlash (c ∷ n) → ends_with_slash (e ++ (c ∷ n)) ≡ false
ends_with_slash-append [] c [] (h, hs) = h
ends_with_slash-append [] c (d ∷ n) (h, hs) = ends_with_slash-append [] d n hs
ends_with_slash-append (x ∷ []) c n h = ends_with_slash-append [] c n h
ends_with_slash-append (x ∷ y ∷ e) c n h = ends_with_slash-append (y ∷ e) c n h

length-joined : (ns : List (ℕ × List ℕ)) → length ns ≤ length (joined ns)
length-joined [] = omega arith
length-joined ((c, n) ∷ ns) = omega (arith, length-append (c ∷ n) (joined ns), length-joined ns)

module _ (cwd : List ℕ) (home : Option (List ℕ)) (home_of : List ℕ → Option (List ℕ)) where
  expand_loop-joined :
      (ns : List (ℕ × List ℕ)) (fuel : ℕ) (first : Bool) (e : List ℕ)
      → AllEntries ns
      → ends_with_slash e ≡ false
      → length ns < fuel
      → expand_loop cwd home home_of fuel first (joined ns) e ≡ some (true, e ++ joined ns)
  unfolding expand_loop
  expand_loop-joined ns zero first e h plain lt = absurd (omega arith)
  expand_loop-joined [] (suc fuel) first e h plain lt =
      ap (λ z. some (true, z)) (sym (append-nil e))
  expand_loop-joined ((c, n) ∷ ns) (suc fuel) first e ((tilde, (slash, hs)), h) plain lt =
      let rest = joined ns in
      let e1 = (e ++ (47 ∷ [])) ++ (c ∷ n) in
      let whole : e1 ++ rest ≡ e ++ (47 ∷ ((c ∷ n) ++ rest)) =
        append_assoc (e ++ (47 ∷ [])) (c ∷ n) rest ∙ append_assoc e (47 ∷ []) ((c ∷ n) ++ rest) in
      let ih =
        expand_loop-joined ns fuel false e1 h
          (ends_with_slash-append (e ++ (47 ∷ [])) c n (slash, hs)) (omega arith) in
      rw slash (
        rw (tilde, plain)
          (rw (take_entry-joined (c ∷ n) ns (slash, hs)) (ih ∙ ap (λ z. some (true, z)) whole)))

-- An absolute path of entries that begin with no tilde, without double slashes, is left as it is,
-- whatever the environment: entries `.` and `..` too stay where they are.
pub expand_path-joined :
    (cwd : List ℕ) (home : Option (List ℕ)) (home_of : List ℕ → Option (List ℕ)) (c : ℕ)
    (n : List ℕ) (ns : List (ℕ × List ℕ))
    → AllEntries ((c, n) ∷ ns)
    → expand_path cwd home home_of (joined ((c, n) ∷ ns)) ≡ some (true, joined ((c, n) ∷ ns))
unfolding expand_path
expand_path-joined cwd home home_of c n ns h =
    expand_loop-joined cwd home home_of ((c, n) ∷ ns) (length (joined ((c, n) ∷ ns)) + 1) true [] h
      refl (omega (arith, length-joined ((c, n) ∷ ns)))
