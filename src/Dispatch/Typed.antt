-- ===== src/Dispatch/Typed.antt =====
-- A key sequence that is typed (src/bind.c).
use zile.Prelude.{
  ℕ, ◌≡◌, refl, ◌∙◌, List, [], ◌∷◌, ◌++◌, some, true, false, append_assoc, append-nil,
}
use zile.Keymap.{Binding, search_key}
use zile.Keycode.{keyvectodesc}
use zile.Dispatch.{Loop, do_binding_completion, is_complete, sequence_loop}

-- What the keys `ks` behind `k` and `done` do: each part of them that is typed leads to a node
-- without a procedure.
abbrev pub IsPrefix : Binding → ℕ → List ℕ → List ℕ → Type 0
IsPrefix root k done [] = Unit {0}
IsPrefix root k done (c ∷ ks) =
    (is_complete (search_key root k done) ≡ false) × IsPrefix root k (done ++ c ∷ []) ks

-- The state behind the keys.
abbrev pub prompted : ℕ → List ℕ → List ℕ → Loop → Loop
prompted k done [] s = s
prompted k done (c ∷ ks) s =
    prompted k (done ++ c ∷ []) ks (do_binding_completion (keyvectodesc (k ∷ done)) c s)

pub sequence_loop_lem :
    (root : Binding) (k : ℕ) (done ks rest : List ℕ) (s : Loop)
    → IsPrefix root k done ks
    → is_complete (search_key root k (done ++ ks)) ≡ true
    → sequence_loop root k done (ks ++ rest) s
      ≡ some
          (record { first = k; others = done ++ ks; unread = rest; state = prompted k done ks s })
unfolding sequence_loop
sequence_loop_lem root k done [] [] s h e =
    rw (append-nil done) (rw (rw (append-nil done) at e) refl)
sequence_loop_lem root k done [] (c ∷ rest) s h e =
    rw (append-nil done) (rw (rw (append-nil done) at e) refl)
sequence_loop_lem root k done (c ∷ ks) rest s (h, hs) e =
    let e' : is_complete (search_key root k ((done ++ c ∷ []) ++ ks)) ≡ true =
      rw (append_assoc done (c ∷ []) ks) e in
    rw h (
      sequence_loop_lem root k (done ++ c ∷ []) ks rest
        (do_binding_completion (keyvectodesc (k ∷ done)) c s) hs e'
      ∙ rw (append_assoc done (c ∷ []) ks) refl)
