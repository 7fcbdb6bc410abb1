-- ===== src/Macro/Replay.antt =====
-- The keys of a macro are read back in their order (src/macro.c).
use zile.Prelude.{
  ℕ, zero, suc, ◌+◌, ◌<◌, ◌≡◌, refl, ap, ◌∙◌, List, [], ◌∷◌, Option, some, ◌⊎◌, inl, inr, ◌>>=◌,
  length, Bool-cases, not, ◌&&◌, ◌==◌,
}
use zile.Astr.{size_max}
use zile.Terminal.{Curses, meta, term_getkey, term_ungetkey}
use zile.Terminal.Keys.{Typed, IsApart, term_getkey-term_ungetkey}
use zile.Macro.{Recorder, note_key, getkeystroke, pushkey, push_keys, add_key_to_cmd}

-- A key that the terminal gives, with META or without.
abbrev pub Sendable : Curses → ℕ → Type 0
Sendable c key =
    ((key < meta) × Typed c key) ⊎ ((k : ℕ) × (key ≡ k + meta) × (k < meta) × Typed c k)

abbrev pub AllSendable : Curses → List ℕ → Type 0
AllSendable c [] = Unit {0}
AllSendable c (key ∷ keys) = Sendable c key × AllSendable c keys

-- A number of keystrokes.
unfoldable pub read_keys : Curses → ℕ → Recorder → Option (List ℕ × Recorder)
read_keys c zero r = some ([], r)
read_keys c (suc n) r = do
  (key, r1) ← getkeystroke c 2 r
  (keys, r2) ← read_keys c n r1
  some (key ∷ keys, r2)

-- The keys are noted in their order.
unfoldable pub note_keys : List ℕ → Recorder → Recorder
note_keys [] r = r
note_keys (key ∷ keys) r = note_keys keys (note_key key r)

Sendable-back :
    (c : Curses) (key : ℕ) (buf : List ℕ)
    → IsApart c
    → Sendable c key
    → term_getkey c 2 (term_ungetkey c key buf) ≡ some (key, buf)
Sendable-back c key buf h (inl (lt, typed)) = (term_getkey-term_ungetkey c key buf h lt typed).0
Sendable-back c key buf h (inr (k, e, lt, typed)) =
    rw e ((term_getkey-term_ungetkey c k buf h lt typed).1)

getkeystroke-pushkey :
    (c : Curses) (key : ℕ) (r : Recorder)
    → IsApart c
    → Sendable c key
    → getkeystroke c 2 (pushkey c key r) ≡ some (key, note_key key r)
unfolding getkeystroke pushkey
getkeystroke-pushkey c key r h s = rw (Sendable-back c key r.key_buf h s) refl

note_key-pushkey :
    (c : Curses) (key other : ℕ) (r : Recorder)
    → note_key key (pushkey c other r) ≡ pushkey c other (note_key key r)
unfolding note_key pushkey add_key_to_cmd
note_key-pushkey c key other r = elim (Bool-cases (not (key == size_max) && r.defining)) [
  | inl e ↦ rw e refl
  | inr e ↦ rw e refl
]

note_key-push_keys :
    (c : Curses) (key : ℕ) (keys : List ℕ) (r : Recorder)
    → note_key key (push_keys c keys r) ≡ push_keys c keys (note_key key r)
unfolding push_keys
note_key-push_keys c key [] r = refl
note_key-push_keys c key (k ∷ keys) r =
    note_key-pushkey c key k (push_keys c keys r)
    ∙ ap (pushkey c k) (note_key-push_keys c key keys r)

-- When the codes of curses differ and the keys are ones that the terminal gives, the keys of a macro
-- that are pushed back are read in their order, and the state is the one before with the keys
-- noted one after the other.
pub read_keys-push_keys :
    (c : Curses) (keys : List ℕ) (r : Recorder)
    → IsApart c
    → AllSendable c keys
    → read_keys c (length keys) (push_keys c keys r) ≡ some (keys, note_keys keys r)
unfolding read_keys push_keys note_keys
read_keys-push_keys c [] r h s = refl
read_keys-push_keys c (key ∷ keys) r h (s, all) =
    rw
      (
        getkeystroke-pushkey c key (push_keys c keys r) h s,
        note_key-push_keys c key keys r,
        read_keys-push_keys c keys (note_key key r) h all,
      )
      refl
