-- ===== src/Macro/Recording.antt =====
-- What the steps of recording do to a keyboard macro (src/macro.c, src/getkey.c).
use zile.Prelude.{
  ℕ, ◌≡◌, ◌≢◌, refl, sym, ap, ◌∙◌, List, [], ◌∷◌, ◌++◌, Option, none, some, true, not, ◌&&◌, ◌==◌,
  false, Bool-cases, Option-cases, inl, inr, append_assoc, append-nil, ≢→==,
}
use zile.Astr.{size_max}
use zile.Macro.{
  Recorder, note_key, add_key_to_cmd, add_cmd_to_macro, add_keys, start_kbd_macro, cancel_kbd_macro,
}
use zile.Macro.Replay.{note_keys}

-- No key is KBD_NOKEY.
abbrev pub AllKeys : List ℕ → Type 0
AllKeys [] = Unit {0}
AllKeys (key ∷ keys) = (key ≢ size_max) × AllKeys keys

add_keys-some : (keys mp : List ℕ) → add_keys keys (some mp) ≡ some (some (mp ++ keys))
unfolding add_keys
add_keys-some [] mp = ap (λ ks. some (some ks)) (sym (append-nil mp))
add_keys-some (key ∷ keys) mp =
    add_keys-some keys (mp ++ key ∷ [])
    ∙ ap (λ ks. some (some ks)) (append_assoc mp (key ∷ []) keys)

-- What noting a key leaves alone, and what it adds.
note_key-cur_mp : (key : ℕ) (r : Recorder) → (note_key key r).cur_mp ≡ r.cur_mp
unfolding note_key add_key_to_cmd
note_key-cur_mp key r = elim (Bool-cases (not (key == size_max) && r.defining)) [
  | inl e ↦ rw e refl
  | inr e ↦ rw e refl
]

pub note_key-defining : (key : ℕ) (r : Recorder) → (note_key key r).defining ≡ r.defining
unfolding note_key add_key_to_cmd
note_key-defining key r = elim (Bool-cases (not (key == size_max) && r.defining)) [
  | inl e ↦ rw e refl
  | inr e ↦ rw e refl
]

abbrev pub keys_of : Option (List ℕ) → List ℕ
keys_of none = []
keys_of (some keys) = keys

note_key-cmd_mp :
    (key : ℕ) (r : Recorder)
    → key ≢ size_max
    → r.defining ≡ true
    → (note_key key r).cmd_mp ≡ some (keys_of r.cmd_mp ++ key ∷ [])
unfolding note_key add_key_to_cmd
note_key-cmd_mp key r h e = rw (≢→== key size_max h, e) refl

pub note_keys-cur_mp : (keys : List ℕ) (r : Recorder) → (note_keys keys r).cur_mp ≡ r.cur_mp
unfolding note_keys
note_keys-cur_mp [] r = refl
note_keys-cur_mp (key ∷ keys) r = note_keys-cur_mp keys (note_key key r) ∙ note_key-cur_mp key r

pub note_keys-defining : (keys : List ℕ) (r : Recorder) → (note_keys keys r).defining ≡ r.defining
unfolding note_keys
note_keys-defining [] r = refl
note_keys-defining (key ∷ keys) r =
    note_keys-defining keys (note_key key r) ∙ note_key-defining key r

note_keys-cmd_mp :
    (keys done : List ℕ) (r : Recorder)
    → AllKeys keys
    → r.defining ≡ true
    → r.cmd_mp ≡ some done
    → (note_keys keys r).cmd_mp ≡ some (done ++ keys)
unfolding note_keys
note_keys-cmd_mp [] done r h e m = m ∙ ap some (sym (append-nil done))
note_keys-cmd_mp (key ∷ keys) done r (h, hs) e m =
    note_keys-cmd_mp keys (done ++ key ∷ []) (note_key key r) hs (note_key-defining key r ∙ e)
      (note_key-cmd_mp key r h e ∙ ap (λ mp. some (keys_of mp ++ key ∷ [])) m)
    ∙ ap some (append_assoc done (key ∷ []) keys)

-- The keys of one command.
pub command-cmd_mp :
    (keys : List ℕ) (r : Recorder)
    → keys ≢ []
    → AllKeys keys
    → r.defining ≡ true
    → r.cmd_mp ≡ none
    → (note_keys keys r).cmd_mp ≡ some keys
unfolding note_keys
command-cmd_mp [] r filled h e m = absurd (filled refl)
command-cmd_mp (key ∷ keys) r filled (h, hs) e m =
    note_keys-cmd_mp keys (key ∷ []) (note_key key r) hs (note_key-defining key r ∙ e)
      (note_key-cmd_mp key r h e ∙ ap (λ mp. some (keys_of mp ++ key ∷ [])) m)

pub add_cmd_to_macro-some :
    (r : Recorder) (keys mp : List ℕ)
    → r.cmd_mp ≡ some keys
    → r.cur_mp ≡ some mp
    → add_cmd_to_macro r ≡ some (record r { cur_mp = some (mp ++ keys); cmd_mp = none })
unfolding add_cmd_to_macro
add_cmd_to_macro-some r keys mp e m = rw (e, m, add_keys-some keys mp) refl

pub start_kbd_macro-defining :
    (r : Recorder) → r.defining ≡ false → (start_kbd_macro r).1.defining ≡ true
unfolding start_kbd_macro
start_kbd_macro-defining r d = rw d refl

pub start_kbd_macro-cur_mp :
    (r : Recorder) → r.defining ≡ false → (start_kbd_macro r).1.cur_mp ≡ some []
unfolding start_kbd_macro
start_kbd_macro-cur_mp r d = rw d refl

pub start_kbd_macro-cmd_mp :
    (r : Recorder)
    → r.defining ≡ false
    → (r.cur_mp ≡ none → r.cmd_mp ≡ none)
    → (start_kbd_macro r).1.cmd_mp ≡ none
unfolding start_kbd_macro cancel_kbd_macro
start_kbd_macro-cmd_mp r d e = elim (Option-cases r.cur_mp) [
  | inl q ↦ rw (d, q, e q) refl
  | inr (keys, q) ↦ rw (d, q) refl
]
