-- ===== src/Tests/Terminal.antt =====
-- The constants of the usual curses library, and a key that is pushed back.
use zile.Prelude.{
  ℕ, ◌+◌, ◌≤◌, ◌≡◌, refl, List, [], ◌∷◌, none, some, length, Bool, true, false, arith, inl, ◌==◌,
  ==→≢, ltb, ltb→lt, if◌then◌else◌, Bool-cases, inr, false≢true,
}
use zile.Terminal.{Curses, special_pairs, key_pairs, meta, term_getkey, term_ungetkey}
use zile.Macro.{Recorder, push_keys}
use zile.Macro.Replay.{read_keys, note_keys, read_keys-push_keys}
use zile.Terminal.Keys.{Unused, Apart, IsApart, term_getkey-term_ungetkey}

abbrev unused : ℕ → List (ℕ × ℕ) → Bool
unused code [] = true
unused code ((k, c) ∷ ps) = if c == code then false else unused code ps

abbrev apart : List (ℕ × ℕ) → Bool
apart [] = true
apart ((k, c) ∷ ps) = if unused c ps then apart ps else false

abbrev wide : List (ℕ × ℕ) → Bool
wide [] = true
wide ((k, c) ∷ ps) = if ltb 255 c then wide ps else false

unused-Unused : (code : ℕ) (ps : List (ℕ × ℕ)) → unused code ps ≡ true → Unused code ps
unused-Unused code [] e = tt
unused-Unused code ((k, c) ∷ ps) e = elim (Bool-cases (c == code)) [
  | inl q ↦ absurd (false≢true (rw q at e))
  | inr q ↦ (==→≢ c code q, unused-Unused code ps (rw q at e))
]

apart-Apart : (ps : List (ℕ × ℕ)) → apart ps ≡ true → Apart ps
apart-Apart [] e = tt
apart-Apart ((k, c) ∷ ps) e = elim (Bool-cases (unused c ps)) [
  | inl q ↦ (unused-Unused c ps q, apart-Apart ps (rw q at e))
  | inr q ↦ absurd (false≢true (rw q at e))
]

wide-Unused : (code : ℕ) (ps : List (ℕ × ℕ)) → code ≤ 255 → wide ps ≡ true → Unused code ps
wide-Unused code [] le e = tt
wide-Unused code ((k, c) ∷ ps) le e = elim (Bool-cases (ltb 255 c)) [
  | inl q ↦ let lt = ltb→lt 255 c q in ((λ r. omega arith), wide-Unused code ps le (rw q at e))
  | inr q ↦ absurd (false≢true (rw q at e))
]

abbrev curses : Curses
curses = record {
  key_suspend = 407;
  key_backspace = 263;
  backspace_code = 127;
  key_ppage = 339;
  key_npage = 338;
  key_home = 262;
  key_end = 360;
  key_dc = 330;
  key_ic = 331;
  key_left = 260;
  key_right = 261;
  key_up = 259;
  key_down = 258;
  key_f = λ n. 264 + n;
}

curses-IsApart : IsApart curses
unfolding key_pairs special_pairs
curses-IsApart = record {
  pairs_apart = apart-Apart (key_pairs curses) refl;
  special_wide = λ code le. wide-Unused code (special_pairs curses) le refl;
  backspace_apart = unused-Unused 263 (key_pairs curses) refl;
  backspace_wide = omega arith;
  suspend_wide = omega arith;
}

-- "x" and "M-x", before a key that was pushed back earlier.
term_getkey-term_ungetkey_example :
    (term_getkey curses 2 (term_ungetkey curses 120 (97 ∷ [])) ≡ some (120, 97 ∷ []))
    × (term_getkey curses 2 (term_ungetkey curses (120 + meta) (97 ∷ []))
        ≡ some (120 + meta, 97 ∷ []))
term_getkey-term_ungetkey_example =
    term_getkey-term_ungetkey curses 120 (97 ∷ []) curses-IsApart (omega arith)
      (inl (omega arith, omega arith, λ e. omega arith))

-- A macro is being recorded.
abbrev recording : Recorder
recording = record {
  cur_mp = some [];
  cmd_mp = none;
  defining = true;
  last_key = 0;
  key_buf = [];
  notice = none;
}

-- "x M-x".
abbrev two_keys : List ℕ
two_keys = 120 ∷ 1144 ∷ []

read_keys-push_keys_example :
    read_keys curses (length two_keys) (push_keys curses two_keys recording)
    ≡ some (two_keys, note_keys two_keys recording)
read_keys-push_keys_example = read_keys-push_keys curses two_keys recording curses-IsApart (
  inl (omega arith, inl (omega arith, omega arith, λ e. omega arith)),
  (inr (120, refl, omega arith, inl (omega arith, omega arith, λ e. omega arith)), tt),
)
