-- ===== src/Terminal/Keys.antt =====
-- Keys that are pushed back (src/term_curses.c).
use zile.Prelude.{
  ℕ, zero, suc, ◌+◌, ◌-◌, ◌≤◌, ◌<◌, ◌≡◌, ◌≢◌, refl, sym, ap, ◌∙◌, List, [], ◌∷◌, ◌++◌, none, some,
  false, ◌==◌, ltb, if◌then◌else◌, arith, Bool-cases, Option-cases, inl, inr, ◌⊎◌, some_inj,
  none≢some, if-eq-some, ==→≡, ≢→==, ==_refl,
}
use zile.Terminal.{
  Curses, fixed_pairs, key_pairs, special_pairs, key_of, code_of, is_control, meta, plain_key,
  codetokey, plain_codes, keytocodes, term_ungetkey, get_char, with_meta, read_meta, term_getkey,
}

-- No pair has the code.
abbrev pub Unused : ℕ → List (ℕ × ℕ) → Type 0
Unused code [] = Unit {0}
Unused code ((k, c) ∷ ps) = (c ≢ code) × Unused code ps

-- The pairs have different codes.
abbrev pub Apart : List (ℕ × ℕ) → Type 0
Apart [] = Unit {0}
Apart ((k, c) ∷ ps) = Unused c ps × Apart ps

key_of-Unused : (code : ℕ) (ps : List (ℕ × ℕ)) → Unused code ps → key_of code ps ≡ none
unfolding key_of
key_of-Unused code [] h = refl
key_of-Unused code ((k, c) ∷ ps) (h, hs) = rw (≢→== c code h) (key_of-Unused code ps hs)

code_of-used : (key code : ℕ) (ps : List (ℕ × ℕ)) → code_of key ps ≡ some code → ¬ Unused code ps
unfolding code_of
code_of-used key code [] e u = absurd (none≢some e)
code_of-used key code ((k, c) ∷ ps) e (differ, u) =
    if-eq-some (k == key) (some c) (code_of key ps) e (λ p r. differ (some_inj r))
      (λ p r. code_of-used key code ps r u)

-- Where the codes differ, the key of a key's code is the key.
key_of-code_of :
    (key code : ℕ) (ps : List (ℕ × ℕ))
    → Apart ps
    → code_of key ps ≡ some code
    → key_of code ps ≡ some key
unfolding key_of code_of
key_of-code_of key code [] h e = absurd (none≢some e)
key_of-code_of key code ((k, c) ∷ ps) (u, h) e =
    if-eq-some (k == key) (some c) (code_of key ps) e
      (λ p r. rw (← some_inj r, ==_refl c) (ap some (==→≡ k key p)))
      (λ p r. elim (Bool-cases (c == code)) [
        | inl q ↦ absurd (code_of-used key code ps r (rw (==→≡ c code q) at u))
        | inr q ↦ rw q (key_of-code_of key code ps h r)
      ])

-- What the library's constants are: codes beyond the bytes that differ from each other and from the
-- code of the backspace.
pub record IsApart (c : Curses) : Type 0 where
  pub pairs_apart : Apart (key_pairs c)
  pub special_wide : (code : ℕ) → code ≤ 255 → Unused code (special_pairs c)
  pub backspace_apart : Unused c.key_backspace (key_pairs c)
  pub backspace_wide : 255 < c.key_backspace
  pub suspend_wide : 255 < c.key_suspend

-- The keys that `codetokey` gives, less META: characters, C-a to C-z and the keys of the pairs.
abbrev pub Typed : Curses → ℕ → Type 0
Typed c key =
    ((32 ≤ key) × (key ≤ 255) × (key ≢ 127))
    ⊎ ((609 ≤ key) × (key ≤ 634) × (key ≢ 617) × (key ≢ 621))
    ⊎ (code_of key (key_pairs c) ≢ none)

fixed-Unused :
    (c : Curses) (code : ℕ)
    → IsApart c
    → code ≤ 255
    → code ≢ 0
    → code ≢ 9
    → code ≢ 13
    → code ≢ 31
    → code ≢ 127
    → key_of code (key_pairs c) ≡ none
unfolding key_pairs
fixed-Unused c code h le a0 a9 a13 a31 a127 = key_of-Unused code (fixed_pairs ++ special_pairs c) (
  (λ e. a0 (sym e)),
  (
    (λ e. a9 (sym e)),
    ((λ e. a13 (sym e)), ((λ e. a31 (sym e)), ((λ e. a127 (sym e)), h.special_wide code le))),
  ),
)

-- A code is sent back as the key it was given for.
abbrev pub Sent : Curses → ℕ → Type 0
Sent c key = (code : ℕ) × (plain_codes c key ≡ code ∷ []) × (codetokey c code ≡ some key)

-- A code with a key in the table.
codetokey-pair :
    (c : Curses) (key code : ℕ)
    → code ≢ c.key_backspace
    → key_of code (key_pairs c) ≡ some key
    → codetokey c code ≡ some key
unfolding codetokey plain_key
codetokey-pair c key code differ e = rw (≢→== code c.key_backspace differ, plain_key, e) refl

not-ltb : (a b : ℕ) → b ≤ a → ltb a b ≡ false
not-ltb a b le = ground arith

-- A byte that the table does not have.
codetokey-byte :
    (c : Curses) (code : ℕ)
    → IsApart c
    → code ≤ 255
    → key_of code (key_pairs c) ≡ none
    → codetokey c code
      ≡ some (if is_control code then code + 608 else if code == 27 then meta else code)
unfolding codetokey plain_key
codetokey-byte c code h le e =
    let wide = h.backspace_wide in
    let also = h.suspend_wide in
    rw
      (
        ≢→== code c.key_backspace (λ r. omega arith),
        plain_key,
        e,
        ≢→== code c.key_suspend (λ r. omega arith),
        not-ltb 255 code le,
      )
      refl

character-Sent :
    (c : Curses) (key : ℕ)
    → IsApart c
    → 32 ≤ key
    → key ≤ 255
    → key ≢ 127
    → code_of key (key_pairs c) ≡ none
    → Sent c key
unfolding plain_codes
character-Sent c key h low high differ e = (
  key,
  rw (plain_codes, e) (ground arith),
  codetokey-byte c key h high (
        fixed-Unused c key h high (λ r. omega arith) (λ r. omega arith) (λ r. omega arith)
          (λ r. omega arith) differ)
      ∙ ap some (ground arith),
)

control-Sent :
    (c : Curses) (key : ℕ)
    → IsApart c
    → 609 ≤ key
    → key ≤ 634
    → key ≢ 617
    → key ≢ 621
    → code_of key (key_pairs c) ≡ none
    → Sent c key
unfolding plain_codes
control-Sent c key h low high tab ret e = (
  key - 608,
  rw (plain_codes, e) (ground arith),
  codetokey-byte c (key - 608) h (omega arith) (
        fixed-Unused c (key - 608) h (omega arith) (λ r. omega arith) (λ r. omega arith)
          (λ r. omega arith) (λ r. omega arith) (λ r. omega arith))
      ∙ ap some (ground arith),
)

pair-Sent :
    (c : Curses) (key code : ℕ) → IsApart c → code_of key (key_pairs c) ≡ some code → Sent c key
unfolding plain_codes
pair-Sent c key code h e =
    let apart = h.backspace_apart in
    (
      code,
      rw (plain_codes, e) refl,
      codetokey-pair c key code (λ r. code_of-used key code (key_pairs c) e (rw (r) apart))
          (key_of-code_of key code (key_pairs c) h.pairs_apart e),
    )

Typed-Sent : (c : Curses) (key : ℕ) → IsApart c → Typed c key → Sent c key
Typed-Sent c key h typed = elim (Option-cases (code_of key (key_pairs c))) [
  | inr (code, e) ↦ pair-Sent c key code h e
  | inl e ↦ elim typed [
    | inl (low, high, differ) ↦ character-Sent c key h low high differ e
    | inr (inl (low, high, tab, ret)) ↦ control-Sent c key h low high tab ret e
    | inr (inr some_code) ↦ absurd (some_code e)
  ]
]

Typed-positive : (c : Curses) (key : ℕ) → Typed c key → 0 < key
unfolding code_of key_pairs special_pairs
Typed-positive c zero (inl (low, high, differ)) = absurd (omega arith)
Typed-positive c zero (inr (inl (low, high, tab, ret))) = absurd (omega arith)
Typed-positive c zero (inr (inr some_code)) = absurd (some_code refl)
Typed-positive c (suc key) typed = omega arith

with_meta-plain : (key : ℕ) → key < meta → with_meta key ≡ key + meta
with_meta-plain key lt = ground arith

keytocodes-plain : (c : Curses) (key : ℕ) → key < meta → keytocodes c key ≡ plain_codes c key
unfolding keytocodes
keytocodes-plain c key lt = ground arith

keytocodes-meta :
    (c : Curses) (key : ℕ) → key < meta → keytocodes c (key + meta) ≡ 27 ∷ plain_codes c key
unfolding keytocodes
keytocodes-meta c key lt = ground arith

codetokey-escape : (c : Curses) → IsApart c → codetokey c 27 ≡ some meta
codetokey-escape c h = codetokey-byte c 27 h (omega arith) (
    fixed-Unused c 27 h (omega arith) (λ r. omega arith) (λ r. omega arith) (λ r. omega arith)
      (λ r. omega arith) (λ r. omega arith))

-- When the key is below META and one that `codetokey` gives, or that key with META, and the codes of
-- curses differ, a key pushed back is the next key read, and what was pushed back before it stays.
pub term_getkey-term_ungetkey :
    (c : Curses) (key : ℕ) (buf : List ℕ)
    → IsApart c
    → key < meta
    → Typed c key
    → (term_getkey c 2 (term_ungetkey c key buf) ≡ some (key, buf))
      × (term_getkey c 2 (term_ungetkey c (key + meta) buf) ≡ some (key + meta, buf))
unfolding term_getkey term_ungetkey read_meta get_char
term_getkey-term_ungetkey c key buf h lt typed =
    let (code, sent, back) = Typed-Sent c key h typed in
    let positive = Typed-positive c key typed in
    (
      rw (keytocodes-plain c key lt, sent, back) (rw (≢→== key meta (λ e. omega arith)) refl),
      rw (keytocodes-meta c key lt, sent, codetokey-escape c h, back)
          (rw (with_meta-plain key lt, ≢→== (key + meta) meta (λ e. omega arith)) refl),
    )
