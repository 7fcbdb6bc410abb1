-- ===== src/Isearch/Quits.antt =====
-- The keys of an incremental search leave the text and the mark alone (src/search.c).
use zile.Prelude.{
  ℕ, ◌+◌, ◌-◌, ◌%◌, ◌≤◌, ◌<◌, ◌^◌, ◌≡◌, ◌∙◌, refl, sym, ap, ℤ, pos, some_inj, lt→ltb, List, [], ◌∷◌,
  ◌++◌, Option, none, some, Bool, true, false, not, ◌&&◌, ◌==◌, ltb, if◌then◌else◌, arith, length,
  take, drop, take-append-drop, length-append, blit, Option-cases, Bool-cases, inl, inr, ltb→lt,
  le→leb, ltb→le,
}
use zile.Astr.{Astr, size_mod, astr_set_len, astr_new, astr_truncate, astr_remove}
use zile.Buffer.{Marker, get_buffer_pre_point, get_buffer_post_point, get_buffer_size}
use zile.Buffer.Gap.{Shows}
use zile.Buffer.Shows.{Shows-eq}
use zile.Buffer.Copy.{text-get_buffer_pre_point, text-get_buffer_post_point}
use zile.Editor.{Editor}
use zile.Move.{goto_offset}
use zile.Move.Goto.{goto_offset_lem, arrived}
use zile.Minibuffer.{kbd_cancel, kbd_bs}
use zile.Minibuffer.Reads.{astr_cpy_lem}
use zile.Completion.{Completion, Screen}
use zile.Search.{Regex, search, find_substr, int_of, size_sub, no_upper, c_string}
use zile.Isearch.{
  Isearch, has_ctrl, show_prompt, back_to_start, quit_isearch, shorten, fill_pattern, turn,
  search_again, change_pattern, add_to_pattern, error_of, leaves, isearch_loop,
}

-- What `re_search_2` promises: a match lies before the stop.
abbrev pub MatchesBefore : Regex → Type 0
MatchesBefore rx =
    (icase : Bool) (n : List ℕ) (nsize : ℤ) (notbol noteol : Bool) (a : List ℕ) (len1 : ℤ)
    (b : List ℕ) (len2 : ℤ) (start range : ℤ) (stop : ℕ) (r : ℕ × ℕ)
    → rx.re_search_2 icase n nsize notbol noteol a len1 b len2 start range (pos stop) ≡ some r
    → (r.0 ≤ stop) × (r.1 ≤ stop)

int_of-small : (n : ℕ) → n < 2 ^ 31 → int_of n ≡ pos n
int_of-small n lt = let e : n % 2 ^ 32 ≡ n = omega arith in rw (e, lt→ltb n (2 ^ 31) lt) refl

in_range :
    (forward : Bool) (r : ℕ × ℕ) (p n : ℕ)
    → some (if forward then r.1 else r.0) ≡ some p
    → r.0 ≤ n
    → r.1 ≤ n
    → p ≤ n
in_range true r p n e low high = omega (arith, some_inj e)
in_range false r p n e low high = omega (arith, some_inj e)

module _ (rx : Regex) (within : MatchesBefore rx) (as1 as2 : Astr) (n : List ℕ) (nsize from to : ℕ)
    (forward notbol noteol regex icase : Bool)
    (small : length as1.text + length as2.text < 2 ^ 31) where
  -- A match that is found lies in the two strings.
  find_substr-le :
      (p : ℕ)
      → find_substr rx as1 as2 n nsize from to forward notbol noteol regex icase ≡ some p
      → p ≤ length as1.text + length as2.text
  unfolding find_substr
  find_substr-le p h =
      let total = length as1.text + length as2.text in
      let start = if forward then int_of from else int_of (size_sub to 1) in
      let range =
        if forward
        then int_of (size_sub to from)
        else int_of (size_sub 0 (size_sub (size_sub to 1) from)) in
      let match =
        rx.re_search_2 icase n (int_of nsize) notbol noteol as1.text (int_of (length as1.text))
          as2.text (int_of (length as2.text)) start range (int_of total) in
      elim (Option-cases (rx.re_compile_pattern icase n (int_of nsize))) [
        | inr (err, c) ↦ let e = rw (c, find_substr) at h in cc
        | inl c ↦ elim (Option-cases match) [
          | inl m ↦ let e = rw (c, find_substr, m) at h in cc
          | inr (r, m) ↦
              let (low, high) =
                within icase n (int_of nsize) notbol noteol as1.text (int_of (length as1.text))
                  as2.text (int_of (length as2.text)) start range total r
                  (ap
                      (rx.re_search_2 icase n (int_of nsize) notbol noteol as1.text
                        (int_of (length as1.text)) as2.text (int_of (length as2.text)) start range)
                      (sym (int_of-small total small))
                    ∙ m) in
              let e = rw (c, find_substr, m) at h in in_range forward r p total e low high
        ]
      ]

-- The keys after which the search goes on, but for C-q.
abbrev pub GoesOn : ℕ → Type 0
GoesOn c =
    ((c == kbd_cancel) ≡ false) × ((has_ctrl c && c % 256 == b'q') ≡ false) × (leaves c ≡ false)

abbrev pub AllGoOn : List ℕ → Type 0
AllGoOn [] = Unit {0}
AllGoOn (c ∷ keys) = GoesOn c × AllGoOn keys

truncate-some :
    (s : Astr) → 0 < length s.text → (t : Astr) × (astr_truncate s (length s.text - 1) ≡ some t)
unfolding astr_truncate astr_remove
truncate-some s lt =
    let one : (length s.text + size_mod - (length s.text - 1)) % size_mod ≡ 1 = omega arith in
    (
      astr_set_len
          (record s {
            text = blit s.text (length s.text - 1) (drop (length s.text - 1 + 1) s.text);
          })
          (length s.text - 1),
      rw
          (
            one,
            le→leb (length s.text - 1) (length s.text) (omega arith),
            le→leb 1 (length s.text - (length s.text - 1)) (omega arith),
          )
          refl,
    )

module _ (text : List ℕ) (ms : List Marker) (mk : Option ℕ) (fresh : ℕ) where
  -- The text, the markers and the mark have not changed.
  pub record At (ed : Editor) : Type 0 where
    pub pre : List ℕ
    pub post : List ℕ
    pub shows : Shows ed.cur_bp pre post
    pub whole : pre ++ post ≡ text
    pub markers_are : ed.cur_bp.markers ≡ ms
    pub mark_is : ed.cur_bp.mark ≡ mk
    pub fresh_is : ed.fresh ≡ fresh

  abbrev pub Goes : Editor → ℕ → Type 0
  Goes ed o =
      (ed' : Editor) × (goto_offset ed o ≡ some ed')
      × At ed'
      × Shows ed'.cur_bp (take o text) (drop o text)

  pub goto_offset-Goes : (ed : Editor) (o : ℕ) → At ed → o ≤ length text → Goes ed o
  goto_offset-Goes ed o at le =
      let (s, col, resync, p, shows) =
        goto_offset_lem ed at.pre at.post at.shows o (rw at.whole le) in
      let shows' =
        Shows-eq (arrived ed s o col resync).cur_bp (take o (at.pre ++ at.post)) (take o text)
          (drop o (at.pre ++ at.post)) (drop o text) (ap (take o) at.whole) (ap (drop o) at.whole)
          shows in
      (
        arrived ed s o col resync,
        p,
        record {
          pre = take o text;
          post = drop o text;
          shows = shows';
          whole = take-append-drop o text;
          markers_are = at.markers_are;
          mark_is = at.mark_is;
          fresh_is = at.fresh_is;
        },
        shows',
      )

  -- The same with the request to resynchronise.
  pub resynced : (ed : Editor) → At ed → At (record ed { need_resync = true })
  resynced ed at = record {
    pre = at.pre;
    post = at.post;
    shows = record { layout = at.shows.layout; at_pt = at.shows.at_pt };
    whole = at.whole;
    markers_are = at.markers_are;
    mark_is = at.mark_is;
    fresh_is = at.fresh_is;
  }

  module _ (rx : Regex) (within : MatchesBefore rx) (short : length text < 2 ^ 31)
      (fold : Bool) where
    search-At :
        (o : ℕ) (s : List ℕ) (forward regexp : Bool) (ed : Editor)
        → At ed
        → (r : Bool × Editor) × (search rx fold o s forward regexp ed ≡ some r) × At r.1
    unfolding search
    search-At o s forward regexp ed at =
        let bp = ed.cur_bp in
        let size = get_buffer_size bp in
        let match =
          find_substr rx (get_buffer_pre_point bp) (get_buffer_post_point bp) s (length s)
            (if forward then o else 0) (if forward then size else o) forward
            (if forward then ltb 0 o else false) (if forward then false else ltb o size) regexp
            (fold && no_upper s regexp) in
        elim (Bool-cases (length s == 0)) [
          | inl e ↦ ((false, ed), rw e refl, at)
          | inr e ↦ elim (Option-cases match) [
            | inl n ↦ ((false, ed), rw (e, n) refl, at)
            | inr (p, q) ↦
                let total = length-append at.pre at.post in
                let front = ap length (text-get_buffer_pre_point bp at.pre at.post at.shows) in
                let back = ap length (text-get_buffer_post_point bp at.pre at.post at.shows) in
                let le =
                  find_substr-le rx within (get_buffer_pre_point bp) (get_buffer_post_point bp) s
                    (length s) (if forward then o else 0) (if forward then size else o) forward
                    (if forward then ltb 0 o else false) (if forward then false else ltb o size)
                    regexp (fold && no_upper s regexp)
                    (omega (arith, total, ap length at.whole, front, back)) p q in
                let (ed', g, at', _) =
                  goto_offset-Goes ed p at
                    (omega (arith, le, total, ap length at.whole, front, back)) in
                ((true, record ed' { need_resync = true }), rw (e, q, g) refl, resynced ed' at')
          ]
        ]

    module _ (start : ℕ) (le : start ≤ length text) where
      pub record Searching (s : Isearch) : Type 0 where
        pub at : At s.ed
        pub start_is : s.start ≡ start

      abbrev Continues : Option Isearch → Type 0
      Continues o = (s : Isearch) × (o ≡ some s) × Searching s

      back_to_start-Searching : (s : Isearch) → Searching s → Continues (back_to_start s)
      back_to_start-Searching s h =
          let (ed, p, at, _) = goto_offset-Goes s.ed s.start h.at (rw h.start_is le) in
          (
            record s { ed = record ed { need_resync = true } },
            rw p refl,
            record { at = resynced ed at; start_is = h.start_is },
          )

      shorten-Searching : (s : Isearch) → Searching s → Continues (shorten s)
      unfolding shorten
      shorten-Searching s h = elim (Bool-cases (ltb 0 (length s.pattern.text))) [
        | inl e ↦
            let (t, p) = truncate-some s.pattern (ltb→lt _ _ e) in
            let (s', q, h') =
              back_to_start-Searching (record s { pattern = t; cur = s.start })
                (record { at = h.at; start_is = h.start_is }) in
            (s', rw (e, p) q, h')
        | inr e ↦ (s, rw e refl, h)
      ]

      fill_pattern-Searching :
          (o : Option (List ℕ)) (s : Isearch)
          → length s.pattern.text ≡ 0
          → Searching s
          → Continues (fill_pattern o s)
      unfolding fill_pattern
      fill_pattern-Searching none s e h = (s, refl, h)
      fill_pattern-Searching (some text') s e h =
          let (t, p, _) = astr_cpy_lem s.pattern (record astr_new { text = text' }) (omega arith) in
          (record s { pattern = t }, rw p refl, record { at = h.at; start_is = h.start_is })

      abbrev forwarded : ℕ → Isearch → Isearch
      forwarded c s = record s { forward = not (c % 256 == b'r') }

      turn-Searching : (c : ℕ) (s : Isearch) → Searching s → Continues (turn c s)
      unfolding turn
      turn-Searching c s h = elim (Bool-cases (ltb 0 (length s.pattern.text))) [
        | inl e ↦ (
          record (forwarded c s) { cur = s.ed.cur_bp.pt; last_search = some s.pattern.text },
          rw e refl,
          record { at = h.at; start_is = h.start_is },
        )
        | inr e ↦ rw e (
            fill_pattern-Searching s.last_search (forwarded c s) (omega (arith, ltb→le _ _ e))
              (record { at = h.at; start_is = h.start_is }))
      ]

      change_pattern-Searching :
          (c : ℕ) (s : Isearch) → Searching s → Continues (change_pattern c s)
      unfolding change_pattern
      change_pattern-Searching c s h = elim (Bool-cases (c == kbd_bs)) [
        | inl e ↦ rw e (shorten-Searching s h)
        | inr e ↦ elim (Bool-cases (has_ctrl c)) [
          | inl k ↦ rw (e, k) (turn-Searching c s h)
          | inr k ↦
              (add_to_pattern c s, rw (e, k) refl, record { at = h.at; start_is = h.start_is })
        ]
      ]

      search_again-Searching :
          (regexp : Bool) (s : Isearch) → Searching s → Continues (search_again rx fold regexp s)
      unfolding search_again
      search_again-Searching regexp s h = elim (Bool-cases (ltb 0 (length s.pattern.text))) [
        | inl e ↦
            let ((ok, ed), p, at) =
              search-At s.cur (c_string s.pattern.text) s.forward regexp s.ed h.at in
            (
              record s {
                ed = ed;
                last = ok;
                re_find_err = error_of rx fold regexp (c_string s.pattern.text) s;
              },
              rw (e, p) refl,
              record { at = at; start_is = h.start_is },
            )
        | inr e ↦ (record s { last = true }, rw e refl, record { at = h.at; start_is = h.start_is })
      ]

      module _ (isprint : ℕ → Bool) (screen : Screen)
          (sorted_add : List ℕ → List (List ℕ) → List (List ℕ))
          (readdir : Completion → List ℕ → Option (Completion × List ℕ)) (regexp : Bool)
          (rest : List ℕ) (old_mark : Option ℕ) where
        abbrev loop : List ℕ → Isearch → Option Isearch
        loop keys s =
            isearch_loop isprint screen sorted_add readdir rx fold regexp false keys old_mark s

        pub isearch_loop-quit_isearch :
            (keys : List ℕ) (s : Isearch)
            → AllGoOn keys
            → Searching s
            → (s' : Isearch) × (loop (keys ++ kbd_cancel ∷ rest) s ≡ quit_isearch old_mark s')
              × Searching s'
        unfolding isearch_loop show_prompt
        isearch_loop-quit_isearch [] s hs h =
            (show_prompt regexp s, refl, record { at = h.at; start_is = h.start_is })
        isearch_loop-quit_isearch (c ∷ keys) s ((not_quit, not_quoting, stays), hs) h =
            let (s1, p, h1) =
              change_pattern-Searching c (show_prompt regexp s)
                (record { at = h.at; start_is = h.start_is }) in
            let (s2, q, h2) = search_again-Searching regexp s1 h1 in
            let (s', r, h') = isearch_loop-quit_isearch keys s2 hs h2 in
            (s', rw (not_quit, not_quoting, stays, p, q) r, h')
