-- ===== src/Dispatch/Recorded.antt =====
-- Defining a keyboard macro by running commands (call_command of src/bind.c, src/macro.c).
use zile.Prelude.{
  ℕ, ◌≡◌, ◌≢◌, refl, sym, ap, ◌∙◌, List, [], ◌∷◌, ◌++◌, Option, none, some, Bool, true, false, ◌&&◌,
  if◌then◌else◌, ◌>>=◌, pos, append_assoc, append-nil, some_inj, >>=-eq-some, arith,
}
use zile.Editor.{Command}
use zile.Macro.{
  note_key, add_key_to_cmd, Recorder, add_cmd_to_macro, start_kbd_macro, end_kbd_macro,
}
use zile.Macro.Replay.{note_keys}
use zile.Macro.Recording.{
  AllKeys, command-cmd_mp, note_keys-cur_mp, note_key-defining, add_cmd_to_macro-some,
  start_kbd_macro-defining, start_kbd_macro-cur_mp, start_kbd_macro-cmd_mp,
}
use zile.Dispatch.{Loop, Takes, Given, argument, no_flags, ended, after_command, call_command}

note_key-idle : (key : ℕ) (r : Recorder) → r.defining ≡ false → (note_key key r).cmd_mp ≡ r.cmd_mp
unfolding note_key add_key_to_cmd
note_key-idle key r d = rw d (ground arith)

note_keys-idle :
    (keys : List ℕ) (r : Recorder) → r.defining ≡ false → (note_keys keys r).cmd_mp ≡ r.cmd_mp
unfolding note_keys
note_keys-idle [] r d = refl
note_keys-idle (key ∷ keys) r d =
    note_keys-idle keys (note_key key r) (note_key-defining key r ∙ d) ∙ note_key-idle key r d

end_kbd_macro-over :
    (r : Recorder)
    → r.defining ≡ true
    → ((end_kbd_macro r).1.defining ≡ false) × ((end_kbd_macro r).1.cur_mp ≡ r.cur_mp)
unfolding end_kbd_macro
end_kbd_macro-over r d = rw d (refl, refl)

-- A command that is typed: its procedure and its keys.
pub record Typed : Type 0 where
  pub proc : ℕ
  pub keys : List ℕ

unfoldable pub joined_keys : List Typed → List ℕ
joined_keys [] = []
joined_keys (c ∷ cs) = c.keys ++ joined_keys cs

module _ (takes : ℕ → Takes) (command_of : ℕ → Command)
    (call : ℕ → Given → Loop → Option (Bool × Loop)) where
  -- The keys of a command are read, and it is called without an argument.
  abbrev pub run_command : Typed → Loop → Option Loop
  run_command c s = do
    (ok, s1) ←
        call_command takes command_of call c.proc (pos 1) false
          (record s { recorder = note_keys c.keys s.recorder })
    some s1

  unfoldable pub run_commands : List Typed → Loop → Option Loop
  run_commands [] s = some s
  run_commands (c ∷ cs) s = do s1 ← run_command c s; run_commands cs s1

  -- The procedure succeeds, and does to the recorder what the function does.
  abbrev pub Records : (Recorder → Recorder) → ℕ → Type 0
  Records f p =
      (arg : Given) (s : Loop)
      → (r : Bool × Loop) × (call p arg s ≡ some r)
        × (r.1.recorder ≡ f s.recorder)
        × (r.1.last_defining ≡ s.last_defining)

  -- Ordinary commands: the procedure leaves the recorder alone, and there are keys.
  abbrev pub AllOrdinary : List Typed → Type 0
  AllOrdinary [] = Unit {0}
  AllOrdinary (c ∷ cs) = Records (λ r. r) c.proc × (c.keys ≢ []) × AllKeys c.keys × AllOrdinary cs

  -- The recorder behind a command, if its keys are added when both flags say so.
  abbrev recorded : Bool → Recorder → Option Recorder
  recorded last r = if last && r.defining then add_cmd_to_macro r else some r

  abbrev Ends : Option Loop → Recorder → Type 0
  Ends o r = (s : Loop) × (o ≡ some s) × (s.recorder ≡ r) × (s.last_defining ≡ r.defining)

  after_command-Ends :
      (s : Loop) (r : Recorder)
      → recorded s.last_defining s.recorder ≡ some r
      → Ends (after_command s) r
  unfolding after_command
  after_command-Ends s r e = (ended r s, rw e refl, refl, refl)

  -- `thisflag` starts with FLAG_DEFINING_MACRO of `lastflag`.
  run_command-Ends :
      (f : Recorder → Recorder) (c : Typed) (s : Loop) (r : Recorder)
      → Records f c.proc
      → recorded s.last_defining
          (f (record (note_keys c.keys s.recorder) { defining = s.last_defining }))
        ≡ some r
      → Ends (run_command c s) r
  unfolding call_command
  run_command-Ends f c s r h e =
      let noted = note_keys c.keys s.recorder in
      let s0 : Loop = record s {
        ed = record (s.ed) { this_command = command_of c.proc; need_resync = false };
        thisflag = no_flags;
        recorder = record noted { defining = s.last_defining };
        last_uniarg = pos 1;
      } in
      let (q, p, rec, def) = h (argument (takes c.proc) (pos 1) false) s0 in
      let e' = ap (λ b. recorded b q.1.recorder) def ∙ ap (recorded s.last_defining) rec ∙ e in
      let (s2, p2, a, b) = after_command-Ends q.1 r e' in (s2, rw (p, p2) refl, a, b)

  run_commands-Ends :
      (cs : List Typed) (mp : List ℕ) (s : Loop)
      → AllOrdinary cs
      → s.last_defining ≡ true
      → s.recorder.defining ≡ true
      → s.recorder.cmd_mp ≡ none
      → s.recorder.cur_mp ≡ some mp
      → (s1 : Loop) × (run_commands cs s ≡ some s1)
        × (s1.recorder.cur_mp ≡ some (mp ++ joined_keys cs))
        × (s1.recorder.defining ≡ true)
        × (s1.last_defining ≡ true)
  unfolding run_commands joined_keys
  run_commands-Ends [] mp s h l d e m = (s, refl, m ∙ ap some (sym (append-nil mp)), d, l)
  run_commands-Ends (c ∷ cs) mp s (leaves, filled, all, hs) l d e m =
      let noted = note_keys c.keys s.recorder in
      let here = record noted { defining = s.last_defining } in
      let added = record here { cur_mp = some (mp ++ c.keys); cmd_mp = none } in
      let adds =
        add_cmd_to_macro-some here c.keys mp (command-cmd_mp c.keys s.recorder filled all d e)
          (note_keys-cur_mp c.keys s.recorder ∙ m) in
      let test : recorded s.last_defining here ≡ some added =
        ap (λ b. if b && s.last_defining then add_cmd_to_macro here else some here) l
        ∙ ap (λ b. if b then add_cmd_to_macro here else some here) l
        ∙ adds in
      let (s1, p, r, f) = run_command-Ends (λ r. r) c s added leaves test in
      let def = ap (λ (r : Recorder). r.defining) r ∙ l in
      let (s2, q, cur, def2, last2) =
        run_commands-Ends cs (mp ++ c.keys) s1 hs (f ∙ l) def (ap (λ (r : Recorder). r.cmd_mp) r)
          (ap (λ (r : Recorder). r.cur_mp) r) in
      (s2, rw (p, q) refl, cur ∙ ap some (append_assoc mp c.keys (joined_keys cs)), def2, last2)

  run_commands-append :
      (cs ds : List Typed) (s s1 : Loop)
      → run_commands cs s ≡ some s1
      → run_commands (cs ++ ds) s ≡ run_commands ds s1
  unfolding run_commands
  run_commands-append [] ds s s1 h = ap (run_commands ds) (some_inj h)
  run_commands-append (c ∷ cs) ds s s1 h =
      let (s2, e, h1) = >>=-eq-some (run_command c s) _ h in
      rw e (run_commands-append cs ds s2 s1 h1)

  opens :
      (sp : ℕ) (opening : List ℕ) (s : Loop)
      → Records (λ r. (start_kbd_macro r).1) sp
      → s.last_defining ≡ false
      → s.recorder.defining ≡ false
      → s.recorder.cmd_mp ≡ none
      → (s1 : Loop) × (run_command (record { proc = sp; keys = opening }) s ≡ some s1)
        × (s1.last_defining ≡ true)
        × (s1.recorder.defining ≡ true)
        × (s1.recorder.cmd_mp ≡ none)
        × (s1.recorder.cur_mp ≡ some [])
  opens sp opening s h l d e =
      let here = record (note_keys opening s.recorder) { defining = s.last_defining } in
      let f = λ (r : Recorder). (start_kbd_macro r).1 in
      let test : recorded s.last_defining (f here) ≡ some (f here) =
        ap (λ b. if b && (f here).defining then add_cmd_to_macro (f here) else some (f here)) l in
      let (s1, p, r, last) =
        run_command-Ends f (record { proc = sp; keys = opening }) s (f here) h test in
      let none_left = note_keys-idle opening s.recorder d ∙ e in
      (
        s1,
        p,
        last ∙ start_kbd_macro-defining here l,
        ap (λ (r : Recorder). r.defining) r ∙ start_kbd_macro-defining here l,
        ap (λ (r : Recorder). r.cmd_mp) r ∙ start_kbd_macro-cmd_mp here l (λ q. none_left),
        ap (λ (r : Recorder). r.cur_mp) r ∙ start_kbd_macro-cur_mp here l,
      )

  closes :
      (ep : ℕ) (closing : List ℕ) (s : Loop)
      → Records (λ r. (end_kbd_macro r).1) ep
      → s.last_defining ≡ true
      → (s1 : Loop) × (run_command (record { proc = ep; keys = closing }) s ≡ some s1)
        × (s1.last_defining ≡ false)
        × (s1.recorder.defining ≡ false)
        × (s1.recorder.cur_mp ≡ s.recorder.cur_mp)
  closes ep closing s h l =
      let here = record (note_keys closing s.recorder) { defining = s.last_defining } in
      let (over, kept) = end_kbd_macro-over here l in
      let f = λ (r : Recorder). (end_kbd_macro r).1 in
      let test : recorded s.last_defining (f here) ≡ some (f here) =
        ap (λ b. if b && (f here).defining then add_cmd_to_macro (f here) else some (f here)) l
        ∙ ap (λ b. if b then add_cmd_to_macro (f here) else some (f here)) over in
      let (s1, p, r, last) =
        run_command-Ends f (record { proc = ep; keys = closing }) s (f here) h test in
      (
        s1,
        p,
        last ∙ over,
        ap (λ (r : Recorder). r.defining) r ∙ over,
        ap (λ (r : Recorder). r.cur_mp) r ∙ kept ∙ note_keys-cur_mp closing s.recorder,
      )

  -- When no macro is being defined and no keys are left over, running the command that starts the
  -- definition, ordinary commands, and the one that ends it succeeds, if the two procedures do to
  -- the recorder what start-kbd-macro and end-kbd-macro do, and the ordinary ones leave it alone
  -- and each have a key and no KBD_NOKEY: the keys of the ordinary commands, in their order, are
  -- the macro, without those that start and end it, and the definition is over.
  pub run_commands-Records :
      (sp ep : ℕ) (opening closing : List ℕ) (cs : List Typed) (s : Loop)
      → Records (λ r. (start_kbd_macro r).1) sp
      → Records (λ r. (end_kbd_macro r).1) ep
      → AllOrdinary cs
      → s.last_defining ≡ false
      → s.recorder.defining ≡ false
      → s.recorder.cmd_mp ≡ none
      → (s1 : Loop) × (run_commands
            (record { proc = sp; keys = opening }
              ∷ (cs ++ record { proc = ep; keys = closing } ∷ []))
            s
          ≡ some s1)
        × (s1.recorder.cur_mp ≡ some (joined_keys cs))
        × (s1.recorder.defining ≡ false)
        × (s1.last_defining ≡ false)
  unfolding run_commands
  run_commands-Records sp ep opening closing cs s starts ends all l d e =
      let (s1, p, l1, d1, e1, m1) = opens sp opening s starts l d e in
      let (s2, p2, m2, d2, l2) = run_commands-Ends cs [] s1 all l1 d1 e1 m1 in
      let (s3, p3, l3, d3, m3) = closes ep closing s2 ends l2 in
      (
        s3,
        rw (p, run_commands-append cs (record { proc = ep; keys = closing } ∷ []) s1 s2 p2, p3)
            refl,
        m3 ∙ m2,
        d3,
        l3,
      )
